-- ===== src/Utf8.antt =====
-- UTF-8 strings: pico/lib/picobase.c. A string is the list of its bytes, which ends at a 0; a read
-- behind the list's end, which C leaves undefined, gives 0. Output buffers are results of their
-- own: a caller that converts a string in place needs that the output is not longer.
pub mod Case
pub mod Lowercase
pub mod Uppercase
pub mod Casing
pub mod Encoding
pub mod Length
pub mod Letters
pub mod Walk
pub mod Fold
mod Tests
use platform_external_svox.Common.{
  ℕ, zero, suc, ◌+◌, ◌-◌, ◌*◌, ◌/◌, ◌%◌, Bool, true, false, not, ◌&&◌, ◌||◌, Option, none, some,
  List, [], ◌∷◌, ◌++◌, ltb, leb, ◌==◌, if◌then◌else◌, length, get_or, take, drop, u32_mod,
}
use platform_external_svox.Utf8.Lowercase.{base_utf32_lowercase}
use platform_external_svox.Utf8.Uppercase.{base_utf32_uppercase}

-- `picobase_det_utf8_length`
pub det_utf8_length : ℕ → ℕ
det_utf8_length x =
    if ltb x 128
    then 1
    else if leb 248 x
    then 0
    else if leb 240 x
    then 4
    else if leb 224 x
    then 3
    else if leb 192 x
    then 2
    else 0

-- PICOBASE_UTF8_MAXLEN
abbrev pub utf8_maxlen : ℕ
utf8_maxlen = 4

-- The loop of `picobase_utf8_length` over the bytes below `maxlen`; `none` stands for -1.
pub length_loop : List ℕ → ℕ → ℕ → Option ℕ
length_loop [] follow len = some len
length_loop (b ∷ s) follow len =
    let next = length_loop s (follow - 1) len in
    let one = length_loop s 0 (len + 1) in
    let two = length_loop s 1 (len + 1) in
    let three = length_loop s 2 (len + 1) in
    let four = length_loop s 3 (len + 1) in
    if b == 0
    then some len
    else if ltb 0 follow
    then (if leb 128 b && ltb b 192 then next else none)
    else if ltb b 128
    then one
    else if leb 248 b
    then none
    else if leb 240 b
    then four
    else if leb 224 b
    then three
    else if leb 192 b
    then two
    else none

-- `picobase_utf8_length`; `maxlen` is a `picoos_uint16`.
pub utf8_length : List ℕ → ℕ → Option ℕ
utf8_length s maxlen = length_loop (take maxlen s) 0 0

-- At most `n` bytes, up to a 0: what the loops that copy a character copy.
pub copy_char : ℕ → List ℕ → List ℕ
copy_char zero s = []
copy_char (suc n) [] = []
copy_char (suc n) (b ∷ s) = if b == 0 then [] else b ∷ copy_char n s

-- `picobase_get_utf8char`: the character without its closing 0, and the new `*pos`.
pub get_utf8char : List ℕ → ℕ → List ℕ × ℕ
get_utf8char s p =
    let c = copy_char (det_utf8_length (get_or s p 0)) (drop p s) in (c, p + length c)

-- `picobase_get_next_utf8char`: the result, `*pos`, and the character without its closing 0.
pub get_next_utf8char : List ℕ → ℕ → ℕ → Bool × ℕ × List ℕ
get_next_utf8char s slenmax p =
    let len = det_utf8_length (get_or s p 0) in
    let c = copy_char len (drop p s) in
    if ltb slenmax ((p + len) % u32_mod) || ltb utf8_maxlen len
    then (false, p, [])
    else if ltb (length c) len
    then (false, p, c)
    else (true, (p + length c) % u32_mod, c)

-- `picobase_get_next_utf8charpos`
pub get_next_utf8charpos : List ℕ → ℕ → ℕ → Bool × ℕ
get_next_utf8charpos s slenmax p =
    let len = det_utf8_length (get_or s p 0) in
    let c = copy_char len (drop p s) in
    if ltb slenmax ((p + len) % u32_mod) || ltb utf8_maxlen len
    then (false, p)
    else if ltb (length c) len
    then (false, p)
    else (true, (p + length c) % u32_mod)

-- The loop of `picobase_get_prev_utf8charpos`, for `n` more values of `i`: where a character of `i`
-- bytes starts. `poscnt--` wraps below 0.
pub prev_loop : ℕ → ℕ → ℕ → List ℕ → ℕ → Option ℕ
prev_loop zero i p s slenmin = none
prev_loop (suc n) i p s slenmin =
    let rest = prev_loop n (i + 1) ((p + u32_mod - 1) % u32_mod) s slenmin in
    if leb slenmin p && not (get_or s p 0 == 0)
    then (if det_utf8_length (get_or s p 0) == i then some p else rest)
    else none

-- `picobase_get_prev_utf8charpos`: the new `*pos`, `none` for FALSE
pub get_prev_utf8charpos : List ℕ → ℕ → ℕ → Option ℕ
get_prev_utf8charpos s slenmin p =
    if p == 0 then none else prev_loop utf8_maxlen 1 (p - 1) s slenmin

-- `picobase_get_prev_utf8char`: the new `*pos` and the character
pub get_prev_utf8char : List ℕ → ℕ → ℕ → Option (ℕ × List ℕ)
get_prev_utf8char s slenmin p = elim (get_prev_utf8charpos s slenmin p) [
  | none ↦ none
  | some q ↦ some (q, take (det_utf8_length (get_or s q 0)) (drop q s))
]

-- `picobase_utf8_to_utf32`: the scalar and `*done`. Behind its closing 0 the character reads as 0.
pub utf8_to_utf32 : List ℕ → ℕ × Bool
utf8_to_utf32 utf8 =
    let b : ℕ → ℕ = λ i. get_or utf8 i 0 in
    if ltb (b 0) 128
    then (b 0, true)
    else if leb 248 (b 0)
    then (0, true)
    else if leb 240 (b 0)
    then (262144 * (b 0 % 8) + 4096 * (b 1 % 64) + 64 * (b 2 % 64) + b 3 % 64, true)
    else if leb 224 (b 0)
    then (4096 * (b 0 % 16) + 64 * (b 1 % 64) + b 2 % 64, true)
    else if leb 192 (b 0)
    then (64 * (b 0 % 32) + b 1 % 64, true)
    else (0, false)

-- `picobase_utf32_to_utf8`: the bytes written before the closing 0, as many as it returns, and
-- `*done`
pub utf32_to_utf8 : ℕ → ℕ → List ℕ × Bool
utf32_to_utf8 utf32 utf8_max_len =
    if ltb utf8_max_len 4
    then ([], false)
    else if ltb utf32 128
    then (utf32 ∷ [], true)
    else if ltb utf32 2048
    then ((192 + utf32 / 64 % 32) ∷ (128 + utf32 % 64) ∷ [], true)
    else if ltb utf32 65536
    then ((224 + utf32 / 64 / 64) ∷ (128 + utf32 / 64 % 64) ∷ (128 + utf32 % 64) ∷ [], true)
    else if ltb utf32 1048576
    then (
      (240 + utf32 / 64 / 64 / 64)
          ∷ (128 + utf32 / 64 / 64 % 64)
          ∷ (128 + utf32 / 64 % 64)
          ∷ (128 + utf32 % 64)
          ∷ [],
      true,
    )
    else ([], false)

-- The loop of `picobase_lowercase_utf8_str` and `picobase_uppercase_utf8_str`, at position `i` of the
-- string, with `k` bytes written: the bytes written from there on, and `*done`. One round is a
-- character; `none` if the rounds do not suffice.
pub case_loop : (ℕ → ℕ) → ℕ → List ℕ → ℕ → ℕ → ℕ → Bool → Option (List ℕ × Bool)
case_loop f zero s max i k done = none
case_loop f (suc fuel) s max i k done =
    let c = get_utf8char s i in
    let enc = (utf32_to_utf8 (f (utf8_to_utf32 c.0).0) utf8_maxlen).0 in
    let w = take (max - 1 - k) enc in
    let rest = case_loop f fuel s max c.1 (k + length w) (done && length w == length enc) in
    if get_or s i 0 == 0
    then some ([], done)
    else elim rest [ none ↦ none | some r ↦ some (w ++ r.0, r.1) ]

-- The bytes before the closing 0, and `*done`
pub lowercase_utf8_str : ℕ → List ℕ → ℕ → Option (List ℕ × Bool)
lowercase_utf8_str fuel s max = case_loop base_utf32_lowercase fuel s max 0 0 true

pub uppercase_utf8_str : ℕ → List ℕ → ℕ → Option (List ℕ × Bool)
uppercase_utf8_str fuel s max = case_loop base_utf32_uppercase fuel s max 0 0 true

-- The loop of `picobase_is_utf8_lowercase` and `picobase_is_utf8_uppercase`
pub is_case_loop : (ℕ → ℕ) → ℕ → List ℕ → ℕ → ℕ → Option Bool
is_case_loop f zero s maxlen i = none
is_case_loop f (suc fuel) s maxlen i =
    let c = get_utf8char s i in
    let x = (utf8_to_utf32 c.0).0 in
    let rest = is_case_loop f fuel s maxlen c.1 in
    if leb maxlen i || get_or s i 0 == 0 then some true else if x == f x then rest else some false

pub is_utf8_lowercase : ℕ → List ℕ → ℕ → Option Bool
is_utf8_lowercase fuel s maxlen = is_case_loop base_utf32_lowercase fuel s maxlen 0

pub is_utf8_uppercase : ℕ → List ℕ → ℕ → Option Bool
is_utf8_uppercase fuel s maxlen = is_case_loop base_utf32_uppercase fuel s maxlen 0
