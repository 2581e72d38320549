-- ===== src/Strings.antt =====
-- Numbers in strings and in memory, extensions, and fields of strings: pico/lib/picoos.c. A string is
-- the list of its bytes; it ends at a 0 or at the list's end, where a read gives 0.
pub mod Numbers
pub mod Fields
mod Tests
use platform_external_svox.Common.{
  ℕ, zero, suc, ◌+◌, ◌-◌, ◌*◌, ◌/◌, ◌%◌, Bool, true, false, not, ◌&&◌, ◌||◌, List, [], ◌∷◌, ◌++◌,
  ltb, leb, ◌==◌, if◌then◌else◌, length, get_or, set, take, drop, u16_mod, u32_mod, ℤ, pos, negsuc,
  from_word,
}
use platform_external_svox.Status.{Status, ok, exc_number_format}

-- `while ((str[i] <= ' ') && (str[i] != '\0'))`: the rest of the string
pub skip_spaces : List ℕ → List ℕ
skip_spaces [] = []
skip_spaces (c ∷ s) = let rest = skip_spaces s in if leb c 32 && not (c == 0) then rest else c ∷ s

-- '0' to '9'
abbrev pub is_digit : ℕ → Bool
is_digit c = leb 48 c && leb c 57

-- The digits' loop: `val`, an int that wraps, and the rest of the string
pub digits_loop : List ℕ → ℕ → ℕ × List ℕ
digits_loop [] val = (val, [])
digits_loop (c ∷ s) val =
    let rest = digits_loop s ((val * 10 + (c - 48)) % u32_mod) in
    if is_digit c then rest else (val, c ∷ s)

abbrev pub head : List ℕ → ℕ
head s = get_or s 0 0

-- The number behind the sign, as `val`, and whether it is well-formed up to the string's end.
pub unsigned_part : List ℕ → ℕ × Bool
unsigned_part s =
    let r = digits_loop s 0 in (r.0, is_digit (head s) && (head (skip_spaces r.1) == 0))

-- `picoos_string_to_int32`: `*res` and the status. Signs are '-' and '+'.
pub string_to_int32 : List ℕ → ℤ × Status
string_to_int32 str =
    let s = skip_spaces str in
    let signed = unsigned_part (drop 1 s) in
    let plain = unsigned_part s in
    if head s == 45
    then (if signed.1
        then (from_word u32_mod ((u32_mod - signed.0) % u32_mod), ok)
        else (pos 0, exc_number_format))
    else if head s == 43
    then (if signed.1 then (from_word u32_mod signed.0, ok) else (pos 0, exc_number_format))
    else if plain.1
    then (from_word u32_mod plain.0, ok)
    else (pos 0, exc_number_format)

-- `picoos_string_to_uint32`
pub string_to_uint32 : List ℕ → ℕ × Status
string_to_uint32 str =
    let s = skip_spaces str in
    let signed = unsigned_part (drop 1 s) in
    let plain = unsigned_part s in
    if head s == 43
    then (if signed.1 then (signed.0, ok) else (0, exc_number_format))
    else if plain.1
    then (plain.0, ok)
    else (0, exc_number_format)

-- `picoos_read_mem_pi_uint16` and `picoos_read_mem_pi_uint32`: the value and the new `*pos`
unfoldable pub read_mem_pi_uint16 : List ℕ → ℕ → ℕ × ℕ
read_mem_pi_uint16 mem p = (get_or mem (p + 1) 0 * 256 + get_or mem p 0, p + 2)

pub read_mem_pi_uint32 : List ℕ → ℕ → ℕ × ℕ
read_mem_pi_uint32 mem p = (
  ((get_or mem (p + 3) 0 * 256 + get_or mem (p + 2) 0) * 256 + get_or mem (p + 1) 0) * 256
      + get_or mem p 0,
  p + 4,
)

-- `picoos_write_mem_pi_uint16`: the memory and the new `*pos`
pub write_mem_pi_uint16 : List ℕ → ℕ → ℕ → List ℕ × ℕ
write_mem_pi_uint16 mem p val = (set (set mem p (val % 256)) (p + 1) (val / 256 % 256), p + 2)

-- The loop of `picoos_has_extension` with `i` and `j` characters left of the two strings.
pub extension_loop : List ℕ → List ℕ → ℕ → ℕ → Bool
extension_loop str suf i zero = true
extension_loop str suf zero (suc j) = false
extension_loop str suf (suc i) (suc j) =
    let rest = extension_loop str suf i j in
    if get_or str i 0 == get_or suf j 0 then rest else false

-- `picoos_has_extension` of strings without a 0
pub has_extension : List ℕ → List ℕ → Bool
has_extension str suf = extension_loop str suf (length str) (length suf)

-- The loop of `picoos_get_sep_part_str` over what is left of the string, with room for `room` more
-- characters: the part, `done1`, and the number of characters passed.
pub part_loop : List ℕ → ℕ → ℕ → List ℕ × Bool × ℕ
part_loop [] sep room = ([], true, 0)
part_loop (c ∷ s) sep room =
    let kept = part_loop s sep (room - 1) in
    let full = part_loop s sep 0 in
    if (c == sep) || (c == 0)
    then ([], true, 0)
    else if ltb 0 room
    then (c ∷ kept.0, kept.1, kept.2 + 1)
    else ([], false, full.2 + 1)

-- `picoos_get_sep_part_str`: `part` without its closing 0, `*done`, and the new `*ind`
pub get_sep_part_str : List ℕ → ℕ → ℕ → ℕ → ℕ → List ℕ × Bool × ℕ
get_sep_part_str string stringlen ind sep maxsize =
    let r = part_loop (drop ind (take stringlen string)) sep (maxsize - 1) in
    let ind' = ind + r.2 in
    if leb stringlen ind then ([], false, ind) else (
      r.0,
      r.1,
      (if ltb ind' stringlen
          then (if get_or string ind' 0 == sep
              then ind' + 1
              else if get_or string ind' 0 == 0
              then stringlen
              else ind')
          else ind'),
    )
