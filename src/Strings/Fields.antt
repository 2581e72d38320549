-- ===== src/Strings/Fields.antt =====
-- Extensions and fields of strings, pico/lib/picoos.c.
use platform_external_svox.Common.{
  take_all, get_or-middle, ℕ, zero, suc, ◌+◌, ◌-◌, ◌<◌, ◌≤◌, ◌≡◌, ◌≢◌, ◌↔◌, inl, inr, true, false,
  ◌||◌, List, [], ◌∷◌, ◌++◌, ltb, leb, ◌==◌, length, get_or, take, drop, All, refl, ap, ap₂, sym,
  ◌∙◌, arith, append_assoc, length-append, Bool-cases, ==_iff, drop-length-append,
}
use platform_external_svox.Strings.{extension_loop, has_extension, part_loop, get_sep_part_str}

-- The last `j` of the first `i` characters of a string are the first `j` of the other.
abbrev pub EndsWith : List ℕ → List ℕ → ℕ → ℕ → Type 0
EndsWith str suf i j = (j ≤ i) × ((k : ℕ) → k < j → get_or str (i - j + k) 0 ≡ get_or suf k 0)

extension_loop-EndsWith :
    (str suf : List ℕ) (i j : ℕ) → extension_loop str suf i j ≡ true → EndsWith str suf i j
unfolding extension_loop
extension_loop-EndsWith str suf i zero h = (omega arith, λ k l. absurd (omega arith))
extension_loop-EndsWith str suf zero (suc j) h = absurd (ground arith)
extension_loop-EndsWith str suf (suc i) (suc j) h =
    elim (Bool-cases (get_or str i 0 == get_or suf j 0)) [
      | inr other ↦ absurd (ground (arith, rw other at h))
      | inl same ↦
          let (le, rest) = extension_loop-EndsWith str suf i j (rw same at h) in
          (
            omega (arith, le),
            λ k l. elim (Bool-cases (k == j)) [
              | inl last ↦
                  let at : k ≡ j = (==_iff k j).0 last in
                  let here : suc i - suc j + k ≡ i = omega arith in
                  ap (λ q. get_or str q 0) here
                  ∙ (==_iff _ _).0 same
                  ∙ ap (λ q. get_or suf q 0) (sym at)
              | inr before ↦
                  ap (λ q. get_or str q 0) {y = i - j + k} (omega arith)
                  ∙ rest k (ground (arith, before))
            ],
          )
    ]

EndsWith-extension_loop :
    (str suf : List ℕ) (i j : ℕ) → EndsWith str suf i j → extension_loop str suf i j ≡ true
unfolding extension_loop
EndsWith-extension_loop str suf i zero h = refl
EndsWith-extension_loop str suf zero (suc j) (le, h) = absurd (omega arith)
EndsWith-extension_loop str suf (suc i) (suc j) (le, h) =
    let last : get_or str i 0 ≡ get_or suf j 0 =
      ap (λ q. get_or str q 0) {x = i} {y = suc i - suc j + j} (omega arith) ∙ h j (omega arith) in
    let same : (get_or str i 0 == get_or suf j 0) ≡ true = (==_iff _ _).1 last in
    rw same (
      EndsWith-extension_loop str suf i j (
        omega arith,
        λ k l.
            ap (λ q. get_or str q 0) {x = i - j + k} {y = suc i - suc j + k} (omega arith)
            ∙ h k (omega arith),
      ))

-- picoos_has_extension holds of strings just if the second is not longer than the first, and the last
-- characters of the first are those of the second.
pub has_extension_iff :
    (str suf : List ℕ) → (has_extension str suf ≡ true) ↔ EndsWith str suf (length str) (length suf)
unfolding has_extension
has_extension_iff str suf = (
  extension_loop-EndsWith str suf (length str) (length suf),
  EndsWith-extension_loop str suf (length str) (length suf),
)

-- A character of a field.
abbrev pub IsFieldChar : ℕ → ℕ → Type 0
IsFieldChar sep c = (c ≢ sep) × (c ≢ 0)

part_loop_lem :
    (part rest : List ℕ) (sep room : ℕ)
    → All (IsFieldChar sep) part
    → length part ≤ room
    → part_loop (part ++ (sep ∷ rest)) sep room ≡ (part, true, length part)
unfolding part_loop
part_loop_lem [] rest sep room a h =
    let stop : ((sep == sep) || (sep == 0)) ≡ true = ground arith in rw stop refl
part_loop_lem (c ∷ part) rest sep room ((ne, nz), a) h =
    let go : ((c == sep) || (c == 0)) ≡ false = ground arith in
    let free : ltb 0 room ≡ true = ground arith in
    let e = part_loop_lem part rest sep (room - 1) a (omega arith) in
    rw (go, free, e) (ap (λ n. (c ∷ part, true, n)) (omega arith))

-- In a string of fields, each closed by a separator, picoos_get_sep_part_str at the start of a field
-- that is shorter than the maximal size gives that field, reports success, and moves to the start of
-- the next one.
pub get_sep_part_str_lem :
    (pre part rest : List ℕ) (sep maxsize : ℕ)
    → All (IsFieldChar sep) part
    → length part < maxsize
    → let string = pre ++ (part ++ (sep ∷ rest)) in
      get_sep_part_str string (length string) (length pre) sep maxsize
      ≡ (part, true, length (pre ++ part) + 1)
unfolding get_sep_part_str
get_sep_part_str_lem pre part rest sep maxsize a h =
    let string : List ℕ = pre ++ (part ++ (sep ∷ rest)) in
    let whole : take (length string) string ≡ string =
      take_all string (length string) (omega arith) in
    let left : drop (length pre) string ≡ part ++ (sep ∷ rest) =
      drop-length-append pre (part ++ (sep ∷ rest)) in
    let loop : part_loop (part ++ (sep ∷ rest)) sep (maxsize - 1) ≡ (part, true, length part) =
      part_loop_lem part rest sep (maxsize - 1) a (omega arith) in
    let len : length string ≡ length pre + length part + 1 + length rest =
      omega (arith, length-append pre (part ++ (sep ∷ rest)), length-append part (sep ∷ rest)) in
    let inside : leb (length string) (length pre) ≡ false = ground (arith, len) in
    let more : ltb (length pre + length part) (length string) ≡ true = ground (arith, len) in
    let at : get_or string (length pre + length part) 0 ≡ sep =
      ap₂ (λ s n. get_or s n 0) (sym (append_assoc pre part (sep ∷ rest)))
        (sym (length-append pre part))
      ∙ get_or-middle (pre ++ part) sep rest (length (pre ++ part)) 0 refl in
    let same : (sep == sep) ≡ true = (==_iff sep sep).1 refl in
    rw (whole, left, loop, inside, more, at, same)
      (ap (λ n. (part, true, n + 1)) (sym (length-append pre part)))
