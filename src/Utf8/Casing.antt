-- ===== src/Utf8/Casing.antt =====
-- The case mappings of pico/lib/picobase.c keep scalars within their encodings' sizes.
use platform_external_svox.Common.{
  ℕ, ◌<◌, ◌≤◌, ◌≡◌, true, ◌&&◌, List, [], ◌∷◌, ◌++◌, ltb, leb, arith, Bool-cases, inl, inr, ltb→lt,
  leb→le, refl, both,
}
use platform_external_svox.Utf8.Case.{
  Change, Row, up, down, up_if_even, up_if_odd, down_if_even, down_if_odd, down_but_247, becomes,
  in_range, apply_change, map_by, encoded_length, IsCased, least, largest, row_ok, rows_ok,
}
use platform_external_svox.Utf8.Lowercase.{
  lowercase_extended, lowercase_ranges, lowercase_letters, base_utf32_lowercase,
}
use platform_external_svox.Utf8.Uppercase.{
  uppercase_extended, uppercase_ranges, uppercase_letters, base_utf32_uppercase,
}

encoded_length_mono : (a b : ℕ) → a ≤ b → encoded_length a ≤ encoded_length b
encoded_length_mono a b h = ground arith

-- A row's results lie between its least and its greatest one.
change_bounds :
    (c : Change) (lo hi x : ℕ)
    → lo ≤ x
    → x ≤ hi
    → let r : Row = record { first = lo; last = hi; change = c } in
      (least r ≤ apply_change c x) × (apply_change c x ≤ largest r)
unfolding apply_change
change_bounds (up k) lo hi x h l = ground arith
change_bounds (down k) lo hi x h l = ground arith
change_bounds (up_if_even k) lo hi x h l = ground arith
change_bounds (up_if_odd k) lo hi x h l = ground arith
change_bounds (down_if_even k) lo hi x h l = ground arith
change_bounds (down_if_odd k) lo hi x h l = ground arith
change_bounds (down_but_247 k) lo hi x h l = ground arith
change_bounds (becomes c) lo hi x h l = ground arith

row_ok_lem :
    (r : Row) (x : ℕ)
    → row_ok r ≡ true
    → in_range r.first r.last x ≡ true
    → IsCased x (apply_change r.change x)
row_ok_lem r x ok inside =
    let (ac, d) = both (ltb 0 (least r) && ltb (largest r) 1048576) _ ok in
    let (a, c) = both (ltb 0 (least r)) (ltb (largest r) 1048576) ac in
    let (lo, hi) = both (leb r.first x) (leb x r.last) inside in
    let lo' = leb→le r.first x lo in
    let bounds = change_bounds r.change r.first r.last x lo' (leb→le x r.last hi) in
    let least_pos = ltb→lt 0 (least r) a in
    let largest_lt = ltb→lt (largest r) 1048576 c in
    (
      omega (arith, bounds, least_pos),
      omega (arith, bounds, largest_lt),
      omega (arith, leb→le _ _ d, encoded_length_mono _ _ bounds.1, encoded_length_mono _ _ lo'),
    )

map_by-IsCased :
    (rows : List Row) (x : ℕ)
    → rows_ok rows ≡ true
    → 0 < x
    → x < 1048576
    → IsCased x (map_by rows x)
unfolding map_by
map_by-IsCased [] x ok p h = (p, h, omega arith)
map_by-IsCased (r ∷ rows) x ok p h =
    let (here, there) = both (row_ok r) (rows_ok rows) ok in
    elim (Bool-cases (in_range r.first r.last x)) [
      | inl inside ↦ rw inside (row_ok_lem r x here inside)
      | inr outside ↦ rw outside (map_by-IsCased rows x there p h)
    ]

lowercase_extended_ok : rows_ok lowercase_extended ≡ true
unfolding lowercase_extended
lowercase_extended_ok = refl

lowercase_ok : rows_ok (lowercase_ranges ++ lowercase_letters) ≡ true
unfolding lowercase_ranges lowercase_letters
lowercase_ok = refl

uppercase_extended_ok : rows_ok uppercase_extended ≡ true
unfolding uppercase_extended
uppercase_extended_ok = refl

uppercase_ok : rows_ok (uppercase_ranges ++ uppercase_letters) ≡ true
unfolding uppercase_ranges uppercase_letters
uppercase_ok = refl

-- base_utf32_lowercase gives, for every scalar from 1 to 2^20 - 1, a scalar in that range whose
-- UTF-8 encoding takes no more bytes.
pub base_utf32_lowercase-IsCased :
    (x : ℕ) → 0 < x → x < 1048576 → IsCased x (base_utf32_lowercase x)
unfolding base_utf32_lowercase apply_change
base_utf32_lowercase-IsCased x p h = elim (Bool-cases (in_range 65313 65338 x)) [
  | inl wide ↦
      rw wide (row_ok_lem (record { first = 65313; last = 65338; change = up 32 }) x refl wide)
  | inr not_wide ↦ rw not_wide (elim (Bool-cases (in_range 66560 66599 x)) [
    | inl deseret ↦
        rw deseret
          (row_ok_lem (record { first = 66560; last = 66599; change = up 40 }) x refl deseret)
    | inr other ↦ rw other (elim (Bool-cases (in_range 7680 9423 x)) [
      | inl ext ↦ rw ext (map_by-IsCased lowercase_extended x lowercase_extended_ok p h)
      | inr basic ↦
          rw basic (map_by-IsCased (lowercase_ranges ++ lowercase_letters) x lowercase_ok p h)
    ])
  ])
]

-- base_utf32_uppercase gives, for every scalar from 1 to 2^20 - 1, a scalar in that range whose
-- UTF-8 encoding takes no more bytes.
pub base_utf32_uppercase-IsCased :
    (x : ℕ) → 0 < x → x < 1048576 → IsCased x (base_utf32_uppercase x)
unfolding base_utf32_uppercase apply_change
base_utf32_uppercase-IsCased x p h = elim (Bool-cases (in_range 65345 65370 x)) [
  | inl wide ↦
      rw wide (row_ok_lem (record { first = 65345; last = 65370; change = down 32 }) x refl wide)
  | inr not_wide ↦ rw not_wide (elim (Bool-cases (in_range 66600 66639 x)) [
    | inl deseret ↦
        rw deseret
          (row_ok_lem (record { first = 66600; last = 66639; change = down 40 }) x refl deseret)
    | inr other ↦ rw other (elim (Bool-cases (in_range 7681 9449 x)) [
      | inl ext ↦ rw ext (map_by-IsCased uppercase_extended x uppercase_extended_ok p h)
      | inr basic ↦
          rw basic (map_by-IsCased (uppercase_ranges ++ uppercase_letters) x uppercase_ok p h)
    ])
  ])
]
