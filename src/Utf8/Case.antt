-- ===== src/Utf8/Case.antt =====
-- Tables of case mappings: the rows of the `switch` statements of pico/lib/picobase.c, and what a
-- table of well-behaved rows gives.
use platform_external_svox.Common.{
  ℕ, ◌+◌, ◌-◌, ◌%◌, ◌<◌, ◌≤◌, Bool, true, ◌&&◌, List, [], ◌∷◌, ltb, leb, ◌==◌, if◌then◌else◌,
}

-- What the branch of a row does to a scalar.
pub data Change : Type 0 where
  up down up_if_even up_if_odd down_if_even down_if_odd down_but_247 becomes : ℕ → Change

pub record Row : Type 0 where
  pub first : ℕ
  pub last : ℕ
  pub change : Change

abbrev pub row : ℕ → ℕ → Change → Row
row lo hi c = record { first = lo; last = hi; change = c }

abbrev pub in_range : ℕ → ℕ → ℕ → Bool
in_range lo hi x = leb lo x && leb x hi

unfoldable pub apply_change : Change → ℕ → ℕ
apply_change (up k) x = x + k
apply_change (down k) x = x - k
apply_change (up_if_even k) x = if x % 2 == 1 then x else x + k
apply_change (up_if_odd k) x = if x % 2 == 1 then x + k else x
apply_change (down_if_even k) x = if x % 2 == 1 then x else x - k
apply_change (down_if_odd k) x = if x % 2 == 1 then x - k else x
apply_change (down_but_247 k) x = if x == 247 then x else x - k
apply_change (becomes c) x = c

-- The first row with the scalar; a scalar of no row stays.
unfoldable pub map_by : List Row → ℕ → ℕ
map_by [] x = x
map_by (r ∷ rows) x =
    let rest = map_by rows x in if in_range r.first r.last x then apply_change r.change x else rest

-- The bytes of the encoding of a scalar below 2^20.
abbrev pub encoded_length : ℕ → ℕ
encoded_length x = if ltb x 128 then 1 else if ltb x 2048 then 2 else if ltb x 65536 then 3 else 4

-- A result that a row may give: a scalar that is not 0 and takes no more bytes than those replaced.
abbrev pub IsCased : ℕ → ℕ → Type 0
IsCased x y = (0 < y) × (y < 1048576) × (encoded_length y ≤ encoded_length x)

-- The greatest result of a row, and a test that its results are well-behaved.
abbrev pub largest : Row → ℕ
largest r = elim r.change [
  | up k ↦ r.last + k
  | up_if_even k ↦ r.last + k
  | up_if_odd k ↦ r.last + k
  | becomes c ↦ c
  | _ ↦ r.last
]

abbrev pub least : Row → ℕ
least r = elim r.change [
  | down k ↦ r.first - k
  | down_if_even k ↦ r.first - k
  | down_if_odd k ↦ r.first - k
  | down_but_247 k ↦ r.first - k
  | becomes c ↦ c
  | _ ↦ r.first
]

abbrev pub row_ok : Row → Bool
row_ok r =
    ltb 0 (least r)
    && ltb (largest r) 1048576
    && leb (encoded_length (largest r)) (encoded_length r.first)

abbrev pub rows_ok : List Row → Bool
rows_ok [] = true
rows_ok (r ∷ rows) = row_ok r && rows_ok rows
