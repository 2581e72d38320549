-- ===== src/DecisionTree/Groups.antt =====
-- The groups of values of a discrete node of pico/lib/picokdt.c: which values each one has, and where
-- it ends, whatever the answer.
pub mod Chosen
use platform_external_svox.Common.{
  ℕ, zero, suc, ◌+◌, ◌-◌, ◌*◌, ◌/◌, ◌%◌, ◌^◌, ◌≤◌, ◌<◌, ◌≡◌, ◌⊎◌, inl, inr, refl, sym, ap, ap₂, ◌∙◌,
  subst, arith, ltb, leb, ltb→lt, leb→le, ◌==◌, if◌then◌else◌, pos, negsuc, pos_part, neg_part,
  ◌-ℤ◌, ◌+ℤ◌, ltz, eqz, u32_mod, to_u32, Bool, true, false, not, ◌&&◌, ◌||◌, both, Bool-cases,
  Option, none, some,
}
use platform_external_svox.DecisionTree.{
  KdtSubobj, Cursor, bit_at, kdt_jump, get_shift_val, to_i32, fork_count, bit_no, bit_count, field,
  one_value, two_values, in_group, read_mask, without_bit_mask, bit_mask, subset, subsets, discrete,
  chosen,
}
use platform_external_svox.DecisionTree.Bits.{
  cursor_at, bit, number, kdt_jump-cursor_at, number_bound,
}
use platform_external_svox.DecisionTree.Moves.{IsTame, get_at, size_of}

-- A group at bit `p`, behind its type: its numbers, its members, and where it ends.
module _ (t : KdtSubobj) (q : ℕ) where
  abbrev pub no_at : ℕ → ℕ
  no_at p = number t 0 (field t q 0 bit_no) p

  abbrev pub count_at : ℕ → ℕ
  count_at p = number t 0 (field t q 0 bit_count) (p + field t q 0 bit_no)

  abbrev pub mask_at : ℕ → ℕ
  mask_at p = p + field t q 0 bit_no + field t q 0 bit_count

  pub group_end : ℕ → ℕ → ℕ
  group_end type p =
      if type == 0
      then p + field t q 0 bit_no
      else if type == 1
      then mask_at p
      else if type == 2
      then mask_at p
      else mask_at p + count_at p

  abbrev pub in_range : ℕ → ℕ → Bool
  in_range val p = leb (no_at p) val && ltb val (no_at p + count_at p)

  pub in_subset : ℕ → ℕ → ℕ → Bool
  in_subset val type p =
      if type == 0
      then val == no_at p
      else if type == 1
      then (val == no_at p) || (val == count_at p)
      else if type == 2
      then in_range val p
      else in_range val p && (bit t (mask_at p + (val - no_at p)) == 1)

  -- The next group, the `j`th one, and whether that has a value.
  abbrev pub next : ℕ → ℕ
  next p = group_end (number t 0 2 p) (p + 2)

  pub group_at : ℕ → ℕ → ℕ
  group_at zero p = p
  group_at (suc j) p = group_at j (next p)

  pub member : ℕ → ℕ → ℕ → Bool
  member val p zero = in_subset val (number t 0 2 p) (p + 2)
  member val p (suc j) = member val (next p) j

-- The first number that passes, or `n`.
pub first : ℕ → (ℕ → Bool) → ℕ
first zero test = 0
first (suc n) test = let later = first n (λ j. test (suc j)) in if test 0 then 0 else suc later

same_value :
    (val from : ℕ) → from < 2147483648 → eqz (pos val) (to_i32 (from % u32_mod)) ≡ (val == from)
same_value val from h = ground arith

in_group_lem :
    (t : KdtSubobj) (q val from count : ℕ)
    → from < 2147483648
    → count < 65536
    → in_group t q val (from % u32_mod) (count % u32_mod) ≡ (leb from val && ltb val (from + count))
unfolding ◌+ℤ◌
in_group_lem t q val from count hn hc = ground arith

offset_is :
    (val from : ℕ)
    → from ≤ val
    → from < 2147483648
    → val < 65536
    → to_u32 (pos val -ℤ to_i32 (from % u32_mod)) ≡ val - from
unfolding ◌-ℤ◌
offset_is val from le hn hv = ground arith

rest_is :
    (val from count : ℕ)
    → from ≤ val
    → val < from + count
    → from < 2147483648
    → count < 65536
    → val < 65536
    → to_u32 (to_i32 (count % u32_mod) -ℤ (pos val -ℤ to_i32 (from % u32_mod)))
      ≡ count - (val - from)
unfolding ◌-ℤ◌
rest_is val from count le lt hn hc hv = ground arith

-- The answer with a group: it stays, or it is the group if that has the value.
abbrev pub with_group : Option ℕ → ℕ → Bool → Option ℕ
with_group none i has = if has then some i else none
with_group (some k) i has = some k

module _ (t : KdtSubobj) (tame : IsTame t) (q val : ℕ) (asked : q < t.nrattributes) where
  no_bound : (p : ℕ) → no_at t q p < 2147483648
  no_bound p =
      omega (
        arith,
        number_bound t (field t q 0 bit_no) 31 p (tame.qfields q bit_no asked (omega arith)),
      )

  pub count_small : (p : ℕ) → count_at t q p < 65536
  count_small p = omega (
    arith,
    number_bound t (field t q 0 bit_count) 16 (p + field t q 0 bit_no) (tame.counts q asked),
  )

  pub one_value_lem :
      (i : ℕ) (id : Option ℕ) (p : ℕ)
      → p < 34359000000
      → one_value t q val i id (cursor_at p)
        ≡ (with_group id i (val == no_at t q p), cursor_at (p + field t q 0 bit_no))
  unfolding one_value
  one_value_lem i none p room =
      rw
        (get_at t tame (field t q val bit_no) p (size_of t tame q val asked bit_no (omega arith))
          (omega arith))
        (ap (λ (b : Bool). (with_group none i b, cursor_at (p + field t q 0 bit_no)))
          (same_value val (no_at t q p) (no_bound p)))
  one_value_lem i (some k) p room =
      let size = size_of t tame q val asked bit_no (omega arith) in
      ap (λ (c : Cursor). (some k, c)) (kdt_jump-cursor_at (field t q val bit_no) p (omega arith))

  pub two_values_lem :
      (i : ℕ) (id : Option ℕ) (p : ℕ)
      → p < 34359000000
      → two_values t q val i id (cursor_at p) ≡ (
        with_group id i ((val == no_at t q p) || (val == count_at t q p)),
        cursor_at (mask_at t q p),
      )
  unfolding two_values
  two_values_lem i none p room =
      let n = field t q val bit_no in
      let m = field t q val bit_count in
      let size = size_of t tame q val asked bit_no (omega arith) in
      let size2 = size_of t tame q val asked bit_count (omega arith) in
      let small = count_small p in
      rw (get_at t tame n p size (omega arith), get_at t tame m (p + n) size2 (omega arith))
        (ap₂ (λ (a b : Bool). (with_group none i (a || b), cursor_at (p + n + m)))
          (same_value val (no_at t q p) (no_bound p))
          (same_value val (count_at t q p) (omega arith)))
  two_values_lem i (some k) p room =
      let n = field t q val bit_no in
      let m = field t q val bit_count in
      let size = size_of t tame q val asked bit_no (omega arith) in
      let size2 = size_of t tame q val asked bit_count (omega arith) in
      ap (λ (c : Cursor). (some k, c))
        (kdt_jump-cursor_at (n + m) p (omega arith) ∙ ap cursor_at (omega arith))

  pub without_bit_mask_lem :
      (i : ℕ) (id : Option ℕ) (p : ℕ)
      → p < 34359000000
      → without_bit_mask t q val i id (cursor_at p)
        ≡ (with_group id i (in_range t q val p), cursor_at (mask_at t q p))
  unfolding without_bit_mask
  without_bit_mask_lem i none p room =
      let n = field t q val bit_no in
      let m = field t q val bit_count in
      let size = size_of t tame q val asked bit_no (omega arith) in
      let size2 = size_of t tame q val asked bit_count (omega arith) in
      rw (get_at t tame n p size (omega arith), get_at t tame m (p + n) size2 (omega arith))
        (ap (λ (b : Bool). (with_group none i b, cursor_at (p + n + m)))
          (in_group_lem t q val (no_at t q p) (count_at t q p) (no_bound p) (count_small p)))
  without_bit_mask_lem i (some k) p room =
      let n = field t q val bit_no in
      let m = field t q val bit_count in
      let size = size_of t tame q val asked bit_no (omega arith) in
      let size2 = size_of t tame q val asked bit_count (omega arith) in
      ap (λ (c : Cursor). (some k, c))
        (kdt_jump-cursor_at (n + m) p (omega arith) ∙ ap cursor_at (omega arith))

  pub bit_mask_lem :
      (i : ℕ) (id : Option ℕ) (p : ℕ)
      → val < 65536
      → p < 34359000000
      → bit_mask t q val i id (cursor_at p) ≡ (
        with_group id i (in_range t q val p && (bit t (mask_at t q p + (val - no_at t q p)) == 1)),
        cursor_at (mask_at t q p + count_at t q p),
      )
  unfolding bit_mask
  bit_mask_lem i none p hv room =
      let n = field t q val bit_no in
      let m = field t q val bit_count in
      let first_no = no_at t q p in
      let count = count_at t q p in
      let r = mask_at t q p in
      let o = val - first_no in
      let size = size_of t tame q val asked bit_no (omega arith) in
      let size2 = size_of t tame q val asked bit_count (omega arith) in
      let small_no = no_bound p in
      let small = count_small p in
      let test = in_group_lem t q val first_no count small_no small in
      rw (get_at t tame n p size (omega arith), get_at t tame m (p + n) size2 (omega arith))
        (elim (Bool-cases (in_range t q val p)) [
          | inl inside ↦
              let (from_le, to_lt) = both (leb first_no val) (ltb val (first_no + count)) inside in
              let le = leb→le first_no val from_le in
              let lt = ltb→lt val (first_no + count) to_lt in
              rw
                (
                  test ∙ inside,
                  rest_is val first_no count le lt small_no small hv,
                  offset_is val first_no le small_no hv,
                  kdt_jump-cursor_at o r (omega arith),
                  inside,
                )
                (ap (λ (c : Cursor). (with_group none i (bit t (r + o) == 1), c))
                  (kdt_jump-cursor_at (count - o) (r + o) (omega arith)
                    ∙ ap cursor_at (omega arith)))
          | inr outside ↦
              rw (test ∙ outside, outside)
                (ap (λ (c : Cursor). (with_group none i false, c))
                  (kdt_jump-cursor_at (count % u32_mod) r (omega arith)
                    ∙ ap cursor_at (omega arith)))
        ])
  bit_mask_lem i (some k) p hv room =
      let n = field t q val bit_no in
      let m = field t q val bit_count in
      let count = count_at t q p in
      let size = size_of t tame q val asked bit_no (omega arith) in
      let size2 = size_of t tame q val asked bit_count (omega arith) in
      let small = count_small p in
      rw (kdt_jump-cursor_at n p (omega arith), get_at t tame m (p + n) size2 (omega arith))
        (ap (λ (c : Cursor). (some k, c))
          (kdt_jump-cursor_at (count % u32_mod) (p + n + m) (omega arith)
            ∙ ap cursor_at (omega arith)))
