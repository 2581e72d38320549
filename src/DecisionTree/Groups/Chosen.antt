-- ===== src/DecisionTree/Groups/Chosen.antt =====
-- The fork that a discrete node of pico/lib/picokdt.c chooses: the first whose group has the value.
use platform_external_svox.Common.{
  ℕ, zero, suc, ◌+◌, ◌-◌, ◌*◌, ◌%◌, ◌≤◌, ◌<◌, ◌≡◌, inl, inr, refl, ap, ap₂, arith, ltb, ◌==◌,
  if◌then◌else◌, pos_part, u32_mod, Bool, true, false, Bool-cases, Option, none, some,
}
use platform_external_svox.DecisionTree.{
  KdtSubobj, to_i32, fork_count, bit_no, bit_count, field, subset, subsets, discrete, chosen,
}
use platform_external_svox.DecisionTree.Bits.{cursor_at, number, number_bound}
use platform_external_svox.DecisionTree.Moves.{IsTame, get_at, size_of}
use platform_external_svox.DecisionTree.Groups.{
  group_end, in_subset, next, group_at, member, first, with_group, one_value_lem, two_values_lem,
  without_bit_mask_lem, bit_mask_lem, count_small,
}

-- The first of `n` groups that has the value, from the `i`th one on.
abbrev with_first : Option ℕ → ℕ → ℕ → (ℕ → Bool) → Option ℕ
with_first none i n has = if ltb (first n has) n then some (i + first n has) else none
with_first (some k) i n has = some k

ltb-suc : (a b : ℕ) → ltb a b ≡ ltb (suc a) (suc b)
ltb-suc a b = ground arith

with_first_step :
    (id : Option ℕ) (i n : ℕ) (has : ℕ → Bool)
    → with_first (with_group id i (has 0)) (i + 1) n (λ j. has (suc j))
      ≡ with_first id i (suc n) has
unfolding first
with_first_step (some k) i n has = refl
with_first_step none i n has = elim (Bool-cases (has 0)) [
  | inl now ↦
      let positive : ltb 0 (suc n) ≡ true = ground arith in
      rw (now, positive) (ap (λ (k : ℕ). some k) (omega arith))
  | inr later ↦ rw later (
      ap₂ (λ (b : Bool) (k : ℕ). if b then some k else none)
        (ltb-suc (first n (λ j. has (suc j))) n) (omega arith))
]

first_le : (n : ℕ) (has : ℕ → Bool) → first n has ≤ n
unfolding first
first_le zero has = omega arith
first_le (suc n) has = ground (arith, first_le n (λ j. has (suc j)))

-- The last fork stands for the values of no group.
taken :
    (forks : ℕ) (has : ℕ → Bool)
    → let id = with_first none 0 (forks - 1) has in
      (if chosen id then id else if forks == 0 then none else some (forks - 1))
      ≡ (if forks == 0 then none else some (first (forks - 1) has))
taken forks has = elim (Bool-cases (ltb (first (forks - 1) has) (forks - 1))) [
  | inl h ↦
      let some_forks : (forks == 0) ≡ false = ground arith in
      rw (h, some_forks) (ap (λ (k : ℕ). some k) (omega arith))
  | inr h ↦
      let last : forks - 1 ≡ first (forks - 1) has = ground (arith, first_le (forks - 1) has) in
      rw h (ap (λ (k : ℕ). if forks == 0 then none else some k) last)
]

module _ (t : KdtSubobj) (tame : IsTame t) (q val : ℕ) (asked : q < t.nrattributes)
    (small : val < 65536) where
  next_bound : (p : ℕ) → next t q p ≤ p + 65602
  unfolding group_end
  next_bound p =
      let size = size_of t tame q 0 asked bit_no (omega arith) in
      let size2 = size_of t tame q 0 asked bit_count (omega arith) in
      let count = count_small t tame q val asked (p + 2) in ground arith

  subset_lem :
      (i : ℕ) (id : Option ℕ) (p : ℕ)
      → p < 34358000000
      → subset t q val i id (cursor_at p)
        ≡ (with_group id i (in_subset t q val (number t 0 2 p) (p + 2)), cursor_at (next t q p))
  unfolding subset in_subset group_end
  subset_lem i id p room =
      let type = number t 0 2 p in
      let fits = number_bound t 2 2 p (omega arith) in
      let e : type % u32_mod ≡ type = omega arith in
      rw (get_at t tame 2 p (omega arith) (omega arith), e)
        (elim (Bool-cases (type == 0)) [
          | inl f ↦ rw f (one_value_lem t tame q val asked i id (p + 2) (omega arith))
          | inr f ↦ rw f (elim (Bool-cases (type == 1)) [
            | inl g ↦ rw g (two_values_lem t tame q val asked i id (p + 2) (omega arith))
            | inr g ↦ rw g (elim (Bool-cases (type == 2)) [
              | inl h ↦ rw h (without_bit_mask_lem t tame q val asked i id (p + 2) (omega arith))
              | inr h ↦ rw h (bit_mask_lem t tame q val asked i id (p + 2) small (omega arith))
            ])
          ])
        ])

  subsets_lem :
      (n i : ℕ) (id : Option ℕ) (p : ℕ)
      → p + n * 65602 < 34356000000
      → subsets t q val n i id (cursor_at p)
        ≡ (with_first id i n (member t q val p), cursor_at (group_at t q n p))
  unfolding subsets group_at member first
  subsets_lem zero i none p room = refl
  subsets_lem zero i (some k) p room = refl
  subsets_lem (suc n) i id p room =
      let step = next_bound p in
      rw
        (
          subset_lem i id p (omega arith),
          subsets_lem n (i + 1) (with_group id i (in_subset t q val (number t 0 2 p) (p + 2)))
              (next t q p) (omega arith),
        )
        (ap (λ (o : Option ℕ). (o, cursor_at (group_at t q n (next t q p))))
          (with_first_step id i n (member t q val p)))

  next_from : (p : ℕ) → p ≤ next t q p
  unfolding group_end
  next_from p = ground arith

  pub group_at_bound : (n p : ℕ) → (p ≤ group_at t q n p) × (group_at t q n p ≤ p + n * 65602)
  unfolding group_at
  group_at_bound zero p = (omega arith, omega arith)
  group_at_bound (suc n) p =
      let (from, to) = group_at_bound n (next t q p) in
      let near = next_bound p in let start = next_from p in (omega arith, omega arith)

  -- A discrete node of fewer than 256 forks takes the fork of the first group that has the value, or the
  -- last fork if none has it, and comes to the end of the groups, whatever the value. A node without a
  -- fork takes none. The tree is of bytes, less than 2^31 of them; its question and class numbers have
  -- at most 32 bits, the fields of a question 31, its fork count 8, the size of its groups 16; the value
  -- is a 16-bit word, of an attribute that the tree has.
  pub discrete_lem :
      (p : ℕ)
      → p < 34000000000
      → let n = field t q val fork_count in
        let forks = number t 0 n p in
        discrete t q val (cursor_at p) ≡ (
          forks,
          if forks == 0 then none else some (first (forks - 1) (member t q val (p + n))),
          cursor_at (group_at t q (forks - 1) (p + n)),
        )
  unfolding discrete
  discrete_lem p room =
      let n = field t q val fork_count in
      let forks = number t 0 n p in
      let size = size_of t tame q val asked fork_count (omega arith) in
      let few = number_bound t n 8 p (tame.forks q asked) in
      let e : pos_part (to_i32 (forks % u32_mod)) ≡ forks = ground arith in
      rw
        (
          get_at t tame n p size (omega arith),
          e,
          subsets_lem (forks - 1) 0 none (p + n) (omega arith),
        )
        (ap (λ (o : Option ℕ). (forks, o, cursor_at (group_at t q (forks - 1) (p + n))))
          (taken forks (member t q val (p + n))))
