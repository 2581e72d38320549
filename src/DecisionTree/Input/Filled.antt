-- ===== src/DecisionTree/Input/Filled.antt =====
-- Which input vectors of pico/lib/picokdt.c are complete, and what they hold.
use platform_external_svox.Common.{
  ℕ, zero, suc, ◌+◌, ◌≤◌, ◌<◌, ◌≡◌, ◌⊎◌, inl, inr, refl, sym, ap, ◌∙◌, subst, arith, Bool, true,
  false, ◌&&◌, Bool-cases, Option, none, some, List, length, ◌==◌, ==_iff, if◌then◌else◌, get_or,
  set, get_or-set_self, get_or-set_ne, length-set,
}
use platform_external_svox.DecisionTree.{KdtSubobj}
use platform_external_svox.DecisionTree.Maps.{Tree, map_in_fixed}
use platform_external_svox.DecisionTree.Input.{fill_loop, construct_in_vec}

-- What an attribute becomes: the value it is mapped to, or a fallback value other than 0.
abbrev pub attribute_of : Bool × ℕ × ℕ → Option ℕ
attribute_of (mapped, out, fallback) =
    if mapped then some out else if fallback == 0 then none else some fallback

abbrev attribute_from : KdtSubobj → ℕ → Option ℕ → Option ℕ
attribute_from t i none = none
attribute_from t i (some inval) = attribute_of (map_in_fixed t i inval)

abbrev pub attribute : KdtSubobj → (ℕ → Option ℕ) → ℕ → Option ℕ
attribute t source i = attribute_from t i (source i)

abbrev is_some : Option ℕ → Bool
is_some none = false
is_some (some x) = true

-- Whether the `n` attributes from the `i`th one on have values.
pub all_set : KdtSubobj → (ℕ → Option ℕ) → ℕ → ℕ → Bool
all_set t source i zero = true
all_set t source i (suc n) = is_some (attribute t source i) && all_set t source (i + 1) n

Option-cases : (o : Option ℕ) → (o ≡ none) ⊎ ((x : ℕ) × (o ≡ some x))
Option-cases none = inl refl
Option-cases (some x) = inr (x, refl)

fill_step :
    (n : ℕ) (t : KdtSubobj) (source : ℕ → Option ℕ) (i : ℕ) (invec : List ℕ)
    → ((attribute t source i ≡ none) × ((fill_loop (suc n) t source i invec).0 ≡ false))
      ⊎ ((x : ℕ) × (attribute t source i ≡ some x)
          × (fill_loop (suc n) t source i invec ≡ fill_loop n t source (i + 1) (set invec i x)))
unfolding fill_loop
fill_step n t source i invec = elim (Option-cases (source i)) [
  | inl e ↦ inl (ap (λ (o : Option ℕ). attribute_from t i o) e, rw (fill_loop, e) refl)
  | inr (inval, e) ↦
      let r = map_in_fixed t i inval in
      elim (Bool-cases r.0) [
        | inl mapped ↦ inr (r.1, rw (e, mapped) refl, rw (fill_loop, e, mapped) refl)
        | inr failed ↦ elim (Bool-cases (r.2 == 0)) [
          | inl zeroed ↦ inl (rw (e, failed, zeroed) refl, rw (fill_loop, e, failed, zeroed) refl)
          | inr other ↦ inr (r.2, rw (e, failed, other) refl, rw (fill_loop, e, failed, other) refl)
        ]
      ]
]

fill_loop-all_set :
    (n : ℕ) (t : KdtSubobj) (source : ℕ → Option ℕ) (i : ℕ) (invec : List ℕ)
    → (fill_loop n t source i invec).0 ≡ all_set t source i n
unfolding all_set fill_loop
fill_loop-all_set zero t source i invec = refl
fill_loop-all_set (suc n) t source i invec = elim (fill_step n t source i invec) [
  | inl (e, stops) ↦ stops ∙ sym (ap (λ (o : Option ℕ). is_some o && all_set t source (i + 1) n) e)
  | inr (x, e, goes) ↦
      ap (λ (r : Bool × List ℕ). r.0) goes
      ∙ fill_loop-all_set n t source (i + 1) (set invec i x)
      ∙ sym (ap (λ (o : Option ℕ). is_some o && all_set t source (i + 1) n) e)
]

no_stop : (b : Bool) → b ≡ true → b ≡ false → ⊥
no_stop true h k = ground arith
no_stop false h k = ground arith

fill_loop-keeps :
    (n : ℕ) (t : KdtSubobj) (source : ℕ → Option ℕ) (i j : ℕ) (invec : List ℕ)
    → j < i
    → (fill_loop n t source i invec).0 ≡ true
    → get_or (fill_loop n t source i invec).1 j 0 ≡ get_or invec j 0
unfolding fill_loop
fill_loop-keeps zero t source i j invec before done = refl
fill_loop-keeps (suc n) t source i j invec before done = elim (fill_step n t source i invec) [
  | inl (e, stops) ↦ absurd (no_stop (fill_loop (suc n) t source i invec).0 done stops)
  | inr (x, e, goes) ↦
      ap (λ (r : Bool × List ℕ). get_or r.1 j 0) goes
      ∙ fill_loop-keeps n t source (i + 1) j (set invec i x) (omega arith)
          (sym (ap (λ (r : Bool × List ℕ). r.0) goes) ∙ done)
      ∙ get_or-set_ne invec i j x 0 (λ (same : i ≡ j). omega arith)
]

fill_loop-fills :
    (n : ℕ) (t : KdtSubobj) (source : ℕ → Option ℕ) (i j : ℕ) (invec : List ℕ)
    → i ≤ j
    → j < i + n
    → i + n ≤ length invec
    → (fill_loop n t source i invec).0 ≡ true
    → attribute t source j ≡ some (get_or (fill_loop n t source i invec).1 j 0)
fill_loop-fills zero t source i j invec from to room done = absurd (omega arith)
fill_loop-fills (suc n) t source i j invec from to room done = elim (fill_step n t source i invec) [
  | inl (e, stops) ↦ absurd (no_stop (fill_loop (suc n) t source i invec).0 done stops)
  | inr (x, e, goes) ↦
      let done1 = sym (ap (λ (r : Bool × List ℕ). r.0) goes) ∙ done in
      let longer = length-set invec i x in
      rw goes (elim (Bool-cases (i == j)) [
        | inl same ↦
            let at : i ≡ j = (==_iff i j).0 same in
            subst
              (λ (k : ℕ).
                attribute t source k
                ≡ some (get_or (fill_loop n t source (i + 1) (set invec i x)).1 k 0))
              at
              (e
                ∙ ap (λ (y : ℕ). some y)
                    (sym (
                      fill_loop-keeps n t source (i + 1) i (set invec i x) (omega arith) done1
                      ∙ get_or-set_self invec i x 0 (omega arith))))
        | inr other ↦
            fill_loop-fills n t source (i + 1) j (set invec i x) (ground arith) (omega arith)
              (omega arith) done1
      ])
]

-- An input vector is complete just if every attribute is mapped or has a fallback value other than 0.
-- Its length is then the number of attributes, else 0. Each element of a complete one is what its
-- attribute is mapped to, or the fallback value. The tree itself stays.
pub record IsInput (t : KdtSubobj) (nratt : ℕ) (source : ℕ → Option ℕ) (r : Bool × Tree)
    : Type 0 where
  pub complete : r.0 ≡ all_set t source 0 nratt
  pub counted : r.1.inveclen ≡ (if r.0 then nratt else 0)
  pub filled :
      (j : ℕ) → j < nratt → (r.0 ≡ false) ⊎ (attribute t source j ≡ some (get_or r.1.invec j 0))
  pub tree : r.1.dt ≡ t

pub construct_in_vec-IsInput :
    (this : Tree) (nratt : ℕ) (source : ℕ → Option ℕ)
    → nratt ≤ length this.invec
    → IsInput this.dt nratt source (construct_in_vec this nratt source)
unfolding construct_in_vec
construct_in_vec-IsInput this nratt source room = record {
  complete = fill_loop-all_set nratt this.dt source 0 this.invec;
  counted = refl;
  filled = λ j lt. elim (Bool-cases (fill_loop nratt this.dt source 0 this.invec).0) [
    | inr failed ↦ inl failed
    | inl done ↦ inr (
        fill_loop-fills nratt this.dt source 0 j this.invec (omega arith) (omega arith)
          (omega arith) done)
  ];
  tree = refl;
}
