-- ===== src/DecisionTree/Input/Constructed.antt =====
-- What the constructInVec functions of pico/lib/picokdt.c put into the input vectors of their trees.
use platform_external_svox.Common.{
  ℕ, zero, suc, ◌≤◌, ◌≡◌, ◌⊎◌, inl, inr, refl, subst, arith, false, Bool-cases, Option, some, List,
  length, ◌≢◌, [], ◌∷◌, ◌==◌, ==_iff, if◌then◌else◌, get_or,
}
use platform_external_svox.DecisionTree.{KdtSubobj}
use platform_external_svox.DecisionTree.Maps.{Tree, reverse_map_out_fixed}
use platform_external_svox.DecisionTree.Input.{
  given, history, construct_pos_d, construct_phr, construct_pam, construct_acc,
}
use platform_external_svox.DecisionTree.Input.Filled.{
  IsInput, attribute_of, construct_in_vec-IsInput,
}

-- The attributes of phrasing.
abbrev pub phr_value : (pre2 pre1 src fol1 fol2 nrwordspre nrwordsfol nrsyllsfol : ℕ) → ℕ → Option ℕ
phr_value pre2 pre1 src fol1 fol2 nrwordspre nrwordsfol nrsyllsfol zero = some pre2
phr_value pre2 pre1 src fol1 fol2 nrwordspre nrwordsfol nrsyllsfol (suc zero) = some pre1
phr_value pre2 pre1 src fol1 fol2 nrwordspre nrwordsfol nrsyllsfol (suc (suc zero)) = some src
phr_value pre2 pre1 src fol1 fol2 nrwordspre nrwordsfol nrsyllsfol (suc (suc (suc zero))) =
    some fol1
phr_value pre2 pre1 src fol1 fol2 nrwordspre nrwordsfol nrsyllsfol (suc (suc (suc (suc zero)))) =
    some fol2
phr_value pre2 pre1 src fol1 fol2 nrwordspre nrwordsfol nrsyllsfol
      (suc (suc (suc (suc (suc zero))))) =
    some nrwordspre
phr_value pre2 pre1 src fol1 fol2 nrwordspre nrwordsfol nrsyllsfol
      (suc (suc (suc (suc (suc (suc zero)))))) =
    some nrwordsfol
phr_value pre2 pre1 src fol1 fol2 nrwordspre nrwordsfol nrsyllsfol
      (suc (suc (suc (suc (suc (suc (suc zero))))))) =
    some nrsyllsfol
phr_value pre2 pre1 src fol1 fol2 nrwordspre nrwordsfol nrsyllsfol
      (suc (suc (suc (suc (suc (suc (suc (suc j)))))))) =
    some 0

phr_same :
    (pre2 pre1 src fol1 fol2 nrwordspre nrwordsfol nrsyllsfol j : ℕ)
    → given (pre2 ∷ pre1 ∷ src ∷ fol1 ∷ fol2 ∷ nrwordspre ∷ nrwordsfol ∷ nrsyllsfol ∷ []) j
      ≡ phr_value pre2 pre1 src fol1 fol2 nrwordspre nrwordsfol nrsyllsfol j
phr_same pre2 pre1 src fol1 fol2 nrwordspre nrwordsfol nrsyllsfol zero = refl
phr_same pre2 pre1 src fol1 fol2 nrwordspre nrwordsfol nrsyllsfol (suc zero) = refl
phr_same pre2 pre1 src fol1 fol2 nrwordspre nrwordsfol nrsyllsfol (suc (suc zero)) = refl
phr_same pre2 pre1 src fol1 fol2 nrwordspre nrwordsfol nrsyllsfol (suc (suc (suc zero))) = refl
phr_same pre2 pre1 src fol1 fol2 nrwordspre nrwordsfol nrsyllsfol (suc (suc (suc (suc zero)))) =
    refl
phr_same pre2 pre1 src fol1 fol2 nrwordspre nrwordsfol nrsyllsfol
      (suc (suc (suc (suc (suc zero))))) =
    refl
phr_same pre2 pre1 src fol1 fol2 nrwordspre nrwordsfol nrsyllsfol
      (suc (suc (suc (suc (suc (suc zero)))))) =
    refl
phr_same pre2 pre1 src fol1 fol2 nrwordspre nrwordsfol nrsyllsfol
      (suc (suc (suc (suc (suc (suc (suc zero))))))) =
    refl
phr_same pre2 pre1 src fol1 fol2 nrwordspre nrwordsfol nrsyllsfol
      (suc (suc (suc (suc (suc (suc (suc (suc j)))))))) =
    refl

-- The attributes of accentuation: a history of 30000 stands for no accent, "0", in the output map.
abbrev pub known_history : KdtSubobj → ℕ → Option ℕ
known_history t v = if v == 30000 then attribute_of (reverse_map_out_fixed t 48) else some v

abbrev pub acc_value : KdtSubobj → List ℕ → ℕ → Option ℕ
acc_value t input zero = some (get_or input 0 0)
acc_value t input (suc zero) = some (get_or input 1 0)
acc_value t input (suc (suc zero)) = some (get_or input 2 0)
acc_value t input (suc (suc (suc zero))) = some (get_or input 3 0)
acc_value t input (suc (suc (suc (suc zero)))) = some (get_or input 4 0)
acc_value t input (suc (suc (suc (suc (suc zero))))) = known_history t (get_or input 5 0)
acc_value t input (suc (suc (suc (suc (suc (suc zero)))))) = known_history t (get_or input 6 0)
acc_value t input (suc (suc (suc (suc (suc (suc (suc j))))))) =
    some (get_or input (suc (suc (suc (suc (suc (suc (suc j))))))) 0)

acc_same : (t : KdtSubobj) (input : List ℕ) (j : ℕ) → history t input j ≡ acc_value t input j
unfolding history
acc_same t input zero = refl
acc_same t input (suc zero) = refl
acc_same t input (suc (suc zero)) = refl
acc_same t input (suc (suc (suc zero))) = refl
acc_same t input (suc (suc (suc (suc zero)))) = refl
acc_same t input (suc (suc (suc (suc (suc zero))))) = refl
acc_same t input (suc (suc (suc (suc (suc (suc zero)))))) = refl
acc_same t input (suc (suc (suc (suc (suc (suc (suc j))))))) =
    let not_5 : (suc (suc (suc (suc (suc (suc (suc j)))))) == 5) ≡ false = ground arith in
    let not_6 : (suc (suc (suc (suc (suc (suc (suc j)))))) == 6) ≡ false = ground arith in
    rw (not_5, not_6) refl

-- The input vectors of part-of-speech disambiguation, phrasing, acoustics and accentuation, in trees with
-- room for their 7, 8, 60 and 13 attributes: each is complete just if all of its attributes are mapped
-- or have a fallback value other than 0, with their number as its length, ◌≢◌, [], ◌∷◌, else 0, and holds what they
-- are mapped to or fall back to. The attributes of phrasing are its eight arguments in order;
-- acoustics refuses another number of values than 60; in accentuation a history of 30000, fifth or
-- sixth, stands for what the output map has for "0".
pub constructs_lem :
    (pos_d phr pam acc : Tree) (input vec histories : List ℕ)
    (pre2 pre1 src fol1 fol2 nrwordspre nrwordsfol nrsyllsfol veclen : ℕ)
    → 7 ≤ length pos_d.invec
    → 8 ≤ length phr.invec
    → 60 ≤ length pam.invec
    → 13 ≤ length acc.invec
    → IsInput pos_d.dt 7 (given input) (construct_pos_d pos_d input)
      × IsInput phr.dt 8
          (phr_value pre2 pre1 src fol1 fol2 nrwordspre nrwordsfol nrsyllsfol)
          (construct_phr phr pre2 pre1 src fol1 fol2 nrwordspre nrwordsfol nrsyllsfol)
      × (((veclen ≡ 60) × IsInput pam.dt 60 (given vec) (construct_pam pam vec veclen))
          ⊎ ((veclen ≢ 60) × (construct_pam pam vec veclen ≡ (false, record pam { inveclen = 0 }))))
      × IsInput acc.dt 13 (acc_value acc.dt histories) (construct_acc acc histories)
unfolding construct_pos_d construct_phr construct_pam construct_acc
constructs_lem pos_d phr pam acc input vec histories pre2 pre1 src fol1 fol2 nrwordspre nrwordsfol
      nrsyllsfol veclen r7 r8 r60 r13 =
    (
      construct_in_vec-IsInput pos_d 7 (given input) r7,
      subst
          (λ (f : ℕ → Option ℕ).
            IsInput phr.dt 8 f
              (construct_phr phr pre2 pre1 src fol1 fol2 nrwordspre nrwordsfol nrsyllsfol))
          (λ i j. phr_same pre2 pre1 src fol1 fol2 nrwordspre nrwordsfol nrsyllsfol j i)
          (construct_in_vec-IsInput phr 8 _ r8),
      elim (Bool-cases (veclen == 60)) [
        | inl same ↦
            inl
              ((==_iff veclen 60).0 same, rw same (construct_in_vec-IsInput pam 60 (given vec) r60))
        | inr other ↦ inr (λ e. ground (arith, e), rw other refl)
      ],
      subst (λ (f : ℕ → Option ℕ). IsInput acc.dt 13 f (construct_acc acc histories))
          (λ i j. acc_same acc.dt histories j i)
          (construct_in_vec-IsInput acc 13 (history acc.dt histories) r13),
    )
