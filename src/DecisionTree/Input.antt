-- ===== src/DecisionTree/Input.antt =====
-- The input vectors of the trees of pico/lib/picokdt.c, and the classes behind their answers.
pub mod Constructed
pub mod Filled
pub mod Tests
use platform_external_svox.Common.{
  ℕ, zero, suc, ◌+◌, ◌-◌, ◌*◌, ◌≤◌, ◌<◌, ◌≡◌, ◌⊎◌, inl, inr, refl, sym, ap, ap₂, ◌∙◌, subst, arith,
  Bool, true, false, not, ◌&&◌, ◌||◌, both, Bool-cases, Option, none, some, List, [], ◌∷◌, length,
  ltb, ltb→lt, leb, ◌==◌, ==_iff, if◌then◌else◌, get_or, set, get_or-set_self, get_or-set_ne,
  length-set,
}
use platform_external_svox.DecisionTree.{KdtSubobj}
use platform_external_svox.DecisionTree.Maps.{
  Tree, map_in_fixed, map_out_fixed, reverse_map_out_fixed,
}

-- The loop over the attributes. A value that is not mapped gives way to the fallback value of its map,
-- if that is not 0. `source` is the value of an attribute, `none` where the caller gives up before it.
pub fill_loop : ℕ → KdtSubobj → (ℕ → Option ℕ) → ℕ → List ℕ → Bool × List ℕ
fill_loop zero t source i invec = (true, invec)
fill_loop (suc n) t source i invec = elim (source i) [
  | none ↦ (false, invec)
  | some inval ↦
      let (mapped, out, fallback) = map_in_fixed t i inval in
      let rest = fill_loop n t source (i + 1) (set invec i (if mapped then out else fallback)) in
      if not mapped && (fallback == 0) then (false, set invec i out) else rest
]

pub construct_in_vec : Tree → ℕ → (ℕ → Option ℕ) → Bool × Tree
construct_in_vec this nratt source =
    let (done, invec) = fill_loop nratt this.dt source 0 this.invec in
    (done, record this { invec = invec; inveclen = if done then nratt else 0 })

abbrev pub given : List ℕ → ℕ → Option ℕ
given input i = some (get_or input i 0)

-- `picokdt_dtPosDconstructInVec`
pub construct_pos_d : Tree → List ℕ → Bool × Tree
construct_pos_d this input = construct_in_vec this 7 (given input)

-- `picokdt_dtPHRconstructInVec`
pub construct_phr :
    Tree → (pre2 pre1 src fol1 fol2 nrwordspre nrwordsfol nrsyllsfol : ℕ) → Bool × Tree
construct_phr this pre2 pre1 src fol1 fol2 nrwordspre nrwordsfol nrsyllsfol =
    construct_in_vec this 8
      (given (pre2 ∷ pre1 ∷ src ∷ fol1 ∷ fol2 ∷ nrwordspre ∷ nrwordsfol ∷ nrsyllsfol ∷ []))

-- `picokdt_dtPAMconstructInVec`
pub construct_pam : Tree → List ℕ → ℕ → Bool × Tree
construct_pam this vec veclen =
    if not (veclen == 60)
    then (false, record this { inveclen = 0 })
    else construct_in_vec this 60 (given vec)

abbrev pub history_zero : ℕ
history_zero = 30000

-- `PICODATA_ACC0`
abbrev pub acc0 : ℕ
acc0 = 48

-- A history that is missing stands for no accent.
pub history : KdtSubobj → List ℕ → ℕ → Option ℕ
history t input i =
    let inval = get_or input i 0 in
    let (mapped, out, fallback) = reverse_map_out_fixed t acc0 in
    if ((i == 5) || (i == 6)) && (inval == history_zero)
    then (if mapped then some out else if fallback == 0 then none else some fallback)
    else some inval

-- `picokdt_dtACCconstructInVec`, with its thirteen values as a list
pub construct_acc : Tree → List ℕ → Bool × Tree
construct_acc this input = construct_in_vec this 13 (history this.dt input)

-- The `decomposeOutClass` functions of the trees with one class: the class outside, if there is one.
pub decompose_out_class : Tree → Option ℕ
decompose_out_class this =
    let (mapped, val) = map_out_fixed this.dt this.dt.dclass in
    if this.dt.dset && mapped then val else none
