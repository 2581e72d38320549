-- ===== src/DecisionTree/Ends.antt =====
-- The loop over the nodes of a tree of pico/lib/picokdt.c ends: no node is asked behind the end of the
-- knowledge base, and every question moves the cursor.
use platform_external_svox.Common.{
  ℕ, zero, suc, ◌+◌, ◌*◌, ◌<◌, ◌≡◌, ◌⊎◌, inl, inr, refl, sym, ap, ◌∙◌, subst, arith, ltb, ltb→lt,
  ltb→le, List, length, ℤ, pos, ltz, get_or, u8_mod, ◌==◌, ◌&&◌, ◌%◌, if◌then◌else◌, Bool, true,
  false, Bool-cases, Option, none, some,
}
use platform_external_svox.DecisionTree.{
  KdtSubobj, Cursor, ask_tree, with_class, is_fork, get_shift_val, vfield, question, forks_loop,
  classify_loop, classify,
}
use platform_external_svox.DecisionTree.Bits.{cursor_at}
use platform_external_svox.DecisionTree.Moves.{IsTame}
use platform_external_svox.DecisionTree.Asks.{IsVector, ask_tree-Leads, ask_tree-ends, no_lead}

with_class-IsTame : (t : KdtSubobj) (class : Option ℕ) → IsTame t → IsTame (with_class t class)
with_class-IsTame t none tame = record {
  bytes = tame.bytes;
  questions = tame.questions;
  decisions = tame.decisions;
  qfields = tame.qfields;
  counts = tame.counts;
  forks = tame.forks;
  short = tame.short;
}
with_class-IsTame t (some k) tame = record {
  bytes = tame.bytes;
  questions = tame.questions;
  decisions = tame.decisions;
  qfields = tame.qfields;
  counts = tame.counts;
  forks = tame.forks;
  short = tame.short;
}

either : {A : Type 0} (P : A → Type 0) (b : Bool) (x y : A) → P x → P y → P (if b then x else y)
either P true x y px py = px
either P false x y px py = py

-- An answer leaves all of the tree but its class.
ask_tree-with_class :
    (t : KdtSubobj) (invec : List ℕ) (invecmax : ℕ) (c : Cursor)
    → (class : Option ℕ) × ((ask_tree t invec invecmax c).1 ≡ with_class t class)
unfolding ask_tree
ask_tree-with_class t invec invecmax c =
    either (λ (r : ℤ × KdtSubobj × Cursor). (class : Option ℕ) × (r.1 ≡ with_class t class)) _ _ _
      (_, refl) (none, refl)

with_class-base : (t : KdtSubobj) (class : Option ℕ) → (with_class t class).base ≡ t.base
with_class-base t none = refl
with_class-base t (some k) = refl

-- An answer is 1, or it is not positive.
abbrev IsAnswer : ℤ → Type 0
IsAnswer rv = (rv ≡ pos 1) ⊎ (ltz (pos 0) rv ≡ false)

forks_loop-IsAnswer :
    (t : KdtSubobj) (q val n i : ℕ) (id : Option ℕ) (c : Cursor)
    → IsAnswer (forks_loop t q val n i id c).0
unfolding forks_loop
forks_loop-IsAnswer t q val zero i id c = inr refl
forks_loop-IsAnswer t q val (suc n) i id c = elim (Bool-cases (is_fork id i)) [
  | inr there ↦ rw there (forks_loop-IsAnswer t q val n (i + 1) id _)
  | inl here ↦ rw here (elim (Bool-cases ((get_shift_val t 1 c).0 == 0)) [
    | inl e ↦ rw e (inl refl)
    | inr e ↦ rw e (inr refl)
  ])
]

ask_tree-IsAnswer :
    (t : KdtSubobj) (invec : List ℕ) (invecmax : ℕ) (c : Cursor)
    → IsAnswer (ask_tree t invec invecmax c).0
unfolding ask_tree
ask_tree-IsAnswer t invec invecmax c =
    let q = (get_shift_val t (vfield t question) (get_shift_val t 2 c).1).0 % u8_mod in
    elim (Bool-cases (ltb q t.nrattributes && ltb q invecmax)) [
      | inl valid ↦ rw valid (forks_loop-IsAnswer t q (get_or invec q 0) _ 0 _ _)
      | inr invalid ↦ rw invalid (inr refl)
    ]

-- A question that leads on stands before the end.
inside :
    (t : KdtSubobj) (tame : IsTame t) (invec : List ℕ) (vector : IsVector invec) (invecmax p : ℕ)
    → p < 22000000000
    → (ask_tree t invec invecmax (cursor_at p)).0 ≡ pos 1
    → p < 8 * length t.base
inside t tame invec vector invecmax p room on = elim (Bool-cases (ltb p (8 * length t.base))) [
  | inl h ↦ ltb→lt p (8 * length t.base) h
  | inr h ↦ absurd (
      no_lead (
        sym (ask_tree-ends t tame invec vector invecmax p room (ltb→le p (8 * length t.base) h))
        ∙ on))
]

-- From bit `p`, every round but the last moves by two bits or more.
classify_loop-ends :
    (fuel : ℕ) (t : KdtSubobj) (invec : List ℕ) (invecmax p : ℕ)
    → IsTame t
    → IsVector invec
    → p < 22000000000
    → 0 < fuel
    → 8 * length t.base < p + fuel
    → (r : ℤ × KdtSubobj) × (classify_loop fuel t invec invecmax (cursor_at p) ≡ some r)
unfolding classify_loop
classify_loop-ends zero t invec invecmax p tame vector room some_fuel enough = absurd (omega arith)
classify_loop-ends (suc fuel) t invec invecmax p tame vector room some_fuel enough =
    let asked = ask_tree t invec invecmax (cursor_at p) in
    elim (ask_tree-IsAnswer t invec invecmax (cursor_at p)) [
      | inr last ↦ rw last (_, refl)
      | inl on ↦
          let (p', at, from, to) = ask_tree-Leads t tame invec vector invecmax p room on in
          let (class, same) = ask_tree-with_class t invec invecmax (cursor_at p) in
          let within = inside t tame invec vector invecmax p room on in
          let short = tame.short in
          let size : length asked.1.base ≡ length t.base =
            ap (λ (t' : KdtSubobj). length t'.base) same ∙ ap length (with_class-base t class) in
          let tame1 = subst IsTame (sym same) (with_class-IsTame t class tame) in
          rw (on, at)
            (classify_loop-ends fuel asked.1 invec invecmax p' tame1 vector (omega arith)
              (omega arith) (omega arith))
    ]

-- The classification of an input vector of 16-bit words by a tree of bytes, less than 2^31 of them,
-- ends with a result: fuel of one more than they have bits is enough. The numbers of a question and of
-- a class have at most 32 bits, the fields of a question 31, its fork count 8, the size of its groups
-- 16. Nothing is asked of the rest of the tree.
pub classify_ends :
    (t : KdtSubobj) (invec : List ℕ) (invecmax fuel : ℕ)
    → IsTame t
    → IsVector invec
    → 8 * length t.base < fuel
    → (r : Option ℕ × KdtSubobj) × (classify fuel t invec invecmax ≡ some r)
unfolding classify
classify_ends t invec invecmax fuel tame vector enough =
    let ((rv, t'), ends) =
      classify_loop-ends fuel t invec invecmax 0 tame vector (omega arith) (omega arith)
        (omega arith) in
    rw (ends, classify) (_, refl)
