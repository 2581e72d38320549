-- ===== src/Transducer/Buffer/Filter.antt =====
-- The symbol buffer of picotrns_SimpleTransducer, pico/lib/picotrns.c, through a transduction.
use platform_external_svox.Common.{
  ℕ, zero, suc, ◌+◌, ◌≡◌, ◌≢◌, ◌⊎◌, inl, inr, refl, ap, sym, List, [], ◌∷◌, take, ltb,
  if◌then◌else◌, eqz, arith, Bool-cases, lt→ltb, le→ltb,
}
use platform_external_svox.Kfst.{symid_eps}
use platform_external_svox.Transducer.{FstOps, PosSym}
use platform_external_svox.Transducer.Paths.{IsTransduction}
use platform_external_svox.Transducer.Buffer.{max_num_possym, eliminate_loop, eliminate_epsilons}

-- The elements whose symbol is not an epsilon.
abbrev pub without_epsilons : List PosSym → List PosSym
without_epsilons [] = []
without_epsilons (x ∷ xs) =
    if eqz symid_eps x.sym then without_epsilons xs else x ∷ without_epsilons xs

take-nil : (n : ℕ) → take {A = PosSym} n [] ≡ []
take-nil zero = refl
take-nil (suc n) = refl

eliminate_loop_lem :
    (xs : List PosSym) (max_out j n : ℕ)
    → j + n ≡ max_out
    → eliminate_loop max_out xs j ≡ take n (without_epsilons xs)
unfolding eliminate_loop
eliminate_loop_lem [] max_out j n h = sym (take-nil n)
eliminate_loop_lem (x ∷ xs) max_out j n h = elim (Bool-cases (eqz symid_eps x.sym)) [
  | inl eps ↦ rw eps (eliminate_loop_lem xs max_out j n h)
  | inr other ↦ rw other (room n h (λ i m. eliminate_loop_lem xs max_out i m))
]
  where
    room :
        (m : ℕ)
        → j + m ≡ max_out
        → ((i m : ℕ) → i + m ≡ max_out → eliminate_loop max_out xs i ≡ take m (without_epsilons xs))
        → (if ltb j max_out
            then x ∷ eliminate_loop max_out xs (j + 1)
            else eliminate_loop max_out xs j)
          ≡ take m (x ∷ without_epsilons xs)
    room zero e rest = rw (le→ltb j max_out (omega arith)) (rest j 0 e)
    room (suc m) e rest =
        rw (lt→ltb j max_out (omega arith)) (ap (λ l. x ∷ l) (rest (j + 1) m (omega arith)))

-- picotrns_eliminate_epsilons of a nonempty sequence gives its elements other than epsilons, in
-- their order, up to the maximal length.
pub eliminate_epsilons_lem :
    (xs old : List PosSym) (max_out : ℕ)
    → xs ≢ []
    → eliminate_epsilons xs old max_out ≡ take max_out (without_epsilons xs)
unfolding eliminate_epsilons
eliminate_epsilons_lem [] old max_out h = absurd (h refl)
eliminate_epsilons_lem (x ∷ xs) old max_out h =
    eliminate_loop_lem (x ∷ xs) max_out 0 max_out (omega arith)

-- What the buffer holds after a transduction.
abbrev pub IsStOutcome : FstOps → List PosSym → List PosSym → Type 0
IsStOutcome fst old new =
    ((sol : List PosSym) × (IsTransduction fst old sol
        × (new ≡ take max_num_possym (without_epsilons (take max_num_possym sol)))))
    ⊎ (new ≡ take max_num_possym (without_epsilons (take max_num_possym old)))
