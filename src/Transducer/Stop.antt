-- ===== src/Transducer/Stop.antt =====
-- `picotrns_transduce` of pico/lib/picotrns.c ends, and what it then has written.
use platform_external_svox.Common.{
  ℕ, zero, suc, ◌+◌, ◌*◌, ◌<◌, ◌≡◌, ◌≢◌, Bool, some, List, [], length, take, arith, refl, pos, ◌==◌,
  Bool-cases, inl, inr, ==_iff, ◌⊎◌,
}
use platform_external_svox.Transducer.{
  FstOps, PosSym, AltDesc, before_start, after_finish, is_finished, Transduction, transduction_step,
  transduce_loop, transduce,
}
use platform_external_svox.Transducer.Laws.{IsEnumerable}
use platform_external_svox.Transducer.Cost.{weight}
use platform_external_svox.Transducer.Paths.{IsTransduction}
use platform_external_svox.Transducer.Regular.{IsSoundIn}
use platform_external_svox.Transducer.Sound.{IsSound, step_in-IsSound, transduce_loop_sound}
use platform_external_svox.Transducer.Descent.{rounds_in, step_in_lt}

-- Rounds that suffice for `len` positions and enumerations of at most `size` entries.
abbrev pub transduce_fuel : ℕ → ℕ → ℕ
transduce_fuel size len = weight (2 * size + 6) len + 5

module _ (fst : FstOps) (laws : IsEnumerable fst) (in_seq : List PosSym) (max_out : ℕ)
    (first_sol_only : Bool) where
  transduce_loop-ends :
      (fuel : ℕ) (t : Transduction)
      → IsSound fst in_seq max_out first_sol_only t
      → rounds_in fst laws in_seq max_out first_sol_only t.phase t < fuel
      → (u : Transduction) × (transduce_loop fst in_seq max_out first_sol_only fuel t ≡ some u)
  unfolding transduce_loop transduction_step
  transduce_loop-ends zero t s h = absurd (omega arith)
  transduce_loop-ends (suc fuel) t s h = elim (Bool-cases (is_finished t.phase)) [
    | inl over ↦ rw over (t, refl)
    | inr on ↦
        let lt = step_in_lt fst laws in_seq max_out first_sol_only t.phase t s refl on in
        rw on (
          transduce_loop-ends fuel (transduction_step fst in_seq max_out first_sol_only t)
            (step_in-IsSound fst in_seq max_out first_sol_only t.phase t s refl)
            (omega (arith, lt)))
  ]

-- What the caller finds: the first `max_out` symbols of a complete transduction of the input if
-- solutions were counted, and of the input otherwise.
abbrev pub IsOutcome : FstOps → List PosSym → ℕ → Transduction → Type 0
IsOutcome fst in_seq max_out u =
    ((u.nr_sol ≢ 0)
      × ((sol : List PosSym) × (IsTransduction fst in_seq sol × (u.out ≡ take max_out sol))))
    ⊎ ((u.nr_sol ≡ 0) × (u.out ≡ take max_out in_seq))

outcome :
    (fst : FstOps) (in_seq : List PosSym) (max_out : ℕ) (first_sol_only : Bool) (u : Transduction)
    → IsSoundIn fst in_seq max_out first_sol_only after_finish u
    → IsOutcome fst in_seq max_out u
outcome fst in_seq max_out first_sol_only u (noted, unnoted) = elim (Bool-cases (u.nr_sol == 0)) [
  | inl no_sol ↦ let n : u.nr_sol ≡ 0 = (==_iff u.nr_sol 0).0 no_sol in inr (n, unnoted n)
  | inr some_sol ↦
      let n : u.nr_sol ≢ 0 = λ e. cc (some_sol, (==_iff u.nr_sol 0).1 e) in inl (n, noted n)
]

-- picotrns_transduce on a nonempty workspace, with a transducer whose enumerations end, ends within
-- `transduce_fuel` steps. If it then counts solutions, modulo 2^32, the output is, up to the
-- caller's maximal length, a complete transduction of the input; if it counts none, it is the input.
pub transduce_lem :
    (fst : FstOps) (first_sol_only : Bool) (in_seq : List PosSym) (max_out : ℕ)
    (alts : List AltDesc)
    → IsEnumerable fst
    → 0 < length alts
    → (u : Transduction) × ((transduce fst first_sol_only in_seq max_out alts
            (transduce_fuel fst.size (length alts))
          ≡ some u)
        × IsOutcome fst in_seq max_out u)
unfolding transduce
transduce_lem fst first_sol_only in_seq max_out alts laws h =
    let t : Transduction = record {
      phase = before_start;
      nr_sol = 0;
      rec_pos = pos 0;
      alts = alts;
      out = [];
    } in
    let fuel : ℕ = transduce_fuel fst.size (length alts) in
    let (u, e) =
      transduce_loop-ends fst laws in_seq max_out first_sol_only fuel t h (omega arith) in
    (
      u,
      (
        e,
        outcome fst in_seq max_out first_sol_only u
            (transduce_loop_sound fst in_seq max_out first_sol_only fuel t u h e),
      ),
    )
