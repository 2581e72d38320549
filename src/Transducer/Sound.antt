-- ===== src/Transducer/Sound.antt =====
-- What `picotrns_transduce` of pico/lib/picotrns.c writes: a transduction of the input, or the input.
use platform_external_svox.Common.{
  ℕ, zero, suc, ◌<◌, ◌≡◌, refl, sym, ◌∙◌, subst, Bool, true, some, List, [], length, get_or, set,
  ltb, ◌==◌, ◌&&◌, ℤ, pos, negsuc, arith, Bool-cases, inl, inr, length-set, ==_iff,
}
use platform_external_svox.Transducer.{
  FstOps, PosSym, AltDesc, no_alt, Phase, before_start, regular, before_finish, after_finish,
  Transduction, note_solution, start_at, start_step, regular_step, case_regular, step_in,
  transduction_step, transduce_loop, is_finished,
}
use platform_external_svox.Transducer.Paths.{start, empty}
use platform_external_svox.Transducer.Reached.{IsReached, IsSearching, IsReached-self}
use platform_external_svox.Transducer.Regular.{
  IsNoted, IsSoundIn, regular_step_sound, regular_step-phase,
}

module _ (fst : FstOps) (in_seq : List PosSym) (max_out : ℕ) (first_sol_only : Bool) where
  start_step_sound :
      (t : Transduction)
      → 0 < length t.alts
      → IsSoundIn fst in_seq max_out first_sol_only regular
          (start_step fst in_seq max_out first_sol_only t)
  unfolding start_step note_solution
  start_step_sound t h = elim (Bool-cases (length in_seq == 0)) [
    | inr some_in ↦ rw some_in ((λ n. absurd (n refl)), begin)
    | inl no_in ↦ rw no_in ((λ _. ([], (empty ((==_iff _ _).0 no_in), refl))), begin)
  ]
    where
      a : AltDesc
      a = start_at (pos 1) 0 (get_or t.alts 0 no_alt)

      begin : IsSearching fst in_seq (pos 0) (set t.alts 0 a)
      begin = (
        omega (arith, length-set t.alts 0 a),
        λ k l.
            let e : 0 ≡ k = omega arith in
            subst (IsReached fst in_seq (set t.alts 0 a)) e
              (IsReached-self fst in_seq t.alts 0 a h start tt),
      )

  abbrev pub IsSound : Transduction → Type 0
  IsSound t = IsSoundIn fst in_seq max_out first_sol_only t.phase t

  case_regular-IsSound :
      (z : ℤ) (t : Transduction)
      → t.rec_pos ≡ z
      → t.phase ≡ regular
      → IsNoted fst in_seq max_out first_sol_only t.nr_sol t.out
      → IsSearching fst in_seq z t.alts
      → IsSound (case_regular fst in_seq max_out first_sol_only z t)
  unfolding case_regular
  case_regular-IsSound (negsuc m) t e k n i = n
  case_regular-IsSound (pos d) t e k n i = elim (Bool-cases (first_sol_only && ltb 0 t.nr_sol)) [
    | inl enough ↦ rw enough n
    | inr on ↦ rw on (
        subst
          (λ p.
            IsSoundIn fst in_seq max_out first_sol_only p
              (regular_step fst in_seq max_out first_sol_only d t))
          (sym (regular_step-phase fst in_seq max_out first_sol_only d t ∙ k))
          (regular_step_sound fst in_seq max_out first_sol_only d t e n i))
  ]

  pub step_in-IsSound :
      (p : Phase) (t : Transduction)
      → IsSoundIn fst in_seq max_out first_sol_only p t
      → p ≡ t.phase
      → IsSound (step_in fst in_seq max_out first_sol_only p t)
  unfolding step_in start_step
  step_in-IsSound before_start t s e = start_step_sound t s
  step_in-IsSound regular t s e = case_regular-IsSound t.rec_pos t refl (sym e) s.0 s.1
  step_in-IsSound before_finish t n e = elim (Bool-cases (t.nr_sol == 0)) [
    | inl zero_sol ↦ rw zero_sol ((λ h. absurd (h ((==_iff _ _).0 zero_sol))), λ h. refl)
    | inr some_sol ↦ rw some_sol (n, λ h. absurd (cc (some_sol, (==_iff _ _).1 h)))
  ]
  step_in-IsSound after_finish t s e =
      subst (λ p. IsSoundIn fst in_seq max_out first_sol_only p t) e s

  finished_phase : (p : Phase) → is_finished p ≡ true → p ≡ after_finish
  finished_phase before_start h = absurd (ground arith)
  finished_phase regular h = absurd (ground arith)
  finished_phase before_finish h = absurd (ground arith)
  finished_phase after_finish h = refl

  pub transduce_loop_sound :
      (fuel : ℕ) (t u : Transduction)
      → IsSound t
      → transduce_loop fst in_seq max_out first_sol_only fuel t ≡ some u
      → IsSoundIn fst in_seq max_out first_sol_only after_finish u
  unfolding transduce_loop transduction_step
  transduce_loop_sound zero t u s e = absurd (ground arith)
  transduce_loop_sound (suc fuel) t u s e = elim (Bool-cases (is_finished t.phase)) [
    | inr on ↦
        transduce_loop_sound fuel (transduction_step fst in_seq max_out first_sol_only t) u
          (step_in-IsSound t.phase t s refl) (rw on at e)
    | inl over ↦
        let same : t ≡ u = cc (rw over at e) in
        subst (IsSoundIn fst in_seq max_out first_sol_only after_finish) same (
          subst (λ p. IsSoundIn fst in_seq max_out first_sol_only p t) (finished_phase t.phase over)
            s)
  ]
