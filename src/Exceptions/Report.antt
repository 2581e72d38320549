-- ===== src/Exceptions/Report.antt =====
-- What the exception manager of pico/lib/picoos.c reports of the calls made to it.
use platform_external_svox.Common.{
  ℕ, zero, suc, ◌≤◌, ◌≡◌, ◌&&◌, true, false, List, [], ◌∷◌, ltb, ◌==◌, if◌then◌else◌, get_or,
  length, arith, both, refl, sym, ap, ◌∙◌, Bool-cases, inl, inr, ==_iff, ltb→lt,
}
use platform_external_svox.Status.{Status, ok, exc_max_num_exceed}
use platform_external_svox.Exceptions.{
  ExceptionManager, em_reset, em_get_warning_code, max_num_warnings,
}
use platform_external_svox.Exceptions.Story.{
  Call, reset, raise_exception, raise_warning, call, calls, Story, tell, tell_all, reported,
  IsReport, raise_exception-IsReport, raise_warning-IsReport,
}

call-IsReport :
    (em : ExceptionManager) (s : Story) (c : Call) → IsReport em s → IsReport (call em c) (tell s c)
unfolding em_reset
call-IsReport em s reset r = record {
  room = r.room;
  exception = refl;
  number = refl;
  kept = λ i h l. absurd (omega arith);
  full = λ h. absurd (omega arith);
}
call-IsReport em s (raise_exception code msg) r = raise_exception-IsReport em s code msg r
call-IsReport em s (raise_warning code msg) r = raise_warning-IsReport em s code msg r

calls-IsReport :
    (em : ExceptionManager) (s : Story) (cs : List Call)
    → IsReport em s
    → IsReport (calls em cs) (tell_all s cs)
calls-IsReport em s [] r = r
calls-IsReport em s (c ∷ cs) r = calls-IsReport (call em c) (tell s c) cs (call-IsReport em s c r)

get_or-behind_end : (xs : List Status) (i : ℕ) → length xs ≤ i → get_or xs i ok ≡ ok
get_or-behind_end [] i h = refl
get_or-behind_end (x ∷ xs) zero h = absurd (omega arith)
get_or-behind_end (x ∷ xs) (suc i) h = get_or-behind_end xs i (omega arith)

-- What picoos_emGetWarningCode gives.
abbrev pub warning_at : List Status → ℕ → Status
warning_at ws i =
    if ltb i 7
    then get_or ws i ok
    else if ltb i (length ws) && (i == 7)
    then exc_max_num_exceed
    else ok

em_get_warning_code-IsReport :
    (em : ExceptionManager) (s : Story) (i : ℕ)
    → IsReport em s
    → em_get_warning_code em i ≡ warning_at s.warnings i
unfolding em_get_warning_code
em_get_warning_code-IsReport em s i r = elim (Bool-cases (ltb i 7)) [
  | inl early ↦ elim (Bool-cases (ltb i (length s.warnings))) [
    | inl there ↦
        let seen : ltb i em.cur_num_warnings ≡ true = ground (arith, r.number, early, there) in
        rw (early, seen) (r.kept i (ltb→lt _ _ early) (ltb→lt _ _ there))
    | inr none_there ↦
        let unseen : ltb i em.cur_num_warnings ≡ false = ground (arith, r.number, none_there) in
        rw (early, unseen) (sym (get_or-behind_end s.warnings i (ground (arith, none_there))))
  ]
  | inr late ↦ elim (Bool-cases (ltb i (length s.warnings) && (i == 7))) [
    | inl last ↦
        let (there, at) = both (ltb i (length s.warnings)) (i == 7) last in
        let seven : i ≡ 7 = (==_iff i 7).0 at in
        let seen : ltb i em.cur_num_warnings ≡ true = ground (arith, r.number, there) in
        rw (late, last, seen)
          (ap (λ k. get_or em.cur_warning_code k ok) seven
            ∙ r.full (omega (arith, ltb→lt _ _ there)))
    | inr not_last ↦
        let unseen : ltb i em.cur_num_warnings ≡ false = ground (arith, r.number, late, not_last) in
        rw (late, not_last, unseen) refl
  ]
]

-- After a reset and any calls, the exception reported is the first one raised since the last reset;
-- the number of warnings is that of the warnings raised, but at most eight; the first seven are
-- reported in their order, and the eighth as PICO_EXC_MAX_NUM_EXCEED.
pub calls-tell_all :
    (em : ExceptionManager) (cs : List Call) (i : ℕ)
    → length em.cur_warning_code ≡ max_num_warnings
    → let after = calls (em_reset em) cs in
      let story = tell_all (record { first = ok; warnings = [] }) cs in
      (after.cur_exception_code ≡ story.first)
      × (after.cur_num_warnings ≡ reported (length story.warnings))
      × (em_get_warning_code after i ≡ warning_at story.warnings i)
unfolding em_reset
calls-tell_all em cs i h =
    let r =
      calls-IsReport (em_reset em) (record { first = ok; warnings = [] }) cs
        (record {
          room = h;
          exception = refl;
          number = refl;
          kept = λ i l m. absurd (omega arith);
          full = λ l. absurd (omega arith);
        }) in
    (r.exception, r.number, em_get_warning_code-IsReport _ _ i r)
