-- ===== src/Exceptions/Story.antt =====
-- The story of the calls to the exception manager of pico/lib/picoos.c, and what raising adds to it.
use platform_external_svox.Common.{
  ℕ, ◌+◌, ◌<◌, ◌≡◌, ◌&&◌, true, false, not, List, [], ◌∷◌, ◌++◌, ltb, leb, ◌==◌, if◌then◌else◌,
  get_or, set, length, arith, refl, sym, ap, ◌∙◌, length-set, length-append, get_or-set_self,
  get_or-set_ne, get_or-append_left, Bool-cases, inl, inr, ==_iff, ltb→lt,
}
use platform_external_svox.Status.{Status, ok, exc_max_num_exceed, is_ok}
use platform_external_svox.Exceptions.{
  ExceptionManager, em_reset, em_raise_exception, em_raise_warning, max_num_warnings,
}

-- A call that changes the manager.
pub data Call : Type 0 where
  reset : Call
  raise_exception raise_warning : Status → List ℕ → Call

abbrev pub call : ExceptionManager → Call → ExceptionManager
call em reset = em_reset em
call em (raise_exception code msg) = (em_raise_exception em code msg).0
call em (raise_warning code msg) = em_raise_warning em code msg

abbrev pub calls : ExceptionManager → List Call → ExceptionManager
calls em [] = em
calls em (c ∷ cs) = calls (call em c) cs

-- The whole story since the last reset: the first exception, and every warning.
pub record Story : Type 0 where
  pub first : Status
  pub warnings : List Status

abbrev pub tell : Story → Call → Story
tell s reset = record { first = ok; warnings = [] }
tell s (raise_exception code msg) = if is_ok s.first then record s { first = code } else s
tell s (raise_warning code msg) =
    if is_ok code then s else record s { warnings = s.warnings ++ (code ∷ []) }

abbrev pub tell_all : Story → List Call → Story
tell_all s [] = s
tell_all s (c ∷ cs) = tell_all (tell s c) cs

-- How many warnings are reported of so many.
abbrev pub reported : ℕ → ℕ
reported n = if leb n max_num_warnings then n else max_num_warnings

-- The manager reports the first exception, and the first warnings in their order; if there are more
-- than seven, the eighth reported says that there are too many.
pub record IsReport (em : ExceptionManager) (s : Story) : Type 0 where
  pub room : length em.cur_warning_code ≡ max_num_warnings
  pub exception : em.cur_exception_code ≡ s.first
  pub number : em.cur_num_warnings ≡ reported (length s.warnings)
  pub kept :
      (i : ℕ)
      → i < 7
      → i < length s.warnings
      → get_or em.cur_warning_code i ok ≡ get_or s.warnings i ok
  pub full : 7 < length s.warnings → get_or em.cur_warning_code 7 ok ≡ exc_max_num_exceed

only_ok : (c : Status) → is_ok c ≡ true → c ≡ ok
only_ok ok h = refl
only_ok c h = ground arith

-- Reports of the same warnings.
with_exception :
    (em : ExceptionManager) (s : Story) (code : Status) (msg : List ℕ) (first : Status)
    → code ≡ first
    → IsReport em s
    → IsReport
        (record em { cur_exception_code = code; cur_exception_message = msg })
        (record s { first = first })
with_exception em s code msg first e r = record {
  room = r.room;
  exception = e;
  number = r.number;
  kept = r.kept;
  full = r.full;
}

pub raise_exception-IsReport :
    (em : ExceptionManager) (s : Story) (code : Status) (msg : List ℕ)
    → IsReport em s
    → IsReport (em_raise_exception em code msg).0 (tell s (raise_exception code msg))
unfolding em_raise_exception
raise_exception-IsReport em s code msg r = elim (Bool-cases (is_ok s.first)) [
  | inr taken ↦
      let no : (is_ok em.cur_exception_code && not (is_ok code)) ≡ false =
        ap (λ c. is_ok c && not (is_ok code)) r.exception ∙ rw taken refl in
      rw (taken, no, em_raise_exception) r
  | inl free ↦ elim (Bool-cases (is_ok code)) [
    | inl nothing ↦
        let no : (is_ok em.cur_exception_code && not (is_ok code)) ≡ false =
          ap (λ c. is_ok c && not (is_ok code)) r.exception ∙ rw (free, nothing) refl in
        rw (free, no, em_raise_exception)
          (with_exception em s em.cur_exception_code em.cur_exception_message code
            (r.exception ∙ only_ok s.first free ∙ sym (only_ok code nothing)) r)
    | inr raised ↦
        let first : (is_ok em.cur_exception_code && not (is_ok code)) ≡ true =
          ap (λ c. is_ok c && not (is_ok code)) r.exception ∙ rw (free, raised) refl in
        rw (free, first, em_raise_exception) (with_exception em s code msg code refl r)
  ]
]

get_or-append_end : (xs : List Status) (x : Status) → get_or (xs ++ (x ∷ [])) (length xs) ok ≡ x
get_or-append_end [] x = refl
get_or-append_end (y ∷ xs) x = get_or-append_end xs x

-- One more warning, where the array has a place for it: the code that goes there is the warning's,
-- or the mark at the last place.
with_warning :
    (em : ExceptionManager) (s : Story) (code mark : Status) (msgs : List (List ℕ)) (n : ℕ)
    → n ≡ length s.warnings
    → n < 8
    → (n < 7 → mark ≡ code)
    → (n ≡ 7 → mark ≡ exc_max_num_exceed)
    → IsReport em s
    → IsReport
        (record em {
          cur_warning_code = set em.cur_warning_code n mark;
          cur_warning_message = msgs;
          cur_num_warnings = n + 1;
        })
        (record s { warnings = s.warnings ++ (code ∷ []) })
with_warning em s code mark msgs n e h before last r = record {
  room = length-set em.cur_warning_code n mark ∙ r.room;
  exception = r.exception;
  number = ground (arith, longer);
  kept = λ i l m. elim (Bool-cases (i == n)) [
    | inl here ↦
        let at : i ≡ n = (==_iff i n).0 here in
        rw at (
          get_or-set_self em.cur_warning_code n mark ok (omega (arith, r.room))
          ∙ before (omega arith)
          ∙ sym (rw e (get_or-append_end s.warnings code)))
    | inr other ↦
        let lt : i < length s.warnings = ground (arith, longer) in
        get_or-set_ne em.cur_warning_code n i mark ok (ground arith)
        ∙ r.kept i l lt
        ∙ sym (get_or-append_left s.warnings (code ∷ []) i ok lt)
  ];
  full = λ l.
      let at : n ≡ 7 = omega (arith, longer) in
      rw (sym at) (get_or-set_self em.cur_warning_code n mark ok (omega (arith, r.room)) ∙ last at);
}
  where
    longer : length (s.warnings ++ (code ∷ [])) ≡ n + 1
    longer = omega (arith, length-append s.warnings (code ∷ []))

-- One more warning, where no place is left.
without_place :
    (em : ExceptionManager) (s : Story) (code : Status)
    → 7 < length s.warnings
    → IsReport em s
    → IsReport em (record s { warnings = s.warnings ++ (code ∷ []) })
without_place em s code h r = record {
  room = r.room;
  exception = r.exception;
  number = ground (arith, r.number, length-append s.warnings (code ∷ []));
  kept = λ i l m.
      r.kept i l (omega arith) ∙ sym (get_or-append_left s.warnings (code ∷ []) i ok (omega arith));
  full = λ l. r.full h;
}

pub raise_warning-IsReport :
    (em : ExceptionManager) (s : Story) (code : Status) (msg : List ℕ)
    → IsReport em s
    → IsReport (em_raise_warning em code msg) (tell s (raise_warning code msg))
unfolding em_raise_warning
raise_warning-IsReport em s code msg r = elim (Bool-cases (is_ok code)) [
  | inl nothing ↦
      let no : (ltb em.cur_num_warnings 8 && not true) ≡ false = ground arith in
      rw (nothing, no, em_raise_warning) r
  | inr raised ↦ elim (Bool-cases (ltb em.cur_num_warnings 8)) [
    | inr over ↦
        rw (raised, over, em_raise_warning)
          (without_place em s code (ground (arith, r.number, over)) r)
    | inl room ↦
        let n : em.cur_num_warnings ≡ length s.warnings = ground (arith, r.number, room) in
        let lt : em.cur_num_warnings < 8 = ltb→lt _ _ room in
        elim (Bool-cases (7 == em.cur_num_warnings)) [
          | inl last ↦
              rw (raised, room, last, em_raise_warning)
                (with_warning em s code exc_max_num_exceed _ em.cur_num_warnings n lt
                  (λ k. absurd (ground (arith, last))) (λ k. refl) r)
          | inr before ↦
              rw (raised, room, before, em_raise_warning)
                (with_warning em s code code _ em.cur_num_warnings n lt (λ k. refl)
                  (λ k. absurd (ground (arith, before))) r)
        ]
  ]
]
