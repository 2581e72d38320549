-- ===== src/Exceptions.antt =====
-- The exception manager of pico/lib/picoos.c: the first exception and up to eight warnings since the
-- last reset. The text of a message, which `picoos_vSetErrorMsg` formats, comes as an argument.
pub mod Story
pub mod Report
mod Tests
use platform_external_svox.Common.{
  ℕ, zero, suc, ◌+◌, ◌-◌, ◌&&◌, Bool, true, false, not, List, [], ◌∷◌, ltb, leb, ◌==◌,
  if◌then◌else◌, get_or, set, take, replicate, length,
}
use platform_external_svox.Status.{Status, ok, exc_max_num_exceed, is_ok}

-- PICOOS_MAX_NUM_WARNINGS
abbrev pub max_num_warnings : ℕ
max_num_warnings = 8

-- `picoos_exception_manager_t`; a message is the list of its bytes without the closing 0.
pub record ExceptionManager : Type 0 where
  pub cur_exception_code : Status
  pub cur_exception_message : List ℕ
  pub cur_num_warnings : ℕ
  pub cur_warning_code : List Status
  pub cur_warning_message : List (List ℕ)

-- `picoos_emReset`
pub em_reset : ExceptionManager → ExceptionManager
em_reset em = record em {
  cur_exception_code = ok;
  cur_exception_message = [];
  cur_num_warnings = 0;
}

-- `picoos_emRaiseException`: the manager and the resulting exception code
unfoldable pub em_raise_exception : ExceptionManager → Status → List ℕ → ExceptionManager × Status
em_raise_exception em code msg =
    if is_ok em.cur_exception_code && not (is_ok code)
    then (record em { cur_exception_code = code; cur_exception_message = msg }, code)
    else (em, em.cur_exception_code)

-- "too many warnings"
abbrev pub too_many : List ℕ
too_many =
    116 ∷ 111 ∷ 111 ∷ 32 ∷ 109 ∷ 97 ∷ 110 ∷ 121 ∷ 32 ∷ 119 ∷ 97 ∷ 114 ∷ 110 ∷ 105 ∷ 110 ∷ 103 ∷ 115
    ∷ []

-- `picoos_emRaiseWarning`
pub em_raise_warning : ExceptionManager → Status → List ℕ → ExceptionManager
em_raise_warning em code msg =
    let n = em.cur_num_warnings in
    if ltb n max_num_warnings && not (is_ok code)
    then (if (max_num_warnings - 1) == n
        then record em {
          cur_warning_code = set em.cur_warning_code n exc_max_num_exceed;
          cur_warning_message = set em.cur_warning_message n too_many;
          cur_num_warnings = n + 1;
        }
        else record em {
          cur_warning_code = set em.cur_warning_code n code;
          cur_warning_message = set em.cur_warning_message n msg;
          cur_num_warnings = n + 1;
        })
    else em

-- `picoos_emGetWarningCode`
pub em_get_warning_code : ExceptionManager → ℕ → Status
em_get_warning_code em index =
    if ltb index em.cur_num_warnings then get_or em.cur_warning_code index ok else ok

-- `picoos_emGetWarningMessage`: what is copied to `msg`, of `maxsize` bytes with the closing 0
pub em_get_warning_message : ExceptionManager → ℕ → ℕ → List ℕ
em_get_warning_message em index maxsize =
    if ltb index em.cur_num_warnings
    then take (maxsize - 1) (get_or em.cur_warning_message index [])
    else []

-- `picoos_emGetExceptionMessage`
pub em_get_exception_message : ExceptionManager → ℕ → List ℕ
em_get_exception_message em maxsize = take (maxsize - 1) em.cur_exception_message
