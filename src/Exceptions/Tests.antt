-- ===== src/Exceptions/Tests.antt =====
-- Nine warnings and two exceptions.
use platform_external_svox.Common.{◌≡◌, refl, List, [], ◌∷◌, replicate}
use platform_external_svox.Status.{
  ok, exc_max_num_exceed, exc_out_of_mem, err_other, warn_fallback, warn_other,
}
use platform_external_svox.Exceptions.{ExceptionManager, em_reset, em_get_warning_code}
use platform_external_svox.Exceptions.Story.{Call, raise_exception, raise_warning, calls}
use platform_external_svox.Exceptions.Report.{calls-tell_all}

abbrev fresh : ExceptionManager
fresh = record {
  cur_exception_code = err_other;
  cur_exception_message = [];
  cur_num_warnings = 3;
  cur_warning_code = replicate 8 ok;
  cur_warning_message = replicate 8 [];
}

abbrev story : List Call
story =
    raise_exception exc_out_of_mem []
    ∷ raise_warning warn_other []
    ∷ raise_warning ok []
    ∷ raise_exception err_other []
    ∷ raise_warning warn_fallback []
    ∷ raise_warning warn_other []
    ∷ raise_warning warn_other []
    ∷ raise_warning warn_other []
    ∷ raise_warning warn_other []
    ∷ raise_warning warn_other []
    ∷ raise_warning warn_other []
    ∷ raise_warning warn_other []
    ∷ []

calls-tell_all_example :
    let after = calls (em_reset fresh) story in
    (after.cur_exception_code ≡ exc_out_of_mem)
    × (after.cur_num_warnings ≡ 8)
    × (em_get_warning_code after 7 ≡ exc_max_num_exceed)
calls-tell_all_example = calls-tell_all fresh story 7 refl
