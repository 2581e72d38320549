-- ===== src/Status.antt =====
-- The status codes of pico/lib/picodefs.h (`pico_Status`), and `PICO_EOF` of pico/lib/picopal.h.
use platform_external_svox.Common.{Bool, true, false}

pub data Status : Type 0 where
  ok : Status
  eof : Status
  exc_number_format exc_max_num_exceed exc_name_conflict : Status
  exc_name_undefined exc_name_illegal : Status
  exc_buf_overflow exc_buf_underflow exc_buf_ignore : Status
  exc_out_of_mem : Status
  exc_cant_open_file exc_unexpected_file_type exc_file_corrupt exc_file_not_found : Status
  exc_resource_busy exc_resource_missing : Status
  exc_kb_missing : Status
  err_nullptr_access err_invalid_handle err_invalid_argument err_index_out_of_range : Status
  err_other : Status
  warn_incomplete warn_fallback warn_other : Status
  warn_kb_overwrite warn_resource_double_load : Status
  warn_invector warn_classification warn_outvector : Status
  warn_pu_irreg_item warn_pu_discard_buf : Status

-- `PICO_OK == status`
abbrev pub is_ok : Status → Bool
is_ok ok = true
is_ok _ = false
