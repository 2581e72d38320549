-- ===== src/Headers.antt =====
-- File headers, pico/lib/picoos.c: the fields of a resource file's header, parsed from its header
-- string. A field string is the list of its bytes before the closing 0.
pub mod Parse
mod Tests
use platform_external_svox.Common.{
  ℕ, zero, suc, ◌+◌, ◌-◌, Bool, true, false, not, ◌&&◌, List, [], ◌∷◌, ltb, leb, ◌==◌,
  if◌then◌else◌, length, get_or, set, take, drop, map, replicate,
}
use platform_external_svox.Status.{Status, ok, err_index_out_of_range}
use platform_external_svox.Strings.{skip_spaces, head}

-- `picoos_compare_op_t`
pub data CompareOp : Type 0 where
  field_ignore field_equal field_compat : CompareOp

-- `picoos_file_header_field_t`
pub record HeaderField : Type 0 where
  pub key : List ℕ
  pub value : List ℕ
  pub op : CompareOp

-- `picoos_file_header_t`
pub record FileHeader : Type 0 where
  pub num_fields : ℕ
  pub field : List HeaderField

-- PICOOS_MAX_NUM_HEADER_FIELDS and PICOOS_MAX_FIELD_STRING_LEN
abbrev pub max_num_header_fields : ℕ
max_num_header_fields = 10

abbrev pub max_field_string_len : ℕ
max_field_string_len = 32

abbrev pub no_field : HeaderField
no_field = record { key = []; value = []; op = field_ignore }

-- `picoos_clearHeader`
pub clear_header : FileHeader → FileHeader
clear_header h = record { num_fields = 0; field = replicate max_num_header_fields no_field }

-- `picoos_setHeaderField`; the value is copied only if the whole key is.
pub set_header_field : FileHeader → ℕ → List ℕ → List ℕ → CompareOp → FileHeader × Status
set_header_field h index key value op =
    let old = get_or h.field index no_field in
    let cut = λ (s : List ℕ). take (max_field_string_len - 1) s in
    let short = λ (s : List ℕ). ltb (length s) max_field_string_len in
    if leb h.num_fields index
    then (h, err_index_out_of_range)
    else if short key
    then (
      record h { field = set h.field index (record { key = key; value = cut value; op = op }) },
      (if short value then ok else err_index_out_of_range),
    )
    else (
      record h { field = set h.field index (record old { key = cut key; op = op }) },
      err_index_out_of_range,
    )

-- `picoos_getHeaderField`: the field, as far as it is filled in, and the status. Stored strings are
-- shorter than the maximal length.
pub get_header_field : FileHeader → ℕ → HeaderField × Status
get_header_field h index =
    if leb h.num_fields index
    then (no_field, err_index_out_of_range)
    else (get_or h.field index no_field, ok)

-- The printable portion, of at most `room` characters, and the rest of the string
pub copy_printable : List ℕ → ℕ → List ℕ × List ℕ
copy_printable [] room = ([], [])
copy_printable (c ∷ s) room =
    let r = copy_printable s (room - 1) in
    if ltb 32 c && ltb 0 room then (c ∷ r.0, r.1) else ([], c ∷ s)

-- `picoos_get_str` from `*pos` on: `toStr`, the rest of the string, and the result
pub get_str : List ℕ → ℕ → List ℕ × List ℕ × Bool
get_str from_str maxsize =
    let r = copy_printable (skip_spaces from_str) (maxsize - 1) in
    (r.0, r.1, ltb 0 (length r.0) && leb (head r.1) 32)

-- The loop of `picoos_hdrParseHeader` over the fields that are left.
pub fields_loop : ℕ → List HeaderField → List ℕ → List HeaderField
fields_loop zero fields s = fields
fields_loop (suc n) [] s = []
fields_loop (suc n) (f ∷ fields) s =
    let k = get_str s max_field_string_len in
    let v = get_str k.1 max_field_string_len in
    record f { key = k.0; value = v.0 } ∷ fields_loop n fields v.1

-- `picoos_hdrParseHeader`: the first byte is the number of fields.
pub hdr_parse_header : FileHeader → List ℕ → FileHeader
hdr_parse_header h str =
    let n = if leb (head str) max_num_header_fields then head str else max_num_header_fields in
    record h { field = fields_loop n h.field (drop 1 str) }
