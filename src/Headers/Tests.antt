-- ===== src/Headers/Tests.antt =====
-- A header with one entry, "N" and "en".
use platform_external_svox.Common.{◌≡◌, [], ◌∷◌, arith}
use platform_external_svox.Status.{err_index_out_of_range}
use platform_external_svox.Headers.{
  FileHeader, no_field, field_equal, clear_header, get_header_field, hdr_parse_header,
}
use platform_external_svox.Headers.Parse.{hdr_parse_header_lem, get_header_field-hdr_parse_header}

abbrev two_fields : FileHeader
two_fields = record { num_fields = 0; field = record no_field { op = field_equal } ∷ no_field ∷ [] }

hdr_parse_header_lem_example :
    hdr_parse_header two_fields (1 ∷ 32 ∷ 78 ∷ 32 ∷ 101 ∷ 110 ∷ []) ≡ record two_fields {
      field = record { key = 78 ∷ []; value = 101 ∷ 110 ∷ []; op = field_equal } ∷ no_field ∷ [];
    }
hdr_parse_header_lem_example =
    hdr_parse_header_lem two_fields ((78 ∷ [], 101 ∷ 110 ∷ []) ∷ [])
      (
        (
          (omega arith, omega arith, (omega arith, tt)),
          (omega arith, omega arith, (omega arith, (omega arith, tt))),
        ),
        tt,
      )
      (omega arith)

get_header_field-hdr_parse_header_example :
    get_header_field
      (hdr_parse_header (clear_header two_fields) (1 ∷ 32 ∷ 78 ∷ 32 ∷ 101 ∷ 110 ∷ []))
      0
    ≡ (no_field, err_index_out_of_range)
get_header_field-hdr_parse_header_example =
    get_header_field-hdr_parse_header two_fields (1 ∷ 32 ∷ 78 ∷ 32 ∷ 101 ∷ 110 ∷ []) 0
