-- ===== src/Headers/Parse.antt =====
-- What `picoos_hdrParseHeader` of pico/lib/picoos.c reads, and what it does not set.
use platform_external_svox.Common.{
  ℕ, suc, ◌-◌, ◌<◌, ◌≤◌, ◌≡◌, true, false, ◌&&◌, List, [], ◌∷◌, ◌++◌, ltb, length, All, refl, ap,
  arith, le→leb,
}
use platform_external_svox.Status.{err_index_out_of_range}
use platform_external_svox.Strings.{skip_spaces, head}
use platform_external_svox.Strings.Numbers.{skip_spaces_lem}
use platform_external_svox.Headers.{
  HeaderField, FileHeader, max_num_header_fields, max_field_string_len, no_field, clear_header,
  get_header_field, copy_printable, get_str, fields_loop, hdr_parse_header,
}

abbrev pub IsPrintable : ℕ → Type 0
IsPrintable c = 32 < c

-- A key or value that a field holds.
abbrev pub IsWord : List ℕ → Type 0
IsWord w = (0 < length w) × (length w < max_field_string_len) × All IsPrintable w

abbrev pub IsEntry : List ℕ × List ℕ → Type 0
IsEntry e = IsWord e.0 × IsWord e.1

-- Keys and values, each behind a blank.
abbrev pub print_entries : List (List ℕ × List ℕ) → List ℕ
print_entries [] = []
print_entries ((k, v) ∷ es) = 32 ∷ (k ++ (32 ∷ (v ++ print_entries es)))

-- The fields with the keys and values of the entries.
abbrev pub named : List (List ℕ × List ℕ) → List HeaderField → List HeaderField
named [] fields = fields
named (e ∷ es) [] = []
named (e ∷ es) (f ∷ fields) = record f { key = e.0; value = e.1 } ∷ named es fields

copy_printable_lem :
    (w tail : List ℕ) (room : ℕ)
    → All IsPrintable w
    → length w ≤ room
    → head tail ≤ 32
    → copy_printable (w ++ tail) room ≡ (w, tail)
unfolding copy_printable
copy_printable_lem [] [] room a h t = refl
copy_printable_lem [] (c ∷ tail) room a h t =
    let stop : (ltb 32 c && ltb 0 room) ≡ false = ground arith in rw stop refl
copy_printable_lem (c ∷ w) tail room (p, a) h t =
    let go : (ltb 32 c && ltb 0 room) ≡ true = ground arith in
    rw (go, copy_printable_lem w tail (room - 1) a (omega arith) t) refl

get_str_lem :
    (w tail : List ℕ)
    → IsWord w
    → head tail ≤ 32
    → get_str (32 ∷ (w ++ tail)) max_field_string_len ≡ (w, tail, true)
unfolding get_str
get_str_lem [] tail (z, h, a) t = absurd (omega arith)
get_str_lem (c ∷ w) tail (z, h, (p, a)) t =
    let skipped : skip_spaces (32 ∷ ((c ∷ w) ++ tail)) ≡ (c ∷ w) ++ tail =
      skip_spaces_lem (32 ∷ []) ((c ∷ w) ++ tail) ((omega arith, omega arith), tt) (ground arith) in
    let copied : copy_printable ((c ∷ w) ++ tail) 31 ≡ (c ∷ w, tail) =
      copy_printable_lem (c ∷ w) tail 31 (p, a) (omega arith) t in
    let full : ltb 0 (suc (length w)) ≡ true = ground arith in
    rw (skipped, copied, full, le→leb (head tail) 32 t) refl

blank_first : (es : List (List ℕ × List ℕ)) → head (print_entries es) ≤ 32
blank_first [] = omega arith
blank_first (e ∷ es) = omega arith

fields_loop_lem :
    (es : List (List ℕ × List ℕ)) (fields : List HeaderField)
    → All IsEntry es
    → fields_loop (length es) fields (print_entries es) ≡ named es fields
unfolding fields_loop
fields_loop_lem [] fields a = refl
fields_loop_lem (e ∷ es) [] a = refl
fields_loop_lem ((k, v) ∷ es) (f ∷ fields) ((wk, wv), a) =
    rw
      (
        get_str_lem k (32 ∷ (v ++ print_entries es)) wk (omega arith),
        get_str_lem v (print_entries es) wv (blank_first es),
        fields_loop_lem es fields a,
      )
      refl

-- picoos_hdrParseHeader of a header string that gives the number of its entries, at most ten, and then
-- each key and value, printable, nonempty and shorter than 32 bytes, behind a blank, sets the keys
-- and values of the first fields to those of the entries and nothing else.
pub hdr_parse_header_lem :
    (h : FileHeader) (es : List (List ℕ × List ℕ))
    → All IsEntry es
    → length es ≤ max_num_header_fields
    → hdr_parse_header h (length es ∷ print_entries es) ≡ record h { field = named es h.field }
unfolding hdr_parse_header
hdr_parse_header_lem h es a l =
    rw (le→leb (length es) 10 l) (ap (λ fs. record h { field = fs }) (fields_loop_lem es h.field a))

-- picoos_hdrParseHeader leaves the number of fields at 0 after picoos_clearHeader, whatever the header
-- string, so picoos_getHeaderField reports every index as out of range.
pub get_header_field-hdr_parse_header :
    (h : FileHeader) (str : List ℕ) (index : ℕ)
    → get_header_field (hdr_parse_header (clear_header h) str) index
      ≡ (no_field, err_index_out_of_range)
unfolding get_header_field hdr_parse_header clear_header
get_header_field-hdr_parse_header h str index = rw (le→leb 0 index (omega arith)) refl
