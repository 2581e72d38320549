-- ===== src/Utf8/Tests.antt =====
-- The theorems on UTF-8 at small strings.
use platform_external_svox.Common.{
  ℕ, ◌≤◌, ◌≡◌, refl, true, none, some, List, [], ◌∷◌, ◌++◌, arith, length, map,
}
use platform_external_svox.Utf8.{
  det_utf8_length, utf8_length, get_utf8char, copy_char, get_next_utf8char, get_next_utf8charpos,
  get_prev_utf8char, utf8_to_utf32, utf32_to_utf8, lowercase_utf8_str, uppercase_utf8_str,
  case_loop,
}
use platform_external_svox.Utf8.Case.{IsCased, apply_change, map_by}
use platform_external_svox.Utf8.Lowercase.{
  base_utf32_lowercase, lowercase_extended, lowercase_ranges, lowercase_letters,
}
use platform_external_svox.Utf8.Uppercase.{
  base_utf32_uppercase, uppercase_extended, uppercase_ranges, uppercase_letters,
}
use platform_external_svox.Utf8.Casing.{base_utf32_lowercase-IsCased, base_utf32_uppercase-IsCased}
use platform_external_svox.Utf8.Encoding.{utf8_to_utf32-utf32_to_utf8}
use platform_external_svox.Utf8.Length.{utf8_length-text, utf8_length-bad}
use platform_external_svox.Utf8.Walk.{get_prev_utf8char-get_next_utf8char, get_next_utf8char_stays}
use platform_external_svox.Utf8.Letters.{alphabets, small_letter}
use platform_external_svox.Utf8.Fold.{
  encode_all, lowercase_utf8_str_lem, uppercase_utf8_str_lem, lowercase_utf8_str_hangs,
}

-- A, with diaeresis, to a.
mappings :
    (base_utf32_lowercase 196 ≡ 228)
    × (base_utf32_uppercase 228 ≡ 196)
    × (base_utf32_lowercase 8491 ≡ 229)
    × (base_utf32_lowercase 304 ≡ 105)
    × (base_utf32_uppercase 247 ≡ 247)
unfolding base_utf32_lowercase lowercase_extended lowercase_ranges lowercase_letters
    base_utf32_uppercase uppercase_extended uppercase_ranges uppercase_letters apply_change map_by
mappings = (refl, refl, refl, refl, refl)

base_utf32_lowercase-IsCased_runs : IsCased 8491 (base_utf32_lowercase 8491)
base_utf32_lowercase-IsCased_runs = base_utf32_lowercase-IsCased 8491 (omega arith) (omega arith)

base_utf32_uppercase-IsCased_runs : IsCased 228 (base_utf32_uppercase 228)
base_utf32_uppercase-IsCased_runs = base_utf32_uppercase-IsCased 228 (omega arith) (omega arith)

utf8_to_utf32-utf32_to_utf8_example :
    let r = utf32_to_utf8 8364 4 in (r.1 ≡ true) × (utf8_to_utf32 r.0 ≡ (8364, true))
utf8_to_utf32-utf32_to_utf8_example = utf8_to_utf32-utf32_to_utf8 8364 4 (omega arith) (omega arith)

three_bytes : det_utf8_length 226 ≡ 3
unfolding det_utf8_length
three_bytes = refl

no_start : det_utf8_length 130 ≡ 0
unfolding det_utf8_length
no_start = refl

one_byte : det_utf8_length 97 ≡ 1
unfolding det_utf8_length
one_byte = refl

utf8_length-text_example :
    (utf8_length (97 ∷ []) 10 ≡ some 1) × (utf8_length (97 ∷ 226 ∷ 130 ∷ []) 10 ≡ some 2)
utf8_length-text_example =
    utf8_length-text ((97 ∷ []) ∷ []) 226 (130 ∷ []) (172 ∷ []) 10 ((omega arith, one_byte, tt), tt)
      (omega arith, three_bytes, ((omega arith, omega arith), ((omega arith, omega arith), tt)))
      (omega arith)

utf8_length-bad_runs : utf8_length (97 ∷ 130 ∷ []) 10 ≡ none
utf8_length-bad_runs =
    utf8_length-bad ((97 ∷ []) ∷ []) 130 [] 10 ((omega arith, one_byte, tt), tt) no_start
      (omega arith)

get_prev_utf8char-get_next_utf8char_example :
    let s : List ℕ = 97 ∷ 226 ∷ 130 ∷ 172 ∷ 98 ∷ [] in
    let r = get_next_utf8char s 5 1 in
    (r ≡ (true, 4, 226 ∷ 130 ∷ 172 ∷ []))
    × (get_next_utf8charpos s 5 1 ≡ (true, 4))
    × (get_prev_utf8char s 0 r.1 ≡ some (1, 226 ∷ 130 ∷ 172 ∷ []))
get_prev_utf8char-get_next_utf8char_example =
    get_prev_utf8char-get_next_utf8char (97 ∷ []) (226 ∷ 130 ∷ 172 ∷ []) (98 ∷ []) 0 5
      (omega arith, three_bytes, ((omega arith, omega arith), ((omega arith, omega arith), tt)))
      (omega arith) (omega arith) (omega arith)

get_next_utf8char_stays_example :
    (get_next_utf8char (130 ∷ 97 ∷ []) 2 0 ≡ (true, 0, []))
    × (get_next_utf8charpos (130 ∷ 97 ∷ []) 2 0 ≡ (true, 0))
get_next_utf8char_stays_example =
    get_next_utf8char_stays (130 ∷ 97 ∷ []) 2 0 no_start (omega arith) (omega arith)

abbrev scalars : List ℕ
scalars = 65 ∷ 196 ∷ []

lowercase_utf8_str_lem_example :
    (lowercase_utf8_str 3 (encode_all scalars ++ (0 ∷ [])) 10
      ≡ some (encode_all (map base_utf32_lowercase scalars), true))
    × (length (encode_all (map base_utf32_lowercase scalars)) ≤ length (encode_all scalars))
    × (map base_utf32_lowercase alphabets ≡ map small_letter alphabets)
unfolding utf32_to_utf8
lowercase_utf8_str_lem_example =
    lowercase_utf8_str_lem 3 scalars [] 10
      ((omega arith, omega arith), ((omega arith, omega arith), tt)) (omega arith) (omega arith)

uppercase_utf8_str_lem_runs :
    (uppercase_utf8_str 3 (encode_all scalars ++ (0 ∷ [])) 10
      ≡ some (encode_all (map base_utf32_uppercase scalars), true))
    × (length (encode_all (map base_utf32_uppercase scalars)) ≤ length (encode_all scalars))
unfolding utf32_to_utf8
uppercase_utf8_str_lem_runs =
    uppercase_utf8_str_lem 3 scalars [] 10
      ((omega arith, omega arith), ((omega arith, omega arith), tt)) (omega arith) (omega arith)

lowercase_utf8_str_hangs_example :
    (lowercase_utf8_str 100 (130 ∷ 0 ∷ []) 10 ≡ none)
    × (uppercase_utf8_str 100 (130 ∷ 0 ∷ []) 10 ≡ none)
lowercase_utf8_str_hangs_example =
    lowercase_utf8_str_hangs 100 130 (0 ∷ []) 10 (omega arith) no_start

converts : lowercase_utf8_str 4 (65 ∷ 195 ∷ 132 ∷ 0 ∷ []) 10 ≡ some (97 ∷ 195 ∷ 164 ∷ [], true)
unfolding lowercase_utf8_str case_loop get_utf8char copy_char det_utf8_length utf8_to_utf32
    utf32_to_utf8 base_utf32_lowercase lowercase_extended lowercase_ranges lowercase_letters
    apply_change map_by
converts = refl
