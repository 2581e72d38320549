-- ===== src/Strings/Tests.antt =====
-- The theorems on strings at small strings.
use platform_external_svox.Common.{◌≡◌, ◌↔◌, inl, refl, true, [], ◌∷◌, arith, pos, negsuc, get_or}
use platform_external_svox.Status.{ok, exc_number_format}
use platform_external_svox.Strings.{
  string_to_int32, string_to_uint32, unsigned_part, digits_loop, skip_spaces, read_mem_pi_uint16,
  write_mem_pi_uint16, has_extension, get_sep_part_str,
}
use platform_external_svox.Strings.Numbers.{
  string_to_int32-decimal, read_mem_pi_uint16-write_mem_pi_uint16,
}
use platform_external_svox.Strings.Fields.{EndsWith, has_extension_iff, get_sep_part_str_lem}

-- "12x" and "+7".
parses :
    (string_to_int32 (49 ∷ 50 ∷ 120 ∷ []) ≡ (pos 0, exc_number_format))
    × (string_to_int32 (43 ∷ 55 ∷ []) ≡ (pos 7, ok))
unfolding string_to_int32 unsigned_part digits_loop skip_spaces
parses = (refl, refl)

-- " 12" and " -12 "
string_to_int32-decimal_example :
    (string_to_int32 (32 ∷ 49 ∷ 50 ∷ []) ≡ (pos 12, ok))
    × (string_to_int32 (32 ∷ 45 ∷ 49 ∷ 50 ∷ []) ≡ (negsuc 11, ok))
    × (string_to_uint32 (32 ∷ 49 ∷ 50 ∷ []) ≡ (12, ok))
string_to_int32-decimal_example =
    string_to_int32-decimal (32 ∷ []) 49 (50 ∷ []) [] ((omega arith, omega arith), tt)
      ((omega arith, omega arith), ((omega arith, omega arith), tt)) tt (omega arith)

read_mem_pi_uint16-write_mem_pi_uint16_runs :
    let w = write_mem_pi_uint16 (1 ∷ 2 ∷ 3 ∷ 4 ∷ []) 1 515 in
    (read_mem_pi_uint16 w.0 1 ≡ (515, w.1)) × (get_or w.0 0 0 ≡ 1)
read_mem_pi_uint16-write_mem_pi_uint16_runs =
    read_mem_pi_uint16-write_mem_pi_uint16 (1 ∷ 2 ∷ 3 ∷ 4 ∷ []) 1 515 0 (omega arith) (omega arith)
      (inl (omega arith))

-- "a.b" and ".b"
has_extension_iff_example :
    (has_extension (97 ∷ 46 ∷ 98 ∷ []) (46 ∷ 98 ∷ []) ≡ true)
    ↔ EndsWith (97 ∷ 46 ∷ 98 ∷ []) (46 ∷ 98 ∷ []) 3 2
has_extension_iff_example = has_extension_iff (97 ∷ 46 ∷ 98 ∷ []) (46 ∷ 98 ∷ [])

-- The second field of "a,bc,d".
get_sep_part_str_lem_example :
    get_sep_part_str (97 ∷ 44 ∷ 98 ∷ 99 ∷ 44 ∷ 100 ∷ []) 6 2 44 10 ≡ (98 ∷ 99 ∷ [], true, 5)
get_sep_part_str_lem_example =
    get_sep_part_str_lem (97 ∷ 44 ∷ []) (98 ∷ 99 ∷ []) (100 ∷ []) 44 10
      (
        ((λ e. absurd (omega arith)), (λ e. absurd (omega arith))),
        (((λ e. absurd (omega arith)), (λ e. absurd (omega arith))), tt),
      )
      (omega arith)
