-- ===== src/Utf8/Letters.antt =====
-- base_utf32_lowercase of pico/lib/picobase.c on the alphabets whose letters stand in two rows.
use platform_external_svox.Common.{
  ℕ, zero, suc, ◌+◌, ◌≡◌, ◌||◌, List, [], ◌∷◌, ◌++◌, if◌then◌else◌, map, refl,
}
use platform_external_svox.Utf8.Case.{in_range, map_by, apply_change}
use platform_external_svox.Utf8.Lowercase.{
  base_utf32_lowercase, lowercase_extended, lowercase_ranges, lowercase_letters,
}

-- In the Latin-1, Greek, Cyrillic, Armenian and fullwidth Latin alphabets a capital stands a fixed distance
-- before its small letter.
abbrev pub small_letter : ℕ → ℕ
small_letter x =
    if in_range 65 90 x || in_range 192 214 x || in_range 216 222 x
    then x + 32
    else if in_range 913 929 x
        || in_range 931 939 x
        || in_range 1040 1071 x
        || in_range 65313 65338 x
    then x + 32
    else if in_range 1024 1039 x
    then x + 80
    else if in_range 1329 1366 x
    then x + 48
    else x

-- The scalars of those alphabets.
abbrev from_on : ℕ → ℕ → List ℕ
from_on zero x = []
from_on (suc n) x = x ∷ from_on n (x + 1)

abbrev pub alphabets : List ℕ
alphabets =
    from_on 255 1 ++ (from_on 59 913 ++ (from_on 96 1024 ++ (from_on 87 1329 ++ from_on 58 65313)))

pub small_letters : map base_utf32_lowercase alphabets ≡ map small_letter alphabets
unfolding base_utf32_lowercase map_by lowercase_extended lowercase_ranges lowercase_letters
    apply_change
small_letters = refl
