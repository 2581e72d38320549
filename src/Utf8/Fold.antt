-- ===== src/Utf8/Fold.antt =====
-- Case conversion of UTF-8 strings, pico/lib/picobase.c.
use platform_external_svox.Common.{
  take_all, get_or-middle, ℕ, zero, suc, ◌+◌, ◌-◌, ◌<◌, ◌≤◌, ◌≡◌, Bool, true, false, ◌&&◌, Option,
  some, none, List, [], ◌∷◌, ◌++◌, ◌==◌, if◌then◌else◌, arith, map, length, get_or, take, All, refl,
  ap, ap₂, sym, ◌∙◌, append_assoc, length-append, inl, inr, ==_iff,
}
use platform_external_svox.Utf8.Case.{IsCased, encoded_length}
use platform_external_svox.Utf8.{
  det_utf8_length, utf8_maxlen, copy_char, get_utf8char, utf8_to_utf32, utf32_to_utf8, case_loop,
  lowercase_utf8_str, uppercase_utf8_str,
}
use platform_external_svox.Utf8.Lowercase.{base_utf32_lowercase}
use platform_external_svox.Utf8.Uppercase.{base_utf32_uppercase}
use platform_external_svox.Utf8.Casing.{base_utf32_lowercase-IsCased, base_utf32_uppercase-IsCased}
use platform_external_svox.Utf8.Encoding.{
  IsUtf8Char, IsScalar, encode, encode-IsUtf8Char, encode-cases, utf8_to_utf32-utf32_to_utf8,
}
use platform_external_svox.Utf8.Letters.{alphabets, small_letter, small_letters}
use platform_external_svox.Utf8.Walk.{get_utf8char_lem}

-- The UTF-8 text of scalars.
abbrev pub encode_all : List ℕ → List ℕ
encode_all [] = []
encode_all (x ∷ xs) = encode x ++ encode_all xs

length-encode : (x : ℕ) → x < 1048576 → length (encode x) ≡ encoded_length x
length-encode x h = elim (encode-cases x h) [
  | inl (a, e) ↦ rw e (ground arith)
  | inr (inl (a, b, e)) ↦ rw e (ground arith)
  | inr (inr (inl (a, b, e))) ↦ rw e (ground arith)
  | inr (inr (inr (a, e))) ↦ rw e (ground arith)
]

-- A round, once its character, the converted character and what is written of it are known.
abbrev round :
    (ℕ → ℕ) → ℕ → List ℕ → ℕ → ℕ → ℕ → Bool → List ℕ × ℕ → List ℕ → List ℕ → Option (List ℕ × Bool)
round f fuel s max i k done c enc w =
    if get_or s i 0 == 0
    then some ([], done)
    else elim (case_loop f fuel s max c.1 (k + length w) (done && length w == length enc)) [
      | none ↦ none
      | some r ↦ some (w ++ r.0, r.1)
    ]

round_lem :
    (f : ℕ → ℕ) (fuel : ℕ) (s : List ℕ) (max i k : ℕ) (done : Bool) (c : List ℕ × ℕ)
    (enc w : List ℕ)
    → get_utf8char s i ≡ c
    → (utf32_to_utf8 (f (utf8_to_utf32 c.0).0) utf8_maxlen).0 ≡ enc
    → take (max - 1 - k) enc ≡ w
    → case_loop f (suc fuel) s max i k done ≡ round f fuel s max i k done c enc w
unfolding case_loop
round_lem f fuel s max i k done c enc w e1 e2 e3 =
    ap
      (λ x.
        let e = (utf32_to_utf8 (f (utf8_to_utf32 x.0).0) utf8_maxlen).0 in
        round f fuel s max i k done x e (take (max - 1 - k) e))
      {y = c} e1
    ∙ ap (λ e. round f fuel s max i k done c e (take (max - 1 - k) e)) e2
    ∙ ap (round f fuel s max i k done c enc) e3

first_nonzero :
    (pre c post : List ℕ) → IsUtf8Char c → (get_or (pre ++ (c ++ post)) (length pre) 0 == 0) ≡ false
first_nonzero pre [] post h = absurd (omega arith)
first_nonzero pre (b ∷ follow) post (p, d, a) =
    ground (arith, get_or-middle pre b (follow ++ post) (length pre) 0 refl)

-- A round of the conversion at the end of what is read.
case_round :
    (f : ℕ → ℕ) (fuel : ℕ) (pre : List ℕ) (x : ℕ) (post : List ℕ) (max k : ℕ)
    → IsScalar x
    → k + length (encode (f x)) < max
    → (r : List ℕ × Bool)
    → case_loop f fuel
        (pre ++ (encode x ++ post))
        max
        (length pre + length (encode x))
        (k + length (encode (f x)))
        true
      ≡ some r
    → case_loop f (suc fuel) (pre ++ (encode x ++ post)) max (length pre) k true
      ≡ some (encode (f x) ++ r.0, r.1)
case_round f fuel pre x post max k sx room r h =
    let same : (length (encode (f x)) == length (encode (f x))) ≡ true = (==_iff _ _).1 refl in
    round_lem f fuel (pre ++ (encode x ++ post)) max (length pre) k true
      (encode x, length pre + length (encode x)) (encode (f x)) (encode (f x))
      (get_utf8char_lem pre (encode x) post (encode-IsUtf8Char x sx))
      (ap (λ d. encode (f d.0)) (utf8_to_utf32-utf32_to_utf8 x utf8_maxlen sx.1 (omega arith)).1)
      (take_all (encode (f x)) (max - 1 - k) (omega arith))
    ∙ rw (first_nonzero pre (encode x) post (encode-IsUtf8Char x sx), same, h) refl

end_round :
    (f : ℕ → ℕ) (fuel : ℕ) (pre rest : List ℕ) (max k : ℕ)
    → case_loop f (suc fuel) (pre ++ (0 ∷ rest)) max (length pre) k true ≡ some ([], true)
unfolding case_loop
end_round f fuel pre rest max k = rw (get_or-middle pre 0 rest (length pre) 0 refl) refl

case_loop_lem :
    (f : ℕ → ℕ) (fuel : ℕ) (pre xs rest : List ℕ) (max k : ℕ)
    → All IsScalar xs
    → length xs < fuel
    → k + length (encode_all (map f xs)) < max
    → case_loop f fuel (pre ++ (encode_all xs ++ (0 ∷ rest))) max (length pre) k true
      ≡ some (encode_all (map f xs), true)
case_loop_lem f zero pre xs rest max k a h m = absurd (omega arith)
case_loop_lem f (suc fuel) pre [] rest max k a h m = end_round f fuel pre rest max k
case_loop_lem f (suc fuel) pre (x ∷ xs) rest max k (sx, a) h m =
    let post : List ℕ = encode_all xs ++ (0 ∷ rest) in
    let split : length (encode_all (map f (x ∷ xs)))
        ≡ length (encode (f x)) + length (encode_all (map f xs)) =
      length-append (encode (f x)) (encode_all (map f xs)) in
    let ih =
      case_loop_lem f fuel (pre ++ encode x) xs rest max (k + length (encode (f x))) a (omega arith)
        (omega (arith, split)) in
    ap (λ s. case_loop f (suc fuel) (pre ++ s) max (length pre) k true)
      (append_assoc (encode x) (encode_all xs) (0 ∷ rest))
    ∙ case_round f fuel pre x post max k sx (omega (arith, split)) (encode_all (map f xs), true)
        (ap₂ (λ s i. case_loop f fuel s max i (k + length (encode (f x))) true)
            (sym (append_assoc pre (encode x) post)) (sym (length-append pre (encode x)))
          ∙ ih)

length-encode_all-map :
    (f : ℕ → ℕ) (xs : List ℕ)
    → ((x : ℕ) → IsScalar x → IsCased x (f x))
    → All IsScalar xs
    → length (encode_all (map f xs)) ≤ length (encode_all xs)
length-encode_all-map f [] g a = omega arith
length-encode_all-map f (x ∷ xs) g ((p, h), a) =
    let (y, z, l) = g x (p, h) in
    omega (
      arith,
      length-append (encode (f x)) (encode_all (map f xs)),
      length-append (encode x) (encode_all xs),
      length-encode x h,
      length-encode (f x) z,
      l,
      length-encode_all-map f xs g a,
    )

case_str_lem :
    (f : ℕ → ℕ) (fuel : ℕ) (xs rest : List ℕ) (max : ℕ)
    → ((x : ℕ) → IsScalar x → IsCased x (f x))
    → All IsScalar xs
    → length xs < fuel
    → length (encode_all xs) < max
    → (case_loop f fuel (encode_all xs ++ (0 ∷ rest)) max 0 0 true
        ≡ some (encode_all (map f xs), true))
      × (length (encode_all (map f xs)) ≤ length (encode_all xs))
case_str_lem f fuel xs rest max g a h m =
    let l = length-encode_all-map f xs g a in
    (case_loop_lem f fuel [] xs rest max 0 a h (omega (arith, l)), l)

-- picobase_lowercase_utf8_str of the UTF-8 text of scalars from 1 to 2^20 - 1, closed by a 0 and
-- shorter than the maximal length, ends after a round for each of them and one more, reports
-- success, and writes the text of what base_utf32_lowercase gives for them, which is not longer.
-- That is the small letter for each scalar of the Latin-1, Greek, Cyrillic, Armenian and fullwidth
-- Latin alphabets, and nothing more is said of the other scalars.
pub lowercase_utf8_str_lem :
    (fuel : ℕ) (xs rest : List ℕ) (max : ℕ)
    → All IsScalar xs
    → length xs < fuel
    → length (encode_all xs) < max
    → (lowercase_utf8_str fuel (encode_all xs ++ (0 ∷ rest)) max
        ≡ some (encode_all (map base_utf32_lowercase xs), true))
      × (length (encode_all (map base_utf32_lowercase xs)) ≤ length (encode_all xs))
      × (map base_utf32_lowercase alphabets ≡ map small_letter alphabets)
unfolding lowercase_utf8_str
lowercase_utf8_str_lem fuel xs rest max a h m =
    let (runs, shorter) =
      case_str_lem base_utf32_lowercase fuel xs rest max
        (λ x s. base_utf32_lowercase-IsCased x s.0 s.1) a h m in
    (runs, shorter, small_letters)

-- picobase_uppercase_utf8_str of the UTF-8 text of scalars from 1 to 2^20 - 1, closed by a 0 and
-- shorter than the maximal length, ends after a round for each of them and one more, reports
-- success, and writes the text of their uppercase scalars, which is not longer.
pub uppercase_utf8_str_lem :
    (fuel : ℕ) (xs rest : List ℕ) (max : ℕ)
    → All IsScalar xs
    → length xs < fuel
    → length (encode_all xs) < max
    → (uppercase_utf8_str fuel (encode_all xs ++ (0 ∷ rest)) max
        ≡ some (encode_all (map base_utf32_uppercase xs), true))
      × (length (encode_all (map base_utf32_uppercase xs)) ≤ length (encode_all xs))
unfolding uppercase_utf8_str
uppercase_utf8_str_lem fuel xs rest max a h m =
    case_str_lem base_utf32_uppercase fuel xs rest max
      (λ x s. base_utf32_uppercase-IsCased x s.0 s.1) a h m

no_rounds :
    (f : ℕ → ℕ) (s : List ℕ) (max i k : ℕ) (done : Bool) → case_loop f 0 s max i k done ≡ none
unfolding case_loop
no_rounds f s max i k done = refl

case_loop_hangs :
    (f : ℕ → ℕ) (fuel : ℕ) (s : List ℕ) (max i k : ℕ) (done : Bool)
    → (get_or s i 0 == 0) ≡ false
    → get_utf8char s i ≡ ([], i)
    → case_loop f fuel s max i k done ≡ none
case_loop_hangs f zero s max i k done n c = no_rounds f s max i k done
case_loop_hangs f (suc fuel) s max i k done n c =
    let enc : List ℕ = encode (f (utf8_to_utf32 []).0) in
    let w : List ℕ = take (max - 1 - k) enc in
    round_lem f fuel s max i k done ([], i) enc w c refl refl
    ∙ rw (n, case_loop_hangs f fuel s max i (k + length w) (done && length w == length enc) n c)
        refl

-- A string that starts with a byte other than 0 that no character starts with is never converted:
-- picobase_lowercase_utf8_str and picobase_uppercase_utf8_str end after no number of rounds.
pub lowercase_utf8_str_hangs :
    (fuel : ℕ) (b : ℕ) (s : List ℕ) (max : ℕ)
    → 0 < b
    → det_utf8_length b ≡ 0
    → (lowercase_utf8_str fuel (b ∷ s) max ≡ none) × (uppercase_utf8_str fuel (b ∷ s) max ≡ none)
unfolding lowercase_utf8_str uppercase_utf8_str get_utf8char copy_char
lowercase_utf8_str_hangs fuel b s max p d =
    let nonzero : (b == 0) ≡ false = ground arith in
    let stays : get_utf8char (b ∷ s) 0 ≡ ([], 0) = rw d refl in
    (
      case_loop_hangs base_utf32_lowercase fuel (b ∷ s) max 0 0 true nonzero stays,
      case_loop_hangs base_utf32_uppercase fuel (b ∷ s) max 0 0 true nonzero stays,
    )
