-- ===== src/Utf8/Length.antt =====
-- `picobase_utf8_length` of pico/lib/picobase.c counts characters.
use platform_external_svox.Common.{
  take_all, ℕ, zero, suc, ◌+◌, ◌-◌, ◌<◌, ◌≤◌, ◌≡◌, true, false, some, none, List, [], ◌∷◌, ◌++◌,
  ltb, leb, ◌==◌, arith, length, take, All, refl, ap, sym, ◌∙◌, append_assoc, append-nil,
  length-append, ◌&&◌,
}
use platform_external_svox.Utf8.{det_utf8_length, length_loop, utf8_length}
use platform_external_svox.Utf8.Encoding.{IsFollow, IsUtf8Char}

-- The characters one after the other.
abbrev pub text : List (List ℕ) → List ℕ
text [] = []
text (c ∷ cs) = c ++ text cs

follow_lem :
    (follow s : List ℕ) (n len : ℕ)
    → All IsFollow follow
    → length follow ≤ n
    → length_loop (follow ++ s) n len ≡ length_loop s (n - length follow) len
unfolding length_loop
follow_lem [] s n len a h = ap (λ m. length_loop s m len) (omega arith)
follow_lem (b ∷ follow) s n len ((l, u), a) h =
    let zero_no : (b == 0) ≡ false = ground arith in
    let more : ltb 0 n ≡ true = ground arith in
    let inside : (leb 128 b && ltb b 192) ≡ true = ground arith in
    rw (zero_no, more, inside)
      (follow_lem follow s (n - 1) len a (omega arith)
        ∙ ap (λ m. length_loop s m len) {x = n - 1 - length follow} (omega arith))

lead_lem :
    (b : ℕ) (s : List ℕ) (len n : ℕ)
    → 0 < b
    → det_utf8_length b ≡ suc n
    → length_loop (b ∷ s) 0 len ≡ length_loop s n (len + 1)
unfolding length_loop det_utf8_length
lead_lem b s len n p h = ground arith

char_lem :
    (c s : List ℕ) (len : ℕ) → IsUtf8Char c → length_loop (c ++ s) 0 len ≡ length_loop s 0 (len + 1)
char_lem [] s len h = absurd (omega arith)
char_lem (b ∷ follow) s len (p, d, a) =
    lead_lem b (follow ++ s) len (length follow) p d
    ∙ follow_lem follow s (length follow) (len + 1) a (omega arith)
    ∙ ap (λ m. length_loop s m (len + 1)) (omega arith)

text_lem :
    (cs : List (List ℕ)) (s : List ℕ) (len : ℕ)
    → All IsUtf8Char cs
    → length_loop (text cs ++ s) 0 len ≡ length_loop s 0 (len + length cs)
text_lem [] s len h = ap (λ n. length_loop s 0 n) (omega arith)
text_lem (c ∷ cs) s len (h, a) =
    ap (λ l. length_loop l 0 len) (append_assoc c (text cs) s)
    ∙ char_lem c (text cs ++ s) len h
    ∙ text_lem cs s (len + 1) a
    ∙ ap (λ n. length_loop s 0 n) {x = len + 1 + length cs} (omega arith)

text_start :
    (cs : List (List ℕ)) (s : List ℕ)
    → All IsUtf8Char cs
    → length_loop (text cs ++ s) 0 0 ≡ length_loop s 0 (length cs)
text_start cs s a = text_lem cs s 0 a ∙ ap (λ n. length_loop s 0 n) (omega arith)

All-prefix : (xs ys : List ℕ) → All IsFollow (xs ++ ys) → All IsFollow xs
All-prefix [] ys h = tt
All-prefix (x ∷ xs) ys (h, a) = (h, All-prefix xs ys a)

bad_lem : (b : ℕ) (s : List ℕ) (len : ℕ) → det_utf8_length b ≡ 0 → length_loop (b ∷ s) 0 len ≡ none
unfolding length_loop det_utf8_length
bad_lem b s len d = ground arith

-- What is left of a string behind a part that is within the maximal length.
cut_behind :
    (xs : List ℕ) (b : ℕ) (s : List ℕ) (n : ℕ)
    → length xs < n
    → (t : List ℕ) × (take n (xs ++ (b ∷ s)) ≡ xs ++ (b ∷ t))
cut_behind [] b s zero h = absurd (omega arith)
cut_behind [] b s (suc n) h = (take n s, refl)
cut_behind (x ∷ xs) b s zero h = absurd (omega arith)
cut_behind (x ∷ xs) b s (suc n) h =
    let (t, e) = cut_behind xs b s n (omega arith) in (t, ap (λ l. x ∷ l) e)

-- A byte that no character starts with, behind well-formed characters and within the maximal length,
-- makes picobase_utf8_length return -1.
pub utf8_length-bad :
    (cs : List (List ℕ)) (b : ℕ) (s : List ℕ) (maxlen : ℕ)
    → All IsUtf8Char cs
    → det_utf8_length b ≡ 0
    → length (text cs) < maxlen
    → utf8_length (text cs ++ (b ∷ s)) maxlen ≡ none
unfolding utf8_length
utf8_length-bad cs b s maxlen a d h =
    let (t, e) = cut_behind (text cs) b s maxlen h in
    ap (λ l. length_loop l 0 0) e ∙ text_start cs (b ∷ t) a ∙ bad_lem b t (length cs) d

-- picobase_utf8_length of well-formed characters within the maximal length gives their number, also
-- if the last of them is followed by the first bytes, at least one, of a character that is cut off,
-- which is counted in full.
pub utf8_length-text :
    (cs : List (List ℕ)) (b : ℕ) (cut rest : List ℕ) (maxlen : ℕ)
    → All IsUtf8Char cs
    → IsUtf8Char (b ∷ (cut ++ rest))
    → length (text cs ++ (b ∷ cut)) ≤ maxlen
    → (utf8_length (text cs) maxlen ≡ some (length cs))
      × (utf8_length (text cs ++ (b ∷ cut)) maxlen ≡ some (length cs + 1))
unfolding utf8_length length_loop
utf8_length-text cs b cut rest maxlen a (p, d, f) h =
    let whole : length (text cs) ≤ maxlen = omega (arith, length-append (text cs) (b ∷ cut), h) in
    (
      ap (λ l. length_loop l 0 0) (take_all (text cs) maxlen whole)
          ∙ ap (λ l. length_loop l 0 0) (sym (append-nil (text cs)))
          ∙ text_start cs [] a,
      ap (λ l. length_loop l 0 0) (take_all (text cs ++ (b ∷ cut)) maxlen h)
          ∙ text_start cs (b ∷ cut) a
          ∙ lead_lem b cut (length cs) (length (cut ++ rest)) p d
          ∙ ap (λ l. length_loop l (length (cut ++ rest)) (length cs + 1)) (sym (append-nil cut))
          ∙ follow_lem cut [] (length (cut ++ rest)) (length cs + 1) (All-prefix cut rest f)
              (omega (arith, length-append cut rest)),
    )
