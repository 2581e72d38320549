-- ===== src/Utf8/Walk.antt =====
-- Steps over a string, forward and back: the next and previous characters of pico/lib/picobase.c.
use platform_external_svox.Common.{
  get_or-middle, ℕ, zero, suc, ◌+◌, ◌-◌, ◌<◌, ◌≤◌, ◌≡◌, true, false, not, ◌&&◌, ◌||◌, some, List,
  [], ◌∷◌, ◌++◌, ltb, leb, ◌==◌, arith, ◌%◌, length, get_or, take, drop, All, refl, ap, ap₂, sym,
  ◌∙◌, subst, u32_mod, drop-length-append, take-length-append,
}
use platform_external_svox.Utf8.{
  det_utf8_length, copy_char, get_utf8char, get_next_utf8char, get_next_utf8charpos, prev_loop,
  get_prev_utf8charpos, get_prev_utf8char,
}
use platform_external_svox.Utf8.Encoding.{IsFollow, IsUtf8Char}

copy_follow :
    (follow s : List ℕ) → All IsFollow follow → copy_char (length follow) (follow ++ s) ≡ follow
unfolding copy_char
copy_follow [] s a = refl
copy_follow (b ∷ follow) s ((l, u), a) =
    let no_zero : (b == 0) ≡ false = ground arith in
    rw no_zero (ap (λ t. b ∷ t) (copy_follow follow s a))

det_le : (b : ℕ) → det_utf8_length b ≤ 4
unfolding det_utf8_length
det_le b = ground arith

det-follow : (b : ℕ) → IsFollow b → det_utf8_length b ≡ 0
unfolding det_utf8_length
det-follow b (l, u) = ground arith

copy_lead :
    (b : ℕ) (follow post : List ℕ)
    → (b == 0) ≡ false
    → All IsFollow follow
    → copy_char (suc (length follow)) (b ∷ (follow ++ post)) ≡ b ∷ follow
unfolding copy_char
copy_lead b follow post z a = rw z (ap (λ t. b ∷ t) (copy_follow follow post a))

get_or-behind :
    (pre s : List ℕ) (k p : ℕ) → p ≡ length pre + k → get_or (pre ++ s) p 0 ≡ get_or s k 0
get_or-behind [] s k p h = ap (λ q. get_or s q 0) {y = k} (omega arith)
get_or-behind (x ∷ pre) s k zero h = absurd (omega arith)
get_or-behind (x ∷ pre) s k (suc p) h = get_or-behind pre s k p (omega arith)

-- The character that starts at the end of a prefix.
pub copy_at :
    (pre c post : List ℕ)
    → IsUtf8Char c
    → let s = pre ++ (c ++ post) in
      let len = det_utf8_length (get_or s (length pre) 0) in
      (len ≡ length c) × (copy_char len (drop (length pre) s) ≡ c)
copy_at pre [] post h = absurd (omega arith)
copy_at pre (b ∷ follow) post (p, d, a) =
    let no_zero : (b == 0) ≡ false = ground arith in
    let first : get_or (pre ++ (b ∷ (follow ++ post))) (length pre) 0 ≡ b =
      get_or-middle pre b (follow ++ post) (length pre) 0 refl in
    (
      ap det_utf8_length first ∙ d,
      ap₂ copy_char (ap det_utf8_length first ∙ d) (drop-length-append pre (b ∷ (follow ++ post)))
          ∙ copy_lead b follow post no_zero a,
    )

pub get_utf8char_lem :
    (pre c post : List ℕ)
    → IsUtf8Char c
    → get_utf8char (pre ++ (c ++ post)) (length pre) ≡ (c, length pre + length c)
unfolding get_utf8char
get_utf8char_lem pre c post h = ap (λ l. (l, length pre + length l)) (copy_at pre c post h).1

-- The byte of a character behind its first one.
IsFollow-at :
    (pre : List ℕ) (b : ℕ) (follow post : List ℕ) (m : ℕ)
    → All IsFollow follow
    → m < length follow
    → IsFollow (get_or (pre ++ (b ∷ (follow ++ post))) (length pre + suc m) 0)
IsFollow-at pre b follow post m a h =
    subst IsFollow
      (sym (get_or-behind pre (b ∷ (follow ++ post)) (suc m) (length pre + suc m) refl))
      (inner follow m a h)
  where
    inner :
        (xs : List ℕ) (k : ℕ) → All IsFollow xs → k < length xs → IsFollow (get_or (xs ++ post) k 0)
    inner [] k a h = absurd (omega arith)
    inner (x ∷ xs) zero (f, a) h = f
    inner (x ∷ xs) (suc k) (f, a) h = inner xs k a (omega arith)

prev_loop_lem :
    (pre : List ℕ) (b : ℕ) (follow post : List ℕ) (slenmin m n i : ℕ)
    → 0 < b
    → det_utf8_length b ≡ suc (length follow)
    → All IsFollow follow
    → slenmin ≤ length pre
    → length pre + m < u32_mod
    → m ≤ length follow
    → i + m ≡ suc (length follow)
    → m < n
    → prev_loop n i (length pre + m) (pre ++ (b ∷ (follow ++ post))) slenmin ≡ some (length pre)
unfolding prev_loop
prev_loop_lem pre b follow post slenmin m zero i p d a lo up k e l = absurd (omega arith)
prev_loop_lem pre b follow post slenmin zero (suc n) i p d a lo up k e l =
    let first : get_or (pre ++ (b ∷ (follow ++ post))) (length pre + 0) 0 ≡ b =
      get_or-middle pre b (follow ++ post) (length pre + 0) 0 (omega arith) in
    let go : (leb slenmin (length pre + 0) && not (b == 0)) ≡ true = ground arith in
    let found : (suc (length follow) == i) ≡ true = ground arith in
    rw (first, go, d, found) (ap some {x = length pre + 0} (omega arith))
prev_loop_lem pre b follow post slenmin (suc m) (suc n) i p d a lo up k e l =
    let (f, g) = IsFollow-at pre b follow post m a (omega arith) in
    let x : ℕ = get_or (pre ++ (b ∷ (follow ++ post))) (length pre + suc m) 0 in
    let go : (leb slenmin (length pre + suc m) && not (x == 0)) ≡ true = ground arith in
    let none_here : (det_utf8_length x == i) ≡ false = ground (arith, det-follow x (f, g)) in
    rw (go, none_here)
      (ap (λ q. prev_loop n (i + 1) q (pre ++ (b ∷ (follow ++ post))) slenmin) {y = length pre + m}
          (omega arith)
        ∙ prev_loop_lem pre b follow post slenmin m n (i + 1) p d a lo (omega arith) (omega arith)
            (omega arith) (omega arith))

prev_pos_lem :
    (pre : List ℕ) (b : ℕ) (follow post : List ℕ) (slenmin : ℕ)
    → 0 < b
    → det_utf8_length b ≡ suc (length follow)
    → All IsFollow follow
    → slenmin ≤ length pre
    → length pre + suc (length follow) < u32_mod
    → get_prev_utf8charpos
        (pre ++ (b ∷ (follow ++ post)))
        slenmin
        (length pre + suc (length follow))
      ≡ some (length pre)
unfolding get_prev_utf8charpos
prev_pos_lem pre b follow post slenmin p d a lo w =
    let s : List ℕ = pre ++ (b ∷ (follow ++ post)) in
    let inside : ((length pre + suc (length follow)) == 0) ≡ false = ground arith in
    let back : length pre + suc (length follow) - 1 ≡ length pre + length follow = omega arith in
    let four : suc (length follow) ≤ 4 = omega (arith, det_le b, d) in
    let start : prev_loop 4 1 (length pre + length follow) s slenmin ≡ some (length pre) =
      prev_loop_lem pre b follow post slenmin (length follow) 4 1 p d a lo (omega arith)
        (omega arith) (omega arith) (omega arith) in
    rw (inside, back) start

prev_lem :
    (pre : List ℕ) (b : ℕ) (follow post : List ℕ) (slenmin : ℕ)
    → 0 < b
    → det_utf8_length b ≡ suc (length follow)
    → All IsFollow follow
    → slenmin ≤ length pre
    → length pre + suc (length follow) < u32_mod
    → get_prev_utf8char (pre ++ (b ∷ (follow ++ post))) slenmin (length pre + suc (length follow))
      ≡ some (length pre, b ∷ follow)
unfolding get_prev_utf8char
prev_lem pre b follow post slenmin p d a lo w =
    let (len, copied) = copy_at pre (b ∷ follow) post (p, d, a) in
    rw (prev_pos_lem pre b follow post slenmin p d a lo w, get_prev_utf8char)
      (ap (λ l. some (length pre, l))
        (ap₂ take len (drop-length-append pre (b ∷ (follow ++ post)))
          ∙ take-length-append (b ∷ follow) post))

-- On a string of fewer than 2^32 bytes, with a well-formed character at a position, within the limits
-- given, picobase_get_next_utf8char gives that character and the position behind it, from where
-- picobase_get_prev_utf8char gives the same character and comes back.
pub get_prev_utf8char-get_next_utf8char :
    (pre c post : List ℕ) (slenmin slenmax : ℕ)
    → IsUtf8Char c
    → slenmin ≤ length pre
    → length pre + length c ≤ slenmax
    → length pre + length c < u32_mod
    → let s = pre ++ (c ++ post) in
      let r = get_next_utf8char s slenmax (length pre) in
      (r ≡ (true, length pre + length c, c))
      × (get_next_utf8charpos s slenmax (length pre) ≡ (true, length pre + length c))
      × (get_prev_utf8char s slenmin r.1 ≡ some (length pre, c))
unfolding get_next_utf8char get_next_utf8charpos get_prev_utf8char get_prev_utf8charpos
get_prev_utf8char-get_next_utf8char pre [] post slenmin slenmax h lo hi w = absurd (omega arith)
get_prev_utf8char-get_next_utf8char pre (b ∷ follow) post slenmin slenmax (p, d, a) lo hi w =
    let (len, copied) = copy_at pre (b ∷ follow) post (p, d, a) in
    let four : suc (length follow) ≤ 4 = omega (arith, det_le b, d) in
    let fits : (ltb slenmax ((length pre + suc (length follow)) % u32_mod)
          || ltb 4 (suc (length follow)))
        ≡ false =
      ground arith in
    let whole : ltb (suc (length follow)) (suc (length follow)) ≡ false = ground arith in
    let next : (length pre + suc (length follow)) % u32_mod ≡ length pre + suc (length follow) =
      omega arith in
    rw (copied, len, fits, whole, next) (refl, refl, prev_lem pre b follow post slenmin p d a lo w)

-- At a byte that no character starts with, at a position below 2^32 within the limit, both functions
-- that look for the next character report success and stay where they are.
pub get_next_utf8char_stays :
    (s : List ℕ) (slenmax p : ℕ)
    → det_utf8_length (get_or s p 0) ≡ 0
    → p ≤ slenmax
    → p < u32_mod
    → (get_next_utf8char s slenmax p ≡ (true, p, []))
      × (get_next_utf8charpos s slenmax p ≡ (true, p))
unfolding get_next_utf8char get_next_utf8charpos copy_char
get_next_utf8char_stays s slenmax p d h w =
    let fits : (ltb slenmax ((p + 0) % u32_mod) || ltb 4 0) ≡ false = ground arith in
    let same : (p + 0) % u32_mod ≡ p = omega arith in rw (d, fits, same) (refl, refl)
