-- ===== src/CharBuffer/Loops.antt =====
-- The byte loops of `data_cbPutItem` and `data_cbGetItem` (pico/lib/picodata.c) on what a valid
-- buffer holds.
use platform_external_svox.Common.{
  ℕ, zero, suc, ◌+◌, ◌-◌, ◌%◌, ◌<◌, ◌≤◌, ◌≡◌, refl, ap, ◌∙◌, sym, List, [], ◌∷◌, ◌++◌, arith,
  append_assoc, append-nil, length, get_or, set, take, drop, write_at,
}
use platform_external_svox.CharBuffer.{
  CharBuffer, put_byte, skip_byte, skip_bytes, get_bytes, put_bytes, front_blen, headsize,
}
use platform_external_svox.CharBuffer.Valid.{IsValid, view, contents, put_byte_lem, skip_byte_lem}

-- The `n` elements of an array from index `i` on.
abbrev pub slice : List ℕ → ℕ → ℕ → List ℕ
slice src i zero = []
slice src i (suc n) = get_or src i 0 ∷ slice src (i + 1) n

slice-cons : (x : ℕ) (xs : List ℕ) (i n : ℕ) → slice (x ∷ xs) (suc i) n ≡ slice xs i n
slice-cons x xs i zero = refl
slice-cons x xs i (suc n) =
    ap (λ l. get_or xs i 0 ∷ l)
      (ap (λ j. slice (x ∷ xs) j n) {y = suc (i + 1)} (omega arith) ∙ slice-cons x xs (i + 1) n)

-- From the start, a slice of what an array has is its prefix.
pub slice-take : (xs : List ℕ) (n : ℕ) → n ≤ length xs → slice xs 0 n ≡ take n xs
slice-take xs zero h = refl
slice-take [] (suc n) h = absurd (omega arith)
slice-take (x ∷ xs) (suc n) h =
    ap (λ l. x ∷ l)
      (ap (λ j. slice (x ∷ xs) j n) {y = suc 0} (omega arith)
        ∙ slice-cons x xs 0 n
        ∙ slice-take xs n (omega arith))

size-put_byte : (cb : CharBuffer) (c : ℕ) → (put_byte cb c).size ≡ cb.size
unfolding put_byte
size-put_byte cb c = refl

len-put_byte :
    (cb : CharBuffer) (c : ℕ) → IsValid cb → cb.len < cb.size → (put_byte cb c).len ≡ cb.len + 1
unfolding put_byte
len-put_byte cb c v h = omega arith

size-skip_byte : (cb : CharBuffer) → (skip_byte cb).size ≡ cb.size
unfolding skip_byte
size-skip_byte cb = refl

len-skip_byte : (cb : CharBuffer) → IsValid cb → 0 < cb.len → (skip_byte cb).len ≡ cb.len - 1
unfolding skip_byte
len-skip_byte cb v h = omega arith

-- Putting `n` bytes that fit appends them.
pub put_bytes_lem :
    (n i : ℕ) (cb : CharBuffer) (src : List ℕ)
    → IsValid cb
    → cb.len + n ≤ cb.size
    → IsValid (put_bytes n i cb src)
      × ((put_bytes n i cb src).size ≡ cb.size)
      × (contents (put_bytes n i cb src) ≡ contents cb ++ slice src i n)
unfolding put_bytes
put_bytes_lem zero i cb src v h = (v, refl, sym (append-nil (contents cb)))
put_bytes_lem (suc n) i cb src v h =
    let c = get_or src i 0 in
    let one = put_byte_lem cb c v (omega arith) in
    let rest =
      put_bytes_lem n (i + 1) (put_byte cb c) src one.0
        (omega (arith, size-put_byte cb c, len-put_byte cb c v (omega arith))) in
    (
      rest.0,
      rest.1 ∙ size-put_byte cb c,
      rest.2
          ∙ ap (λ l. l ++ slice src (i + 1) n) one.1
          ∙ append_assoc (contents cb) (c ∷ []) (slice src (i + 1) n),
    )

-- Skipping `n` bytes of those held drops them.
pub skip_bytes_lem :
    (n : ℕ) (cb : CharBuffer)
    → IsValid cb
    → n ≤ cb.len
    → IsValid (skip_bytes n cb)
      × ((skip_bytes n cb).size ≡ cb.size)
      × ((skip_bytes n cb).len + n ≡ cb.len)
      × (contents (skip_bytes n cb) ≡ drop n (contents cb))
unfolding skip_bytes
skip_bytes_lem zero cb v h = (v, refl, omega arith, refl)
skip_bytes_lem (suc n) cb v h =
    let one = skip_byte_lem cb v (omega arith) in
    let rest =
      skip_bytes_lem n (skip_byte cb) one.0 (omega (arith, len-skip_byte cb v (omega arith))) in
    (
      rest.0,
      rest.1 ∙ size-skip_byte cb,
      omega (arith, len-skip_byte cb v (omega arith), rest.2),
      rest.3 ∙ sym (ap (λ l. drop (suc n) l) one.1),
    )

-- Getting `n` bytes of those held writes them to the caller's array and drops them.
pub get_bytes_lem :
    (n i : ℕ) (cb : CharBuffer) (out : List ℕ)
    → IsValid cb
    → n ≤ cb.len
    → IsValid (get_bytes n i cb out).0
      × ((get_bytes n i cb out).0.size ≡ cb.size)
      × (contents (get_bytes n i cb out).0 ≡ drop n (contents cb))
      × ((get_bytes n i cb out).1 ≡ write_at out i (take n (contents cb)))
unfolding get_bytes
get_bytes_lem zero i cb out v h = (v, refl, refl, refl)
get_bytes_lem (suc n) i cb out v h =
    let c = get_or cb.buf cb.front 0 in
    let one = skip_byte_lem cb v (omega arith) in
    let rest =
      get_bytes_lem n (i + 1) (skip_byte cb) (set out i c) one.0
        (omega (arith, len-skip_byte cb v (omega arith))) in
    (
      rest.0,
      rest.1 ∙ size-skip_byte cb,
      rest.2 ∙ sym (ap (λ l. drop (suc n) l) one.1),
      rest.3
          ∙ ap (λ j. write_at (set out i c) j (take n (contents (skip_byte cb)))) {y = suc i}
              (omega arith)
          ∙ sym (ap (λ l. write_at out i (take (suc n) l)) one.1),
    )

get_or-view :
    (buf : List ℕ) (s f k n j : ℕ)
    → j < n
    → get_or (view buf s f k n) j 0 ≡ get_or buf ((f + (k + j)) % s) 0
get_or-view buf s f k zero j h = absurd (omega arith)
get_or-view buf s f k (suc n) zero h = ap (λ i. get_or buf ((f + i) % s) 0) (omega arith)
get_or-view buf s f k (suc n) (suc j) h =
    get_or-view buf s f (suc k) n j (omega arith)
    ∙ ap (λ i. get_or buf ((f + i) % s) 0) (omega arith)

-- The length read through the ring is that of the item in front.
pub front_blen_lem :
    (cb : CharBuffer) → headsize ≤ cb.len → front_blen cb ≡ headsize + get_or (contents cb) 3 0
unfolding front_blen
front_blen_lem cb h =
    ap (λ n. headsize + n) (sym (get_or-view cb.buf cb.size cb.front 0 cb.len 3 (omega arith)))

-- The type read at `front` is that of the item in front.
pub front_type_lem :
    (cb : CharBuffer)
    → IsValid cb
    → 0 < cb.len
    → get_or cb.buf cb.front 0 ≡ get_or (contents cb) 0 0
front_type_lem cb v h = sym (ap (λ l. get_or l 0 0) (skip_byte_lem cb v h).1)
