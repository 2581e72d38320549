-- ===== src/CharBuffer/Valid.antt =====
-- The invariant of `char_buffer_t` of pico/lib/picodata.c, the bytes that a valid buffer holds, and
-- what one byte's write and read do to them.
use native.Mathlib.Nat.{mod-add-mod, mod-lt, mod-eq_of_lt, mod-eq-sub-mod, add-zero}
use platform_external_svox.Common.{
  ℕ, zero, suc, ◌+◌, ◌-◌, ◌%◌, ◌≤◌, ◌<◌, ◌≡◌, refl, ◌≢◌, sym, ap, ap₂, ◌∙◌, List, [], ◌∷◌, ◌++◌,
  arith, length, get_or, set, inc16, dec16, u16_mod, length-set, get_or-set_self, get_or-set_ne,
}
use platform_external_svox.CharBuffer.{CharBuffer, put_byte, skip_byte}

pub record IsValid (cb : CharBuffer) : Type 0 where
  pub storage : cb.size ≤ length cb.buf
  pub nonempty : 0 < cb.size
  pub small : cb.size < u16_mod
  pub front_in : cb.front < cb.size
  pub len_in : cb.len ≤ cb.size
  pub rear_at : cb.rear ≡ (cb.front + cb.len) % cb.size

module _ (buf : List ℕ) (size front : ℕ) where
  -- The `n` bytes from the `k`-th on, counted from `front` round the end of the storage.
  abbrev pub view : ℕ → ℕ → List ℕ
  view k zero = []
  view k (suc n) = get_or buf ((front + k) % size) 0 ∷ view (suc k) n

  pub length-view : (k n : ℕ) → length (view k n) ≡ n
  length-view k zero = refl
  length-view k (suc n) = ap suc (length-view (suc k) n)

  view-suc_end :
      (k n : ℕ) → view k (suc n) ≡ view k n ++ (get_or buf ((front + (k + n)) % size) 0 ∷ [])
  view-suc_end k zero = ap (λ j. get_or buf ((front + j) % size) 0 ∷ []) (omega arith)
  view-suc_end k (suc n) =
      ap (λ l. get_or buf ((front + k) % size) 0 ∷ l)
        (view-suc_end (suc k) n
          ∙ ap (λ j. view (suc k) n ++ (get_or buf ((front + j) % size) 0 ∷ [])) (omega arith))

-- What a buffer holds, the oldest byte first.
abbrev pub contents : CharBuffer → List ℕ
contents cb = view cb.buf cb.size cb.front 0 cb.len

pub length-contents : (cb : CharBuffer) → length (contents cb) ≡ cb.len
length-contents cb = length-view cb.buf cb.size cb.front 0 cb.len

mod_once : (s f k : ℕ) → f < s → k < s → f + k < s → (f + k) % s ≡ f + k
mod_once s f k hf hk h = mod-eq_of_lt h

mod_twice : (s f k : ℕ) → f < s → k < s → s ≤ f + k → (f + k) % s + s ≡ f + k
mod_twice s f k hf hk h = omega (
  arith,
  mod-eq-sub-mod {n = f + k} {m = s} h,
  mod-eq_of_lt {n = f + k - s} {m = s} (omega arith),
)

-- Two offsets below the size are different places.
offset-ne : (s f k n : ℕ) → f < s → k < n → n < s → (f + k) % s ≢ (f + n) % s
offset-ne s f k n hf hk hn =
    grind (arith, mod_once s f k, mod_once s f n, mod_twice s f k, mod_twice s f n)

-- A write at the place behind the view leaves the view alone.
view-set :
    (buf : List ℕ) (s f x i k n : ℕ)
    → f < s
    → k + n ≤ i
    → i < s
    → view (set buf ((f + i) % s) x) s f k n ≡ view buf s f k n
view-set buf s f x i k zero hf hk hi = refl
view-set buf s f x i k (suc n) hf hk hi =
    ap₂ ◌∷◌
      (get_or-set_ne buf ((f + i) % s) ((f + k) % s) x 0
        (λ e. offset-ne s f k i hf (omega arith) hi (sym e)))
      (view-set buf s f x i (suc k) n hf (omega arith) hi)

-- A view from one place further on is the view less its first byte.
view-shift : (buf : List ℕ) (s f k n : ℕ) → view buf s ((f + 1) % s) k n ≡ view buf s f (suc k) n
view-shift buf s f k zero = refl
view-shift buf s f k (suc n) =
    ap₂ (λ j l. get_or buf j 0 ∷ l) (rw mod-add-mod (ap (λ j. j % s) (omega arith)))
      (view-shift buf s f (suc k) n)

mod-suc : (r n s : ℕ) → r ≡ n % s → (r + 1) % s ≡ (n + 1) % s
mod-suc r n s e = rw (e, mod-add-mod)

view-set_end :
    (buf : List ℕ) (s f n x : ℕ)
    → s ≤ length buf
    → f < s
    → n < s
    → view (set buf ((f + n) % s) x) s f 0 (suc n) ≡ view buf s f 0 n ++ (x ∷ [])
view-set_end buf s f n x hb hf hn =
    view-suc_end (set buf ((f + n) % s) x) s f 0 n
    ∙ ap₂ (λ l c. l ++ (c ∷ [])) (view-set buf s f x n 0 n hf (omega arith) hn)
        (ap (λ j. get_or (set buf ((f + n) % s) x) ((f + j) % s) 0) (omega arith)
          ∙ get_or-set_self buf ((f + n) % s) x 0
              (omega (arith, mod-lt (f + n) {m = s} (omega arith))))

-- A byte put into a valid buffer that is not full goes behind what it holds.
pub put_byte_lem :
    (cb : CharBuffer) (ch : ℕ)
    → IsValid cb
    → cb.len < cb.size
    → IsValid (put_byte cb ch) × (contents (put_byte cb ch) ≡ contents cb ++ (ch ∷ []))
unfolding put_byte
put_byte_lem cb ch v h =
    let up : inc16 cb.len ≡ suc cb.len = omega arith in
    let r1 : inc16 cb.rear ≡ cb.rear + 1 = omega (arith, mod-lt (cb.front + cb.len) v.nonempty) in
    (
      record {
        storage = omega (arith, length-set cb.buf cb.rear ch);
        nonempty = v.nonempty;
        small = v.small;
        front_in = v.front_in;
        len_in = omega arith;
        rear_at =
            ap (λ j. j % cb.size) r1
            ∙ mod-suc cb.rear (cb.front + cb.len) cb.size v.rear_at
            ∙ ap (λ j. j % cb.size) (omega arith);
      },
      ap₂ (λ i n. view (set cb.buf i ch) cb.size cb.front 0 n) v.rear_at up
          ∙ view-set_end cb.buf cb.size cb.front cb.len ch v.storage v.front_in h,
    )

view_of_pos :
    (buf : List ℕ) (s f n : ℕ)
    → f < s
    → view buf s f 0 (suc n) ≡ get_or buf f 0 ∷ view buf s ((f + 1) % s) 0 n
view_of_pos buf s f n hf =
    ap₂ (λ j l. get_or buf j 0 ∷ l) (rw add-zero (mod-eq_of_lt hf)) (sym (view-shift buf s f 0 n))

mod-shift : (f n s : ℕ) → 0 < n → (f + n) % s ≡ ((f + 1) % s + (n - 1)) % s
mod-shift f n s h = rw mod-add-mod (ap (λ j. j % s) (omega arith))

-- A byte skipped in a valid buffer that is not empty is the first that it holds.
pub skip_byte_lem :
    (cb : CharBuffer)
    → IsValid cb
    → 0 < cb.len
    → IsValid (skip_byte cb) × (contents cb ≡ get_or cb.buf cb.front 0 ∷ contents (skip_byte cb))
unfolding skip_byte
skip_byte_lem cb v h =
    let down : dec16 cb.len ≡ cb.len - 1 = omega arith in
    let f1 : inc16 cb.front ≡ cb.front + 1 = omega arith in
    (
      record {
        storage = v.storage;
        nonempty = v.nonempty;
        small = v.small;
        front_in = omega arith;
        len_in = omega arith;
        rear_at =
            v.rear_at
            ∙ mod-shift cb.front cb.len cb.size h
            ∙ ap₂ (λ i n. (i % cb.size + n) % cb.size) (sym f1) (sym down);
      },
      ap (λ n. view cb.buf cb.size cb.front 0 n) {y = suc (cb.len - 1)} (omega arith)
          ∙ view_of_pos cb.buf cb.size cb.front (cb.len - 1) v.front_in
          ∙ ap₂ (λ i n. get_or cb.buf cb.front 0 ∷ view cb.buf cb.size (i % cb.size) 0 n) (sym f1)
              (sym down),
    )
