-- ===== src/Common/Lists.antt =====
-- Lists measured and indexed by native numbers, under the library's names.
use Prim.Native.Nat.{ℕ, zero, suc, ◌+◌, ◌-◌, ◌≤◌, ◌<◌, min}
use mathlib.Core.Path.{◌≡◌, refl, sym, ap, ◌∙◌}
use mathlib.Core.Logic.{◌≢◌}
use mathlib.Core.List.{List, [], ◌∷◌, ◌++◌, map}
use mathlib.Core.Option.{Option, none, some}
use native.Mathlib.Omega.{arith}

module _ {ℓ} {A : Type ℓ} where
  abbrev pub length : List A → ℕ
  length [] = 0
  length (x ∷ xs) = suc (length xs)

  -- A read out of bounds gives the default.
  abbrev pub get_or : List A → ℕ → A → A
  get_or [] i d = d
  get_or (x ∷ xs) zero d = x
  get_or (x ∷ xs) (suc i) d = get_or xs i d

  abbrev pub get_elem? : List A → ℕ → Option A
  get_elem? [] i = none
  get_elem? (x ∷ xs) zero = some x
  get_elem? (x ∷ xs) (suc i) = get_elem? xs i

  -- A write out of bounds changes nothing.
  abbrev pub set : List A → ℕ → A → List A
  set [] i v = []
  set (x ∷ xs) zero v = v ∷ xs
  set (x ∷ xs) (suc i) v = x ∷ set xs i v

  abbrev pub take : ℕ → List A → List A
  take zero xs = []
  take (suc n) [] = []
  take (suc n) (x ∷ xs) = x ∷ take n xs

  abbrev pub drop : ℕ → List A → List A
  drop zero xs = xs
  drop (suc n) [] = []
  drop (suc n) (x ∷ xs) = drop n xs

  abbrev pub replicate : ℕ → A → List A
  replicate zero a = []
  replicate (suc n) a = a ∷ replicate n a

  pub drop-nil : (n : ℕ) → drop n [] ≡ []
  drop-nil zero = refl
  drop-nil (suc n) = refl

  pub length-append : (xs ys : List A) → length (xs ++ ys) ≡ length xs + length ys
  length-append [] ys = omega arith
  length-append (x ∷ xs) ys = omega (arith, length-append xs ys)

  pub length-set : (xs : List A) (i : ℕ) (v : A) → length (set xs i v) ≡ length xs
  length-set [] i v = refl
  length-set (x ∷ xs) zero v = refl
  length-set (x ∷ xs) (suc i) v = ap suc (length-set xs i v)

  pub set-set : (xs : List A) (i : ℕ) (v w : A) → set (set xs i v) i w ≡ set xs i w
  set-set [] i v w = refl
  set-set (x ∷ xs) zero v w = refl
  set-set (x ∷ xs) (suc i) v w = ap (λ l. x ∷ l) (set-set xs i v w)

  pub get_or-behind : (xs : List A) (i : ℕ) (d : A) → length xs ≤ i → get_or xs i d ≡ d
  get_or-behind [] i d h = refl
  get_or-behind (x ∷ xs) zero d h = absurd (omega arith)
  get_or-behind (x ∷ xs) (suc i) d h = get_or-behind xs i d (omega arith)

  pub get_or-set_self :
      (xs : List A) (i : ℕ) (v d : A) → i < length xs → get_or (set xs i v) i d ≡ v
  get_or-set_self [] i v d h = absurd (omega arith)
  get_or-set_self (x ∷ xs) zero v d h = refl
  get_or-set_self (x ∷ xs) (suc i) v d h = get_or-set_self xs i v d (omega arith)

  pub get_or-set_ne :
      (xs : List A) (i j : ℕ) (v d : A) → i ≢ j → get_or (set xs i v) j d ≡ get_or xs j d
  get_or-set_ne [] i j v d h = refl
  get_or-set_ne (x ∷ xs) zero zero v d h = absurd (h refl)
  get_or-set_ne (x ∷ xs) zero (suc j) v d h = refl
  get_or-set_ne (x ∷ xs) (suc i) zero v d h = refl
  get_or-set_ne (x ∷ xs) (suc i) (suc j) v d h = get_or-set_ne xs i j v d (λ e. h (ap suc e))

  pub length-take : (n : ℕ) (xs : List A) → length (take n xs) ≡ min n (length xs)
  length-take zero xs = omega arith
  length-take (suc n) [] = omega arith
  length-take (suc n) (x ∷ xs) = omega (arith, length-take n xs)

  pub length-drop : (n : ℕ) (xs : List A) → length (drop n xs) ≡ length xs - n
  length-drop zero xs = omega arith
  length-drop (suc n) [] = omega arith
  length-drop (suc n) (x ∷ xs) = omega (arith, length-drop n xs)

  pub take-append-drop : (n : ℕ) (xs : List A) → take n xs ++ drop n xs ≡ xs
  take-append-drop zero xs = refl
  take-append-drop (suc n) [] = refl
  take-append-drop (suc n) (x ∷ xs) = ap (λ l. x ∷ l) (take-append-drop n xs)

  pub take-set : (n : ℕ) (xs : List A) (i : ℕ) (v : A) → n ≤ i → take n (set xs i v) ≡ take n xs
  take-set zero xs i v h = refl
  take-set (suc n) [] i v h = refl
  take-set (suc n) (x ∷ xs) zero v h = absurd (omega arith)
  take-set (suc n) (x ∷ xs) (suc i) v h = ap (λ l. x ∷ l) (take-set n xs i v (omega arith))

  pub take-suc :
      (n : ℕ) (xs : List A) (d : A)
      → n < length xs
      → take (suc n) xs ≡ take n xs ++ (get_or xs n d ∷ [])
  take-suc n [] d h = absurd (omega arith)
  take-suc zero (x ∷ xs) d h = refl
  take-suc (suc n) (x ∷ xs) d h = ap (λ l. x ∷ l) (take-suc n xs d (omega arith))

  pub take_all : (xs : List A) (n : ℕ) → length xs ≤ n → take n xs ≡ xs
  take_all [] zero h = refl
  take_all [] (suc n) h = refl
  take_all (x ∷ xs) zero h = absurd (omega arith)
  take_all (x ∷ xs) (suc n) h = ap (λ l. x ∷ l) (take_all xs n (omega arith))

  pub get_or-middle :
      (pre : List A) (b : A) (s : List A) (p : ℕ) (d : A)
      → p ≡ length pre
      → get_or (pre ++ (b ∷ s)) p d ≡ b
  get_or-middle [] b s zero d h = refl
  get_or-middle [] b s (suc p) d h = absurd (omega arith)
  get_or-middle (x ∷ pre) b s zero d h = absurd (omega arith)
  get_or-middle (x ∷ pre) b s (suc p) d h = get_or-middle pre b s p d (omega arith)

  pub take-length-append : (xs ys : List A) → take (length xs) (xs ++ ys) ≡ xs
  take-length-append [] ys = refl
  take-length-append (x ∷ xs) ys = ap (λ l. x ∷ l) (take-length-append xs ys)

  pub drop-length-append : (xs ys : List A) → drop (length xs) (xs ++ ys) ≡ ys
  drop-length-append [] ys = refl
  drop-length-append (x ∷ xs) ys = drop-length-append xs ys

  pub drop-append_left :
      (n : ℕ) (xs ys : List A) → n ≤ length xs → drop n (xs ++ ys) ≡ drop n xs ++ ys
  drop-append_left zero xs ys h = refl
  drop-append_left (suc n) [] ys h = absurd (omega arith)
  drop-append_left (suc n) (x ∷ xs) ys h = drop-append_left n xs ys (omega arith)

  pub drop-drop : (m n : ℕ) (xs : List A) → drop m (drop n xs) ≡ drop (n + m) xs
  drop-drop m zero xs = ap (λ k. drop k xs) (omega arith)
  drop-drop m (suc n) [] = drop-nil m ∙ sym (drop-nil (suc n + m))
  drop-drop m (suc n) (x ∷ xs) =
      drop-drop m n xs ∙ ap (λ k. drop k (x ∷ xs)) {x = suc (n + m)} (omega arith)

  pub get_or-append_left :
      (xs ys : List A) (i : ℕ) (d : A) → i < length xs → get_or (xs ++ ys) i d ≡ get_or xs i d
  get_or-append_left [] ys i d h = absurd (omega arith)
  get_or-append_left (x ∷ xs) ys zero d h = refl
  get_or-append_left (x ∷ xs) ys (suc i) d h = get_or-append_left xs ys i d (omega arith)

  pub length-replicate : (n : ℕ) (a : A) → length (replicate n a) ≡ n
  length-replicate zero a = refl
  length-replicate (suc n) a = ap suc (length-replicate n a)

  -- `memcpy`: the first `n` elements of `src` go to `dst[i]` and on.
  abbrev pub write_at : List A → ℕ → List A → List A
  write_at dst i [] = dst
  write_at dst i (x ∷ src) = write_at (set dst i x) (suc i) src

  pub length-write_at :
      (dst : List A) (i : ℕ) (src : List A) → length (write_at dst i src) ≡ length dst
  length-write_at dst i [] = refl
  length-write_at dst i (x ∷ src) =
      omega (arith, length-write_at (set dst i x) (suc i) src, length-set dst i x)

-- Every element satisfies the predicate.
abbrev pub All {ℓ κ} : {A : Type ℓ} → (A → Type κ) → List A → Type κ
All P [] = Unit
All P (x ∷ xs) = P x × All P xs

module _ {ℓ} {A : Type ℓ} where
  pub write_at-cons :
      (d : A) (dst src : List A) (i : ℕ) → write_at (d ∷ dst) (suc i) src ≡ d ∷ write_at dst i src
  write_at-cons d dst [] i = refl
  write_at-cons d dst (x ∷ src) i = write_at-cons d (set dst i x) src (suc i)

  -- Writing a block at a place inside the array replaces as many elements there.
  pub write_at_lem :
      (pre old post src : List A)
      → length old ≡ length src
      → write_at (pre ++ (old ++ post)) (length pre) src ≡ pre ++ (src ++ post)
  write_at_lem (p ∷ pre) old post src h =
      write_at-cons p (pre ++ (old ++ post)) src (length pre)
      ∙ ap (λ l. p ∷ l) (write_at_lem pre old post src h)
  write_at_lem [] [] post [] h = refl
  write_at_lem [] [] post (x ∷ src) h = absurd (omega arith)
  write_at_lem [] (o ∷ old) post [] h = absurd (omega arith)
  write_at_lem [] (o ∷ old) post (x ∷ src) h =
      write_at-cons x (old ++ post) src 0
      ∙ ap (λ l. x ∷ l) (write_at_lem [] old post src (omega arith))

  -- What is written at the start is read back from the start.
  pub take-write_at :
      (dst src : List A) → length src ≤ length dst → take (length src) (write_at dst 0 src) ≡ src
  take-write_at dst [] h = refl
  take-write_at [] (x ∷ src) h = absurd (omega arith)
  take-write_at (d ∷ dst) (x ∷ src) h =
      ap (λ l. take (suc (length src)) l) (write_at-cons x dst src 0)
      ∙ ap (λ l. x ∷ l) (take-write_at dst src (omega arith))

-- What is written at the start leaves what stands behind it.
pub drop-write_at {ℓ} :
    {A : Type ℓ} (dst src : List A)
    → length src ≤ length dst
    → drop (length src) (write_at dst 0 src) ≡ drop (length src) dst
drop-write_at dst [] h = refl
drop-write_at [] (x ∷ src) h = absurd (omega arith)
drop-write_at (d ∷ dst) (x ∷ src) h =
    ap (λ l. drop (suc (length src)) l) (write_at-cons x dst src 0)
    ∙ drop-write_at dst src (omega arith)

pub map-append {ℓ κ} :
    {A : Type ℓ} {B : Type κ} (f : A → B) (xs ys : List A) → map f (xs ++ ys) ≡ map f xs ++ map f ys
map-append f [] ys = refl
map-append f (x ∷ xs) ys = ap (λ l. f x ∷ l) (map-append f xs ys)
