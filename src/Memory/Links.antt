-- ===== src/Memory/Links.antt =====
-- The doubly linked list of free cells of pico/lib/picoos.c, between its two sentinels.
use platform_external_svox.Common.{
  ℕ, Bool-cases, inl, inr, ap, ◌+◌, ◌≤◌, ◌≡◌, ◌≢◌, append-nil, List, [], ◌∷◌, ◌++◌, arith, ◌==◌,
  if◌then◌else◌,
}
use platform_external_svox.Memory.{Cells}

abbrev pub count : ℕ → List ℕ → ℕ
count x [] = 0
count x (y ∷ ys) = (if x == y then 1 else 0) + count x ys

-- The links lead from `b` through `xs` to `e`, in both directions.
abbrev pub Links : Cells → ℕ → List ℕ → ℕ → Type 0
Links h b [] e = (h.next b ≡ e) × (h.prev e ≡ b)
Links h b (x ∷ xs) e = (h.next b ≡ x) × (h.prev x ≡ b) × Links h x xs e

-- The last of `b` and `xs`, and the first of `xs` and `e`.
abbrev pub last_of : ℕ → List ℕ → ℕ
last_of b [] = b
last_of b (x ∷ xs) = last_of x xs

abbrev pub first_of : List ℕ → ℕ → ℕ
first_of [] e = e
first_of (x ∷ xs) e = x

pub count-append : (x : ℕ) (xs ys : List ℕ) → count x (xs ++ ys) ≡ count x xs + count x ys
count-append x [] ys = omega arith
count-append x (y ∷ xs) ys = omega (arith, count-append x xs ys)

pub count_self : (x : ℕ) (xs : List ℕ) → 1 ≤ count x (x ∷ xs)
count_self x xs = ground arith

pub count-last_of : (b : ℕ) (xs : List ℕ) → 1 ≤ count (last_of b xs) (b ∷ xs)
count-last_of b [] = ground arith
count-last_of b (x ∷ xs) = ground (arith, count-last_of x xs)

pub count-first_of : (xs : List ℕ) (e : ℕ) → 1 ≤ count (first_of xs e) (xs ++ e ∷ [])
count-first_of [] e = ground arith
count-first_of (x ∷ xs) e = ground arith

pub Links-last :
    (h : Cells) (b : ℕ) (xs : List ℕ) (e : ℕ) → Links h b xs e → h.prev e ≡ last_of b xs
Links-last h b [] e l = l.1
Links-last h b (x ∷ xs) e l = Links-last h x xs e l.2

pub Links-first :
    (h : Cells) (b : ℕ) (xs : List ℕ) (e : ℕ) → Links h b xs e → h.next b ≡ first_of xs e
Links-first h b [] e l = l.0
Links-first h b (x ∷ xs) e l = l.0

pub Links-split :
    (h : Cells) (b : ℕ) (xs : List ℕ) (c : ℕ) (ys : List ℕ) (e : ℕ)
    → Links h b (xs ++ c ∷ ys) e
    → Links h b xs c × Links h c ys e
Links-split h b [] c ys e l = ((l.0, l.1), l.2)
Links-split h b (x ∷ xs) c ys e l = let r = Links-split h x xs c ys e l.2 in ((l.0, l.1, r.0), r.1)

pub Links-append :
    (h : Cells) (b : ℕ) (xs : List ℕ) (c : ℕ) (ys : List ℕ) (e : ℕ)
    → Links h b xs c
    → Links h c ys e
    → Links h b (xs ++ c ∷ ys) e
Links-append h b [] c ys e l r = (l.0, l.1, r)
Links-append h b (x ∷ xs) c ys e l r = (l.0, l.1, Links-append h x xs c ys e l.2 r)

-- Links survive where neither a successor nor a predecessor of theirs is written.
pub Links-frame :
    (h g : Cells) (b : ℕ) (xs : List ℕ) (e : ℕ)
    → ((x : ℕ) → count x (b ∷ xs) ≢ 0 → g.next x ≡ h.next x)
    → ((x : ℕ) → count x (xs ++ e ∷ []) ≢ 0 → g.prev x ≡ h.prev x)
    → Links h b xs e
    → Links g b xs e
Links-frame h g b [] e n p l = (ground (arith, n b), ground (arith, p e))
Links-frame h g b (x ∷ xs) e n p l = (
  ground (arith, n b),
  ground (arith, p x),
  Links-frame h g x xs e (λ y k. n y (ground arith)) (λ y k. p y (ground arith)) l.2,
)

-- The links up to `c` lead to `z` once its last node and `z` are joined.
pub Links-retarget :
    (h g : Cells) (b : ℕ) (xs : List ℕ) (c z : ℕ)
    → ((x : ℕ) → x ≢ last_of b xs → count x (b ∷ xs) ≢ 0 → g.next x ≡ h.next x)
    → ((x : ℕ) → count x xs ≢ 0 → g.prev x ≡ h.prev x)
    → g.next (last_of b xs) ≡ z
    → g.prev z ≡ last_of b xs
    → ((x : ℕ) → count x (b ∷ xs) ≤ 1)
    → Links h b xs c
    → Links g b xs z
Links-retarget h g b [] c z n p ez pz d l = (ez, pz)
Links-retarget h g b (x ∷ xs) c z n p ez pz d l =
    let apart : b ≢ last_of x xs = λ same. absurd (ground (arith, d b, count-last_of x xs)) in
    (
      ground (arith, n b),
      ground (arith, p x),
      Links-retarget h g x xs c z (λ y k i. n y k (ground arith)) (λ y k. p y (ground arith)) ez pz
          (λ y. ground (arith, d y)) l.2,
    )

-- The list behind `c` hangs on `d` once `d` and its first node are joined.
pub Links-reheaded :
    (h g : Cells) (c d : ℕ) (ys : List ℕ) (e : ℕ)
    → ((x : ℕ) → count x ys ≢ 0 → g.next x ≡ h.next x)
    → ((x : ℕ) → x ≢ first_of ys e → count x (ys ++ e ∷ []) ≢ 0 → g.prev x ≡ h.prev x)
    → g.next d ≡ first_of ys e
    → g.prev (first_of ys e) ≡ d
    → ((x : ℕ) → count x (ys ++ e ∷ []) ≤ 1)
    → Links h c ys e
    → Links g d ys e
Links-reheaded h g c d [] e n p nd pd apart l = (nd, pd)
Links-reheaded h g c d (y ∷ ys) e n p nd pd apart l =
    (nd, pd, Links-frame h g y ys e n (λ x k. p x (ground (arith, apart x)) (ground arith)) l.2)

module _ (h g : Cells) (b : ℕ) (xs : List ℕ) (c : ℕ) (ys : List ℕ) (e : ℕ)
    (l : Links h b (xs ++ c ∷ ys) e)
    (apart : (x : ℕ) → count x (b ∷ xs) + count x (c ∷ ys) + count x (e ∷ []) ≤ 1) where
  count_rest : (x : ℕ) → count x (ys ++ e ∷ []) ≡ count x ys + count x (e ∷ [])
  count_rest x = count-append x ys (e ∷ [])

  last_apart : (x : ℕ) → count x (ys ++ e ∷ []) ≢ 0 → x ≢ last_of b xs
  last_apart x k same = ground (arith, apart x, count-last_of b xs, count_rest x)

  first_apart : (x : ℕ) → count x (b ∷ xs) ≢ 0 → x ≢ first_of ys e
  first_apart x k same = ground (arith, apart x, count-first_of ys e, count_rest x)

  -- `d` takes the place of `c`.
  pub Links-replaced :
      (d : ℕ)
      → count d (b ∷ xs) + count d ys + count d (e ∷ []) ≡ 0
      → ((x : ℕ) → x ≢ last_of b xs → x ≢ d → g.next x ≡ h.next x)
      → ((x : ℕ) → x ≢ first_of ys e → x ≢ d → g.prev x ≡ h.prev x)
      → g.next (last_of b xs) ≡ d
      → g.prev d ≡ last_of b xs
      → g.next d ≡ first_of ys e
      → g.prev (first_of ys e) ≡ d
      → Links g b (xs ++ d ∷ ys) e
  Links-replaced d new n p nl pd nd pf =
      let parts = Links-split h b xs c ys e l in
      Links-append g b xs d ys e
        (Links-retarget h g b xs c d (λ x o k. n x o (ground arith))
          (λ x k. p x (first_apart x (ground arith)) (ground arith)) nl pd
          (λ x. ground (arith, apart x)) parts.0)
        (Links-reheaded h g c d ys e
          (λ x k. n x (last_apart x (ground (arith, count_rest x))) (ground (arith, count_rest x)))
          (λ x o k. p x o (ground (arith, count_rest x))) nd pf
          (λ x. ground (arith, apart x, count_rest x)) parts.1)

module _ (h g : Cells) (b : ℕ) (xs : List ℕ) (c : ℕ) where
  -- `c` leaves the list.
  pub Links-unlinked :
      (ys : List ℕ) (e : ℕ)
      → Links h b (xs ++ c ∷ ys) e
      → ((x : ℕ) → count x (b ∷ xs) + count x (c ∷ ys) + count x (e ∷ []) ≤ 1)
      → ((x : ℕ) → x ≢ last_of b xs → g.next x ≡ h.next x)
      → ((x : ℕ) → x ≢ first_of ys e → g.prev x ≡ h.prev x)
      → g.next (last_of b xs) ≡ first_of ys e
      → g.prev (first_of ys e) ≡ last_of b xs
      → Links g b (xs ++ ys) e
  Links-unlinked [] e l apart n p nl pf = rw (append-nil xs) (
      Links-retarget h g b xs c e (λ x o k. n x o)
        (λ x k. p x (first_apart h g b xs c [] e l apart x (ground arith))) nl pf
        (λ x. ground (arith, apart x)) (Links-split h b xs c [] e l).0)
  Links-unlinked (y ∷ ys) e l apart n p nl pf =
      let parts = Links-split h b xs c (y ∷ ys) e l in
      let r =
        Links-retarget h g b xs c y (λ x o k. n x o)
          (λ x k. p x (first_apart h g b xs c (y ∷ ys) e l apart x (ground arith))) nl pf
          (λ x. ground (arith, apart x)) parts.0 in
      Links-append g b xs y ys e r (
        Links-frame h g y ys e
          (λ x k. n x (
            last_apart h g b xs c (y ∷ ys) e l apart x
              (ground (arith, count-append x ys (e ∷ [])))))
          (λ x k. p x (ground (arith, apart y, count-append y ys (e ∷ [])))) parts.1.2)

-- `c` comes first.
pub Links-pushed :
    (h g : Cells) (b c : ℕ) (ys : List ℕ) (e : ℕ)
    → Links h b ys e
    → count c (b ∷ ys) + count c (e ∷ []) ≡ 0
    → ((x : ℕ) → count x (b ∷ ys) + count x (e ∷ []) ≤ 1)
    → ((x : ℕ) → x ≢ b → x ≢ c → g.next x ≡ h.next x)
    → ((x : ℕ) → x ≢ first_of ys e → x ≢ c → g.prev x ≡ h.prev x)
    → g.next b ≡ c
    → g.prev c ≡ b
    → g.next c ≡ first_of ys e
    → g.prev (first_of ys e) ≡ c
    → Links g b (c ∷ ys) e
Links-pushed h g b c ys e l new apart n p nb pc nc pf = (
  nb,
  pc,
  Links-reheaded h g b c ys e (λ x k. n x (ground (arith, apart x)) (ground arith))
      (λ x o k. p x o (ground (arith, count-append x ys (e ∷ [])))) nc pf
      (λ x. ground (arith, apart x, count-append x ys (e ∷ []))) l,
)

pub locate_link :
    (c : ℕ) (fs : List ℕ) → 1 ≤ count c fs → (xs : List ℕ) × (ys : List ℕ) × (fs ≡ xs ++ c ∷ ys)
locate_link c [] k = absurd (omega arith)
locate_link c (x ∷ fs) k = elim (Bool-cases (c == x)) [
  | inl here ↦ ([], fs, ground arith)
  | inr later ↦ let (xs, ys, e) = locate_link c fs (ground arith) in (x ∷ xs, ys, ap (◌∷◌ x) e)
]
