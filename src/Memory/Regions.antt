-- ===== src/Memory/Regions.antt =====
-- The regions that callers of pico/lib/picoos.c hold: the used cells, and why no two overlap.
use platform_external_svox.Common.{
  ℕ, ◌+◌, ◌-◌, ◌≤◌, ◌≡◌, ◌≢◌, ◌⊎◌, inl, inr, refl, subst, length, length-append, List, [], ◌∷◌,
  ◌++◌, arith,
}
use native.Mathlib.Nat.{add_assoc}
use platform_external_svox.Memory.Links.{count}
use platform_external_svox.Memory.Tiles.{Cell, free, used, extent, stop, useds, useds-append}
use platform_external_svox.Memory.Invariant.{
  Carved, exact, front, Released, alone, left, right, both,
}

-- The cells that start at `a` have a used cell of `k` bytes at `c`.
abbrev pub UsedAt : ℕ → List Cell → ℕ → ℕ → Type 0
UsedAt a [] c k = ⊥
UsedAt a (free n ∷ cs) c k = UsedAt (a + n) cs c k
UsedAt a (used n ∷ cs) c k = ((a ≡ c) × (n ≡ k)) ⊎ UsedAt (a + n) cs c k

pub UsedAt-split :
    (a : ℕ) (xs ys : List Cell) (c k : ℕ)
    → UsedAt a (xs ++ ys) c k
    → UsedAt a xs c k ⊎ UsedAt (stop a xs) ys c k
UsedAt-split a [] ys c k u = inr u
UsedAt-split a (free n ∷ xs) ys c k u = UsedAt-split (a + n) xs ys c k u
UsedAt-split a (used n ∷ xs) ys c k (inl h) = inl (inl h)
UsedAt-split a (used n ∷ xs) ys c k (inr u) = elim (UsedAt-split (a + n) xs ys c k u) [
  | inl l ↦ inl (inr l)
  | inr r ↦ inr r
]

pub UsedAt-append :
    (a : ℕ) (xs ys : List Cell) (c k : ℕ)
    → UsedAt a xs c k ⊎ UsedAt (stop a xs) ys c k
    → UsedAt a (xs ++ ys) c k
UsedAt-append a [] ys c k (inl u) = absurd u
UsedAt-append a [] ys c k (inr u) = u
UsedAt-append a (free n ∷ xs) ys c k u = UsedAt-append (a + n) xs ys c k u
UsedAt-append a (used n ∷ xs) ys c k (inl (inl h)) = inl h
UsedAt-append a (used n ∷ xs) ys c k (inl (inr u)) = inr (UsedAt-append (a + n) xs ys c k (inl u))
UsedAt-append a (used n ∷ xs) ys c k (inr u) = inr (UsedAt-append (a + n) xs ys c k (inr u))

stop_le : (a : ℕ) (cs : List Cell) → a ≤ stop a cs
stop_le a [] = omega arith
stop_le a (x ∷ cs) = omega (arith, stop_le (a + extent x) cs)

pub UsedAt-le : (a : ℕ) (cs : List Cell) (c k : ℕ) → UsedAt a cs c k → (a ≤ c) × (c + k ≤ stop a cs)
UsedAt-le a [] c k u = absurd u
UsedAt-le a (free n ∷ cs) c k u = let r = UsedAt-le (a + n) cs c k u in omega arith
UsedAt-le a (used n ∷ cs) c k (inl h) = omega (arith, stop_le (a + n) cs)
UsedAt-le a (used n ∷ cs) c k (inr u) = let r = UsedAt-le (a + n) cs c k u in omega arith

-- Two used cells do not overlap.
pub UsedAt-apart :
    (a : ℕ) (cs : List Cell) (c k d j : ℕ)
    → UsedAt a cs c k
    → UsedAt a cs d j
    → c ≢ d
    → c + k ≤ d ⊎ d + j ≤ c
UsedAt-apart a [] c k d j u w o = absurd u
UsedAt-apart a (free n ∷ cs) c k d j u w o = UsedAt-apart (a + n) cs c k d j u w o
UsedAt-apart a (used n ∷ cs) c k d j (inl h) (inl i) o = absurd (omega arith)
UsedAt-apart a (used n ∷ cs) c k d j (inl h) (inr w) o =
    let r = UsedAt-le (a + n) cs d j w in inl (omega arith)
UsedAt-apart a (used n ∷ cs) c k d j (inr u) (inl i) o =
    let r = UsedAt-le (a + n) cs c k u in inr (omega arith)
UsedAt-apart a (used n ∷ cs) c k d j (inr u) (inr w) o = UsedAt-apart (a + n) cs c k d j u w o

pub UsedAt-count : (a : ℕ) (cs : List Cell) (c k : ℕ) → UsedAt a cs c k → 1 ≤ count c (useds a cs)
UsedAt-count a [] c k u = absurd u
UsedAt-count a (free n ∷ cs) c k u = UsedAt-count (a + n) cs c k u
UsedAt-count a (used n ∷ cs) c k (inl h) = ground arith
UsedAt-count a (used n ∷ cs) c k (inr u) = ground (arith, UsedAt-count (a + n) cs c k u)

-- Used cells behind a place, when what stands there ends at the same address.
moved : (a b : ℕ) (ys : List Cell) (d k : ℕ) → a ≡ b → UsedAt a ys d k → UsedAt b ys d k
moved a b ys d k e u = subst (λ z. UsedAt z ys d k) e u

-- A used cell beside a free one of `n` bytes.
beside_free :
    (a : ℕ) (xs : List Cell) (n : ℕ) (ys : List Cell) (d k : ℕ)
    → UsedAt a (xs ++ free n ∷ ys) d k
    → (UsedAt a xs d k × (d + k ≤ stop a xs))
      ⊎ (UsedAt (stop a xs + n) ys d k × (stop a xs + n ≤ d))
beside_free a xs n ys d k u = elim (UsedAt-split a xs (free n ∷ ys) d k u) [
  | inl l ↦ inl (l, (UsedAt-le a xs d k l).1)
  | inr r ↦ inr (r, (UsedAt-le (stop a xs + n) ys d k r).0)
]

exact-UsedAt :
    (lo want : ℕ) (xs ys : List Cell) (d k : ℕ)
    → UsedAt lo (xs ++ free want ∷ ys) d k
    → UsedAt lo (xs ++ used want ∷ ys) d k × (stop lo xs + want ≤ d ⊎ d + k ≤ stop lo xs)
exact-UsedAt lo want xs ys d k u = elim (beside_free lo xs want ys d k u) [
  | inl (l, le) ↦ (UsedAt-append lo xs (used want ∷ ys) d k (inl l), inr le)
  | inr (r, le) ↦ (UsedAt-append lo xs (used want ∷ ys) d k (inr (inr r)), inl le)
]

front-UsedAt :
    (lo want : ℕ) (xs : List Cell) (n : ℕ) (ys : List Cell) (d k : ℕ)
    → want + 40 ≤ n
    → UsedAt lo (xs ++ free n ∷ ys) d k
    → UsedAt lo (xs ++ used want ∷ free (n - want) ∷ ys) d k
      × (stop lo xs + want ≤ d ⊎ d + k ≤ stop lo xs)
front-UsedAt lo want xs n ys d k more u = elim (beside_free lo xs n ys d k u) [
  | inl (l, le) ↦ (UsedAt-append lo xs (used want ∷ free (n - want) ∷ ys) d k (inl l), inr le)
  | inr (r, le) ↦ (
    UsedAt-append lo xs (used want ∷ free (n - want) ∷ ys) d k (
        inr (inr (moved (stop lo xs + n) (stop lo xs + want + (n - want)) ys d k (omega arith) r))),
    inl (omega arith),
  )
]

-- A call that gives a cell away leaves the other used cells, apart from that one, and adds it.
pub Carved-UsedAt :
    {lo want : ℕ} {cs : List Cell} {c : ℕ} {ds : List Cell}
    → Carved lo want cs c ds
    → (d k : ℕ) → UsedAt lo cs d k
    → UsedAt lo ds d k × (c + want ≤ d ⊎ d + k ≤ c)
Carved-UsedAt {lo} {want} (exact xs ys ecs ec eds) d k u =
    rw (eds, ec) (exact-UsedAt lo want xs ys d k (subst (λ z. UsedAt lo z d k) ecs u))
Carved-UsedAt {lo} {want} (front xs n ys more ecs ec eds) d k u =
    rw (eds, ec) (front-UsedAt lo want xs n ys d k more (subst (λ z. UsedAt lo z d k) ecs u))

pub Carved-new :
    {lo want : ℕ} {cs : List Cell} {c : ℕ} {ds : List Cell}
    → Carved lo want cs c ds
    → UsedAt lo ds c want
Carved-new {lo} {want} (exact xs ys ecs ec eds) =
    rw (eds, ec) (UsedAt-append lo xs (used want ∷ ys) (stop lo xs) want (inr (inl (refl, refl))))
Carved-new {lo} {want} (front xs n ys more ecs ec eds) =
    rw (eds, ec)
      (UsedAt-append lo xs (used want ∷ free (n - want) ∷ ys) (stop lo xs) want
        (inr (inl (refl, refl))))

-- A call that takes a cell back leaves the other used cells.
pub Released-UsedAt :
    {lo : ℕ} {cs : List Cell} {c : ℕ} {ds : List Cell}
    → Released lo cs c ds
    → (d k : ℕ) → UsedAt lo cs d k
    → d ≢ c
    → UsedAt lo ds d k
Released-UsedAt {lo} (alone xs n ys ecs ec eds) d k u o = rw eds (
    UsedAt-append lo xs (free n ∷ ys) d k
      (elim (UsedAt-split lo xs (used n ∷ ys) d k (subst (λ z. UsedAt lo z d k) ecs u)) [
        | inl l ↦ inl l
        | inr (inl h) ↦ absurd (omega arith)
        | inr (inr r) ↦ inr r
      ]))
Released-UsedAt {lo} (left xs j n ys ecs ec eds) d k u o = rw eds (
    UsedAt-append lo xs (free (j + n) ∷ ys) d k
      (elim (UsedAt-split lo xs (free j ∷ used n ∷ ys) d k (subst (λ z. UsedAt lo z d k) ecs u)) [
        | inl l ↦ inl l
        | inr (inl h) ↦ absurd (omega arith)
        | inr (inr r) ↦
            inr (moved (stop lo xs + j + n) (stop lo xs + (j + n)) ys d k (omega arith) r)
      ]))
Released-UsedAt {lo} (right xs n j ys ecs ec eds) d k u o = rw eds (
    UsedAt-append lo xs (free (n + j) ∷ ys) d k
      (elim (UsedAt-split lo xs (used n ∷ free j ∷ ys) d k (subst (λ z. UsedAt lo z d k) ecs u)) [
        | inl l ↦ inl l
        | inr (inl h) ↦ absurd (omega arith)
        | inr (inr r) ↦
            inr (moved (stop lo xs + n + j) (stop lo xs + (n + j)) ys d k (omega arith) r)
      ]))
Released-UsedAt {lo} (both xs i n j ys ecs ec eds) d k u o = rw eds (
    UsedAt-append lo xs (free (i + n + j) ∷ ys) d k
      (elim (UsedAt-split lo xs (free i ∷ used n ∷ free j ∷ ys) d k
        (subst (λ z. UsedAt lo z d k) ecs u)) [
          | inl l ↦ inl l
          | inr (inl h) ↦ absurd (omega arith)
          | inr (inr r) ↦
              inr (moved (stop lo xs + i + n + j) (stop lo xs + (i + n + j)) ys d k (omega arith) r)
        ]))

lengths : (xs : List ℕ) (c : ℕ) (ys : List ℕ) → length (xs ++ c ∷ ys) ≡ length (xs ++ ys) + 1
lengths xs c ys = omega (arith, length-append xs (c ∷ ys), length-append xs ys)

rejoined : (s want n : ℕ) → want + 40 ≤ n → s + want + (n - want) ≡ s + n
rejoined s want n more = omega arith

-- The number of used cells grows and falls by one.
pub Carved-length :
    {lo want : ℕ} {cs : List Cell} {c : ℕ} {ds : List Cell}
    → Carved lo want cs c ds
    → length (useds lo ds) ≡ length (useds lo cs) + 1
Carved-length {lo} {want} (exact xs ys ecs ec eds) =
    rw (eds, ecs, useds-append lo xs (used want ∷ ys), useds-append lo xs (free want ∷ ys))
      (lengths (useds lo xs) (stop lo xs) (useds (stop lo xs + want) ys))
Carved-length {lo} {want} (front xs n ys more ecs ec eds) =
    rw
      (
        eds,
        ecs,
        useds-append lo xs (used want ∷ free (n - want) ∷ ys),
        useds-append lo xs (free n ∷ ys),
      )
      (rw (rejoined (stop lo xs) want n more)
        (lengths (useds lo xs) (stop lo xs) (useds (stop lo xs + n) ys)))

pub Released-length :
    {lo : ℕ} {cs : List Cell} {c : ℕ} {ds : List Cell}
    → Released lo cs c ds
    → length (useds lo cs) ≡ length (useds lo ds) + 1
Released-length {lo} (alone xs n ys ecs ec eds) =
    rw (eds, ecs, useds-append lo xs (used n ∷ ys), useds-append lo xs (free n ∷ ys))
      (lengths (useds lo xs) (stop lo xs) (useds (stop lo xs + n) ys))
Released-length {lo} (left xs j n ys ecs ec eds) =
    rw
      (
        eds,
        ecs,
        useds-append lo xs (free j ∷ used n ∷ ys),
        useds-append lo xs (free (j + n) ∷ ys),
        ← add_assoc (stop lo xs) j n,
      )
      (lengths (useds lo xs) (stop lo xs + j) (useds (stop lo xs + j + n) ys))
Released-length {lo} (right xs n j ys ecs ec eds) =
    rw
      (
        eds,
        ecs,
        useds-append lo xs (used n ∷ free j ∷ ys),
        useds-append lo xs (free (n + j) ∷ ys),
        ← add_assoc (stop lo xs) n j,
      )
      (lengths (useds lo xs) (stop lo xs) (useds (stop lo xs + n + j) ys))
Released-length {lo} (both xs i n j ys ecs ec eds) =
    rw
      (
        eds,
        ecs,
        useds-append lo xs (free i ∷ used n ∷ free j ∷ ys),
        useds-append lo xs (free (i + n + j) ∷ ys),
        ← add_assoc (stop lo xs) (i + n) j,
        ← add_assoc (stop lo xs) i n,
      )
      (lengths (useds lo xs) (stop lo xs + i) (useds (stop lo xs + i + n + j) ys))
