-- ===== src/Memory/Client.antt =====
-- The callers of the memory manager of pico/lib/picoos.c: what they were given and not yet given back,
-- as a step relation over allocations, refusals, deallocations and writes to their own memory.
pub mod Safe
use platform_external_svox.Common.{
  ℕ, ◌+◌, ◌-◌, ◌≤◌, ◌<◌, ◌≡◌, ◌≢◌, ◌⊎◌, inl, inr, refl, sym, subst, ap, List, [], ◌∷◌, ◌++◌, some,
  arith, length, ◌==◌, if◌then◌else◌,
}
use platform_external_svox.Memory.{
  MemoryManager, Cells, set_prev, set_next, allocate, deallocate, cell_size,
}
use platform_external_svox.Memory.Links.{count, count-append, Links-frame}
use platform_external_svox.Memory.Tiles.{
  Cell, free, used, Tiles-relabel, Tiles-left, Tiles-stop, count_starts, useds, stop,
}
use platform_external_svox.Memory.Invariant.{IsHeap, Carved, Released, start-le-last}
use platform_external_svox.Memory.Allocate.{Allocates, allocate_lem, cell_size_bounds}
use platform_external_svox.Memory.Deallocate.{Releases, deallocate_lem}
use platform_external_svox.Memory.Regions.{
  UsedAt, UsedAt-le, UsedAt-count, Carved-UsedAt, Carved-new, Released-UsedAt,
}

-- The manager, and the regions in use: address and size asked for.
pub record Session : Type 0 where
  pub manager : MemoryManager
  pub live : List (ℕ × ℕ)

-- A caller may write to its memory, and so to the two links of the header before it.
abbrev pub scribble : MemoryManager → ℕ → ℕ → ℕ → MemoryManager
scribble m p x y = record m { cells = set_next (set_prev m.cells (p - 16) x) (p - 16) y }

pub data Step : Session → Session → Type 0 where
  allocated :
      (s : Session) (n p : ℕ) (m : MemoryManager)
      → n < 4611686018427387904
      → allocate s.manager n ≡ some (p, m)
      → p ≢ 0
      → Step s (record { manager = m; live = (p, n) ∷ s.live })
  refused :
      (s : Session) (n : ℕ) (m : MemoryManager)
      → n < 4611686018427387904
      → allocate s.manager n ≡ some (0, m)
      → Step s (record { manager = m; live = s.live })
  released :
      (s : Session) (xs : List (ℕ × ℕ)) (p n : ℕ) (ys : List (ℕ × ℕ))
      → s.live ≡ xs ++ (p, n) ∷ ys
      → Step s (record { manager = deallocate s.manager p; live = xs ++ ys })
  written :
      (s : Session) (xs : List (ℕ × ℕ)) (p n : ℕ) (ys : List (ℕ × ℕ)) (x y : ℕ)
      → s.live ≡ xs ++ (p, n) ∷ ys
      → Step s (record { manager = scribble s.manager p x y; live = s.live })

pub data Reach (s : Session) : Session → Type 0 where
  here : Reach s s
  next : {t u : Session} → Reach s t → Step t u → Reach s u

-- Two regions do not overlap, nor does the header of either with the other.
abbrev pub Apart : ℕ × ℕ → ℕ × ℕ → Type 0
Apart (p, n) (q, k) = p + n + 16 ≤ q ⊎ q + k + 16 ≤ p

abbrev pub ApartFrom : ℕ × ℕ → List (ℕ × ℕ) → Type 0
ApartFrom x [] = Unit
ApartFrom x (y ∷ ys) = Apart x y × ApartFrom x ys

abbrev pub AllApart : List (ℕ × ℕ) → Type 0
AllApart [] = Unit
AllApart (x ∷ xs) = ApartFrom x xs × AllApart xs

-- Each region lies in a used cell, behind the part of its header that stays.
abbrev pub IsLive : ℕ → List Cell → ℕ × ℕ → Type 0
IsLive lo cs (p, n) = (c : ℕ) × (k : ℕ) × (p ≡ c + 16) × UsedAt lo cs c k × (n + 16 ≤ k)

abbrev pub AllLive : ℕ → List Cell → List (ℕ × ℕ) → Type 0
AllLive lo cs [] = Unit
AllLive lo cs (x ∷ xs) = IsLive lo cs x × AllLive lo cs xs

abbrev pub IsSession : Session → Type 0
IsSession s =
    (cs : List Cell) × (fs : List ℕ) × IsHeap s.manager cs fs
    × AllLive (s.manager.free_cells + 32) cs s.live
    × AllApart s.live
    × (length s.live ≡ length (useds (s.manager.free_cells + 32) cs))

pub Carved-AllLive :
    {lo want : ℕ} {cs : List Cell} {c : ℕ} {ds : List Cell} (n : ℕ) (xs : List (ℕ × ℕ))
    → Carved lo want cs c ds
    → n + 16 ≤ want
    → AllLive lo cs xs
    → AllLive lo ds xs × ApartFrom (c + 16, n) xs
Carved-AllLive n [] r more l = (tt, tt)
Carved-AllLive n ((q, j) ∷ xs) r more ((d, k, at, u, fit), l) =
    let (v, o) = Carved-UsedAt r d k u in
    let rest = Carved-AllLive n xs r more l in
    (((d, k, at, v, fit), rest.0), (ground arith, rest.1))

ApartFrom-split :
    (x y : ℕ × ℕ) (xs ys : List (ℕ × ℕ))
    → ApartFrom x (xs ++ y ∷ ys)
    → Apart x y × ApartFrom x (xs ++ ys)
ApartFrom-split x y [] ys a = a
ApartFrom-split x y (z ∷ xs) ys a = let r = ApartFrom-split x y xs ys a.1 in (r.0, (a.0, r.1))

Apart-sym : (x y : ℕ × ℕ) → Apart x y → Apart y x
Apart-sym (p, n) (q, k) (inl h) = inr h
Apart-sym (p, n) (q, k) (inr h) = inl h

-- Without the region `y` the others are apart, from one another and from `y`.
pub AllApart-remove :
    (xs : List (ℕ × ℕ)) (y : ℕ × ℕ) (ys : List (ℕ × ℕ))
    → AllApart (xs ++ y ∷ ys)
    → AllApart (xs ++ ys) × ApartFrom y (xs ++ ys)
AllApart-remove [] y ys a = (a.1, a.0)
AllApart-remove (x ∷ xs) y ys a =
    let (from_y, rest) = ApartFrom-split x y xs ys a.0 in
    let r = AllApart-remove xs y ys a.1 in ((rest, r.0), (Apart-sym x y from_y, r.1))

pub AllLive-remove :
    (lo : ℕ) (cs : List Cell) (xs : List (ℕ × ℕ)) (y : ℕ × ℕ) (ys : List (ℕ × ℕ))
    → AllLive lo cs (xs ++ y ∷ ys)
    → IsLive lo cs y × AllLive lo cs (xs ++ ys)
AllLive-remove lo cs [] y ys l = l
AllLive-remove lo cs (x ∷ xs) y ys l = let r = AllLive-remove lo cs xs y ys l.1 in (r.0, (l.0, r.1))

pub Released-AllLive :
    {lo : ℕ} {cs : List Cell} {c : ℕ} {ds : List Cell} (n : ℕ) (xs : List (ℕ × ℕ))
    → Released lo cs c ds
    → ApartFrom (c + 16, n) xs
    → AllLive lo cs xs
    → AllLive lo ds xs
Released-AllLive n [] r a l = tt
Released-AllLive n ((q, j) ∷ xs) r a ((d, k, at, u, fit), l) =
    ((d, k, at, Released-UsedAt r d k u (λ e. ground arith), fit), Released-AllLive n xs r a.1 l)

pub deallocate-free_cells : (m : MemoryManager) (p : ℕ) → (deallocate m p).free_cells ≡ m.free_cells
unfolding deallocate
deallocate-free_cells m p = ground arith
