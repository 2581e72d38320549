-- ===== src/Memory/Invariant.antt =====
-- What the memory manager of pico/lib/picoos.c keeps true of its block between calls, and the two
-- moves of an abstract list of cells that its operations stand for.
use platform_external_svox.Common.{
  ℕ, ◌+◌, ◌-◌, ◌≤◌, ◌<◌, ◌≡◌, false, List, [], ◌∷◌, ◌++◌, length, pos, ◌≤ℤ◌, arith, ap,
}
use platform_external_svox.Memory.{MemoryManager}
use platform_external_svox.Memory.Links.{count, count-append, count_self, Links}
use platform_external_svox.Memory.Tiles.{
  Cell, free, used, Tiles, Coalesced, frees, used_total, stop, Tiles-le, count_starts, useds,
  useds-append,
}

-- The address of the first cell behind the sentinel.
abbrev pub first_cell : MemoryManager → ℕ
first_cell m = m.free_cells + 32

-- The headers of `m` describe the cells `cs`, and its free list visits the addresses `fs`.
pub record IsHeap (m : MemoryManager) (cs : List Cell) (fs : List ℕ) : Type 0 where
  pub full_hdr : m.full_cell_hdr_size ≡ 32
  pub used_hdr : m.used_cell_hdr_size ≡ 16
  pub min_cont : m.min_cont_size ≡ 16
  pub min_cell : m.min_cell_size ≡ 40
  pub start : 0 < m.free_cells
  pub tiles : Tiles m.cells m.free_cells (m.free_cells + 32) cs m.last_free
  pub low : m.cells.size m.free_cells ≡ pos 0
  pub high : m.cells.size m.last_free ≡ pos 0
  pub coalesced : Coalesced false cs
  pub links : Links m.cells m.free_cells fs m.last_free
  pub tail : m.cells.next m.last_free ≡ 0
  pub same : (x : ℕ) → count x fs ≡ count x (frees (m.free_cells + 32) cs)
  pub as_many : length fs ≡ length (frees (m.free_cells + 32) cs)
  pub total : m.used_size ≡ pos (used_total cs)
  pub most : m.used_size ≤ℤ m.max_used_size
  pub inside : m.last_free + 32 ≡ m.free_cells + m.block_size
  pub small : m.last_free < 4611686018427387904

-- A free cell at `c` is used whole, or its front is.
pub data Carved (lo want : ℕ) (cs : List Cell) (c : ℕ) (ds : List Cell) : Type 0 where
  exact :
      (xs ys : List Cell)
      → cs ≡ xs ++ free want ∷ ys
      → c ≡ stop lo xs
      → ds ≡ xs ++ used want ∷ ys
      → Carved lo want cs c ds
  front :
      (xs : List Cell) (n : ℕ) (ys : List Cell)
      → want + 40 ≤ n
      → cs ≡ xs ++ free n ∷ ys
      → c ≡ stop lo xs
      → ds ≡ xs ++ used want ∷ free (n - want) ∷ ys
      → Carved lo want cs c ds

-- The used cell at `c` becomes free, and one with the free cells beside it.
pub data Released (lo : ℕ) (cs : List Cell) (c : ℕ) (ds : List Cell) : Type 0 where
  alone :
      (xs : List Cell) (n : ℕ) (ys : List Cell)
      → cs ≡ xs ++ used n ∷ ys
      → c ≡ stop lo xs
      → ds ≡ xs ++ free n ∷ ys
      → Released lo cs c ds
  left :
      (xs : List Cell) (k n : ℕ) (ys : List Cell)
      → cs ≡ xs ++ free k ∷ used n ∷ ys
      → c ≡ stop lo xs + k
      → ds ≡ xs ++ free (k + n) ∷ ys
      → Released lo cs c ds
  right :
      (xs : List Cell) (n m : ℕ) (ys : List Cell)
      → cs ≡ xs ++ used n ∷ free m ∷ ys
      → c ≡ stop lo xs
      → ds ≡ xs ++ free (n + m) ∷ ys
      → Released lo cs c ds
  both :
      (xs : List Cell) (k n m : ℕ) (ys : List Cell)
      → cs ≡ xs ++ free k ∷ used n ∷ free m ∷ ys
      → c ≡ stop lo xs + k
      → ds ≡ xs ++ free (k + n + m) ∷ ys
      → Released lo cs c ds

-- The header of the cell behind the cells `gs`.
abbrev pub cell_at : MemoryManager → List Cell → ℕ
cell_at m gs = stop (m.free_cells + 32) gs

module _ {m : MemoryManager} {cs : List Cell} {fs : List ℕ} (v : IsHeap m cs fs) where
  pub start-le-last : m.free_cells + 32 ≤ m.last_free
  start-le-last = Tiles-le m.cells m.free_cells (m.free_cells + 32) cs m.last_free v.tiles

  -- No free cell is listed twice, and none is a sentinel.
  pub listed_once : (x : ℕ) → count x (m.free_cells ∷ fs) + count x (m.last_free ∷ []) ≤ 1
  listed_once x = ground (
    arith,
    v.same x,
    start-le-last,
    count_starts m.cells m.free_cells (m.free_cells + 32) cs m.last_free v.tiles x,
  )

  pub null_not_listed : count 0 fs ≡ 0
  null_not_listed =
      let r = count_starts m.cells m.free_cells (m.free_cells + 32) cs m.last_free v.tiles 0 in
      omega (arith, v.same 0, v.start, r.1 (omega (arith, v.start)))

-- A used cell is not in the free list, and is no sentinel.
pub used_not_listed :
    {m : MemoryManager} (gs : List Cell) (n : ℕ) (hs : List Cell) {fs : List ℕ}
    → IsHeap m (gs ++ used n ∷ hs) fs
    → count (cell_at m gs) fs ≡ 0
used_not_listed {m} gs n hs v = omega (
  arith,
  v.same (cell_at m gs),
  (count_starts m.cells m.free_cells (m.free_cells + 32) (gs ++ used n ∷ hs) m.last_free v.tiles
      (cell_at m gs)).0,
  ap (count (cell_at m gs)) (useds-append (m.free_cells + 32) gs (used n ∷ hs)),
  count-append (cell_at m gs) (useds (m.free_cells + 32) gs)
      (cell_at m gs ∷ useds (cell_at m gs + n) hs),
  count_self (cell_at m gs) (useds (cell_at m gs + n) hs),
)
