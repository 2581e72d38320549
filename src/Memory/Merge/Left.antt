-- ===== src/Memory/Merge/Left.antt =====
-- `picoos_deallocate` (pico/lib/picoos.c) beside a free cell on the left only.
use platform_external_svox.Common.{
  ℕ, ◌+◌, ◌≤◌, ◌≡◌, refl, ap, ap₂, ◌∙◌, false, List, ◌∷◌, ◌++◌, arith, pos, ◌+ℤ◌, pos-add, length,
}
use platform_external_svox.Memory.{MemoryManager, Cells, merge_left}
use platform_external_svox.Memory.Links.{count, Links-frame}
use platform_external_svox.Memory.Tiles.{
  Cell, starts_free, Coalesced-used, last_cell, ends_free, Coalesced, Tiles-le, free, used, Tiles,
  Tiles-split, Tiles-replaced, frees, frees-append, used_total, used_total-append, Coalesced-split,
  Coalesced-append,
}
use platform_external_svox.Memory.Invariant.{IsHeap, cell_at}
use platform_external_svox.Memory.Merge.{
  given_back, freed, put_self, put_ne, freed_size, less_total, less_most,
}

module _ (m : MemoryManager) (gs : List Cell) (k n : ℕ) (hs : List Cell) (fs : List ℕ)
    (v : IsHeap m (gs ++ free k ∷ used n ∷ hs) fs) where
  left_parts :
      Tiles m.cells m.free_cells (m.free_cells + 32) gs (cell_at m gs)
      × Tiles m.cells
          (last_cell m.free_cells (m.free_cells + 32) gs)
          (cell_at m gs)
          (free k ∷ used n ∷ hs)
          m.last_free
  left_parts =
      Tiles-split m.cells m.free_cells (m.free_cells + 32) gs (free k ∷ used n ∷ hs) m.last_free
        v.tiles

  left_bounds :
      (m.free_cells + 32 ≤ cell_at m gs)
      × (cell_at m gs + k + n ≤ m.last_free)
      × (32 ≤ k)
      × (32 ≤ n)
  left_bounds = (
    Tiles-le m.cells m.free_cells (m.free_cells + 32) gs (cell_at m gs) left_parts.0,
    Tiles-le m.cells (cell_at m gs + k) (cell_at m gs + k + n) hs m.last_free left_parts.1.3.3,
    left_parts.1.0.0,
    left_parts.1.3.0.0,
  )

  left_total : m.used_size ≡ pos (n + used_total (gs ++ free (k + n) ∷ hs))
  left_total =
      v.total
      ∙ ap pos (
          omega (
            arith,
            used_total-append gs (free k ∷ used n ∷ hs),
            used_total-append gs (free (k + n) ∷ hs),
          ))

  left_coals : Coalesced false gs × Coalesced (ends_free false gs) (free k ∷ used n ∷ hs)
  left_coals = Coalesced-split false gs (free k ∷ used n ∷ hs) v.coalesced

  abbrev pub left_cells : Cells
  unfolding merge_left
  left_cells =
      merge_left (freed m.cells (cell_at m gs + k)) (cell_at m gs) (cell_at m gs + k)
        (cell_at m gs + k + n)

  left_size : left_cells.size (cell_at m gs) ≡ pos (k + n)
  unfolding left_cells
  left_size =
      put_self (freed m.cells (cell_at m gs + k)).size (cell_at m gs) _
      ∙ ap₂ ◌+ℤ◌
          (put_ne m.cells.size (cell_at m gs + k) _ (cell_at m gs) (omega (arith, left_bounds))
            ∙ left_parts.1.1)
          (freed_size m.cells (cell_at m gs + k) n left_parts.1.3.1)
      ∙ pos-add k n

  left_frees :
      frees (m.free_cells + 32) (gs ++ free k ∷ used n ∷ hs)
      ≡ frees (m.free_cells + 32) (gs ++ free (k + n) ∷ hs)
  left_frees =
      rw
        (
          frees-append (m.free_cells + 32) gs (free k ∷ used n ∷ hs),
          frees-append (m.free_cells + 32) gs (free (k + n) ∷ hs),
        )
        (ap (λ (z : ℕ). frees (m.free_cells + 32) gs ++ cell_at m gs ∷ frees z hs) (omega arith))

  -- The left cell takes the cell.
  pub left-IsHeap :
      starts_free hs ≡ false → IsHeap (given_back m n left_cells) (gs ++ free (k + n) ∷ hs) fs
  unfolding left_cells merge_left
  left-IsHeap right_used = record {
    full_hdr = v.full_hdr;
    used_hdr = v.used_hdr;
    min_cont = v.min_cont;
    min_cell = v.min_cell;
    start = v.start;
    tiles =
        Tiles-replaced m.cells left_cells m.free_cells (m.free_cells + 32) gs (free (k + n))
          (cell_at m gs + k) (cell_at m gs + k + n) hs m.last_free left_parts.0 left_parts.1.3.3
          (omega arith) (omega (arith, left_bounds), ground (arith, left_parts))
          (λ x o i. ground (arith, left_bounds)) (λ x o i. ground arith) left_size (ground arith);
    low = ground (arith, v.low, left_bounds);
    high = ground (arith, v.high, left_bounds);
    coalesced =
        Coalesced-append false gs (free (k + n) ∷ hs) left_coals.0
          (left_coals.1.0, Coalesced-used false hs right_used left_coals.1.1);
    links =
        Links-frame m.cells left_cells m.free_cells fs m.last_free (λ x i. refl) (λ x i. refl)
          v.links;
    tail = v.tail;
    same = λ x. v.same x ∙ ap (count x) left_frees;
    as_many = v.as_many ∙ ap length left_frees;
    total = less_total m.used_size n (used_total (gs ++ free (k + n) ∷ hs)) left_total;
    most =
        less_most m.used_size m.max_used_size n (used_total (gs ++ free (k + n) ∷ hs)) left_total
          v.most;
    inside = v.inside;
    small = v.small;
  }
