-- ===== src/Memory/Merge/Both.antt =====
-- `picoos_deallocate` (pico/lib/picoos.c) between two free cells.
use platform_external_svox.Common.{
  ℕ, ◌+◌, ◌≤◌, ◌≡◌, ap, ap₂, ◌∙◌, false, List, ◌∷◌, ◌++◌, arith, pos, ◌+ℤ◌, pos-add, length,
  length-append,
}
use platform_external_svox.Memory.{MemoryManager, Cells, merge_both}
use platform_external_svox.Memory.Links.{count, count-append, Links-unlinked}
use platform_external_svox.Memory.Tiles.{
  Cell, last_cell, ends_free, Coalesced, Tiles-le, free, used, Tiles, Tiles-split, Tiles-replaced,
  frees, frees-append, used_total, used_total-append, Coalesced-split, Coalesced-append,
}
use platform_external_svox.Memory.Invariant.{IsHeap, cell_at}
use platform_external_svox.Memory.Merge.{
  given_back, freed, put_self, put_ne, freed_size, less_total, less_most,
}
use platform_external_svox.Memory.Listed.{IsListed, IsHeap-IsListed}

module _ (m : MemoryManager) (gs : List Cell) (k n r : ℕ) (hs : List Cell) (xs ys : List ℕ)
    (v : IsHeap m (gs ++ free k ∷ used n ∷ free r ∷ hs) (xs ++ (cell_at m gs + k + n) ∷ ys)) where
  listed : IsListed m xs (cell_at m gs + k + n) ys
  listed = IsHeap-IsListed m (gs ++ free k ∷ used n ∷ free r ∷ hs) xs (cell_at m gs + k + n) ys v

  both_parts :
      Tiles m.cells m.free_cells (m.free_cells + 32) gs (cell_at m gs)
      × Tiles m.cells
          (last_cell m.free_cells (m.free_cells + 32) gs)
          (cell_at m gs)
          (free k ∷ used n ∷ free r ∷ hs)
          m.last_free
  both_parts =
      Tiles-split m.cells m.free_cells (m.free_cells + 32) gs (free k ∷ used n ∷ free r ∷ hs)
        m.last_free v.tiles

  both_bounds :
      (m.free_cells + 32 ≤ cell_at m gs)
      × (cell_at m gs + k + n + r ≤ m.last_free)
      × (32 ≤ k)
      × (32 ≤ n)
      × (32 ≤ r)
  both_bounds = (
    Tiles-le m.cells m.free_cells (m.free_cells + 32) gs (cell_at m gs) both_parts.0,
    Tiles-le m.cells (cell_at m gs + k + n) (cell_at m gs + k + n + r) hs m.last_free
        both_parts.1.3.3.3,
    both_parts.1.0.0,
    both_parts.1.3.0.0,
    both_parts.1.3.3.0.0,
  )

  both_total : m.used_size ≡ pos (n + used_total (gs ++ free (k + n + r) ∷ hs))
  both_total =
      v.total
      ∙ ap pos (
          omega (
            arith,
            used_total-append gs (free k ∷ used n ∷ free r ∷ hs),
            used_total-append gs (free (k + n + r) ∷ hs),
          ))

  both_coals : Coalesced false gs × Coalesced (ends_free false gs) (free k ∷ used n ∷ free r ∷ hs)
  both_coals = Coalesced-split false gs (free k ∷ used n ∷ free r ∷ hs) v.coalesced

  abbrev pub both_cells : Cells
  unfolding merge_both
  both_cells =
      merge_both (freed m.cells (cell_at m gs + k)) (cell_at m gs) (cell_at m gs + k)
        (cell_at m gs + k + n)

  both_end : cell_at m gs + k + n + r ≡ cell_at m gs + (k + n + r)
  both_end = omega arith

  right_size : (freed m.cells (cell_at m gs + k)).size (cell_at m gs + k + n) ≡ pos r
  right_size =
      put_ne m.cells.size (cell_at m gs + k) _ (cell_at m gs + k + n) (omega (arith, both_bounds))
      ∙ both_parts.1.3.3.1

  both_size : both_cells.size (cell_at m gs) ≡ pos (k + n + r)
  unfolding both_cells
  both_size =
      put_self (freed m.cells (cell_at m gs + k)).size (cell_at m gs) _
      ∙ ap₂ ◌+ℤ◌
          (ap₂ ◌+ℤ◌
              (put_ne m.cells.size (cell_at m gs + k) _ (cell_at m gs) (omega (arith, both_bounds))
                ∙ both_parts.1.1)
              (freed_size m.cells (cell_at m gs + k) n both_parts.1.3.1)
            ∙ pos-add k n)
          right_size
      ∙ pos-add (k + n) r

  both_counts :
      (x : ℕ)
      → count x (xs ++ ys) ≡ count x (frees (m.free_cells + 32) (gs ++ free (k + n + r) ∷ hs))
  both_counts x = omega (
    arith,
    v.same x,
    count-append x xs ((cell_at m gs + k + n) ∷ ys),
    count-append x xs ys,
    ap (count x) (frees-append (m.free_cells + 32) gs (free k ∷ used n ∷ free r ∷ hs)),
    ap (count x) (frees-append (m.free_cells + 32) gs (free (k + n + r) ∷ hs)),
    count-append x (frees (m.free_cells + 32) gs)
        (cell_at m gs ∷ (cell_at m gs + k + n) ∷ frees (cell_at m gs + k + n + r) hs),
    count-append x (frees (m.free_cells + 32) gs)
        (cell_at m gs ∷ frees (cell_at m gs + (k + n + r)) hs),
    ap (λ (z : ℕ). count x (frees z hs)) both_end,
  )

  both_lengths :
      length (xs ++ ys) ≡ length (frees (m.free_cells + 32) (gs ++ free (k + n + r) ∷ hs))
  both_lengths = omega (
    arith,
    v.as_many,
    length-append xs ((cell_at m gs + k + n) ∷ ys),
    length-append xs ys,
    ap length (frees-append (m.free_cells + 32) gs (free k ∷ used n ∷ free r ∷ hs)),
    ap length (frees-append (m.free_cells + 32) gs (free (k + n + r) ∷ hs)),
    length-append (frees (m.free_cells + 32) gs)
        (cell_at m gs ∷ (cell_at m gs + k + n) ∷ frees (cell_at m gs + k + n + r) hs),
    length-append (frees (m.free_cells + 32) gs)
        (cell_at m gs ∷ frees (cell_at m gs + (k + n + r)) hs),
    ap (λ (z : ℕ). length (frees z hs)) both_end,
  )

  -- The left cell takes both.
  pub both-IsHeap : IsHeap (given_back m n both_cells) (gs ++ free (k + n + r) ∷ hs) (xs ++ ys)
  unfolding both_cells merge_both
  both-IsHeap = record {
    full_hdr = v.full_hdr;
    used_hdr = v.used_hdr;
    min_cont = v.min_cont;
    min_cell = v.min_cell;
    start = v.start;
    tiles =
        Tiles-replaced m.cells both_cells m.free_cells (m.free_cells + 32) gs (free (k + n + r))
          (cell_at m gs + k + n) (cell_at m gs + k + n + r) hs m.last_free both_parts.0
          both_parts.1.3.3.3 (omega arith) (omega (arith, both_bounds), ground (arith, both_parts))
          (λ x o i. ground (arith, both_bounds)) (λ x o i. ground (arith, right_size)) both_size
          (ground (arith, right_size));
    low = ground (arith, v.low, both_bounds);
    high = ground (arith, v.high, both_bounds);
    coalesced =
        Coalesced-append false gs (free (k + n + r) ∷ hs) both_coals.0
          (both_coals.1.0, both_coals.1.1.1);
    links =
        Links-unlinked m.cells both_cells m.free_cells xs (cell_at m gs + k + n) ys m.last_free
          v.links listed.apart
          (λ x o. ground (arith, listed.prev_cell, listed.next_cell, listed.next_ne))
          (λ x o. ground (arith, listed.next_cell))
          (ground (arith, listed.prev_cell, listed.next_cell, listed.next_ne))
          (ground (arith, listed.prev_cell, listed.next_cell));
    tail =
        ground (arith, v.tail, listed.prev_cell, listed.next_cell, listed.next_ne, listed.last_ne);
    same = both_counts;
    as_many = both_lengths;
    total = less_total m.used_size n (used_total (gs ++ free (k + n + r) ∷ hs)) both_total;
    most =
        less_most m.used_size m.max_used_size n (used_total (gs ++ free (k + n + r) ∷ hs))
          both_total v.most;
    inside = v.inside;
    small = v.small;
  }
