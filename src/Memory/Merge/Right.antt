-- ===== src/Memory/Merge/Right.antt =====
-- `picoos_deallocate` (pico/lib/picoos.c) beside a free cell on the right only.
use platform_external_svox.Common.{
  ℕ, ◌+◌, ◌≤◌, ◌≡◌, ◌≢◌, ap, ap₂, ◌∙◌, false, List, [], ◌∷◌, ◌++◌, arith, pos, ◌+ℤ◌, pos-add,
  length, length-append,
}
use platform_external_svox.Memory.{MemoryManager, Cells, merge_right}
use platform_external_svox.Memory.Links.{
  count, count-append, count-last_of, count-first_of, Links-replaced, last_of, first_of,
}
use platform_external_svox.Memory.Tiles.{
  Cell, last_cell, ends_free, Coalesced, Tiles-le, free, used, Tiles, Tiles-split, Tiles-replaced,
  frees, frees-append, used_total, used_total-append, Coalesced-split, Coalesced-append,
}
use platform_external_svox.Memory.Invariant.{IsHeap, used_not_listed, cell_at}
use platform_external_svox.Memory.Merge.{
  given_back, freed, put_self, put_ne, freed_size, less_total, less_most,
}
use platform_external_svox.Memory.Listed.{IsListed, IsHeap-IsListed}

module _ (m : MemoryManager) (gs : List Cell) (n r : ℕ) (hs : List Cell) (xs ys : List ℕ)
    (v : IsHeap m (gs ++ used n ∷ free r ∷ hs) (xs ++ (cell_at m gs + n) ∷ ys)) where
  listed : IsListed m xs (cell_at m gs + n) ys
  listed = IsHeap-IsListed m (gs ++ used n ∷ free r ∷ hs) xs (cell_at m gs + n) ys v

  right_parts :
      Tiles m.cells m.free_cells (m.free_cells + 32) gs (cell_at m gs)
      × Tiles m.cells
          (last_cell m.free_cells (m.free_cells + 32) gs)
          (cell_at m gs)
          (used n ∷ free r ∷ hs)
          m.last_free
  right_parts =
      Tiles-split m.cells m.free_cells (m.free_cells + 32) gs (used n ∷ free r ∷ hs) m.last_free
        v.tiles

  right_bounds :
      (m.free_cells + 32 ≤ cell_at m gs)
      × (cell_at m gs + n + r ≤ m.last_free)
      × (32 ≤ n)
      × (32 ≤ r)
  right_bounds = (
    Tiles-le m.cells m.free_cells (m.free_cells + 32) gs (cell_at m gs) right_parts.0,
    Tiles-le m.cells (cell_at m gs + n) (cell_at m gs + n + r) hs m.last_free right_parts.1.3.3,
    right_parts.1.0.0,
    right_parts.1.3.0.0,
  )

  right_total : m.used_size ≡ pos (n + used_total (gs ++ free (n + r) ∷ hs))
  right_total =
      v.total
      ∙ ap pos (
          omega (
            arith,
            used_total-append gs (used n ∷ free r ∷ hs),
            used_total-append gs (free (n + r) ∷ hs),
          ))

  right_coals : Coalesced false gs × Coalesced (ends_free false gs) (used n ∷ free r ∷ hs)
  right_coals = Coalesced-split false gs (used n ∷ free r ∷ hs) v.coalesced

  abbrev pub right_cells : Cells
  unfolding merge_right
  right_cells = merge_right (freed m.cells (cell_at m gs)) (cell_at m gs) (cell_at m gs + n)

  right_end : cell_at m gs + n + r ≡ cell_at m gs + (n + r)
  right_end = omega arith

  next_size : (freed m.cells (cell_at m gs)).size (cell_at m gs + n) ≡ pos r
  next_size =
      put_ne m.cells.size (cell_at m gs) _ (cell_at m gs + n) (omega (arith, right_bounds))
      ∙ right_parts.1.3.1

  right_size : right_cells.size (cell_at m gs) ≡ pos (n + r)
  unfolding right_cells
  right_size =
      put_self (freed m.cells (cell_at m gs)).size (cell_at m gs) _
      ∙ ap₂ ◌+ℤ◌ (freed_size m.cells (cell_at m gs) n right_parts.1.1) next_size
      ∙ pos-add n r

  not_listed : count (cell_at m gs) (xs ++ (cell_at m gs + n) ∷ ys) ≡ 0
  not_listed = used_not_listed gs n (free r ∷ hs) v

  right_new :
      count (cell_at m gs) (m.free_cells ∷ xs)
        + count (cell_at m gs) ((cell_at m gs + n) ∷ ys)
        + count (cell_at m gs) (m.last_free ∷ [])
      ≡ 0
  right_new =
      ground
        (arith, right_bounds, not_listed, count-append (cell_at m gs) xs ((cell_at m gs + n) ∷ ys))

  first_ne : first_of ys m.last_free ≢ cell_at m gs
  first_ne = ground (
    arith,
    right_new,
    count-first_of ys m.last_free,
    count-append (cell_at m gs) ys (m.last_free ∷ []),
  )

  last_ne : last_of m.free_cells xs ≢ cell_at m gs
  last_ne = ground (arith, right_new, count-last_of m.free_cells xs)

  right_counts :
      (x : ℕ)
      → count x (xs ++ cell_at m gs ∷ ys)
        ≡ count x (frees (m.free_cells + 32) (gs ++ free (n + r) ∷ hs))
  right_counts x = omega (
    arith,
    v.same x,
    count-append x xs ((cell_at m gs + n) ∷ ys),
    count-append x xs (cell_at m gs ∷ ys),
    ap (count x) (frees-append (m.free_cells + 32) gs (used n ∷ free r ∷ hs)),
    ap (count x) (frees-append (m.free_cells + 32) gs (free (n + r) ∷ hs)),
    count-append x (frees (m.free_cells + 32) gs)
        ((cell_at m gs + n) ∷ frees (cell_at m gs + n + r) hs),
    count-append x (frees (m.free_cells + 32) gs)
        (cell_at m gs ∷ frees (cell_at m gs + (n + r)) hs),
    ap (λ (z : ℕ). count x (frees z hs)) right_end,
  )

  right_lengths :
      length (xs ++ cell_at m gs ∷ ys)
      ≡ length (frees (m.free_cells + 32) (gs ++ free (n + r) ∷ hs))
  right_lengths = omega (
    arith,
    v.as_many,
    length-append xs ((cell_at m gs + n) ∷ ys),
    length-append xs (cell_at m gs ∷ ys),
    ap length (frees-append (m.free_cells + 32) gs (used n ∷ free r ∷ hs)),
    ap length (frees-append (m.free_cells + 32) gs (free (n + r) ∷ hs)),
    length-append (frees (m.free_cells + 32) gs)
        ((cell_at m gs + n) ∷ frees (cell_at m gs + n + r) hs),
    length-append (frees (m.free_cells + 32) gs) (cell_at m gs ∷ frees (cell_at m gs + (n + r)) hs),
    ap (λ (z : ℕ). length (frees z hs)) right_end,
  )

  -- The cell takes the right one, and its place in the free list.
  pub right-IsHeap :
      ends_free false gs ≡ false
      → IsHeap (given_back m n right_cells) (gs ++ free (n + r) ∷ hs) (xs ++ cell_at m gs ∷ ys)
  unfolding right_cells merge_right
  right-IsHeap left_used = record {
    full_hdr = v.full_hdr;
    used_hdr = v.used_hdr;
    min_cont = v.min_cont;
    min_cell = v.min_cell;
    start = v.start;
    tiles =
        Tiles-replaced m.cells right_cells m.free_cells (m.free_cells + 32) gs (free (n + r))
          (cell_at m gs + n) (cell_at m gs + n + r) hs m.last_free right_parts.0 right_parts.1.3.3
          (omega arith) (omega (arith, right_bounds), ground (arith, right_parts))
          (λ x o i. ground (arith, right_bounds)) (λ x o i. ground (arith, next_size)) right_size
          (ground (arith, next_size));
    low = ground (arith, v.low, right_bounds);
    high = ground (arith, v.high, right_bounds);
    coalesced =
        Coalesced-append false gs (free (n + r) ∷ hs) right_coals.0 (left_used, right_coals.1.1);
    links =
        Links-replaced m.cells right_cells m.free_cells xs (cell_at m gs + n) ys m.last_free v.links
          listed.apart (cell_at m gs) (ground (arith, right_new))
          (λ x o i. ground (arith, listed.prev_cell, listed.next_cell, listed.next_ne, first_ne))
          (λ x o i. ground (arith, listed.next_cell))
          (ground (arith, listed.prev_cell, listed.next_cell, first_ne))
          (ground (arith, listed.prev_cell, listed.next_cell, first_ne))
          (ground (arith, listed.prev_cell, listed.next_cell, first_ne, last_ne))
          (ground (arith, listed.next_cell));
    tail =
        ground (
          arith, v.tail, listed.prev_cell, listed.next_cell, first_ne, right_bounds, listed.last_ne,
        );
    same = right_counts;
    as_many = right_lengths;
    total = less_total m.used_size n (used_total (gs ++ free (n + r) ∷ hs)) right_total;
    most =
        less_most m.used_size m.max_used_size n (used_total (gs ++ free (n + r) ∷ hs)) right_total
          v.most;
    inside = v.inside;
    small = v.small;
  }
