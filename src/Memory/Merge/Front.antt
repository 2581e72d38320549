-- ===== src/Memory/Merge/Front.antt =====
-- `picoos_deallocate` (pico/lib/picoos.c) between two used cells.
use platform_external_svox.Common.{
  ℕ, ◌+◌, ◌≤◌, ◌≡◌, ◌≢◌, refl, ap, ◌∙◌, false, List, [], ◌∷◌, ◌++◌, arith, pos, length,
  length-append,
}
use platform_external_svox.Memory.{MemoryManager, Cells, push_front}
use platform_external_svox.Memory.Links.{
  count, count-append, count-first_of, Links-first, Links-pushed, first_of,
}
use platform_external_svox.Memory.Tiles.{
  Cell, starts_free, Coalesced-used, last_cell, ends_free, Tiles-left, Coalesced, Tiles-le, free,
  used, Tiles, Tiles-split, Tiles-replaced, frees, frees-append, used_total, used_total-append,
  Coalesced-split, Coalesced-append,
}
use platform_external_svox.Memory.Invariant.{
  IsHeap, used_not_listed, cell_at, listed_once, start-le-last,
}
use platform_external_svox.Memory.Merge.{given_back, freed, freed_size, less_total, less_most}

module _ (m : MemoryManager) (gs : List Cell) (n : ℕ) (hs : List Cell) (fs : List ℕ)
    (v : IsHeap m (gs ++ used n ∷ hs) fs) where
  front_parts :
      Tiles m.cells m.free_cells (m.free_cells + 32) gs (cell_at m gs)
      × Tiles m.cells
          (last_cell m.free_cells (m.free_cells + 32) gs)
          (cell_at m gs)
          (used n ∷ hs)
          m.last_free
  front_parts =
      Tiles-split m.cells m.free_cells (m.free_cells + 32) gs (used n ∷ hs) m.last_free v.tiles

  front_bounds : (m.free_cells + 32 ≤ cell_at m gs) × (cell_at m gs + n ≤ m.last_free) × (32 ≤ n)
  front_bounds = (
    Tiles-le m.cells m.free_cells (m.free_cells + 32) gs (cell_at m gs) front_parts.0,
    Tiles-le m.cells (cell_at m gs) (cell_at m gs + n) hs m.last_free front_parts.1.3,
    front_parts.1.0.0,
  )

  front_total : m.used_size ≡ pos (n + used_total (gs ++ free n ∷ hs))
  front_total =
      v.total
      ∙ ap pos
          (omega (arith, used_total-append gs (used n ∷ hs), used_total-append gs (free n ∷ hs)))

  front_coals : Coalesced false gs × Coalesced (ends_free false gs) (used n ∷ hs)
  front_coals = Coalesced-split false gs (used n ∷ hs) v.coalesced

  abbrev pub front_cells : Cells
  unfolding push_front
  front_cells = push_front (freed m.cells (cell_at m gs)) m.free_cells (cell_at m gs)

  front_new : count (cell_at m gs) (m.free_cells ∷ fs) + count (cell_at m gs) (m.last_free ∷ []) ≡ 0
  front_new = ground (arith, front_bounds, used_not_listed gs n hs v)

  first_listed : m.cells.next m.free_cells ≡ first_of fs m.last_free
  first_listed = Links-first m.cells m.free_cells fs m.last_free v.links

  first_ne : first_of fs m.last_free ≢ cell_at m gs
  first_ne = ground (
    arith,
    front_new,
    count-first_of fs m.last_free,
    count-append (cell_at m gs) fs (m.last_free ∷ []),
  )

  front_counts :
      (x : ℕ)
      → count x (cell_at m gs ∷ fs) ≡ count x (frees (m.free_cells + 32) (gs ++ free n ∷ hs))
  front_counts x = omega (
    arith,
    v.same x,
    ap (count x) (frees-append (m.free_cells + 32) gs (used n ∷ hs)),
    ap (count x) (frees-append (m.free_cells + 32) gs (free n ∷ hs)),
    count-append x (frees (m.free_cells + 32) gs) (frees (cell_at m gs + n) hs),
    count-append x (frees (m.free_cells + 32) gs) (cell_at m gs ∷ frees (cell_at m gs + n) hs),
  )

  front_lengths :
      length (cell_at m gs ∷ fs) ≡ length (frees (m.free_cells + 32) (gs ++ free n ∷ hs))
  front_lengths = omega (
    arith,
    v.as_many,
    ap length (frees-append (m.free_cells + 32) gs (used n ∷ hs)),
    ap length (frees-append (m.free_cells + 32) gs (free n ∷ hs)),
    length-append (frees (m.free_cells + 32) gs) (frees (cell_at m gs + n) hs),
    length-append (frees (m.free_cells + 32) gs) (cell_at m gs ∷ frees (cell_at m gs + n) hs),
  )

  -- The cell joins the free list at its front.
  pub front-IsHeap :
      ends_free false gs ≡ false
      → starts_free hs ≡ false
      → IsHeap (given_back m n front_cells) (gs ++ free n ∷ hs) (cell_at m gs ∷ fs)
  unfolding front_cells push_front
  front-IsHeap left_used right_used = record {
    full_hdr = v.full_hdr;
    used_hdr = v.used_hdr;
    min_cont = v.min_cont;
    min_cell = v.min_cell;
    start = v.start;
    tiles =
        Tiles-replaced m.cells front_cells m.free_cells (m.free_cells + 32) gs (free n)
          (cell_at m gs) (cell_at m gs + n) hs m.last_free front_parts.0 front_parts.1.3 refl
          front_parts.1.0 (λ x o i. ground arith) (λ x o i. refl)
          (freed_size m.cells (cell_at m gs) n front_parts.1.1)
          (Tiles-left m.cells (cell_at m gs) (cell_at m gs + n) hs m.last_free front_parts.1.3);
    low = ground (arith, v.low, front_bounds);
    high = ground (arith, v.high, front_bounds);
    coalesced =
        Coalesced-append false gs (free n ∷ hs) front_coals.0
          (left_used, Coalesced-used false hs right_used front_coals.1);
    links =
        Links-pushed m.cells front_cells m.free_cells (cell_at m gs) fs m.last_free v.links
          front_new (listed_once v) (λ x o i. ground (arith, first_listed, first_ne))
          (λ x o i. ground (arith, first_listed, first_ne)) (ground (arith, first_listed, first_ne))
          (ground (arith, first_listed, first_ne))
          (ground (arith, first_listed, first_ne, front_bounds))
          (ground (arith, first_listed, first_ne));
    tail = ground (arith, v.tail, first_listed, first_ne, front_bounds, start-le-last v);
    same = front_counts;
    as_many = front_lengths;
    total = less_total m.used_size n (used_total (gs ++ free n ∷ hs)) front_total;
    most =
        less_most m.used_size m.max_used_size n (used_total (gs ++ free n ∷ hs)) front_total v.most;
    inside = v.inside;
    small = v.small;
  }
