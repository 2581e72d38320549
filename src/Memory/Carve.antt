-- ===== src/Memory/Carve.antt =====
-- What `picoos_allocate` (pico/lib/picoos.c) does to the cell that it found: the cell leaves the free
-- list, or its rest takes its place there, and the invariant holds afterwards.
use platform_external_svox.Common.{
  ℕ, ◌+◌, ◌-◌, ◌%◌, ◌≤◌, ◌≡◌, ◌≢◌, refl, subst, sym, ap, ◌∙◌, true, false, List, [], ◌∷◌, ◌++◌,
  arith, ℤ, pos, ◌+ℤ◌, ◌-ℤ◌, pos-add, length, length-append,
}
use platform_external_svox.Memory.{
  MemoryManager, wrap_ptrdiff, Cells, unlink, split, take_cell, neg, set_size,
}
use platform_external_svox.Memory.Links.{
  count, count-append, count-last_of, count-first_of, Links-unlinked, Links-replaced,
}
use platform_external_svox.Memory.Tiles.{
  Cell, count_starts, Tiles-append, Tiles-relabel, last_cell, ends_free, Tiles-left, Coalesced,
  Tiles-le, free, used, Tiles, Tiles-split, Tiles-replaced, frees, frees-append, used_total,
  used_total-append, Coalesced-split, Coalesced-append, Coalesced-weaken,
}
use platform_external_svox.Memory.Listed.{IsListed, IsHeap-IsListed}
use platform_external_svox.Memory.Invariant.{IsHeap, cell_at}

module _ (m : MemoryManager) (gs hs : List Cell) (n : ℕ) (xs ys : List ℕ)
    (v : IsHeap m (gs ++ free n ∷ hs) (xs ++ cell_at m gs ∷ ys)) where
  parts :
      Tiles m.cells m.free_cells (m.free_cells + 32) gs (cell_at m gs)
      × Tiles m.cells
          (last_cell m.free_cells (m.free_cells + 32) gs)
          (cell_at m gs)
          (free n ∷ hs)
          m.last_free
  parts = Tiles-split m.cells m.free_cells (m.free_cells + 32) gs (free n ∷ hs) m.last_free v.tiles

  listed : IsListed m xs (cell_at m gs) ys
  listed = IsHeap-IsListed m (gs ++ free n ∷ hs) xs (cell_at m gs) ys v

  before-le : m.free_cells + 32 ≤ cell_at m gs
  before-le = Tiles-le m.cells m.free_cells (m.free_cells + 32) gs (cell_at m gs) parts.0

  after-le : cell_at m gs + n ≤ m.last_free
  after-le = Tiles-le m.cells (cell_at m gs) (cell_at m gs + n) hs m.last_free parts.1.3

  room : 32 ≤ n
  room = parts.1.0.0

  low_ne : cell_at m gs ≢ m.free_cells
  low_ne = omega (arith, before-le)

  high_ne : cell_at m gs ≢ m.last_free
  high_ne = omega (arith, after-le, room)

  coals : Coalesced false gs × Coalesced (ends_free false gs) (free n ∷ hs)
  coals = Coalesced-split false gs (free n ∷ hs) v.coalesced

  counts :
      (x : ℕ)
      → count x xs + count x ys
        ≡ count x (frees (m.free_cells + 32) gs) + count x (frees (cell_at m gs + n) hs)
  counts x = ground (
    arith,
    v.same x,
    count-append x xs (cell_at m gs ∷ ys),
    frees-append (m.free_cells + 32) gs (free n ∷ hs),
    count-append x (frees (m.free_cells + 32) gs) (cell_at m gs ∷ frees (cell_at m gs + n) hs),
  )

  lengths :
      length xs + length ys
      ≡ length (frees (m.free_cells + 32) gs) + length (frees (cell_at m gs + n) hs)
  lengths = ground (
    arith,
    v.as_many,
    length-append xs (cell_at m gs ∷ ys),
    frees-append (m.free_cells + 32) gs (free n ∷ hs),
    length-append (frees (m.free_cells + 32) gs) (cell_at m gs ∷ frees (cell_at m gs + n) hs),
  )

  abbrev exact_cells : Cells
  unfolding unlink
  exact_cells =
      set_size (unlink m.cells (cell_at m gs)) (cell_at m gs) (neg (m.cells.size (cell_at m gs)))

  -- An exact fit.
  pub exact-IsHeap :
      IsHeap
        (take_cell m (unlink m.cells (cell_at m gs)) (cell_at m gs) n).1
        (gs ++ used n ∷ hs)
        (xs ++ ys)
  unfolding take_cell unlink
  exact-IsHeap = record {
    full_hdr = v.full_hdr;
    used_hdr = v.used_hdr;
    min_cont = v.min_cont;
    min_cell = v.min_cell;
    start = v.start;
    tiles =
        Tiles-replaced m.cells exact_cells m.free_cells (m.free_cells + 32) gs (used n)
          (cell_at m gs) (cell_at m gs + n) hs m.last_free parts.0 parts.1.3 refl parts.1.0
          (λ x o i. ground arith) (λ x o i. refl) (ground (arith, parts.1.1))
          (Tiles-left m.cells (cell_at m gs) (cell_at m gs + n) hs m.last_free parts.1.3);
    low = ground (arith, v.low, low_ne);
    high = ground (arith, v.high, high_ne);
    coalesced =
        Coalesced-append false gs (used n ∷ hs) coals.0 (Coalesced-weaken true hs coals.1.1);
    links =
        Links-unlinked m.cells exact_cells m.free_cells xs (cell_at m gs) ys m.last_free v.links
          listed.apart (λ x o. ground (arith, listed.prev_cell))
          (λ x o. ground (arith, listed.prev_cell, listed.next_cell, listed.prev_ne))
          (ground (arith, listed.prev_cell, listed.next_cell))
          (ground (arith, listed.prev_cell, listed.next_cell, listed.prev_ne));
    tail = ground (arith, v.tail, listed.prev_cell, listed.last_ne);
    same = λ x. omega (
      arith,
      counts x,
      count-append x xs ys,
      ap (count x) (frees-append (m.free_cells + 32) gs (used n ∷ hs)),
      count-append x (frees (m.free_cells + 32) gs) (frees (cell_at m gs + n) hs),
    );
    as_many = omega (
      arith,
      lengths,
      length-append xs ys,
      ap length (frees-append (m.free_cells + 32) gs (used n ∷ hs)),
      length-append (frees (m.free_cells + 32) gs) (frees (cell_at m gs + n) hs),
    );
    total =
        ap (λ (z : ℤ). z +ℤ pos n) v.total
        ∙ pos-add (used_total (gs ++ free n ∷ hs)) n
        ∙ ap pos
            (omega (arith, used_total-append gs (free n ∷ hs), used_total-append gs (used n ∷ hs)));
    most = ground (arith, v.most);
    inside = v.inside;
    small = v.small;
  }

  module _ (want : ℕ) (big : 32 ≤ want) (aligned : want % 8 ≡ 0) (leaves : want + 40 ≤ n) where
    abbrev split_cells : Cells
    unfolding split
    split_cells =
        set_size (split m.cells (cell_at m gs) want) (cell_at m gs)
          (neg ((split m.cells (cell_at m gs) want).size (cell_at m gs)))

    rest_size : wrap_ptrdiff (m.cells.size (cell_at m gs) -ℤ pos want) ≡ pos (n - want)
    unfolding ◌-ℤ◌
    rest_size = rw parts.1.1 (ground (arith, after-le, v.small))

    rest_new :
        count (cell_at m gs + want) (m.free_cells ∷ xs)
          + count (cell_at m gs + want) ys
          + count (cell_at m gs + want) (m.last_free ∷ [])
        ≡ 0
    rest_new = ground (
      arith,
      counts (cell_at m gs + want),
      before-le,
      after-le,
      count_starts m.cells m.free_cells (m.free_cells + 32) gs (cell_at m gs) parts.0
          (cell_at m gs + want),
      count_starts m.cells (cell_at m gs) (cell_at m gs + n) hs m.last_free parts.1.3
          (cell_at m gs + want),
    )

    rest_end : cell_at m gs + want + (n - want) ≡ cell_at m gs + n
    rest_end = omega arith

    split-Tiles :
        Tiles split_cells m.free_cells
          (m.free_cells + 32)
          (gs ++ used want ∷ free (n - want) ∷ hs)
          m.last_free
    unfolding split
    split-Tiles =
        Tiles-append split_cells m.free_cells (m.free_cells + 32) gs
          (used want ∷ free (n - want) ∷ hs) m.last_free
          (Tiles-relabel m.cells split_cells m.free_cells m.free_cells (m.free_cells + 32) gs
            (cell_at m gs) (λ x i j. ground arith) (λ x i j. ground (arith, rest_size))
            (ground (
              arith,
              rest_size,
              before-le,
              Tiles-left m.cells m.free_cells (m.free_cells + 32) gs (cell_at m gs) parts.0,
            ))
            parts.0)
          (
            (big, aligned),
            ground (arith, after-le, v.small),
            ground (arith, rest_size, parts.1.2),
            (
              (omega arith, ground (arith, parts.1.0)),
              ground (arith, rest_size),
              ground (arith, rest_size),
              subst (λ z. Tiles split_cells (cell_at m gs + want) z hs m.last_free) (sym rest_end)
                  (Tiles-relabel m.cells split_cells (cell_at m gs) (cell_at m gs + want)
                    (cell_at m gs + n) hs m.last_free (λ x i j. ground arith)
                    (λ x i j. ground (arith, rest_size)) (ground (arith, rest_size)) parts.1.3),
            ),
          )

    -- A split.
    pub split-IsHeap :
        IsHeap
          (take_cell m (split m.cells (cell_at m gs) want) (cell_at m gs) want).1
          (gs ++ used want ∷ free (n - want) ∷ hs)
          (xs ++ (cell_at m gs + want) ∷ ys)
    unfolding take_cell split
    split-IsHeap = record {
      full_hdr = v.full_hdr;
      used_hdr = v.used_hdr;
      min_cont = v.min_cont;
      min_cell = v.min_cell;
      start = v.start;
      tiles = split-Tiles;
      low = ground (arith, v.low, low_ne, before-le);
      high = ground (arith, v.high, high_ne, after-le);
      coalesced =
          Coalesced-append false gs (used want ∷ free (n - want) ∷ hs) coals.0 (refl, coals.1.1);
      links =
          Links-replaced m.cells split_cells m.free_cells xs (cell_at m gs) ys m.last_free v.links
            listed.apart (cell_at m gs + want) rest_new
            (λ x o k.
              ground (arith, listed.prev_cell, listed.next_cell, listed.next_ne, listed.prev_ne))
            (λ x o k. ground (arith, listed.next_cell, listed.next_ne))
            (ground (arith, listed.prev_cell, listed.next_cell, listed.next_ne))
            (ground (arith, listed.prev_cell, listed.next_cell, listed.next_ne))
            (ground (
              arith,
              listed.prev_cell,
              listed.next_cell,
              listed.next_ne,
              rest_new,
              count-last_of m.free_cells xs,
            ))
            (ground (
              arith,
              listed.next_cell,
              rest_new,
              count-first_of ys m.last_free,
              count-append (cell_at m gs + want) ys (m.last_free ∷ []),
            ));
      tail = ground (
        arith, v.tail, listed.prev_cell, listed.next_cell, listed.next_ne, listed.last_ne, after-le,
      );
      same = λ x. omega (
        arith,
        counts x,
        count-append x xs ((cell_at m gs + want) ∷ ys),
        ap (count x) (frees-append (m.free_cells + 32) gs (used want ∷ free (n - want) ∷ hs)),
        count-append x (frees (m.free_cells + 32) gs)
            ((cell_at m gs + want) ∷ frees (cell_at m gs + want + (n - want)) hs),
        ap (λ (z : ℕ). count x (frees z hs)) rest_end,
      );
      as_many = omega (
        arith,
        lengths,
        length-append xs ((cell_at m gs + want) ∷ ys),
        ap length (frees-append (m.free_cells + 32) gs (used want ∷ free (n - want) ∷ hs)),
        length-append (frees (m.free_cells + 32) gs)
            ((cell_at m gs + want) ∷ frees (cell_at m gs + want + (n - want)) hs),
        ap (λ (z : ℕ). length (frees z hs)) rest_end,
      );
      total =
          ap (λ (z : ℤ). z +ℤ pos want) v.total
          ∙ pos-add (used_total (gs ++ free n ∷ hs)) want
          ∙ ap pos (
              omega (
                arith,
                used_total-append gs (free n ∷ hs),
                used_total-append gs (used want ∷ free (n - want) ∷ hs),
              ));
      most = ground (arith, v.most);
      inside = v.inside;
      small = v.small;
    }
