-- ===== src/Memory/Deallocate.antt =====
-- `picoos_deallocate` of pico/lib/picoos.c as a whole: it finds the cells on both sides and joins
-- the cell with those that are free.
use platform_external_svox.Common.{
  ℕ, ◌+◌, ◌-◌, ◌≤◌, ◌<◌, ◌≡◌, inl, inr, refl, subst, sym, ap, ◌∙◌, Bool, true, false, List, [], ◌∷◌,
  ◌++◌, append_assoc, arith, ◌==◌, if◌then◌else◌, pos, ltz, ◌-ℤ◌,
}
use platform_external_svox.Memory.{
  MemoryManager, Cells, neg, coalesce, deallocate, merge_left, merge_right, merge_both, push_front,
}
use platform_external_svox.Memory.Links.{count, count-append, count_self, locate_link}
use platform_external_svox.Memory.Tiles.{
  Cell, free, used, Tiles, Tiles-split, Tiles-le, extent, stop, stop-append, last_cell, frees,
  frees-append, useds, ends_free, starts_free, is_free, unsnoc, locate_used,
}
use platform_external_svox.Memory.Invariant.{IsHeap, Released, alone, left, right, both, cell_at}
use platform_external_svox.Memory.Merge.{given_back, freed, freed_size, put_ne}
use platform_external_svox.Memory.Merge.Left.{left-IsHeap}
use platform_external_svox.Memory.Merge.Both.{both-IsHeap}
use platform_external_svox.Memory.Merge.Right.{right-IsHeap}
use platform_external_svox.Memory.Merge.Front.{front-IsHeap}

minus_zero : (n : ℕ) → n - 0 ≡ n
minus_zero n = omega arith

-- The branch that is taken, by the cells on both sides.
coalesce_at :
    (h : Cells) (b c n cl : ℕ) (p q : Bool)
    → h.size c ≡ pos n
    → h.left c ≡ cl
    → ltz (pos 0) (h.size cl) ≡ p
    → ltz (pos 0) (h.size (c + n)) ≡ q
    → coalesce h b c ≡ (
        if p
        then (if q then merge_both h cl c (c + n) else merge_left h cl c (c + n))
        else if q
        then merge_right h c (c + n)
        else push_front h b c)
unfolding coalesce
coalesce_at h b c n cl p q es el ep eq = rw (es, minus_zero (c + n), el, ep, eq)

deallocate_at :
    (m : MemoryManager) (c n : ℕ)
    → m.used_cell_hdr_size ≡ 16
    → m.cells.size c ≡ neg (pos n)
    → deallocate m (c + 16) ≡ given_back m n (coalesce (freed m.cells c) m.free_cells c)
unfolding deallocate
deallocate_at m c n u e =
    let e1 : ((c + 16) == 0) ≡ false = ground arith in
    let e2 : c + 16 - m.used_cell_hdr_size ≡ c = omega (arith, u) in
    rw (e1, e2)
      (ap
        (λ z. record m {
          used_size = m.used_size -ℤ z;
          cells = coalesce (freed m.cells c) m.free_cells c;
        })
        (freed_size m.cells c n e))

-- The last cell is free, or the sentinel before it counts.
last_is_free :
    (h : Cells) (l a : ℕ) (cs : List Cell) (e : ℕ) (p : Bool)
    → Tiles h l a cs e
    → ltz (pos 0) (h.size l) ≡ p
    → ltz (pos 0) (h.size (last_cell l a cs)) ≡ ends_free p cs
last_is_free h l a [] e p t s = s
last_is_free h l a (free n ∷ cs) e p t s =
    last_is_free h a (a + n) cs e true t.3 (ground (arith, t.0, t.1))
last_is_free h l a (used n ∷ cs) e p t s =
    last_is_free h a (a + n) cs e false t.3 (ground (arith, t.0, t.1))

last_cell_lt :
    (h : Cells) (l a : ℕ) (cs : List Cell) (e : ℕ) → Tiles h l a cs e → l < a → last_cell l a cs < e
last_cell_lt h l a [] e t lt = ground arith
last_cell_lt h l a (x ∷ cs) e t lt = last_cell_lt h a (a + extent x) cs e t.3 (ground (arith, t.0))

first_is_free :
    (h : Cells) (l a : ℕ) (cs : List Cell) (e : ℕ)
    → Tiles h l a cs e
    → h.size e ≡ pos 0
    → ltz (pos 0) (h.size a) ≡ starts_free cs
first_is_free h l a [] e t s = ground (arith, t)
first_is_free h l a (free n ∷ cs) e t s = ground (arith, t.0, t.1)
first_is_free h l a (used n ∷ cs) e t s = ground (arith, t.0, t.1)

ends_free_last : (p : Bool) (cs : List Cell) (x : Cell) → ends_free p (cs ++ x ∷ []) ≡ is_free x
ends_free_last p [] x = refl
ends_free_last p (y ∷ cs) x = ends_free_last (is_free y) cs x

-- What became of the block, for the cell at `c`.
abbrev pub Releases : MemoryManager → List Cell → ℕ → Type 0
Releases m cs c =
    (ds : List Cell) × (gs : List ℕ) × Released (m.free_cells + 32) cs c ds
    × IsHeap (deallocate m (c + 16)) ds gs

module _ (m : MemoryManager) (gs : List Cell) (k n : ℕ) (hs : List Cell) (fs : List ℕ)
    (v : IsHeap m (gs ++ free k ∷ used n ∷ hs) fs) where
  -- With a free cell on the left.
  deallocate-left :
      deallocate m (cell_at m gs + k + 16)
      ≡ given_back m n (
          if starts_free hs
          then merge_both
              (freed m.cells (cell_at m gs + k))
              (cell_at m gs)
              (cell_at m gs + k)
              (cell_at m gs + k + n)
          else merge_left
              (freed m.cells (cell_at m gs + k))
              (cell_at m gs)
              (cell_at m gs + k)
              (cell_at m gs + k + n))
  deallocate-left =
      let (before, parts) =
        Tiles-split m.cells m.free_cells (m.free_cells + 32) gs (free k ∷ used n ∷ hs) m.last_free
          v.tiles in
      deallocate_at m (cell_at m gs + k) n v.used_hdr parts.3.1
      ∙ ap (given_back m n) (
          coalesce_at (freed m.cells (cell_at m gs + k)) m.free_cells (cell_at m gs + k) n
            (cell_at m gs) true (starts_free hs) (freed_size m.cells (cell_at m gs + k) n parts.3.1)
            parts.3.2 (ground (arith, parts.0, parts.1))
            (ap (ltz (pos 0)) (
                put_ne m.cells.size (cell_at m gs + k) _ (cell_at m gs + k + n)
                  (omega (arith, parts.3.0)))
              ∙ first_is_free m.cells (cell_at m gs + k) (cell_at m gs + k + n) hs m.last_free
                  parts.3.3 v.high))

  left_used_right :
      starts_free hs ≡ false → Releases m (gs ++ free k ∷ used n ∷ hs) (cell_at m gs + k)
  unfolding merge_left
  left_used_right e = (
    gs ++ free (k + n) ∷ hs,
    fs,
    left gs k n hs refl refl refl,
    rw (deallocate-left, e) (left-IsHeap m gs k n hs fs v e),
  )

left-Releases :
    (m : MemoryManager) (gs : List Cell) (k n : ℕ) (hs : List Cell) (fs : List ℕ)
    → IsHeap m (gs ++ free k ∷ used n ∷ hs) fs
    → Releases m (gs ++ free k ∷ used n ∷ hs) (cell_at m gs + k)
unfolding merge_both
left-Releases m gs k n [] fs v = left_used_right m gs k n [] fs v refl
left-Releases m gs k n (used r ∷ hs) fs v = left_used_right m gs k n (used r ∷ hs) fs v refl
left-Releases m gs k n (free r ∷ hs) fs v =
    let (xs, ys, e) = locate_link (cell_at m gs + k + n) fs (
      omega (
        arith,
        v.same (cell_at m gs + k + n),
        ap (count (cell_at m gs + k + n))
            (frees-append (m.free_cells + 32) gs (free k ∷ used n ∷ free r ∷ hs)),
        count-append (cell_at m gs + k + n) (frees (m.free_cells + 32) gs)
            (cell_at m gs ∷ (cell_at m gs + k + n) ∷ frees (cell_at m gs + k + n + r) hs),
        count_self (cell_at m gs + k + n) (frees (cell_at m gs + k + n + r) hs),
      )) in
    let w = subst (λ z. IsHeap m (gs ++ free k ∷ used n ∷ free r ∷ hs) z) e v in
    (
      gs ++ free (k + n + r) ∷ hs,
      xs ++ ys,
      both gs k n r hs refl refl refl,
      rw (deallocate-left m gs k n (free r ∷ hs) fs v) (both-IsHeap m gs k n r hs xs ys w),
    )

module _ (m : MemoryManager) (gs : List Cell) (n : ℕ) (hs : List Cell) (fs : List ℕ)
    (v : IsHeap m (gs ++ used n ∷ hs) fs) (left_used : ends_free false gs ≡ false) where
  -- With a used cell on the left, or the sentinel.
  deallocate-right :
      deallocate m (cell_at m gs + 16)
      ≡ given_back m n (
          if starts_free hs
          then merge_right (freed m.cells (cell_at m gs)) (cell_at m gs) (cell_at m gs + n)
          else push_front (freed m.cells (cell_at m gs)) m.free_cells (cell_at m gs))
  deallocate-right =
      let (before, parts) =
        Tiles-split m.cells m.free_cells (m.free_cells + 32) gs (used n ∷ hs) m.last_free v.tiles in
      let le = Tiles-le m.cells m.free_cells (m.free_cells + 32) gs (cell_at m gs) before in
      deallocate_at m (cell_at m gs) n v.used_hdr parts.1
      ∙ ap (given_back m n) (
          coalesce_at (freed m.cells (cell_at m gs)) m.free_cells (cell_at m gs) n
            (last_cell m.free_cells (m.free_cells + 32) gs) false (starts_free hs)
            (freed_size m.cells (cell_at m gs) n parts.1) parts.2
            (ap (ltz (pos 0)) (
                put_ne m.cells.size (cell_at m gs) _ (last_cell m.free_cells (m.free_cells + 32) gs)
                  (λ e. absurd (
                    omega (
                      arith,
                      last_cell_lt m.cells m.free_cells (m.free_cells + 32) gs (cell_at m gs) before
                          (omega arith),
                    ))))
              ∙ last_is_free m.cells m.free_cells (m.free_cells + 32) gs (cell_at m gs) false before
                  (ground (arith, v.low))
              ∙ left_used)
            (ap (ltz (pos 0))
                (put_ne m.cells.size (cell_at m gs) _ (cell_at m gs + n) (omega (arith, parts.0)))
              ∙ first_is_free m.cells (cell_at m gs) (cell_at m gs + n) hs m.last_free parts.3
                  v.high))

  right_used_left : starts_free hs ≡ false → Releases m (gs ++ used n ∷ hs) (cell_at m gs)
  unfolding push_front
  right_used_left e = (
    gs ++ free n ∷ hs,
    cell_at m gs ∷ fs,
    alone gs n hs refl refl refl,
    rw (deallocate-right, e) (front-IsHeap m gs n hs fs v left_used e),
  )

right-Releases :
    (m : MemoryManager) (gs : List Cell) (n : ℕ) (hs : List Cell) (fs : List ℕ)
    → IsHeap m (gs ++ used n ∷ hs) fs
    → ends_free false gs ≡ false
    → Releases m (gs ++ used n ∷ hs) (cell_at m gs)
unfolding merge_right
right-Releases m gs n [] fs v l = right_used_left m gs n [] fs v l refl
right-Releases m gs n (used r ∷ hs) fs v l = right_used_left m gs n (used r ∷ hs) fs v l refl
right-Releases m gs n (free r ∷ hs) fs v l =
    let (xs, ys, e) = locate_link (cell_at m gs + n) fs (
      omega (
        arith,
        v.same (cell_at m gs + n),
        ap (count (cell_at m gs + n)) (frees-append (m.free_cells + 32) gs (used n ∷ free r ∷ hs)),
        count-append (cell_at m gs + n) (frees (m.free_cells + 32) gs)
            ((cell_at m gs + n) ∷ frees (cell_at m gs + n + r) hs),
        count_self (cell_at m gs + n) (frees (cell_at m gs + n + r) hs),
      )) in
    let w = subst (λ z. IsHeap m (gs ++ used n ∷ free r ∷ hs) z) e v in
    (
      gs ++ free (n + r) ∷ hs,
      xs ++ cell_at m gs ∷ ys,
      right gs n r hs refl refl refl,
      rw (deallocate-right m gs n (free r ∷ hs) fs v l) (right-IsHeap m gs n r hs xs ys w l),
    )

-- The cases of the cell on the left.
split-Releases :
    (m : MemoryManager) (gs : List Cell) (n : ℕ) (hs : List Cell) (fs : List ℕ)
    → IsHeap m (gs ++ used n ∷ hs) fs
    → Releases m (gs ++ used n ∷ hs) (cell_at m gs)
split-Releases m gs n hs fs v = elim (unsnoc gs) [
  | inl e ↦ right-Releases m gs n hs fs v (ap (ends_free false) e)
  | inr (js, used k, e) ↦
      right-Releases m gs n hs fs v (ap (ends_free false) e ∙ ends_free_last false js (used k))
  | inr (js, free k, e) ↦
      let cells : gs ++ used n ∷ hs ≡ js ++ free k ∷ used n ∷ hs =
        ap (λ z. z ++ used n ∷ hs) e ∙ append_assoc js (free k ∷ []) (used n ∷ hs) in
      let place : cell_at m gs ≡ cell_at m js + k =
        ap (stop (m.free_cells + 32)) e ∙ stop-append (m.free_cells + 32) js (free k ∷ []) in
      subst (λ z. Releases m z (cell_at m gs)) (sym cells)
        (subst (λ c. Releases m (js ++ free k ∷ used n ∷ hs) c) (sym place)
          (left-Releases m js k n hs fs (subst (λ z. IsHeap m z fs) cells v)))
]

-- The cell that a used address heads becomes free, and whole with the free cells beside it.
pub deallocate_lem :
    (m : MemoryManager) (cs : List Cell) (fs : List ℕ) (c : ℕ)
    → IsHeap m cs fs
    → 1 ≤ count c (useds (m.free_cells + 32) cs)
    → Releases m cs c
deallocate_lem m cs fs c v listed =
    let (gs, n, hs, e, at) = locate_used c (m.free_cells + 32) cs listed in
    subst (λ z. Releases m z c) (sym e)
      (subst (λ p. Releases m (gs ++ used n ∷ hs) p) (sym at)
        (split-Releases m gs n hs fs (subst (λ z. IsHeap m z fs) e v)))
