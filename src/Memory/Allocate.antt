-- ===== src/Memory/Allocate.antt =====
-- `picoos_allocate` of pico/lib/picoos.c as a whole: what it finds, and what it does to the block.
use platform_external_svox.Common.{
  ℕ, suc, ◌+◌, ◌-◌, ◌%◌, ◌≤◌, ◌<◌, ◌≡◌, ◌≢◌, ◌⊎◌, inl, inr, refl, subst, sym, ap, ◌∙◌, true, false,
  List, [], ◌∷◌, ◌++◌, arith, ◌==◌, pos, eqz, length, some, Option,
}
use platform_external_svox.Memory.{
  MemoryManager, Cells, place, allocate, take_cell, unlink, split, cell_size, round_up, to_ptrdiff,
  first_fit,
}
use platform_external_svox.Memory.Links.{count, Links-first, count-append, locate_link}
use platform_external_svox.Memory.Tiles.{
  Cell, free, used, Tiles, Tiles-split, Tiles-le, frees, frees-append, locate_free,
}
use platform_external_svox.Memory.Invariant.{
  IsHeap, Carved, exact, front, cell_at, null_not_listed, start-le-last,
}
use platform_external_svox.Memory.Carve.{exact-IsHeap, split-IsHeap}
use platform_external_svox.Memory.Search.{fits, Finds, first_fit_lem}

-- What a cell for `byte_size` bytes takes.
pub cell_size_bounds :
    (m : MemoryManager) (byte_size : ℕ)
    → m.used_cell_hdr_size ≡ 16
    → m.min_cont_size ≡ 16
    → byte_size < 4611686018427387904
    → (byte_size + 16 ≤ cell_size m byte_size)
      × (32 ≤ cell_size m byte_size)
      × (cell_size m byte_size % 8 ≡ 0)
      × (cell_size m byte_size ≤ byte_size + 32)
unfolding cell_size round_up
cell_size_bounds m byte_size u c small = ground arith

-- The address and the state that a call returns: nothing fits and nothing changes, or a free cell
-- became the caller's, whole or in part.
abbrev pub Outcome : MemoryManager → List Cell → ℕ → ℕ → MemoryManager → Type 0
Outcome m cs byte_size p m' =
    ((p ≡ 0)
      × (m' ≡ m)
      × ((n : ℕ) (xs ys : List Cell)
          → cs ≡ xs ++ free n ∷ ys
          → (n ≢ cell_size m byte_size) × (n < cell_size m byte_size + 40)))
    ⊎ ((c : ℕ) × (ds : List Cell) × (gs : List ℕ) × (p ≡ c + 16)
        × Carved (m.free_cells + 32) (cell_size m byte_size) cs c ds
        × IsHeap m' ds gs
        × (m'.free_cells ≡ m.free_cells)
        × (m'.last_free ≡ m.last_free))

abbrev pub Allocates : MemoryManager → List Cell → ℕ → Option (ℕ × MemoryManager) → Type 0
Allocates m cs byte_size r =
    (p : ℕ) × (m' : MemoryManager) × (r ≡ some (p, m')) × Outcome m cs byte_size p m'

place-null : (m : MemoryManager) (want : ℕ) → some (place m want 0) ≡ some (0, m)
unfolding place
place-null m want = refl

lt→eqb : (n : ℕ) → 0 < n → (n == 0) ≡ false
lt→eqb n h = ground arith

whole_fit : (n k : ℕ) → n < 9223372036854775808 → n ≡ k → eqz (pos n) (to_ptrdiff k) ≡ true
whole_fit n k small e = ground arith

part_fit : (n k : ℕ) → n < 9223372036854775808 → k < n → eqz (pos n) (to_ptrdiff k) ≡ false
part_fit n k small e = ground arith

fits_cases :
    (h : Cells) (want n c : ℕ)
    → h.size c ≡ pos n
    → fits h want 40 c ≡ true
    → (want ≡ n) ⊎ (want + 40 ≤ n)
fits_cases h want n c e holds = ground arith

module _ (m : MemoryManager) (byte_size : ℕ) (gs hs : List Cell) (n : ℕ) (xs ys : List ℕ)
    (v : IsHeap m (gs ++ free n ∷ hs) (xs ++ cell_at m gs ∷ ys)) where
  carved_cell : (0 < cell_at m gs) × (m.cells.size (cell_at m gs) ≡ pos n)
  carved_cell =
      let parts =
        Tiles-split m.cells m.free_cells (m.free_cells + 32) gs (free n ∷ hs) m.last_free v.tiles in
      (
        omega (arith, Tiles-le m.cells m.free_cells (m.free_cells + 32) gs (cell_at m gs) parts.0),
        parts.1.1,
      )

  place-unlink :
      n < 9223372036854775808
      → place m n (cell_at m gs) ≡ take_cell m (unlink m.cells (cell_at m gs)) (cell_at m gs) n
  unfolding place
  place-unlink small =
      rw (lt→eqb (cell_at m gs) carved_cell.0, carved_cell.1, whole_fit n n small refl)

  place-split :
      (want : ℕ)
      → want < n
      → n < 9223372036854775808
      → place m want (cell_at m gs)
        ≡ take_cell m (split m.cells (cell_at m gs) want) (cell_at m gs) want
  unfolding place
  place-split want less small =
      rw (lt→eqb (cell_at m gs) carved_cell.0, carved_cell.1, part_fit n want small less)

  small_cell : n < 9223372036854775808
  small_cell =
      let parts =
        Tiles-split m.cells m.free_cells (m.free_cells + 32) gs (free n ∷ hs) m.last_free v.tiles in
      omega (
        arith,
        v.small,
        Tiles-le m.cells (cell_at m gs) (cell_at m gs + n) hs m.last_free parts.1.3,
      )

  -- A cell that fits becomes the caller's, whole or in part.
  place-Allocates :
      byte_size < 4611686018427387904
      → fits m.cells (cell_size m byte_size) 40 (cell_at m gs) ≡ true
      → Allocates m
          (gs ++ free n ∷ hs)
          byte_size
          (some (place m (cell_size m byte_size) (cell_at m gs)))
  unfolding take_cell
  place-Allocates small holds =
      let bounds = cell_size_bounds m byte_size v.used_hdr v.min_cont small in
      elim (fits_cases m.cells (cell_size m byte_size) n (cell_at m gs) carved_cell.1 holds) [
        | inl e ↦ rw e (
          cell_at m gs + 16,
          (take_cell m (unlink m.cells (cell_at m gs)) (cell_at m gs) n).1,
          rw (place-unlink small_cell) (
              ap
                (λ (u : ℕ). some (
                  cell_at m gs + u,
                  (take_cell m (unlink m.cells (cell_at m gs)) (cell_at m gs) n).1,
                ))
                v.used_hdr),
          inr (
            cell_at m gs,
            gs ++ used n ∷ hs,
            xs ++ ys,
            refl,
            exact gs hs refl refl refl,
            exact-IsHeap m gs hs n xs ys v,
            refl,
            refl,
          ),
        )
        | inr more ↦ (
          cell_at m gs + 16,
          (take_cell m (split m.cells (cell_at m gs) (cell_size m byte_size)) (cell_at m gs)
              (cell_size m byte_size)).1,
          rw (place-split (cell_size m byte_size) (omega (arith, more)) small_cell) (
              ap
                (λ (u : ℕ). some (
                  cell_at m gs + u,
                  (take_cell m (split m.cells (cell_at m gs) (cell_size m byte_size)) (cell_at m gs)
                      (cell_size m byte_size)).1,
                ))
                v.used_hdr),
          inr (
            cell_at m gs,
            gs ++ used (cell_size m byte_size) ∷ free (n - cell_size m byte_size) ∷ hs,
            xs ++ (cell_at m gs + cell_size m byte_size) ∷ ys,
            refl,
            front gs n hs more refl refl refl,
            split-IsHeap m gs hs n xs ys v (cell_size m byte_size) bounds.1 bounds.2 more,
            refl,
            refl,
          ),
        )
      ]

length-frees :
    (h : Cells) (l a : ℕ) (cs : List Cell) (e : ℕ) → Tiles h l a cs e → length (frees a cs) + a ≤ e
length-frees h l a [] e t = ground arith
length-frees h l a (free n ∷ cs) e t = ground (arith, length-frees h a (a + n) cs e t.3)
length-frees h l a (used n ∷ cs) e t = ground (arith, length-frees h a (a + n) cs e t.3)

module _ (m : MemoryManager) (cs : List Cell) (fs : List ℕ) (v : IsHeap m cs fs) (byte_size : ℕ)
    (small : byte_size < 4611686018427387904) where
  search_lem :
      Finds m.cells (cell_size m byte_size) 40 fs (suc m.block_size) (m.cells.next m.free_cells)
  search_lem =
      let bounds = cell_size_bounds m byte_size v.used_hdr v.min_cont small in
      let short = length-frees m.cells m.free_cells (m.free_cells + 32) cs m.last_free v.tiles in
      rw (Links-first m.cells m.free_cells fs m.last_free v.links) (
        first_fit_lem m.cells (cell_size m byte_size) 40 m.last_free (omega (arith, bounds))
          (omega (arith, bounds)) v.tail (omega (arith, start-le-last v)) v.high fs m.free_cells
          (suc m.block_size) v.links (null_not_listed v)
          (omega (arith, short, v.as_many, v.inside)))

  allocate-some :
      (c : ℕ)
      → first_fit (suc m.block_size) m.cells (cell_size m byte_size) 40 (m.cells.next m.free_cells)
        ≡ some c
      → allocate m byte_size ≡ some (place m (cell_size m byte_size) c)
  unfolding allocate
  allocate-some c e =
      let e' : first_fit (suc m.block_size) m.cells (cell_size m byte_size) m.min_cell_size
            (m.cells.next m.free_cells)
          ≡ some c =
        ap
          (λ (k : ℕ).
            first_fit (suc m.block_size) m.cells (cell_size m byte_size) k
              (m.cells.next m.free_cells))
          v.min_cell
        ∙ e in
      rw (e', allocate)

  fit_at :
      (n : ℕ) (xs ys : List Cell)
      → cs ≡ xs ++ free n ∷ ys
      → (1 ≤ count (cell_at m xs) fs) × (m.cells.size (cell_at m xs) ≡ pos n)
  fit_at n xs ys e =
      let t = subst (λ z. Tiles m.cells m.free_cells (m.free_cells + 32) z m.last_free) e v.tiles in
      let parts =
        Tiles-split m.cells m.free_cells (m.free_cells + 32) xs (free n ∷ ys) m.last_free t in
      (
        ground (
          arith,
          v.same (cell_at m xs),
          ap (frees (m.free_cells + 32)) e,
          frees-append (m.free_cells + 32) xs (free n ∷ ys),
          count-append (cell_at m xs) (frees (m.free_cells + 32) xs)
              (cell_at m xs ∷ frees (cell_at m xs + n) ys),
        ),
        parts.1.1,
      )

  -- With room in some free cell the caller gets its front, and otherwise nothing changes.
  pub allocate_lem : Allocates m cs byte_size (allocate m byte_size)
  unfolding place
  allocate_lem = elim search_lem [
    | inl (e, none_fit) ↦ rw (allocate-some 0 e) (
      0,
      m,
      place-null m (cell_size m byte_size),
      inl (
        refl,
        refl,
        λ n xs ys split_cs.
            let at = fit_at n xs ys split_cs in ground (arith, none_fit (cell_at m xs) at.0, at.1),
      ),
    )
    | inr (c, e, listed, holds) ↦
        let (gs, n, hs, ecs, at) = locate_free c (m.free_cells + 32) cs (omega (arith, v.same c)) in
        let (xs, ys, efs) = locate_link c fs listed in
        rw (allocate-some c e) (
          subst (λ ds. Allocates m ds byte_size (some (place m (cell_size m byte_size) c)))
            (sym ecs)
            (subst
              (λ p.
                fits m.cells (cell_size m byte_size) 40 p ≡ true
                → IsHeap m (gs ++ free n ∷ hs) (xs ++ p ∷ ys)
                → Allocates m (gs ++ free n ∷ hs) byte_size
                    (some (place m (cell_size m byte_size) p)))
              (sym at) (λ k w. place-Allocates m byte_size gs hs n xs ys w small k) holds
              (subst (λ ds. IsHeap m ds (xs ++ c ∷ ys)) ecs (subst (λ gs. IsHeap m cs gs) efs v))))
  ]

  -- So it is for the result of a call.
  pub allocate-Outcome :
      (p : ℕ) (m' : MemoryManager)
      → allocate m byte_size ≡ some (p, m')
      → Outcome m cs byte_size p m'
  allocate-Outcome p m' e =
      let (p0, m0, e0, out) = allocate_lem in
      subst (λ q. Outcome m cs byte_size q m') (ground (arith, e, e0))
        (subst (λ z. Outcome m cs byte_size p0 z) (ground (arith, e, e0)) out)
