-- ===== src/Memory/Client/Safe.antt =====
-- What holds after any calls of the memory manager of pico/lib/picoos.c.
use platform_external_svox.Common.{
  ℕ, ◌+◌, ◌-◌, ◌%◌, ◌≤◌, ◌<◌, ◌≡◌, ◌≢◌, ◌⊎◌, inl, inr, refl, false, sym, subst, ap, List, [], ◌∷◌,
  ◌++◌, some, arith, length, length-append,
}
use platform_external_svox.Memory.{
  MemoryManager, Cells, allocate, deallocate, cell_size, new_memory_manager,
}
use platform_external_svox.Memory.Start.{new_memory_manager_lem}
use platform_external_svox.Memory.Links.{count, count-append, Links-frame}
use platform_external_svox.Memory.Tiles.{
  Cell, Coalesced, free, used, Tiles-relabel, Tiles-left, Tiles-stop, count_starts, useds, stop,
}
use platform_external_svox.Memory.Invariant.{IsHeap}
use platform_external_svox.Memory.Allocate.{allocate_lem, allocate-Outcome, cell_size_bounds}
use platform_external_svox.Memory.Deallocate.{deallocate_lem}
use platform_external_svox.Memory.Regions.{
  UsedAt, UsedAt-le, UsedAt-count, Carved-new, Carved-length, Released-length,
}
use platform_external_svox.Memory.Client.{
  Session, scribble, Step, allocated, refused, released, written, Reach, here, next, ApartFrom,
  AllApart, AllLive, IsSession, Carved-AllLive, AllApart-remove, AllLive-remove, Released-AllLive,
  deallocate-free_cells,
}

-- A write to the links of a used cell's header is not seen by the manager.
scribble-IsHeap :
    (m : MemoryManager) (cs : List Cell) (fs : List ℕ) (c k x y : ℕ)
    → IsHeap m cs fs
    → UsedAt (m.free_cells + 32) cs c k
    → IsHeap (scribble m (c + 16) x y) cs fs
scribble-IsHeap m cs fs c k x y v u =
    let starts = count_starts m.cells m.free_cells (m.free_cells + 32) cs m.last_free v.tiles c in
    let counted = UsedAt-count (m.free_cells + 32) cs c k u in
    let unlisted : count c fs ≡ 0 = omega (arith, v.same c, starts.0) in
    let at : c + 16 - 16 ≡ c = omega arith in
    let low : m.free_cells + 32 ≤ c = (UsedAt-le (m.free_cells + 32) cs c k u).0 in
    let high : c ≢ m.last_free = λ e. absurd (omega (arith, starts.2 (omega arith))) in
    record {
      full_hdr = v.full_hdr;
      used_hdr = v.used_hdr;
      min_cont = v.min_cont;
      min_cell = v.min_cell;
      start = v.start;
      tiles =
          Tiles-relabel m.cells (scribble m (c + 16) x y).cells m.free_cells m.free_cells
            (m.free_cells + 32) cs m.last_free (λ z i j. refl) (λ z i j. refl)
            (Tiles-left m.cells m.free_cells (m.free_cells + 32) cs m.last_free v.tiles) v.tiles;
      low = v.low;
      high = v.high;
      coalesced = v.coalesced;
      links =
          Links-frame m.cells (scribble m (c + 16) x y).cells m.free_cells fs m.last_free
            (λ z i. ground arith) (λ z i. ground (arith, count-append z fs (m.last_free ∷ [])))
            v.links;
      tail = ground (arith, v.tail);
      same = v.same;
      as_many = v.as_many;
      total = v.total;
      most = v.most;
      inside = v.inside;
      small = v.small;
    }

-- Allocations of less than 2^62 bytes, granted or refused, deallocations of regions in use, and writes to
-- the first two words of such regions keep the block tiled by its cells, no two free cells adjacent,
-- the free list that of the free cells, and the regions in use apart in used cells.
pub Step-IsSession : {s t : Session} → Step s t → IsSession s → IsSession t
Step-IsSession (allocated s n p m small e ne) (cs, fs, v, live, apart, as_many) =
    elim (allocate-Outcome s.manager cs fs v n small p m e) [
      | inl out ↦ absurd (ne out.0)
      | inr (c, ds, gs, at, carved, w, same_lo, same_hi) ↦
          let bounds = cell_size_bounds s.manager n v.used_hdr v.min_cont small in
          let r = Carved-AllLive n s.live carved (omega (arith, bounds)) live in
          (
            ds,
            gs,
            w,
            subst (λ lo. AllLive (lo + 32) ds ((p, n) ∷ s.live)) (sym same_lo)
                ((c, cell_size s.manager n, at, Carved-new carved, omega (arith, bounds)), r.0),
            (subst (λ q. ApartFrom (q, n) s.live) (sym at) r.1, apart),
            omega (
              arith,
              as_many,
              Carved-length carved,
              ap (λ (lo : ℕ). length (useds (lo + 32) ds)) same_lo,
            ),
          )
    ]
Step-IsSession (refused s n m small e) (cs, fs, v, live, apart, as_many) =
    elim (allocate-Outcome s.manager cs fs v n small 0 m e) [
      | inl (_, same, _) ↦
          subst (λ z. IsSession (record { manager = z; live = s.live })) (sym same)
            (cs, fs, v, live, apart, as_many)
      | inr (c, ds, gs, at, carved, w, same_lo, same_hi) ↦ absurd (omega (arith, at))
    ]
Step-IsSession (released s xs p n ys e) (cs, fs, v, live, apart, as_many) =
    let ((c, k, at, u, fit), others) =
      AllLive-remove (s.manager.free_cells + 32) cs xs (p, n) ys
        (subst (AllLive (s.manager.free_cells + 32) cs) e live) in
    let (kept, away) = AllApart-remove xs (p, n) ys (subst AllApart e apart) in
    let (ds, gs, r, w) =
      deallocate_lem s.manager cs fs c v (UsedAt-count (s.manager.free_cells + 32) cs c k u) in
    let same_lo = deallocate-free_cells s.manager p in
    (
      ds,
      gs,
      subst (λ q. IsHeap (deallocate s.manager q) ds gs) (sym at) w,
      subst (λ lo. AllLive (lo + 32) ds (xs ++ ys)) (sym same_lo)
          (Released-AllLive n (xs ++ ys) r (subst (λ q. ApartFrom (q, n) (xs ++ ys)) at away)
            others),
      kept,
      omega (
        arith,
        as_many,
        Released-length r,
        ap (λ (lo : ℕ). length (useds (lo + 32) ds)) same_lo,
        ap length e,
        length-append xs ((p, n) ∷ ys),
        length-append xs ys,
      ),
    )
Step-IsSession (written s xs p n ys x y e) (cs, fs, v, live, apart, as_many) =
    let ((c, k, at, u, fit), others) =
      AllLive-remove (s.manager.free_cells + 32) cs xs (p, n) ys
        (subst (AllLive (s.manager.free_cells + 32) cs) e live) in
    (
      cs,
      fs,
      subst (λ q. IsHeap (scribble s.manager q x y) cs fs) (sym at)
          (scribble-IsHeap s.manager cs fs c k x y v u),
      live,
      apart,
      as_many,
    )

Reach-IsSession : {s t : Session} → IsSession s → Reach s t → IsSession t
Reach-IsSession i here = i
Reach-IsSession i (next r st) = Step-IsSession st (Reach-IsSession i r)

-- A region behind `lo` and before `hi`.
abbrev pub AllInside : ℕ → ℕ → List (ℕ × ℕ) → Type 0
AllInside lo hi [] = Unit
AllInside lo hi ((p, n) ∷ xs) = (lo + 16 ≤ p) × (p + n ≤ hi) × AllInside lo hi xs

AllLive-AllInside :
    (lo : ℕ) (cs : List Cell) (xs : List (ℕ × ℕ)) → AllLive lo cs xs → AllInside lo (stop lo cs) xs
AllLive-AllInside lo cs [] l = tt
AllLive-AllInside lo cs ((p, n) ∷ xs) ((c, k, at, u, fit), l) =
    let r = UsedAt-le lo cs c k u in (omega arith, omega arith, AllLive-AllInside lo cs xs l)

abbrev pub opened : MemoryManager → Session
opened m = record { manager = m; live = [] }

-- Without used cells there is one free cell, or none.
one_free :
    (a : ℕ) (cs : List Cell)
    → Coalesced false cs
    → length (useds a cs) ≡ 0
    → (cs ≡ []) ⊎ ((n : ℕ) × (cs ≡ free n ∷ []))
one_free a [] c e = inl refl
one_free a (free n ∷ []) c e = inr (n, refl)
one_free a (free n ∷ free k ∷ cs) c e = absurd (ground arith)
one_free a (free n ∷ used k ∷ cs) c e = absurd (omega arith)
one_free a (used n ∷ cs) c e = absurd (omega arith)

-- The cell of a call takes the whole block between the sentinels, or leaves a least cell of it.
abbrev pub HasRoom : MemoryManager → ℕ → Type 0
HasRoom m n =
    let whole = m.last_free - (m.free_cells + 32) in
    (cell_size m n ≡ whole) ⊎ (cell_size m n + m.min_cell_size ≤ whole)

idle_grants :
    (s : Session) (n : ℕ)
    → IsSession s
    → s.live ≡ []
    → HasRoom s.manager n
    → n < 4611686018427387904
    → (p : ℕ) × (m' : MemoryManager) × (allocate s.manager n ≡ some (p, m')) × (p ≢ 0)
idle_grants s n (cs, fs, v, live, apart, as_many) idle room small =
    elim (one_free (s.manager.free_cells + 32) cs v.coalesced
      (omega (arith, as_many, ap length idle))) [
        | inl none ↦ absurd (
            ground (
              arith,
              room,
              Tiles-stop s.manager.cells s.manager.free_cells (s.manager.free_cells + 32) cs
                  s.manager.last_free v.tiles,
              ap (stop (s.manager.free_cells + 32)) none,
              cell_size_bounds s.manager n v.used_hdr v.min_cont small,
            ))
        | inr (k, one) ↦
            let (p, m', e, out) = allocate_lem s.manager cs fs v n small in
            elim out [
              | inl (_, _, none_fits) ↦ absurd (
                  ground (
                    arith,
                    room,
                    v.min_cell,
                    Tiles-stop s.manager.cells s.manager.free_cells (s.manager.free_cells + 32) cs
                        s.manager.last_free v.tiles,
                    ap (stop (s.manager.free_cells + 32)) one,
                    none_fits k [] [] one,
                    cell_size_bounds s.manager n v.used_hdr v.min_cont small,
                  ))
              | inr (c, ds, gs, at, carved, w, same_lo, same_hi) ↦
                  (p, m', e, λ z. absurd (omega (arith, at)))
            ]
      ]

module _ (h : Cells) (raw size : ℕ) (r : 0 < raw) (aligned : size % 8 ≡ 0) (enough : 216 ≤ size)
    (small : raw + size < 4611686018427387904) (m : MemoryManager)
    (new : new_memory_manager h raw size ≡ some m) (s : Session) (calls : Reach (opened m) s) where
  session : IsSession s
  session =
      let (m0, e, at, v) = new_memory_manager_lem h raw size r aligned enough small in
      let same : m0 ≡ m = ground (arith, e, new) in
      Reach-IsSession
        (
          free (size - 184) ∷ [],
          (raw + 152) ∷ [],
          subst (λ z. IsHeap z (free (size - 184) ∷ []) ((raw + 152) ∷ [])) same v,
          tt,
          tt,
          refl,
        )
        calls

  -- A fresh manager is made on at least 216 bytes of raw memory below 2^62, in number a multiple of 8.
  -- After any calls of it, allocations of less than 2^62 bytes, deallocations of regions in use and
  -- writes to the first two words of such regions, the regions in use do not overlap one another nor
  -- the headers before them, and lie in the block.
  pub regions_apart :
      AllApart s.live × AllInside (s.manager.free_cells + 32) s.manager.last_free s.live
  regions_apart =
      let (cs, fs, v, live, apart, as_many) = session in
      (
        apart,
        subst (λ z. AllInside (s.manager.free_cells + 32) z s.live)
            (Tiles-stop s.manager.cells s.manager.free_cells (s.manager.free_cells + 32) cs
              s.manager.last_free v.tiles)
            (AllLive-AllInside (s.manager.free_cells + 32) cs s.live live),
      )

  -- After any allocations of less than 2^62 bytes, deallocations of regions in use, and writes to the
  -- first two words of such regions, of a fresh manager on at least 216 bytes below 2^62, a multiple of
  -- 8: when everything has been given back, a request of less than 2^62 bytes is granted if its cell,
  -- header and rounding included, takes the whole block between the sentinels or leaves the size of a
  -- least cell of it.
  pub idle_allocates :
      (n : ℕ)
      → s.live ≡ []
      → HasRoom s.manager n
      → n < 4611686018427387904
      → (p : ℕ) × (m' : MemoryManager) × (allocate s.manager n ≡ some (p, m')) × (p ≢ 0)
  idle_allocates n idle room few = idle_grants s n session idle room few
