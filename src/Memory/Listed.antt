-- ===== src/Memory/Listed.antt =====
-- A cell in the list of free cells of pico/lib/picoos.c, and its neighbours there.
use platform_external_svox.Common.{ℕ, ◌+◌, ◌≤◌, ◌≡◌, ◌≢◌, List, [], ◌∷◌, ◌++◌, arith}
use platform_external_svox.Memory.{MemoryManager}
use platform_external_svox.Memory.Links.{
  count, count-append, count-last_of, count-first_of, Links-last, Links-first, Links-split, last_of,
  first_of,
}
use platform_external_svox.Memory.Tiles.{Cell}
use platform_external_svox.Memory.Invariant.{IsHeap, listed_once}

-- What the links of `c` hold, between the cells `xs` and `ys` of the list.
pub record IsListed (m : MemoryManager) (xs : List ℕ) (c : ℕ) (ys : List ℕ) : Type 0 where
  pub apart :
      (x : ℕ) → count x (m.free_cells ∷ xs) + count x (c ∷ ys) + count x (m.last_free ∷ []) ≤ 1
  pub prev_cell : m.cells.prev c ≡ last_of m.free_cells xs
  pub next_cell : m.cells.next c ≡ first_of ys m.last_free
  pub prev_ne : last_of m.free_cells xs ≢ c
  pub next_ne : first_of ys m.last_free ≢ c
  pub last_ne : last_of m.free_cells xs ≢ m.last_free

pub IsHeap-IsListed :
    (m : MemoryManager) (cs : List Cell) (xs : List ℕ) (c : ℕ) (ys : List ℕ)
    → IsHeap m cs (xs ++ c ∷ ys)
    → IsListed m xs c ys
IsHeap-IsListed m cs xs c ys v =
    let once : (x : ℕ)
        → count x (m.free_cells ∷ xs) + count x (c ∷ ys) + count x (m.last_free ∷ []) ≤ 1 =
      λ x. omega (arith, listed_once v x, count-append x xs (c ∷ ys)) in
    let links = Links-split m.cells m.free_cells xs c ys m.last_free v.links in
    record {
      apart = once;
      prev_cell = Links-last m.cells m.free_cells xs c links.0;
      next_cell = Links-first m.cells c ys m.last_free links.1;
      prev_ne = ground (arith, once c, count-last_of m.free_cells xs);
      next_ne =
          ground
            (arith, once c, count-first_of ys m.last_free, count-append c ys (m.last_free ∷ []));
      last_ne = ground (arith, once m.last_free, count-last_of m.free_cells xs);
    }
