-- ===== src/Memory/Start.antt =====
-- `picoos_newMemoryManager` (pico/lib/picoos.c): the raw memory holds the manager, the block's header,
-- and between two sentinels one free cell.
use platform_external_svox.Common.{ℕ, ◌+◌, ◌-◌, ◌%◌, ◌≤◌, ◌<◌, ◌≡◌, refl, [], ◌∷◌, some, arith}
use platform_external_svox.Memory.{
  MemoryManager, Cells, raw_malloc, round_up, init_mem_block, bare_manager, new_memory_manager,
}
use platform_external_svox.Memory.Tiles.{free}
use platform_external_svox.Memory.Invariant.{IsHeap}

raw_malloc_lem :
    (raw size n : ℕ)
    → 0 < raw
    → 0 < n
    → n % 8 ≡ 0
    → n ≤ size
    → size < 4611686018427387904
    → raw_malloc raw size n ≡ some (raw, raw + n, size - n)
unfolding raw_malloc round_up
raw_malloc_lem raw size n r pos_n aligned le small = ground arith

unfoldable pub started : Cells → ℕ → ℕ → MemoryManager
unfolding init_mem_block bare_manager
started h raw size = init_mem_block (bare_manager h (raw + 96 + 24) (size - 96 - 24))

module _ (h : Cells) (raw size : ℕ) (r : 0 < raw) (aligned : size % 8 ≡ 0) (enough : 216 ≤ size)
    (small : raw + size < 4611686018427387904) where
  pub new-some : new_memory_manager h raw size ≡ some (started h raw size)
  unfolding new_memory_manager started
  new-some = rw (
    raw_malloc_lem raw size 96 r (omega arith) refl (omega arith) (omega arith),
    raw_malloc_lem (raw + 96) (size - 96) 24 (omega arith) (omega arith) refl (omega arith)
        (omega arith),
    new_memory_manager,
  )

  pub started-IsHeap : IsHeap (started h raw size) (free (size - 184) ∷ []) ((raw + 152) ∷ [])
  unfolding started init_mem_block bare_manager round_up
  started-IsHeap = record {
    full_hdr = refl;
    used_hdr = refl;
    min_cont = refl;
    min_cell = refl;
    start = omega arith;
    tiles = ((omega arith, omega arith), ground arith, ground arith, (omega arith, ground arith));
    low = ground arith;
    high = ground arith;
    coalesced = (refl, tt);
    links = (ground arith, ground arith, (ground arith, ground arith));
    tail = ground arith;
    same = λ x. ground arith;
    as_many = refl;
    total = refl;
    most = omega arith;
    inside = omega arith;
    small = omega arith;
  }

-- A fresh manager keeps the invariant: all but the headers is one free cell.
pub new_memory_manager_lem :
    (h : Cells) (raw size : ℕ)
    → 0 < raw
    → size % 8 ≡ 0
    → 216 ≤ size
    → raw + size < 4611686018427387904
    → (m : MemoryManager) × (new_memory_manager h raw size ≡ some m)
      × (m.free_cells ≡ raw + 120)
      × IsHeap m (free (size - 184) ∷ []) ((raw + 152) ∷ [])
unfolding started init_mem_block bare_manager
new_memory_manager_lem h raw size r aligned enough small = (
  started h raw size,
  new-some h raw size r aligned enough small,
  omega arith,
  started-IsHeap h raw size r aligned enough small,
)
