-- ===== src/Memory/Tests.antt =====
-- The memory manager of pico/lib/picoos.c on a block of 296 bytes.
use platform_external_svox.Common.{
  inr, ℕ, ◌+◌, ◌≡◌, ◌≢◌, refl, some, none, Option, [], ◌∷◌, arith, pos, ◌-ℤ◌,
}
use platform_external_svox.Memory.{
  Cells, MemoryManager, allocate, deallocate, coalesce, first_fit, place, take_cell, unlink, split,
  cell_size, round_up, init_mem_block, bare_manager, new_memory_manager,
}
use platform_external_svox.Memory.Tiles.{free, used}
use platform_external_svox.Memory.Invariant.{IsHeap}
use platform_external_svox.Memory.Start.{started, started-IsHeap, new-some, new_memory_manager_lem}
use platform_external_svox.Memory.Carve.{split-IsHeap}
use platform_external_svox.Memory.Allocate.{Allocates, allocate_lem}
use platform_external_svox.Memory.Deallocate.{Releases, deallocate_lem}
use platform_external_svox.Memory.Client.{
  Session, Step, allocated, released, Reach, here, next, AllApart, IsSession,
}
use platform_external_svox.Memory.Client.Safe.{
  HasRoom, opened, AllInside, regions_apart, idle_allocates, Step-IsSession,
}

abbrev blank : Cells
blank = record { size = λ a. pos 0; left = λ a. 0; prev = λ a. 0; next = λ a. 0 }

abbrev fresh : MemoryManager
unfolding started
fresh = started blank 1000 416

fresh-IsHeap : IsHeap fresh (free 232 ∷ []) (1152 ∷ [])
unfolding fresh
fresh-IsHeap = started-IsHeap blank 1000 416 (omega arith) refl (omega arith) (omega arith)

abbrev state_of : Option (ℕ × MemoryManager) → MemoryManager
state_of none = fresh
state_of (some (p, m)) = m

abbrev address_of : Option (ℕ × MemoryManager) → ℕ
address_of none = 0
address_of (some (p, m)) = p

-- After one call for 100 bytes.
abbrev busy : MemoryManager
unfolding fresh allocate cell_size round_up first_fit place take_cell unlink split init_mem_block
    bare_manager
busy = state_of (allocate fresh 100)

fresh_allocates : allocate fresh 100 ≡ some (1168, busy)
unfolding busy
fresh_allocates = refl

fresh_grants_aligned : address_of (allocate fresh 100) ≡ 1168
unfolding busy
fresh_grants_aligned = refl

fresh_grants_whole : address_of (allocate fresh 216) ≡ 1168
unfolding fresh allocate cell_size round_up first_fit place take_cell unlink split init_mem_block
    bare_manager
fresh_grants_whole = refl

-- More than the block has room for.
fresh_refuses_more : address_of (allocate fresh 217) ≡ 0
unfolding fresh allocate cell_size round_up first_fit place take_cell unlink split init_mem_block
    bare_manager
fresh_refuses_more = refl

-- The size that a request near the top of `size_t` wraps to holds no whole header.
huge_wraps : cell_size fresh 18446744073709551609 ≡ 16
unfolding cell_size round_up fresh
huge_wraps = refl

allocate_lem_example : Allocates fresh (free 232 ∷ []) 100 (allocate fresh 100)
allocate_lem_example = allocate_lem fresh (free 232 ∷ []) (1152 ∷ []) fresh-IsHeap 100 (omega arith)

new_memory_manager_lem_example :
    (m : MemoryManager) × (new_memory_manager blank 1000 416 ≡ some m)
    × (m.free_cells ≡ 1120)
    × IsHeap m (free 232 ∷ []) (1152 ∷ [])
new_memory_manager_lem_example =
    new_memory_manager_lem blank 1000 416 (omega arith) refl (omega arith) (omega arith)

busy-IsHeap : IsHeap busy (used 120 ∷ free 112 ∷ []) (1272 ∷ [])
unfolding busy
busy-IsHeap = split-IsHeap fresh [] [] 232 [] [] fresh-IsHeap 120 (omega arith) refl (omega arith)

-- The cell goes back, and is one with the free cell behind it.
deallocate_lem_example : Releases busy (used 120 ∷ free 112 ∷ []) 1152
unfolding busy
deallocate_lem_example =
    deallocate_lem busy (used 120 ∷ free 112 ∷ []) (1272 ∷ []) 1152 busy-IsHeap (omega arith)

abbrev first_call : Session
first_call = record { manager = busy; live = (1168, 100) ∷ [] }

fresh-Step : Step (opened fresh) first_call
fresh-Step = allocated (opened fresh) 100 1168 busy (omega arith) fresh_allocates (omega arith)

fresh-IsSession : IsSession (opened fresh)
fresh-IsSession = (free 232 ∷ [], 1152 ∷ [], fresh-IsHeap, tt, tt, refl)

Step-IsSession_example : IsSession first_call
Step-IsSession_example = Step-IsSession fresh-Step fresh-IsSession

abbrev busier : MemoryManager
unfolding busy
busier = state_of (allocate busy 20)

abbrev second_call : Session
second_call = record { manager = busier; live = (1288, 20) ∷ (1168, 100) ∷ [] }

busy_allocates : allocate busy 20 ≡ some (1288, busier)
unfolding busier ◌-ℤ◌
busy_allocates = refl

fresh_new : new_memory_manager blank 1000 416 ≡ some fresh
unfolding fresh new_memory_manager
fresh_new = new-some blank 1000 416 (omega arith) refl (omega arith) (omega arith)

fresh-Reach : Reach (opened fresh) second_call
fresh-Reach =
    next (next here fresh-Step)
      (allocated first_call 20 1288 busier (omega arith) busy_allocates (omega arith))

regions_apart_example :
    AllApart second_call.live × AllInside (busier.free_cells + 32) busier.last_free second_call.live
regions_apart_example =
    regions_apart blank 1000 416 (omega arith) refl (omega arith) (omega arith) fresh fresh_new
      second_call fresh-Reach

abbrev given_up : Session
given_up = record { manager = deallocate busy 1168; live = [] }

given_up-Reach : Reach (opened fresh) given_up
given_up-Reach = next (next here fresh-Step) (released first_call [] 1168 100 [] refl)

given_up_room : HasRoom (deallocate busy 1168) 100
unfolding busy deallocate coalesce cell_size round_up
given_up_room = inr (omega arith)

idle_allocates_example :
    (p : ℕ) × (m : MemoryManager) × (allocate (deallocate busy 1168) 100 ≡ some (p, m)) × (p ≢ 0)
idle_allocates_example =
    idle_allocates blank 1000 416 (omega arith) refl (omega arith) (omega arith) fresh fresh_new
      given_up given_up-Reach 100 refl given_up_room (omega arith)
