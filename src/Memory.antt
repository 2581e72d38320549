-- ===== src/Memory.antt =====
-- The memory manager of pico/lib/picoos.c: one raw block is cut into cells, each with a header that
-- holds its size (negative while the cell is used), the address of the cell on its left, and two
-- links of the list of free cells. A header is a value at its address in four maps, one for each
-- field; the sizes of pointers, `size_t` and `ptrdiff_t` are those of a 64-bit build.
pub mod Links
pub mod Tiles
pub mod Search
pub mod Invariant
pub mod Listed
pub mod Carve
pub mod Allocate
pub mod Merge
pub mod Deallocate
pub mod Start
pub mod Regions
pub mod Client
mod Tests
use platform_external_svox.Common.{
  ℕ, zero, suc, ◌+◌, ◌-◌, ◌*◌, ◌/◌, ◌%◌, Bool, true, false, not, ◌||◌, Option, none, some, ltb,
  ◌==◌, if◌then◌else◌, ℤ, pos, ltz, eqz, pos_part, neg_part, sub_ℕ, ◌+ℤ◌, ◌-ℤ◌, from_word, to_word,
  u32_mod,
}

abbrev pub null : ℕ
null = 0

-- A `size_t` has 64 bits.
abbrev pub size_mod : ℕ
size_mod = 18446744073709551616

abbrev pub align_size : ℕ
align_size = 8

-- The sizes of the headers: the manager, a block, a cell, and a cell's first two fields.
abbrev pub manager_hdr : ℕ
manager_hdr = 96

abbrev pub block_hdr : ℕ
block_hdr = 24

abbrev pub cell_hdr : ℕ
cell_hdr = 32

-- The cast of a `size_t` to `ptrdiff_t`, and of a signed value to either.
abbrev pub to_ptrdiff : ℕ → ℤ
to_ptrdiff n = from_word size_mod (n % size_mod)

abbrev pub wrap_ptrdiff : ℤ → ℤ
wrap_ptrdiff z = from_word size_mod (to_word size_mod z)

abbrev pub to_i32 : ℤ → ℤ
to_i32 z = from_word u32_mod (to_word u32_mod z)

abbrev pub neg : ℤ → ℤ
neg z = sub_ℕ (neg_part z) (pos_part z)

-- An address that lies `z` bytes after `a`.
abbrev pub offset : ℕ → ℤ → ℕ
offset a z = a + pos_part z - neg_part z

-- A write to one field of the header at `a`.
abbrev pub put {ℓ} : {A : Type ℓ} → (ℕ → A) → ℕ → A → ℕ → A
put f a v x = if a == x then v else f x

-- `mem_cell_hdr_t`, at every address: `size`, `leftCell`, `prevFree`, `nextFree`.
pub record Cells : Type 0 where
  pub size : ℕ → ℤ
  pub left : ℕ → ℕ
  pub prev : ℕ → ℕ
  pub next : ℕ → ℕ

abbrev pub set_size : Cells → ℕ → ℤ → Cells
set_size h a v = record h { size = put h.size a v }

abbrev pub set_left : Cells → ℕ → ℕ → Cells
set_left h a v = record h { left = put h.left a v }

abbrev pub set_prev : Cells → ℕ → ℕ → Cells
set_prev h a v = record h { prev = put h.prev a v }

abbrev pub set_next : Cells → ℕ → ℕ → Cells
set_next h a v = record h { next = put h.next a v }

-- `memory_manager_t` with its one block, and the headers that it points to.
pub record MemoryManager : Type 0 where
  pub block_start : ℕ
  pub block_size : ℕ
  pub free_cells : ℕ
  pub last_free : ℕ
  pub full_cell_hdr_size : ℕ
  pub used_cell_hdr_size : ℕ
  pub min_cont_size : ℕ
  pub min_cell_size : ℕ
  pub used_size : ℤ
  pub prev_used_size : ℤ
  pub max_used_size : ℤ
  pub cells : Cells

-- A size rounded up to the alignment.
pub round_up : ℕ → ℕ
round_up n = (n + align_size - 1) % size_mod / align_size * align_size

-- `picoos_raw_malloc`: the region's address, and the rest of the raw memory with its size.
pub raw_malloc : ℕ → ℕ → ℕ → Option (ℕ × ℕ × ℕ)
unfolding round_up
raw_malloc raw_mem raw_mem_size alloc_size =
    if raw_mem == null
    then none
    else let aligned = round_up (if ltb alloc_size 1 then 1 else alloc_size) in
      let rest = wrap_ptrdiff (sub_ℕ raw_mem_size aligned) in
      if ltz rest (pos 0) then none else some (raw_mem, raw_mem + aligned, pos_part rest)

-- `os_init_mem_block` at the first block: two sentinels, and one free cell between them.
pub init_mem_block : MemoryManager → MemoryManager
init_mem_block m =
    let cbeg = m.block_start in
    let cmid = m.block_start + m.full_cell_hdr_size in
    let cend = m.block_start + m.block_size - m.full_cell_hdr_size in
    let h = set_left (set_size m.cells cbeg (pos 0)) cbeg null in
    let h = set_size h cmid (to_ptrdiff (m.block_size + 2 * size_mod - 2 * m.full_cell_hdr_size)) in
    let h = set_left h cmid cbeg in
    let h = set_left (set_size h cend (pos 0)) cend cmid in
    let h = set_prev (set_next h cbeg cmid) cbeg null in
    let h = set_prev (set_next h cmid cend) cmid cbeg in
    let h = set_prev (set_next h cend null) cend cmid in
    record m { free_cells = cbeg; last_free = cend; cells = h }

-- The state of `picoos_newMemoryManager` before its block is initialised.
pub bare_manager : Cells → ℕ → ℕ → MemoryManager
unfolding round_up
bare_manager h start size = record {
  block_start = start;
  block_size = size;
  free_cells = null;
  last_free = null;
  full_cell_hdr_size = round_up cell_hdr;
  used_cell_hdr_size = 16;
  min_cont_size = round_up cell_hdr - 16;
  min_cell_size = round_up cell_hdr + align_size;
  used_size = pos 0;
  prev_used_size = pos 0;
  max_used_size = pos 0;
  cells = h;
}

-- `picoos_newMemoryManager`, with the headers as they are in the raw memory.
pub new_memory_manager : Cells → ℕ → ℕ → Option MemoryManager
new_memory_manager h raw_memory size = elim (raw_malloc raw_memory size manager_hdr) [
  | none ↦ none
  | some (_, rest, rest_size) ↦ elim (raw_malloc rest rest_size block_hdr) [
    | none ↦ none
    | some (_, start, start_size) ↦ some (init_mem_block (bare_manager h start start_size))
  ]
]

-- `picoos_getMemUsage`: the bytes used, those since the last reset, and the most so far.
pub get_mem_usage : MemoryManager → Bool → (ℤ × ℤ × ℤ) × MemoryManager
get_mem_usage m reset = (
  (to_i32 m.used_size, to_i32 (m.used_size -ℤ m.prev_used_size), to_i32 m.max_used_size),
  if reset then record m { prev_used_size = m.used_size } else m,
)

-- The size of a cell with room for `byte_size` bytes.
pub cell_size : MemoryManager → ℕ → ℕ
unfolding round_up
cell_size m byte_size =
    (round_up (if ltb byte_size m.min_cont_size then m.min_cont_size else byte_size)
      + m.used_cell_hdr_size)
    % size_mod

-- The test that ends the search: no cell, an exact fit, or room for a cell that remains.
abbrev pub found : Cells → ℕ → ℕ → ℕ → Bool
found h want least c =
    c == null
    || eqz (h.size c) (to_ptrdiff want)
    || not (ltz (h.size c) (to_ptrdiff (want + least)))

-- The search along the free list; `none` means that the fuel ran out.
pub first_fit : ℕ → Cells → ℕ → ℕ → ℕ → Option ℕ
first_fit zero h want least c = none
first_fit (suc fuel) h want least c =
    let rest = first_fit fuel h want least (h.next c) in
    if found h want least c then some c else rest

-- An exact fit leaves the free list.
pub unlink : Cells → ℕ → Cells
unlink h c = let h = set_next h (h.prev c) (h.next c) in set_prev h (h.next c) (h.prev c)

-- A larger cell is split: the rest takes its place in the free list.
pub split : Cells → ℕ → ℕ → Cells
split h c want =
    let c2 = c + want in
    let h = set_size h c2 (wrap_ptrdiff (h.size c -ℤ pos want)) in
    let h = set_size h c (to_ptrdiff want) in
    let h = set_left h c2 c in
    let h = set_left h (offset c2 (h.size c2)) c2 in
    let h = set_next h c2 (h.next c) in
    let h = set_prev h (h.next c2) c2 in
    let h = set_prev h c2 (h.prev c) in set_next h (h.prev c2) c2

-- The cell is marked as used and counted.
pub take_cell : MemoryManager → Cells → ℕ → ℕ → ℕ × MemoryManager
take_cell m h c want =
    let used = m.used_size +ℤ pos want in
    (
      c + m.used_cell_hdr_size,
      record m {
        used_size = used;
        max_used_size = if ltz m.max_used_size used then used else m.max_used_size;
        cells = set_size h c (neg (h.size c));
      },
    )

pub place : MemoryManager → ℕ → ℕ → ℕ × MemoryManager
place m want c =
    if c == null
    then (null, m)
    else if eqz (m.cells.size c) (to_ptrdiff want)
    then take_cell m (unlink m.cells c) c want
    else take_cell m (split m.cells c want) c want

-- `picoos_allocate`: the address of the contents, 0 where no cell fits. No list of free cells is
-- longer than the block has bytes, which is the fuel.
pub allocate : MemoryManager → ℕ → Option (ℕ × MemoryManager)
allocate m byte_size =
    let want = cell_size m byte_size in
    elim (first_fit (suc m.block_size) m.cells want m.min_cell_size (m.cells.next m.free_cells)) [
      | none ↦ none
      | some c ↦ some (place m want c)
    ]

-- A cell between two free ones: the left one takes all three, and the right one leaves the list.
pub merge_both : Cells → ℕ → ℕ → ℕ → Cells
merge_both h cl c cr =
    let h = set_left h (offset cr (h.size cr)) cl in
    let h = set_size h cl ((h.size cl +ℤ h.size c) +ℤ h.size cr) in
    let h = set_prev h (h.next cr) (h.prev cr) in set_next h (h.prev cr) (h.next cr)

pub merge_left : Cells → ℕ → ℕ → ℕ → Cells
merge_left h cl c cr = set_left (set_size h cl (h.size cl +ℤ h.size c)) cr cl

pub merge_right : Cells → ℕ → ℕ → Cells
merge_right h c cr =
    let h = set_left h (offset cr (h.size cr)) c in
    let h = set_size h c (h.size c +ℤ h.size cr) in
    let h = set_next h c (h.next cr) in
    let h = set_prev h c (h.prev cr) in let h = set_prev h (h.next c) c in set_next h (h.prev c) c

-- A cell between two used ones goes to the front of the free list.
pub push_front : Cells → ℕ → ℕ → Cells
push_front h free_cells c =
    let h = set_next h c (h.next free_cells) in
    let h = set_prev h c free_cells in let h = set_prev h (h.next c) c in set_next h (h.prev c) c

pub coalesce : Cells → ℕ → ℕ → Cells
coalesce h free_cells c =
    let cr = offset c (h.size c) in
    let cl = h.left c in
    if ltz (pos 0) (h.size cl)
    then (if ltz (pos 0) (h.size cr) then merge_both h cl c cr else merge_left h cl c cr)
    else if ltz (pos 0) (h.size cr)
    then merge_right h c cr
    else push_front h free_cells c

-- `picoos_deallocate`. It also sets the caller's pointer to 0.
pub deallocate : MemoryManager → ℕ → MemoryManager
deallocate m adr =
    if adr == null
    then m
    else let c = adr - m.used_cell_hdr_size in
      let h = set_size m.cells c (neg (m.cells.size c)) in
      record m { used_size = m.used_size -ℤ h.size c; cells = coalesce h m.free_cells c }
