-- ===== src/DecisionTree.antt =====
-- The decision trees of pico/lib/picokdt.c: a tree is a string of bits, read through a cursor; a node
-- asks for one attribute of the input vector and leads to a node further on, or to a class. A read
-- behind the end of the knowledge base, which C leaves undefined, gives 0.
pub mod Bits
pub mod Asks
pub mod Ends
pub mod Groups
pub mod Input
pub mod Maps
pub mod Moves
pub mod Tests
use platform_external_svox.Common.{
  ℕ, zero, suc, ◌+◌, ◌-◌, ◌*◌, ◌/◌, ◌%◌, ◌^◌, Bool, true, false, not, ◌&&◌, ◌||◌, Option, none,
  some, List, ltb, leb, ◌==◌, if◌then◌else◌, get_or, ℤ, pos, negsuc, ltz, eqz, pos_part, ◌+ℤ◌, ◌-ℤ◌,
  from_word, to_word, to_u32, u16_mod, u32_mod, u8_mod,
}

-- `kdt_subobj_t`: the bytes of the knowledge base, and where its parts start in them, `none` for NULL.
pub record KdtSubobj : Type 0 where
  pub base : List ℕ
  pub inpmaptable : Option ℕ
  pub outmaptable : Option ℕ
  pub tree : Option ℕ
  pub beg_offset : List ℕ
  pub vfields : ℕ
  pub qfields : ℕ
  pub nrattributes : ℕ
  pub treebody : ℕ
  pub dset : Bool
  pub dclass : ℕ

-- `iByteNo` and `iBitNo`: a byte of the tree's body, and a bit of it, 7 being the first.
pub record Cursor : Type 0 where
  pub byte : ℕ
  pub bit : ℕ

abbrev pub body : KdtSubobj → ℕ → ℕ
body t b = get_or t.base (t.treebody + b) 0

abbrev pub inc32 : ℕ → ℕ
inc32 b = (b + 1) % u32_mod

abbrev pub to_i8 : ℤ → ℤ
to_i8 z = from_word u8_mod (to_word u8_mod z)

abbrev pub to_i32 : ℕ → ℤ
to_i32 n = from_word u32_mod n

pub kdt_jump : ℕ → Cursor → Cursor
kdt_jump jump c =
    let size = jump / 8 in
    let bit = jump - size * 8 + (7 - c.bit) in
    let byte = (c.byte + size) % u32_mod in
    if leb 8 bit
    then record { byte = inc32 byte; bit = 15 - bit }
    else record { byte = byte; bit = 7 - bit }

abbrev pub question : ℕ
question = 0

abbrev pub decide : ℕ
decide = 1

abbrev pub fork_count : ℕ
fork_count = 0

abbrev pub bit_no : ℕ
bit_no = 1

abbrev pub bit_count : ℕ
bit_count = 2

abbrev pub jump : ℕ
jump = 3

abbrev pub cut : ℕ
cut = 4

abbrev pub vfield : KdtSubobj → ℕ → ℕ
vfield t i = get_or t.base (t.vfields + i) 0

-- `kdtGetQFieldsVal`
abbrev pub get_q_fields_val : KdtSubobj → ℕ → ℕ → ℕ
get_q_fields_val t attind qind = get_or t.base (t.qfields + attind * 5 + qind) 0

-- The next bit, and the step to the one behind it.
abbrev pub bit_at : KdtSubobj → Cursor → ℕ
bit_at t c = body t c.byte / 2 ^ c.bit % 2

abbrev pub step : Cursor → Cursor
step c =
    if c.bit == 0
    then record { byte = inc32 c.byte; bit = 7 }
    else record { byte = c.byte; bit = c.bit - 1 }

-- Fewer than four bits are read one by one.
pub bits_loop : KdtSubobj → ℕ → Cursor → ℕ → ℕ × Cursor
bits_loop t zero c v = (v, c)
bits_loop t (suc i) c v = bits_loop t i (step c) (v + bit_at t c * 2 ^ i)

-- `iBitNo` is raised by 8 while it is negative. An `int8` is not below -16 * 8.
pub settle : ℕ → ℤ → ℕ → Cursor
settle zero z b = record { byte = b; bit = 0 }
settle (suc fuel) (pos j) b = record { byte = b; bit = j }
settle (suc fuel) (negsuc k) b = settle fuel (negsuc k +ℤ pos 8) (inc32 b)

-- The bytes behind the first one, up to eight bits of each.
pub bytes_loop : ℕ → KdtSubobj → ℕ → ℕ → ℕ → ℕ
bytes_loop zero t len b v = v
bytes_loop (suc fuel) t len b v =
    let j = if leb 8 len then 8 else len in
    let rest =
      bytes_loop fuel t (len - j) (inc32 b) (v * 2 ^ j % u32_mod + body t b / 2 ^ (8 - j)) in
    if len == 0 then v else rest

-- The low `j + 1` bits of the first byte, less those behind the field.
abbrev pub first_bits : ℕ → ℕ → ℕ → ℕ
first_bits x j size = x % 2 ^ (j + 1) / 2 ^ (j + 1 - size)

-- `kdtGetShiftVal`: the number in the next `size` bits.
pub get_shift_val : KdtSubobj → ℕ → Cursor → ℕ × Cursor
get_shift_val t size c = if ltb size 4 then bits_loop t size c 0 else (
  bytes_loop size t (size - (c.bit + 1)) (inc32 c.byte) (first_bits (body t c.byte) c.bit size),
  settle 17 (to_i8 (pos c.bit -ℤ pos size)) c.byte,
)

-- The class of an answer so far: the fork that was chosen, if one was.
abbrev pub is_fork : Option ℕ → ℕ → Bool
is_fork none i = false
is_fork (some k) i = k == i

abbrev pub chosen : Option ℕ → Bool
chosen none = false
chosen (some k) = true

module _ (t : KdtSubobj) (q val : ℕ) where
  abbrev pub field : ℕ → ℕ
  field qind = get_q_fields_val t q qind

  -- Once a fork is chosen, the subsets that follow are skipped.
  pub one_value : ℕ → Option ℕ → Cursor → Option ℕ × Cursor
  one_value i id c =
      if chosen id
      then (id, kdt_jump (field bit_no) c)
      else let (bit_pos, c) = get_shift_val t (field bit_no) c in
        (if eqz (pos val) (to_i32 bit_pos) then some i else id, c)

  pub two_values : ℕ → Option ℕ → Cursor → Option ℕ × Cursor
  two_values i id c =
      if chosen id
      then (id, kdt_jump (field bit_no + field bit_count) c)
      else let (bit_pos, c) = get_shift_val t (field bit_no) c in
        let (count, c) = get_shift_val t (field bit_count) c in
        (if eqz (pos val) (to_i32 bit_pos) || eqz (pos val) (to_i32 count) then some i else id, c)

  -- `iBitPos <= iVal && iVal < iBitPos + iBitCount`
  abbrev pub in_group : ℕ → ℕ → Bool
  in_group bit_pos count =
      not (ltz (pos val) (to_i32 bit_pos)) && ltz (pos val) (to_i32 bit_pos +ℤ to_i32 count)

  pub without_bit_mask : ℕ → Option ℕ → Cursor → Option ℕ × Cursor
  without_bit_mask i id c =
      if chosen id
      then (id, kdt_jump (field bit_no + field bit_count) c)
      else let (bit_pos, c) = get_shift_val t (field bit_no) c in
        let (count, c) = get_shift_val t (field bit_count) c in
        (if in_group bit_pos count then some i else id, c)

  -- The mask has one bit for each member of the group.
  abbrev pub read_mask : ℕ → Option ℕ → ℕ → ℕ → Cursor → Option ℕ × Cursor
  read_mask i id bit_pos count c =
      if in_group bit_pos count
      then (let offset = pos val -ℤ to_i32 bit_pos in
          let c1 = kdt_jump (to_u32 offset) c in
          (if bit_at t c1 == 1 then some i else id, kdt_jump (to_u32 (to_i32 count -ℤ offset)) c1))
      else (id, kdt_jump count c)

  pub bit_mask : ℕ → Option ℕ → Cursor → Option ℕ × Cursor
  bit_mask i id c =
      if chosen id
      then (let (count, c) = get_shift_val t (field bit_count) (kdt_jump (field bit_no) c) in
          (id, kdt_jump count c))
      else let (bit_pos, c) = get_shift_val t (field bit_no) c in
        let (count, c) = get_shift_val t (field bit_count) c in read_mask i id bit_pos count c

  -- `iSubsetType` has two bits.
  pub subset : ℕ → Option ℕ → Cursor → Option ℕ × Cursor
  subset i id c =
      let (type, c) = get_shift_val t 2 c in
      if type == 0
      then one_value i id c
      else if type == 1
      then two_values i id c
      else if type == 2
      then without_bit_mask i id c
      else bit_mask i id c

  pub subsets : ℕ → ℕ → Option ℕ → Cursor → Option ℕ × Cursor
  subsets zero i id c = (id, c)
  subsets (suc n) i id c = let (id, c) = subset i id c in subsets n (i + 1) id c

  -- The number of forks, the fork that the answer takes, and the cursor behind the question.
  pub terminal : Cursor → ℕ × Option ℕ × Cursor
  terminal c = (0, none, c)

  pub binary : Cursor → ℕ × Option ℕ × Cursor
  binary c = (2, some val, c)

  pub continuous : Cursor → ℕ × Option ℕ × Cursor
  continuous c =
      let (threshold, c) = get_shift_val t (field cut) c in
      (2, some (if ltz (to_i32 threshold) (pos val) then 1 else 0), c)

  -- A fork count that is negative as an `int32` makes no round.
  pub discrete : Cursor → ℕ × Option ℕ × Cursor
  discrete c =
      let (count, c) = get_shift_val t (field fork_count) c in
      let forks = pos_part (to_i32 count) in
      let (id, c) = subsets (forks - 1) 0 none c in
      (forks, if chosen id then id else if forks == 0 then none else some (forks - 1), c)

  pub node : ℕ → Cursor → ℕ × Option ℕ × Cursor
  node type c =
      if type == 0
      then terminal c
      else if type == 1
      then binary c
      else if type == 2
      then continuous c
      else discrete c

  -- The forks up to the chosen one. An answer is 1 to go on, 0 with a class, or -1.
  pub forks_loop : ℕ → ℕ → Option ℕ → Cursor → ℤ × Option ℕ × Cursor
  forks_loop zero i id c = (negsuc 0, none, c)
  forks_loop (suc n) i id c =
      let (is_decide, c1) = get_shift_val t 1 c in
      let size = if is_decide == 0 then field jump else vfield t decide in
      let rest = forks_loop n (i + 1) id (kdt_jump size c1) in
      if is_fork id i
      then (let (value, c2) = get_shift_val t size c1 in
          if is_decide == 0
          then (pos 1, none, kdt_jump value c2)
          else (pos 0, some (value % u16_mod), c2))
      else rest

-- `dset` and `dclass` of the tree after an answer.
abbrev pub with_class : KdtSubobj → Option ℕ → KdtSubobj
with_class t none = record t { dset = false }
with_class t (some k) = record t { dset = true; dclass = k }

-- `kdtAskTree`: the answer, the tree with its class, and the cursor.
pub ask_tree : KdtSubobj → List ℕ → ℕ → Cursor → ℤ × KdtSubobj × Cursor
ask_tree t invec invecmax c =
    let (type, c) = get_shift_val t 2 c in
    let (asked, c) = get_shift_val t (vfield t question) c in
    let q = asked % u8_mod in
    if ltb q t.nrattributes && ltb q invecmax
    then (let val = get_or invec q 0 in
        let (forks, id, c) = node t q val type c in
        let (rv, class, c) = forks_loop t q val forks 0 id c in (rv, with_class t class, c))
    else (negsuc 0, with_class t none, c)

-- The loop of the classify functions, `while ((rv = kdtAskTree(...)) > 0)`, from the first bit.
pub classify_loop : ℕ → KdtSubobj → List ℕ → ℕ → Cursor → Option (ℤ × KdtSubobj)
classify_loop zero t invec invecmax c = none
classify_loop (suc fuel) t invec invecmax c =
    let (rv, t, c) = ask_tree t invec invecmax c in
    let rest = classify_loop fuel t invec invecmax c in
    if ltz (pos 0) rv then rest else some (rv, t)

-- `picokdt_dtPosDclassify`, and those of the other trees: the class, if one was found.
pub classify : ℕ → KdtSubobj → List ℕ → ℕ → Option (Option ℕ × KdtSubobj)
classify fuel t invec invecmax =
    elim (classify_loop fuel t invec invecmax (record { byte = 0; bit = 7 })) [
      | none ↦ none
      | some (rv, t) ↦ some (if eqz rv (pos 0) && t.dset then some t.dclass else none, t)
    ]
