-- ===== src/DecisionTree/Maps.antt =====
-- How a knowledge base becomes a tree in pico/lib/picokdt.c, and the maps between the values of the
-- callers and those of the tree. A table starts with the number of its maps; a map has its length in
-- two bytes, its type, its number of values in two bytes, and the values. A read behind the end of the
-- knowledge base or through NULL, which C leaves undefined, gives 0 or reads at 0; a write behind the
-- end of `beg_offset` is left out.
pub mod RoundTrip
pub mod Tests
pub mod Loaded
use platform_external_svox.Common.{
  ℕ, zero, suc, ◌+◌, ◌-◌, ◌*◌, ◌%◌, Bool, true, false, not, ◌&&◌, ◌||◌, Option, none, some, List,
  [], ◌∷◌, ltb, leb, ◌==◌, if◌then◌else◌, get_or, set, u16_mod, u32_mod, u8_mod,
}
use platform_external_svox.Status.{Status, ok, exc_file_corrupt, is_ok}
use platform_external_svox.Exceptions.{ExceptionManager, em_raise_exception}
use platform_external_svox.Strings.{read_mem_pi_uint16}
use platform_external_svox.DecisionTree.{KdtSubobj}

-- Two bytes, the low one first.
abbrev pub word_at : List ℕ → ℕ → ℕ
word_at mem p = get_or mem (p + 1) 0 * 256 + get_or mem p 0

-- `kdt_mttype_t`
abbrev pub mt_empty : ℕ
mt_empty = 0

abbrev pub mt_byte : ℕ
mt_byte = 1

abbrev pub mt_word : ℕ
mt_word = 2

abbrev pub mt_byte_to_var : ℕ
mt_byte_to_var = 4

-- `beg_offset`: where the input maps start in their table.
pub offsets_loop : ℕ → List ℕ → ℕ → ℕ → ℕ → List ℕ → List ℕ
offsets_loop zero mem m i p offsets = offsets
offsets_loop (suc n) mem m i p offsets =
    let next = (p + word_at mem (m + p)) % u32_mod in
    offsets_loop n mem m (i + 1) next (set offsets (i + 1) next)

pub raise_corrupt : ExceptionManager → KdtSubobj → Status × KdtSubobj × ExceptionManager
raise_corrupt em t = let (em, status) = em_raise_exception em exc_file_corrupt [] in (status, t, em)

-- The part of `kdtDtInitialize` behind the output map.
pub init_tree : KdtSubobj → ℕ → ExceptionManager → Status × KdtSubobj × ExceptionManager
init_tree t tree em =
    let nratts = get_or t.base (tree + 3) 0 in
    let t1 = record t {
      vfields = tree + 1;
      qfields = tree + 2 + 3;
      nrattributes = nratts;
      treebody = tree + 2 + 3 + 4 + nratts * 5;
    } in
    if not (2 == get_or t.base tree 0) || not (5 == get_or t.base (tree + 4) 0)
    then raise_corrupt em t1
    else (ok, record t1 { dset = false; dclass = 0 }, em)

-- An output map whose length is 3 has no values.
abbrev pub is_empty_map : List ℕ → ℕ → Bool
is_empty_map mem out = (get_or mem (out + 1) 0 == 3) && (get_or mem (out + 2) 0 == 0)

-- `kdtDtInitialize`
pub dt_initialize : KdtSubobj → ExceptionManager → Status × KdtSubobj × ExceptionManager
dt_initialize t em =
    let (inppos, p1) = read_mem_pi_uint16 t.base 0 in
    let (outpos, p2) = read_mem_pi_uint16 t.base p1 in
    let (treepos, p3) = read_mem_pi_uint16 t.base p2 in
    if not (inppos == 0) && not (outpos == 0) && not (treepos == 0)
    then (let t1 = record t {
      inpmaptable = some inppos;
      outmaptable = some outpos;
      tree = some treepos;
      beg_offset = offsets_loop (get_or t.base inppos 0) t.base inppos 0 1 (set t.beg_offset 0 1);
    } in
        if not (get_or t.base outpos 0 == 1)
        then raise_corrupt em t1
        else if is_empty_map t.base outpos
        then (if get_or t.base (outpos + 3) 0 == mt_empty
            then init_tree (record t1 { outmaptable = none }) treepos em
            else raise_corrupt em t1)
        else init_tree t1 treepos em)
    else raise_corrupt em (record t { inpmaptable = none; outmaptable = none; tree = none })

-- The test of `kdtDtCheck` on the two tables.
abbrev pub has_maps : List ℕ → Option ℕ → Option ℕ → ℕ → ℕ → ℕ → Bool
has_maps mem none out nrinpmt nroutmt mttype = false
has_maps mem (some inp) none nrinpmt nroutmt mttype = false
has_maps mem (some inp) (some out) nrinpmt nroutmt mttype =
    (get_or mem inp 0 == nrinpmt)
    && (get_or mem out 0 == nroutmt)
    && (get_or mem (out + 3) 0 == mttype)

-- `kdtDtCheck`
pub dt_check : KdtSubobj → ℕ → ℕ → ℕ → ℕ → ExceptionManager → Status × ExceptionManager
dt_check t nratt nrinpmt nroutmt mttype em =
    if (nratt == t.nrattributes)
      && has_maps t.base t.inpmaptable t.outmaptable nrinpmt nroutmt mttype
    then (ok, em)
    else let (em, status) = em_raise_exception em exc_file_corrupt [] in (status, em)

-- `kdtposp_subobj_t`, and those of the other trees: the tree and its input vector.
pub record Tree : Type 0 where
  pub dt : KdtSubobj
  pub invec : List ℕ
  pub inveclen : ℕ

pub clear_loop : ℕ → ℕ → List ℕ → List ℕ
clear_loop zero i invec = invec
clear_loop (suc n) i invec = clear_loop n (i + 1) (set invec i 0)

-- `kdtPosPInitialize`, and those of the other trees, for an object that is not NULL
pub tree_initialize : Tree → ℕ → ℕ → ℕ → ℕ → ExceptionManager → Status × Tree × ExceptionManager
tree_initialize this nratt nrinpmt nroutmt mttype em =
    let (status, t, em) = dt_initialize this.dt em in
    if is_ok status
    then (let (status, em) = dt_check t nratt nrinpmt nroutmt mttype em in
        if is_ok status
        then (ok, record { dt = t; invec = clear_loop nratt 0 this.invec; inveclen = 0 }, em)
        else (status, record this { dt = t }, em))
    else (status, record this { dt = t }, em)

abbrev pub table_pos : Option ℕ → ℕ
table_pos none = 0
table_pos (some m) = m

-- The value at `p` of a map with values of one or two bytes.
abbrev pub entry : List ℕ → ℕ → ℕ → ℕ
entry mem size p = if size == 1 then get_or mem p 0 else word_at mem p

-- The index of the first value that is `inval`.
unfoldable pub find_loop : ℕ → List ℕ → ℕ → ℕ → ℕ → ℕ → ℕ → ℕ → Option ℕ
find_loop zero mem m size inval bound i p = none
find_loop (suc n) mem m size inval bound i p =
    let later = find_loop n mem m size inval bound (i + 1) (p + size) in
    if ltb p bound then (if inval == entry mem size (m + p) then some i else later) else none

abbrev pub found : Option ℕ → ℕ → Bool × ℕ × ℕ
found none fallback = (false, 0, fallback)
found (some i) fallback = (true, i, fallback)

-- The search in the map at `p`, of values of `size` bytes: whether it was found, its index, and the
-- fallback value. The bound is a `picoos_uint16`, and one less for words.
unfoldable pub find_value : List ℕ → ℕ → ℕ → ℕ → ℕ → Bool × ℕ × ℕ
find_value mem m p size inval =
    let bound = (p + word_at mem (m + p)) % u16_mod in
    let fallback = word_at mem (m + p + 3) in
    found
      (find_loop fallback mem m size inval (if size == 1 then bound else (bound + 65535) % u16_mod)
        0 (p + 5))
      fallback

-- `kdtMapInFixed`
unfoldable pub map_in_fixed : KdtSubobj → ℕ → ℕ → Bool × ℕ × ℕ
map_in_fixed t imtnr inval =
    let m = table_pos t.inpmaptable in
    let p = if ltb 0 imtnr then get_or t.beg_offset imtnr 0 else 1 in
    let type = get_or t.base (m + p + 2) 0 in
    if leb (get_or t.base m 0) imtnr
    then (false, 0, 0)
    else if type == mt_empty
    then (true, inval, 0)
    else if (type == mt_byte) || (type == mt_word)
    then find_value t.base m p type inval
    else (false, 0, 0)

-- `kdtMapOutFixed`: whether there is a value, and the value if one is written.
unfoldable pub map_out_fixed : KdtSubobj → ℕ → Bool × Option ℕ
map_out_fixed t inval =
    let m = table_pos t.outmaptable in
    let type = get_or t.base (m + 3) 0 in
    if type == mt_empty
    then (true, some inval)
    else if (type == mt_byte) || (type == mt_word)
    then (if ltb inval (word_at t.base (m + 4))
        then (true, some (entry t.base type (m + 6 + type * inval)))
        else (false, some 0))
    else (false, none)

-- `kdtReverseMapOutFixed`
unfoldable pub reverse_map_out_fixed : KdtSubobj → ℕ → Bool × ℕ × ℕ
reverse_map_out_fixed t inval =
    let m = table_pos t.outmaptable in
    let type = get_or t.base (m + 3) 0 in
    elim t.outmaptable [
      | none ↦ (true, inval, 0)
      | some _ ↦
          if not (get_or t.base m 0 == 1)
          then (false, 0, 0)
          else if (type == mt_byte) || (type == mt_word)
          then find_value t.base m 1 type inval
          else (false, 0, 0)
    ]
