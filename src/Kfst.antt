-- ===== src/Kfst.antt =====
-- The finite-state transducer knowledge base of pico/lib/picokfst.c: numbers in its byte stream,
-- its header, and the queries on it. The stream is the list of its bytes, fewer than 2 ^ 32. A
-- read behind its end, which C leaves undefined, gives `none` and makes a query find nothing.
pub mod Numbers
pub mod Search
pub mod Table
mod Tests
use platform_external_svox.Common.{
  ◌>>=◌, ℕ, zero, suc, ◌+◌, ◌-◌, ◌*◌, ◌/◌, ◌%◌, Bool, true, false, ◌||◌, ◌&&◌, not, Option, none,
  some, List, [], ◌∷◌, ltb, leb, ◌==◌, if◌then◌else◌, drop, length, u32_mod, ℤ, pos, negsuc, ◌+ℤ◌,
  ◌-ℤ◌, ltz, eqz, pos_part, neg_part, to_i16, to_u32,
}

-- `FixedBytesToUnsignedNum`: `nrBytes` bytes, the most significant first, from `*pos` on; the number
-- and the new `*pos`. The bytes from `*pos` on are the list.
pub fixed_loop : ℕ → List ℕ → ℕ → ℕ → Option (ℕ × ℕ)
fixed_loop zero bytes p num = some (num, p)
fixed_loop (suc n) [] p num = none
fixed_loop (suc n) (b ∷ bytes) p num = fixed_loop n bytes (p + 1) ((num * 256 + b) % u32_mod)

pub fixed_bytes_to_unsigned_num : List ℕ → ℕ → ℕ → Option (ℕ × ℕ)
fixed_bytes_to_unsigned_num stream nr_bytes p = fixed_loop nr_bytes (drop p stream) p 0

-- The sign is the last bit: `(val % 2 == 1) ? -((val - 1) / 2) - 1 : val / 2`.
abbrev pub signed_val : ℕ → ℤ
signed_val val = if val % 2 == 1 then negsuc ((val - 1) / 2) else pos (val / 2)

-- `FixedBytesToSignedNum`
pub fixed_bytes_to_signed_num : List ℕ → ℕ → ℕ → Option (ℤ × ℕ)
fixed_bytes_to_signed_num stream nr_bytes p = do
  r ← fixed_loop nr_bytes (drop p stream) p 0
  some (signed_val r.0, r.1)

-- The loop of `BytesToNum`: seven bits a byte, the last byte marked by its high bit.
pub num_loop : List ℕ → ℕ → ℕ → Option (ℕ × ℕ)
num_loop [] p val = none
num_loop (b ∷ bytes) p val =
    if ltb b 128
    then num_loop bytes (p + 1) ((val * 128 + b) % u32_mod)
    else some ((val * 128 + (b - 128)) % u32_mod, p + 1)

-- `BytesToNum`
pub bytes_to_num : List ℕ → ℕ → Option (ℤ × ℕ)
bytes_to_num stream p = do r ← num_loop (drop p stream) p 0; some (signed_val r.0, r.1)

-- `kfst_subobj_t`
pub record Kfst : Type 0 where
  pub fst_stream : List ℕ
  pub transduction_mode : ℤ
  pub nr_classes : ℤ
  pub nr_states : ℤ
  pub term_class : ℤ
  pub alpha_hash_tab_size : ℤ
  pub alpha_hash_tab_pos : ℤ
  pub trans_tab_entry_size : ℤ
  pub trans_tab_pos : ℤ
  pub in_eps_state_tab_pos : ℤ
  pub acc_state_tab_pos : ℤ

-- FileHdrSize, the value of `hdrLen`
abbrev pub hdr_len : ℕ
hdr_len = 4

-- `kfstInitialize` of a knowledge base that is there
pub kfst_initialize : List ℕ → Option Kfst
kfst_initialize base = do
  (mode, p) ← bytes_to_num base hdr_len
  (classes, p) ← bytes_to_num base p
  (states, p) ← bytes_to_num base p
  (term, p) ← bytes_to_num base p
  (hash_size, p) ← bytes_to_num base p
  (hash_offs, p) ← bytes_to_num base p
  (entry_size, p) ← bytes_to_num base p
  (trans_offs, p) ← bytes_to_num base p
  (eps_offs, p) ← bytes_to_num base p
  (acc_offs, p) ← bytes_to_num base p
  some (record {
    fst_stream = base;
    transduction_mode = mode;
    nr_classes = classes;
    nr_states = states;
    term_class = term;
    alpha_hash_tab_size = hash_size;
    alpha_hash_tab_pos = pos hdr_len +ℤ hash_offs;
    trans_tab_entry_size = entry_size;
    trans_tab_pos = pos hdr_len +ℤ trans_offs;
    in_eps_state_tab_pos = pos hdr_len +ℤ eps_offs;
    acc_state_tab_pos = pos hdr_len +ℤ acc_offs;
  })

-- PICOKFST_SYMID_EPS and PICOKFST_SYMID_ILLEG
abbrev pub symid_eps : ℤ
symid_eps = pos 0

abbrev pub symid_illeg : ℤ
symid_illeg = negsuc 0

-- The chain of `picokfst_kfstStartPairSearch`, from a cell on: the position behind the cell of the
-- symbol looked for. Every link leads forward, so as many rounds as the stream has bytes suffice.
pub pair_chain : ℕ → List ℕ → ℤ → ℕ → Option ℕ
pair_chain zero stream in_sym cell = none
pair_chain (suc fuel) stream in_sym cell = bytes_to_num stream cell >>= λ x.
    bytes_to_num stream x.1 >>= λ o.
    let rest = pair_chain fuel stream in_sym (to_u32 (pos cell +ℤ o.0)) in
    if eqz x.0 in_sym then some o.1 else if ltz (pos 0) o.0 then rest else none

-- `h * 4` for `h = inSym % alphaHashTabSize`: the remainder has the sign of the symbol.
abbrev pub hash_offs : ℤ → ℕ → ℤ
hash_offs (pos n) size = pos (n % size * 4)
hash_offs (negsuc n) size = pos 0 -ℤ pos (suc n % size * 4)

-- `picokfst_kfstStartPairSearch`: the new `*searchState`, -1 where the symbol is not found. With a hash
-- table of size 0 the code divides by zero; the remainder is the symbol itself here.
pub start_pair_search : Kfst → ℤ → ℤ
start_pair_search fst in_sym =
    elim (fixed_bytes_to_signed_num fst.fst_stream 4 (
      to_u32 (
        fst.alpha_hash_tab_pos
        +ℤ hash_offs in_sym
            (pos_part fst.alpha_hash_tab_size + neg_part fst.alpha_hash_tab_size)))) [
              | none ↦ negsuc 0
              | some (offs, p) ↦
                  if ltz (pos 0) offs
                  then elim (pair_chain (suc (length fst.fst_stream)) fst.fst_stream in_sym
                      (to_u32 (fst.alpha_hash_tab_pos +ℤ offs))) [
                        | none ↦ negsuc 0
                        | some q ↦ pos q
                      ]
                  else negsuc 0
            ]

-- What an enumeration finds: the output symbol, a class or an end state, and the new search state.
pub record Found : Type 0 where
  pub out_sym : ℤ
  pub target : ℤ
  pub search_state : ℤ

-- A symbol and, if it is not the illegal one that ends a list, the number behind it; `none` ends
-- the search, and the search state becomes -1.
pub next_entry : List ℕ → ℤ → Option Found
next_entry stream (negsuc n) = none
next_entry stream (pos p) = do
  (val, q) ← bytes_to_num stream p
  (if eqz (to_i16 val) symid_illeg then none else do
    (val', q') ← bytes_to_num stream q
    some (record { out_sym = to_i16 val; target = to_i16 val'; search_state = pos q' }))

-- `picokfst_kfstGetNextPair` and `picokfst_kfstGetNextInEpsTrans`
pub get_next_pair : Kfst → ℤ → Option Found
get_next_pair fst search_state = next_entry fst.fst_stream search_state

pub get_next_in_eps_trans : Kfst → ℤ → Option Found
get_next_in_eps_trans fst search_state = next_entry fst.fst_stream search_state

-- `picokfst_kfstGetTrans`: the end state, 0 if there is none. States and classes in range are
-- positive; the entry size goes into a `picoos_uint8`, the state read into a `picoos_int16`.
pub get_trans : Kfst → ℤ → ℤ → ℤ
get_trans fst (pos (suc s)) (pos (suc c)) =
    if ltz fst.nr_states (pos (suc s)) || ltz fst.nr_classes (pos (suc c))
    then pos 0
    else elim (fixed_bytes_to_unsigned_num fst.fst_stream (to_u32 fst.trans_tab_entry_size % 256) (
        to_u32 (
          fst.trans_tab_pos
          +ℤ pos ((s * to_u32 fst.nr_classes + c) * to_u32 fst.trans_tab_entry_size)))) [
            | none ↦ pos 0
            | some (x, q) ↦ to_i16 (pos x)
          ]
get_trans fst s c = pos 0

-- `picokfst_kfstStartInEpsTransSearch`: the new `*searchState`
pub start_in_eps_trans_search : Kfst → ℤ → ℤ
start_in_eps_trans_search fst (pos (suc s)) =
    if ltz fst.nr_states (pos (suc s))
    then negsuc 0
    else elim (fixed_bytes_to_signed_num fst.fst_stream 4
        (to_u32 (fst.in_eps_state_tab_pos +ℤ pos (s * 4)))) [
          | none ↦ negsuc 0
          | some (offs, q) ↦ if ltz (pos 0) offs then fst.in_eps_state_tab_pos +ℤ offs else negsuc 0
        ]
start_in_eps_trans_search fst s = negsuc 0

-- `picokfst_kfstIsAcceptingState`
pub is_accepting_state : Kfst → ℤ → Bool
is_accepting_state fst (pos (suc s)) =
    if ltz fst.nr_states (pos (suc s))
    then false
    else elim (fixed_bytes_to_unsigned_num fst.fst_stream 1
        (to_u32 (fst.acc_state_tab_pos +ℤ pos s))) [ none ↦ false | some (x, q) ↦ x == 1 ]
is_accepting_state fst s = false
