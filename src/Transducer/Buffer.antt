-- ===== src/Transducer/Buffer.antt =====
-- The symbol buffer of picotrns_SimpleTransducer, pico/lib/picotrns.c: filled with the characters of
-- strings, transduced, and read out as bytes. The buffer is the list of the first `possymWritePos`
-- elements of `possymBuf`; the other array is scratch.
pub mod Strings
pub mod Filter
use platform_external_svox.Common.{
  ◌>>=◌, ℕ, zero, suc, ◌+◌, ◌*◌, ◌/◌, ◌%◌, ◌<◌, ◌≤◌, ◌≡◌, ◌⊎◌, inl, inr, refl, ap, sym, ◌∙◌, subst,
  Bool, true, false, ◌||◌, Option, some, none, List, [], ◌∷◌, ◌++◌, length, take, drop, ltb, leb,
  ◌==◌, if◌then◌else◌, ℤ, pos, negsuc, eqz, to_i16, to_word, arith,
}
use platform_external_svox.Status.{Status, ok, exc_buf_overflow}
use platform_external_svox.Kfst.{symid_eps}
use platform_external_svox.Transducer.{FstOps, PosSym, pos_insert, AltDesc, Transduction, transduce}

-- PICOTRNS_MAX_NUM_POSSYM
abbrev pub max_num_possym : ℕ
max_num_possym = 255

-- `picotrns_simple_transducer_t`
pub record SimpleTransducer : Type 0 where
  pub possym_buf : List PosSym
  pub possym_read_pos : ℕ
  pub alt_desc_buf : List AltDesc

-- `picotrns_unplane`: the byte and `*plane`
pub unplane : ℤ → ℕ × ℕ
unplane (negsuc n) = (to_word 256 (negsuc n), 0)
unplane (pos n) = (n % 256, n / 256 % 256)

-- `picotrns_stInitialize`
pub st_initialize : SimpleTransducer → SimpleTransducer
st_initialize t = record t { possym_buf = []; possym_read_pos = 0 }

-- The loop of `picotrns_eliminate_epsilons`, with the `j` elements written so far.
pub eliminate_loop : ℕ → List PosSym → ℕ → List PosSym
eliminate_loop max_out [] j = []
eliminate_loop max_out (x ∷ in_seq) j =
    let skipped = eliminate_loop max_out in_seq j in
    let kept = eliminate_loop max_out in_seq (j + 1) in
    if eqz symid_eps x.sym then skipped else if ltb j max_out then x ∷ kept else skipped

-- `picotrns_eliminate_epsilons`: without input, `outSeq` and its length stay as they are.
pub eliminate_epsilons : List PosSym → List PosSym → ℕ → List PosSym
eliminate_epsilons [] out_seq max_out = out_seq
eliminate_epsilons (x ∷ in_seq) out_seq max_out = eliminate_loop max_out (x ∷ in_seq) 0

-- The symbol of a character on a plane, in a `picoos_int16`.
abbrev pub plane_sym : ℕ → ℕ → PosSym
plane_sym plane c = record { pos = pos_insert; sym = to_i16 (pos (plane * 256 + c)) }

-- The loop of `picotrns_stAddWithPlane`: the buffer and the rest of the string.
pub add_loop : ℕ → List ℕ → List PosSym → List PosSym × List ℕ
add_loop plane [] buf = (buf, [])
add_loop plane (c ∷ in_str) buf =
    let rest = add_loop plane in_str (buf ++ (plane_sym plane c ∷ [])) in
    if (c == 0) || leb max_num_possym (length buf) then (buf, c ∷ in_str) else rest

-- The string's end is a 0, or the list's end.
abbrev pub at_end : List ℕ → Bool
at_end [] = true
at_end (c ∷ s) = c == 0

-- `picotrns_stAddWithPlane`
pub st_add_with_plane : SimpleTransducer → List ℕ → ℕ → SimpleTransducer × Status
st_add_with_plane t in_str plane =
    let r = add_loop plane in_str t.possym_buf in
    (record t { possym_buf = r.0 }, if at_end r.1 then ok else exc_buf_overflow)

-- The loop of `picotrns_stGetSymSequence`
pub sym_loop : ℕ → List PosSym → List ℕ
sym_loop zero buf = []
sym_loop (suc max) [] = []
sym_loop (suc max) (x ∷ buf) = (unplane x.sym).0 ∷ sym_loop max buf

-- `picotrns_stGetSymSequence`: the transducer, the bytes written, the closing 0 among them, and the
-- status
pub st_get_sym_sequence : SimpleTransducer → ℕ → SimpleTransducer × List ℕ × Status
st_get_sym_sequence t max =
    let out = sym_loop max (drop t.possym_read_pos t.possym_buf) in
    (
      record t { possym_read_pos = t.possym_read_pos + length out },
      out ++ (0 ∷ []),
      (if leb (length out) max then ok else exc_buf_overflow),
    )

-- `picotrns_stTransduce`, with fuel for `picotrns_transduce`
pub st_transduce : FstOps → ℕ → SimpleTransducer → Option SimpleTransducer
st_transduce fst fuel t = do
  u ← transduce fst true t.possym_buf max_num_possym t.alt_desc_buf fuel
  some (record t {
    possym_buf = eliminate_epsilons u.out t.possym_buf max_num_possym;
    alt_desc_buf = u.alts;
  })
