-- ===== src/Transducer/Tests.antt =====
-- A transducer that turns symbol 97 into 98 and inserts 99 at its end, and the theorems at it.
use platform_external_svox.Common.{
  ap, pos_part, ℕ, ◌<◌, ◌≤◌, ◌≡◌, refl, true, some, none, Option, List, [], ◌∷◌, arith, ℤ, pos,
  negsuc, replicate, length, eqz, if◌then◌else◌, Bool-cases, inl, inr, subst,
}
use platform_external_svox.Status.{ok}
use platform_external_svox.Kfst.{Kfst, Found}
use platform_external_svox.Transducer.{
  FstOps, PosSym, pos_insert, AltDesc, no_alt, start_at, Transduction, transduce, transduce_loop,
  transduction_step, step_in, start_step, case_regular, regular_step, advance, note_solution,
  next_alternative, alt_step, before_pairs_step, in_pairs_step, before_eps_step, in_eps_step,
  alt_fuel,
}
use platform_external_svox.Transducer.Laws.{IsEnumerable}
use platform_external_svox.Transducer.Rounds.{IsSettled, next_alternative-IsSettled}
use platform_external_svox.Transducer.Stop.{IsOutcome, transduce_fuel, transduce_lem}
use platform_external_svox.Transducer.Client.{kfst_ops, transduce-kfst}
use platform_external_svox.Transducer.Buffer.{
  SimpleTransducer, st_initialize, st_add_with_plane, st_get_sym_sequence, eliminate_epsilons,
}
use platform_external_svox.Transducer.Buffer.Strings.{
  st_get_sym_sequence-st_add_with_plane, st_get_sym_sequence_ok,
}
use platform_external_svox.Transducer.Buffer.Filter.{eliminate_epsilons_lem}

-- State 1 reads 97 and writes 98, to state 2; there 99 is inserted, to the accepting state 3.
abbrev next_pair : ℤ → Option Found
next_pair z =
    if eqz z (pos 1)
    then some (record { out_sym = pos 98; target = pos 2; search_state = pos 0 })
    else none

abbrev next_eps : ℤ → Option Found
next_eps z =
    if eqz z (pos 1)
    then some (record { out_sym = pos 99; target = pos 3; search_state = pos 0 })
    else none

abbrev small : FstOps
small = record {
  start_pair_search = λ s. if eqz s (pos 97) then pos 1 else negsuc 0;
  get_next_pair = next_pair;
  get_trans = λ s c. if eqz s (pos 1) then c else pos 0;
  start_in_eps_trans_search = λ s. if eqz s (pos 2) then pos 1 else negsuc 0;
  get_next_in_eps_trans = next_eps;
  is_accepting_state = λ s. eqz s (pos 3);
  size = 1;
}

abbrev one_left : ℤ → ℕ
one_left z = if eqz z (pos 1) then 1 else 0

one_left_le : (z : ℤ) → one_left z ≤ 1
one_left_le z = elim (Bool-cases (eqz z (pos 1))) [
  | inl one ↦ rw one (omega arith)
  | inr other ↦ rw other (omega arith)
]

next_pair_lt : (z : ℤ) (f : Found) → next_pair z ≡ some f → one_left f.search_state < one_left z
next_pair_lt z f e = elim (Bool-cases (eqz z (pos 1))) [
  | inl one ↦
      let at : pos 0 ≡ f.search_state = ground (arith, rw one at e) in
      rw one (subst (λ s. one_left s < 1) at (omega arith))
  | inr other ↦ cc (rw other at e)
]

next_eps_lt : (z : ℤ) (f : Found) → next_eps z ≡ some f → one_left f.search_state < one_left z
next_eps_lt z f e = elim (Bool-cases (eqz z (pos 1))) [
  | inl one ↦
      let at : pos 0 ≡ f.search_state = ground (arith, rw one at e) in
      rw one (subst (λ s. one_left s < 1) at (omega arith))
  | inr other ↦ cc (rw other at e)
]

small-IsEnumerable : IsEnumerable small
small-IsEnumerable = record {
  left_pairs = one_left;
  left_eps = one_left;
  left_pairs_le = one_left_le;
  left_eps_le = one_left_le;
  left_pairs_lt = next_pair_lt;
  left_eps_lt = next_eps_lt;
}

abbrev a_seq : List PosSym
a_seq = record { pos = pos 0; sym = pos 97 } ∷ []

-- The whole of the small transduction, with three positions to search.
transduces :
    elim (transduce small true a_seq 10 (replicate 3 no_alt) 20) [ none ↦ [] | some u ↦ u.out ]
    ≡ record { pos = pos 0; sym = pos 98 } ∷ record { pos = pos_insert; sym = pos 99 } ∷ []
unfolding transduce transduce_loop transduction_step step_in start_step case_regular regular_step
    advance note_solution next_alternative alt_step before_pairs_step in_pairs_step before_eps_step
    in_eps_step
transduces = refl

transduce_lem_example :
    (u : Transduction) × ((transduce small true a_seq 10 (replicate 3 no_alt) (transduce_fuel 1 3)
        ≡ some u)
      × IsOutcome small a_seq 10 u)
transduce_lem_example =
    transduce_lem small true a_seq 10 (replicate 3 no_alt) small-IsEnumerable (omega arith)

abbrev kfst : Kfst
kfst = record {
  fst_stream = 142 ∷ 130 ∷ 129 ∷ [];
  transduction_mode = pos 1;
  nr_classes = pos 1;
  nr_states = pos 2;
  term_class = pos 0;
  alpha_hash_tab_size = pos 1;
  alpha_hash_tab_pos = pos 14;
  trans_tab_entry_size = pos 1;
  trans_tab_pos = pos 23;
  in_eps_state_tab_pos = pos 25;
  acc_state_tab_pos = pos 33;
}

transduce-kfst_example :
    (u : Transduction) × ((transduce
          (kfst_ops kfst)
          true
          a_seq
          10
          (replicate 3 no_alt)
          (transduce_fuel 3 3)
        ≡ some u)
      × IsOutcome (kfst_ops kfst) a_seq 10 u)
transduce-kfst_example =
    transduce-kfst kfst true a_seq 10 (replicate 3 no_alt) (λ e. omega (arith, ap pos_part e))
      (omega arith)

abbrev first_alt : AltDesc
first_alt = start_at (pos 1) 0 no_alt

next_alternative-IsSettled_example :
    IsSettled small small-IsEnumerable a_seq 6
      (next_alternative small a_seq (alt_fuel small a_seq) first_alt)
next_alternative-IsSettled_example =
    next_alternative-IsSettled small small-IsEnumerable a_seq first_alt

abbrev transducer : SimpleTransducer
transducer = record { possym_buf = a_seq; possym_read_pos = 0; alt_desc_buf = replicate 3 no_alt }

abbrev with_eps : List PosSym
with_eps = record { pos = pos 0; sym = pos 0 } ∷ record { pos = pos 1; sym = pos 97 } ∷ []

eliminate_epsilons_lem_example :
    eliminate_epsilons with_eps [] 255 ≡ record { pos = pos 1; sym = pos 97 } ∷ []
eliminate_epsilons_lem_example = eliminate_epsilons_lem with_eps [] 255 (λ e. cc e)

st_get_sym_sequence-st_add_with_plane_example :
    let added = st_add_with_plane (st_initialize transducer) (97 ∷ 98 ∷ []) 1 in
    let r = st_get_sym_sequence added.0 2 in (added.1 ≡ ok) × (r.1 ≡ 97 ∷ 98 ∷ 0 ∷ []) × (r.2 ≡ ok)
st_get_sym_sequence-st_add_with_plane_example =
    st_get_sym_sequence-st_add_with_plane transducer (97 ∷ 98 ∷ []) 1 2 (omega arith)
      ((omega arith, omega arith), ((omega arith, omega arith), tt)) (omega arith) (omega arith)

st_get_sym_sequence_ok_runs :
    ((st_get_sym_sequence transducer 0).2 ≡ ok) × (length (st_get_sym_sequence transducer 0).1 ≤ 1)
st_get_sym_sequence_ok_runs = st_get_sym_sequence_ok transducer 0
