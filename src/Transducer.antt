-- ===== src/Transducer.antt =====
-- The transduction of a symbol sequence by a finite-state transducer, pico/lib/picotrns.c: a search
-- with backtracking over the alternatives at each output position. It uses the transducer through
-- `FstOps`, which pico/lib/picokfst.c implements (`Transducer.Client`).
-- The array of alternatives is a list; it is shorter than 32768, so a position in it fits the
-- `picoos_int16` of `recPos`. `printSolution` is for debugging and left out.
pub mod Paths
pub mod Alternatives
pub mod Reached
pub mod Regular
pub mod Sound
pub mod Laws
pub mod Rounds
pub mod Cost
pub mod Descent
pub mod Stop
pub mod Client
pub mod Buffer
mod Tests
use platform_external_svox.Common.{
  ℕ, zero, suc, ◌+◌, ◌-◌, ◌*◌, ◌≤◌, ◌<◌, ◌≡◌, Bool, true, false, ◌&&◌, ◌||◌, Option, none, some,
  List, [], ◌∷◌, ltb, ◌==◌, if◌then◌else◌, length, get_or, set, take, ℤ, pos, negsuc, eqz, ltz, map,
  ◌%◌, u32_mod,
}
use platform_external_svox.Kfst.{Found, symid_eps}

-- The queries of picokfst.h. A search state below 0 is that of a search that found nothing.
pub record FstOps : Type 0 where
  pub start_pair_search : ℤ → ℤ
  pub get_next_pair : ℤ → Option Found
  pub get_trans : ℤ → ℤ → ℤ
  pub start_in_eps_trans_search : ℤ → ℤ
  pub get_next_in_eps_trans : ℤ → Option Found
  pub is_accepting_state : ℤ → Bool
  -- no enumeration is longer
  pub size : ℕ

-- `picotrns_possym_t`
pub record PosSym : Type 0 where
  pub pos : ℤ
  pub sym : ℤ

-- PICOTRNS_POS_INSERT
abbrev pub pos_insert : ℤ
pos_insert = negsuc 0

-- The values 0 to 4 of `altState`.
pub data AltState : Type 0 where
  before_pairs in_pairs before_eps in_eps no_more : AltState

abbrev pub is_no_more : AltState → Bool
is_no_more no_more = true
is_no_more _ = false

-- `picotrns_altDesc_t`
pub record AltDesc : Type 0 where
  pub start_fst_state : ℤ
  pub in_pos : ℕ
  pub alt_state : AltState
  pub search_state : ℤ
  pub alt_out_sym : ℤ
  pub alt_out_ref_pos : ℤ

-- What `GetNextAlternative` finds.
pub record Alternative : Type 0 where
  pub out_sym : ℤ
  pub out_ref_pos : ℤ
  pub end_fst_state : ℤ
  pub next_in_pos : ℕ

abbrev pub no_sym : PosSym
no_sym = record { pos = pos 0; sym = pos 0 }

abbrev pub is_found : ℤ → Bool
is_found (pos p) = true
is_found (negsuc n) = false

module _ (fst : FstOps) (in_seq : List PosSym) where
  -- `case 0` of `GetNextAlternative`
  pub before_pairs_step : AltDesc → AltDesc × Option Alternative
  before_pairs_step a =
      if ltb a.in_pos (length in_seq)
      then (let x = get_or in_seq a.in_pos no_sym in
          let state = fst.start_pair_search x.sym in
          if eqz x.sym symid_eps
          then (
            record a { alt_state = before_eps },
            some (record {
              out_sym = symid_eps;
              out_ref_pos = x.pos;
              end_fst_state = a.start_fst_state;
              next_in_pos = a.in_pos + 1;
            }),
          )
          else (
            record a {
              alt_state = (if is_found state then in_pairs else before_eps);
              search_state = state;
            },
            none,
          ))
      else (record a { alt_state = before_eps }, none)

  -- `case 1`
  pub in_pairs_step : AltDesc → AltDesc × Option Alternative
  in_pairs_step a = elim (fst.get_next_pair a.search_state) [
    | none ↦ (record a { alt_state = before_eps; search_state = negsuc 0 }, none)
    | some f ↦
        let end = fst.get_trans a.start_fst_state f.target in
        (
          record a { search_state = f.search_state },
          if ltz (pos 0) end
              then some (record {
                out_sym = f.out_sym;
                out_ref_pos = (get_or in_seq a.in_pos no_sym).pos;
                end_fst_state = end;
                next_in_pos = a.in_pos + 1;
              })
              else none,
        )
  ]

  -- `case 2`
  pub before_eps_step : AltDesc → AltDesc × Option Alternative
  before_eps_step a =
      let state = fst.start_in_eps_trans_search a.start_fst_state in
      (
        record a { alt_state = (if is_found state then in_eps else no_more); search_state = state },
        none,
      )

  -- `case 3`
  pub in_eps_step : AltDesc → AltDesc × Option Alternative
  in_eps_step a = elim (fst.get_next_in_eps_trans a.search_state) [
    | none ↦ (record a { alt_state = no_more; search_state = negsuc 0 }, none)
    | some f ↦ (
      record a { search_state = f.search_state },
      some (record {
        out_sym = f.out_sym;
        out_ref_pos = pos_insert;
        end_fst_state = f.target;
        next_in_pos = a.in_pos;
      }),
    )
  ]

  pub alt_step : AltState → AltDesc → AltDesc × Option Alternative
  alt_step before_pairs a = before_pairs_step a
  alt_step in_pairs a = in_pairs_step a
  alt_step before_eps a = before_eps_step a
  alt_step in_eps a = in_eps_step a
  alt_step no_more a = (a, none)

  -- `GetNextAlternative`: rounds of the switch until an alternative is found or none is left. The
  -- result keeps the last round's description.
  pub next_alternative : ℕ → AltDesc → AltDesc × Option Alternative
  next_alternative zero a = (a, none)
  next_alternative (suc fuel) a =
      let r = alt_step a.alt_state a in
      let rest = next_alternative fuel r.0 in
      elim r.1 [
        | some alt ↦ (r.0, some alt)
        | none ↦ if is_no_more r.0.alt_state then (r.0, none) else rest
      ]

  -- Rounds that suffice: two enumerations and the steps between them.
  abbrev pub alt_fuel : ℕ
  alt_fuel = 2 * fst.size + 6

-- The values 0 to 3 of `phase`.
pub data Phase : Type 0 where
  before_start regular before_finish after_finish : Phase

abbrev pub is_finished : Phase → Bool
is_finished after_finish = true
is_finished _ = false

-- `struct picotrns_transductionState`, with the workspace `altDesc` and the output `outSeq`, of which
-- the first `outSeqLen` elements are kept. `recPos` is a `picoos_int16` in the code, and wraps in a
-- workspace of more than 32768 positions.
pub record Transduction : Type 0 where
  pub phase : Phase
  pub nr_sol : ℕ
  pub rec_pos : ℤ
  pub alts : List AltDesc
  pub out : List PosSym

abbrev pub no_alt : AltDesc
no_alt = record {
  start_fst_state = pos 0;
  in_pos = 0;
  alt_state = no_more;
  search_state = negsuc 0;
  alt_out_sym = pos 0;
  alt_out_ref_pos = pos 0;
}

abbrev pub out_of : AltDesc → PosSym
out_of a = record { pos = a.alt_out_ref_pos; sym = a.alt_out_sym }

-- `NoteSolution`
pub note_solution : ℕ → ℕ → Transduction → Transduction
note_solution max_out path_len t = record t {
  nr_sol = (t.nr_sol + 1) % u32_mod;
  out = take max_out (map out_of (take path_len t.alts));
}

abbrev pub prev : ℕ → ℤ
prev zero = negsuc 0
prev (suc d) = pos d

-- A position starts with these three fields set.
abbrev pub start_at : ℤ → ℕ → AltDesc → AltDesc
start_at state in_pos a = record a {
  start_fst_state = state;
  in_pos = in_pos;
  alt_state = before_pairs;
}

module _ (fst : FstOps) (in_seq : List PosSym) (max_out : ℕ) (first_sol_only : Bool) where
  -- `case 0` of `TransductionStep`
  pub start_step : Transduction → Transduction
  start_step t =
      let t0 = record t { nr_sol = 0 } in
      let t1 = if length in_seq == 0 then note_solution max_out 0 t0 else t0 in
      record t1 {
        phase = regular;
        rec_pos = pos 0;
        alts = set t1.alts 0 (start_at (pos 1) 0 (get_or t1.alts 0 no_alt));
      }

  -- An alternative found at position `d` is noted there, a solution that it completes is noted, and
  -- the search goes on at the next position, if there is one.
  pub advance : ℕ → AltDesc → Alternative → Transduction → Transduction
  advance d a alt t =
      let a' = record a { alt_out_sym = alt.out_sym; alt_out_ref_pos = alt.out_ref_pos } in
      let t1 = record t { alts = set t.alts d a' } in
      let t2 =
        if (alt.next_in_pos == length in_seq) && fst.is_accepting_state alt.end_fst_state
        then note_solution max_out (d + 1) t1
        else t1 in
      if ltb (d + 1) (length t.alts)
      then record t2 {
        rec_pos = pos (d + 1);
        alts =
            set t2.alts (d + 1)
              (start_at alt.end_fst_state alt.next_in_pos (get_or t2.alts (d + 1) no_alt));
      }
      else t2

  -- The regular step at position `d`
  pub regular_step : ℕ → Transduction → Transduction
  regular_step d t =
      let r = next_alternative fst in_seq (alt_fuel fst in_seq) (get_or t.alts d no_alt) in
      let t1 = record t { alts = set t.alts d r.0 } in
      elim r.1 [ none ↦ record t1 { rec_pos = prev d } | some alt ↦ advance d r.0 alt t1 ]

  -- `case 1`
  pub case_regular : ℤ → Transduction → Transduction
  case_regular (negsuc n) t = record t { phase = before_finish }
  case_regular (pos d) t =
      if first_sol_only && ltb 0 t.nr_sol
      then record t { phase = before_finish }
      else regular_step d t

  -- `TransductionStep`; the step of `after_finish` only sets `*finished`.
  pub step_in : Phase → Transduction → Transduction
  step_in before_start t = start_step t
  step_in regular t = case_regular t.rec_pos t
  step_in before_finish t = record t {
    phase = after_finish;
    out = (if t.nr_sol == 0 then take max_out in_seq else t.out);
  }
  step_in after_finish t = t

  pub transduction_step : Transduction → Transduction
  transduction_step t = step_in t.phase t

  -- The loop of `picotrns_transduce`; `none` if the rounds do not suffice.
  pub transduce_loop : ℕ → Transduction → Option Transduction
  transduce_loop zero t = none
  transduce_loop (suc fuel) t =
      let rest = transduce_loop fuel (transduction_step t) in
      if is_finished t.phase then some t else rest

-- `StartTransduction` and the loop: `alts` is the caller's workspace.
pub transduce : FstOps → Bool → List PosSym → ℕ → List AltDesc → ℕ → Option Transduction
transduce fst first_sol_only in_seq max_out alts fuel =
    transduce_loop fst in_seq max_out first_sol_only fuel
      (record { phase = before_start; nr_sol = 0; rec_pos = pos 0; alts = alts; out = [] })
