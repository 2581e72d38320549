-- ===== src/Transducer/Descent.antt =====
-- Each step of the search of pico/lib/picotrns.c lowers the rounds left.
use platform_external_svox.Common.{
  ℕ, zero, suc, ◌+◌, ◌*◌, ◌<◌, ◌≡◌, Bool, false, ◌&&◌, Option, some, none, List, [], ◌∷◌, length,
  get_or, set, arith, sym, ◌∙◌, subst, length-set, set-set, refl, ℤ, pos, negsuc, ltb, ◌==◌,
  if◌then◌else◌, Bool-cases, inl, inr, ltb→lt,
}
use platform_external_svox.Transducer.{
  FstOps, PosSym, AltDesc, Alternative, no_alt, start_at, Phase, before_start, regular,
  before_finish, after_finish, is_finished, Transduction, note_solution, start_step, advance, prev,
  regular_step, case_regular, step_in, next_alternative, alt_fuel,
}
use platform_external_svox.Transducer.Laws.{IsEnumerable}
use platform_external_svox.Transducer.Rounds.{left, IsSettled, next_alternative-IsSettled}
use platform_external_svox.Transducer.Cost.{
  weight, mul_lt, base, cost, cost-retry, cost-next, cost-back,
}
use platform_external_svox.Transducer.Reached.{IsSearching}
use platform_external_svox.Transducer.Regular.{IsSoundIn, regular_step-phase}

module _ (fst : FstOps) (laws : IsEnumerable fst) (in_seq : List PosSym) (max_out : ℕ)
    (first_sol_only : Bool) where
  abbrev pub rounds_at : ℤ → List AltDesc → ℕ
  rounds_at (negsuc n) alts = 2
  rounds_at (pos d) alts = 3 + cost fst laws in_seq alts d

  -- The rounds left.
  abbrev pub rounds_in : Phase → Transduction → ℕ
  rounds_in before_start t = 4 + weight (base fst laws in_seq) (length t.alts)
  rounds_in regular t = rounds_at t.rec_pos t.alts
  rounds_in before_finish t = 1
  rounds_in after_finish t = 0

  go_on_lt :
      (d len : ℕ) (a : AltDesc) (alt : Alternative) (alts : List AltDesc) (t : Transduction)
      → len ≡ length alts
      → t.alts ≡ set alts d a
      → t.rec_pos ≡ pos d
      → d < length alts
      → left fst laws in_seq a < left fst laws in_seq (get_or alts d no_alt)
      → rounds_in regular (
          if ltb (d + 1) len
          then record t {
            rec_pos = pos (d + 1);
            alts =
                set t.alts
                  (d + 1)
                  (start_at alt.end_fst_state alt.next_in_pos (get_or t.alts (d + 1) no_alt));
          }
          else t)
        < 3 + cost fst laws in_seq alts d
  go_on_lt d len a alt alts t e at z h l = elim (Bool-cases (ltb (d + 1) len)) [
    | inr last ↦ rw (last, z, at) (omega (arith, cost-retry fst laws in_seq alts d a h l))
    | inl room ↦
        let next : d + 1 < length alts = omega (arith, ltb→lt _ _ room) in
        rw (room, at)
          (omega (
            arith,
            cost-next fst laws in_seq alts d a
                (start_at alt.end_fst_state alt.next_in_pos (get_or (set alts d a) (d + 1) no_alt))
                next l (omega arith),
          ))
  ]

  advance_lt :
      (d : ℕ) (b : AltDesc) (alt : Alternative) (t : Transduction)
      → t.rec_pos ≡ pos d
      → d < length t.alts
      → left fst laws in_seq b < left fst laws in_seq (get_or t.alts d no_alt)
      → rounds_in regular
          (advance fst in_seq max_out first_sol_only d b alt (record t { alts = set t.alts d b }))
        < 3 + cost fst laws in_seq t.alts d
  unfolding advance note_solution
  advance_lt d b alt t e h l =
      elim (Bool-cases
        ((alt.next_in_pos == length in_seq) && fst.is_accepting_state alt.end_fst_state)) [
          | inr other ↦ rw other (go_on_lt d (length (set t.alts d b)) a alt t.alts t1 len at e h l)
          | inl done ↦ rw done (
              go_on_lt d (length (set t.alts d b)) a alt t.alts (note_solution max_out (d + 1) t1)
                len at e h l)
        ]
    where
      a : AltDesc
      a = record b { alt_out_sym = alt.out_sym; alt_out_ref_pos = alt.out_ref_pos }

      t1 : Transduction
      t1 = record t { alts = set (set t.alts d b) d a }

      len : length (set t.alts d b) ≡ length t.alts
      len = length-set t.alts d b

      at : t1.alts ≡ set t.alts d a
      at = set-set t.alts d b a

  regular_step_lt :
      (d : ℕ) (t : Transduction)
      → t.rec_pos ≡ pos d
      → d < length t.alts
      → rounds_in regular (regular_step fst in_seq max_out first_sol_only d t)
        < 3 + cost fst laws in_seq t.alts d
  unfolding regular_step
  regular_step_lt d t e h =
      go (next_alternative fst in_seq (alt_fuel fst in_seq) (get_or t.alts d no_alt))
        (next_alternative-IsSettled fst laws in_seq (get_or t.alts d no_alt))
    where
      back :
          (m : ℕ) (b : AltDesc)
          → m < length t.alts
          → rounds_at (prev m) (set t.alts m b) < 3 + cost fst laws in_seq t.alts m
      back zero b k = omega arith
      back (suc m) b k = omega (arith, cost-back fst laws in_seq t.alts m b k)

      go :
          (r : AltDesc × Option Alternative)
          → IsSettled fst laws in_seq (left fst laws in_seq (get_or t.alts d no_alt)) r
          → rounds_in regular (elim r.1 [
            | none ↦ record t { alts = set t.alts d r.0; rec_pos = prev d }
            | some alt ↦
                advance fst in_seq max_out first_sol_only d r.0 alt
                  (record t { alts = set t.alts d r.0 })
          ])
            < 3 + cost fst laws in_seq t.alts d
      go (b, none) s = back d b h
      go (b, some alt) l = advance_lt d b alt t e h l

  start_step_lt :
      (t : Transduction)
      → 0 < length t.alts
      → rounds_in regular (start_step fst in_seq max_out first_sol_only t)
        < 4 + weight (base fst laws in_seq) (length t.alts)
  unfolding start_step note_solution
  start_step_lt t h = elim (Bool-cases (length in_seq == 0)) [
    | inr some_in ↦ rw some_in (begin t.alts h)
    | inl no_in ↦ rw no_in (begin t.alts h)
  ]
    where
      begin :
          (alts : List AltDesc)
          → 0 < length alts
          → 3 + cost fst laws in_seq (set alts 0 (start_at (pos 1) 0 (get_or alts 0 no_alt))) 0
            < 4 + weight (base fst laws in_seq) (length alts)
      begin [] k = absurd (omega arith)
      begin (x ∷ alts) k = omega (
        arith,
        mul_lt (2 * fst.size + 5) (base fst laws in_seq)
            (weight (base fst laws in_seq) (length alts)) (omega arith),
      )

  case_regular_lt :
      (z : ℤ) (t : Transduction)
      → t.rec_pos ≡ z
      → t.phase ≡ regular
      → IsSoundIn fst in_seq max_out first_sol_only regular t
      → let u = case_regular fst in_seq max_out first_sol_only z t in
        rounds_in u.phase u < rounds_at z t.alts
  unfolding case_regular
  case_regular_lt (negsuc n) t e k s = omega arith
  case_regular_lt (pos d) t e k s = elim (Bool-cases (first_sol_only && ltb 0 t.nr_sol)) [
    | inl enough ↦ rw enough (omega arith)
    | inr on ↦ rw on (
        subst
          (λ p.
            rounds_in p (regular_step fst in_seq max_out first_sol_only d t)
            < 3 + cost fst laws in_seq t.alts d)
          (sym (regular_step-phase fst in_seq max_out first_sol_only d t ∙ k))
          (regular_step_lt d t e (subst (λ z. IsSearching fst in_seq z t.alts) e s.1).0))
  ]

  pub step_in_lt :
      (p : Phase) (t : Transduction)
      → IsSoundIn fst in_seq max_out first_sol_only p t
      → p ≡ t.phase
      → is_finished p ≡ false
      → let u = step_in fst in_seq max_out first_sol_only p t in rounds_in u.phase u < rounds_in p t
  unfolding step_in start_step
  step_in_lt before_start t s e f = start_step_lt t s
  step_in_lt regular t s e f = case_regular_lt t.rec_pos t refl (sym e) s
  step_in_lt before_finish t s e f = omega arith
  step_in_lt after_finish t s e f = absurd (ground arith)
