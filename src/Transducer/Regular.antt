-- ===== src/Transducer/Regular.antt =====
-- A regular step of the search of pico/lib/picotrns.c: the positions up to the current one stay
-- reached, and what is noted is a transduction.
use platform_external_svox.Common.{
  both, ℕ, zero, suc, ◌+◌, ◌<◌, ◌≤◌, ◌≡◌, ◌≢◌, refl, ap, ap₂, sym, ◌∙◌, subst, Bool, Option, some,
  none, List, length, get_or, set, take, map, ltb, ◌==◌, ◌&&◌, ℤ, pos, arith, Bool-cases, inl, inr,
  ltb→lt, if◌then◌else◌, take-set, length-set, ==_iff,
}
use platform_external_svox.Transducer.{
  FstOps, PosSym, AltDesc, Alternative, no_alt, out_of, Phase, before_start, regular, before_finish,
  after_finish, Transduction, note_solution, start_at, advance, prev, regular_step,
  next_alternative, alt_fuel,
}
use platform_external_svox.Transducer.Paths.{Edge, Derives, more, IsTransduction, accepted}
use platform_external_svox.Transducer.Alternatives.{
  IsStanding, StepIsSound, EdgeOf, next_alternative_sound,
}
use platform_external_svox.Transducer.Reached.{
  IsReached, IsSearching, IsReached-set, IsReached-self, out-set,
}

module _ (fst : FstOps) (in_seq : List PosSym) (max_out : ℕ) (first_sol_only : Bool) where
  -- The output noted, if a solution was.
  abbrev pub IsNoted : ℕ → List PosSym → Type 0
  IsNoted nr_sol out =
      nr_sol ≢ 0 → (sol : List PosSym) × (IsTransduction fst in_seq sol × (out ≡ take max_out sol))

  -- What the loop keeps.
  abbrev pub IsSoundIn : Phase → Transduction → Type 0
  IsSoundIn before_start t = 0 < length t.alts
  IsSoundIn regular t = IsNoted t.nr_sol t.out × IsSearching fst in_seq t.rec_pos t.alts
  IsSoundIn before_finish t = IsNoted t.nr_sol t.out
  IsSoundIn after_finish t = IsNoted t.nr_sol t.out × (t.nr_sol ≡ 0 → t.out ≡ take max_out in_seq)

  -- Positions up to `d` reached, the search goes on at `d` or at the next position.
  go_on :
      (d len : ℕ) (alt : Alternative) (t : Transduction)
      → len ≡ length t.alts
      → IsNoted t.nr_sol t.out
      → t.rec_pos ≡ pos d
      → d < length t.alts
      → ((k : ℕ) → k ≤ d → IsReached fst in_seq t.alts k)
      → Derives fst in_seq (map out_of (take (d + 1) t.alts)) alt.end_fst_state alt.next_in_pos
      → IsSoundIn regular (
          if ltb (d + 1) len
          then record t {
            rec_pos = pos (d + 1);
            alts =
                set t.alts
                  (d + 1)
                  (start_at alt.end_fst_state alt.next_in_pos (get_or t.alts (d + 1) no_alt));
          }
          else t)
  go_on d len alt t f n e h all r = elim (Bool-cases (ltb (d + 1) len)) [
    | inr last ↦ rw last (n, subst (λ z. IsSearching fst in_seq z t.alts) (sym e) (h, all))
    | inl room ↦
        let b : AltDesc =
          start_at alt.end_fst_state alt.next_in_pos (get_or t.alts (d + 1) no_alt) in
        let k : d + 1 < length t.alts = omega (arith, ltb→lt _ _ room) in
        rw room (
          n,
          (
            omega (arith, length-set t.alts (d + 1) b, k),
            λ j l. elim (Bool-cases (j == (d + 1))) [
              | inl same ↦
                  subst (IsReached fst in_seq (set t.alts (d + 1) b))
                    (sym ((==_iff j (d + 1)).0 same))
                    (IsReached-self fst in_seq t.alts (d + 1) b k r tt)
              | inr other ↦
                  let l' : j ≤ d = ground arith in
                  IsReached-set fst in_seq t.alts j (d + 1) b (omega arith) (all j l')
            ],
          ),
        )
  ]

  advance_sound :
      (d : ℕ) (a : AltDesc) (alt : Alternative) (t : Transduction)
      → IsNoted t.nr_sol t.out
      → t.rec_pos ≡ pos d
      → d < length t.alts
      → ((k : ℕ) → k < d → IsReached fst in_seq t.alts k)
      → Derives fst in_seq (map out_of (take d t.alts)) a.start_fst_state a.in_pos
      → IsStanding fst in_seq a
      → EdgeOf fst in_seq a alt
      → IsSoundIn regular (advance fst in_seq max_out first_sol_only d a alt t)
  unfolding advance note_solution
  advance_sound d a alt t n e h all r st w =
      elim (Bool-cases
        ((alt.next_in_pos == length in_seq) && fst.is_accepting_state alt.end_fst_state)) [
          | inr not_end ↦ rw not_end (
              go_on d (length t.alts) alt (record t { alts = alts1 }) (sym (length-set t.alts d a'))
                n e h1 all1 whole)
          | inl done ↦
              let ends = both _ _ done in
              rw done (
                go_on d (length t.alts) alt
                  (note_solution max_out (d + 1) (record t { alts = alts1 }))
                  (sym (length-set t.alts d a'))
                  (λ _. (
                    map out_of (take (d + 1) alts1),
                    (accepted whole ((==_iff _ _).0 ends.0) ends.1, refl),
                  ))
                  e h1 all1 whole)
        ]
    where
      a' : AltDesc
      a' = record a { alt_out_sym = alt.out_sym; alt_out_ref_pos = alt.out_ref_pos }

      alts1 : List AltDesc
      alts1 = set t.alts d a'

      h1 : d < length alts1
      h1 = omega (arith, length-set t.alts d a')

      whole : Derives fst in_seq (map out_of (take (d + 1) alts1)) alt.end_fst_state alt.next_in_pos
      whole =
          subst (λ l. Derives fst in_seq l alt.end_fst_state alt.next_in_pos)
            (sym (out-set fst in_seq t.alts d a' h)
              ∙ ap (λ n. map out_of (take n alts1)) {x = suc d} (omega arith))
            (more (out_of a') alt.end_fst_state alt.next_in_pos r w)

      all1 : (k : ℕ) → k ≤ d → IsReached fst in_seq alts1 k
      all1 k l = elim (Bool-cases (k == d)) [
        | inl same ↦
            subst (IsReached fst in_seq alts1) (sym ((==_iff k d).0 same))
              (IsReached-self fst in_seq t.alts d a' h r st)
        | inr other ↦
            let l' : k < d = ground arith in IsReached-set fst in_seq t.alts k d a' l' (all k l')
      ]

  pub regular_step_sound :
      (d : ℕ) (t : Transduction)
      → t.rec_pos ≡ pos d
      → IsNoted t.nr_sol t.out
      → IsSearching fst in_seq (pos d) t.alts
      → IsSoundIn regular (regular_step fst in_seq max_out first_sol_only d t)
  unfolding regular_step
  regular_step_sound d t e n (h, all) =
      go (next_alternative fst in_seq (alt_fuel fst in_seq) a)
        (next_alternative_sound fst in_seq (alt_fuel fst in_seq) a (all d (omega arith)).standing)
    where
      a : AltDesc
      a = get_or t.alts d no_alt

      back :
          (m : ℕ) (b : AltDesc)
          → m < length t.alts
          → ((k : ℕ) → k ≤ m → IsReached fst in_seq t.alts k)
          → IsSearching fst in_seq (prev m) (set t.alts m b)
      back zero b i f = tt
      back (suc m) b i f = (
        omega (arith, length-set t.alts (suc m) b),
        λ k l. IsReached-set fst in_seq t.alts k (suc m) b (omega arith) (f k (omega arith)),
      )

      go :
          (r : AltDesc × Option Alternative)
          → StepIsSound fst in_seq a r
          → IsSoundIn regular (elim r.1 [
            | none ↦ record t { alts = set t.alts d r.0; rec_pos = prev d }
            | some alt ↦
                advance fst in_seq max_out first_sol_only d r.0 alt
                  (record t { alts = set t.alts d r.0 })
          ])
      go (b, none) w = (n, back d b h all)
      go (b, some alt) w =
          advance_sound d b alt (record t { alts = set t.alts d b }) n e
            (omega (arith, length-set t.alts d b))
            (λ k l. IsReached-set fst in_seq t.alts k d b l (all k (omega arith)))
            (subst {A = ℤ × ℕ}
              (λ x. Derives fst in_seq (map out_of (take d (set t.alts d b))) x.0 x.1)
              (ap₂ (λ u v. (u, v)) (sym w.same_state) (sym w.same_pos))
              (subst (λ l. Derives fst in_seq (map out_of l) a.start_fst_state a.in_pos)
                (sym (take-set d t.alts d b (omega arith))) (all d (omega arith)).derives))
            w.standing
            (subst {A = ℤ × ℕ}
              (λ x.
                Edge fst in_seq x.0 x.1 (record { pos = alt.out_ref_pos; sym = alt.out_sym })
                  alt.end_fst_state alt.next_in_pos)
              (ap₂ (λ u v. (u, v)) (sym w.same_state) (sym w.same_pos)) w.found)

  advance-phase :
      (d : ℕ) (a : AltDesc) (alt : Alternative) (t : Transduction)
      → (advance fst in_seq max_out first_sol_only d a alt t).phase ≡ t.phase
  unfolding advance note_solution
  advance-phase d a alt t = ground arith

  -- A regular step, once the alternative is looked for.
  abbrev after_alt : ℕ → Transduction → AltDesc × Option Alternative → Transduction
  after_alt d t r = elim r.1 [
    | none ↦ record t { alts = set t.alts d r.0; rec_pos = prev d }
    | some alt ↦
        advance fst in_seq max_out first_sol_only d r.0 alt (record t { alts = set t.alts d r.0 })
  ]

  pub regular_step-phase :
      (d : ℕ) (t : Transduction)
      → (regular_step fst in_seq max_out first_sol_only d t).phase ≡ t.phase
  unfolding regular_step
  regular_step-phase d t =
      go (next_alternative fst in_seq (alt_fuel fst in_seq) (get_or t.alts d no_alt))
    where
      go : (r : AltDesc × Option Alternative) → (after_alt d t r).phase ≡ t.phase
      go (b, none) = refl
      go (b, some alt) = advance-phase d b alt (record t { alts = set t.alts d b })
