-- ===== src/Transducer/Alternatives.antt =====
-- `GetNextAlternative` of pico/lib/picotrns.c finds edges only, and ends.
use platform_external_svox.Common.{
  subst, ap₂, ℕ, zero, suc, ◌<◌, ◌≡◌, ◌≢◌, refl, ap, sym, ◌∙◌, Option, some, none, List, length,
  get_or, ltz, ltb, eqz, ℤ, pos, negsuc, Bool-cases, Option-cases, inl, inr, ltb→lt, eqz→eq,
  eqz_refl, if◌then◌else◌,
}
use platform_external_svox.Kfst.{Found, symid_eps}
use platform_external_svox.Transducer.{
  FstOps, PosSym, no_sym, is_found, AltState, before_pairs, in_pairs, before_eps, in_eps, no_more,
  AltDesc, Alternative, before_pairs_step, in_pairs_step, before_eps_step, in_eps_step, alt_step,
  next_alternative, is_no_more,
}
use platform_external_svox.Transducer.Paths.{Listed, here, later, Edge, copied, paired, inserted}

module _ (fst : FstOps) (in_seq : List PosSym) where
  abbrev pub sym_at : ℕ → PosSym
  sym_at i = get_or in_seq i no_sym

  -- Where an enumeration stands, what it still lists belongs to the whole list.
  abbrev pub Standing : AltState → ℤ → ℕ → ℤ → Type 0
  Standing in_pairs s i z =
      (i < length in_seq)
      × ((sym_at i).sym ≢ symid_eps)
      × ((f : Found)
          → Listed fst.get_next_pair z f
          → Listed fst.get_next_pair (fst.start_pair_search (sym_at i).sym) f)
  Standing in_eps s i z =
      (f : Found)
      → Listed fst.get_next_in_eps_trans z f
      → Listed fst.get_next_in_eps_trans (fst.start_in_eps_trans_search s) f
  Standing _ s i z = Unit {0}

  abbrev pub IsStanding : AltDesc → Type 0
  IsStanding a = Standing a.alt_state a.start_fst_state a.in_pos a.search_state

  abbrev pub EdgeOf : AltDesc → Alternative → Type 0
  EdgeOf a alt =
      Edge fst in_seq a.start_fst_state a.in_pos
        (record { pos = alt.out_ref_pos; sym = alt.out_sym }) alt.end_fst_state alt.next_in_pos

  abbrev pub FindsEdge : AltDesc → Option Alternative → Type 0
  FindsEdge a none = Unit {0}
  FindsEdge a (some alt) = EdgeOf a alt

  -- What a step keeps, and what it finds.
  pub record StepIsSound (a : AltDesc) (r : AltDesc × Option Alternative) : Type 0 where
    pub standing : IsStanding r.0
    pub same_state : r.0.start_fst_state ≡ a.start_fst_state
    pub same_pos : r.0.in_pos ≡ a.in_pos
    pub found : FindsEdge a r.1

  before_pairs_step_sound : (a : AltDesc) → StepIsSound a (before_pairs_step fst in_seq a)
  unfolding before_pairs_step
  before_pairs_step_sound a = elim (Bool-cases (ltb a.in_pos (length in_seq))) [
    | inr end ↦ rw end (record { standing = tt; same_state = refl; same_pos = refl; found = tt })
    | inl more ↦ rw more (elim (Bool-cases (eqz (sym_at a.in_pos).sym symid_eps)) [
      | inl eps ↦ rw eps (record {
        standing = tt;
        same_state = refl;
        same_pos = refl;
        found = copied (ltb→lt _ _ more) (eqz→eq _ _ eps) refl refl refl;
      })
      | inr other ↦ rw other (
          begin (fst.start_pair_search (sym_at a.in_pos).sym) refl (ltb→lt _ _ more)
            (λ e. cc (other, eqz_refl symid_eps, ap (λ z. eqz z symid_eps) e)))
    ])
  ]
    where
      begin :
          (z : ℤ)
          → fst.start_pair_search (sym_at a.in_pos).sym ≡ z
          → a.in_pos < length in_seq
          → (sym_at a.in_pos).sym ≢ symid_eps
          → StepIsSound a (
            record a {
              alt_state = (if is_found z then in_pairs else before_eps);
              search_state = z;
            },
            none,
          )
      begin (pos p) e i ne = record {
        standing = (i, ne, λ f l. subst (λ z. Listed fst.get_next_pair z f) (sym e) l);
        same_state = refl;
        same_pos = refl;
        found = tt;
      }
      begin (negsuc n) e i ne = record {
        standing = tt;
        same_state = refl;
        same_pos = refl;
        found = tt;
      }

  in_pairs_step_sound :
      (a : AltDesc)
      → Standing in_pairs a.start_fst_state a.in_pos a.search_state
      → in_pairs ≡ a.alt_state
      → StepIsSound a (in_pairs_step fst in_seq a)
  unfolding in_pairs_step
  in_pairs_step_sound a (i, ne, all) k = elim (Option-cases (fst.get_next_pair a.search_state)) [
    | inl none_left ↦
        rw (none_left, in_pairs_step)
          (record { standing = tt; same_state = refl; same_pos = refl; found = tt })
    | inr (f, e) ↦
        rw (e, in_pairs_step)
          (elim (Bool-cases (ltz (pos 0) (fst.get_trans a.start_fst_state f.target))) [
            | inl there ↦ rw there (record {
              standing =
                  subst (λ k. Standing k a.start_fst_state a.in_pos f.search_state) k
                    (i, ne, λ g l. all g (later f e l));
              same_state = refl;
              same_pos = refl;
              found = paired f i ne (all f (here e)) refl there refl refl;
            })
            | inr not_there ↦ rw not_there (record {
              standing =
                  subst (λ k. Standing k a.start_fst_state a.in_pos f.search_state) k
                    (i, ne, λ g l. all g (later f e l));
              same_state = refl;
              same_pos = refl;
              found = tt;
            })
          ])
  ]

  before_eps_step_sound : (a : AltDesc) → StepIsSound a (before_eps_step fst in_seq a)
  unfolding before_eps_step
  before_eps_step_sound a = begin (fst.start_in_eps_trans_search a.start_fst_state) refl
    where
      begin :
          (z : ℤ)
          → fst.start_in_eps_trans_search a.start_fst_state ≡ z
          → StepIsSound a (
            record a { alt_state = (if is_found z then in_eps else no_more); search_state = z },
            none,
          )
      begin (pos p) e = record {
        standing = λ f l. subst (λ z. Listed fst.get_next_in_eps_trans z f) (sym e) l;
        same_state = refl;
        same_pos = refl;
        found = tt;
      }
      begin (negsuc n) e = record { standing = tt; same_state = refl; same_pos = refl; found = tt }

  in_eps_step_sound :
      (a : AltDesc)
      → Standing in_eps a.start_fst_state a.in_pos a.search_state
      → in_eps ≡ a.alt_state
      → StepIsSound a (in_eps_step fst in_seq a)
  unfolding in_eps_step
  in_eps_step_sound a all k = elim (Option-cases (fst.get_next_in_eps_trans a.search_state)) [
    | inl none_left ↦
        rw (none_left, in_eps_step)
          (record { standing = tt; same_state = refl; same_pos = refl; found = tt })
    | inr (f, e) ↦
        rw (e, in_eps_step)
          (record {
            standing =
                subst (λ k. Standing k a.start_fst_state a.in_pos f.search_state) k
                  (λ g l. all g (later f e l));
            same_state = refl;
            same_pos = refl;
            found = inserted f (all f (here e)) refl refl refl;
          })
  ]

  alt_step_sound :
      (k : AltState) (a : AltDesc)
      → Standing k a.start_fst_state a.in_pos a.search_state
      → k ≡ a.alt_state
      → StepIsSound a (alt_step fst in_seq k a)
  unfolding alt_step
  alt_step_sound before_pairs a st e = before_pairs_step_sound a
  alt_step_sound in_pairs a st e = in_pairs_step_sound a st e
  alt_step_sound before_eps a st e = before_eps_step_sound a
  alt_step_sound in_eps a st e = in_eps_step_sound a st e
  alt_step_sound no_more a st e = record {
    standing = subst (λ k. Standing k a.start_fst_state a.in_pos a.search_state) e tt;
    same_state = refl;
    same_pos = refl;
    found = tt;
  }

  pub next_alternative_sound :
      (fuel : ℕ) (a : AltDesc) → IsStanding a → StepIsSound a (next_alternative fst in_seq fuel a)
  unfolding next_alternative
  next_alternative_sound zero a st = record {
    standing = st;
    same_state = refl;
    same_pos = refl;
    found = tt;
  }
  next_alternative_sound (suc fuel) a st =
      go (alt_step fst in_seq a.alt_state a) (alt_step_sound a.alt_state a st refl)
        (next_alternative_sound fuel)
    where
      onward :
          (b : AltDesc) (r : AltDesc × Option Alternative)
          → b.start_fst_state ≡ a.start_fst_state
          → b.in_pos ≡ a.in_pos
          → StepIsSound b r
          → StepIsSound a r
      onward b (c, none) es ei w = record {
        standing = w.standing;
        same_state = w.same_state ∙ es;
        same_pos = w.same_pos ∙ ei;
        found = tt;
      }
      onward b (c, some alt) es ei w = record {
        standing = w.standing;
        same_state = w.same_state ∙ es;
        same_pos = w.same_pos ∙ ei;
        found =
            subst {A = ℤ × ℕ}
              (λ x.
                Edge fst in_seq x.0 x.1 (record { pos = alt.out_ref_pos; sym = alt.out_sym })
                  alt.end_fst_state alt.next_in_pos)
              (ap₂ (λ s i. (s, i)) es ei) w.found;
      }

      go :
          (r : AltDesc × Option Alternative)
          → StepIsSound a r
          → ((b : AltDesc) → IsStanding b → StepIsSound b (next_alternative fst in_seq fuel b))
          → StepIsSound a (elim r.1 [
            | some alt ↦ (r.0, some alt)
            | none ↦
                if is_no_more r.0.alt_state
                then (r.0, none)
                else next_alternative fst in_seq fuel r.0
          ])
      go (b, some alt) w rest = w
      go (b, none) w rest = elim (Bool-cases (is_no_more b.alt_state)) [
        | inl over ↦ rw over w
        | inr other ↦ rw other (onward b _ w.same_state w.same_pos (rest b w.standing))
      ]
