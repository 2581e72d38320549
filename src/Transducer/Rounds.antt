-- ===== src/Transducer/Rounds.antt =====
-- `GetNextAlternative` of pico/lib/picotrns.c ends, and each alternative it gives leaves fewer.
use platform_external_svox.Common.{
  subst, ℕ, zero, suc, ◌+◌, ◌*◌, ◌<◌, ◌≤◌, ◌≡◌, refl, true, false, Option, some, none, List, length,
  get_or, ltb, eqz, ℤ, pos, negsuc, arith, Bool-cases, Option-cases, inl, inr, if◌then◌else◌,
}
use platform_external_svox.Kfst.{symid_eps}
use platform_external_svox.Transducer.{
  FstOps, PosSym, no_sym, is_found, is_no_more, AltState, before_pairs, in_pairs, before_eps,
  in_eps, no_more, AltDesc, Alternative, before_pairs_step, in_pairs_step, before_eps_step,
  in_eps_step, alt_step, next_alternative, alt_fuel,
}
use platform_external_svox.Transducer.Laws.{IsEnumerable}

module _ (fst : FstOps) (laws : IsEnumerable fst) (in_seq : List PosSym) where
  -- The rounds left to a description.
  abbrev pub left_in : AltState → ℤ → ℕ
  left_in before_pairs z = 2 * fst.size + 4
  left_in in_pairs z = laws.left_pairs z + fst.size + 3
  left_in before_eps z = fst.size + 2
  left_in in_eps z = laws.left_eps z + 1
  left_in no_more z = 0

  abbrev pub left : AltDesc → ℕ
  left a = left_in a.alt_state a.search_state

  -- What a round does to the rounds left: it lowers them, until none are left.
  abbrev Lowers : AltState → ℕ → AltDesc × Option Alternative → Type 0
  Lowers no_more n r = (left r.0 ≤ n) × (r.1 ≡ none)
  Lowers _ n r = left r.0 < n

  pairs_lt : (z : ℤ) → left_in (if is_found z then in_pairs else before_eps) z < 2 * fst.size + 4
  pairs_lt (pos p) = omega (arith, laws.left_pairs_le (pos p))
  pairs_lt (negsuc n) = omega arith

  eps_lt : (z : ℤ) → left_in (if is_found z then in_eps else no_more) z < fst.size + 2
  eps_lt (pos p) = omega (arith, laws.left_eps_le (pos p))
  eps_lt (negsuc n) = omega arith

  before_pairs_step_lt : (a : AltDesc) → left (before_pairs_step fst in_seq a).0 < 2 * fst.size + 4
  unfolding before_pairs_step
  before_pairs_step_lt a = elim (Bool-cases (ltb a.in_pos (length in_seq))) [
    | inr end ↦ rw end (omega arith)
    | inl more ↦ rw more (elim (Bool-cases (eqz (get_or in_seq a.in_pos no_sym).sym symid_eps)) [
      | inl eps ↦ rw eps (omega arith)
      | inr other ↦ rw other (pairs_lt _)
    ])
  ]

  in_pairs_step_lt :
      (a : AltDesc)
      → in_pairs ≡ a.alt_state
      → left (in_pairs_step fst in_seq a).0 < laws.left_pairs a.search_state + fst.size + 3
  unfolding in_pairs_step
  in_pairs_step_lt a e = elim (Option-cases (fst.get_next_pair a.search_state)) [
    | inl none_left ↦ rw (none_left, in_pairs_step) (omega arith)
    | inr (f, found) ↦
        rw (found, in_pairs_step)
          (subst (λ k. left_in k f.search_state < laws.left_pairs a.search_state + fst.size + 3) e
            (omega (arith, laws.left_pairs_lt a.search_state f found)))
  ]

  in_eps_step_lt :
      (a : AltDesc)
      → in_eps ≡ a.alt_state
      → left (in_eps_step fst in_seq a).0 < laws.left_eps a.search_state + 1
  unfolding in_eps_step
  in_eps_step_lt a e = elim (Option-cases (fst.get_next_in_eps_trans a.search_state)) [
    | inl none_left ↦ rw (none_left, in_eps_step) (omega arith)
    | inr (f, found) ↦
        rw (found, in_eps_step)
          (subst (λ k. left_in k f.search_state < laws.left_eps a.search_state + 1) e
            (omega (arith, laws.left_eps_lt a.search_state f found)))
  ]

  alt_step-Lowers :
      (k : AltState) (a : AltDesc)
      → k ≡ a.alt_state
      → Lowers k (left_in k a.search_state) (alt_step fst in_seq k a)
  unfolding alt_step before_eps_step
  alt_step-Lowers before_pairs a e = before_pairs_step_lt a
  alt_step-Lowers in_pairs a e = in_pairs_step_lt a e
  alt_step-Lowers before_eps a e = eps_lt _
  alt_step-Lowers in_eps a e = in_eps_step_lt a e
  alt_step-Lowers no_more a e = (subst (λ k. left_in k a.search_state ≤ 0) e (omega arith), refl)

  -- With fuel for the rounds left, an alternative leaves fewer, and none means that none is left.
  abbrev pub IsSettled : ℕ → AltDesc × Option Alternative → Type 0
  IsSettled n (b, some alt) = left b < n
  IsSettled n (b, none) = b.alt_state ≡ no_more

  no_more_of : (k : AltState) → is_no_more k ≡ true → k ≡ no_more
  no_more_of before_pairs h = absurd (ground arith)
  no_more_of in_pairs h = absurd (ground arith)
  no_more_of before_eps h = absurd (ground arith)
  no_more_of in_eps h = absurd (ground arith)
  no_more_of no_more h = refl

  lowered :
      (k : AltState) (n : ℕ) (b : AltDesc) (alt : Alternative)
      → Lowers k n (b, some alt)
      → left b < n
  lowered before_pairs n b alt h = h
  lowered in_pairs n b alt h = h
  lowered before_eps n b alt h = h
  lowered in_eps n b alt h = h
  lowered no_more n b alt h = absurd (ground arith)

  IsSettled-mono :
      (m n : ℕ) (r : AltDesc × Option Alternative) → m ≤ n → IsSettled m r → IsSettled n r
  IsSettled-mono m n (b, some alt) h s = omega arith
  IsSettled-mono m n (b, none) h s = s

  some_left : (k : AltState) (z : ℤ) → is_no_more k ≡ false → 0 < left_in k z
  some_left before_pairs z h = omega arith
  some_left in_pairs z h = omega arith
  some_left before_eps z h = omega arith
  some_left in_eps z h = omega arith
  some_left no_more z h = absurd (ground arith)

  lowered_none :
      (k : AltState) (z : ℤ) (b : AltDesc)
      → Lowers k (left_in k z) (b, none)
      → is_no_more b.alt_state ≡ false
      → left b < left_in k z
  lowered_none before_pairs z b h e = h
  lowered_none in_pairs z b h e = h
  lowered_none before_eps z b h e = h
  lowered_none in_eps z b h e = h
  lowered_none no_more z b (h, _) e = absurd (omega (arith, some_left b.alt_state b.search_state e))

  settle_step :
      (k : AltState) (z : ℤ) (r : AltDesc × Option Alternative)
      (next : AltDesc → AltDesc × Option Alternative)
      → Lowers k (left_in k z) r
      → ((b : AltDesc) → left b < left_in k z → IsSettled (left b) (next b))
      → IsSettled (left_in k z) (elim r.1 [
        | some alt ↦ (r.0, some alt)
        | none ↦ if is_no_more r.0.alt_state then (r.0, none) else next r.0
      ])
  settle_step k z (b, some alt) next l rest = lowered k (left_in k z) b alt l
  settle_step k z (b, none) next l rest = elim (Bool-cases (is_no_more b.alt_state)) [
    | inl over ↦ rw over (no_more_of b.alt_state over)
    | inr on ↦
        let lt = lowered_none k z b l on in
        rw on (IsSettled-mono (left b) (left_in k z) (next b) (omega (arith, lt)) (rest b lt))
  ]

  next_alternative-settles :
      (fuel : ℕ) (a : AltDesc)
      → left a < fuel
      → IsSettled (left a) (next_alternative fst in_seq fuel a)
  unfolding next_alternative
  next_alternative-settles zero a h = absurd (omega arith)
  next_alternative-settles (suc fuel) a h =
      settle_step a.alt_state a.search_state (alt_step fst in_seq a.alt_state a)
        (next_alternative fst in_seq fuel) (alt_step-Lowers a.alt_state a refl)
        (λ b lt. next_alternative-settles fuel b (omega (arith, lt)))

  left-alt_fuel : (k : AltState) (z : ℤ) → left_in k z < alt_fuel fst in_seq
  left-alt_fuel before_pairs z = omega arith
  left-alt_fuel in_pairs z = omega (arith, laws.left_pairs_le z)
  left-alt_fuel before_eps z = omega arith
  left-alt_fuel in_eps z = omega (arith, laws.left_eps_le z)
  left-alt_fuel no_more z = omega arith

  -- With enumerations that end, GetNextAlternative ends within the rounds given: it returns an
  -- alternative, with fewer left after it, or it returns none, and then it is in its last state.
  pub next_alternative-IsSettled :
      (a : AltDesc) → IsSettled (left a) (next_alternative fst in_seq (alt_fuel fst in_seq) a)
  next_alternative-IsSettled a =
      next_alternative-settles (alt_fuel fst in_seq) a (left-alt_fuel a.alt_state a.search_state)
