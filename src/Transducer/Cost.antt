-- ===== src/Transducer/Cost.antt =====
-- The cost of what is left to the search of pico/lib/picotrns.c: each position weighs as much as
-- all that can follow it.
use platform_external_svox.Common.{
  ℕ, zero, suc, ◌+◌, ◌*◌, ◌<◌, ◌≤◌, ◌≡◌, List, [], ◌∷◌, length, get_or, set, arith, length-set,
  subst,
}
use native.Mathlib.Nat.{mul-le-mul_right}
use platform_external_svox.Transducer.{FstOps, PosSym, AltDesc, no_alt}
use platform_external_svox.Transducer.Laws.{IsEnumerable}
use platform_external_svox.Transducer.Rounds.{left}

-- `base` to the power `n`.
abbrev pub weight : ℕ → ℕ → ℕ
weight base zero = 1
weight base (suc n) = base * weight base n

pub weight_pos : (base n : ℕ) → 0 < base → 0 < weight base n
weight_pos base zero h = omega arith
weight_pos base (suc n) h =
    omega (
      arith,
      mul-le-mul_right {m = 1} {n = base} (weight base n) (omega arith),
      weight_pos base n h,
    )

pub mul_lt : (m n w : ℕ) → m < n → m * w + w ≤ n * w
mul_lt m n w h = omega (arith, mul-le-mul_right {m = m + 1} {n = n} w (omega arith))

module _ (fst : FstOps) (laws : IsEnumerable fst) (in_seq : List PosSym) where
  -- More than the rounds of a description, and one.
  abbrev pub base : ℕ
  base = 2 * fst.size + 6

  -- What is left at the positions up to `d`.
  abbrev pub cost : List AltDesc → ℕ → ℕ
  cost [] d = 0
  cost (a ∷ alts) zero = (1 + left fst laws in_seq a) * weight base (length alts)
  cost (a ∷ alts) (suc d) = (1 + left fst laws in_seq a) * weight base (length alts) + cost alts d

  pub cost-retry :
      (alts : List AltDesc) (d : ℕ) (a : AltDesc)
      → d < length alts
      → left fst laws in_seq a < left fst laws in_seq (get_or alts d no_alt)
      → cost (set alts d a) d < cost alts d
  cost-retry [] d a h l = absurd (omega arith)
  cost-retry (x ∷ alts) zero a h l = omega (
    arith,
    mul_lt (1 + left fst laws in_seq a) (1 + left fst laws in_seq x) (weight base (length alts))
        (omega arith),
    weight_pos base (length alts) (omega arith),
  )
  cost-retry (x ∷ alts) (suc d) a h l =
      let c : cost (set alts d a) d < cost alts d = cost-retry alts d a (omega arith) l in
      rw (length-set alts d a) (omega (arith, c))

  cost-next_suc :
      (alts : List AltDesc) (d : ℕ) (a b : AltDesc)
      → suc d < length alts
      → left fst laws in_seq a < left fst laws in_seq (get_or alts d no_alt)
      → 2 + left fst laws in_seq b ≤ base
      → cost (set (set alts d a) (suc d) b) (suc d) < cost alts d
  cost-next_suc [] d a b h l k = absurd (omega arith)
  cost-next_suc (x ∷ []) d a b h l k = absurd (omega arith)
  cost-next_suc (x ∷ y ∷ alts) zero a b h l k =
      let w : ℕ = weight base (length alts) in
      let below : (1 + left fst laws in_seq b) * w + w ≤ base * w =
        mul_lt (1 + left fst laws in_seq b) base w (omega arith) in
      let at : (1 + left fst laws in_seq a) * (base * w) + base * w
          ≤ (1 + left fst laws in_seq x) * (base * w) =
        mul_lt (1 + left fst laws in_seq a) (1 + left fst laws in_seq x) (base * w) (omega arith) in
      omega (arith, below, at, weight_pos base (length alts) (omega arith))
  cost-next_suc (x ∷ y ∷ alts) (suc d) a b h l k =
      let c = cost-next_suc (y ∷ alts) d a b (omega arith) l k in
      rw (length-set (set (y ∷ alts) d a) (suc d) b, length-set (y ∷ alts) d a) (omega (arith, c))

  pub cost-back :
      (alts : List AltDesc) (d : ℕ) (a : AltDesc)
      → suc d < length alts
      → cost (set alts (suc d) a) d < cost alts (suc d)
  cost-back [] d a h = absurd (omega arith)
  cost-back (x ∷ []) d a h = absurd (omega arith)
  cost-back (x ∷ y ∷ alts) zero a h = omega (
    arith,
    mul_lt 0 (1 + left fst laws in_seq y) (weight base (length alts)) (omega arith),
    weight_pos base (length alts) (omega arith),
  )
  cost-back (x ∷ y ∷ alts) (suc d) a h =
      let c = cost-back (y ∷ alts) d a (omega arith) in rw (length-set alts d a) (omega (arith, c))

  pub cost-next :
      (alts : List AltDesc) (d : ℕ) (a b : AltDesc)
      → d + 1 < length alts
      → left fst laws in_seq a < left fst laws in_seq (get_or alts d no_alt)
      → 2 + left fst laws in_seq b ≤ base
      → cost (set (set alts d a) (d + 1) b) (d + 1) < cost alts d
  cost-next alts d a b h l k =
      let e : suc d ≡ d + 1 = omega arith in
      subst (λ j. cost (set (set alts d a) j b) j < cost alts d) e
        (cost-next_suc alts d a b (omega arith) l k)
