-- ===== src/Memory/Search.antt =====
-- The search of `picoos_allocate` (pico/lib/picoos.c) along the list of free cells.
use platform_external_svox.Common.{
  ℕ, zero, suc, ◌+◌, ◌≤◌, ◌<◌, ◌≡◌, ◌≢◌, ◌⊎◌, inl, inr, Bool, true, false, ◌||◌, not, some,
  Bool-cases, List, [], ◌∷◌, arith, length, pos, eqz, ltz,
}
use platform_external_svox.Memory.{Cells, first_fit}
use platform_external_svox.Memory.Links.{count, Links, Links-first, first_of}

-- A free cell that is as large as wanted, or leaves room for another.
abbrev pub fits : Cells → ℕ → ℕ → ℕ → Bool
fits h want least c = eqz (h.size c) (pos want) || not (ltz (h.size c) (pos (want + least)))

-- The search from `start` ends with the fuel given: at a listed cell that fits, or nowhere if none does.
abbrev pub Finds : Cells → ℕ → ℕ → List ℕ → ℕ → ℕ → Type 0
Finds h want least fs fuel start =
    ((first_fit fuel h want least start ≡ some 0)
      × ((c : ℕ) → 1 ≤ count c fs → fits h want least c ≡ false))
    ⊎ ((c : ℕ) × (first_fit fuel h want least start ≡ some c)
        × (1 ≤ count c fs)
        × (fits h want least c ≡ true))

module _ (h : Cells) (want least e : ℕ) (positive : 0 < want)
    (small : want + least < 9223372036854775808) (end : h.next e ≡ 0) (end_ne : e ≢ 0)
    (end_size : h.size e ≡ pos 0) where
  -- With fuel for the list and its end, the search finds a cell that fits, or none does.
  pub first_fit_lem :
      (fs : List ℕ) (b fuel : ℕ)
      → Links h b fs e
      → count 0 fs ≡ 0
      → length fs + 1 < fuel
      → Finds h want least fs fuel (first_of fs e)
  unfolding first_fit
  first_fit_lem [] b zero l z k = absurd (omega arith)
  first_fit_lem [] b (suc zero) l z k = absurd (omega arith)
  first_fit_lem [] b (suc (suc f)) l z k = inl (ground arith, λ c i. absurd (omega arith))
  first_fit_lem (x ∷ fs) b zero l z k = absurd (omega arith)
  first_fit_lem (x ∷ fs) b (suc f) l z k = elim (Bool-cases (fits h want least x)) [
    | inl holds ↦ inr (x, ground arith, ground arith, holds)
    | inr fails ↦ elim (first_fit_lem fs x f l.2 (ground arith) (ground arith)) [
      | inl (r, none_fit) ↦
          inl (ground (arith, Links-first h x fs e l.2), λ c i. ground (arith, none_fit c))
      | inr (c, r, i, holds) ↦
          inr (c, ground (arith, Links-first h x fs e l.2), ground arith, holds)
    ]
  ]
