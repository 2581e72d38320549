-- ===== src/Transducer/Reached.antt =====
-- The positions of the search of pico/lib/picotrns.c that an output leads to.
use platform_external_svox.Common.{
  ℕ, suc, ◌<◌, ◌≤◌, ◌≡◌, ap, ap₂, sym, ◌∙◌, subst, List, [], ◌∷◌, ◌++◌, length, get_or, set, take,
  map, ℤ, pos, negsuc, arith, take-set, take-suc, map-append, length-set, get_or-set_self,
  get_or-set_ne,
}
use platform_external_svox.Transducer.{FstOps, PosSym, AltDesc, no_alt, out_of}
use platform_external_svox.Transducer.Paths.{Derives}
use platform_external_svox.Transducer.Alternatives.{IsStanding}

module _ (fst : FstOps) (in_seq : List PosSym) where
  abbrev pub alt_at : List AltDesc → ℕ → AltDesc
  alt_at alts k = get_or alts k no_alt

  -- Position `k` of the search is reached by the output chosen before it.
  pub record IsReached (alts : List AltDesc) (k : ℕ) : Type 0 where
    pub derives :
        Derives fst in_seq
          (map out_of (take k alts))
          (alt_at alts k).start_fst_state
          (alt_at alts k).in_pos
    pub standing : IsStanding fst in_seq (alt_at alts k)

  abbrev pub IsSearching : ℤ → List AltDesc → Type 0
  IsSearching (negsuc n) alts = Unit {0}
  IsSearching (pos d) alts = (d < length alts) × ((k : ℕ) → k ≤ d → IsReached alts k)

  pub IsReached-set :
      (alts : List AltDesc) (k d : ℕ) (a : AltDesc)
      → k < d
      → IsReached alts k
      → IsReached (set alts d a) k
  IsReached-set alts k d a h r = record {
    derives =
        let same = get_or-set_ne alts d k a no_alt (omega arith) in
        subst
          (λ b. Derives fst in_seq (map out_of (take k (set alts d a))) b.start_fst_state b.in_pos)
          (sym same)
          (subst
            (λ l.
              Derives fst in_seq (map out_of l) (alt_at alts k).start_fst_state
                (alt_at alts k).in_pos)
            (sym (take-set k alts d a (omega arith))) r.derives);
    standing =
        subst (IsStanding fst in_seq) (sym (get_or-set_ne alts d k a no_alt (omega arith)))
          r.standing;
  }

  -- Another description of the same state and position.
  pub IsReached-self :
      (alts : List AltDesc) (d : ℕ) (a : AltDesc)
      → d < length alts
      → Derives fst in_seq (map out_of (take d alts)) a.start_fst_state a.in_pos
      → IsStanding fst in_seq a
      → IsReached (set alts d a) d
  IsReached-self alts d a h r st = record {
    derives =
        subst
          (λ b. Derives fst in_seq (map out_of (take d (set alts d a))) b.start_fst_state b.in_pos)
          (sym (get_or-set_self alts d a no_alt h))
          (subst (λ l. Derives fst in_seq (map out_of l) a.start_fst_state a.in_pos)
            (sym (take-set d alts d a (omega arith))) r);
    standing = subst (IsStanding fst in_seq) (sym (get_or-set_self alts d a no_alt h)) st;
  }

  -- The output up to a position that an alternative was noted at.
  pub out-set :
      (alts : List AltDesc) (d : ℕ) (a : AltDesc)
      → d < length alts
      → map out_of (take (suc d) (set alts d a)) ≡ map out_of (take d alts) ++ (out_of a ∷ [])
  out-set alts d a h =
      ap (map out_of) (take-suc d (set alts d a) no_alt (omega (arith, length-set alts d a)))
      ∙ map-append out_of (take d (set alts d a)) (alt_at (set alts d a) d ∷ [])
      ∙ ap₂ (λ l b. map out_of l ++ (out_of b ∷ [])) (take-set d alts d a (omega arith))
          (get_or-set_self alts d a no_alt h)
