-- ===== src/Transducer/Paths.antt =====
-- What a transduction is, apart from how pico/lib/picotrns.c looks for one.
use platform_external_svox.Common.{
  ℕ, ◌+◌, ◌<◌, ◌≡◌, ◌≢◌, true, Option, some, List, [], ◌∷◌, ◌++◌, length, get_or, ltz, ℤ, pos,
}
use platform_external_svox.Kfst.{Found, symid_eps}
use platform_external_svox.Transducer.{FstOps, PosSym, pos_insert, no_sym}

-- The entries that an enumeration gives from a search state on.
pub data Listed (next : ℤ → Option Found) : ℤ → Found → Type 0 where
  here : {z : ℤ} {f : Found} → next z ≡ some f → Listed next z f
  later :
      {z : ℤ} {f : Found} (g : Found)
      → next z ≡ some g
      → Listed next g.search_state f
      → Listed next z f

module _ (fst : FstOps) (in_seq : List PosSym) where
  -- One output symbol: from a state and input position to the next ones.
  pub data Edge (s : ℤ) (i : ℕ) (o : PosSym) (s' : ℤ) (i' : ℕ) : Type 0 where
    -- An epsilon in the input is copied.
    copied :
        i < length in_seq
        → (get_or in_seq i no_sym).sym ≡ symid_eps
        → o ≡ record { pos = (get_or in_seq i no_sym).pos; sym = symid_eps }
        → s' ≡ s
        → i' ≡ i + 1
        → Edge s i o s' i'
    -- The input symbol is paired with an output symbol whose class has a transition.
    paired :
        (f : Found)
        → i < length in_seq
        → (get_or in_seq i no_sym).sym ≢ symid_eps
        → Listed fst.get_next_pair (fst.start_pair_search (get_or in_seq i no_sym).sym) f
        → s' ≡ fst.get_trans s f.target
        → ltz (pos 0) s' ≡ true
        → o ≡ record { pos = (get_or in_seq i no_sym).pos; sym = f.out_sym }
        → i' ≡ i + 1
        → Edge s i o s' i'
    -- An input-epsilon transition inserts a symbol.
    inserted :
        (f : Found)
        → Listed fst.get_next_in_eps_trans (fst.start_in_eps_trans_search s) f
        → s' ≡ f.target
        → o ≡ record { pos = pos_insert; sym = f.out_sym }
        → i' ≡ i
        → Edge s i o s' i'

  -- Output symbols from the start state and the start of the input to a state and position.
  pub data Derives : List PosSym → ℤ → ℕ → Type 0 where
    start : Derives [] (pos 1) 0
    more :
        {out : List PosSym} {s : ℤ} {i : ℕ} (o : PosSym) (s' : ℤ) (i' : ℕ)
        → Derives out s i
        → Edge s i o s' i'
        → Derives (out ++ (o ∷ [])) s' i'

  -- A complete transduction reads all the input and ends in an accepting state; that of an empty
  -- input may be empty.
  pub data IsTransduction : List PosSym → Type 0 where
    empty : length in_seq ≡ 0 → IsTransduction []
    accepted :
        {out : List PosSym} {s : ℤ} {i : ℕ}
        → Derives out s i
        → i ≡ length in_seq
        → fst.is_accepting_state s ≡ true
        → IsTransduction out
