-- ===== src/Transducer/Laws.antt =====
-- What the search of pico/lib/picotrns.c needs of the transducer to end: both enumerations of
-- pico/lib/picokfst.c do. `Transducer.Client` shows that they do.
use platform_external_svox.Common.{ℕ, ◌<◌, ◌≤◌, ◌≡◌, some, ℤ}
use platform_external_svox.Kfst.{Found}
use platform_external_svox.Transducer.{FstOps}

-- Every search state has a bound on what it still lists, which each answer lowers.
pub record IsEnumerable (fst : FstOps) : Type 0 where
  pub left_pairs : ℤ → ℕ
  pub left_eps : ℤ → ℕ
  pub left_pairs_le : (z : ℤ) → left_pairs z ≤ fst.size
  pub left_eps_le : (z : ℤ) → left_eps z ≤ fst.size
  pub left_pairs_lt :
      (z : ℤ) (f : Found) → fst.get_next_pair z ≡ some f → left_pairs f.search_state < left_pairs z
  pub left_eps_lt :
      (z : ℤ) (f : Found)
      → fst.get_next_in_eps_trans z ≡ some f
      → left_eps f.search_state < left_eps z
