-- ===== src/DecisionTree/Maps/Loaded.antt =====
-- What the tree looks like when the initialisation of pico/lib/picokdt.c reports success.
use platform_external_svox.Common.{
  ℕ, ◌+◌, ◌*◌, ◌<◌, ◌≡◌, true, false, Option, none, some, List, if◌then◌else◌, get_or,
}
use platform_external_svox.Status.{Status, is_ok}
use platform_external_svox.Exceptions.{ExceptionManager}
use platform_external_svox.DecisionTree.{KdtSubobj}
use platform_external_svox.DecisionTree.Maps.{word_at, is_empty_map, has_maps, Tree}

-- The parts of a knowledge base stand where its first three words say.
pub record IsRead (mem : List ℕ) (out : Option ℕ) (t : KdtSubobj) : Type 0 where
  pub base_same : t.base ≡ mem
  pub inpmaptable_read : t.inpmaptable ≡ some (word_at mem 0)
  pub outmaptable_read : t.outmaptable ≡ out
  pub vfields_read : t.vfields ≡ word_at mem 4 + 1
  pub qfields_read : t.qfields ≡ word_at mem 4 + 5
  pub nrattributes_read : t.nrattributes ≡ get_or mem (word_at mem 4 + 3) 0
  pub treebody_read : t.treebody ≡ word_at mem 4 + 9 + t.nrattributes * 5
  pub dset_clear : t.dset ≡ false

-- A success is one of a tree that has been read.
abbrev Reads : List ℕ → Option ℕ → Status × KdtSubobj × ExceptionManager → Type 0
Reads mem out r = is_ok r.0 ≡ true → IsRead mem out r.1

-- The output map, or NULL for one without values.
abbrev pub out_map : List ℕ → Option ℕ
out_map mem = if is_empty_map mem (word_at mem 2) then none else some (word_at mem 2)

-- What a tree is after its initialisation, with what was asked for.
pub record IsLoaded (mem : List ℕ) (nratt nrinpmt nroutmt mttype : ℕ) (this : Tree) : Type 0 where
  pub read : IsRead mem (some (word_at mem 2)) this.dt
  pub nratts_same : nratt ≡ this.dt.nrattributes
  pub maps : has_maps mem this.dt.inpmaptable this.dt.outmaptable nrinpmt nroutmt mttype ≡ true
  pub filled : is_empty_map mem (word_at mem 2) ≡ false
  pub no_input : this.inveclen ≡ 0
  pub cleared : (j : ℕ) → j < nratt → get_or this.invec j 0 ≡ 0

abbrev Loads :
    (this : Tree) (nratt nrinpmt nroutmt mttype : ℕ) → Status × Tree × ExceptionManager → Type 0
Loads this nratt nrinpmt nroutmt mttype r =
    is_ok r.0 ≡ true → IsLoaded this.dt.base nratt nrinpmt nroutmt mttype r.1
