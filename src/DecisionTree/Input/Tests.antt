-- ===== src/DecisionTree/Input/Tests.antt =====
-- Input vectors for a tree of pico/lib/picokdt.c with two input maps: an empty one, and one of the bytes
-- 70 and 71, whose fallback value is 2, and with an output map of the bytes 5 and 9.
use platform_external_svox.Common.{
  ◌≡◌, ℕ, List, ◌⊎◌, ◌≢◌, replicate, refl, arith, true, false, none, some, [], ◌∷◌,
}
use platform_external_svox.DecisionTree.Maps.{
  reverse_map_out_fixed, Tree, find_loop, find_value, map_in_fixed, map_out_fixed,
}
use platform_external_svox.DecisionTree.Input.{
  history, construct_pos_d, construct_phr, construct_acc, fill_loop, construct_in_vec,
  construct_pam, given, decompose_out_class,
}
use platform_external_svox.DecisionTree.Input.Filled.{IsInput}
use platform_external_svox.DecisionTree.Input.Constructed.{phr_value, acc_value, constructs_lem}

abbrev tree : Tree
tree = record {
  dt = record {
    base = 2 ∷ 3 ∷ 0 ∷ 0 ∷ 7 ∷ 0 ∷ 1 ∷ 2 ∷ 0 ∷ 70 ∷ 71 ∷ 1 ∷ 7 ∷ 0 ∷ 1 ∷ 2 ∷ 0 ∷ 5 ∷ 9 ∷ [];
    inpmaptable = some 0;
    outmaptable = some 11;
    tree = none;
    beg_offset = 1 ∷ 4 ∷ 11 ∷ [];
    vfields = 0;
    qfields = 0;
    nrattributes = 2;
    treebody = 0;
    dset = true;
    dclass = 1;
  };
  invec = 8 ∷ 8 ∷ [];
  inveclen = 0;
}

mapped :
    construct_in_vec tree 2 (given (33 ∷ 71 ∷ []))
    ≡ (true, record tree { invec = 33 ∷ 1 ∷ []; inveclen = 2 })
unfolding construct_in_vec fill_loop map_in_fixed find_value find_loop
mapped = refl

-- The fallback value stands for one that is not in the map.
fallen_back :
    construct_in_vec tree 2 (given (33 ∷ 99 ∷ []))
    ≡ (true, record tree { invec = 33 ∷ 2 ∷ []; inveclen = 2 })
unfolding construct_in_vec fill_loop map_in_fixed find_value find_loop
fallen_back = refl

-- A third attribute has no map.
not_mapped : (construct_in_vec tree 3 (given (33 ∷ 71 ∷ 0 ∷ []))).0 ≡ false
unfolding construct_in_vec fill_loop map_in_fixed find_value find_loop
not_mapped = refl

wrong_length : construct_pam tree [] 59 ≡ (false, tree)
unfolding construct_pam
wrong_length = refl

class_outside : decompose_out_class tree ≡ some 9
unfolding decompose_out_class map_out_fixed
class_outside = refl

-- Sixty input maps that all are the same empty one, and an output map of "0" only.
abbrev wide : Tree
wide = record {
  dt = record tree.dt {
    base = 60 ∷ 3 ∷ 0 ∷ 0 ∷ 1 ∷ 6 ∷ 0 ∷ 1 ∷ 1 ∷ 0 ∷ 48 ∷ [];
    outmaptable = some 4;
    beg_offset = replicate 61 1;
  };
  invec = replicate 60 8;
  inveclen = 0;
}

abbrev sixty : ℕ
sixty = 60

-- The second history is missing.
abbrev histories : List ℕ
histories = 1 ∷ 2 ∷ 3 ∷ 4 ∷ 5 ∷ 50 ∷ 30000 ∷ 8 ∷ 9 ∷ 10 ∷ 11 ∷ 12 ∷ 13 ∷ []

no_accent : construct_acc wide histories ≡ (
  true,
  record wide {
    invec = 1 ∷ 2 ∷ 3 ∷ 4 ∷ 5 ∷ 50 ∷ 0 ∷ 8 ∷ 9 ∷ 10 ∷ 11 ∷ 12 ∷ 13 ∷ replicate 47 8;
    inveclen = 13;
  },
)
unfolding construct_acc history construct_in_vec fill_loop map_in_fixed reverse_map_out_fixed
    find_value find_loop
no_accent = refl

constructs_lem_example :
    IsInput wide.dt 7 (given histories) (construct_pos_d wide histories)
    × IsInput wide.dt 8 (phr_value 1 2 3 4 5 6 7 8) (construct_phr wide 1 2 3 4 5 6 7 8)
    × (((sixty ≡ sixty) × IsInput wide.dt 60 (given histories) (construct_pam wide histories 60))
        ⊎ ((sixty ≢ sixty)
            × (construct_pam wide histories 60 ≡ (false, record wide { inveclen = 0 }))))
    × IsInput wide.dt 13 (acc_value wide.dt histories) (construct_acc wide histories)
constructs_lem_example =
    constructs_lem wide wide wide wide histories histories histories 1 2 3 4 5 6 7 8 60
      (omega arith) (omega arith) (omega arith) (omega arith)
