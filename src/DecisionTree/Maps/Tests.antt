-- ===== src/DecisionTree/Maps/Tests.antt =====
-- A small knowledge base for pico/lib/picokdt.c: one empty input map, an output map of bytes whose first
-- and third values are equal, and the tree of DecisionTree.Tests.
use platform_external_svox.Common.{
  ℕ, ◌≤◌, ◌≡◌, inl, refl, arith, true, false, none, some, List, [], ◌∷◌,
}
use platform_external_svox.Status.{ok, exc_file_corrupt}
use platform_external_svox.Exceptions.{ExceptionManager, em_raise_exception}
use platform_external_svox.Strings.{read_mem_pi_uint16}
use platform_external_svox.DecisionTree.{KdtSubobj}
use platform_external_svox.DecisionTree.Maps.{
  offsets_loop, init_tree, dt_initialize, dt_check, Tree, clear_loop, tree_initialize, find_loop,
  find_value, map_in_fixed, map_out_fixed, reverse_map_out_fixed,
}
use platform_external_svox.DecisionTree.Maps.RoundTrip.{IsMap, map_out_fixed-reverse_map_out_fixed}

abbrev kb : List ℕ
kb =
    6 ∷ 0 ∷ 10 ∷ 0 ∷ 19 ∷ 0 ∷ 1 ∷ 3 ∷ 0 ∷ 0 ∷ 1 ∷ 8 ∷ 0 ∷ 1 ∷ 3 ∷ 0 ∷ 5 ∷ 9 ∷ 5 ∷ 2 ∷ 1 ∷ 4 ∷ 1 ∷ 5
    ∷ 2 ∷ 3 ∷ 3 ∷ 8 ∷ 4 ∷ 5 ∷ 0 ∷ 0 ∷ 0 ∷ 85 ∷ 0 ∷ 67 ∷ 140 ∷ 128 ∷ []

abbrev raw : KdtSubobj
raw = record {
  base = kb;
  inpmaptable = none;
  outmaptable = none;
  tree = none;
  beg_offset = 0 ∷ 0 ∷ [];
  vfields = 0;
  qfields = 0;
  nrattributes = 0;
  treebody = 0;
  dset = false;
  dclass = 0;
}

abbrev read : KdtSubobj
read = record raw {
  inpmaptable = some 6;
  outmaptable = some 10;
  tree = some 19;
  beg_offset = 1 ∷ 4 ∷ [];
  vfields = 20;
  qfields = 24;
  nrattributes = 1;
  treebody = 33;
}

abbrev tree : Tree
tree = record { dt = raw; invec = 7 ∷ []; inveclen = 1 }

abbrev em : ExceptionManager
em = record {
  cur_exception_code = ok;
  cur_exception_message = [];
  cur_num_warnings = 0;
  cur_warning_code = [];
  cur_warning_message = [];
}

tree_loaded :
    tree_initialize tree 1 1 1 1 em ≡ (ok, record { dt = read; invec = 0 ∷ []; inveclen = 0 }, em)
unfolding tree_initialize dt_initialize dt_check init_tree offsets_loop clear_loop
    read_mem_pi_uint16
tree_loaded = refl

-- Another number of attributes is refused.
tree_refused : (tree_initialize tree 2 1 1 1 em).0 ≡ exc_file_corrupt
unfolding tree_initialize dt_initialize dt_check init_tree offsets_loop read_mem_pi_uint16
    em_raise_exception
tree_refused = refl

mapped_in : map_in_fixed read 0 77 ≡ (true, 77, 0)
unfolding map_in_fixed
mapped_in = refl

mapped_back : reverse_map_out_fixed read 9 ≡ (true, 1, 3)
unfolding reverse_map_out_fixed find_value find_loop
mapped_back = refl

not_mapped : reverse_map_out_fixed read 8 ≡ (false, 0, 3)
unfolding reverse_map_out_fixed find_value find_loop
not_mapped = refl

read-IsMap : IsMap read 10
read-IsMap = record {
  table = refl;
  single = refl;
  typed = inl refl;
  long = omega arith;
  short = omega arith;
}

map_out_fixed-reverse_map_out_fixed_example :
    (map_out_fixed read 2 ≡ (true, some 5))
    × ((reverse_map_out_fixed read 5).0 ≡ true)
    × ((reverse_map_out_fixed read 5).1 ≤ 2)
    × (map_out_fixed read (reverse_map_out_fixed read 5).1 ≡ (true, some 5))
map_out_fixed-reverse_map_out_fixed_example =
    map_out_fixed-reverse_map_out_fixed read 10 2 read-IsMap (omega arith)
