-- ===== src/Kfst/Tests.antt =====
-- A transducer with two states that turns symbol 5 into symbol 7, and the theorems at it.
use platform_external_svox.Common.{
  ℕ, ◌<◌, ◌≡◌, refl, true, false, some, none, List, [], ◌∷◌, ◌++◌, arith, pos, negsuc, ◌+ℤ◌,
}
use platform_external_svox.Kfst.{
  Kfst, Found, kfst_initialize, bytes_to_num, num_loop, fixed_loop, fixed_bytes_to_unsigned_num,
  fixed_bytes_to_signed_num, pair_chain, start_pair_search, next_entry, get_next_pair,
  get_next_in_eps_trans, get_trans, start_in_eps_trans_search, is_accepting_state,
}
use platform_external_svox.Kfst.Numbers.{num_bytes, bytes_to_num-num_bytes, fixed_bytes-be_bytes}
use platform_external_svox.Kfst.Search.{left, enumerations_end, pair_chain-fuel}
use platform_external_svox.Kfst.Table.{HasTable, get_trans_lem, get_trans_out_of_range}

abbrev stream : List ℕ
stream =
    0 ∷ 0 ∷ 0 ∷ 0 ∷ 130 ∷ 130 ∷ 132 ∷ 128 ∷ 130 ∷ 148 ∷ 130 ∷ 166 ∷ 170 ∷ 186 ∷ 0 ∷ 0 ∷ 0 ∷ 8 ∷ 138
    ∷ 128 ∷ 142 ∷ 130 ∷ 129 ∷ 2 ∷ 0 ∷ 0 ∷ 0 ∷ 0 ∷ 0 ∷ 0 ∷ 0 ∷ 0 ∷ 0 ∷ 0 ∷ 1 ∷ []

abbrev pub small_fst : Kfst
small_fst = record {
  fst_stream = stream;
  transduction_mode = pos 1;
  nr_classes = pos 1;
  nr_states = pos 2;
  term_class = pos 0;
  alpha_hash_tab_size = pos 1;
  alpha_hash_tab_pos = pos 14;
  trans_tab_entry_size = pos 1;
  trans_tab_pos = pos 23;
  in_eps_state_tab_pos = pos 25;
  acc_state_tab_pos = pos 33;
}

reads_header : kfst_initialize stream ≡ some small_fst
unfolding kfst_initialize bytes_to_num num_loop ◌+ℤ◌
reads_header = refl

-- The pair of symbol 5 is found behind its cell, and is the only one.
finds_pair :
    (start_pair_search small_fst (pos 5) ≡ pos 20)
    × (get_next_pair small_fst (pos 20)
        ≡ some (record { out_sym = pos 7; target = pos 1; search_state = pos 22 }))
    × (get_next_pair small_fst (pos 22) ≡ none)
    × (start_pair_search small_fst (pos 6) ≡ negsuc 0)
unfolding start_pair_search get_next_pair next_entry pair_chain bytes_to_num num_loop
    fixed_bytes_to_signed_num fixed_loop ◌+ℤ◌
finds_pair = (refl, refl, refl, refl)

states :
    (get_trans small_fst (pos 1) (pos 1) ≡ pos 2)
    × (start_in_eps_trans_search small_fst (pos 1) ≡ negsuc 0)
    × (is_accepting_state small_fst (pos 1) ≡ false)
    × (is_accepting_state small_fst (pos 2) ≡ true)
unfolding get_trans start_in_eps_trans_search is_accepting_state fixed_bytes_to_unsigned_num
    fixed_bytes_to_signed_num fixed_loop ◌+ℤ◌
states = (refl, refl, refl, refl)

bytes_to_num-num_bytes_example :
    bytes_to_num (9 ∷ (num_bytes 2 (negsuc 299) ++ (7 ∷ []))) 1 ≡ some (negsuc 299, 4)
bytes_to_num-num_bytes_example =
    bytes_to_num-num_bytes 2 (negsuc 299) (9 ∷ []) (7 ∷ []) (omega arith) (omega arith)

fixed_bytes-be_bytes_example : fixed_bytes_to_unsigned_num (9 ∷ 1 ∷ 44 ∷ 7 ∷ []) 2 1 ≡ some (300, 3)
fixed_bytes-be_bytes_example =
    fixed_bytes-be_bytes 2 300 (9 ∷ 1 ∷ 44 ∷ 7 ∷ []) (7 ∷ []) 1 (omega arith) (omega arith) refl

abbrev eps_stream : List ℕ
eps_stream = 142 ∷ 130 ∷ 129 ∷ []

abbrev eps_fst : Kfst
eps_fst = record small_fst { fst_stream = eps_stream }

abbrev entry : Found
entry = record { out_sym = pos 7; target = pos 1; search_state = pos 2 }

pair_is_there : get_next_pair eps_fst (pos 0) ≡ some entry
unfolding get_next_pair next_entry bytes_to_num num_loop
pair_is_there = refl

trans_is_there : get_next_in_eps_trans eps_fst (pos 0) ≡ some entry
unfolding get_next_in_eps_trans next_entry bytes_to_num num_loop
trans_is_there = refl

enumerations_end_example :
    (left eps_stream (pos 2) < left eps_stream (pos 0))
    × (left eps_stream (pos 2) < left eps_stream (pos 0))
enumerations_end_example = enumerations_end eps_fst (pos 0) entry entry pair_is_there trans_is_there

pair_chain-fuel_runs : pair_chain 37 stream (pos 5) 18 ≡ pair_chain 36 stream (pos 5) 18
pair_chain-fuel_runs = pair_chain-fuel 36 1 stream (pos 5) 18 (omega arith) (omega arith)

small_fst-HasTable : HasTable small_fst (2 ∷ 0 ∷ []) 2 1 1
small_fst-HasTable = record {
  pre =
      0 ∷ 0 ∷ 0 ∷ 0 ∷ 130 ∷ 130 ∷ 132 ∷ 128 ∷ 130 ∷ 148 ∷ 130 ∷ 166 ∷ 170 ∷ 186 ∷ 0 ∷ 0 ∷ 0 ∷ 8
      ∷ 138 ∷ 128 ∷ 142 ∷ 130 ∷ 129 ∷ [];
  post = 0 ∷ 0 ∷ 0 ∷ 0 ∷ 0 ∷ 0 ∷ 0 ∷ 0 ∷ 0 ∷ 1 ∷ [];
  stream = refl;
  at = refl;
  entry = refl;
  rows = refl;
  columns = refl;
  full = refl;
  entry_small = omega arith;
  columns_small = omega arith;
  fits = omega arith;
}

get_trans_lem_runs : get_trans small_fst (pos 1) (pos 1) ≡ pos 2
get_trans_lem_runs =
    get_trans_lem small_fst (2 ∷ 0 ∷ []) 2 1 1 0 0 small_fst-HasTable (omega arith) (omega arith)
      (omega arith) (omega arith)

get_trans_out_of_range_runs : get_trans small_fst (pos 3) (pos 1) ≡ pos 0
get_trans_out_of_range_runs = get_trans_out_of_range small_fst 2 1 (pos 3) (pos 1) refl refl refl
