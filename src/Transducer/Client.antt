-- ===== src/Transducer/Client.antt =====
-- The transducer of pico/lib/picokfst.c as pico/lib/picotrns.c uses it.
use platform_external_svox.Common.{
  ℕ, ◌<◌, ◌≤◌, ◌≡◌, ◌≢◌, some, List, length, ℤ, pos, negsuc, arith, Bool,
}
use platform_external_svox.Kfst.{
  Kfst, start_pair_search, get_next_pair, get_trans, start_in_eps_trans_search,
  get_next_in_eps_trans, is_accepting_state,
}
use platform_external_svox.Kfst.Search.{left, get_next_pair_forward, get_next_in_eps_trans_forward}
use platform_external_svox.Transducer.{FstOps, PosSym, AltDesc, Transduction, transduce}
use platform_external_svox.Transducer.Laws.{IsEnumerable}
use platform_external_svox.Transducer.Stop.{IsOutcome, transduce_fuel, transduce_lem}

abbrev pub kfst_ops : Kfst → FstOps
kfst_ops fst = record {
  start_pair_search = start_pair_search fst;
  get_next_pair = get_next_pair fst;
  get_trans = get_trans fst;
  start_in_eps_trans_search = start_in_eps_trans_search fst;
  get_next_in_eps_trans = get_next_in_eps_trans fst;
  is_accepting_state = is_accepting_state fst;
  size = length fst.fst_stream;
}

left_le : (stream : List ℕ) (z : ℤ) → left stream z ≤ length stream
left_le stream (pos p) = omega arith
left_le stream (negsuc n) = omega arith

pub kfst_ops-IsEnumerable : (fst : Kfst) → IsEnumerable (kfst_ops fst)
kfst_ops-IsEnumerable fst = record {
  left_pairs = left fst.fst_stream;
  left_eps = left fst.fst_stream;
  left_pairs_le = left_le fst.fst_stream;
  left_eps_le = left_le fst.fst_stream;
  left_pairs_lt = get_next_pair_forward fst;
  left_eps_lt = get_next_in_eps_trans_forward fst;
}

-- With any transducer byte stream, well-formed or not, whose hash table does not have the size 0,
-- picotrns_transduce on a nonempty workspace ends within a bound computed from the lengths of the stream and of the workspace. If it counts
-- solutions, modulo 2^32, the output is, up to the caller's maximal length, a complete transduction
-- of the input by that transducer; if it counts none, it is the input.
pub transduce-kfst :
    (fst : Kfst) (first_sol_only : Bool) (in_seq : List PosSym) (max_out : ℕ) (alts : List AltDesc)
    → fst.alpha_hash_tab_size ≢ pos 0
    → 0 < length alts
    → (u : Transduction) × ((transduce
            (kfst_ops fst)
            first_sol_only
            in_seq
            max_out
            alts
            (transduce_fuel (length fst.fst_stream) (length alts))
          ≡ some u)
        × IsOutcome (kfst_ops fst) in_seq max_out u)
transduce-kfst fst first_sol_only in_seq max_out alts sized h =
    transduce_lem (kfst_ops fst) first_sol_only in_seq max_out alts (kfst_ops-IsEnumerable fst) h
