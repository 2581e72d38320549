-- ===== src/DecisionTree/Tests.antt =====
-- A small tree of pico/lib/picokdt.c: a binary node, whose second fork leads to a node with a threshold,
-- and runs of it.
use platform_external_svox.Common.{
  ℕ, zero, suc, ◌+◌, ◌≤◌, ◌<◌, ◌≡◌, ◌%◌, refl, arith, Bool, true, false, ◌&&◌, both, ltb, ltb→lt,
  List, [], ◌∷◌, if◌then◌else◌, ◌==◌, ◌-◌, ◌-ℤ◌, ◌+ℤ◌, get_or, length, Option, none, some, u32_mod,
}
use platform_external_svox.DecisionTree.{
  classify_loop, discrete, subsets, subset, one_value, bit_mask, ask_tree, forks_loop, node,
  terminal, binary, continuous, bits_loop, bytes_loop, settle, KdtSubobj, kdt_jump, get_shift_val,
  get_q_fields_val, bit_count, fork_count, classify,
}
use platform_external_svox.DecisionTree.Bits.Shift.{get_shift_val_lem}
use platform_external_svox.DecisionTree.Bits.{cursor_at, number, kdt_jump-cursor_at}
use platform_external_svox.DecisionTree.Moves.{IsTame}
use platform_external_svox.DecisionTree.Asks.{IsVector}
use platform_external_svox.DecisionTree.Groups.{first, member, group_at}
use platform_external_svox.DecisionTree.Groups.Chosen.{discrete_lem}
use platform_external_svox.DecisionTree.Ends.{classify_ends}

-- A tree with one attribute. Its questions have 1 bit, classes 4, fork counts, the first members and the
-- sizes of groups 3, jumps 8, thresholds 4.
abbrev tree_of : List ℕ → KdtSubobj
tree_of bytes = record {
  base = 1 ∷ 4 ∷ 3 ∷ 3 ∷ 3 ∷ 8 ∷ 4 ∷ bytes;
  inpmaptable = none;
  outmaptable = none;
  tree = none;
  beg_offset = [];
  vfields = 0;
  qfields = 2;
  nrattributes = 1;
  treebody = 7;
  dset = false;
  dclass = 0;
}

-- 01 0 1 0101 0 00000000, then 10 0 0011 1 0001 1 0010.
abbrev small_tree : KdtSubobj
small_tree = tree_of (85 ∷ 0 ∷ 67 ∷ 140 ∷ 128 ∷ [])

-- 11 0 011, the groups 00 101 (the value 5) and 11 010 011 101 (2 and 4), then 1 0001 1 0010 1 0011.
abbrev discrete_tree : KdtSubobj
discrete_tree = tree_of (204 ∷ 186 ∷ 118 ∷ 50 ∷ 152 ∷ [])

abbrev below : ℕ → List ℕ → Bool
below n [] = true
below n (x ∷ l) = ltb x n && below n l

below-get_or : (n : ℕ) (l : List ℕ) (i : ℕ) → 0 < n → below n l ≡ true → get_or l i 0 < n
below-get_or n [] i h b = h
below-get_or n (x ∷ l) zero h b = ltb→lt x n ((both (ltb x n) (below n l) b).0)
below-get_or n (x ∷ l) (suc i) h b = below-get_or n l i h ((both (ltb x n) (below n l) b).1)

field_size : (bytes : List ℕ) (q i : ℕ) → q < 1 → i < 5 → get_q_fields_val (tree_of bytes) q i ≤ 8
field_size bytes zero zero hq hi = omega arith
field_size bytes zero (suc zero) hq hi = omega arith
field_size bytes zero (suc (suc zero)) hq hi = omega arith
field_size bytes zero (suc (suc (suc zero))) hq hi = omega arith
field_size bytes zero (suc (suc (suc (suc zero)))) hq hi = omega arith
field_size bytes zero (suc (suc (suc (suc (suc i))))) hq hi = absurd (omega arith)
field_size bytes (suc q) i hq hi = absurd (omega arith)

tree_of-IsTame :
    (bytes : List ℕ)
    → below 256 (tree_of bytes).base ≡ true
    → length (tree_of bytes).base < 2147483648
    → IsTame (tree_of bytes)
tree_of-IsTame bytes small short = record {
  bytes = λ b. below-get_or 256 (tree_of bytes).base (7 + b) (omega arith) small;
  questions = omega arith;
  decisions = omega arith;
  qfields = λ q i hq hi. omega (arith, field_size bytes q i hq hi);
  counts = λ q hq. omega (arith, field_size bytes q bit_count hq (omega arith));
  forks = λ q hq. field_size bytes q fork_count hq (omega arith);
  short = short;
}

small_tree-IsTame : IsTame small_tree
small_tree-IsTame = tree_of-IsTame (85 ∷ 0 ∷ 67 ∷ 140 ∷ 128 ∷ []) refl (omega arith)

discrete_tree-IsTame : IsTame discrete_tree
discrete_tree-IsTame = tree_of-IsTame (204 ∷ 186 ∷ 118 ∷ 50 ∷ 152 ∷ []) refl (omega arith)

abbrev ones : List ℕ
ones = 1 ∷ []

ones-IsVector : IsVector ones
ones-IsVector i = below-get_or 65536 ones i (omega arith) refl

class_5 :
    classify 97 small_tree (0 ∷ []) 1 ≡ some (some 5, record small_tree { dset = true; dclass = 5 })
unfolding classify classify_loop ask_tree forks_loop node terminal binary continuous get_shift_val
    bits_loop bytes_loop settle kdt_jump ◌-ℤ◌ ◌+ℤ◌
class_5 = refl

class_1 :
    classify 97 small_tree (1 ∷ []) 1 ≡ some (some 1, record small_tree { dset = true; dclass = 1 })
unfolding classify classify_loop ask_tree forks_loop node terminal binary continuous get_shift_val
    bits_loop bytes_loop settle kdt_jump ◌-ℤ◌ ◌+ℤ◌
class_1 = refl

-- An input vector that is too short gives no class.
class_none : classify 97 small_tree [] 0 ≡ some (none, small_tree)
unfolding classify classify_loop ask_tree forks_loop node terminal binary continuous get_shift_val
    bits_loop bytes_loop settle kdt_jump ◌-ℤ◌ ◌+ℤ◌
class_none = refl

kdt_jump-cursor_at_runs : kdt_jump 13 (cursor_at 5) ≡ cursor_at 18
kdt_jump-cursor_at_runs = kdt_jump-cursor_at 13 5 (omega arith)

get_shift_val_lem_example :
    get_shift_val small_tree 12 (cursor_at 3) ≡ (number small_tree 0 12 3 % u32_mod, cursor_at 15)
get_shift_val_lem_example =
    get_shift_val_lem small_tree small_tree-IsTame.bytes 12 3 (omega arith) (omega arith)

classify_ends_example : (r : Option ℕ × KdtSubobj) × (classify 97 small_tree ones 1 ≡ some r)
classify_ends_example =
    classify_ends small_tree ones 1 97 small_tree-IsTame ones-IsVector (omega arith)

-- Of the values 5, 4 and 3 the mask has the second one only.
classes :
    ((classify 97 discrete_tree (5 ∷ []) 1)
      ≡ some (some 1, record discrete_tree { dset = true; dclass = 1 }))
    × ((classify 97 discrete_tree (4 ∷ []) 1)
        ≡ some (some 2, record discrete_tree { dset = true; dclass = 2 }))
    × ((classify 97 discrete_tree (3 ∷ []) 1)
        ≡ some (some 3, record discrete_tree { dset = true; dclass = 3 }))
unfolding classify classify_loop ask_tree forks_loop node discrete subsets subset one_value bit_mask
    get_shift_val bits_loop bytes_loop settle kdt_jump ◌-ℤ◌ ◌+ℤ◌
classes = (refl, refl, refl)

discrete_lem_example : discrete discrete_tree 0 4 (cursor_at 3) ≡ (
  number discrete_tree 0 3 3,
  (if number discrete_tree 0 3 3 == 0
      then none
      else some (first (number discrete_tree 0 3 3 - 1) (member discrete_tree 0 4 6))),
  cursor_at (group_at discrete_tree 0 (number discrete_tree 0 3 3 - 1) 6),
)
discrete_lem_example =
    discrete_lem discrete_tree discrete_tree-IsTame 0 4 (omega arith) (omega arith) 3 (omega arith)
