-- ===== src/DecisionTree/Moves.antt =====
-- Trees of pico/lib/picokdt.c whose fields have sizes that fit the numbers read from them, and how far
-- the cursor moves on a read.
use platform_external_svox.Common.{ℕ, ◌+◌, ◌%◌, ◌≤◌, ◌<◌, ◌≡◌, arith, length, u32_mod}
use platform_external_svox.DecisionTree.{
  KdtSubobj, Cursor, get_shift_val, get_q_fields_val, vfield, fork_count, bit_count, question,
  decide, field,
}
use platform_external_svox.DecisionTree.Bits.Shift.{get_shift_val_lem}
use platform_external_svox.DecisionTree.Bits.{cursor_at, number, IsBytes}

-- The sizes of the fields, in bits, and the length of the knowledge base, in bytes.
pub record IsTame (t : KdtSubobj) : Type 0 where
  pub bytes : IsBytes t
  pub questions : vfield t question ≤ 32
  pub decisions : vfield t decide ≤ 32
  pub qfields : (q i : ℕ) → q < t.nrattributes → i < 5 → get_q_fields_val t q i ≤ 31
  pub counts : (q : ℕ) → q < t.nrattributes → get_q_fields_val t q bit_count ≤ 16
  pub forks : (q : ℕ) → q < t.nrattributes → get_q_fields_val t q fork_count ≤ 8
  pub short : length t.base < 2147483648

-- From bit `p` the cursor comes to a bit at most `d` behind it.
abbrev pub Moves : ℕ → ℕ → Cursor → Type 0
Moves p d c = (p' : ℕ) × (c ≡ cursor_at p') × (p ≤ p') × (p' ≤ p + d)

module _ (t : KdtSubobj) (tame : IsTame t) where
  pub get_at :
      (n p : ℕ)
      → n ≤ 32
      → p < 34359730000
      → get_shift_val t n (cursor_at p) ≡ (number t 0 n p % u32_mod, cursor_at (p + n))
  get_at n p small room = get_shift_val_lem t tame.bytes n p (omega arith) (omega arith)

  module _ (q val : ℕ) (asked : q < t.nrattributes) where
    pub size_of : (i : ℕ) → i < 5 → field t q val i ≤ 32
    size_of i h = omega (arith, tame.qfields q i asked h)
