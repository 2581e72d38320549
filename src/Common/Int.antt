-- ===== src/Common/Int.antt =====
-- Signed integers over the native numbers, and their words.
use Prim.Native.Nat.{ℕ, suc, ◌+◌, ◌-◌, ◌/◌, ◌%◌, ◌≤◌, ◌<◌}
use mathlib.Core.Path.{◌≡◌}
use mathlib.Core.Bool.{Bool, true}
use native.Mathlib.Omega.{arith}
use platform_external_svox.Common.Tests.{ltb, leb, ◌==◌, if◌then◌else◌}

-- `negsuc n` is -(n + 1).
pub data ℤ : Type 0 where
  pos : ℕ → ℤ
  negsuc : ℕ → ℤ

abbrev pub pos_part : ℤ → ℕ
pos_part (pos n) = n
pos_part (negsuc n) = 0

abbrev pub neg_part : ℤ → ℕ
neg_part (pos n) = 0
neg_part (negsuc n) = suc n

-- a - b, as an integer.
abbrev pub sub_ℕ : ℕ → ℕ → ℤ
sub_ℕ a b = if leb b a then pos (a - b) else negsuc (b - a - 1)

infixl 65 ◌+ℤ◌ ◌-ℤ◌
unfoldable pub ◌+ℤ◌ : ℤ → ℤ → ℤ
a +ℤ b = sub_ℕ (pos_part a + pos_part b) (neg_part a + neg_part b)

unfoldable pub ◌-ℤ◌ : ℤ → ℤ → ℤ
a -ℤ b = sub_ℕ (pos_part a + neg_part b) (neg_part a + pos_part b)

infix 50 ◌<ℤ◌ ◌≤ℤ◌
abbrev pub ◌≤ℤ◌ : ℤ → ℤ → Type 0
a ≤ℤ b = pos_part a + neg_part b ≤ pos_part b + neg_part a

abbrev pub ◌<ℤ◌ : ℤ → ℤ → Type 0
a <ℤ b = pos_part a + neg_part b < pos_part b + neg_part a

abbrev pub ltz : ℤ → ℤ → Bool
ltz a b = ltb (pos_part a + neg_part b) (pos_part b + neg_part a)

abbrev pub eqz : ℤ → ℤ → Bool
eqz a b = (pos_part a + neg_part b) == (pos_part b + neg_part a)

-- The word of `m` values that stands for an integer.
abbrev pub to_word : ℕ → ℤ → ℕ
to_word m (pos n) = n % m
to_word m (negsuc n) = (m - 1) - n % m

-- The integer that a word of `m` values stands for in two's complement.
abbrev pub from_word : ℕ → ℕ → ℤ
from_word m w = if ltb w (m / 2) then pos w else negsuc (m - 1 - w)

-- The casts to `picoos_int16` and `picoos_uint32`.
abbrev pub to_i16 : ℤ → ℤ
to_i16 z = from_word 65536 (to_word 65536 z)

abbrev pub to_u32 : ℤ → ℕ
to_u32 z = to_word 4294967296 z

pub to_i16_small : (n : ℕ) → n < 32768 → to_i16 (pos n) ≡ pos n
to_i16_small n h = ground arith

pub eqz→eq : (a b : ℤ) → eqz a b ≡ true → a ≡ b
eqz→eq a b h = ground arith

pub eqz_refl : (a : ℤ) → eqz a a ≡ true
eqz_refl a = ground arith

pub pos-add : (a b : ℕ) → pos a +ℤ pos b ≡ pos (a + b)
unfolding ◌+ℤ◌
pos-add a b = ground arith
