-- ===== src/Common/Words.antt =====
-- Unsigned words of 8, 16 and 32 bits: arithmetic wraps at the width.
use Prim.Native.Nat.{ℕ, ◌+◌, ◌-◌, ◌%◌}

abbrev pub u8_mod : ℕ
u8_mod = 256

abbrev pub u16_mod : ℕ
u16_mod = 65536

abbrev pub u32_mod : ℕ
u32_mod = 4294967296

-- `x++` and `x--` on a `picoos_uint16`.
abbrev pub inc16 : ℕ → ℕ
inc16 x = (x + 1) % u16_mod

abbrev pub dec16 : ℕ → ℕ
dec16 x = (x + u16_mod - 1) % u16_mod
