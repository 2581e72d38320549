-- ===== src/Utf8/Encoding.antt =====
-- What an encoded character is, and that pico/lib/picobase.c encodes and decodes alike.
use platform_external_svox.Common.{
  ℕ, suc, ◌+◌, ◌/◌, ◌%◌, ◌<◌, ◌≤◌, ◌≡◌, true, List, [], ◌∷◌, arith, length, All, inl, inr, sym,
  subst, ◌⊎◌,
}
use platform_external_svox.Utf8.{det_utf8_length, utf8_maxlen, utf8_to_utf32, utf32_to_utf8}

-- A byte 10xxxxxx.
abbrev pub IsFollow : ℕ → Type 0
IsFollow b = (128 ≤ b) × (b < 192)

-- A first byte and as many following bytes as it announces.
abbrev pub IsUtf8Char : List ℕ → Type 0
IsUtf8Char [] = 1 ≤ 0
IsUtf8Char (b ∷ follow) = (0 < b) × (det_utf8_length b ≡ suc (length follow)) × All IsFollow follow

-- A scalar that utf32_to_utf8 encodes.
abbrev pub IsScalar : ℕ → Type 0
IsScalar x = (0 < x) × (x < 1048576)

abbrev pub encode : ℕ → List ℕ
encode x = (utf32_to_utf8 x utf8_maxlen).0

-- The four forms of an encoding.
pub encode-cases :
    (x : ℕ)
    → x < 1048576
    → ((x < 128) × (encode x ≡ x ∷ []))
      ⊎ (((128 ≤ x) × (x < 2048) × (encode x ≡ (192 + x / 64 % 32) ∷ (128 + x % 64) ∷ []))
          ⊎ (((2048 ≤ x)
                × (x < 65536)
                × (encode x ≡ (224 + x / 64 / 64) ∷ (128 + x / 64 % 64) ∷ (128 + x % 64) ∷ []))
              ⊎ ((65536 ≤ x)
                  × (encode x
                      ≡ (240 + x / 64 / 64 / 64)
                        ∷ (128 + x / 64 / 64 % 64)
                        ∷ (128 + x / 64 % 64)
                        ∷ (128 + x % 64)
                        ∷ []))))
unfolding utf32_to_utf8
encode-cases x h = ground arith

pub encode-IsUtf8Char : (x : ℕ) → IsScalar x → IsUtf8Char (encode x)
unfolding det_utf8_length
encode-IsUtf8Char x (p, h) = elim (encode-cases x h) [
  | inl (a, e) ↦ subst IsUtf8Char (sym e) (p, ground arith, tt)
  | inr (inl (a, b, e)) ↦
      subst IsUtf8Char (sym e) (omega arith, ground arith, ((omega arith, omega arith), tt))
  | inr (inr (inl (a, b, e))) ↦
      subst IsUtf8Char (sym e)
        (omega arith, ground arith, ((omega arith, omega arith), ((omega arith, omega arith), tt)))
  | inr (inr (inr (a, e))) ↦ subst IsUtf8Char (sym e) (
    omega arith,
    ground arith,
    ((omega arith, omega arith), ((omega arith, omega arith), ((omega arith, omega arith), tt))),
  )
]

-- A scalar below 2^20 that picobase_utf32_to_utf8 encodes, with room for four bytes, is decoded by
-- picobase_utf8_to_utf32, and both report success.
pub utf8_to_utf32-utf32_to_utf8 :
    (x max : ℕ)
    → x < 1048576
    → 4 ≤ max
    → let r = utf32_to_utf8 x max in (r.1 ≡ true) × (utf8_to_utf32 r.0 ≡ (x, true))
unfolding utf32_to_utf8 utf8_to_utf32
utf8_to_utf32-utf32_to_utf8 x max h k = ground arith
