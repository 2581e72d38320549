-- ===== src/DecisionTree/Bits/Shift.antt =====
-- `kdtGetShiftVal` of pico/lib/picokdt.c is compared with reading bit by bit.
use platform_external_svox.Common.{
  ltb→lt, ltb→le, leb→le, leb→lt, ℕ, zero, suc, ◌+◌, ◌-◌, ◌*◌, ◌/◌, ◌%◌, ◌^◌, ◌≤◌, ◌<◌, ◌≡◌, ◌⊎◌,
  refl, sym, ap, ap₂, ◌∙◌, arith, ltb, leb, ◌==◌, pos, negsuc, ◌-ℤ◌, ◌+ℤ◌, u32_mod, false,
  Bool-cases, inl, inr,
}
use platform_external_svox.DecisionTree.{
  KdtSubobj, body, bit_at, bits_loop, bytes_loop, settle, get_shift_val, first_bits, inc32, to_i8,
}
use platform_external_svox.DecisionTree.Bits.{
  cursor, cursor_at, bit, number, IsBytes, step-cursor_at, number-append, number_high, number_mod,
  number-byte_number, byte_field, byte_field_small,
}

shifted_small :
    (v x j : ℕ) → 1 ≤ j → j ≤ 8 → x < 256 → v * 2 ^ j % u32_mod + x / 2 ^ (8 - j) < u32_mod
shifted_small v x zero a b h = absurd (omega arith)
shifted_small v x (suc zero) a b h = omega arith
shifted_small v x (suc (suc zero)) a b h = omega arith
shifted_small v x (suc (suc (suc zero))) a b h = omega arith
shifted_small v x (suc (suc (suc (suc zero)))) a b h = omega arith
shifted_small v x (suc (suc (suc (suc (suc zero))))) a b h = omega arith
shifted_small v x (suc (suc (suc (suc (suc (suc zero)))))) a b h = omega arith
shifted_small v x (suc (suc (suc (suc (suc (suc (suc zero))))))) a b h = omega arith
shifted_small v x (suc (suc (suc (suc (suc (suc (suc (suc zero)))))))) a b h = omega arith
shifted_small v x (suc (suc (suc (suc (suc (suc (suc (suc (suc j))))))))) a b h =
    absurd (omega arith)

no_bits : (t : KdtSubobj) (v p : ℕ) → number t v 0 p ≡ v
unfolding number
no_bits t v p = refl

number_none : (t : KdtSubobj) (v p : ℕ) → v < u32_mod → v ≡ number t v 0 p % u32_mod
unfolding number
number_none t v p small = omega arith

module _ (t : KdtSubobj) (bytes : IsBytes t) where
  at_end : (v n p q : ℕ) → (n ≡ 0) ⊎ (p ≡ q) → number t v n p ≡ number t v n q
  unfolding number
  at_end v zero p q h = refl
  at_end v (suc n) p q (inl h) = absurd (omega arith)
  at_end v (suc n) p q (inr h) = ap (number t v (suc n)) h

  -- The field of a byte, read from bit `j` on.
  field_lem :
      (b j n : ℕ) → j < 8 → n ≤ j + 1 → number t 0 n (8 * b + (7 - j)) ≡ first_bits (body t b) j n
  field_lem b j n hj hn =
      number-byte_number t 0 n b j hj hn ∙ byte_field (body t b) j n (bytes b) hj hn

  -- The first bits of a byte.
  head_lem : (v b n : ℕ) → n ≤ 8 → number t v n (8 * b) ≡ v * 2 ^ n + body t b / 2 ^ (8 - n)
  head_lem v b n hn =
      number_high t v n (8 * b)
      ∙ ap (◌+◌ (v * 2 ^ n)) (
          ap (number t 0 n) (omega arith)
          ∙ field_lem b 7 n (omega arith) hn
          ∙ ap (λ (x : ℕ). x / 2 ^ (8 - n)) (omega (arith, bytes b)))

  -- What a round of the loop makes of the value read so far.
  abbrev shifted : ℕ → ℕ → ℕ → ℕ
  shifted v b j = v * 2 ^ j % u32_mod + body t b / 2 ^ (8 - j)

  shifted_lem :
      (v len b j : ℕ)
      → j ≤ 8
      → j ≤ len
      → (len - j ≡ 0) ⊎ (j ≡ 8)
      → number t v len (8 * b) % u32_mod
        ≡ number t (shifted v b j) (len - j) (8 * (b + 1)) % u32_mod
  shifted_lem v len b j small le last =
      let whole : j + (len - j) ≡ len = omega arith in
      ap (λ (n : ℕ). number t v n (8 * b) % u32_mod) (sym whole)
      ∙ ap (λ (x : ℕ). x % u32_mod) (number-append t v j (len - j) (8 * b))
      ∙ ap (λ (x : ℕ). number t x (len - j) (8 * b + j) % u32_mod) (head_lem v b j small)
      ∙ number_mod t (v * 2 ^ j + body t b / 2 ^ (8 - j)) (shifted v b j) (len - j) (8 * b + j)
          (omega arith)
      ∙ ap (λ (x : ℕ). x % u32_mod)
          (at_end (shifted v b j) (len - j) (8 * b + j) (8 * (b + 1))
            (elim last [ inl h ↦ inl h | inr e ↦ inr (omega arith) ]))

  bytes_loop_lem :
      (fuel len b v : ℕ)
      → len ≤ fuel
      → v < u32_mod
      → b + len < u32_mod
      → bytes_loop fuel t len b v ≡ number t v len (8 * b) % u32_mod
  unfolding bytes_loop
  bytes_loop_lem zero zero b v le small room = number_none t v (8 * b) small
  bytes_loop_lem zero (suc len) b v le small room = absurd (omega arith)
  bytes_loop_lem (suc fuel) zero b v le small room = number_none t v (8 * b) small
  bytes_loop_lem (suc fuel) (suc len) b v le small room =
      let next : inc32 b ≡ b + 1 = omega arith in
      let going : (suc len == 0) ≡ false = ground arith in
      elim (Bool-cases (leb 8 (suc len))) [
        | inl more ↦
            rw (more, going, next)
              (bytes_loop_lem fuel (suc len - 8) (b + 1) (shifted v b 8) (omega arith)
                  (shifted_small v (body t b) 8 (omega arith) (omega arith) (bytes b)) (omega arith)
                ∙ sym (shifted_lem v (suc len) b 8 (omega arith) (ground arith) (inr refl)))
        | inr last ↦
            rw (last, going, next)
              (bytes_loop_lem fuel (suc len - suc len) (b + 1) (shifted v b (suc len)) (omega arith)
                  (shifted_small v (body t b) (suc len) (omega arith) (ground arith) (bytes b))
                  (omega arith)
                ∙ sym (
                    shifted_lem v (suc len) b (suc len) (ground arith) (omega arith)
                      (inl (omega arith))))
      ]

-- The cursor's bit, brought back to 0..7.
settle_lem :
    (fuel k b : ℕ)
    → k + 1 ≤ 8 * fuel
    → b + k / 8 + 1 < u32_mod
    → settle (suc fuel) (negsuc k) b ≡ record { byte = b + k / 8 + 1; bit = 7 - k % 8 }
unfolding settle ◌+ℤ◌
settle_lem zero k b le room = absurd (omega arith)
settle_lem (suc fuel) k b le room =
    let next : inc32 b ≡ b + 1 = omega arith in
    elim (Bool-cases (ltb k 8)) [
      | inl last ↦
          let less : negsuc k +ℤ pos 8 ≡ pos (7 - k) = ground arith in
          ap (λ z. settle (suc fuel) z (inc32 b)) less
          ∙ ap₂ cursor (omega (arith, ltb→lt k 8 last)) (omega (arith, ltb→lt k 8 last))
      | inr more ↦
          let less : negsuc k +ℤ pos 8 ≡ negsuc (k - 8) = ground arith in
          ap₂ (settle (suc fuel)) less next
          ∙ settle_lem fuel (k - 8) (b + 1) (ground arith) (omega (arith, ltb→le k 8 more))
          ∙ ap₂ cursor (omega (arith, ltb→le k 8 more)) (omega (arith, ltb→le k 8 more))
    ]

bits_loop_lem :
    (t : KdtSubobj) (i p v : ℕ)
    → p + i < 34359738360
    → bits_loop t i (cursor_at p) v ≡ (v + number t 0 i p, cursor_at (p + i))
unfolding bits_loop number
bits_loop_lem t zero p v room =
    ap₂ (λ (x : ℕ) (q : ℕ). (x, cursor_at q)) (omega arith) (omega arith)
bits_loop_lem t (suc i) p v room =
    let high = number_high t (2 * 0 + bit t p) i (p + 1) in
    let same : (2 * 0 + bit t p) * 2 ^ i ≡ bit_at t (cursor_at p) * 2 ^ i =
      ap (λ (x : ℕ). x * 2 ^ i) (omega arith) in
    ap (λ c. bits_loop t i c (v + bit_at t (cursor_at p) * 2 ^ i)) (step-cursor_at p (omega arith))
    ∙ bits_loop_lem t i (p + 1) (v + bit_at t (cursor_at p) * 2 ^ i) (omega arith)
    ∙ ap₂ (λ (x : ℕ) (q : ℕ). (x, cursor_at q)) (omega (arith, high, same)) (omega arith)

z_inside : (j n : ℕ) → j < 8 → n ≤ j → to_i8 (pos j -ℤ pos n) ≡ pos (j - n)
unfolding ◌-ℤ◌
z_inside j n hj h = ground arith

z_beyond : (j n : ℕ) → j < 8 → n ≤ 120 → j < n → to_i8 (pos j -ℤ pos n) ≡ negsuc (n - j - 1)
unfolding ◌-ℤ◌
z_beyond j n hj hn h = ground arith

-- Fewer than four bits make a number below 8.
number_small : (t : KdtSubobj) (n p : ℕ) → n < 4 → number t 0 n p < 8
unfolding number
number_small t zero p h = omega arith
number_small t (suc zero) p h = omega arith
number_small t (suc (suc zero)) p h = omega arith
number_small t (suc (suc (suc zero))) p h = omega arith
number_small t (suc (suc (suc (suc n)))) p h = absurd (omega arith)

module _ (t : KdtSubobj) (bytes : IsBytes t) where
  value_lem :
      (n b j : ℕ)
      → j < 8
      → n ≤ 120
      → b + n + 1 < u32_mod
      → bytes_loop n t (n - (j + 1)) (inc32 b) (first_bits (body t b) j n)
        ≡ number t 0 n (8 * b + (7 - j)) % u32_mod
  value_lem n b j hj small room =
      let next : inc32 b ≡ b + 1 = omega arith in
      let fits = byte_field_small (body t b) j n (bytes b) in
      ap (λ (c : ℕ). bytes_loop n t (n - (j + 1)) c (first_bits (body t b) j n)) next
      ∙ bytes_loop_lem t bytes n (n - (j + 1)) (b + 1) (first_bits (body t b) j n) (omega arith)
          (omega arith) (omega arith)
      ∙ ap (λ (x : ℕ). x % u32_mod)
          (elim (Bool-cases (leb n (j + 1))) [
            | inl short ↦
                at_end t bytes (first_bits (body t b) j n) (n - (j + 1)) (8 * (b + 1)) 0
                  (inl (ground arith))
                ∙ ap (λ (k : ℕ). number t (first_bits (body t b) j n) k 0)
                    (omega (arith, leb→le n (j + 1) short))
                ∙ no_bits t (first_bits (body t b) j n) 0
                ∙ sym (field_lem t bytes b j n hj (leb→le n (j + 1) short))
            | inr long ↦
                let le = leb→lt n (j + 1) long in
                let whole : j + 1 + (n - (j + 1)) ≡ n = omega arith in
                ap
                  (λ (k : ℕ). number t (body t b % 2 ^ (j + 1) / 2 ^ k) (n - (j + 1)) (8 * (b + 1)))
                  (omega arith)
                ∙ ap (λ (x : ℕ). number t x (n - (j + 1)) (8 * (b + 1)))
                    (sym (field_lem t bytes b j (j + 1) hj (omega arith)))
                ∙ ap (number t (number t 0 (j + 1) (8 * b + (7 - j))) (n - (j + 1))) (omega arith)
                ∙ sym (number-append t 0 (j + 1) (n - (j + 1)) (8 * b + (7 - j)))
                ∙ ap (λ (k : ℕ). number t 0 k (8 * b + (7 - j))) whole
          ])

  cursor_lem :
      (n p : ℕ)
      → 0 < n
      → n ≤ 120
      → p + n < 34359736000
      → settle 17 (to_i8 (pos (7 - p % 8) -ℤ pos n)) (p / 8) ≡ cursor_at (p + n)
  unfolding settle
  cursor_lem n p pos_n small room = elim (Bool-cases (leb n (7 - p % 8))) [
    | inl inside ↦
        let le = leb→le n (7 - p % 8) inside in
        let z : to_i8 (pos (7 - p % 8) -ℤ pos n) ≡ pos (7 - p % 8 - n) =
          z_inside (7 - p % 8) n (omega arith) le in
        ap (λ x. settle 17 x (p / 8)) z ∙ ap₂ cursor (omega arith) (omega arith)
    | inr beyond ↦
        let lt = leb→lt n (7 - p % 8) beyond in
        let z : to_i8 (pos (7 - p % 8) -ℤ pos n) ≡ negsuc (n - (7 - p % 8) - 1) =
          z_beyond (7 - p % 8) n (omega arith) small lt in
        ap (λ x. settle 17 x (p / 8)) z
        ∙ settle_lem 16 (n - (7 - p % 8) - 1) (p / 8) (omega arith) (omega arith)
        ∙ ap₂ cursor (omega arith) (omega arith)
  ]

  -- `kdtGetShiftVal` of `n` bits, 120 at most, from bit `p`, in a body of bytes, gives the number that
  -- reading them one by one gives, as a 32-bit word, and the cursor behind them, if all of them stand
  -- in bytes with 32-bit numbers.
  pub get_shift_val_lem :
      (n p : ℕ)
      → n ≤ 120
      → p + n < 34359736000
      → get_shift_val t n (cursor_at p) ≡ (number t 0 n p % u32_mod, cursor_at (p + n))
  unfolding get_shift_val
  get_shift_val_lem n p small room = elim (Bool-cases (ltb n 4)) [
    | inl few ↦ rw few (
        bits_loop_lem t n p 0 (omega arith)
        ∙ ap (λ (x : ℕ). (x, cursor_at (p + n)))
            (omega (arith, number_small t n p (ltb→lt n 4 few))))
    | inr many ↦
        let le = ltb→le n 4 many in
        rw many (
          ap₂ (λ (x : ℕ) c. (x, c))
            (value_lem n (p / 8) (7 - p % 8) (omega arith) small (omega arith)
              ∙ ap (λ (q : ℕ). number t 0 n q % u32_mod) (omega arith))
            (cursor_lem n p (omega arith) small room))
  ]
