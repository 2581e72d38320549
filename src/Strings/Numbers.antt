-- ===== src/Strings/Numbers.antt =====
-- Numbers of pico/lib/picoos.c: what is written is read back.
use platform_external_svox.Common.{
  ℕ, zero, suc, ◌+◌, ◌-◌, ◌*◌, ◌/◌, ◌%◌, ◌^◌, ◌<◌, ◌≤◌, ◌≡◌, ◌≢◌, true, false, not, ◌&&◌, List, [],
  ◌∷◌, ◌++◌, leb, ◌==◌, length, get_or, set, All, u16_mod, u32_mod, pos, from_word, refl, ap, sym,
  ◌∙◌, arith, append-nil, get_or-set_self, get_or-set_ne, length-set, sub_ℕ, ◌⊎◌,
}
use native.Mathlib.Nat.{pow-succ', mul-le-mul_left}
use platform_external_svox.Status.{ok}
use platform_external_svox.Strings.{
  skip_spaces, is_digit, digits_loop, head, unsigned_part, string_to_int32, string_to_uint32,
  read_mem_pi_uint16, write_mem_pi_uint16,
}

abbrev pub IsDigit : ℕ → Type 0
IsDigit c = (48 ≤ c) × (c ≤ 57)

abbrev pub IsSpace : ℕ → Type 0
IsSpace c = (0 < c) × (c ≤ 32)

-- The decimal value, each digit by its place.
abbrev pub decimal : List ℕ → ℕ
decimal [] = 0
decimal (c ∷ ds) = (c - 48) * 10 ^ length ds + decimal ds

digits_step : (v d p w : ℕ) → (v * 10 + d) * p + w ≡ v * (10 * p) + (d * p + w)
digits_step v d p w = grind arith

ten_pow : (n : ℕ) → 1 ≤ 10 ^ n
ten_pow zero = omega arith
ten_pow (suc n) = omega (arith, pow-succ' 10 n, ten_pow n)

small : (n : ℕ) → n < 2147483648 → from_word u32_mod n ≡ pos n
small n h = ground arith

negated : (n : ℕ) → n < 2147483648 → from_word u32_mod ((u32_mod - n) % u32_mod) ≡ sub_ℕ 0 n
negated n h = ground arith

digits_lem :
    (ds s : List ℕ) (v : ℕ)
    → All IsDigit ds
    → is_digit (head s) ≡ false
    → v * 10 ^ length ds + decimal ds < u32_mod
    → digits_loop (ds ++ s) v ≡ (v * 10 ^ length ds + decimal ds, s)
unfolding digits_loop
digits_lem [] [] v a e h = ap (λ n. (n, [])) (omega arith)
digits_lem [] (c ∷ s) v a e h = rw e (ap (λ n. (n, c ∷ s)) (omega arith))
digits_lem (d ∷ ds) s v ((lo, hi), a) e h =
    let p : ℕ = 10 ^ length ds in
    let here : is_digit d ≡ true = ground arith in
    let power : 10 ^ suc (length ds) ≡ 10 * p = pow-succ' 10 (length ds) in
    let total : (v * 10 + (d - 48)) * p + decimal ds
        ≡ v * 10 ^ suc (length ds) + ((d - 48) * p + decimal ds) =
      digits_step v (d - 48) p (decimal ds)
      ∙ ap (λ q. v * q + ((d - 48) * p + decimal ds)) (sym power) in
    let one : 1 ≤ p = ten_pow (length ds) in
    let grows : (v * 10 + (d - 48)) * 1 ≤ (v * 10 + (d - 48)) * p =
      mul-le-mul_left (v * 10 + (d - 48)) one in
    let fits : (v * 10 + (d - 48)) % u32_mod ≡ v * 10 + (d - 48) = omega (arith, grows, total, h) in
    rw (here, fits)
      (digits_lem ds s (v * 10 + (d - 48)) a e (omega (arith, total, h)) ∙ ap (λ n. (n, s)) total)

pub skip_spaces_lem :
    (a s : List ℕ)
    → All IsSpace a
    → (leb (head s) 32 && not (head s == 0)) ≡ false
    → skip_spaces (a ++ s) ≡ s
unfolding skip_spaces
skip_spaces_lem [] [] h e = refl
skip_spaces_lem [] (c ∷ s) h e = rw e refl
skip_spaces_lem (c ∷ a) s ((lo, hi), h) e =
    let space : (leb c 32 && not (c == 0)) ≡ true = ground arith in
    rw space (skip_spaces_lem a s h e)

space_no_digit : (b : List ℕ) → All IsSpace b → is_digit (head b) ≡ false
space_no_digit [] h = refl
space_no_digit (c ∷ b) ((lo, hi), h) = ground arith

unsigned_part_lem :
    (d : ℕ) (ds b : List ℕ)
    → All IsDigit (d ∷ ds)
    → All IsSpace b
    → decimal (d ∷ ds) < u32_mod
    → unsigned_part ((d ∷ ds) ++ b) ≡ (decimal (d ∷ ds), true)
unfolding unsigned_part
unsigned_part_lem d ds b ((lo, hi), a) s h =
    let here : is_digit d ≡ true = ground arith in
    let skipped : skip_spaces b ≡ [] =
      ap skip_spaces (sym (append-nil b)) ∙ skip_spaces_lem b [] s refl in
    let read : digits_loop ((d ∷ ds) ++ b) 0 ≡ (decimal (d ∷ ds), b) =
      digits_lem (d ∷ ds) b 0 ((lo, hi), a) (space_no_digit b s) (omega (arith, h))
      ∙ ap (λ n. (n, b)) {y = decimal (d ∷ ds)} (omega arith) in
    rw (read, here, skipped) refl

-- Digits whose decimal value is below 2^31, with any blanks before and behind them, are read as that
-- value by picoos_string_to_int32 and picoos_string_to_uint32, and behind a '-' as the negative value
-- by the former.
pub string_to_int32-decimal :
    (a : List ℕ) (d : ℕ) (ds b : List ℕ)
    → All IsSpace a
    → All IsDigit (d ∷ ds)
    → All IsSpace b
    → decimal (d ∷ ds) < 2147483648
    → let number = (d ∷ ds) ++ b in
      (string_to_int32 (a ++ number) ≡ (pos (decimal (d ∷ ds)), ok))
      × (string_to_int32 (a ++ (45 ∷ number)) ≡ (sub_ℕ 0 (decimal (d ∷ ds)), ok))
      × (string_to_uint32 (a ++ number) ≡ (decimal (d ∷ ds), ok))
unfolding string_to_int32 string_to_uint32
string_to_int32-decimal a d ds b sa ((lo, hi), sd) sb h =
    let no_space : (leb d 32 && not (d == 0)) ≡ false = ground arith in
    let plain : skip_spaces (a ++ ((d ∷ ds) ++ b)) ≡ (d ∷ ds) ++ b =
      skip_spaces_lem a ((d ∷ ds) ++ b) sa no_space in
    let signed : skip_spaces (a ++ (45 ∷ ((d ∷ ds) ++ b))) ≡ 45 ∷ ((d ∷ ds) ++ b) =
      skip_spaces_lem a (45 ∷ ((d ∷ ds) ++ b)) sa refl in
    let value : unsigned_part ((d ∷ ds) ++ b) ≡ (decimal (d ∷ ds), true) =
      unsigned_part_lem d ds b ((lo, hi), sd) sb (omega (arith, h)) in
    let no_minus : (d == 45) ≡ false = ground arith in
    let no_plus : (d == 43) ≡ false = ground arith in
    (
      rw (plain, no_minus, no_plus, value) (ap (λ z. (z, ok)) (small (decimal (d ∷ ds)) h)),
      rw (signed, value) (ap (λ z. (z, ok)) (negated (decimal (d ∷ ds)) h)),
      rw (plain, no_plus, value) refl,
    )

-- What picoos_write_mem_pi_uint16 writes inside the memory is read back from there by
-- picoos_read_mem_pi_uint16, both positions move behind it, and other bytes are left as they were.
pub read_mem_pi_uint16-write_mem_pi_uint16 :
    (mem : List ℕ) (p val i : ℕ)
    → val < u16_mod
    → p + 1 < length mem
    → (i < p) ⊎ (p + 1 < i)
    → let w = write_mem_pi_uint16 mem p val in
      (read_mem_pi_uint16 w.0 p ≡ (val, w.1)) × (get_or w.0 i 0 ≡ get_or mem i 0)
unfolding read_mem_pi_uint16 write_mem_pi_uint16
read_mem_pi_uint16-write_mem_pi_uint16 mem p val i h k l =
    let lo : List ℕ = set mem p (val % 256) in
    let high : get_or (set lo (p + 1) (val / 256 % 256)) (p + 1) 0 ≡ val / 256 % 256 =
      get_or-set_self lo (p + 1) (val / 256 % 256) 0
        (omega (arith, length-set mem p (val % 256))) in
    let low : get_or (set lo (p + 1) (val / 256 % 256)) p 0 ≡ val % 256 =
      get_or-set_ne lo (p + 1) p (val / 256 % 256) 0 (omega arith)
      ∙ get_or-set_self mem p (val % 256) 0 (omega arith) in
    let apart : (p + 1 ≢ i) × (p ≢ i) = ground arith in
    (
      rw (high, low) (ap (λ n. (n, p + 2)) (omega arith)),
      get_or-set_ne lo (p + 1) i (val / 256 % 256) 0 apart.0
          ∙ get_or-set_ne mem p i (val % 256) 0 apart.1,
    )
