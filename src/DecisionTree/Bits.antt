-- ===== src/DecisionTree/Bits.antt =====
-- The bits of a tree of pico/lib/picokdt.c: positions, the numbers that stand in its bits, and those
-- that stand in one byte.
pub mod Shift
use platform_external_svox.Common.{
  ltb→lt, ltb→le, if◌then◌else◌, ==_iff, leb→le, leb→lt, ℕ, zero, suc, ◌+◌, ◌-◌, ◌*◌, ◌/◌, ◌%◌, ◌^◌,
  ◌≤◌, ◌<◌, ◌≡◌, ◌⊎◌, refl, sym, ap, ap₂, ◌∙◌, arith, ltb, leb, ◌==◌, length, get_or-behind, pos,
  negsuc, ◌-ℤ◌, ◌+ℤ◌, u32_mod, Bool, true, false, ◌&&◌, ◌||◌, Bool-cases, inl, inr,
}
use native.Mathlib.Nat.{
  zero-div, pow-le-pow_right, pow-suc, div-le_self, mod-le, zero-add, suc-add, add-zero,
}
use platform_external_svox.DecisionTree.{
  KdtSubobj, Cursor, body, bit_at, step, kdt_jump, bits_loop, bytes_loop, settle, get_shift_val,
  first_bits, inc32, to_i8,
}

abbrev pub cursor : ℕ → ℕ → Cursor
cursor b j = record { byte = b; bit = j }

-- The cursor before bit `p` of the body.
abbrev pub cursor_at : ℕ → Cursor
cursor_at p = record { byte = p / 8; bit = 7 - p % 8 }

-- Bit `p`, and the number that is read on to `v` from `n` bits, the first one highest.
abbrev pub bit : KdtSubobj → ℕ → ℕ
bit t p = body t (p / 8) / 2 ^ (7 - p % 8) % 2

pub number : KdtSubobj → ℕ → ℕ → ℕ → ℕ
number t v zero p = v
number t v (suc n) p = number t (2 * v + bit t p) n (p + 1)

-- `kdt_jump` by `k` bits from bit `p` comes to bit `p + k`, if the byte there has a 32-bit number.
pub kdt_jump-cursor_at :
    (k p : ℕ) → p + k < 34359738360 → kdt_jump k (cursor_at p) ≡ cursor_at (p + k)
unfolding kdt_jump
kdt_jump-cursor_at k p small = ground arith

pub step-cursor_at : (p : ℕ) → p < 34359738360 → step (cursor_at p) ≡ cursor_at (p + 1)
step-cursor_at p small = ground arith

pub number-append :
    (t : KdtSubobj) (v a n p : ℕ) → number t v (a + n) p ≡ number t (number t v a p) n (p + a)
unfolding number
number-append t v zero n p = rw (zero-add, add-zero)
number-append t v (suc a) n p = rw (suc-add a n) (
    number-append t (2 * v + bit t p) a n (p + 1)
    ∙ ap (number t (number t (2 * v + bit t p) a (p + 1)) n) (omega arith))

doubled : (v b w r : ℕ) → (2 * v + b) * w + r ≡ v * (w * 2) + ((2 * 0 + b) * w + r)
doubled v b w r = grind arith

-- What was read before stands above the new bits.
pub number_high : (t : KdtSubobj) (v n p : ℕ) → number t v n p ≡ v * 2 ^ n + number t 0 n p
unfolding number
number_high t v zero p = omega arith
number_high t v (suc n) p = rw (pow-suc 2 n) (
    number_high t (2 * v + bit t p) n (p + 1)
    ∙ doubled v (bit t p) (2 ^ n) (number t 0 n (p + 1))
    ∙ ap (◌+◌ (v * (2 ^ n * 2))) (sym (number_high t (2 * 0 + bit t p) n (p + 1))))

pub number_mod :
    (t : KdtSubobj) (v w n p : ℕ)
    → v % u32_mod ≡ w % u32_mod
    → number t v n p % u32_mod ≡ number t w n p % u32_mod
unfolding number
number_mod t v w zero p e = e
number_mod t v w (suc n) p e =
    number_mod t (2 * v + bit t p) (2 * w + bit t p) n (p + 1) (omega arith)

-- The same within one byte, from bit `j` down.
pub byte_number : ℕ → ℕ → ℕ → ℕ → ℕ
byte_number x v zero j = v
byte_number x v (suc n) j = byte_number x (2 * v + x / 2 ^ j % 2) n (j - 1)

bit_in : (t : KdtSubobj) (b j : ℕ) → j < 8 → bit t (8 * b + (7 - j)) ≡ body t b / 2 ^ j % 2
bit_in t b j small =
    let e1 : (8 * b + (7 - j)) / 8 ≡ b = omega arith in
    let e2 : 7 - (8 * b + (7 - j)) % 8 ≡ j = omega arith in
    ap₂ (λ (c : ℕ) (k : ℕ). body t c / 2 ^ k % 2) e1 e2

pub number-byte_number :
    (t : KdtSubobj) (v n b j : ℕ)
    → j < 8
    → n ≤ j + 1
    → number t v n (8 * b + (7 - j)) ≡ byte_number (body t b) v n j
unfolding number byte_number
number-byte_number t v zero b j small le = refl
number-byte_number t v (suc zero) b j small le = ap (λ (x : ℕ). 2 * v + x) (bit_in t b j small)
number-byte_number t v (suc (suc n)) b j small le =
    let at : 8 * b + (7 - j) + 1 ≡ 8 * b + (7 - (j - 1)) = omega arith in
    ap₂ (λ (x : ℕ) (q : ℕ). number t (2 * v + x) (suc n) q) (bit_in t b j small) at
    ∙ number-byte_number t (2 * v + body t b / 2 ^ j % 2) (suc n) b (j - 1) (omega arith)
        (omega arith)

-- A table of tests on the numbers from `i` on.
table : (ℕ → Bool) → ℕ → ℕ → Bool
table test i zero = true
table test i (suc size) = let later = table test (i + 1) size in if test i then later else false

table-holds :
    (test : ℕ → Bool) (i size x : ℕ)
    → table test i size ≡ true
    → i ≤ x
    → x < i + size
    → test x ≡ true
unfolding table
table-holds test i zero x h from to = absurd (omega arith)
table-holds test i (suc size) x h from to = elim (Bool-cases (test i)) [
  | inr bad ↦ absurd (ground (arith, bad))
  | inl good ↦ elim (Bool-cases (i == x)) [
    | inl same ↦ ap test (sym ((==_iff i x).0 same)) ∙ good
    | inr other ↦
        table-holds test (i + 1) size x (ground (arith, good)) (ground arith) (omega arith)
  ]
]

abbrev field_holds : ℕ → ℕ → ℕ → Bool
unfolding byte_number
field_holds x j n =
    leb n (j + 1) && (byte_number x 0 n j == x % 2 ^ (j + 1) / 2 ^ (j + 1 - n)) || ltb (j + 1) n

fields_table : table (λ x. table (λ j. table (field_holds x j) 0 9) 0 8) 0 256 ≡ true
unfolding table field_holds
fields_table = refl

-- A field of a byte is what the masks and shifts leave.
pub byte_field :
    (x j n : ℕ)
    → x < 256
    → j < 8
    → n ≤ j + 1
    → byte_number x 0 n j ≡ x % 2 ^ (j + 1) / 2 ^ (j + 1 - n)
unfolding field_holds
byte_field x j n hx hj hn =
    let row =
      table-holds (λ x. table (λ j. table (field_holds x j) 0 9) 0 8) 0 256 x fields_table
        (omega arith) hx in
    let col = table-holds (λ j. table (field_holds x j) 0 9) 0 8 j row (omega arith) hj in
    let cell = table-holds (field_holds x j) 0 9 n col (omega arith) (omega arith) in
    ground (arith, cell)

pub byte_field_small : (x j n : ℕ) → x < 256 → x % 2 ^ (j + 1) / 2 ^ (j + 1 - n) < 256
byte_field_small x j n hx =
    omega (arith, div-le_self (x % 2 ^ (j + 1)) (2 ^ (j + 1 - n)), mod-le x (2 ^ (j + 1)))

abbrev pub IsBytes : KdtSubobj → Type 0
IsBytes t = (b : ℕ) → body t b < 256

doubled_le : (v b w : ℕ) → b ≤ 1 → (2 * v + b + 1) * w ≤ (v + 1) * (w * 2)
doubled_le v zero w h =
    let e : (2 * v + 0 + 1) * w + w ≡ (v + 1) * (w * 2) = grind arith in omega arith
doubled_le v (suc zero) w h =
    let e : (2 * v + 1 + 1) * w ≡ (v + 1) * (w * 2) = grind arith in omega arith
doubled_le v (suc (suc b)) w h = absurd (omega arith)

number_room : (t : KdtSubobj) (v n p : ℕ) → number t v n p + 1 ≤ (v + 1) * 2 ^ n
unfolding number
number_room t v zero p = omega arith
number_room t v (suc n) p = rw (pow-suc 2 n) (
    omega (
      arith,
      number_room t (2 * v + bit t p) n (p + 1),
      doubled_le v (bit t p) (2 ^ n) (omega arith),
    ))

-- `n` bits make a number below `2 ^ k`, for any `k` from `n` on.
pub number_bound : (t : KdtSubobj) (n k p : ℕ) → n ≤ k → number t 0 n p < 2 ^ k
number_bound t n k p le =
    omega (arith, number_room t 0 n p, pow-le-pow_right {n = 2} (omega arith) {i = n} {j = k} le)

-- Behind the knowledge base every bit is 0.
pub number_behind : (t : KdtSubobj) (n p : ℕ) → 8 * length t.base ≤ p → number t 0 n p ≡ 0
unfolding number
number_behind t zero p le = refl
number_behind t (suc n) p le =
    ap (λ (x : ℕ). number t (2 * 0 + x / 2 ^ (7 - p % 8) % 2) n (p + 1))
      (get_or-behind t.base (t.treebody + p / 8) 0 (omega arith))
    ∙ ap (λ (x : ℕ). number t (2 * 0 + x % 2) n (p + 1)) (zero-div (2 ^ (7 - p % 8)))
    ∙ number_behind t n (p + 1) (omega arith)
