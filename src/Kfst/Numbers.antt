-- ===== src/Kfst/Numbers.antt =====
-- The number formats of pico/lib/picokfst.c: what their decoders read back from an encoding.
use native.Mathlib.Nat.{pow-suc}
use platform_external_svox.Common.{
  ℕ, zero, suc, ◌+◌, ◌-◌, ◌*◌, ◌/◌, ◌%◌, ◌^◌, ◌<◌, ◌≡◌, refl, ap, ap₂, ◌∙◌, Option, some, List, [],
  ◌∷◌, ◌++◌, append_assoc, arith, length, drop, drop-length-append, length-append, u32_mod, ℤ, pos,
  negsuc, lt→ltb, le→ltb,
}
use platform_external_svox.Kfst.{
  fixed_loop, fixed_bytes_to_unsigned_num, num_loop, bytes_to_num, signed_val,
}

-- `k` digits of seven bits, the most significant first.
abbrev pub sevens : ℕ → ℕ → List ℕ
sevens zero m = []
sevens (suc k) m = sevens k (m / 128) ++ (m % 128 ∷ [])

-- The sign goes to the last bit.
abbrev pub zigzag : ℤ → ℕ
zigzag (pos n) = n * 2
zigzag (negsuc n) = n * 2 + 1

-- A number in `k + 1` bytes; only the last one has its high bit set.
abbrev pub num_bytes : ℕ → ℤ → List ℕ
num_bytes k z = sevens k (zigzag z / 128) ++ ((128 + zigzag z % 128) ∷ [])

length-sevens : (k m : ℕ) → length (sevens k m) ≡ k
length-sevens zero m = refl
length-sevens (suc k) m =
    omega (arith, length-append (sevens k (m / 128)) (m % 128 ∷ []), length-sevens k (m / 128))

pub length-num_bytes : (k : ℕ) (z : ℤ) → length (num_bytes k z) ≡ k + 1
length-num_bytes k z = omega (
  arith,
  length-append (sevens k (zigzag z / 128)) ((128 + zigzag z % 128) ∷ []),
  length-sevens k (zigzag z / 128),
)

num_loop-sevens :
    (k m : ℕ) (rest : List ℕ) (p : ℕ)
    → m < 128 ^ k
    → m < u32_mod
    → num_loop (sevens k m ++ rest) p 0 ≡ num_loop rest (p + k) m
unfolding num_loop
num_loop-sevens zero m rest p h g = ap₂ (λ q v. num_loop rest q v) (omega arith) (omega arith)
num_loop-sevens (suc k) m rest p h g =
    ap (λ l. num_loop l p 0) (append_assoc (sevens k (m / 128)) (m % 128 ∷ []) rest)
    ∙ num_loop-sevens k (m / 128) (m % 128 ∷ rest) p (omega (arith, pow-suc 128 k, h)) (omega arith)
    ∙ rw (lt→ltb (m % 128) 128 (omega arith))
        (ap₂ (λ q v. num_loop rest q v) (omega arith) (omega arith))

signed_val-zigzag : (z : ℤ) → signed_val (zigzag z) ≡ z
signed_val-zigzag (pos n) = ground arith
signed_val-zigzag (negsuc n) = ground arith

-- `BytesToNum` reads back every 32-bit number that is written in seven-bit groups, however many
-- bytes are used, wherever in the stream it stands, and stops right behind it.
pub bytes_to_num-num_bytes :
    (k : ℕ) (z : ℤ) (pre rest : List ℕ)
    → zigzag z < u32_mod
    → zigzag z / 128 < 128 ^ k
    → bytes_to_num (pre ++ (num_bytes k z ++ rest)) (length pre)
      ≡ some (z, length pre + length (num_bytes k z))
unfolding bytes_to_num num_loop
bytes_to_num-num_bytes k z pre rest h g =
    let body : num_loop (num_bytes k z ++ rest) (length pre) 0
        ≡ some (zigzag z, length pre + k + 1) =
      ap (λ l. num_loop l (length pre) 0)
        (append_assoc (sevens k (zigzag z / 128)) ((128 + zigzag z % 128) ∷ []) rest)
      ∙ num_loop-sevens k (zigzag z / 128) ((128 + zigzag z % 128) ∷ rest) (length pre) g
          (omega arith)
      ∙ rw (le→ltb (128 + zigzag z % 128) 128 (omega arith)) (last_val h) in
    let end : length pre + k + 1 ≡ length pre + length (num_bytes k z) =
      omega (arith, length-num_bytes k z) in
    rw (drop-length-append pre (num_bytes k z ++ rest), body, signed_val-zigzag z, end)
  where
    last_val :
        zigzag z < u32_mod
        → ◌≡◌ {A = Option (ℕ × ℕ)}
            (some
              ((zigzag z / 128 * 128 + (128 + zigzag z % 128 - 128)) % u32_mod, length pre + k + 1))
            (some (zigzag z, length pre + k + 1))
    last_val small = ap (λ v. some (v, length pre + k + 1)) (omega arith)

-- `n` bytes, the most significant first.
abbrev pub be_bytes : ℕ → ℕ → List ℕ
be_bytes zero m = []
be_bytes (suc n) m = be_bytes n (m / 256) ++ (m % 256 ∷ [])

pub length-be_bytes : (n m : ℕ) → length (be_bytes n m) ≡ n
length-be_bytes zero m = refl
length-be_bytes (suc n) m =
    omega (arith, length-append (be_bytes n (m / 256)) (m % 256 ∷ []), length-be_bytes n (m / 256))

-- After a prefix of the digits the loop goes on with the digits that are left.
fixed_loop-be_bytes :
    (n j m : ℕ) (rest : List ℕ) (p : ℕ)
    → m < 256 ^ n
    → m < u32_mod
    → fixed_loop (n + j) (be_bytes n m ++ rest) p 0 ≡ fixed_loop j rest (p + n) m
unfolding fixed_loop
fixed_loop-be_bytes zero j m rest p h g =
    ap (λ k. fixed_loop k rest p 0) {y = j} (omega arith)
    ∙ ap₂ (λ q v. fixed_loop j rest q v) (omega arith) (omega arith)
fixed_loop-be_bytes (suc n) j m rest p h g =
    ap₂ (λ k l. fixed_loop k l p 0) {y = n + suc j} (omega arith)
      (append_assoc (be_bytes n (m / 256)) (m % 256 ∷ []) rest)
    ∙ fixed_loop-be_bytes n (suc j) (m / 256) (m % 256 ∷ rest) p (omega (arith, pow-suc 256 n, h))
        (omega arith)
    ∙ ap₂ (λ q v. fixed_loop j rest q v) (omega arith) (omega arith)

-- `FixedBytesToUnsignedNum` reads back a 32-bit number from `n` bytes that can hold it.
pub fixed_bytes-be_bytes :
    (n m : ℕ) (stream rest : List ℕ) (p : ℕ)
    → m < 256 ^ n
    → m < u32_mod
    → drop p stream ≡ be_bytes n m ++ rest
    → fixed_bytes_to_unsigned_num stream n p ≡ some (m, p + n)
unfolding fixed_bytes_to_unsigned_num fixed_loop
fixed_bytes-be_bytes n m stream rest p h g e =
    ap (λ l. fixed_loop n l p 0) e
    ∙ ap (λ k. fixed_loop k (be_bytes n m ++ rest) p 0) {y = n + 0} (omega arith)
    ∙ fixed_loop-be_bytes n 0 m rest p h g
