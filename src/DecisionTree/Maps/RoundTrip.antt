-- ===== src/DecisionTree/Maps/RoundTrip.antt =====
-- The output maps of pico/lib/picokdt.c there and back.
use platform_external_svox.Common.{
  ℕ, zero, suc, ◌+◌, ◌*◌, ◌%◌, ◌≤◌, ◌<◌, ◌≡◌, ◌⊎◌, inl, inr, refl, sym, ap, ◌∙◌, subst, arith, Bool,
  true, false, ◌||◌, Bool-cases, Option, none, some, List, ltb, leb, leb→le, ◌==◌, ==_iff,
  if◌then◌else◌, get_or, u16_mod,
}
use platform_external_svox.DecisionTree.{KdtSubobj}
use platform_external_svox.DecisionTree.Maps.{
  word_at, mt_byte, mt_word, entry, find_loop, found, find_value, map_out_fixed,
  reverse_map_out_fixed,
}

-- What is found is the value `d` behind the start.
abbrev Finds : List ℕ → ℕ → ℕ → ℕ → ℕ → ℕ → ℕ → Option ℕ → Type 0
Finds mem m size inval n i p none = ℕ
Finds mem m size inval n i p (some k) =
    (d : ℕ) × (k ≡ i + d) × (d < n) × (inval ≡ entry mem size (m + p + size * d))

further :
    (mem : List ℕ) (m size inval n i p : ℕ) (o : Option ℕ)
    → Finds mem m size inval n (i + 1) (p + size) o
    → Finds mem m size inval (suc n) i p o
further mem m size inval n i p none h = h
further mem m size inval n i p (some k) (d, e, lt, at) =
    (d + 1, omega arith, omega arith, at ∙ ap (λ (q : ℕ). entry mem size q) (grind arith))

find_loop-Finds :
    (n : ℕ) (mem : List ℕ) (m size inval bound i p : ℕ)
    → Finds mem m size inval n i p (find_loop n mem m size inval bound i p)
unfolding find_loop
find_loop-Finds zero mem m size inval bound i p = 0
find_loop-Finds (suc n) mem m size inval bound i p = elim (Bool-cases (ltb p bound)) [
  | inr behind ↦ rw behind 0
  | inl inside ↦ rw inside (elim (Bool-cases (inval == entry mem size (m + p))) [
    | inl same ↦ rw same (
      0,
      omega arith,
      omega arith,
      (==_iff inval (entry mem size (m + p))).0 same
          ∙ ap (λ (q : ℕ). entry mem size q) (grind arith),
    )
    | inr other ↦ rw other (
        further mem m size inval n i p (find_loop n mem m size inval bound (i + 1) (p + size))
          (find_loop-Finds n mem m size inval bound (i + 1) (p + size)))
  ])
]

found-Finds :
    (mem : List ℕ) (m size inval n p : ℕ) (o : Option ℕ)
    → Finds mem m size inval n 0 p o
    → (found o n).0 ≡ true
    → ((found o n).1 < n) × (inval ≡ entry mem size (m + p + size * (found o n).1))
found-Finds mem m size inval n p none h hit = absurd (ground arith)
found-Finds mem m size inval n p (some k) (d, e, lt, at) hit =
    (omega arith, at ∙ ap (λ (q : ℕ). entry mem size (m + p + size * q)) (omega arith))

find_value_lem :
    (mem : List ℕ) (m p size inval : ℕ)
    → (find_value mem m p size inval).0 ≡ true
    → ((find_value mem m p size inval).1 < word_at mem (m + p + 3))
      × (inval ≡ entry mem size (m + (p + 5) + size * (find_value mem m p size inval).1))
unfolding find_value
find_value_lem mem m p size inval hit =
    found-Finds mem m size inval (word_at mem (m + p + 3)) (p + 5) _
      (find_loop-Finds (word_at mem (m + p + 3)) mem m size inval _ 0 (p + 5)) hit

-- The first value that fits is not behind another one.
abbrev not_behind : ℕ → Option ℕ → Bool
not_behind k none = false
not_behind k (some k1) = leb k1 k

find_loop-not_behind :
    (n : ℕ) (mem : List ℕ) (m size inval bound i p k : ℕ)
    → k < n
    → p + size * k < bound
    → inval ≡ entry mem size (m + p + size * k)
    → not_behind (i + k) (find_loop n mem m size inval bound i p) ≡ true
unfolding find_loop
find_loop-not_behind zero mem m size inval bound i p k lt room at = absurd (omega arith)
find_loop-not_behind (suc n) mem m size inval bound i p zero lt room at =
    let inside : ltb p bound ≡ true = ground arith in
    let here : inval ≡ entry mem size (m + p) =
      at ∙ ap (λ (q : ℕ). entry mem size q) (grind arith) in
    rw (inside, (==_iff inval (entry mem size (m + p))).1 here) (ground arith)
find_loop-not_behind (suc n) mem m size inval bound i p (suc k) lt room at =
    let inside : ltb p bound ≡ true = ground arith in
    let moved : p + size + size * k ≡ p + size * suc k = grind arith in
    let there : inval ≡ entry mem size (m + (p + size) + size * k) =
      at ∙ ap (λ (q : ℕ). entry mem size q) (omega (arith, moved)) in
    let later =
      find_loop-not_behind n mem m size inval bound (i + 1) (p + size) k (omega arith)
        (omega (arith, moved)) there in
    rw inside (elim (Bool-cases (inval == entry mem size (m + p))) [
      | inl same ↦ rw same (ground arith)
      | inr other ↦ rw other (
          subst
            (λ (j : ℕ). not_behind j (find_loop n mem m size inval bound (i + 1) (p + size)) ≡ true)
            (omega arith) later)
    ])

found-not_behind :
    (k n : ℕ) (o : Option ℕ) → not_behind k o ≡ true → ((found o n).0 ≡ true) × ((found o n).1 ≤ k)
found-not_behind k n none h = absurd (ground arith)
found-not_behind k n (some k1) h = (refl, leb→le k1 k h)

-- A map of bytes or words at `m` that is as long as its length says, with fewer than 2^16 - 1 bytes.
pub record IsMap (t : KdtSubobj) (m : ℕ) : Type 0 where
  pub table : t.outmaptable ≡ some m
  pub single : get_or t.base m 0 ≡ 1
  pub typed : (get_or t.base (m + 3) 0 ≡ 1) ⊎ (get_or t.base (m + 3) 0 ≡ 2)
  pub long : get_or t.base (m + 3) 0 * word_at t.base (m + 4) + 5 ≤ word_at t.base (m + 1)
  pub short : word_at t.base (m + 1) < 65535

abbrev value : KdtSubobj → ℕ → ℕ → ℕ
value t m k = entry t.base (get_or t.base (m + 3) 0) (m + 6 + get_or t.base (m + 3) 0 * k)

abbrev is_fixed : ℕ → Bool
is_fixed type = (type == mt_byte) || (type == mt_word)

map_out_fixed_lem :
    (t : KdtSubobj) (m k : ℕ)
    → IsMap t m
    → k < word_at t.base (m + 4)
    → map_out_fixed t k ≡ (true, some (value t m k))
unfolding map_out_fixed
map_out_fixed_lem t m k map lt =
    let inside : ltb k (word_at t.base (m + 4)) ≡ true = ground arith in
    elim map.typed [
      | inl bytes ↦ rw (map.table, bytes, inside) refl
      | inr words ↦ rw (map.table, words, inside) refl
    ]

reverse_map_out_fixed_lem :
    (t : KdtSubobj) (m inval : ℕ)
    → IsMap t m
    → reverse_map_out_fixed t inval ≡ find_value t.base m 1 (get_or t.base (m + 3) 0) inval
unfolding reverse_map_out_fixed
reverse_map_out_fixed_lem t m inval map = elim map.typed [
  | inl bytes ↦ rw (map.table, reverse_map_out_fixed, map.table, map.single, bytes) refl
  | inr words ↦ rw (map.table, reverse_map_out_fixed, map.table, map.single, words) refl
]

bound_lem :
    (t : KdtSubobj) (m k : ℕ)
    → IsMap t m
    → k < word_at t.base (m + 4)
    → let type = get_or t.base (m + 3) 0 in
      let bound = (1 + word_at t.base (m + 1)) % u16_mod in
      6 + type * k < (if type == 1 then bound else (bound + 65535) % u16_mod)
bound_lem t m k map lt =
    let long = map.long in
    let short = map.short in
    elim map.typed [
      | inl bytes ↦ let long1 = rw bytes at long in rw bytes (omega arith)
      | inr words ↦ let long1 = rw words at long in rw words (omega arith)
    ]

find_value-first :
    (t : KdtSubobj) (m k : ℕ)
    → IsMap t m
    → k < word_at t.base (m + 4)
    → let r = find_value t.base m 1 (get_or t.base (m + 3) 0) (value t m k) in
      (r.0 ≡ true) × (r.1 ≤ k)
unfolding find_value
find_value-first t m k map lt =
    let type = get_or t.base (m + 3) 0 in
    let n = word_at t.base (m + 1 + 3) in
    let same : n ≡ word_at t.base (m + 4) = ap (λ (q : ℕ). word_at t.base q) (omega arith) in
    let (hit, le) = found-not_behind (0 + k) n _ (
      find_loop-not_behind n t.base m type (value t m k) _ 0 6 k (omega arith)
        (bound_lem t m k map lt) refl) in
    (hit, omega arith)

-- On a well-formed output map of bytes or words, `kdtMapOutFixed` of an index `k` below the number of
-- values succeeds with its value; `kdtReverseMapOutFixed` of that value succeeds with an index that is
-- not above `k` and that is mapped to the same value.
pub map_out_fixed-reverse_map_out_fixed :
    (t : KdtSubobj) (m k : ℕ)
    → IsMap t m
    → k < word_at t.base (m + 4)
    → let v = value t m k in
      let r = reverse_map_out_fixed t v in
      (map_out_fixed t k ≡ (true, some v))
      × (r.0 ≡ true)
      × (r.1 ≤ k)
      × (map_out_fixed t r.1 ≡ (true, some v))
map_out_fixed-reverse_map_out_fixed t m k map lt =
    let v = value t m k in
    let type = get_or t.base (m + 3) 0 in
    let (hit, le) = find_value-first t m k map lt in
    let (below, at) = find_value_lem t.base m 1 type v hit in
    rw (reverse_map_out_fixed_lem t m v map) (
      map_out_fixed_lem t m k map lt,
      hit,
      le,
      map_out_fixed_lem t m (find_value t.base m 1 type v).1 map (omega arith)
          ∙ ap (λ (x : ℕ). (true, some x)) (sym at),
    )
