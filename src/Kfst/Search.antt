-- ===== src/Kfst/Search.antt =====
-- The searches of pico/lib/picokfst.c end: each number read leads forward in the byte stream.
use platform_external_svox.Common.{
  ℕ, zero, suc, ◌+◌, ◌-◌, ◌*◌, ◌%◌, ◌<◌, ◌≤◌, ◌≡◌, inl, inr, refl, ap, sym, ◌∙◌, subst, Bool, true,
  false, Option, none, some, List, [], ◌∷◌, arith, if◌then◌else◌, length, drop, length-drop,
  u32_mod, ℤ, pos, negsuc, ◌+ℤ◌, eqz, ltz, to_u32, to_i16, Bool-cases, Option-cases, ltb→lt,
}
use platform_external_svox.Kfst.{
  num_loop, bytes_to_num, signed_val, pair_chain, Found, next_entry, symid_illeg, Kfst,
  get_next_pair, get_next_in_eps_trans,
}

num_loop_forward :
    (bytes : List ℕ) (p v x q : ℕ)
    → v < u32_mod
    → num_loop bytes p v ≡ some (x, q)
    → (p < q) × (q ≤ p + length bytes) × (x < u32_mod)
unfolding num_loop
num_loop_forward [] p v x q h e = cc
num_loop_forward (b ∷ bytes) p v x q h e =
    ground (arith, num_loop_forward bytes (p + 1) ((v * 128 + b) % u32_mod) x q)

-- A number is read from inside the stream, and its end lies behind its start.
pub bytes_to_num_forward :
    (stream : List ℕ) (p : ℕ) (r : ℤ × ℕ)
    → bytes_to_num stream p ≡ some r
    → (p < r.1) × (r.1 ≤ length stream)
unfolding bytes_to_num
bytes_to_num_forward stream p r e = elim (Option-cases (num_loop (drop p stream) p 0)) [
  | inl bad ↦ cc (rw bad at e)
  | inr (s, good) ↦
      let e' = rw good at e in
      let f = num_loop_forward (drop p stream) p 0 s.0 s.1 (omega arith) good in
      let q : s.1 ≡ r.1 = ground arith in omega (arith, f, q, length-drop p stream)
]

-- What is left of the stream for a search state.
abbrev pub left : List ℕ → ℤ → ℕ
left stream (pos p) = length stream - p
left stream (negsuc n) = 0

next_entry_forward :
    (stream : List ℕ) (z : ℤ) (f : Found)
    → next_entry stream z ≡ some f
    → left stream f.search_state < left stream z
unfolding next_entry
next_entry_forward stream (negsuc n) f e = cc
next_entry_forward stream (pos p) f e = elim (Option-cases (bytes_to_num stream p)) [
  | inl bad ↦ cc (rw bad at e)
  | inr (s, good) ↦
      let e1 = rw good at e in
      let f1 = bytes_to_num_forward stream p s good in
      elim (Bool-cases (eqz (to_i16 s.0) symid_illeg)) [
        | inl stop ↦ cc (rw stop at e1)
        | inr go ↦
            let e2 = rw go at e1 in
            elim (Option-cases (bytes_to_num stream s.1)) [
              | inl bad ↦ cc (rw bad at e2)
              | inr (t, good2) ↦
                  let e3 = rw good2 at e2 in
                  let f2 = bytes_to_num_forward stream s.1 t good2 in
                  let at_end : pos t.1 ≡ f.search_state = ground arith in
                  subst (λ w. left stream w < length stream - p) at_end (omega (arith, f1, f2))
            ]
      ]
]

pub get_next_pair_forward :
    (fst : Kfst) (z : ℤ) (f : Found)
    → get_next_pair fst z ≡ some f
    → left fst.fst_stream f.search_state < left fst.fst_stream z
unfolding get_next_pair
get_next_pair_forward fst z f e = next_entry_forward fst.fst_stream z f e

pub get_next_in_eps_trans_forward :
    (fst : Kfst) (z : ℤ) (f : Found)
    → get_next_in_eps_trans fst z ≡ some f
    → left fst.fst_stream f.search_state < left fst.fst_stream z
unfolding get_next_in_eps_trans
get_next_in_eps_trans_forward fst z f e = next_entry_forward fst.fst_stream z f e

-- Each pair or epsilon transition that an enumeration finds leaves strictly less of the stream, so
-- every enumeration comes to its end.
pub enumerations_end :
    (fst : Kfst) (z : ℤ) (f g : Found)
    → get_next_pair fst z ≡ some f
    → get_next_in_eps_trans fst z ≡ some g
    → (left fst.fst_stream f.search_state < left fst.fst_stream z)
      × (left fst.fst_stream g.search_state < left fst.fst_stream z)
enumerations_end fst z f g e h =
    (get_next_pair_forward fst z f e, get_next_in_eps_trans_forward fst z g h)

branch_cong :
    (a b : Bool) (r : Option ℕ) {u v : Option ℕ}
    → (b ≡ true → u ≡ v)
    → (if a then r else if b then u else none) ≡ (if a then r else if b then v else none)
branch_cong true b r e = refl
branch_cong false true r e = e refl
branch_cong false false r e = refl

-- A step of the hash chain, once both numbers of its cell are read.
pair_chain_step :
    (fuel : ℕ) (stream : List ℕ) (s : ℤ) (cell : ℕ) (x o : ℤ × ℕ)
    → bytes_to_num stream cell ≡ some x
    → bytes_to_num stream x.1 ≡ some o
    → pair_chain (suc fuel) stream s cell ≡ (
        if eqz x.0 s
        then some o.1
        else if ltz (pos 0) o.0
        then pair_chain fuel stream s (to_u32 (pos cell +ℤ o.0))
        else none)
unfolding pair_chain
pair_chain_step fuel stream s cell x o e h = rw (e, h)

signed_val-lt : (v n : ℕ) → v < u32_mod → signed_val v ≡ pos n → n < 2147483648
signed_val-lt v n h e = ground arith

bytes_to_num-lt :
    (stream : List ℕ) (p n : ℕ) (r : ℤ × ℕ)
    → bytes_to_num stream p ≡ some r
    → r.0 ≡ pos n
    → n < 2147483648
unfolding bytes_to_num
bytes_to_num-lt stream p n r e k = elim (Option-cases (num_loop (drop p stream) p 0)) [
  | inl bad ↦ cc (rw bad at e)
  | inr (s, good) ↦
      let e' = rw good at e in
      let f = num_loop_forward (drop p stream) p 0 s.0 s.1 (omega arith) good in
      signed_val-lt s.0 n f.2 (ground arith)
]

-- Adding a positive offset that fits a `picoos_int32` leads to a later place, without a wrap.
forward_cell :
    (cell n : ℕ) → cell ≤ 2147483648 → n < 2147483648 → to_u32 (pos cell +ℤ pos n) ≡ cell + n
unfolding ◌+ℤ◌
forward_cell cell n h k = ground arith

-- A cell behind the stream's end is none.
pair_chain_behind :
    (n : ℕ) (stream : List ℕ) (s : ℤ) (cell : ℕ)
    → length stream ≤ cell
    → pair_chain n stream s cell ≡ none
unfolding pair_chain
pair_chain_behind zero stream s cell h = refl
pair_chain_behind (suc n) stream s cell h = elim (Option-cases (bytes_to_num stream cell)) [
  | inl bad ↦ rw bad
  | inr (x, good) ↦ absurd (omega (arith, bytes_to_num_forward stream cell x good))
]

-- A cell whose first or second number lies behind the stream's end, whatever the fuel.
pair_chain_cut :
    (n : ℕ) (stream : List ℕ) (s : ℤ) (cell : ℕ) (x : ℤ × ℕ)
    → bytes_to_num stream cell ≡ some x
    → bytes_to_num stream x.1 ≡ none
    → pair_chain n stream s cell ≡ none
unfolding pair_chain
pair_chain_cut zero stream s cell x e h = refl
pair_chain_cut (suc n) stream s cell x e h = rw (e, h)

pair_chain_unread :
    (n : ℕ) (stream : List ℕ) (s : ℤ) (cell : ℕ)
    → bytes_to_num stream cell ≡ none
    → pair_chain (suc n) stream s cell ≡ none
unfolding pair_chain
pair_chain_unread n stream s cell e = rw e

-- The chain's next cell lies behind this one, within what a `picoos_int32` can hold.
chain_next :
    (stream : List ℕ) (cell : ℕ) (x o : ℤ × ℕ)
    → length stream ≤ 2147483648
    → bytes_to_num stream cell ≡ some x
    → bytes_to_num stream x.1 ≡ some o
    → ltz (pos 0) o.0 ≡ true
    → cell < to_u32 (pos cell +ℤ o.0)
chain_next stream cell x ((pos n), q) h e k l =
    let b = bytes_to_num-lt stream x.1 n (pos n, q) k refl in
    let c = bytes_to_num_forward stream cell x e in
    omega (arith, forward_cell cell n (omega (arith, c)) b, ltb→lt 0 n (ground arith))
chain_next stream cell x ((negsuc n), q) h e k l =
    absurd (omega (arith, ltb→lt (0 + suc n) (0 + 0) l))

-- The hash chain followed by `picokfst_kfstStartPairSearch` in a stream that a `picoos_int32` can
-- index ends within as many rounds as the stream has bytes from the cell on: more change nothing.
pub pair_chain-fuel :
    (fuel more : ℕ) (stream : List ℕ) (s : ℤ) (cell : ℕ)
    → length stream ≤ 2147483648
    → length stream < fuel + cell
    → pair_chain (fuel + more) stream s cell ≡ pair_chain fuel stream s cell
pair_chain-fuel zero more stream s cell h k =
    pair_chain_behind (zero + more) stream s cell (omega arith)
    ∙ sym (pair_chain_behind zero stream s cell (omega arith))
pair_chain-fuel (suc fuel) more stream s cell h k =
    ap (λ n. pair_chain n stream s cell) {y = suc (fuel + more)} (omega arith)
    ∙ (elim (Option-cases (bytes_to_num stream cell)) [
      | inl bad ↦
          pair_chain_unread (fuel + more) stream s cell bad
          ∙ sym (pair_chain_unread fuel stream s cell bad)
      | inr (x, e1) ↦ elim (Option-cases (bytes_to_num stream x.1)) [
        | inl bad ↦
            pair_chain_cut (suc (fuel + more)) stream s cell x e1 bad
            ∙ sym (pair_chain_cut (suc fuel) stream s cell x e1 bad)
        | inr (o, e2) ↦
            pair_chain_step (fuel + more) stream s cell x o e1 e2
            ∙ branch_cong (eqz x.0 s) (ltz (pos 0) o.0) (some o.1) (λ l.
              pair_chain-fuel fuel more stream s (to_u32 (pos cell +ℤ o.0)) h
                (omega (arith, chain_next stream cell x o h e1 e2 l)))
            ∙ sym (pair_chain_step fuel stream s cell x o e1 e2)
      ]
    ])
