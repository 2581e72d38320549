-- ===== src/CharBuffer/Queue.antt =====
-- The byte interface of `picodata_CharBuffer` (pico/lib/picodata.c) against a bounded queue.
use platform_external_svox.Common.{
  ℕ, ◌<◌, ◌≤◌, ◌≡◌, refl, ap, ap₂, ◌∙◌, Option, none, some, List, [], ◌∷◌, ◌++◌, arith, ltb,
  if◌then◌else◌, length, u16_mod, Bool-cases, inl, inr, ltb→lt, ltb→le,
}
use platform_external_svox.Status.{Status, ok, exc_buf_overflow}
use platform_external_svox.CharBuffer.{CharBuffer, cb_reset, new_char_buffer, cb_put_ch, cb_get_ch}
use platform_external_svox.CharBuffer.Valid.{
  IsValid, contents, length-contents, put_byte_lem, skip_byte_lem,
}

-- What a client asks of the byte interface, and what it sees of each call.
pub data Op : Type 0 where
  put : ℕ → Op
  get : Op
  reset : Op

pub data Reply : Type 0 where
  stored : Status → Reply
  fetched : Option ℕ → Reply
  done : Reply

-- The calls in order on the buffer.
unfoldable pub run : CharBuffer → List Op → List Reply
run cb [] = []
run cb (put c ∷ ops) = let r = cb_put_ch cb c in stored r.0 ∷ run r.1 ops
run cb (get ∷ ops) = let r = cb_get_ch cb in fetched r.0 ∷ run r.1 ops
run cb (reset ∷ ops) = done ∷ run (cb_reset cb) ops

-- The same calls on a queue of at most `size` bytes.
unfoldable pub fetch : List ℕ → Option ℕ × List ℕ
fetch [] = (none, [])
fetch (c ∷ q) = (some c, q)

unfoldable pub store : ℕ → List ℕ → ℕ → Status × List ℕ
store size q c = if ltb (length q) size then (ok, q ++ (c ∷ [])) else (exc_buf_overflow, q)

unfoldable pub run_queue : ℕ → List ℕ → List Op → List Reply
run_queue size q [] = []
run_queue size q (put c ∷ ops) = let r = store size q c in stored r.0 ∷ run_queue size r.1 ops
run_queue size q (get ∷ ops) = let r = fetch q in fetched r.0 ∷ run_queue size r.1 ops
run_queue size q (reset ∷ ops) = done ∷ run_queue size [] ops

pub cb_reset-IsValid :
    (cb : CharBuffer) → IsValid cb → IsValid (cb_reset cb) × (contents (cb_reset cb) ≡ [])
unfolding cb_reset
cb_reset-IsValid cb v = (
  record {
    storage = v.storage;
    nonempty = v.nonempty;
    small = v.small;
    front_in = v.nonempty;
    len_in = omega arith;
    rear_at = ground arith;
  },
  refl,
)

size-cb_reset : (cb : CharBuffer) → (cb_reset cb).size ≡ cb.size
unfolding cb_reset
size-cb_reset cb = refl

-- A new buffer whose size fits a `picoos_uint16`, over storage of that size, is valid and empty.
pub new_char_buffer-IsValid :
    (bytes : List ℕ) (size : ℕ)
    → size ≤ length bytes
    → 0 < size
    → size < u16_mod
    → IsValid (new_char_buffer bytes size) × (contents (new_char_buffer bytes size) ≡ [])
unfolding new_char_buffer
new_char_buffer-IsValid bytes size h pos small = (
  record {
    storage = omega arith;
    nonempty = omega arith;
    small = omega arith;
    front_in = omega arith;
    len_in = omega arith;
    rear_at = ground arith;
  },
  refl,
)

pub cb_put_ch-store :
    (cb : CharBuffer) (c : ℕ)
    → IsValid cb
    → IsValid (cb_put_ch cb c).1
      × ((cb_put_ch cb c).1.size ≡ cb.size)
      × (((cb_put_ch cb c).0, contents (cb_put_ch cb c).1) ≡ store cb.size (contents cb) c)
unfolding cb_put_ch store
cb_put_ch-store cb c v = elim (Bool-cases (ltb cb.len cb.size)) [
  | inl room ↦
      let lem = put_byte_lem cb c v (ltb→lt _ _ room) in
      rw (room, length-contents cb, room) (lem.0, refl, rw lem.1)
  | inr full ↦ rw (full, length-contents cb, full) (v, refl, refl)
]

fetch_empty : (q : List ℕ) → length q ≡ 0 → (none, q) ≡ fetch q
unfolding fetch
fetch_empty [] e = refl
fetch_empty (c ∷ q) e = absurd (omega arith)

pub cb_get_ch-fetch :
    (cb : CharBuffer)
    → IsValid cb
    → IsValid (cb_get_ch cb).1
      × ((cb_get_ch cb).1.size ≡ cb.size)
      × (((cb_get_ch cb).0, contents (cb_get_ch cb).1) ≡ fetch (contents cb))
unfolding cb_get_ch fetch
cb_get_ch-fetch cb v = elim (Bool-cases (ltb 0 cb.len)) [
  | inl some_left ↦
      let lem = skip_byte_lem cb v (ltb→lt _ _ some_left) in
      rw (some_left, lem.1) (lem.0, refl, refl)
  | inr empty ↦ rw empty (
    v,
    refl,
    fetch_empty (contents cb) (omega (arith, length-contents cb, ltb→le 0 cb.len empty)),
  )
]

-- No sequence of puts, gets and resets tells a valid buffer from the bounded queue of the bytes
-- that it holds.
pub run-run_queue :
    (ops : List Op) (cb : CharBuffer)
    → IsValid cb
    → run cb ops ≡ run_queue cb.size (contents cb) ops
unfolding run run_queue
run-run_queue [] cb v = refl
run-run_queue (put c ∷ ops) cb v =
    let r = cb_put_ch-store cb c v in rw (← r.2, run-run_queue ops (cb_put_ch cb c).1 r.0, r.1)
run-run_queue (get ∷ ops) cb v =
    let r = cb_get_ch-fetch cb v in rw (← r.2, run-run_queue ops (cb_get_ch cb).1 r.0, r.1)
run-run_queue (reset ∷ ops) cb v =
    let r = cb_reset-IsValid cb v in
    ap (λ l. done ∷ l)
      (run-run_queue ops (cb_reset cb) r.0 ∙ ap₂ (λ n q. run_queue n q ops) (size-cb_reset cb) r.1)
