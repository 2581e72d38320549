-- ===== src/CharBuffer/Fifo.antt =====
-- `picodata_CharBuffer` (pico/lib/picodata.c) as a queue of whole items.
use platform_external_svox.Common.{
  ℕ, ◌+◌, ◌-◌, ◌≤◌, ◌≡◌, refl, ap, ◌∙◌, sym, Bool, true, false, not, List, [], ◌∷◌, ◌++◌, arith,
  append_assoc, append-nil, ltb, ◌==◌, if◌then◌else◌, length, get_or, take, drop, write_at, All,
  Bool-cases, inl, inr, le→ltb, length-append, length-drop, drop-append_left, take-length-append,
  length-drop, drop-append_left, drop-length-append, length-drop, drop-append_left,
  get_or-append_left,
}
use platform_external_svox.Status.{Status, ok, eof, exc_buf_overflow}
use platform_external_svox.CharBuffer.{
  CharBuffer, Got, headsize, itemind_len, item_frame, cb_get_item, cb_put_item,
}
use platform_external_svox.CharBuffer.Valid.{IsValid, contents, length-contents}
use platform_external_svox.CharBuffer.Items.{
  QueueGot, queue_got, observed, put_queue, get_queue, SkipsWhole, cb_put_item-put_queue,
  cb_get_item-get_queue,
}

-- The bytes of one item: a head, and as many bytes as its fourth byte says.
pub record IsItem (x : List ℕ) : Type 0 where
  pub head : headsize ≤ length x
  pub counted : length x ≡ get_or x itemind_len 0 + headsize

abbrev pub joined : List (List ℕ) → List ℕ
joined [] = []
joined (x ∷ xs) = x ++ joined xs

pub joined-append : (xs ys : List (List ℕ)) → joined (xs ++ ys) ≡ joined xs ++ joined ys
joined-append [] ys = refl
joined-append (x ∷ xs) ys =
    ap (λ l. x ++ l) (joined-append xs ys) ∙ sym (append_assoc x (joined xs) (joined ys))

-- A buffer that holds these items and nothing else.
pub record Holds (cb : CharBuffer) (xs : List (List ℕ)) : Type 0 where
  pub valid : IsValid cb
  pub bytes : contents cb ≡ joined xs
  pub whole : All IsItem xs

-- Putting and getting on a queue of items whose bytes number at most `size`.
unfoldable pub put_items : ℕ → List (List ℕ) → List ℕ → Status × List (List ℕ) × ℕ
put_items size xs x =
    if ltb size (length (joined xs) + length x)
    then (exc_buf_overflow, xs, 0)
    else (ok, xs ++ (x ∷ []), length x)

-- What is handed to the caller: status, its array, the length written, and the items left.
pub record ItemsGot : Type 0 where
  pub status : Status
  pub out : List ℕ
  pub blen : ℕ
  pub left : List (List ℕ)

abbrev pub is_skipped : Bool → List ℕ → Bool
is_skipped issd x = if issd then not (get_or x 0 0 == item_frame) else false

abbrev pub payload : Bool → List ℕ → List ℕ
payload issd x = if issd then drop headsize x else x

unfoldable pub get_items : List (List ℕ) → List ℕ → ℕ → Bool → ItemsGot
get_items [] out blenmax issd = record { status = eof; out = out; blen = 0; left = [] }
get_items (x ∷ xs) out blenmax issd =
    if is_skipped issd x
    then record { status = ok; out = out; blen = 0; left = xs }
    else if ltb blenmax (length x)
    then record { status = exc_buf_overflow; out = out; blen = 0; left = x ∷ xs }
    else record {
      status = ok;
      out = write_at out 0 (payload issd x);
      blen = length (payload issd x);
      left = xs;
    }

All-snoc :
    (xs : List (List ℕ)) (x : List ℕ) → All IsItem xs → IsItem x → All IsItem (xs ++ (x ∷ []))
All-snoc [] x a i = (i, tt)
All-snoc (y ∷ xs) x a i = (a.0, All-snoc xs x a.1 i)

put_queue-item :
    (size : ℕ) (q x pad : List ℕ) (blenmax : ℕ)
    → IsItem x
    → length x ≤ blenmax
    → put_queue size q (x ++ pad) blenmax ≡ (
        if ltb size (length q + length x) then (exc_buf_overflow, q, 0) else (ok, q ++ x, length x))
unfolding put_queue
put_queue-item size q x pad blenmax i h = rw (
  le→ltb blenmax headsize (omega (arith, i.head)),
  get_or-append_left x pad itemind_len 0 (omega (arith, i.head)),
  ← i.counted,
  le→ltb blenmax (length x) h,
  take-length-append x pad,
)

-- `picodata_cbPutItem` of an array that starts with an item and has `blenmax` bytes adds the item
-- to those held if its bytes fit, and otherwise reports an overflow and changes nothing.
pub cb_put_item-put_items :
    (cb : CharBuffer) (xs : List (List ℕ)) (x pad : List ℕ) (blenmax : ℕ)
    → Holds cb xs
    → IsItem x
    → length x ≤ blenmax
    → blenmax ≤ length (x ++ pad)
    → (let r = cb_put_item cb (x ++ pad) blenmax in
        let s = put_items cb.size xs x in
        (r.0 ≡ s.0) × (r.2 ≡ s.2) × Holds r.1 s.1 × (r.1.size ≡ cb.size))
unfolding put_items
cb_put_item-put_items cb xs x pad blenmax k i h g =
    let r = cb_put_item-put_queue cb k.valid (x ++ pad) blenmax g in
    let e =
      r.2
      ∙ ap (λ q. put_queue cb.size q (x ++ pad) blenmax) k.bytes
      ∙ put_queue-item cb.size (joined xs) x pad blenmax i h in
    elim (Bool-cases (ltb cb.size (length (joined xs) + length x))) [
      | inl full ↦
          let t = rw full at e in
          rw full (
            ap (λ u. u.0) t,
            ap (λ u. u.2) t,
            record { valid = r.0; bytes = ap (λ u. u.1) t; whole = k.whole },
            r.1,
          )
      | inr fits ↦
          let t = rw fits at e in
          rw fits (
            ap (λ u. u.0) t,
            ap (λ u. u.2) t,
            record {
              valid = r.0;
              bytes =
                  ap (λ u. u.1) t
                  ∙ ap (λ l. joined xs ++ l) (sym (append-nil x))
                  ∙ sym (joined-append xs (x ∷ []));
              whole = All-snoc xs x k.whole i;
            },
            r.1,
          )
    ]

get_queue-item :
    (x rest out : List ℕ) (blenmax : ℕ) (issd : Bool)
    → IsItem x
    → get_queue (x ++ rest) out blenmax issd ≡ (
        if is_skipped issd x
        then queue_got ok rest out 0
        else if ltb blenmax (length x)
        then queue_got exc_buf_overflow (x ++ rest) out 0
        else queue_got ok rest (write_at out 0 (payload issd x)) (length (payload issd x)))
unfolding get_queue
get_queue-item x rest out blenmax issd i =
    rw
      (
        le→ltb (length (x ++ rest)) headsize (omega (arith, i.head, length-append x rest)),
        get_or-append_left x rest itemind_len 0 (omega (arith, i.head)),
        get_or-append_left x rest 0 0 (omega (arith, i.head)),
        blen_lem,
        le→ltb (length (x ++ rest)) (length x) (omega (arith, length-append x rest)),
      )
      (by_kind issd)
  where
    blen_lem : headsize + get_or x itemind_len 0 ≡ length x
    blen_lem = omega (arith, i.counted)

    body : length (drop headsize x) ≡ length x - headsize
    body = length-drop headsize x

    by_kind :
        (b : Bool)
        → ◌≡◌ {A = QueueGot}
            (if is_skipped b x
              then queue_got ok (drop (length x) (x ++ rest)) out 0
              else if ltb blenmax (length x)
              then queue_got exc_buf_overflow (x ++ rest) out 0
              else if b
              then queue_got ok
                  (drop (length x - headsize) (drop headsize (x ++ rest)))
                  (write_at out 0 (take (length x - headsize) (drop headsize (x ++ rest))))
                  (length x - headsize)
              else queue_got ok
                  (drop (length x) (x ++ rest))
                  (write_at out 0 (take (length x) (x ++ rest)))
                  (length x))
            (if is_skipped b x
              then queue_got ok rest out 0
              else if ltb blenmax (length x)
              then queue_got exc_buf_overflow (x ++ rest) out 0
              else queue_got ok rest (write_at out 0 (payload b x)) (length (payload b x)))
    by_kind true = rw (
      drop-append_left headsize x rest i.head,
      ← body,
      drop-length-append x rest,
      drop-length-append (drop headsize x) rest,
      take-length-append (drop headsize x) rest,
    )
    by_kind false = rw (drop-length-append x rest, take-length-append x rest)

get_queue-nil :
    (out : List ℕ) (blenmax : ℕ) (issd : Bool)
    → get_queue [] out blenmax issd ≡ queue_got eof [] out 0
unfolding get_queue
get_queue-nil out blenmax issd = refl

SkipsWhole-item :
    (cb : CharBuffer) (x rest : List ℕ) (issd : Bool)
    → IsItem x
    → contents cb ≡ x ++ rest
    → SkipsWhole cb issd
SkipsWhole-item cb x rest issd i e s h ne = omega (
  arith,
  length-contents cb,
  ap length e,
  ap (λ l. get_or l itemind_len 0) e,
  get_or-append_left x rest itemind_len 0 (omega (arith, i.head)),
  i.counted,
  length-append x rest,
)

SkipsWhole-nil : (cb : CharBuffer) (issd : Bool) → contents cb ≡ [] → SkipsWhole cb issd
SkipsWhole-nil cb issd e s h ne = absurd (omega (arith, length-contents cb, ap length e))

-- The getter's result is this one on a queue of items, and the buffer holds the items left.
abbrev pub Delivers : Got → ItemsGot → Type 0
Delivers r s = (r.status ≡ s.status) × (r.out ≡ s.out) × (r.blen ≡ s.blen) × Holds r.cb s.left

delivers :
    (r : Got) (s : ItemsGot)
    → IsValid r.cb
    → All IsItem s.left
    → observed r ≡ queue_got s.status (joined s.left) s.out s.blen
    → Delivers r s
delivers r s v a e = (
  ap QueueGot.status e,
  ap QueueGot.out e,
  ap QueueGot.blen e,
  record { valid = v; bytes = ap QueueGot.queue e; whole = a },
)

-- `picodata_cbGetItem` and `picodata_cbGetSpeechData` on a buffer of whole items hand out the first
-- item, or its payload, if the caller's array is large enough, skip a first item that is not a
-- frame when speech data is asked for, report an overflow or the end otherwise, and leave a buffer
-- of the other items. They never report an underflow.
pub cb_get_item-get_items :
    (cb : CharBuffer) (xs : List (List ℕ)) (out : List ℕ) (blenmax : ℕ) (issd : Bool)
    → Holds cb xs
    → Delivers (cb_get_item cb out blenmax issd) (get_items xs out blenmax issd)
unfolding get_items
cb_get_item-get_items cb [] out blenmax issd k =
    let r = cb_get_item-get_queue cb k.valid out blenmax issd (SkipsWhole-nil cb issd k.bytes) in
    let e = r.2 ∙ ap (λ q. get_queue q out blenmax issd) k.bytes ∙ get_queue-nil out blenmax issd in
    delivers _ _ r.0 tt e
cb_get_item-get_items cb (x ∷ xs) out blenmax issd k =
    let r =
      cb_get_item-get_queue cb k.valid out blenmax issd
        (SkipsWhole-item cb x (joined xs) issd k.whole.0 k.bytes) in
    let e =
      r.2
      ∙ ap (λ q. get_queue q out blenmax issd) k.bytes
      ∙ get_queue-item x (joined xs) out blenmax issd k.whole.0 in
    elim (Bool-cases (is_skipped issd x)) [
      | inl skip ↦ rw skip (delivers _ _ r.0 k.whole.1 (rw skip at e))
      | inr keep ↦
          let e' = rw keep at e in
          rw keep (elim (Bool-cases (ltb blenmax (length x))) [
            | inl big ↦ rw big (delivers _ _ r.0 k.whole (rw big at e'))
            | inr fits ↦ rw fits (delivers _ _ r.0 k.whole.1 (rw fits at e'))
          ])
    ]
