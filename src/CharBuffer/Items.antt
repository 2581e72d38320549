-- ===== src/CharBuffer/Items.antt =====
-- The item interface of `picodata_CharBuffer` (`data_cbPutItem` and `data_cbGetItem` of
-- pico/lib/picodata.c) against the same calls on a plain queue of bytes.
use platform_external_svox.Common.{
  ℕ, ◌+◌, ◌-◌, ◌≤◌, ◌≡◌, refl, ap, ◌∙◌, Bool, true, false, not, List, ◌++◌, arith, ltb, ◌==◌,
  if◌then◌else◌, length, get_or, take, drop, write_at, Bool-cases, inl, inr, ltb→le, ◌≢◌, ap₂,
}
use platform_external_svox.Status.{Status, ok, eof, exc_buf_overflow, exc_buf_underflow}
use platform_external_svox.CharBuffer.{
  CharBuffer, Got, headsize, itemind_len, item_frame, skip_bytes, take_item, cb_get_item,
  cb_put_item,
}
use platform_external_svox.CharBuffer.Valid.{IsValid, contents, length-contents}
use platform_external_svox.CharBuffer.Loops.{
  slice-take, put_bytes_lem, skip_bytes_lem, get_bytes_lem, front_blen_lem, front_type_lem,
}

-- `data_cbPutItem` on a queue of at most `size` bytes: the first `blen` bytes of the array are
-- appended if they fit the queue and the array has them.
unfoldable pub put_queue : ℕ → List ℕ → List ℕ → ℕ → Status × List ℕ × ℕ
put_queue size q src blenmax =
    let blen = get_or src itemind_len 0 + headsize in
    if ltb blenmax headsize
    then (exc_buf_underflow, q, 0)
    else if ltb size (length q + blen)
    then (exc_buf_overflow, q, 0)
    else if ltb blenmax blen
    then (exc_buf_underflow, q, 0)
    else (ok, q ++ take blen src, blen)

-- What a getter returns, over a queue.
pub record QueueGot : Type 0 where
  pub status : Status
  pub queue : List ℕ
  pub out : List ℕ
  pub blen : ℕ

abbrev pub queue_got : Status → List ℕ → List ℕ → ℕ → QueueGot
queue_got s q out n = record { status = s; queue = q; out = out; blen = n }

-- The result of a getter on a buffer, by what the buffer holds.
abbrev pub observed : Got → QueueGot
observed r = queue_got r.status (contents r.cb) r.out r.blen

-- `data_cbGetItem` where the item in front is complete.
unfoldable pub get_queue : List ℕ → List ℕ → ℕ → Bool → QueueGot
get_queue q out blenmax issd =
    let blen = headsize + get_or q itemind_len 0 in
    if ltb (length q) headsize
    then queue_got (if length q == 0 then eof else exc_buf_underflow) q out 0
    else if (if issd then not (get_or q 0 0 == item_frame) else false)
    then queue_got ok (drop blen q) out 0
    else if ltb (length q) blen
    then queue_got exc_buf_underflow q out 0
    else if ltb blenmax blen
    then queue_got exc_buf_overflow q out 0
    else if issd
    then queue_got ok (drop (blen - headsize) (drop headsize q))
        (write_at out 0 (take (blen - headsize) (drop headsize q))) (blen - headsize)
    else queue_got ok (drop blen q) (write_at out 0 (take blen q)) blen

take_item_lem :
    (cb : CharBuffer) (out : List ℕ) (blen : ℕ) (issd : Bool)
    → IsValid cb
    → headsize ≤ blen
    → blen ≤ cb.len
    → IsValid (take_item cb out blen issd).cb
      × ((take_item cb out blen issd).cb.size ≡ cb.size)
      × (observed (take_item cb out blen issd) ≡ (
          if issd
          then queue_got ok
              (drop (blen - headsize) (drop headsize (contents cb)))
              (write_at out 0 (take (blen - headsize) (drop headsize (contents cb))))
              (blen - headsize)
          else queue_got ok
              (drop blen (contents cb))
              (write_at out 0 (take blen (contents cb)))
              blen))
unfolding take_item
take_item_lem cb out blen true v h k =
    let s = skip_bytes_lem headsize cb v (omega arith) in
    let g =
      get_bytes_lem (blen - headsize) 0 (skip_bytes headsize cb) out s.0 (omega (arith, s.2)) in
    (
      g.0,
      g.1 ∙ s.1,
      ap₂ (λ q o. queue_got ok q o (blen - headsize)) (g.2 ∙ ap (drop (blen - headsize)) s.3)
          (g.3 ∙ ap (λ q. write_at out 0 (take (blen - headsize) q)) s.3),
    )
take_item_lem cb out blen false v h k =
    let g = get_bytes_lem blen 0 cb out v k in
    (g.0, g.1, ap₂ (λ q o. queue_got ok q o blen) g.2 g.3)

-- A front item that `picodata_cbGetSpeechData` is to skip, since it holds no frame, is complete.
abbrev pub SkipsWhole : CharBuffer → Bool → Type 0
SkipsWhole cb issd =
    issd ≡ true
    → headsize ≤ cb.len
    → get_or (contents cb) 0 0 ≢ item_frame
    → headsize + get_or (contents cb) itemind_len 0 ≤ cb.len

module _ (cb : CharBuffer) (v : IsValid cb) where
  -- `data_cbPutItem` of an array of at least `blenmax` bytes does to what a valid buffer holds what
  -- `put_queue` does to a queue, with the same status and length, and keeps the buffer valid.
  pub cb_put_item-put_queue :
      (src : List ℕ) (blenmax : ℕ)
      → blenmax ≤ length src
      → IsValid (cb_put_item cb src blenmax).1
        × ((cb_put_item cb src blenmax).1.size ≡ cb.size)
        × (let r = cb_put_item cb src blenmax in
            (r.0, contents r.1, r.2) ≡ put_queue cb.size (contents cb) src blenmax)
  unfolding cb_put_item put_queue
  cb_put_item-put_queue src blenmax h = elim (Bool-cases (ltb blenmax headsize)) [
    | inl short ↦ rw short (v, refl, refl)
    | inr head ↦
        let blen = get_or src itemind_len 0 + headsize in
        rw (head, length-contents cb)
          (elim (Bool-cases (ltb cb.size (cb.len + blen))) [
            | inl full ↦ rw full (v, refl, refl)
            | inr fits ↦ rw fits (elim (Bool-cases (ltb blenmax blen)) [
              | inl cut ↦ rw cut (v, refl, refl)
              | inr whole ↦
                  let lem = put_bytes_lem blen 0 cb src v (ltb→le _ _ fits) in
                  rw whole (
                    lem.0,
                    lem.1,
                    ap (λ l. (ok, l, blen))
                        (lem.2
                          ∙ ap (λ l. contents cb ++ l)
                              (slice-take src blen (omega (arith, ltb→le blenmax blen whole)))),
                  )
            ])
          ])
  ]

  -- `data_cbGetItem` does to what a valid buffer holds what `get_queue` does to a queue, with the
  -- same status, array and length, and keeps the buffer valid, if an item that is to be skipped is
  -- complete.
  pub cb_get_item-get_queue :
      (out : List ℕ) (blenmax : ℕ) (issd : Bool)
      → SkipsWhole cb issd
      → IsValid (cb_get_item cb out blenmax issd).cb
        × ((cb_get_item cb out blenmax issd).cb.size ≡ cb.size)
        × (observed (cb_get_item cb out blenmax issd) ≡ get_queue (contents cb) out blenmax issd)
  unfolding cb_get_item get_queue
  cb_get_item-get_queue out blenmax issd skips =
      rw (length-contents cb) (elim (Bool-cases (ltb cb.len headsize)) [
        | inl short ↦ rw short (v, refl, refl)
        | inr head ↦
            let h = ltb→le _ _ head in
            rw (head, front_blen_lem cb h, front_type_lem cb v (omega arith))
              (elim (Bool-cases (skipped issd)) [
                | inl skip ↦
                    let need = skips (skipped_lem issd skip).0 h (skipped_lem issd skip).1 in
                    let lem = skip_bytes_lem blen cb v need in
                    rw skip (lem.0, lem.1, ap (λ q. queue_got ok q out 0) lem.3)
                | inr keep ↦ rw keep (elim (Bool-cases (ltb cb.len blen)) [
                  | inl cut ↦ rw cut (v, refl, refl)
                  | inr whole ↦ rw whole (elim (Bool-cases (ltb blenmax blen)) [
                    | inl big ↦ rw big (v, refl, refl)
                    | inr fits ↦
                        rw fits (take_item_lem cb out blen issd v (omega arith) (ltb→le _ _ whole))
                  ])
                ])
              ])
      ])
    where
      blen : ℕ
      blen = headsize + get_or (contents cb) itemind_len 0

      skipped : Bool → Bool
      skipped b = if b then not (get_or (contents cb) 0 0 == item_frame) else false

      skipped_lem :
          (b : Bool) → skipped b ≡ true → (b ≡ true) × (get_or (contents cb) 0 0 ≢ item_frame)
      skipped_lem b e = ground arith
