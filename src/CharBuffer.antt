-- ===== src/CharBuffer.antt =====
-- The item queue between two processing units, `picodata_CharBuffer` of pico/lib/picodata.c.
-- A method returns the new buffer beside its result; an array that it fills is a list, returned
-- with the writes made. `subObj` and its reset are not modelled: `picodata_newCharBuffer` sets it
-- to NULL and no code sets it otherwise.
pub mod Valid
pub mod Queue
pub mod Loops
pub mod Items
pub mod Fifo
pub mod Skip
mod Tests
use platform_external_svox.Common.{
  ℕ, zero, suc, ◌+◌, ◌-◌, ◌%◌, Bool, false, not, Option, none, some, List, ltb, ◌==◌, if◌then◌else◌,
  get_or, set, inc16, dec16, u16_mod,
}
use platform_external_svox.Status.{Status, ok, eof, exc_buf_overflow, exc_buf_underflow}

-- `char_buffer_t`; the four numbers are `picoos_uint16`.
pub record CharBuffer : Type 0 where
  pub buf : List ℕ
  pub rear : ℕ
  pub front : ℕ
  pub len : ℕ
  pub size : ℕ

-- PICODATA_ITEM_HEADSIZE, PICODATA_ITEMIND_LEN and PICODATA_ITEM_FRAME
abbrev pub headsize : ℕ
headsize = 4

abbrev pub itemind_len : ℕ
itemind_len = 3

abbrev pub item_frame : ℕ
item_frame = 102

-- `picodata_cbReset`
pub cb_reset : CharBuffer → CharBuffer
cb_reset cb = record cb { rear = 0; front = 0; len = 0 }

-- `picodata_newCharBuffer`, given the bytes that `picoos_allocate(mm, size)` returned. The size goes
-- into a `picoos_uint16`.
pub new_char_buffer : List ℕ → ℕ → CharBuffer
unfolding cb_reset
new_char_buffer bytes size =
    cb_reset (record { buf = bytes; rear = 0; front = 0; len = 0; size = size % u16_mod })

-- `this->buf[this->rear++] = ch; this->rear %= this->size; this->len++;`
pub put_byte : CharBuffer → ℕ → CharBuffer
put_byte cb ch = record cb {
  buf = set cb.buf cb.rear ch;
  rear = inc16 cb.rear % cb.size;
  len = inc16 cb.len;
}

-- `this->front++; this->front %= this->size; this->len--;`
pub skip_byte : CharBuffer → CharBuffer
skip_byte cb = record cb { front = inc16 cb.front % cb.size; len = dec16 cb.len }

-- `picodata_cbPutCh`
pub cb_put_ch : CharBuffer → ℕ → Status × CharBuffer
unfolding put_byte
cb_put_ch cb ch = if ltb cb.len cb.size then (ok, put_byte cb ch) else (exc_buf_overflow, cb)

-- `picodata_cbGetCh`; `none` is PICO_EOF, which is -1 and no `picoos_char`.
pub cb_get_ch : CharBuffer → Option ℕ × CharBuffer
unfolding skip_byte
cb_get_ch cb = if ltb 0 cb.len then (some (get_or cb.buf cb.front 0), skip_byte cb) else (none, cb)

-- The loop that skips `n` bytes.
pub skip_bytes : ℕ → CharBuffer → CharBuffer
unfolding skip_byte
skip_bytes zero cb = cb
skip_bytes (suc n) cb = skip_bytes n (skip_byte cb)

-- The loop that moves `n` bytes into `out[i]` and on.
pub get_bytes : ℕ → ℕ → CharBuffer → List ℕ → CharBuffer × List ℕ
unfolding skip_byte
get_bytes zero i cb out = (cb, out)
get_bytes (suc n) i cb out =
    get_bytes n (i + 1) (skip_byte cb) (set out i (get_or cb.buf cb.front 0))

-- The loop that puts `src[i]` and on, `n` bytes.
pub put_bytes : ℕ → ℕ → CharBuffer → List ℕ → CharBuffer
unfolding put_byte
put_bytes zero i cb src = cb
put_bytes (suc n) i cb src = put_bytes n (i + 1) (put_byte cb (get_or src i 0)) src

-- What a getter returns: its status, the buffer, the caller's array, and `*blen`.
pub record Got : Type 0 where
  pub status : Status
  pub cb : CharBuffer
  pub out : List ℕ
  pub blen : ℕ

abbrev pub got : Status → CharBuffer → List ℕ → ℕ → Got
got s cb out n = record { status = s; cb = cb; out = out; blen = n }

-- The length of the item in front: its head, and the length that its fourth byte gives.
pub front_blen : CharBuffer → ℕ
front_blen cb = headsize + get_or cb.buf ((cb.front + itemind_len) % cb.size) 0

-- The end of `data_cbGetItem`, where the item is complete and the caller's array is large enough.
pub take_item : CharBuffer → List ℕ → ℕ → Bool → Got
take_item cb out blen issd =
    let n = if issd then blen - headsize else blen in
    let cb' = if issd then skip_bytes headsize cb else cb in
    let r = get_bytes n 0 cb' out in got ok r.0 r.1 n

-- `data_cbGetItem`; `issd` is set by `picodata_cbGetSpeechData`.
pub cb_get_item : CharBuffer → List ℕ → ℕ → Bool → Got
cb_get_item cb out blenmax issd =
    let blen = front_blen cb in
    if ltb cb.len headsize
    then got (if cb.len == 0 then eof else exc_buf_underflow) cb out 0
    else if (if issd then not (get_or cb.buf cb.front 0 == item_frame) else false)
    then got ok (skip_bytes blen cb) out 0
    else if ltb cb.len blen
    then got exc_buf_underflow cb out 0
    else if ltb blenmax blen
    then got exc_buf_overflow cb out 0
    else take_item cb out blen issd

-- `data_cbPutItem`, with `*blen` beside the status; `size - len` is a signed difference.
pub cb_put_item : CharBuffer → List ℕ → ℕ → Status × CharBuffer × ℕ
cb_put_item cb src blenmax =
    let blen = get_or src itemind_len 0 + headsize in
    if ltb blenmax headsize
    then (exc_buf_underflow, cb, 0)
    else if ltb cb.size (cb.len + blen)
    then (exc_buf_overflow, cb, 0)
    else if ltb blenmax blen
    then (exc_buf_underflow, cb, 0)
    else (ok, put_bytes blen 0 cb src, blen)
