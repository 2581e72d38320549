-- ===== src/CharBuffer/Skip.antt =====
-- `picodata_cbGetSpeechData` (pico/lib/picodata.c) in front of an incomplete item that is no frame.
use platform_external_svox.Common.{
  ℕ, zero, suc, ◌+◌, ◌%◌, ◌<◌, ◌≤◌, ◌≡◌, ◌≢◌, refl, true, List, arith, ◌==◌, get_or, le→ltb,
  u16_mod, not,
}
use platform_external_svox.Status.{ok}
use platform_external_svox.CharBuffer.{
  CharBuffer, headsize, itemind_len, item_frame, skip_byte, skip_bytes, cb_get_item,
}
use platform_external_svox.CharBuffer.Valid.{IsValid, contents}
use platform_external_svox.CharBuffer.Loops.{front_blen_lem, front_type_lem}

size-skip_bytes : (n : ℕ) (cb : CharBuffer) → (skip_bytes n cb).size ≡ cb.size
unfolding skip_bytes
size-skip_bytes zero cb = refl
size-skip_bytes (suc n) cb = size-skip_bytes n (skip_byte cb)

-- The count wraps at 16 bits.
len-skip_bytes :
    (n : ℕ) (cb : CharBuffer)
    → cb.len < u16_mod
    → ((skip_bytes n cb).len < u16_mod) × (((skip_bytes n cb).len + n) % u16_mod ≡ cb.len)
unfolding skip_bytes
len-skip_bytes zero cb h = (h, omega arith)
len-skip_bytes (suc n) cb h =
    let rest = len-skip_bytes n (skip_byte cb) (omega arith) in (rest.0, omega (arith, rest.1))

not_frame : (t : ℕ) → t ≢ item_frame → not (t == item_frame) ≡ true
not_frame t h = ground arith

-- Speech data asked of a valid buffer whose first item is no frame and is not there in full: the
-- call reports success, but its count of bytes held has wrapped below zero, and for every size that
-- leaves room for that the buffer is no longer valid.
pub cb_get_speech_data_wraps :
    (cb : CharBuffer) (out : List ℕ) (blenmax : ℕ)
    → IsValid cb
    → headsize ≤ cb.len
    → get_or (contents cb) 0 0 ≢ item_frame
    → get_or (contents cb) itemind_len 0 < 256
    → cb.len < headsize + get_or (contents cb) itemind_len 0
    → cb.size + 260 < u16_mod
    → (let r = cb_get_item cb out blenmax true in
        (r.status ≡ ok)
        × (r.cb.len + (headsize + get_or (contents cb) itemind_len 0) ≡ cb.len + u16_mod)
        × ¬ IsValid r.cb)
unfolding cb_get_item
cb_get_speech_data_wraps cb out blenmax v h ne byte cut room =
    let blen = headsize + get_or (contents cb) itemind_len 0 in
    let l = len-skip_bytes blen cb (omega (arith, v.small, v.len_in)) in
    rw
      (
        le→ltb cb.len headsize h,
        front_blen_lem cb h,
        front_type_lem cb v (omega arith),
        not_frame (get_or (contents cb) 0 0) ne,
      )
      (refl, omega (arith, l), λ w. absurd (omega (arith, w.len_in, size-skip_bytes blen cb, l)))
