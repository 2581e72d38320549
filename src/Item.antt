-- ===== src/Item.antt =====
-- Items in flat arrays: the item functions of pico/lib/picodata.c. An array is a list, and an array
-- that is filled is returned; the callers' sizes `blenmax` and `clenmax` are arguments of their own.
pub mod RoundTrip
pub mod Copy
mod Tests
use platform_external_svox.Common.{
  ℕ, ◌+◌, Bool, true, false, ◌||◌, ◌&&◌, Option, none, some, List, ltb, leb, ◌==◌, if◌then◌else◌,
  get_or, set, take, drop, write_at,
}
use platform_external_svox.Status.{Status, ok, exc_buf_overflow, exc_buf_underflow, err_other}

-- `picodata_itemhead_t`
pub record ItemHead : Type 0 where
  pub type : ℕ
  pub info1 : ℕ
  pub info2 : ℕ
  pub len : ℕ

-- PICODATA_ITEM_HEADSIZE and the PICODATA_ITEMIND_*
abbrev pub headsize : ℕ
headsize = 4

abbrev pub itemind_info1 : ℕ
itemind_info1 = 1

abbrev pub itemind_info2 : ℕ
itemind_info2 = 2

abbrev pub itemind_len : ℕ
itemind_len = 3

-- `is_valid_itemtype`: PICODATA_ITEM_WSEQ_GRAPH, _TOKEN, _WORDGRAPH, _WORDINDEX, _WORDPHON,
-- _SYLLPHON, _BOUND, _PUNC, _CMD, _PHONE, _FRAME, _FRAME_PAR
pub is_valid_itemtype : ℕ → Bool
is_valid_itemtype ch =
    ch == 115
    || (ch == 116
        || (ch == 103
            || (ch == 105
                || (ch == 119
                    || (ch == 121
                        || (ch == 98
                            || (ch == 112
                                || (ch == 99 || (ch == 104 || (ch == 102 || ch == 107))))))))))

-- `picodata_is_valid_itemhead`, where `none` is NULL
pub is_valid_itemhead : Option ItemHead → Bool
is_valid_itemhead none = false
is_valid_itemhead (some head) = is_valid_itemtype head.type

-- The first four bytes of an array, read into a head.
abbrev pub head_of : List ℕ → ItemHead
head_of buf = record {
  type = get_or buf 0 0;
  info1 = get_or buf itemind_info1 0;
  info2 = get_or buf itemind_info2 0;
  len = get_or buf itemind_len 0;
}

-- `picodata_is_valid_item`
pub is_valid_item : List ℕ → ℕ → Bool
is_valid_item item ilenmax =
    if leb headsize ilenmax
    then leb ((head_of item).len + headsize) ilenmax && is_valid_itemhead (some (head_of item))
    else false

-- The head and content that `picodata_get_itemparts` fills in, with the status and `*clen`.
pub record Parts : Type 0 where
  pub status : Status
  pub head : ItemHead
  pub content : List ℕ
  pub clen : ℕ

-- `picodata_get_itemparts_nowarn`, and `picodata_get_itemparts` but for its warnings
pub get_itemparts : List ℕ → ℕ → ItemHead → List ℕ → ℕ → Parts
get_itemparts buf blenmax head content clenmax =
    if leb headsize blenmax
    then (let new = head_of buf in
        if leb (new.len + headsize) blenmax
        then if leb new.len clenmax
          then record {
            status = ok;
            head = new;
            content = write_at content 0 (take new.len (drop headsize buf));
            clen = new.len;
          }
          else record { status = exc_buf_overflow; head = new; content = content; clen = 0 }
        else record { status = exc_buf_underflow; head = new; content = content; clen = 0 })
    else record { status = exc_buf_underflow; head = head; content = content; clen = 0 }

-- The four writes of a head.
abbrev pub put_head : List ℕ → ItemHead → List ℕ
put_head buf head =
    set (set (set (set buf 0 head.type) itemind_info1 head.info1) itemind_info2 head.info2)
      itemind_len head.len

-- `picodata_put_itemparts`: the status, the array, and `*blen`
pub put_itemparts : ItemHead → List ℕ → ℕ → List ℕ → ℕ → Status × List ℕ × ℕ
put_itemparts head content clenmax buf blenmax =
    let blen = head.len + headsize in
    if leb blen blenmax
    then if leb head.len clenmax
      then (ok, write_at (put_head buf head) headsize (take head.len content), blen)
      else (exc_buf_underflow, buf, 0)
    else (exc_buf_overflow, buf, 0)

-- `picodata_get_iteminfo`: the status, the head, and the content from `buf[4]` on, `none` for NULL
pub get_iteminfo : List ℕ → ℕ → ItemHead → Option (List ℕ) → Status × ItemHead × Option (List ℕ)
get_iteminfo buf blenmax head content =
    if leb headsize blenmax
    then (ok, head_of buf, if (head_of buf).len == 0 then none else some (drop headsize buf))
    else (exc_buf_underflow, head, content)

-- `picodata_copy_item`: the status, the array, and `*numb`
pub copy_item : List ℕ → ℕ → List ℕ → ℕ → Status × List ℕ × ℕ
copy_item inbuf inlenmax outbuf outlenmax =
    let numb = if is_valid_item inbuf inlenmax then headsize + get_or inbuf itemind_len 0 else 0 in
    if ltb 0 numb
    then if leb inlenmax outlenmax
      then (ok, write_at outbuf 0 (take numb inbuf), numb)
      else (exc_buf_overflow, outbuf, 0)
    else (err_other, outbuf, numb)

-- `picodata_set_iteminfo1`, `picodata_set_iteminfo2` and `picodata_set_itemlen`
pub set_iteminfo1 : List ℕ → ℕ → ℕ → Status × List ℕ
set_iteminfo1 buf blenmax info =
    if ltb itemind_info1 blenmax then (ok, set buf itemind_info1 info) else (exc_buf_underflow, buf)

pub set_iteminfo2 : List ℕ → ℕ → ℕ → Status × List ℕ
set_iteminfo2 buf blenmax info =
    if ltb itemind_info2 blenmax then (ok, set buf itemind_info2 info) else (exc_buf_underflow, buf)

pub set_itemlen : List ℕ → ℕ → ℕ → Status × List ℕ
set_itemlen buf blenmax len =
    if ltb itemind_len blenmax then (ok, set buf itemind_len len) else (exc_buf_underflow, buf)
