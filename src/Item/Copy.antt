-- ===== src/Item/Copy.antt =====
-- `picodata_is_valid_item`, `picodata_copy_item` and the setters of head fields
-- (pico/lib/picodata.c).
use platform_external_svox.Common.{
  ℕ, zero, suc, ◌+◌, ◌≤◌, ◌<◌, ◌≡◌, ◌≢◌, inl, inr, refl, ap, ◌∙◌, sym, true, List, [], ◌∷◌, drop,
  ◌⊎◌, ◌↔◌, arith, if◌then◌else◌, length, take, set, write_at, get_or, length-take, length-write_at,
  take-write_at, drop-write_at, Bool-cases, ◌==◌, ==_iff, le→leb, lt→ltb, subst, get_or-set_self,
  get_or-set_ne,
}
use platform_external_svox.Status.{ok}
use platform_external_svox.Item.{
  headsize, head_of, is_valid_itemtype, is_valid_itemhead, is_valid_item, copy_item, set_itemlen,
  itemind_len, set_iteminfo1, set_iteminfo2, itemind_info1, itemind_info2,
}
use platform_external_svox.CharBuffer.Fifo.{IsItem}

-- The prefix of an array that its head delimits.
abbrev pub item_of : List ℕ → List ℕ
item_of buf = take (headsize + get_or buf itemind_len 0) buf

get_or-take : (xs : List ℕ) (n i : ℕ) → i < n → get_or (take n xs) i 0 ≡ get_or xs i 0
get_or-take xs zero i h = absurd (omega arith)
get_or-take [] (suc n) i h = refl
get_or-take (x ∷ xs) (suc n) zero h = refl
get_or-take (x ∷ xs) (suc n) (suc i) h = get_or-take xs n i (omega arith)

-- What a valid item's test says of its sizes and type.
is_valid_item_inv :
    (buf : List ℕ) (ilenmax : ℕ)
    → is_valid_item buf ilenmax ≡ true
    → (get_or buf itemind_len 0 + headsize ≤ ilenmax) × (is_valid_itemtype (get_or buf 0 0) ≡ true)
unfolding is_valid_item is_valid_itemhead
is_valid_item_inv buf ilenmax e = ground arith

is_valid_item-IsItem :
    (buf : List ℕ) (ilenmax : ℕ)
    → ilenmax ≤ length buf
    → is_valid_item buf ilenmax ≡ true
    → IsItem (item_of buf)
      × (length (item_of buf) ≤ ilenmax)
      × (is_valid_itemtype (get_or buf 0 0) ≡ true)
is_valid_item-IsItem buf ilenmax h e =
    let inv = is_valid_item_inv buf ilenmax e in
    let n = length-take (headsize + get_or buf itemind_len 0) buf in
    let l = get_or-take buf (headsize + get_or buf itemind_len 0) itemind_len (omega arith) in
    (
      record { head = omega (arith, n, inv.0); counted = omega (arith, n, l, inv.0) },
      omega (arith, n, inv.0),
      inv.1,
    )

-- Graphemes, tokens, words as graphemes, as indices, as phones, and syllables; boundaries, punctuation,
-- commands, phones, frames, and their parameters.
abbrev pub known_types : List ℕ
known_types = 115 ∷ 116 ∷ 103 ∷ 105 ∷ 119 ∷ 121 ∷ 98 ∷ 112 ∷ 99 ∷ 104 ∷ 102 ∷ 107 ∷ []

abbrev pub IsOneOf : List ℕ → ℕ → Type 0
IsOneOf [] c = ⊥
IsOneOf (x ∷ xs) c = (c ≡ x) ⊎ IsOneOf xs c

is_valid_itemtype_iff : (c : ℕ) → (is_valid_itemtype c ≡ true) ↔ IsOneOf known_types c
unfolding is_valid_itemtype
is_valid_itemtype_iff c = (λ e. ground arith, λ h. ground (arith, h))

-- In an array of at least `ilenmax` bytes, `picodata_is_valid_item` accepts just what starts with a whole
-- item, of one of the twelve types, that ends within `ilenmax`.
pub is_valid_item_iff :
    (buf : List ℕ) (ilenmax : ℕ)
    → ilenmax ≤ length buf
    → (is_valid_item buf ilenmax ≡ true) ↔ (
        IsItem (item_of buf)
        × (length (item_of buf) ≤ ilenmax)
        × IsOneOf known_types (get_or buf 0 0))
unfolding is_valid_item is_valid_itemhead
is_valid_item_iff buf ilenmax h = (
  λ e.
      let (item, fits, type) = is_valid_item-IsItem buf ilenmax h e in
      (item, fits, (is_valid_itemtype_iff (get_or buf 0 0)).0 type),
  λ (item, fits, type).
      let n = length-take (headsize + get_or buf itemind_len 0) buf in
      let typed = (is_valid_itemtype_iff (get_or buf 0 0)).1 type in
      let l = get_or-take buf (headsize + get_or buf itemind_len 0) itemind_len (omega arith) in
      ground (arith, n, l, item.head, item.counted, typed),
)

-- `picodata_copy_item` of a valid item to an array whose given size is not smaller, both sizes within
-- their arrays, copies just that item to the array's start, gives its length, and leaves what stands
-- behind it.
pub copy_item_lem :
    (inbuf : List ℕ) (inlenmax : ℕ) (outbuf : List ℕ) (outlenmax : ℕ)
    → inlenmax ≤ length inbuf
    → outlenmax ≤ length outbuf
    → is_valid_item inbuf inlenmax ≡ true
    → inlenmax ≤ outlenmax
    → (let r = copy_item inbuf inlenmax outbuf outlenmax in
        (r.0 ≡ ok)
        × (r.2 ≡ length (item_of inbuf))
        × (take r.2 r.1 ≡ item_of inbuf)
        × (drop r.2 r.1 ≡ drop r.2 outbuf)
        × IsItem (take r.2 r.1)
        × (length r.1 ≡ length outbuf))
unfolding copy_item
copy_item_lem inbuf inlenmax outbuf outlenmax h k e room =
    let numb = headsize + get_or inbuf itemind_len 0 in
    let valid = is_valid_item-IsItem inbuf inlenmax h e in
    let n : numb ≡ length (item_of inbuf) =
      omega (arith, length-take numb inbuf, (is_valid_item_inv inbuf inlenmax e).0) in
    let back : take numb (write_at outbuf 0 (item_of inbuf)) ≡ item_of inbuf =
      ap (λ m. take m (write_at outbuf 0 (item_of inbuf))) n
      ∙ take-write_at outbuf (item_of inbuf) (omega (arith, valid.1)) in
    let behind : drop numb (write_at outbuf 0 (item_of inbuf)) ≡ drop numb outbuf =
      subst (λ (k : ℕ). drop k (write_at outbuf 0 (item_of inbuf)) ≡ drop k outbuf) (sym n)
        (drop-write_at outbuf (item_of inbuf) (omega (arith, valid.1))) in
    rw (e, lt→ltb 0 numb (omega arith), le→leb inlenmax outlenmax room)
      (
        refl,
        n,
        back,
        behind,
        subst IsItem (sym back) valid.0,
        length-write_at outbuf 0 (item_of inbuf),
      )

-- Where `picodata_copy_item` does not report success it changes nothing and gives no length.
pub copy_item-unchanged :
    (inbuf : List ℕ) (inlenmax : ℕ) (outbuf : List ℕ) (outlenmax : ℕ)
    → (copy_item inbuf inlenmax outbuf outlenmax).0 ≢ ok
    → ((copy_item inbuf inlenmax outbuf outlenmax).1 ≡ outbuf)
      × ((copy_item inbuf inlenmax outbuf outlenmax).2 ≡ 0)
unfolding copy_item
copy_item-unchanged inbuf inlenmax outbuf outlenmax ne = ground arith

setter_at :
    (buf : List ℕ) (i : ℕ) (v : ℕ)
    → i < length buf
    → (j : ℕ) → get_or (set buf i v) j 0 ≡ (if i == j then v else get_or buf j 0)
setter_at buf i v h j = elim (Bool-cases (i == j)) [
  | inl same ↦
      let e = (==_iff i j).0 same in
      rw same (ap (λ k. get_or (set buf i v) k 0) (sym e) ∙ get_or-set_self buf i v 0 h)
  | inr other ↦ rw other (get_or-set_ne buf i j v 0 (λ e. ground (arith, ==_iff i j)))
]

-- In an array of at least the given size, which holds a head, each setter succeeds, and of the four
-- head fields it changes just its own.
pub setters-head_of :
    (buf : List ℕ) (blenmax v : ℕ)
    → headsize ≤ blenmax
    → blenmax ≤ length buf
    → (let r1 = set_iteminfo1 buf blenmax v in
        let r2 = set_iteminfo2 buf blenmax v in
        let r3 = set_itemlen buf blenmax v in
        ((r1.0 ≡ ok) × (head_of r1.1 ≡ record (head_of buf) { info1 = v }))
        × ((r2.0 ≡ ok) × (head_of r2.1 ≡ record (head_of buf) { info2 = v }))
        × ((r3.0 ≡ ok) × (head_of r3.1 ≡ record (head_of buf) { len = v })))
unfolding set_iteminfo1 set_iteminfo2 set_itemlen
setters-head_of buf blenmax v h k =
    let w1 = setter_at buf itemind_info1 v (omega arith) in
    let w2 = setter_at buf itemind_info2 v (omega arith) in
    let w3 = setter_at buf itemind_len v (omega arith) in
    rw
      (
        lt→ltb itemind_info1 blenmax (omega arith),
        lt→ltb itemind_info2 blenmax (omega arith),
        lt→ltb itemind_len blenmax (omega arith),
      )
      (
        (refl, λ i. record { type = w1 0 i; info1 = w1 1 i; info2 = w1 2 i; len = w1 3 i }),
        (refl, λ i. record { type = w2 0 i; info1 = w2 1 i; info2 = w2 2 i; len = w2 3 i }),
        (refl, λ i. record { type = w3 0 i; info1 = w3 1 i; info2 = w3 2 i; len = w3 3 i }),
      )
