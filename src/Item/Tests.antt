-- ===== src/Item/Tests.antt =====
-- The item functions at concrete arrays.
use platform_external_svox.Common.{
  ◌≡◌, ◌≤◌, refl, true, List, ℕ, [], ◌∷◌, arith, length, take, drop, ◌↔◌,
}
use platform_external_svox.Status.{ok}
use platform_external_svox.Item.{
  ItemHead, head_of, get_itemparts, put_itemparts, is_valid_item, is_valid_itemhead,
  is_valid_itemtype, copy_item, set_iteminfo1, set_iteminfo2, set_itemlen,
}
use platform_external_svox.Item.RoundTrip.{get_itemparts-put_itemparts}
use platform_external_svox.Item.Copy.{
  item_of, known_types, IsOneOf, is_valid_item_iff, copy_item_lem, setters-head_of,
}
use platform_external_svox.CharBuffer.Fifo.{IsItem}

abbrev token : ItemHead
token = record { type = 116; info1 = 87; info2 = 1; len = 2 }

abbrev zeros : List ℕ
zeros = 0 ∷ 0 ∷ 0 ∷ 0 ∷ 0 ∷ 0 ∷ 0 ∷ []

-- A token item of two bytes and one byte more.
abbrev stored : List ℕ
stored = 116 ∷ 87 ∷ 1 ∷ 2 ∷ 97 ∷ 98 ∷ 5 ∷ []

put_token :
    put_itemparts token (97 ∷ 98 ∷ []) 2 zeros 7 ≡ (ok, 116 ∷ 87 ∷ 1 ∷ 2 ∷ 97 ∷ 98 ∷ 0 ∷ [], 6)
unfolding put_itemparts
put_token = refl

get_itemparts-put_itemparts_example :
    let r = put_itemparts token (97 ∷ 98 ∷ []) 2 zeros 7 in
    (r.0 ≡ ok)
    × (get_itemparts r.1 7 (head_of zeros) (9 ∷ 9 ∷ 9 ∷ []) 3
        ≡ record { status = ok; head = token; content = 97 ∷ 98 ∷ 9 ∷ []; clen = 2 })
get_itemparts-put_itemparts_example =
    get_itemparts-put_itemparts token (head_of zeros) (97 ∷ 98 ∷ []) 2 zeros 7 (9 ∷ 9 ∷ 9 ∷ []) 3
      (omega arith) (omega arith) (omega arith) (omega arith) (omega arith)

stored_is_valid : is_valid_item stored 7 ≡ true
unfolding is_valid_item is_valid_itemhead is_valid_itemtype
stored_is_valid = refl

is_valid_item_iff_example :
    (is_valid_item stored 7 ≡ true)
    ↔ (IsItem (item_of stored) × (length (item_of stored) ≤ 7) × IsOneOf known_types 116)
is_valid_item_iff_example = is_valid_item_iff stored 7 (omega arith)

copy_item_lem_example :
    let r = copy_item stored 7 zeros 7 in
    (r.0 ≡ ok)
    × (r.2 ≡ 6)
    × (take r.2 r.1 ≡ item_of stored)
    × (drop r.2 r.1 ≡ drop r.2 zeros)
    × IsItem (take r.2 r.1)
    × (length r.1 ≡ 7)
copy_item_lem_example =
    copy_item_lem stored 7 zeros 7 (omega arith) (omega arith) stored_is_valid (omega arith)

setters-head_of_runs :
    let r1 = set_iteminfo1 stored 7 9 in
    let r2 = set_iteminfo2 stored 7 9 in
    let r3 = set_itemlen stored 7 9 in
    ((r1.0 ≡ ok) × (head_of r1.1 ≡ record token { info1 = 9 }))
    × ((r2.0 ≡ ok) × (head_of r2.1 ≡ record token { info2 = 9 }))
    × ((r3.0 ≡ ok) × (head_of r3.1 ≡ record token { len = 9 }))
setters-head_of_runs = setters-head_of stored 7 9 (omega arith) (omega arith)
