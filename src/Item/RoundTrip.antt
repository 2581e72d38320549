-- ===== src/Item/RoundTrip.antt =====
-- `picodata_put_itemparts` and `picodata_get_itemparts` (pico/lib/picodata.c) undo each other.
use platform_external_svox.Common.{
  ℕ, ◌+◌, ◌≤◌, ◌≡◌, refl, ap, ◌∙◌, List, [], ◌∷◌, ◌++◌, arith, subst, le→leb, length-drop, length,
  take, drop, write_at, write_at-cons, length-take, take-write_at,
}
use platform_external_svox.Status.{ok}
use platform_external_svox.Item.{ItemHead, headsize, put_head, get_itemparts, put_itemparts}

-- The four bytes of a head.
abbrev pub head_bytes : ItemHead → List ℕ
head_bytes h = h.type ∷ h.info1 ∷ h.info2 ∷ h.len ∷ []

-- Writing a head and `src` behind it, in an array that has room for the head.
write_item :
    (buf src : List ℕ) (head : ItemHead)
    → headsize ≤ length buf
    → write_at (put_head buf head) headsize src
      ≡ head_bytes head ++ write_at (drop headsize buf) 0 src
write_item [] src head h = absurd (omega arith)
write_item (a ∷ []) src head h = absurd (omega arith)
write_item (a ∷ b ∷ []) src head h = absurd (omega arith)
write_item (a ∷ b ∷ c ∷ []) src head h = absurd (omega arith)
write_item (a ∷ b ∷ c ∷ d ∷ buf) src head h =
    write_at-cons head.type (head.info1 ∷ head.info2 ∷ head.len ∷ buf) src 3
    ∙ ap (λ l. head.type ∷ l)
        (write_at-cons head.info1 (head.info2 ∷ head.len ∷ buf) src 2
          ∙ ap (λ l. head.info1 ∷ l)
              (write_at-cons head.info2 (head.len ∷ buf) src 1
                ∙ ap (λ l. head.info2 ∷ l) (write_at-cons head.len buf src 0)))

-- What a successful `picodata_put_itemparts` leaves in the array.
put_itemparts-ok :
    (head : ItemHead) (content : List ℕ) (clenmax : ℕ) (buf : List ℕ) (blenmax : ℕ)
    → head.len + headsize ≤ blenmax
    → head.len ≤ clenmax
    → headsize ≤ length buf
    → put_itemparts head content clenmax buf blenmax ≡ (
      ok,
      head_bytes head ++ write_at (drop headsize buf) 0 (take head.len content),
      head.len + headsize,
    )
unfolding put_itemparts
put_itemparts-ok head content clenmax buf blenmax h k l = rw (
  le→leb (head.len + headsize) blenmax h,
  le→leb head.len clenmax k,
  write_item buf (take head.len content) head l,
)

-- An item that `picodata_put_itemparts` accepts is read back by `picodata_get_itemparts`: the same
-- head, and the first `len` bytes of the content written to the start of the caller's array.
pub get_itemparts-put_itemparts :
    (head old : ItemHead) (content : List ℕ) (clenmax : ℕ) (buf : List ℕ) (blenmax : ℕ)
    (out : List ℕ) (outmax : ℕ)
    → head.len + headsize ≤ blenmax
    → blenmax ≤ length buf
    → head.len ≤ clenmax
    → clenmax ≤ length content
    → head.len ≤ outmax
    → (let r = put_itemparts head content clenmax buf blenmax in
        (r.0 ≡ ok)
        × (get_itemparts r.1 blenmax old out outmax ≡ record {
          status = ok;
          head = head;
          content = write_at out 0 (take head.len content);
          clen = head.len;
        }))
unfolding get_itemparts
get_itemparts-put_itemparts head old content clenmax buf blenmax out outmax h b k c o =
    let src = take head.len content in
    let n : length src ≡ head.len = omega (arith, length-take head.len content) in
    let back : take head.len (write_at (drop headsize buf) 0 src) ≡ src =
      subst (λ m. take m (write_at (drop headsize buf) 0 src) ≡ src) n
        (take-write_at (drop headsize buf) src (omega (arith, length-drop headsize buf))) in
    rw (put_itemparts-ok head content clenmax buf blenmax h k (omega arith)) (
      refl,
      rw (
        le→leb headsize blenmax (omega arith),
        le→leb (head.len + headsize) blenmax h,
        le→leb head.len outmax o,
        back,
      ),
    )
