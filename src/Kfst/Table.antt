-- ===== src/Kfst/Table.antt =====
-- The transition table and the table of accepting states of pico/lib/picokfst.c.
use platform_external_svox.Common.{
  ℕ, zero, suc, ◌+◌, ◌*◌, ◌%◌, ◌^◌, ◌<◌, ◌≤◌, ◌≡◌, refl, ap, sym, ◌∙◌, true, ◌||◌, none, some, List,
  [], ◌∷◌, ◌++◌, arith, append_assoc, if◌then◌else◌, length, drop, get_or, drop-length-append,
  drop-drop, u32_mod, ℤ, pos, negsuc, ◌+ℤ◌, ltz, to_u32, to_i16, le→ltb, to_i16_small, pos-add,
}
use platform_external_svox.Kfst.{Kfst, get_trans, fixed_bytes_to_unsigned_num}
use platform_external_svox.Kfst.Numbers.{be_bytes, length-be_bytes, fixed_bytes-be_bytes}

-- A table of numbers, each in `e` bytes.
abbrev pub table_bytes : ℕ → List ℕ → List ℕ
table_bytes e [] = []
table_bytes e (x ∷ xs) = be_bytes e x ++ table_bytes e xs

-- From entry `i` on, the table's bytes begin with those of that entry.
table_bytes-drop :
    (e i : ℕ) (xs post : List ℕ)
    → i < length xs
    → (rest : List ℕ) × (drop (i * e) (table_bytes e xs ++ post)
        ≡ be_bytes e (get_or xs i 0) ++ rest)
table_bytes-drop e i [] post h = absurd (omega arith)
table_bytes-drop e zero (x ∷ xs) post h = (
  table_bytes e xs ++ post,
  ap (λ n. drop n ((be_bytes e x ++ table_bytes e xs) ++ post)) {y = 0} (omega arith)
      ∙ append_assoc (be_bytes e x) (table_bytes e xs) post,
)
table_bytes-drop e (suc i) (x ∷ xs) post h =
    let t = table_bytes-drop e i xs post (omega arith) in
    let len = length-be_bytes e x in
    (
      t.0,
      ap (λ n. drop n ((be_bytes e x ++ table_bytes e xs) ++ post))
            {y = length (be_bytes e x) + i * e} (omega (arith, len))
          ∙ sym (
              drop-drop (i * e) (length (be_bytes e x))
                ((be_bytes e x ++ table_bytes e xs) ++ post))
          ∙ ap (λ l. drop (i * e) (drop (length (be_bytes e x)) l))
              (append_assoc (be_bytes e x) (table_bytes e xs) post)
          ∙ ap (drop (i * e)) (drop-length-append (be_bytes e x) (table_bytes e xs ++ post))
          ∙ t.1,
    )

-- A table that stands in a stream behind `pre`, read at entry `i`.
read_entry :
    (pre xs post : List ℕ) (e i : ℕ)
    → i < length xs
    → get_or xs i 0 < 256 ^ e
    → get_or xs i 0 < u32_mod
    → fixed_bytes_to_unsigned_num (pre ++ (table_bytes e xs ++ post)) e (length pre + i * e)
      ≡ some (get_or xs i 0, length pre + i * e + e)
read_entry pre xs post e i h small word =
    let t = table_bytes-drop e i xs post h in
    fixed_bytes-be_bytes e (get_or xs i 0) (pre ++ (table_bytes e xs ++ post)) t.0
      (length pre + i * e) small word
      (sym (drop-drop (i * e) (length pre) (pre ++ (table_bytes e xs ++ post)))
        ∙ ap (drop (i * e)) (drop-length-append pre (table_bytes e xs ++ post))
        ∙ t.1)

-- A transducer whose transition table is `xs`, row by row, in entries of `e` bytes at the place that
-- its header names.
pub record HasTable (fst : Kfst) (xs : List ℕ) (states classes e : ℕ) : Type 0 where
  pub pre : List ℕ
  pub post : List ℕ
  pub stream : fst.fst_stream ≡ pre ++ (table_bytes e xs ++ post)
  pub at : fst.trans_tab_pos ≡ pos (length pre)
  pub entry : fst.trans_tab_entry_size ≡ pos e
  pub rows : fst.nr_states ≡ pos states
  pub columns : fst.nr_classes ≡ pos classes
  pub full : length xs ≡ states * classes
  pub entry_small : e < 256
  pub columns_small : classes < u32_mod
  pub fits : length pre + states * classes * e < u32_mod

-- `get_trans` over the header fields that it reads.
trans_of : List ℕ → ℤ → ℤ → ℤ → ℤ → ℕ → ℕ → ℤ
trans_of stream states classes entry at s c =
    if ltz states (pos (suc s)) || ltz classes (pos (suc c))
    then pos 0
    else elim (fixed_bytes_to_unsigned_num stream (to_u32 entry % 256)
        (to_u32 (at +ℤ pos ((s * to_u32 classes + c) * to_u32 entry)))) [
          | none ↦ pos 0
          | some (x, q) ↦ to_i16 (pos x)
        ]

get_trans-trans_of :
    (fst : Kfst) (s c : ℕ)
    → get_trans fst (pos (suc s)) (pos (suc c))
      ≡ trans_of fst.fst_stream fst.nr_states fst.nr_classes fst.trans_tab_entry_size
          fst.trans_tab_pos s c
unfolding get_trans trans_of
get_trans-trans_of fst s c = refl

index-lt : (s c states classes : ℕ) → s < states → c < classes → s * classes + c < states * classes
index-lt s c states classes h k = grind arith

end-le : (i n e : ℕ) → i < n → i * e ≤ n * e
end-le i n e h = grind arith

trans_of-read :
    (pre xs post : List ℕ) (states classes e s c : ℕ)
    → length xs ≡ states * classes
    → e < 256
    → classes < u32_mod
    → length pre + states * classes * e < u32_mod
    → s < states
    → c < classes
    → get_or xs (s * classes + c) 0 < 256 ^ e
    → get_or xs (s * classes + c) 0 < 32768
    → trans_of
        (pre ++ (table_bytes e xs ++ post))
        (pos states)
        (pos classes)
        (pos e)
        (pos (length pre))
        s
        c
      ≡ pos (get_or xs (s * classes + c) 0)
unfolding trans_of
trans_of-read pre xs post states classes e s c full he hcl fits hs hc small word =
    let i = index-lt s c states classes hs hc in
    let m = end-le (s * classes + c) (states * classes) e i in
    let cl : classes % u32_mod ≡ classes = omega arith in
    let en : e % u32_mod ≡ e = omega arith in
    let en2 : e % 256 ≡ e = omega arith in
    let sum : (length pre + (s * classes + c) * e) % u32_mod ≡ length pre + (s * classes + c) * e =
      omega (arith, m, fits) in
    rw
      (
        le→ltb (states + 0) (suc s + 0) (omega arith),
        le→ltb (classes + 0) (suc c + 0) (omega arith),
        cl,
        en,
        en2,
        pos-add (length pre) ((s * classes + c) * e),
        sum,
        read_entry pre xs post e (s * classes + c) (omega (arith, i, full)) small (omega arith),
      )
      (to_i16_small (get_or xs (s * classes + c) 0) word)

trans_of-none :
    (stream : List ℕ) (states classes : ℕ) (entry at : ℤ) (s c : ℕ)
    → (ltz (pos states) (pos (suc s)) || ltz (pos classes) (pos (suc c))) ≡ true
    → trans_of stream (pos states) (pos classes) entry at s c ≡ pos 0
unfolding trans_of
trans_of-none stream states classes entry at s c h = rw h

-- `picokfst_kfstGetTrans` gives the table's entry for a state and a class in range, both counted
-- from 1, if the entry is a state that a `picoos_int16` holds and `e` bytes can write.
pub get_trans_lem :
    (fst : Kfst) (xs : List ℕ) (states classes e s c : ℕ)
    → HasTable fst xs states classes e
    → s < states
    → c < classes
    → get_or xs (s * classes + c) 0 < 256 ^ e
    → get_or xs (s * classes + c) 0 < 32768
    → get_trans fst (pos (suc s)) (pos (suc c)) ≡ pos (get_or xs (s * classes + c) 0)
get_trans_lem fst xs states classes e s c t hs hc small word =
    get_trans-trans_of fst s c
    ∙ (λ i. trans_of (t.stream i) (t.rows i) (t.columns i) (t.entry i) (t.at i) s c)
    ∙ trans_of-read t.pre xs t.post states classes e s c t.full t.entry_small t.columns_small t.fits
        hs hc small word

-- `picokfst_kfstGetTrans` gives 0 for every state or class out of range.
pub get_trans_out_of_range :
    (fst : Kfst) (states classes : ℕ) (s c : ℤ)
    → fst.nr_states ≡ pos states
    → fst.nr_classes ≡ pos classes
    → (ltz s (pos 1) || (ltz (pos states) s || (ltz c (pos 1) || ltz (pos classes) c))) ≡ true
    → get_trans fst s c ≡ pos 0
unfolding get_trans
get_trans_out_of_range fst states classes (pos zero) c hs hc h = refl
get_trans_out_of_range fst states classes (negsuc s) c hs hc h = refl
get_trans_out_of_range fst states classes (pos (suc s)) (pos zero) hs hc h = refl
get_trans_out_of_range fst states classes (pos (suc s)) (negsuc c) hs hc h = refl
get_trans_out_of_range fst states classes (pos (suc s)) (pos (suc c)) hs hc h =
    get_trans-trans_of fst s c
    ∙ (λ i. trans_of fst.fst_stream (hs i) (hc i) fst.trans_tab_entry_size fst.trans_tab_pos s c)
    ∙ trans_of-none fst.fst_stream states classes fst.trans_tab_entry_size fst.trans_tab_pos s c
        (ground arith)
