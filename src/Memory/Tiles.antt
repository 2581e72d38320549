-- ===== src/Memory/Tiles.antt =====
-- The cells of a block of pico/lib/picoos.c, side by side, as a list.
use platform_external_svox.Common.{
  ℕ, ◌+◌, ◌%◌, ◌≤◌, ◌<◌, ◌≡◌, ◌≢◌, ◌⊎◌, inl, inr, refl, Bool-cases, subst, ap, ◌∙◌, Bool, true,
  false, List, [], ◌∷◌, ◌++◌, arith, ◌==◌, ℤ, pos,
}
use platform_external_svox.Memory.{Cells, neg}
use platform_external_svox.Memory.Links.{count}

-- A cell with its whole size, header included.
pub data Cell : Type 0 where
  free : ℕ → Cell
  used : ℕ → Cell

abbrev pub extent : Cell → ℕ
extent (free n) = n
extent (used n) = n

abbrev pub is_free : Cell → Bool
is_free (free n) = true
is_free (used n) = false

-- The size that the header holds.
abbrev pub stored : Cell → ℤ
stored (free n) = pos n
stored (used n) = neg (pos n)

-- A cell has room for a whole header, and keeps the alignment.
abbrev pub Whole : ℕ → Type 0
Whole n = (32 ≤ n) × (n % 8 ≡ 0)

-- From `a`, whose left neighbour is `l`, the headers of `cs` lead to `e`.
abbrev pub Tiles : Cells → ℕ → ℕ → List Cell → ℕ → Type 0
Tiles h l a [] e = (a ≡ e) × (h.left e ≡ l)
Tiles h l a (x ∷ cs) e =
    Whole (extent x) × (h.size a ≡ stored x) × (h.left a ≡ l) × Tiles h a (a + extent x) cs e

-- Where the cells end, and the address of the last of them.
abbrev pub stop : ℕ → List Cell → ℕ
stop a [] = a
stop a (x ∷ cs) = stop (a + extent x) cs

abbrev pub last_cell : ℕ → ℕ → List Cell → ℕ
last_cell l a [] = l
last_cell l a (x ∷ cs) = last_cell a (a + extent x) cs

-- The addresses of the free cells, and of the used ones.
abbrev pub frees : ℕ → List Cell → List ℕ
frees a [] = []
frees a (free n ∷ cs) = a ∷ frees (a + n) cs
frees a (used n ∷ cs) = frees (a + n) cs

abbrev pub useds : ℕ → List Cell → List ℕ
useds a [] = []
useds a (free n ∷ cs) = useds (a + n) cs
useds a (used n ∷ cs) = a ∷ useds (a + n) cs

-- The bytes that the used cells take.
abbrev pub used_total : List Cell → ℕ
used_total [] = 0
used_total (free n ∷ cs) = used_total cs
used_total (used n ∷ cs) = n + used_total cs

-- No free cell follows a free one; `p` says whether one stands before.
abbrev pub Coalesced : Bool → List Cell → Type 0
Coalesced p [] = Unit
Coalesced p (free n ∷ cs) = (p ≡ false) × Coalesced true cs
Coalesced p (used n ∷ cs) = Coalesced false cs

abbrev pub ends_free : Bool → List Cell → Bool
ends_free p [] = p
ends_free p (x ∷ cs) = ends_free (is_free x) cs

abbrev pub starts_free : List Cell → Bool
starts_free [] = false
starts_free (x ∷ cs) = is_free x

pub Coalesced-used :
    (p : Bool) (cs : List Cell) → starts_free cs ≡ false → Coalesced p cs → Coalesced true cs
Coalesced-used p [] e k = tt
Coalesced-used p (free n ∷ cs) e k = absurd (ground arith)
Coalesced-used p (used n ∷ cs) e k = k

pub Coalesced-weaken : (p : Bool) (cs : List Cell) → Coalesced p cs → Coalesced false cs
Coalesced-weaken p [] k = tt
Coalesced-weaken p (free n ∷ cs) k = (refl, k.1)
Coalesced-weaken p (used n ∷ cs) k = k

pub Coalesced-split :
    (p : Bool) (xs ys : List Cell)
    → Coalesced p (xs ++ ys)
    → Coalesced p xs × Coalesced (ends_free p xs) ys
Coalesced-split p [] ys k = (tt, k)
Coalesced-split p (free n ∷ xs) ys k = let r = Coalesced-split true xs ys k.1 in ((k.0, r.0), r.1)
Coalesced-split p (used n ∷ xs) ys k = Coalesced-split false xs ys k

pub Coalesced-append :
    (p : Bool) (xs ys : List Cell)
    → Coalesced p xs
    → Coalesced (ends_free p xs) ys
    → Coalesced p (xs ++ ys)
Coalesced-append p [] ys j k = k
Coalesced-append p (free n ∷ xs) ys j k = (j.0, Coalesced-append true xs ys j.1 k)
Coalesced-append p (used n ∷ xs) ys j k = Coalesced-append false xs ys j k

pub frees-append :
    (a : ℕ) (xs ys : List Cell) → frees a (xs ++ ys) ≡ frees a xs ++ frees (stop a xs) ys
frees-append a [] ys = refl
frees-append a (free n ∷ xs) ys = ap (◌∷◌ a) (frees-append (a + n) xs ys)
frees-append a (used n ∷ xs) ys = frees-append (a + n) xs ys

pub useds-append :
    (a : ℕ) (xs ys : List Cell) → useds a (xs ++ ys) ≡ useds a xs ++ useds (stop a xs) ys
useds-append a [] ys = refl
useds-append a (free n ∷ xs) ys = useds-append (a + n) xs ys
useds-append a (used n ∷ xs) ys = ap (◌∷◌ a) (useds-append (a + n) xs ys)

pub used_total-append : (xs ys : List Cell) → used_total (xs ++ ys) ≡ used_total xs + used_total ys
used_total-append [] ys = omega arith
used_total-append (free n ∷ xs) ys = omega (arith, used_total-append xs ys)
used_total-append (used n ∷ xs) ys = omega (arith, used_total-append xs ys)

module _ (h : Cells) where
  pub Tiles-split :
      (l a : ℕ) (xs ys : List Cell) (e : ℕ)
      → Tiles h l a (xs ++ ys) e
      → Tiles h l a xs (stop a xs) × Tiles h (last_cell l a xs) (stop a xs) ys e
  Tiles-split l a [] [] e t = ((refl, rw t.0 (t.1)), t)
  Tiles-split l a [] (y ∷ ys) e t = ((refl, t.2), t)
  Tiles-split l a (x ∷ xs) ys e t =
      let r = Tiles-split a (a + extent x) xs ys e t.3 in ((t.0, t.1, t.2, r.0), r.1)

  pub Tiles-append :
      (l a : ℕ) (xs ys : List Cell) (e : ℕ)
      → Tiles h l a xs (stop a xs)
      → Tiles h (last_cell l a xs) (stop a xs) ys e
      → Tiles h l a (xs ++ ys) e
  Tiles-append l a [] ys e s t = t
  Tiles-append l a (x ∷ xs) ys e s t = (s.0, s.1, s.2, Tiles-append a (a + extent x) xs ys e s.3 t)

  pub Tiles-le : (l a : ℕ) (cs : List Cell) (e : ℕ) → Tiles h l a cs e → a ≤ e
  Tiles-le l a [] e t = ground arith
  Tiles-le l a (x ∷ cs) e t = ground (arith, Tiles-le a (a + extent x) cs e t.3)

  pub Tiles-left : (l a : ℕ) (cs : List Cell) (e : ℕ) → Tiles h l a cs e → h.left a ≡ l
  Tiles-left l a [] e t = rw t.0 (t.1)
  Tiles-left l a (x ∷ cs) e t = t.2

  pub Tiles-end :
      (l a : ℕ) (cs : List Cell) (e : ℕ) → Tiles h l a cs e → h.left e ≡ last_cell l a cs
  Tiles-end l a [] e t = t.1
  Tiles-end l a (x ∷ cs) e t = Tiles-end a (a + extent x) cs e t.3

  pub Tiles-stop : (l a : ℕ) (cs : List Cell) (e : ℕ) → Tiles h l a cs e → stop a cs ≡ e
  Tiles-stop l a [] e t = t.0
  Tiles-stop l a (x ∷ cs) e t = Tiles-stop a (a + extent x) cs e t.3

  -- An address starts at most one cell, and one between the ends.
  pub count_starts :
      (l a : ℕ) (cs : List Cell) (e : ℕ)
      → Tiles h l a cs e
      → (c : ℕ)
      → (count c (frees a cs) + count c (useds a cs) ≤ 1)
        × (c < a → count c (frees a cs) + count c (useds a cs) ≡ 0)
        × (e ≤ c → count c (frees a cs) + count c (useds a cs) ≡ 0)
  count_starts l a [] e t c = (omega arith, λ h. refl, λ h. refl)
  count_starts l a (free n ∷ cs) e t c =
      let r = count_starts a (a + n) cs e t.3 c in
      let le = Tiles-le a (a + n) cs e t.3 in (ground arith, λ h. ground arith, λ h. ground arith)
  count_starts l a (used n ∷ cs) e t c =
      let r = count_starts a (a + n) cs e t.3 c in
      let le = Tiles-le a (a + n) cs e t.3 in (ground arith, λ h. ground arith, λ h. ground arith)

  -- Cells whose sizes and inner neighbours stay, with a new left neighbour.
  pub Tiles-relabel :
      (g : Cells) (l k a : ℕ) (cs : List Cell) (e : ℕ)
      → ((x : ℕ) → a ≤ x → x < e → g.size x ≡ h.size x)
      → ((x : ℕ) → a < x → x ≤ e → g.left x ≡ h.left x)
      → g.left a ≡ k
      → Tiles h l a cs e
      → Tiles g k a cs e
  Tiles-relabel g l k a [] e s m first t = (t.0, ground arith)
  Tiles-relabel g l k a (x ∷ cs) e s m first t =
      let le = Tiles-le a (a + extent x) cs e t.3 in
      (
        t.0,
        ground (arith, s a),
        first,
        Tiles-relabel g a a (a + extent x) cs e (λ y i j. s y (ground arith) j)
            (λ y i j. m y (ground arith) j)
            (m (a + extent x) (ground arith) le ∙ Tiles-left a (a + extent x) cs e t.3) t.3,
      )

-- The cells between `c` and `d` become the one cell `y`.
pub Tiles-replaced :
    (h g : Cells) (l a : ℕ) (xs : List Cell) (y : Cell) (m d : ℕ) (ys : List Cell) (e : ℕ)
    → Tiles h l a xs (stop a xs)
    → Tiles h m d ys e
    → d ≡ stop a xs + extent y
    → Whole (extent y)
    → ((x : ℕ) → x ≢ stop a xs → x < stop a xs ⊎ d ≤ x → g.size x ≡ h.size x)
    → ((x : ℕ) → x ≢ d → x ≤ stop a xs ⊎ d < x → g.left x ≡ h.left x)
    → g.size (stop a xs) ≡ stored y
    → g.left d ≡ stop a xs
    → Tiles g l a (xs ++ y ∷ ys) e
Tiles-replaced h g l a xs y m d ys e before after ed w s o size_y left_d =
    let base = Tiles-le h l a xs (stop a xs) before in
    let first = Tiles-left h l a xs (stop a xs) before in
    Tiles-append g l a xs (y ∷ ys) e
      (Tiles-relabel h g l l a xs (stop a xs) (λ x i j. s x (omega arith) (inl j))
        (λ x i j. o x (omega (arith, ed)) (inl j)) (o a (omega (arith, ed)) (inl base) ∙ first)
        before)
      (
        w,
        size_y,
        o (stop a xs) (omega (arith, ed)) (inl (omega arith))
            ∙ Tiles-end h l a xs (stop a xs) before,
        subst (λ z. Tiles g (stop a xs) z ys e) ed
            (Tiles-relabel h g m (stop a xs) d ys e (λ x i j. s x (omega (arith, ed)) (inr i))
              (λ x i j. o x (omega arith) (inr i)) left_d after),
      )

-- A free cell that is counted stands in the list.
pub locate_free :
    (c a : ℕ) (cs : List Cell)
    → 1 ≤ count c (frees a cs)
    → (xs : List Cell) × (n : ℕ) × (ys : List Cell) × (cs ≡ xs ++ free n ∷ ys) × (c ≡ stop a xs)
locate_free c a [] k = absurd (omega arith)
locate_free c a (free n ∷ cs) k = elim (Bool-cases (c == a)) [
  | inl here ↦ ([], n, cs, refl, ground arith)
  | inr later ↦
      let (xs, m, ys, e, s) = locate_free c (a + n) cs (ground arith) in
      (free n ∷ xs, m, ys, ap (◌∷◌ (free n)) e, s)
]
locate_free c a (used n ∷ cs) k =
    let (xs, m, ys, e, s) = locate_free c (a + n) cs k in
    (used n ∷ xs, m, ys, ap (◌∷◌ (used n)) e, s)

pub locate_used :
    (c a : ℕ) (cs : List Cell)
    → 1 ≤ count c (useds a cs)
    → (xs : List Cell) × (n : ℕ) × (ys : List Cell) × (cs ≡ xs ++ used n ∷ ys) × (c ≡ stop a xs)
locate_used c a [] k = absurd (omega arith)
locate_used c a (used n ∷ cs) k = elim (Bool-cases (c == a)) [
  | inl here ↦ ([], n, cs, refl, ground arith)
  | inr later ↦
      let (xs, m, ys, e, s) = locate_used c (a + n) cs (ground arith) in
      (used n ∷ xs, m, ys, ap (◌∷◌ (used n)) e, s)
]
locate_used c a (free n ∷ cs) k =
    let (xs, m, ys, e, s) = locate_used c (a + n) cs k in
    (free n ∷ xs, m, ys, ap (◌∷◌ (free n)) e, s)

-- The last cell of a list that has one.
pub unsnoc : (xs : List Cell) → (xs ≡ []) ⊎ ((ys : List Cell) × (y : Cell) × (xs ≡ ys ++ y ∷ []))
unsnoc [] = inl refl
unsnoc (x ∷ xs) = elim (unsnoc xs) [
  | inl e ↦ inr ([], x, rw e)
  | inr (ys, y, e) ↦ inr (x ∷ ys, y, ap (◌∷◌ x) e)
]

pub stop-append : (a : ℕ) (xs ys : List Cell) → stop a (xs ++ ys) ≡ stop (stop a xs) ys
stop-append a [] ys = refl
stop-append a (x ∷ xs) ys = stop-append (a + extent x) xs ys

pub last_cell-append :
    (l a : ℕ) (xs ys : List Cell)
    → last_cell l a (xs ++ ys) ≡ last_cell (last_cell l a xs) (stop a xs) ys
last_cell-append l a [] ys = refl
last_cell-append l a (x ∷ xs) ys = last_cell-append a (a + extent x) xs ys
