-- ===== src/Memory/Merge.antt =====
-- What `picoos_deallocate` (pico/lib/picoos.c) does to a cell: the free cell on its left takes it, it
-- takes the free cell on its right, the one on the left takes both, or it joins the free list.
pub mod Left
pub mod Both
pub mod Right
pub mod Front
use platform_external_svox.Common.{
  ℕ, zero, suc, ◌+◌, ◌-◌, ◌%◌, ◌≤◌, ◌<◌, ◌≡◌, ◌≢◌, ◌⊎◌, inl, inr, refl, subst, sym, ap, ap₂, ◌∙◌,
  Bool, true, false, List, [], ◌∷◌, ◌++◌, arith, ◌==◌, if◌then◌else◌, ℤ, pos, ◌+ℤ◌, ◌-ℤ◌, ◌≤ℤ◌,
  pos-add, length, length-append, some, Option,
}
use platform_external_svox.Memory.{
  MemoryManager, put, Cells, neg, set_size, merge_left, merge_right, merge_both, push_front,
}
use platform_external_svox.Memory.Links.{
  count, count-append, count-last_of, count-first_of, Links-last, Links-first, Links-unlinked,
  Links-replaced, Links-frame, Links-pushed, last_of, first_of, Links, Links-split,
}
use platform_external_svox.Memory.Tiles.{
  Cell, starts_free, Coalesced-used, count_starts, Tiles-append, Tiles-relabel, last_cell,
  ends_free, Tiles-left, useds, useds-append, Coalesced, Tiles-le, free, used, Tiles, Tiles-split,
  Tiles-replaced, stop, frees, frees-append, used_total, used_total-append, Coalesced-split,
  Coalesced-append, Coalesced-weaken,
}
use platform_external_svox.Memory.Invariant.{IsHeap, cell_at, listed_once, start-le-last}

neg-neg : (n : ℕ) → neg (neg (pos n)) ≡ pos n
neg-neg n = ground arith

-- The state after a cell of `n` bytes is given back, with the headers `g`.
abbrev pub given_back : MemoryManager → ℕ → Cells → MemoryManager
given_back m n g = record m { used_size = m.used_size -ℤ pos n; cells = g }

-- The headers with the cell at `c` marked as free.
abbrev pub freed : Cells → ℕ → Cells
freed h c = set_size h c (neg (h.size c))

pub put_self {ℓ} : {A : Type ℓ} (f : ℕ → A) (a : ℕ) (v : A) → put f a v a ≡ v
put_self f a v = ground arith

pub put_ne {ℓ} : {A : Type ℓ} (f : ℕ → A) (a : ℕ) (v : A) (x : ℕ) → a ≢ x → put f a v x ≡ f x
put_ne f a v x o = ground arith

pub freed_size : (h : Cells) (c n : ℕ) → h.size c ≡ neg (pos n) → (freed h c).size c ≡ pos n
freed_size h c n e = put_self h.size c (neg (h.size c)) ∙ ap neg e ∙ neg-neg n

pub less_total : (z : ℤ) (n k : ℕ) → z ≡ pos (n + k) → z -ℤ pos n ≡ pos k
unfolding ◌-ℤ◌
less_total z n k e = rw e (ground arith)

pub less_most : (z w : ℤ) (n k : ℕ) → z ≡ pos (n + k) → z ≤ℤ w → (z -ℤ pos n) ≤ℤ w
less_most z w n k e le = rw (less_total z n k e) (ground (arith, le))
