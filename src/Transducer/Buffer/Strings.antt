-- ===== src/Transducer/Buffer/Strings.antt =====
-- Strings through the symbol buffer of picotrns_SimpleTransducer, pico/lib/picotrns.c.
use platform_external_svox.Common.{
  ℕ, zero, suc, ◌+◌, ◌*◌, ◌<◌, ◌≤◌, ◌≡◌, refl, ap, ap₂, sym, ◌∙◌, false, ◌||◌, List, [], ◌∷◌, ◌++◌,
  length, drop, All, map, leb, ◌==◌, to_i16_small, arith, length-append, append-nil, append_assoc,
  le→leb,
}
use platform_external_svox.Status.{ok}
use platform_external_svox.Transducer.{PosSym}
use platform_external_svox.Transducer.Buffer.{
  SimpleTransducer, max_num_possym, unplane, st_initialize, plane_sym, add_loop, st_add_with_plane,
  sym_loop, st_get_sym_sequence,
}

-- A character of a string that is not its end.
abbrev pub IsChar : ℕ → Type 0
IsChar c = (0 < c) × (c < 256)

-- A plane of which every symbol is nonnegative.
abbrev pub IsPlane : ℕ → Type 0
IsPlane plane = plane < 128

pub unplane-plane_sym :
    (plane c : ℕ) → IsPlane plane → IsChar c → unplane (plane_sym plane c).sym ≡ (c, plane)
unfolding unplane
unplane-plane_sym plane c h (k, l) =
    ap unplane (to_i16_small (plane * 256 + c) (omega arith))
    ∙ ap₂ (λ a b. (a, b)) (omega arith) (omega arith)

add_loop_lem :
    (plane : ℕ) (s : List ℕ) (buf : List PosSym)
    → All IsChar s
    → length buf + length s ≤ max_num_possym
    → add_loop plane s buf ≡ (buf ++ map (plane_sym plane) s, [])
unfolding add_loop
add_loop_lem plane [] buf a h = ap (λ l. (l, [])) (sym (append-nil buf))
add_loop_lem plane (c ∷ s) buf (k, a) h =
    let longer : length (buf ++ (plane_sym plane c ∷ [])) + length s ≤ max_num_possym =
      omega (arith, length-append buf (plane_sym plane c ∷ [])) in
    let goes_on : ((c == 0) || leb max_num_possym (length buf)) ≡ false = ground arith in
    rw goes_on (
      add_loop_lem plane s (buf ++ (plane_sym plane c ∷ [])) a longer
      ∙ ap (λ l. (l, [])) (append_assoc buf (plane_sym plane c ∷ []) (map (plane_sym plane) s)))

sym_loop_lem :
    (plane : ℕ) (s : List ℕ) (max : ℕ)
    → IsPlane plane
    → All IsChar s
    → length s ≤ max
    → sym_loop max (map (plane_sym plane) s) ≡ s
unfolding sym_loop
sym_loop_lem plane [] zero h a k = refl
sym_loop_lem plane [] (suc max) h a k = refl
sym_loop_lem plane (c ∷ s) zero h a k = absurd (omega arith)
sym_loop_lem plane (c ∷ s) (suc max) h (b, a) k =
    ap₂ (λ x l. x ∷ l) (ap (λ u. u.0) (unplane-plane_sym plane c h b))
      (sym_loop_lem plane s max h a (omega arith))

sym_loop-length : (max : ℕ) (buf : List PosSym) → length (sym_loop max buf) ≤ max
unfolding sym_loop
sym_loop-length zero buf = omega arith
sym_loop-length (suc max) [] = omega arith
sym_loop-length (suc max) (x ∷ buf) = omega (arith, sym_loop-length max buf)

-- A string of nonzero bytes that fits the buffer, added to an initialised transducer on a plane
-- below 128, is read out again, with a closing 0, by a call that allows at least its length.
pub st_get_sym_sequence-st_add_with_plane :
    (t : SimpleTransducer) (s : List ℕ) (plane max : ℕ)
    → IsPlane plane
    → All IsChar s
    → length s ≤ max_num_possym
    → length s ≤ max
    → let added = st_add_with_plane (st_initialize t) s plane in
      let r = st_get_sym_sequence added.0 max in (added.1 ≡ ok) × (r.1 ≡ s ++ (0 ∷ [])) × (r.2 ≡ ok)
unfolding st_get_sym_sequence st_add_with_plane st_initialize
st_get_sym_sequence-st_add_with_plane t s plane max p a h k =
    let e : add_loop plane s [] ≡ (map (plane_sym plane) s, []) =
      add_loop_lem plane s [] a (omega arith) in
    let f : sym_loop max (map (plane_sym plane) s) ≡ s = sym_loop_lem plane s max p a k in
    rw (e, f, le→leb (length s) max k) (refl, refl, refl)

-- picotrns_stGetSymSequence reports no overflow, whatever is left in the buffer: it writes at most
-- the allowed number of bytes, and the closing 0 behind them.
pub st_get_sym_sequence_ok :
    (t : SimpleTransducer) (max : ℕ)
    → ((st_get_sym_sequence t max).2 ≡ ok) × (length (st_get_sym_sequence t max).1 ≤ max + 1)
unfolding st_get_sym_sequence
st_get_sym_sequence_ok t max =
    let out : List ℕ = sym_loop max (drop t.possym_read_pos t.possym_buf) in
    let l = sym_loop-length max (drop t.possym_read_pos t.possym_buf) in
    (rw (le→leb (length out) max l) refl, omega (arith, length-append out (0 ∷ []), l))
