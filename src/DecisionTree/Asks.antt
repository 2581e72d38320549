-- ===== src/DecisionTree/Asks.antt =====
-- One question of a tree of pico/lib/picokdt.c: how far it moves the cursor when it leads on to
-- another node, and that it leads nowhere behind the end of the knowledge base.
use platform_external_svox.Common.{
  ℕ, zero, suc, ◌+◌, ◌-◌, ◌*◌, ◌%◌, ◌≤◌, ◌<◌, ◌≡◌, inl, inr, refl, sym, ap, subst, arith, ltb,
  ltb→lt, ◌==◌, if◌then◌else◌, List, get_or, length, ℤ, pos, negsuc, pos_part, u8_mod, u32_mod,
  ◌&&◌, both, Bool-cases, Option,
}
use platform_external_svox.DecisionTree.{
  KdtSubobj, Cursor, vfield, fork_count, cut, jump, question, decide, field, is_fork, terminal,
  binary, continuous, discrete, node, forks_loop, ask_tree,
}
use platform_external_svox.DecisionTree.Bits.{
  cursor_at, number, kdt_jump-cursor_at, number_bound, number_behind,
}
use platform_external_svox.DecisionTree.Groups.{group_at}
use platform_external_svox.DecisionTree.Groups.Chosen.{group_at_bound, discrete_lem}
use platform_external_svox.DecisionTree.Moves.{IsTame, Moves, get_at, size_of}

-- The words of an input vector are below `2 ^ 16`.
abbrev pub IsVector : List ℕ → Type 0
IsVector invec = (i : ℕ) → get_or invec i 0 < 65536

-- A node has fewer than 256 forks and 17000000 bits before them.
abbrev Asks : ℕ → ℕ × Option ℕ × Cursor → Type 0
Asks p r = (r.0 < 256) × Moves p 17000000 r.2

-- An answer that leads on does so by at most `d` bits.
abbrev Leads : ℕ → ℕ → ℤ × Option ℕ × Cursor → Type 0
Leads p d r = r.0 ≡ pos 1 → Moves p d r.2

pub no_lead : ¬ (negsuc 0 ≡ pos 1)
no_lead e = omega (arith, ap pos_part e)

no_class : ¬ (pos 0 ≡ pos 1)
no_class e = omega (arith, ap pos_part e)

module _ (t : KdtSubobj) (tame : IsTame t) (q val : ℕ) (asked : q < t.nrattributes) where
  continuous-Asks : (p : ℕ) → p < 34000000000 → Asks p (continuous t q val (cursor_at p))
  unfolding continuous
  continuous-Asks p room =
      let size = size_of t tame q val asked cut (omega arith) in
      rw (get_at t tame (field t q val cut) p size (omega arith))
        (omega arith, (p + field t q val cut, refl, omega arith, omega arith))

  discrete-Asks : (p : ℕ) → val < 65536 → p < 34000000000 → Asks p (discrete t q val (cursor_at p))
  discrete-Asks p hv room =
      let n = field t q val fork_count in
      let forks = number t 0 n p in
      let size = size_of t tame q val asked fork_count (omega arith) in
      let small = number_bound t n 8 p (tame.forks q asked) in
      let (from, to) = group_at_bound t tame q val asked hv (forks - 1) (p + n) in
      rw (discrete_lem t tame q val asked hv p room)
        (omega arith, (group_at t q (forks - 1) (p + n), refl, omega arith, omega arith))

  node-Asks :
      (type p : ℕ) → val < 65536 → p < 34000000000 → Asks p (node t q val type (cursor_at p))
  unfolding node terminal binary
  node-Asks type p hv room = elim (Bool-cases (type == 0)) [
    | inl e ↦ rw e (omega arith, (p, refl, omega arith, omega arith))
    | inr e ↦ rw e (elim (Bool-cases (type == 1)) [
      | inl f ↦ rw f (omega arith, (p, refl, omega arith, omega arith))
      | inr f ↦ rw f (elim (Bool-cases (type == 2)) [
        | inl g ↦ rw g (continuous-Asks p room)
        | inr g ↦ rw g (discrete-Asks p hv room)
      ])
    ])
  ]

  -- The loop over the forks leads on only by the jump of the chosen fork.
  forks_loop-Leads :
      (n i : ℕ) (id : Option ℕ) (p : ℕ)
      → p + n * 40 < 30000000000
      → Leads p (n * 40 + 4294967296) (forks_loop t q val n i id (cursor_at p))
  unfolding forks_loop
  forks_loop-Leads zero i id p room = λ on. absurd (no_lead on)
  forks_loop-Leads (suc n) i id p room =
      let d = number t 0 1 p % u32_mod in
      let size = if d == 0 then field t q val jump else vfield t decide in
      let small : size ≤ 32 = elim (Bool-cases (d == 0)) [
        | inl e ↦ rw e (size_of t tame q val asked jump (omega arith))
        | inr e ↦ rw e tame.decisions
      ] in
      rw (get_at t tame 1 p (omega arith) (omega arith)) (elim (Bool-cases (is_fork id i)) [
        | inl here ↦
            rw (here, get_at t tame size (p + 1) small (omega arith))
              (elim (Bool-cases (d == 0)) [
                | inl e ↦ rw e (λ on.
                    let v = number t 0 (field t q val jump) (p + 1) % u32_mod in
                    let fits : field t q val jump ≤ 32 =
                      size_of t tame q val asked jump (omega arith) in
                    (
                      p + 1 + field t q val jump + v,
                      kdt_jump-cursor_at v (p + 1 + field t q val jump) (omega arith),
                      omega arith,
                      omega arith,
                    ))
                | inr e ↦ rw e (λ on. absurd (no_class on))
              ])
        | inr there ↦
            rw (there, kdt_jump-cursor_at size (p + 1) (omega arith))
              (λ on.
                let (p', at, from, to) =
                  forks_loop-Leads n (i + 1) id (p + 1 + size) (omega arith) on in
                (p', at, omega arith, omega arith))
      ])

  -- The forks of a node, read from behind its question.
  forks-Leads :
      (p : ℕ) (r : ℕ × Option ℕ × Cursor)
      → p < 24000000000
      → Asks p r
      → Leads p 4350000000 (forks_loop t q val r.0 0 r.1 r.2)
  forks-Leads p (n, id, c) room (few, (p1, at, from, to)) = λ on.
      let reads = forks_loop-Leads n 0 id p1 (omega arith) in
      let (p2, at2, from2, to2) =
        subst (λ c. Leads p1 (n * 40 + 4294967296) (forks_loop t q val n 0 id c)) (sym at) reads
          on in
      (p2, at2, omega arith, omega arith)

forks_none :
    (t : KdtSubobj) (q val : ℕ) (c : Cursor)
    → (forks_loop t q val (node t q val 0 c).0 0 (node t q val 0 c).1 (node t q val 0 c).2).0
      ≡ negsuc 0
unfolding node terminal forks_loop
forks_none t q val c = refl

-- An invalid question ends the walk, and so does the type of node 0.
module _ (t : KdtSubobj) (tame : IsTame t) (invec : List ℕ) (vector : IsVector invec)
    (invecmax : ℕ) where
  pub ask_tree-Leads :
      (p : ℕ)
      → p < 22000000000
      → (ask_tree t invec invecmax (cursor_at p)).0 ≡ pos 1
      → (p' : ℕ) × ((ask_tree t invec invecmax (cursor_at p)).2 ≡ cursor_at p')
        × (p + 2 ≤ p')
        × (p' < p + 4400000000)
  unfolding ask_tree
  ask_tree-Leads p room =
      let q = number t 0 (vfield t question) (p + 2) % u32_mod % u8_mod in
      let p1 = p + 2 + vfield t question in
      let sizes = tame.questions in
      rw
        (
          get_at t tame 2 p (omega arith) (omega arith),
          get_at t tame (vfield t question) (p + 2) sizes (omega arith),
        )
        (elim (Bool-cases (ltb q t.nrattributes && ltb q invecmax)) [
          | inl valid ↦
              let val = get_or invec q 0 in
              let (asked, _) = both (ltb q t.nrattributes) (ltb q invecmax) valid in
              let inside = ltb→lt q t.nrattributes asked in
              rw valid (λ on.
                let (p2, at, from, to) =
                  forks-Leads t tame q val inside p1
                    (node t q val (number t 0 2 p % u32_mod) (cursor_at p1)) (omega arith)
                    (node-Asks t tame q val inside (number t 0 2 p % u32_mod) p1 (vector q)
                      (omega arith))
                    on in
                (p2, at, omega arith, omega arith))
          | inr invalid ↦ rw invalid (λ on. absurd (no_lead on))
        ])

  pub ask_tree-ends :
      (p : ℕ)
      → p < 22000000000
      → 8 * length t.base ≤ p
      → (ask_tree t invec invecmax (cursor_at p)).0 ≡ negsuc 0
  unfolding ask_tree
  ask_tree-ends p room behind =
      let q = number t 0 (vfield t question) (p + 2) % u32_mod % u8_mod in
      let none_left = number_behind t 2 p behind in
      let last : number t 0 2 p % u32_mod ≡ 0 = omega arith in
      let sizes = tame.questions in
      rw
        (
          get_at t tame 2 p (omega arith) (omega arith),
          get_at t tame (vfield t question) (p + 2) sizes (omega arith),
          last,
        )
        (elim (Bool-cases (ltb q t.nrattributes && ltb q invecmax)) [
          | inl valid ↦
              rw valid (forks_none t q (get_or invec q 0) (cursor_at (p + 2 + vfield t question)))
          | inr invalid ↦ rw invalid refl
        ])
