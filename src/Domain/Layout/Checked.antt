-- ===== src/Domain/Layout/Checked.antt =====
-- What checkLayout looks for (domain/layout.hpp).
use native.Mathlib.Decide.{ℕ_discrete}
use sphexa.Base.{
  subst, ℕ, zero, suc, ◌+◌, ◌-◌, ◌≤◌, ◌<◌, ◌≡◌, ◌↔◌, refl, ap, arith, ◌⊎◌, inl, inr, Bool, true,
  false, Bool-cases, ◌&&◌, not, List, [], ◌∷◌, leb, ltb, ltb→lt, length, if◌then◌else◌,
}
use sphexa.Base.Int.{ℤ, pos, negsuc, pos_part, neg_part}
use sphexa.Key.{sub32, n_nodes}
use sphexa.Domain.Ranges.{IndexPair}
use sphexa.Domain.Layout.{range_of, peer_found, check_range, check_layout}

-- The node is one of those assigned to some rank, from the start of its range up to the end.
abbrev pub IsAssigned : List IndexPair → ℕ → Type 0
IsAssigned focus_assignment i =
    (rank : ℕ) × (rank < length focus_assignment)
    × ((range_of focus_assignment rank).start ≤ i)
    × (i < (range_of focus_assignment rank).end)

-- What `check_layout` looks for in a node outside of the own range.
abbrev pub IsSound : List IndexPair → (ℕ → ℕ) → ℕ → ℕ → Type 0
IsSound focus_assignment layout max_particles i =
    (layout i < layout (i + 1) → IsAssigned focus_assignment i)
    × (sub32 (layout (i + 1)) (layout i) ≤ max_particles)

peer_found-IsAssigned :
    (focus_assignment : List IndexPair) (i : ℕ)
    → (peer_found focus_assignment i ≡ true) ↔ IsAssigned focus_assignment i
unfolding peer_found
peer_found-IsAssigned [] i = (λ e. absurd (ground arith), λ (rank, h, a, b). absurd (omega arith))
peer_found-IsAssigned (range ∷ ranges) i =
    let (to, from) = peer_found-IsAssigned ranges i in
    elim (Bool-cases (leb range.start i && ltb i range.end)) [
      | inl here ↦ rw here (λ _. (0, omega arith, ground arith, ground arith), λ _. refl)
      | inr there ↦ rw there (
        λ e. let (rank, h, a, b) = to e in (suc rank, omega arith, a, b),
        λ assigned. from (behind there assigned),
      )
    ]
  where
    behind :
        leb range.start i && ltb i range.end ≡ false
        → IsAssigned (range ∷ ranges) i
        → IsAssigned ranges i
    behind there (zero, h, a, b) = absurd (ground arith)
    behind there (suc rank, h, a, b) = (rank, omega arith, a, b)

one_check :
    (big lost : Bool) (ret : ℤ)
    → ((if big then negsuc 0 else if lost then pos 1 else ret) ≡ pos 0)
      ↔ ((big ≡ false) × (lost ≡ false) × (ret ≡ pos 0))
one_check true lost ret = (λ e. absurd (omega (arith, ap neg_part e)), λ e. absurd (clash e.0))
  where
    clash : true ≡ false → ⊥
    clash e = cc
one_check false true ret = (λ e. absurd (omega (arith, ap pos_part e)), λ e. absurd (clash e.1))
  where
    clash : true ≡ false → ⊥
    clash e = cc
one_check false false ret = (λ e. (refl, refl, e), λ (_, _, e). e)

module _ (focus_assignment : List IndexPair) (layout : ℕ → ℕ) (max_particles : ℕ) where
  abbrev lost : ℕ → Bool
  lost i = ltb (layout i) (layout (i + 1)) && not (peer_found focus_assignment i)

  abbrev big : ℕ → Bool
  big i = ltb max_particles (sub32 (layout (i + 1)) (layout i))

  tests_iff :
      (i : ℕ)
      → ((big i ≡ false) × (lost i ≡ false)) ↔ IsSound focus_assignment layout max_particles i
  tests_iff i =
      let (to, from) = peer_found-IsAssigned focus_assignment i in
      elim (Bool-cases (peer_found focus_assignment i)) [
        | inl e ↦
            rw e (λ (a, b). (λ rises. to e, ground arith), λ (a, b). (ground arith, ground arith))
        | inr e ↦ rw e (
          λ (a, b). (λ rises. absurd (ground arith), ground arith),
          λ (a, b). (
            ground arith,
            elim (Bool-cases (ltb (layout i) (layout (i + 1)))) [
              | inl rises ↦ (let no = from (a (ltb→lt _ _ rises)) in absurd (ground arith))
              | inr flat ↦ rw flat refl
            ],
          ),
        )
      ]

  -- An error that is found stays.
  check_range-zero :
      (left i : ℕ) (ret : ℤ)
      → (check_range focus_assignment layout max_particles left i ret ≡ pos 0) ↔ (
          (ret ≡ pos 0)
          × ((j : ℕ) → i ≤ j → j < i + left → IsSound focus_assignment layout max_particles j))
  unfolding check_range
  check_range-zero zero i ret = (λ e. (e, λ j a b. absurd (omega arith)), λ e. e.0)
  check_range-zero (suc left) i ret =
      let (to, from) =
        check_range-zero left (i + 1) (if big i then negsuc 0 else if lost i then pos 1 else ret) in
      let (out, back) = one_check (big i) (lost i) ret in
      let (sound, tested) = tests_iff i in
      (
        λ e.
            let (r, all) = to e in
            let (b, l, z) = out r in
            (
              z,
              λ j c d. elim (ℕ_discrete i j) [
                | yes g ↦ subst (IsSound focus_assignment layout max_particles) g (sound (b, l))
                | no ne ↦ all j (omega arith) (omega arith)
              ],
            ),
        λ (z, all).
            let (b, l) = tested (all i (omega arith) (omega arith)) in
            from (back (b, l, z), λ j c d. all j (omega arith) (omega arith)),
      )

-- check_layout returns 0 if and only if, for each node outside of the range of the own rank:
-- there is a rank whose range it lies in, at or behind its start and before its end, if the node
-- has particles; and the 32-bit difference of its places is at most the number of particles
-- allowed. The range of the own rank does not end before it starts and lies within the nodes.
pub check_layout-IsSound :
    (my_rank : ℕ) (focus_assignment : List IndexPair) (layout : ℕ → ℕ) (ftree : List ℕ)
    (max_particles : ℕ)
    → (range_of focus_assignment my_rank).start ≤ (range_of focus_assignment my_rank).end
    → (range_of focus_assignment my_rank).end ≤ n_nodes ftree
    → (check_layout my_rank focus_assignment layout ftree max_particles ≡ pos 0) ↔ (
        (i : ℕ)
        → i < n_nodes ftree
        → (i < (range_of focus_assignment my_rank).start)
          ⊎ ((range_of focus_assignment my_rank).end ≤ i)
        → IsSound focus_assignment layout max_particles i)
unfolding check_layout
check_layout-IsSound my_rank focus_assignment layout ftree max_particles s h =
    let mine = range_of focus_assignment my_rank in
    let n = n_nodes ftree in
    let (to, from) = check_range-zero focus_assignment layout max_particles mine.start 0 (pos 0) in
    let (to', from') =
      check_range-zero focus_assignment layout max_particles (n - mine.end) mine.end
        (check_range focus_assignment layout max_particles mine.start 0 (pos 0)) in
    (
      λ e i b c. elim c [
        | inl d ↦ (to (to' e).0).1 i (omega arith) (omega arith)
        | inr d ↦ (to' e).1 i d (omega arith)
      ],
      λ all. from' (
        from (refl, λ j a b. all j (omega arith) (inl (omega arith))),
        λ j a b. all j (omega arith) (inr a),
      ),
    )
