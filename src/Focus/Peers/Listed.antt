-- ===== src/Focus/Peers/Listed.antt =====
-- Which ranks are listed as peers (focus/peer_flags.hpp).
use native.Mathlib.Decide.{dec_lt, ℕ_discrete}
use sphexa.Base.{
  zero, suc, ap, sym, ◌∙◌, refl, subst, ℕ, ◌+◌, ◌-◌, ◌≤◌, ◌<◌, ◌≡◌, ◌≢◌, ◌↔◌, inl, inr, arith,
  false, Bool-cases, List, length,
}
use sphexa.Domain.Ranges.{IndexPair}
use sphexa.Primitives.Search.{at}
use sphexa.Primitives.Sort.{In}
use sphexa.Focus.Peers.{focus, elements, segment, is_focus_peer, focus_peers, peer_flags_to_list}
use sphexa.Focus.Peers.Includes.{Has, is_peer_iff, elements-Ascending}
use sphexa.Focus.Peers.Flags.{flag_peers-listed}

In-elements :
    (tree : ℕ → ℕ) (left i z : ℕ)
    → In z (elements tree left i) ↔ (j : ℕ) × (i ≤ j) × (j < i + left) × (tree j ≡ z)
unfolding elements
In-elements tree zero i z = (λ h. absurd h, λ (j, a, b, e). absurd (omega arith))
In-elements tree (suc left) i z =
    let (to, from) = In-elements tree left (i + 1) z in
    (
      λ h. elim h [
        | inl e ↦ (i, omega arith, omega arith, sym e)
        | inr g ↦ let (j, a, b, e) = to g in (j, omega arith, omega arith, e)
      ],
      λ (j, a, b, e). elim (ℕ_discrete i j) [
        | yes same ↦ inl (sym (ap tree same ∙ e))
        | no other ↦ inr (from (j, omega arith, omega arith, e))
      ],
    )

module _ (global_offsets : List ℕ) (focus_offsets : ℕ → IndexPair) (my_rank : ℕ)
    (global_tree focus_tree : ℕ → ℕ) where
  -- The key is a boundary between leaves of the rank in the global tree, or an end of its range.
  abbrev pub IsGlobal : ℕ → ℕ → Type 0
  IsGlobal rank key =
      (j : ℕ) × (at global_offsets rank ≤ j)
      × (j ≤ at global_offsets (rank + 1))
      × (global_tree j ≡ key)

  -- All leaves of the focus tree that are assigned to the rank start and end at such keys: they are
  -- leaves of the rank in the global tree, or made up of several.
  abbrev pub IsResolved : ℕ → Type 0
  IsResolved rank =
      (i : ℕ)
      → (focus_offsets rank).start ≤ i
      → i < (focus_offsets rank).end
      → IsGlobal rank (focus_tree i) × IsGlobal rank (focus_tree (i + 1))

  module _ (n m : ℕ) (global_up : (j : ℕ) → j < n → global_tree j < global_tree (j + 1))
      (focus_up : (j : ℕ) → j < m → focus_tree j < focus_tree (j + 1))
      (global_inside : (rank : ℕ)
        → rank < length global_offsets - 1
        → (at global_offsets rank ≤ at global_offsets (rank + 1))
          × (at global_offsets (rank + 1) ≤ n))
      (focus_inside : (rank : ℕ)
        → rank < length global_offsets - 1
        → ((focus_offsets rank).start ≤ (focus_offsets rank).end) × ((focus_offsets rank).end ≤ m))
      (focus_ends : (rank : ℕ)
        → rank < length global_offsets - 1
        → (focus_offsets rank).start < (focus_offsets rank).end
        → IsGlobal rank (focus_tree (focus_offsets rank).end)) where
    abbrev AllStarts : ℕ → Type 0
    AllStarts rank =
        Has (segment global_tree (at global_offsets rank) (at global_offsets (rank + 1)))
          (segment focus_tree (focus_offsets rank).start (focus_offsets rank).end)

    missing-Has :
        (rank : ℕ)
        → rank < length global_offsets - 1
        → (is_focus_peer global_offsets focus_offsets my_rank global_tree focus_tree rank ≡ false)
          ↔ AllStarts rank
    unfolding is_focus_peer
    missing-Has rank h =
        let (a, b) = global_inside rank h in
        let (c, d) = focus_inside rank h in
        is_peer_iff _ _
          (elements-Ascending global_tree (n + 1) _ (at global_offsets rank)
            (λ j g. global_up j (omega arith)) (omega arith))
          (elements-Ascending focus_tree (m + 1) _ (focus_offsets rank).start
            (λ j g. focus_up j (omega arith)) (omega arith))

    global-le : (d i j : ℕ) → i + d ≡ j → j ≤ n → global_tree i ≤ global_tree j
    global-le zero i j e h =
        let same : i ≡ j = omega arith in
        subst (λ k. global_tree i ≤ global_tree k) same (omega arith)
    global-le (suc d) i j e h =
        let rest = global-le d (i + 1) j (omega arith) h in
        let here = global_up i (omega arith) in omega arith

    -- Each leaf ends where the next one starts.
    Has-IsResolved :
        (rank : ℕ) → rank < length global_offsets - 1 → AllStarts rank → IsResolved rank
    Has-IsResolved rank h has i a b =
        let start : (k : ℕ)
            → (focus_offsets rank).start ≤ k
            → k < (focus_offsets rank).end
            → IsGlobal rank (focus_tree k) =
          λ k c d.
            let found = has (focus_tree k) (
              (In-elements focus_tree _ (focus_offsets rank).start (focus_tree k)).1
                (k, c, omega arith, refl)) in
            let (j, lo, hi, e) =
              (In-elements global_tree _ (at global_offsets rank) (focus_tree k)).0 found in
            (j, lo, omega arith, e) in
        (
          start i a b,
          elim (dec_lt (i + 1) (focus_offsets rank).end) [
            | yes inner ↦ start (i + 1) (omega arith) inner
            | no last ↦
                let same : (focus_offsets rank).end ≡ i + 1 = omega arith in
                subst (λ k. IsGlobal rank (focus_tree k)) same (focus_ends rank h (omega arith))
          ],
        )

    IsResolved-Has :
        (rank : ℕ) → rank < length global_offsets - 1 → IsResolved rank → AllStarts rank
    IsResolved-Has rank h resolved z g =
        let (i, a, b, e) = (In-elements focus_tree _ (focus_offsets rank).start z).0 g in
        let ((j, lo, hi, f), (k, lo', hi', f')) = resolved i a (omega arith) in
        let (c, d) = global_inside rank h in
        let (c', d') = focus_inside rank h in
        let rises = focus_up i (omega arith) in
        let before : j < at global_offsets (rank + 1) = elim (dec_lt j k) [
          | yes less ↦ omega arith
          | no more ↦
              let le = global-le (j - k) k j (omega arith) (omega arith) in absurd (omega arith)
        ] in
        (In-elements global_tree _ (at global_offsets rank) z).1 (j, lo, omega arith, f ∙ e)

    -- The list of peers that focus_peers and peer_flags_to_list give has those other ranks, and
    -- no further, for which not every leaf of the focus tree that is assigned to the rank both
    -- starts and ends at a boundary between leaves that the rank has in the global tree, or at
    -- an end of its range there. Both trees ascend, all offsets are in bounds and in order, and
    -- the last of the leaves assigned to a rank ends at such a boundary.
    pub focus_peers-listed :
        (rank : ℕ)
        → In rank (
            peer_flags_to_list
              (focus_peers global_offsets focus_offsets my_rank global_tree focus_tree)
              focus)
          ↔ (rank < length global_offsets - 1) × (rank ≢ my_rank) × ¬ IsResolved rank
    unfolding focus_peers
    focus_peers-listed rank =
        let test = is_focus_peer global_offsets focus_offsets my_rank global_tree focus_tree in
        let (to, from) = flag_peers-listed my_rank test focus (length global_offsets - 1) rank in
        (
          λ h.
              let (inside, ne, some_missing) = to h in
              (
                inside,
                ne,
                λ resolved.
                    let none_missing =
                      (missing-Has rank inside).1 (IsResolved-Has rank inside resolved) in
                    absurd (ground arith),
              ),
          λ (inside, ne, not_all). from (
            inside,
            ne,
            elim (Bool-cases (test rank)) [
              | inl some_missing ↦ some_missing
              | inr none_missing ↦
                  absurd (
                    not_all (Has-IsResolved rank inside ((missing-Has rank inside).0 none_missing)))
            ],
          ),
        )
