-- ===== src/Domain/Assignment/Owner.antt =====
-- The ranges sent to the ranks and the owners of keys (createSendRanges and findRank of
-- domain/domaindecomp.hpp).
use native.Mathlib.Decide.{dec_lt}
use sphexa.Base.{
  ℕ, zero, suc, ◌+◌, ◌≤◌, ◌<◌, ◌≡◌, ◌↔◌, refl, ap, sym, ◌∙◌, arith, List, length, length-replicate,
  leb, true,
}
use sphexa.Base.Int.{pos, pos_part, neg_part, sub_ℕ}
use sphexa.Primitives.Search.{at, lower_bound, upper_bound}
use sphexa.Primitives.Search.Partition.{
  Ascending, IsPartition-unique, lower_bound-IsPartition, upper_bound-IsPartition,
}
use sphexa.Primitives.Loop.{write_loop-at}
use sphexa.Domain.Assignment.{SfcAssignment, assignment_ranks, find_rank, create_send_ranges}

place-one : (u r : ℕ) → (sub_ℕ u 1 ≡ pos r) ↔ (u ≡ r + 1)
place-one zero r = (λ e. absurd (omega (arith, ap neg_part e)), λ e. absurd (omega arith))
place-one (suc u) r =
    let x : sub_ℕ (suc u) 1 ≡ pos u =
      let t : leb 1 (suc u) ≡ true = ground arith in rw t (ap pos (omega arith)) in
    (λ e. omega (arith, ap pos_part (sym x ∙ e)), λ e. x ∙ ap pos (omega arith))

module _ (assignment : SfcAssignment) (keys : List ℕ)
    (sorted : Ascending (at assignment.rank_boundaries) 0 (length assignment.rank_boundaries))
    (up : Ascending (at keys) 0 (length keys)) where
  abbrev bounds : ℕ → ℕ
  bounds = at assignment.rank_boundaries

  -- The rank of a key is the one whose boundaries it lies between.
  find_rank-between :
      (rank key : ℕ)
      → rank < assignment_ranks assignment
      → (find_rank assignment key ≡ pos rank) ↔ ((bounds rank ≤ key) × (key < bounds (rank + 1)))
  unfolding find_rank assignment_ranks
  find_rank-between rank key h =
      let n = length assignment.rank_boundaries in
      let p = upper_bound-IsPartition bounds 0 n key (omega arith) sorted in
      let (to, from) = place-one (upper_bound bounds 0 n key) rank in
      (
        λ e.
            let place = to e in
            (
              ground (arith, p.passes rank (omega arith) (omega arith)),
              ground (arith, p.fails (rank + 1) (omega arith) (omega arith)),
            ),
        λ (lo, hi). from (
            IsPartition-unique _ _ p (record {
              above = omega arith;
              below = omega arith;
              passes = λ i a b. ground (arith, sorted i rank a (omega arith) (omega arith));
              fails = λ i a b. ground (arith, sorted (rank + 1) i (omega arith) a b);
            })),
      )

  send_range :
      (rank : ℕ)
      → rank ≤ assignment_ranks assignment
      → at (create_send_ranges assignment keys) rank
        ≡ lower_bound (at keys) 0 (length keys) (bounds rank)
  unfolding create_send_ranges
  send_range rank h =
      write_loop-at _ (λ r. lower_bound (at keys) 0 (length keys) (bounds r))
        (assignment_ranks assignment + 1) 0 rank _ (λ k xs a b. refl) (omega arith) (omega arith)
        (omega (arith, length-replicate {A = ℕ} (assignment_ranks assignment + 1) 0))

  -- A particle lies in the index range that create_send_ranges gives a rank if and only if
  -- find_rank assigns its key to that rank. The boundaries of the ranks and the keys of the
  -- particles ascend.
  pub create_send_ranges-find_rank :
      (rank j : ℕ)
      → rank < assignment_ranks assignment
      → j < length keys
      → let ranges = create_send_ranges assignment keys in
        ((at ranges rank ≤ j) × (j < at ranges (rank + 1)))
        ↔ (find_rank assignment (at keys j) ≡ pos rank)
  create_send_ranges-find_rank rank j h b =
      let n = length keys in
      let (to, from) = find_rank-between rank (at keys j) h in
      let p = lower_bound-IsPartition (at keys) 0 n (bounds rank) (omega arith) up in
      let q = lower_bound-IsPartition (at keys) 0 n (bounds (rank + 1)) (omega arith) up in
      rw (send_range rank (omega arith), send_range (rank + 1) (omega arith))
        (
          λ (lo, hi).
              from (ground (arith, p.fails j lo b), ground (arith, q.passes j (omega arith) hi)),
          λ e.
              let (lo, hi) = to e in
              (
                elim (dec_lt j (lower_bound (at keys) 0 n (bounds rank))) [
                  | yes c ↦ absurd (ground (arith, p.passes j (omega arith) c))
                  | no c ↦ omega arith
                ],
                elim (dec_lt j (lower_bound (at keys) 0 n (bounds (rank + 1)))) [
                  | yes c ↦ c
                  | no c ↦ absurd (ground (arith, q.fails j (omega arith) b))
                ],
              ),
        )
