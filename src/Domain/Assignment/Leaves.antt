-- ===== src/Domain/Assignment/Leaves.antt =====
-- The leaves of the focus tree that belong to a rank (translateAssignment of domain/domaindecomp.hpp).
use native.Mathlib.Decide.{dec_lt}
use sphexa.Base.{ℕ, zero, suc, ◌+◌, ◌≤◌, ◌<◌, ◌↔◌, arith, List, length, if◌then◌else◌}
use sphexa.Base.Int.{pos, pos_part, sub_ℕ, ltb_ℤ}
use sphexa.Primitives.Search.{at, lower_bound, upper_bound}
use sphexa.Primitives.Search.Partition.{Ascending, lower_bound-IsPartition, upper_bound-IsPartition}
use sphexa.Tree.Counts.{find_node_below, find_node_above}
use sphexa.Domain.Assignment.{SfcAssignment, translate_rank}

-- The end of the range, from the places that the two searches find.
end_of :
    (s u i : ℕ)
    → s ≤ i
    → (i < (if ltb_ℤ (sub_ℕ u 1) (pos s) then s else pos_part (sub_ℕ u 1))) ↔ (i + 1 < u)
end_of s zero i h = ground arith
end_of s (suc u) i h = ground arith

-- A leaf lies in the index range that translate_rank gives a rank if and only if it starts no
-- earlier and ends no later than the keys of the rank. The keys of the focus tree ascend, and
-- the leaf is one of its leaves.
pub translate_rank-leaves :
    (assignment : SfcAssignment) (focus_tree : List ℕ) (rank i : ℕ)
    → Ascending (at focus_tree) 0 (length focus_tree)
    → i + 1 < length focus_tree
    → let range = translate_rank assignment focus_tree rank in
      let bounds = at assignment.rank_boundaries in
      ((range.start ≤ i) × (i < range.end))
      ↔ ((bounds rank ≤ at focus_tree i) × (at focus_tree (i + 1) ≤ bounds (rank + 1)))
unfolding translate_rank find_node_above find_node_below
translate_rank-leaves assignment focus_tree rank i up h =
    let n = length focus_tree in
    let tree = at focus_tree in
    let lo = at assignment.rank_boundaries rank in
    let hi = at assignment.rank_boundaries (rank + 1) in
    let s = lower_bound tree 0 n lo in
    let u = upper_bound tree 0 n hi in
    let p = lower_bound-IsPartition tree 0 n lo (omega arith) up in
    let q = upper_bound-IsPartition tree 0 n hi (omega arith) up in
    (
      λ (a, b).
          let c : i + 1 < u = (end_of s u i a).0 b in
          (
            ground (arith, p.fails i a (omega arith)),
            ground (arith, q.passes (i + 1) (omega arith) c),
          ),
      λ (a, b).
          let c : s ≤ i = elim (dec_lt i s) [
            | yes x ↦ absurd (ground (arith, p.passes i (omega arith) x))
            | no x ↦ omega arith
          ] in
          let d : i + 1 < u = elim (dec_lt (i + 1) u) [
            | yes x ↦ x
            | no x ↦ absurd (ground (arith, q.fails (i + 1) (omega arith) h))
          ] in
          (c, (end_of s u i c).1 d),
    )
