-- ===== src/Octree/Sums.antt =====
-- The counts of inner nodes (NodeCount of tree/octree.hpp).
use sphexa.Base.{ℕ, ◌+◌, ◌-◌, ◌^◌, ◌<◌, ◌≡◌, arith, min}
use sphexa.Primitives.Search.{stl_min}
use sphexa.Tree.Rebalance.{group_count}
use sphexa.Octree.{octant_loop, node_count}

-- The count of an inner node is the sum of the counts of its eight children, or 2 ^ 32 - 1 if
-- that is less. The counts of the children fit 32 bits.
pub node_count-group_count :
    (q : ℕ → ℕ) (c : ℕ)
    → ((i : ℕ) → i < 8 → q (c + i) < 2 ^ 32)
    → node_count c q ≡ min (group_count q c) (2 ^ 32 - 1)
unfolding node_count octant_loop group_count stl_min
node_count-group_count q c small =
    let first : c + 0 ≡ c = omega arith in
    let s0 : q c < 2 ^ 32 = rw first at (small 0 (omega arith)) in
    let s1 = small 1 (omega arith) in
    let s2 = small 2 (omega arith) in
    let s3 = small 3 (omega arith) in
    let s4 = small 4 (omega arith) in
    let s5 = small 5 (omega arith) in
    let s6 = small 6 (omega arith) in let s7 = small 7 (omega arith) in ground arith
