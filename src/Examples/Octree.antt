-- ===== src/Examples/Octree.antt =====
-- The root and its eight children as a linked octree of 32-bit keys.
use sphexa.Base.{
  ℕ, zero, suc, ◌+◌, ◌-◌, ◌*◌, ◌^◌, ◌≤◌, ◌<◌, ◌≡◌, ◌↔◌, ◌⊎◌, ◌==◌, if◌then◌else◌, false, refl,
  arith, min, List, [], ◌∷◌, true,
}
use sphexa.Key.{key32}
use sphexa.Clz.{leading_zeros, count_leading_zeros, trailing_zeros, count_trailing_zeros}
use sphexa.Primitives.Search.{at}
use sphexa.Primitives.Search.Partition.{Ascending, steps-Ascending}
use sphexa.Sfc.Prefix.{decode_prefix_length, decode_placeholder_bit, encode_placeholder_bit}
use sphexa.Sfc.Node.{node_range, is_power_of_8}
use sphexa.Sfc.Locate.{locate_node}
use sphexa.Sfc.Locate.Found.{locate_node-found}
use sphexa.Tree.Cornerstone.{IsOctree}
use sphexa.Tree.Cornerstone.Tiles.{Tiles-one, Tiles-IsOctree}
use sphexa.Tree.Rebalance.{group_count}
use sphexa.Tree.Spanning.{check_nodes, check_octree_invariants}
use sphexa.Tree.Spanning.Checks.{IsLong, check_octree_invariants_iff}
use sphexa.Octree.{node_count}
use sphexa.Octree.Sums.{node_count-group_count}
use sphexa.Tree.Rebalance.Emitted.{total}
use sphexa.Focus.Rebalance.Sums.{range_count_one-total}
use sphexa.Focus.Rebalance.{
  range_count_one, merge_count_and_mac_op, merge_test, split_leaf, overlap_two_ranges,
  protect_ancestors, nz_ancestor_op,
}
use sphexa.Focus.Rebalance.Cells.{cell_prefix}
use sphexa.Focus.Rebalance.Ops.{IsMerged, IsEssential, merge_count_and_mac_op_iff}
use sphexa.Focus.Rebalance.Ancestors.{protect_ancestors-nz_ancestor_op}

abbrev node_prefixes : List ℕ
node_prefixes = 1 ∷ 8 ∷ 9 ∷ 10 ∷ 11 ∷ 12 ∷ 13 ∷ 14 ∷ 15 ∷ []

-- One node of level 0, eight of level 1, and none below.
abbrev level_starts : ℕ → ℕ
level_starts zero = 0
level_starts (suc zero) = 1
level_starts (suc (suc l)) = 9

level_of_child : decode_prefix_length key32 11 ≡ 3
unfolding decode_prefix_length count_leading_zeros leading_zeros
level_of_child = refl

children-Ascending : Ascending (at node_prefixes) 1 9
children-Ascending i j a b c = steps-Ascending (at node_prefixes) 9 steps i j (omega arith) b c
  where
    steps : (i : ℕ) → suc i < 9 → at node_prefixes i ≤ at node_prefixes (suc i)
    steps zero h = omega arith
    steps (suc zero) h = omega arith
    steps (suc (suc zero)) h = omega arith
    steps (suc (suc (suc zero))) h = omega arith
    steps (suc (suc (suc (suc zero)))) h = omega arith
    steps (suc (suc (suc (suc (suc zero))))) h = omega arith
    steps (suc (suc (suc (suc (suc (suc zero)))))) h = omega arith
    steps (suc (suc (suc (suc (suc (suc (suc zero))))))) h = omega arith
    steps (suc (suc (suc (suc (suc (suc (suc (suc i)))))))) h = absurd (omega arith)

locate_node-found_example :
    let found = locate_node key32 11 (at node_prefixes) level_starts in
    (found ≤ 4) × (at node_prefixes found ≡ 11)
unfolding decode_prefix_length count_leading_zeros leading_zeros
locate_node-found_example =
    locate_node-found key32 11 (at node_prefixes) level_starts (omega arith) (omega arith)
      children-Ascending 4 (omega arith) (omega arith) refl

root-IsOctree : IsOctree key32 (at (0 ∷ 1073741824 ∷ [])) 1
root-IsOctree = Tiles-IsOctree (Tiles-one (10, 0, omega arith, omega arith, omega arith))

abbrev root_keys : ℕ → ℕ
root_keys = at (0 ∷ 1073741824 ∷ [])

root_keys-le : (i : ℕ) → i ≤ 1 → root_keys i ≤ 8 ^ 10
root_keys-le zero h = omega arith
root_keys-le (suc zero) h = omega arith
root_keys-le (suc (suc i)) h = absurd (omega arith)

check_octree_invariants_iff_example : (check_octree_invariants key32 root_keys 1 ≡ true) ↔ (
    (0 < 1)
    × (root_keys 0 ≡ 0)
    × (root_keys 1 ≡ 8 ^ 10)
    × ((i : ℕ) → i < 1 → IsLong key32 (root_keys i) (root_keys (i + 1))))
check_octree_invariants_iff_example = check_octree_invariants_iff key32 root_keys 1 root_keys-le

-- The first of two nodes has twice the length of a cell.
rejected : check_octree_invariants key32 (at (0 ∷ 2 ∷ 1073741824 ∷ [])) 2 ≡ false
unfolding check_octree_invariants check_nodes is_power_of_8 node_range count_trailing_zeros
    trailing_zeros count_leading_zeros leading_zeros
rejected = refl

-- The last key is not compared: a key behind the end of the key space is accepted before it.
unsorted_accepted :
    check_octree_invariants key32
      (at (0 ∷ 1073741824 ∷ 2147483648 ∷ 3221225472 ∷ 1073741824 ∷ []))
      4
    ≡ true
unfolding check_octree_invariants check_nodes is_power_of_8 node_range count_trailing_zeros
    trailing_zeros count_leading_zeros leading_zeros
unsorted_accepted = refl

node_count-group_count_example :
    node_count 1 (λ i. i + 4294967000) ≡ min (group_count (λ i. i + 4294967000) 1) (2 ^ 32 - 1)
node_count-group_count_example = node_count-group_count (λ i. i + 4294967000) 1 (λ i h. omega arith)

child_prefix : at node_prefixes 3 ≡ cell_prefix key32 1 2
unfolding encode_placeholder_bit
child_prefix = refl

root_prefix : at node_prefixes 0 ≡ cell_prefix key32 0 0
unfolding encode_placeholder_bit
root_prefix = refl

-- A leaf of level 1 with 5000 particles, that fails its acceptance criterion.
abbrev child_op : ℕ
child_op =
    merge_count_and_mac_op key32 3 (at node_prefixes) (λ _. 0) (λ _. 0) (λ _. 5000) (λ _. 1) 0 1000
      16

merge_count_and_mac_op_iff_example :
    ((child_op ≡ 0)
      ↔ IsMerged key32 3 1 2 (at node_prefixes) (λ _. 0) (λ _. 0) (λ _. 5000) (λ _. 1) 0 1000 16)
    × ((e : ℕ)
        → 0 < e
        → e ≤ 4
        → (8 ^ e ≤ child_op) ↔ (
            (¬ IsMerged key32 3 1 2
              (at node_prefixes)
              (λ _. 0)
              (λ _. 0)
              (λ _. 5000)
              (λ _. 1)
              0
              1000
              16)
            × IsEssential key32 3 1 2
                (at node_prefixes)
                (λ _. 0)
                (λ _. 0)
                (λ _. 5000)
                (λ _. 1)
                0
                1000
                16
            × (1 + e ≤ 10)
            × ((if e == 1 then 16 else 8 ^ e * 16) < 5000)))
    × ((child_op ≡ 0) ⊎ ((e : ℕ) × (e ≤ 4) × (child_op ≡ 8 ^ e)))
merge_count_and_mac_op_iff_example =
    merge_count_and_mac_op_iff key32 3 1 2 (at node_prefixes) (λ _. 0) (λ _. 0) (λ _. 5000) (λ _. 1)
      0 1000 16 (omega arith) (omega arith) child_prefix (λ _. (omega arith, root_prefix))
      (omega arith) (omega arith)

child_is_split : child_op ≡ 64
unfolding merge_count_and_mac_op merge_test split_leaf decode_prefix_length decode_placeholder_bit
    overlap_two_ranges node_range count_leading_zeros leading_zeros
child_is_split = refl

-- The first child is to be merged, and gets the operation of the root.
protect_ancestors-nz_ancestor_op_example :
    at
      (protect_ancestors key32 9
        (at node_prefixes)
        (λ _. 0)
        (8 ∷ 0 ∷ 0 ∷ 0 ∷ 0 ∷ 0 ∷ 0 ∷ 0 ∷ 0 ∷ [])).0
      1
    ≡ nz_ancestor_op key32 1
        (at node_prefixes)
        (λ _. 0)
        (at (8 ∷ 0 ∷ 0 ∷ 0 ∷ 0 ∷ 0 ∷ 0 ∷ 0 ∷ 0 ∷ []))
protect_ancestors-nz_ancestor_op_example =
    protect_ancestors-nz_ancestor_op key32 (at node_prefixes) (λ _. 0)
      (8 ∷ 0 ∷ 0 ∷ 0 ∷ 0 ∷ 0 ∷ 0 ∷ 0 ∷ 0 ∷ []) 1 (λ j h. h) (λ e. omega arith) (omega arith)

-- Three leaves, of which a leaf of the focus tree spans the last two.
abbrev three_leaves : List ℕ
three_leaves = 0 ∷ 8 ∷ 16 ∷ 24 ∷ []

three_leaves-strict : (i j : ℕ) → i < j → j < 4 → at three_leaves i < at three_leaves j
three_leaves-strict i zero a b = absurd (omega arith)
three_leaves-strict zero (suc zero) a b = omega arith
three_leaves-strict zero (suc (suc zero)) a b = omega arith
three_leaves-strict zero (suc (suc (suc zero))) a b = omega arith
three_leaves-strict (suc zero) (suc (suc zero)) a b = omega arith
three_leaves-strict (suc zero) (suc (suc (suc zero))) a b = omega arith
three_leaves-strict (suc (suc zero)) (suc (suc (suc zero))) a b = omega arith
three_leaves-strict (suc i) (suc zero) a b = absurd (omega arith)
three_leaves-strict (suc (suc i)) (suc (suc zero)) a b = absurd (omega arith)
three_leaves-strict (suc (suc (suc i))) (suc (suc (suc zero))) a b = absurd (omega arith)
three_leaves-strict i (suc (suc (suc (suc j)))) a b = absurd (omega arith)

range_count_one-total_example :
    range_count_one three_leaves (λ _. 4000000000) (at (8 ∷ 24 ∷ [])) 0
    ≡ min (2 ^ 32 - 1) (total (λ _. 4000000000) 2 1)
unfolding total
range_count_one-total_example =
    range_count_one-total three_leaves three_leaves-strict (λ _. 4000000000) (at (8 ∷ 24 ∷ [])) 0 1
      3 (omega arith) (omega arith) refl refl (omega arith)
