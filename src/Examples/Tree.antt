-- ===== src/Examples/Tree.antt =====
-- Octrees of 32-bit keys: the root alone, and the root split into its eight children.
use sphexa.Base.{
  ℕ, zero, suc, ◌+◌, ◌*◌, ◌^◌, ◌≤◌, ◌<◌, ◌≡◌, ◌↔◌, refl, arith, min, List, [], ◌∷◌, replicate, ltb,
  not, true, some,
}
use sphexa.Base.Int.{pos, negsuc}
use sphexa.Key.{key32, n_nodes}
use sphexa.Primitives.Search.{at, lower_bound, upper_bound}
use sphexa.Primitives.Search.Partition.{
  Ascending, IsPartition, steps-Ascending, lower_bound-IsPartition, upper_bound-IsPartition,
}
use sphexa.Tree.Cornerstone.{IsOctree, IsGroup}
use sphexa.Tree.Cornerstone.Tiles.{Tiles-one, rungs, split-Tiles, Tiles-IsOctree}
use sphexa.Clz.{leading_zeros, count_leading_zeros}
use sphexa.Sfc.Node.{tree_level}
use sphexa.Tree.Rebalance.{
  decision_loop, calculate_node_op, split_op, group_count, sibling_and_level, rebalance_decision,
  rebalance_tree,
}
use sphexa.Tree.Rebalance.Decision.{sibling_and_level-child}
use sphexa.Tree.Rebalance.Invariant.{rebalance-IsOctree}
use sphexa.Tree.Counts.{
  calculate_node_count, update_node_count, find_search_bounds, compute_node_counts,
}
use sphexa.Tree.Counts.Guess.{search_bounds-lower_bound}
use sphexa.Tree.Counts.Total.{keys_in, update_node_count-calculate_node_count}
use sphexa.Tree.Counts.Array.{compute_node_counts-keys_in}
use sphexa.Tree.Update.{update_octree, compute_octree}
use sphexa.Tree.Update.Termination.{IsResult, compute_octree-IsResult}
use sphexa.Tree.Update.Balanced.{
  IsBalanced, rebalance_decision-IsBalanced, rebalance_tree-converged,
}
use sphexa.Tree.Update.Step.{IsCounted, update_octree-IsCounted}

abbrev pub root_tree : List ℕ
root_tree = 0 ∷ 1073741824 ∷ []

pub root_tree-IsOctree : IsOctree key32 (at root_tree) 1
root_tree-IsOctree = Tiles-IsOctree (Tiles-one (10, 0, omega arith, omega arith, omega arith))

-- Nine keys of eight nodes.
abbrev split_tree : List ℕ
split_tree =
    0 ∷ 134217728 ∷ 268435456 ∷ 402653184 ∷ 536870912 ∷ 671088640 ∷ 805306368 ∷ 939524096
    ∷ 1073741824 ∷ []

split_tree-IsOctree : IsOctree key32 (at split_tree) 8
unfolding rungs
split_tree-IsOctree =
    Tiles-IsOctree (split-Tiles key32 10 0 1 0 (omega arith) (omega arith) (omega arith))

-- Three keys in the first child, and one in the last.
abbrev few_keys : List ℕ
few_keys = 5 ∷ 5 ∷ 77 ∷ 1000000000 ∷ []

few_keys-steps : (i : ℕ) → suc i < 4 → at few_keys i ≤ at few_keys (suc i)
few_keys-steps zero h = omega arith
few_keys-steps (suc zero) h = omega arith
few_keys-steps (suc (suc zero)) h = omega arith
few_keys-steps (suc (suc (suc i))) h = absurd (omega arith)

few_keys-Ascending : Ascending (at few_keys) 0 4
few_keys-Ascending = steps-Ascending (at few_keys) 4 few_keys-steps

few_keys_bounded : (i : ℕ) → i < 4 → at few_keys i ≤ 8 ^ 10
few_keys_bounded zero h = omega arith
few_keys_bounded (suc zero) h = omega arith
few_keys_bounded (suc (suc zero)) h = omega arith
few_keys_bounded (suc (suc (suc zero))) h = omega arith
few_keys_bounded (suc (suc (suc (suc i)))) h = absurd (omega arith)

-- The root of four keys splits with a bucket of one.
rebalance-IsOctree_example :
    let ops = (rebalance_decision key32 (at root_tree) (λ _. 4) 1 1 (replicate {A = ℕ} 2 0)).0 in
    let new_tree = rebalance_tree key32 root_tree ops in
    IsOctree key32 (at new_tree) (n_nodes new_tree)
rebalance-IsOctree_example =
    rebalance-IsOctree key32 root_tree (λ _. 4) 1 (omega arith) root_tree-IsOctree

-- The eight children of few keys are merged.
update_octree-IsCounted_example :
    let new = update_octree key32 few_keys 16 split_tree (replicate 8 0) 1000 in
    IsOctree key32 (at new.tree) (n_nodes new.tree) × IsCounted new.tree new.counts few_keys 1000
update_octree-IsCounted_example =
    update_octree-IsCounted key32 few_keys 16 split_tree (replicate 8 0) 1000 few_keys-Ascending
      few_keys_bounded (omega arith) (omega arith) (omega arith) split_tree-IsOctree

compute_octree-IsResult_example :
    (tree : List ℕ) × (counts : List ℕ) × (compute_octree key32 few_keys 2 1000 1152921504606846978
      ≡ some (tree, counts))
    × IsResult key32 few_keys 2 1000 tree counts
compute_octree-IsResult_example =
    compute_octree-IsResult key32 few_keys 2 1000 few_keys-Ascending few_keys_bounded (omega arith)
      (omega arith) (omega arith) 1152921504606846978 (omega arith)

rebalance_decision-IsBalanced_example :
    ((rebalance_decision key32 (at root_tree) (λ _. 4) 1 16 (replicate {A = ℕ} 2 0)).1 ≡ true)
    ↔ IsBalanced key32 (at root_tree) 1 (λ _. 4) 16
rebalance_decision-IsBalanced_example =
    rebalance_decision-IsBalanced key32 (at root_tree) 1 root_tree-IsOctree (λ _. 4) 16
      (omega arith) (replicate {A = ℕ} 2 0)

converged : (rebalance_decision key32 (at root_tree) (λ _. 4) 1 16 (0 ∷ 0 ∷ [])).1 ≡ true
unfolding rebalance_decision decision_loop calculate_node_op sibling_and_level split_op tree_level
    count_leading_zeros leading_zeros group_count
converged = refl

rebalance_tree-converged_example :
    rebalance_tree key32 root_tree
      (rebalance_decision key32 (at root_tree) (λ _. 4) 1 16 (0 ∷ 0 ∷ [])).0
    ≡ root_tree
rebalance_tree-converged_example =
    rebalance_tree-converged key32 root_tree (λ _. 4) 16 (0 ∷ 0 ∷ []) root_tree-IsOctree refl
      converged

compute_node_counts-keys_in_example :
    at (compute_node_counts key32 (at split_tree) (replicate 8 3) 8 few_keys 1000 true) 7
    ≡ min (keys_in few_keys (at split_tree 7) (at split_tree 8)) 1000
compute_node_counts-keys_in_example =
    compute_node_counts-keys_in key32 (at split_tree) 8 split_tree-IsOctree 1000 (omega arith)
      few_keys few_keys-Ascending (omega arith) (replicate 8 3) true 7 few_keys_bounded refl
      (omega arith)

update_node_count-calculate_node_count_example :
    update_node_count key32 0 (at split_tree) (negsuc 6) (pos 100) (at few_keys) 4 2
    ≡ calculate_node_count (at split_tree 0) (at split_tree 1) (at few_keys) 4 2
update_node_count-calculate_node_count_example =
    update_node_count-calculate_node_count few_keys few_keys-Ascending key32 (at split_tree) 0 2
      (negsuc 6) (pos 100) few_keys_bounded (omega arith) (omega arith) (omega arith)

search_bounds-lower_bound_example :
    let (a, b) = find_search_bounds key32 (pos 3) 6 (at few_keys) 4 in
    lower_bound (at few_keys) a b 6 ≡ lower_bound (at few_keys) 0 4 6
search_bounds-lower_bound_example =
    search_bounds-lower_bound key32 (at few_keys) 4 6 few_keys_bounded few_keys-Ascending (pos 3)

split_tree-child : (d : ℕ) → d ≤ 8 → at split_tree (0 + d) ≡ 0 + d * 8 ^ 9
split_tree-child zero h = refl
split_tree-child (suc zero) h = refl
split_tree-child (suc (suc zero)) h = refl
split_tree-child (suc (suc (suc zero))) h = refl
split_tree-child (suc (suc (suc (suc zero)))) h = refl
split_tree-child (suc (suc (suc (suc (suc zero))))) h = refl
split_tree-child (suc (suc (suc (suc (suc (suc zero)))))) h = refl
split_tree-child (suc (suc (suc (suc (suc (suc (suc zero))))))) h = refl
split_tree-child (suc (suc (suc (suc (suc (suc (suc (suc zero)))))))) h = refl
split_tree-child (suc (suc (suc (suc (suc (suc (suc (suc (suc d))))))))) h = absurd (omega arith)

split_tree-IsGroup : IsGroup key32 (at split_tree) 8 0 9
split_tree-IsGroup = record {
  parent = 0;
  aligned = refl;
  deep = omega arith;
  inside = omega arith;
  child = split_tree-child;
}

sibling_and_level-child_example : sibling_and_level key32 (at split_tree) 5 ≡ (pos 5, 1)
sibling_and_level-child_example =
    sibling_and_level-child key32 (at split_tree) 8 split_tree-IsOctree 0 9 5 split_tree-IsGroup
      (omega arith)

lower_bound-IsPartition_example :
    IsPartition (λ x. ltb x 6) (at few_keys) 0 4 (lower_bound (at few_keys) 0 4 6)
lower_bound-IsPartition_example =
    lower_bound-IsPartition (at few_keys) 0 4 6 (omega arith) few_keys-Ascending

upper_bound-IsPartition_example :
    IsPartition (λ x. not (ltb 5 x)) (at few_keys) 0 4 (upper_bound (at few_keys) 0 4 5)
upper_bound-IsPartition_example =
    upper_bound-IsPartition (at few_keys) 0 4 5 (omega arith) few_keys-Ascending
