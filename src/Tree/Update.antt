-- ===== src/Tree/Update.antt =====
-- The update of an octree (domain/include/cstone/tree/csarray.hpp): decide, rebalance, count.
pub mod Balanced
pub mod Step
pub mod Potential
pub mod Falls
pub mod Termination
use sphexa.Base.{
  ℕ, zero, suc, ◌-◌, ◌^◌, Bool, true, false, List, [], ◌∷◌, if◌then◌else◌, replicate, length,
  Option, none, some, take, ◌++◌,
}
use sphexa.Key.{KeyType, u32, n_nodes}
use sphexa.Primitives.Search.{at}
use sphexa.Sfc.Node.{node_range}
use sphexa.Tree.Rebalance.{rebalance_decision, rebalance_tree}
use sphexa.Tree.Counts.{compute_node_counts}

-- std::vector::resize: new elements are 0.
unfoldable pub resize : ℕ → List ℕ → List ℕ
resize n xs = take n xs ++ replicate (n - length xs) 0

-- The two arrays of a tree, and whether the step left the tree alone.
pub record Update : Type 0 where
  pub tree : List ℕ
  pub counts : List ℕ
  pub converged : Bool

-- `nodeOps` has one element more than there are nodes.
unfoldable pub update_octree : KeyType → List ℕ → ℕ → List ℕ → List ℕ → ℕ → Update
update_octree t keys bucket_size tree counts max_count =
    let (node_ops, converged) =
      rebalance_decision t (at tree) (at counts) (n_nodes tree) bucket_size
        (replicate (suc (n_nodes tree)) 0) in
    let new_tree = rebalance_tree t tree node_ops in
    let resized = resize (n_nodes new_tree) counts in
    record {
      tree = new_tree;
      counts = compute_node_counts t (at new_tree) resized (n_nodes new_tree) keys max_count true;
      converged = converged;
    }

-- The loop of `computeOctree`; without a limit in the code, and on fuel here.
unfoldable pub update_loop :
    KeyType → List ℕ → ℕ → ℕ → ℕ → List ℕ → List ℕ → Option (List ℕ × List ℕ)
update_loop t keys bucket_size max_count zero tree counts = none
update_loop t keys bucket_size max_count (suc fuel) tree counts =
    let step = update_octree t keys bucket_size tree counts max_count in
    let rest = update_loop t keys bucket_size max_count fuel step.tree step.counts in
    if step.converged then some (step.tree, step.counts) else rest

unfoldable pub compute_octree : KeyType → List ℕ → ℕ → ℕ → ℕ → Option (List ℕ × List ℕ)
compute_octree t keys bucket_size max_count fuel =
    update_loop t keys bucket_size max_count fuel (0 ∷ node_range t 0 ∷ []) (u32 (length keys) ∷ [])

unfoldable pub update_treelet : KeyType → List ℕ → List ℕ → ℕ → List ℕ
update_treelet t treelet counts bucket_size =
    rebalance_tree t treelet
      (rebalance_decision t (at treelet) (at counts) (n_nodes treelet) bucket_size
        (replicate (suc (n_nodes treelet)) 0)).0
