-- ===== src/Tree/Update/Step.antt =====
-- A whole update (updateOctree of tree/csarray.hpp).
use sphexa.Base.{
  ℕ, ◌+◌, ◌-◌, ◌*◌, ◌^◌, ◌≤◌, ◌<◌, ◌≡◌, ◌∙◌, arith, List, length, length-append, length-take,
  length-replicate, take, replicate, min, true,
}
use sphexa.Key.{KeyType, max_tree_level, n_nodes}
use sphexa.Primitives.Search.{at}
use sphexa.Primitives.Search.Partition.{Ascending}
use sphexa.Tree.Cornerstone.{IsOctree}
use sphexa.Tree.Rebalance.Invariant.{rebalance-IsOctree}
use sphexa.Tree.Counts.Total.{keys_in}
use sphexa.Tree.Counts.Array.{compute_node_counts-keys_in, length-compute_node_counts}
use sphexa.Tree.Update.{resize, update_octree}

-- The counts are those of the keys in each node, capped.
pub record IsCounted (tree counts keys : List ℕ) (max_count : ℕ) : Type 0 where
  pub sized : length counts ≡ n_nodes tree
  pub count :
      (i : ℕ)
      → i < n_nodes tree
      → at counts i ≡ min (keys_in keys (at tree i) (at tree (i + 1))) max_count

length-resize : (n : ℕ) (xs : List ℕ) → length (resize n xs) ≡ n
unfolding resize
length-resize n xs =
    length-append (take n xs) (replicate (n - length xs) 0)
    ∙ omega (arith, length-take n xs, length-replicate {A = ℕ} (n - length xs) 0)

-- An update of an octree leads to an octree whose counts are, node by node, the number of keys
-- in the node, or max_count if that is less. The old counts may be anything. The keys ascend,
-- are at most the end of the key space and fewer than 2 ^ 32; max_count and 512 times the bucket
-- size fit 32 bits.
pub update_octree-IsCounted :
    (t : KeyType) (keys : List ℕ) (bucket_size : ℕ) (tree counts : List ℕ) (max_count : ℕ)
    → Ascending (at keys) 0 (length keys)
    → ((j : ℕ) → j < length keys → at keys j ≤ 8 ^ max_tree_level t)
    → length keys < 2 ^ 32
    → max_count < 2 ^ 32
    → bucket_size * 512 < 2 ^ 32
    → IsOctree t (at tree) (n_nodes tree)
    → let new = update_octree t keys bucket_size tree counts max_count in
      IsOctree t (at new.tree) (n_nodes new.tree) × IsCounted new.tree new.counts keys max_count
unfolding update_octree
update_octree-IsCounted t keys bucket_size tree counts max_count up bounded few cap small o =
    let next = rebalance-IsOctree t tree (at counts) bucket_size small o in
    (
      next,
      record {
        sized = length-compute_node_counts t _ _ keys _ max_count true ∙ length-resize _ counts;
        count = λ i h.
            compute_node_counts-keys_in t _ _ next max_count cap keys up few _ true i bounded
              (length-resize _ counts) h;
      },
    )
