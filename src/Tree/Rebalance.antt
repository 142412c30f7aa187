-- ===== src/Tree/Rebalance.antt =====
-- One rebalance step of a leaf array (domain/include/cstone/tree/csarray.hpp): the decision for each
-- node, and the new array. The parallel loops write disjoint elements, so they run in order here.
pub mod Decision
pub mod Groups
pub mod Writes
pub mod Emitted
pub mod Arrays
pub mod Invariant
use sphexa.Base.{
  ℕ, zero, suc, ◌+◌, ◌-◌, ◌*◌, ◌<◌, Bool, true, false, not, ◌&&◌, List, [], ◌∷◌, ltb, leb, ◌==◌,
  if◌then◌else◌, set, replicate,
}
use sphexa.Base.Int.{ℤ, pos, negsuc, pos_part, ltb_ℤ}
use sphexa.Key.{KeyType, max_tree_level, wrap, wrap_sub, u32, n_nodes}
use sphexa.Sfc.Node.{node_range, tree_level, log8ceil}
use sphexa.Sfc.Digit.{octal_digit}
use sphexa.Primitives.Search.{at}

-- The index among the siblings, or -1, and the level. The subtraction from `node_idx` does not
-- stop at 0 on an octree.
unfoldable pub sibling_and_level : KeyType → (ℕ → ℕ) → ℕ → ℤ × ℕ
sibling_and_level t cs_tree node_idx =
    let this_node = cs_tree node_idx in
    let range = wrap_sub t (cs_tree (node_idx + 1)) this_node in
    let level = tree_level t range in
    if level == 0
    then (negsuc 0, level)
    else let sibling_idx = octal_digit t this_node level in
      let siblings =
        cs_tree (node_idx - sibling_idx + 8)
        == wrap t (cs_tree (node_idx - sibling_idx) + node_range t (level - 1)) in
      (if siblings then pos sibling_idx else negsuc 0, level)

-- The sum of eight counts, in 64 bits.
unfoldable pub group_count : (ℕ → ℕ) → ℕ → ℕ
group_count counts g =
    counts g
    + counts (g + 1)
    + counts (g + 2)
    + counts (g + 3)
    + counts (g + 4)
    + counts (g + 5)
    + counts (g + 6)
    + counts (g + 7)

-- How many nodes the count asks for; the products are of `unsigned`.
unfoldable pub split_op : KeyType → ℕ → ℕ → ℕ → ℕ
split_op t count level bucket_size =
    if ltb (u32 (bucket_size * 512)) count && ltb (level + 3) (max_tree_level t)
    then 4096
    else if ltb (u32 (bucket_size * 64)) count && ltb (level + 2) (max_tree_level t)
    then 512
    else if ltb (u32 (bucket_size * 8)) count && ltb (level + 1) (max_tree_level t)
    then 64
    else if ltb bucket_size count && ltb level (max_tree_level t)
    then 8
    else 1

-- 0 to merge, 1 to keep, a power of 8 to split.
unfoldable pub calculate_node_op : KeyType → (ℕ → ℕ) → ℕ → (ℕ → ℕ) → ℕ → ℕ
calculate_node_op t tree node_idx counts bucket_size =
    let (sibling_idx, level) = sibling_and_level t tree node_idx in
    let count_merge = leb (group_count counts (node_idx - pos_part sibling_idx)) bucket_size in
    if ltb_ℤ (pos 0) sibling_idx && count_merge
    then 0
    else split_op t (counts node_idx) level bucket_size

-- The loop over the nodes from `i` on; `node_ops` is the array written to.
unfoldable pub decision_loop :
    KeyType → (ℕ → ℕ) → (ℕ → ℕ) → ℕ → ℕ → ℕ → List ℕ → Bool → List ℕ × Bool
decision_loop t tree counts bucket_size zero i node_ops converged = (node_ops, converged)
decision_loop t tree counts bucket_size (suc left) i node_ops converged =
    let decision = calculate_node_op t tree i counts bucket_size in
    decision_loop t tree counts bucket_size left (i + 1) (set node_ops i decision)
      (if decision == 1 then converged else false)

unfoldable pub rebalance_decision : KeyType → (ℕ → ℕ) → (ℕ → ℕ) → ℕ → ℕ → List ℕ → List ℕ × Bool
rebalance_decision t tree counts n_nodes bucket_size node_ops =
    decision_loop t tree counts bucket_size n_nodes 0 node_ops true

-- std::exclusive_scan from `acc` on, in place.
unfoldable pub exclusive_scan : ℕ → List ℕ → List ℕ
exclusive_scan acc [] = []
exclusive_scan acc (x ∷ xs) = acc ∷ exclusive_scan (acc + x) xs

-- for (sibling = 0; sibling < op; ++sibling) newTree[index + sibling] = node + sibling * width
unfoldable pub write_siblings : KeyType → ℕ → ℕ → ℕ → ℕ → ℕ → List ℕ → List ℕ
write_siblings t node width zero sibling index new_tree = new_tree
write_siblings t node width (suc left) sibling index new_tree =
    write_siblings t node width left (sibling + 1) index
      (set new_tree (index + sibling) (wrap t (node + sibling * width)))

unfoldable pub process_node : KeyType → ℕ → (ℕ → ℕ) → (ℕ → ℕ) → List ℕ → List ℕ
process_node t node_index old_tree node_ops new_tree =
    let this_node = old_tree node_index in
    let range = wrap_sub t (old_tree (node_index + 1)) this_node in
    let level = tree_level t range in
    let op_code = node_ops (node_index + 1) - node_ops node_index in
    let new_node_index = node_ops node_index in
    if op_code == 1
    then set new_tree new_node_index this_node
    else if op_code == 8
    then write_siblings t this_node (node_range t (level + 1)) 8 0 new_node_index new_tree
    else if ltb 8 op_code
    then (let level_diff = log8ceil KeyType.key32 op_code in
        write_siblings t this_node (node_range t (level + level_diff)) op_code 0 new_node_index
          new_tree)
    else new_tree

unfoldable pub process_loop : KeyType → (ℕ → ℕ) → (ℕ → ℕ) → ℕ → ℕ → List ℕ → List ℕ
process_loop t tree node_ops zero i new_tree = new_tree
process_loop t tree node_ops (suc left) i new_tree =
    process_loop t tree node_ops left (i + 1) (process_node t i tree node_ops new_tree)

-- `node_ops` has one element more than there are nodes; the vector is empty before `resize`.
unfoldable pub rebalance_tree : KeyType → List ℕ → List ℕ → List ℕ
rebalance_tree t tree node_ops =
    let num_nodes = n_nodes tree in
    let offsets = at (exclusive_scan 0 node_ops) in
    let new_size = offsets num_nodes + 1 in
    let new_tree = process_loop t (at tree) offsets num_nodes 0 (replicate new_size 0) in
    set new_tree (new_size - 1) (at tree num_nodes)
