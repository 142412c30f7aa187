-- ===== src/Focus/Rebalance.antt =====
-- The rebalance of the focus tree (domain/include/cstone/focus/rebalance.hpp). Arrays of the linked
-- octree are functions of the node's index.
pub mod Cells
pub mod Ops
pub mod Ancestors
pub mod Sums
use sphexa.Base.{
  ℕ, zero, suc, ◌+◌, ◌-◌, ◌*◌, ◌/◌, ◌^◌, ◌<◌, Bool, true, false, ◌&&◌, ◌||◌, not, List, [], ◌∷◌,
  ltb, leb, ◌==◌, if◌then◌else◌, set, length, min,
}
use sphexa.Base.Int.{ℤ, pos, negsuc, sub_ℕ, ltb_ℤ, pos_part}
use sphexa.Key.{KeyType, max_tree_level, wrap, u32, u64}
use sphexa.Sfc.Node.{node_range}
use sphexa.Sfc.Prefix.{decode_placeholder_bit, decode_prefix_length, make_prefix, last_nz_place}
use sphexa.Primitives.Search.{at, stl_max, stl_min}
use sphexa.Primitives.Loop.{write_loop}
use sphexa.Tree.Counts.{find_node_below, find_node_above}
use sphexa.Octree.{containing_node}

-- overlapTwoRanges of traversal/boxoverlap.hpp
unfoldable pub overlap_two_ranges : ℕ → ℕ → ℕ → ℕ → Bool
overlap_two_ranges a b c d = ltb c b && ltb a d

-- The products are of `unsigned`.
unfoldable pub split_leaf : KeyType → ℕ → ℕ → ℕ → ℕ
split_leaf t level count bucket_size =
    if ltb (level + 3) (max_tree_level t) && ltb (u32 (4096 * bucket_size)) count
    then 4096
    else if ltb (level + 2) (max_tree_level t) && ltb (u32 (512 * bucket_size)) count
    then 512
    else if ltb (level + 1) (max_tree_level t) && ltb (u32 (64 * bucket_size)) count
    then 64
    else if ltb level (max_tree_level t) && ltb bucket_size count
    then 8
    else 1

-- Whether the node and its siblings are merged, for a node other than the root.
unfoldable pub merge_test : KeyType → ℕ → ℕ → (ℕ → ℕ) → (ℕ → ℕ) → (ℕ → ℕ) → ℕ → ℕ → ℕ → Bool
merge_test t parent level node_keys counts macs focus_start focus_end bucket_size =
    let count_merge = leb (counts parent) bucket_size in
    let mac_merge = macs parent == 0 in
    let first_group_key = decode_placeholder_bit t (node_keys parent) in
    let last_group_key = wrap t (first_group_key + wrap t (8 * node_range t level)) in
    let in_fringe = overlap_two_ranges first_group_key last_group_key focus_start focus_end in
    count_merge || mac_merge && not in_fringe

unfoldable pub merge_count_and_mac_op :
    KeyType → ℕ → (ℕ → ℕ) → (ℕ → ℕ) → (ℕ → ℕ) → (ℕ → ℕ) → (ℕ → ℕ) → ℕ → ℕ → ℕ → ℕ
merge_count_and_mac_op t node_idx node_keys child_offsets parents counts macs focus_start focus_end
      bucket_size =
    let parent = if node_idx == 0 then 0 else parents ((node_idx - 1) / 8) in
    let level = decode_prefix_length t (node_keys node_idx) / 3 in
    let node_start = decode_placeholder_bit t (node_keys node_idx) in
    let is_leaf = child_offsets node_idx == 0 in
    let in_focus = leb focus_start node_start && ltb node_start focus_end in
    let merge = merge_test t parent level node_keys counts macs focus_start focus_end bucket_size in
    if not (node_idx == 0) && merge
    then 0
    else if is_leaf && (not (macs node_idx == 0) || in_focus)
    then split_leaf t level (counts node_idx) bucket_size
    else 1

unfoldable pub mac_refine_op : KeyType → ℕ → ℕ → ℕ
mac_refine_op t node_key mac =
    let level = decode_prefix_length t node_key / 3 in
    if ltb level (max_tree_level t) && not (mac == 0) then 8 else 1

-- The loop of nzAncestorOp; a parent comes before its children, so fuel of the index is enough.
unfoldable pub closest_nz : (ℕ → ℕ) → (ℕ → ℕ) → ℕ → ℕ → ℕ
closest_nz parents node_ops zero node = node
closest_nz parents node_ops (suc fuel) node =
    let above = closest_nz parents node_ops fuel (parents ((node - 1) / 8)) in
    if node_ops node == 0 then above else node

unfoldable pub nz_ancestor_op : KeyType → ℕ → (ℕ → ℕ) → (ℕ → ℕ) → (ℕ → ℕ) → ℕ
nz_ancestor_op t node_idx prefixes parents node_ops =
    let closest = closest_nz parents node_ops node_idx node_idx in
    if node_idx == 0
    then node_ops 0
    else if decode_placeholder_bit t (prefixes node_idx)
        == decode_placeholder_bit t (prefixes closest)
    then node_ops closest
    else 0

unfoldable pub rebalance_decision_essential :
    KeyType → ℕ → (ℕ → ℕ) → (ℕ → ℕ) → (ℕ → ℕ) → (ℕ → ℕ) → (ℕ → ℕ) → ℕ → ℕ → ℕ → List ℕ → List ℕ
rebalance_decision_essential t num_nodes node_keys child_offsets parents counts macs focus_start
      focus_end bucket_size node_ops =
    write_loop
      (λ i xs.
        merge_count_and_mac_op t i node_keys child_offsets parents counts macs focus_start focus_end
          bucket_size)
      num_nodes 0 node_ops

-- `left` nodes from `i` on, and the number of changes. Each round reads the operations as they are
-- by then.
unfoldable pub protect_loop : KeyType → (ℕ → ℕ) → (ℕ → ℕ) → ℕ → ℕ → List ℕ → ℕ → List ℕ × ℕ
protect_loop t node_keys parents zero i node_ops num_changes = (node_ops, num_changes)
protect_loop t node_keys parents (suc left) i node_ops num_changes =
    let op_decision = nz_ancestor_op t i node_keys parents (at node_ops) in
    protect_loop t node_keys parents left (i + 1) (set node_ops i op_decision)
      (if op_decision == 1 then num_changes else num_changes + 1)

unfoldable pub protect_ancestors : KeyType → ℕ → (ℕ → ℕ) → (ℕ → ℕ) → List ℕ → List ℕ × Bool
protect_ancestors t num_nodes node_keys parents node_ops =
    let (ops, num_changes) = protect_loop t node_keys parents num_nodes 0 node_ops 0 in
    (ops, num_changes == 0)

pub data ResolutionStatus : Type 0 where
  converged : ResolutionStatus
  cancel_merge : ResolutionStatus
  rebalance : ResolutionStatus
  failed : ResolutionStatus

abbrev pub status_value : ResolutionStatus → ℕ
status_value converged = 0
status_value cancel_merge = 1
status_value rebalance = 2
status_value failed = 3

-- std::max by the values
unfoldable pub status_max : ResolutionStatus → ResolutionStatus → ResolutionStatus
status_max a b = if ltb (status_value a) (status_value b) then b else a

-- `left` siblings from `i` on.
unfoldable pub keep_siblings : ℕ → ℕ → List ℕ → List ℕ
keep_siblings zero i node_ops = node_ops
keep_siblings (suc left) i node_ops =
    keep_siblings left (i + 1) (if at node_ops i == 0 then set node_ops i 1 else node_ops)

-- The loop up to the root, on fuel: a parent comes before its children.
unfoldable pub undo_merges : (ℕ → ℕ) → (ℕ → ℕ) → ℕ → ℕ → List ℕ → List ℕ
undo_merges child_offsets parents zero parent node_ops = node_ops
undo_merges child_offsets parents (suc fuel) parent node_ops =
    let above = parents ((parent - 1) / 8) in
    let kept = keep_siblings 8 (child_offsets above) node_ops in
    let rest = undo_merges child_offsets parents fuel above kept in
    if above == 0 then kept else rest

-- The split of the closest node, by one level at most; a difference below 0 would shift by a
-- negative number, and is one of 0 here.
unfoldable pub split_closest : ℕ → ℕ → ℕ → List ℕ → ResolutionStatus × List ℕ
split_closest key_pos node_level_have node_idx node_ops =
    let level_diff = sub_ℕ key_pos node_level_have in
    let status = if ltb_ℤ (pos 1) level_diff then failed else rebalance in
    let added = stl_min (pos_part level_diff) 1 in
    (status, set node_ops node_idx (stl_max (at node_ops node_idx) (2 ^ (3 * added))))

unfoldable pub enforce_key_single :
    KeyType → ℕ → (ℕ → ℕ) → (ℕ → ℕ) → (ℕ → ℕ) → List ℕ → ResolutionStatus × List ℕ
enforce_key_single t key node_keys child_offsets parents node_ops =
    let node_key_want = make_prefix t key in
    let node_idx = containing_node t node_key_want node_keys child_offsets in
    let node_key_have = node_keys node_idx in
    let node_level_have = decode_prefix_length t node_key_have / 3 in
    let try_split =
      not (node_key_have == node_key_want) && ltb node_level_have (max_tree_level t) in
    let undo = (at node_ops node_idx == 0 || try_split) && ltb 0 node_idx in
    let kept =
      if undo then undo_merges child_offsets parents node_idx node_idx node_ops else node_ops in
    let status = if undo then cancel_merge else converged in
    if (key == 0) || (key == node_range t 0)
    then (converged, node_ops)
    else if try_split
    then split_closest (last_nz_place t key) node_level_have node_idx kept
    else (status, kept)

unfoldable pub enforce_loop :
    KeyType
    → List ℕ
    → (ℕ → ℕ)
    → (ℕ → ℕ)
    → (ℕ → ℕ)
    → ResolutionStatus
    → List ℕ
    → ResolutionStatus × List ℕ
enforce_loop t [] node_keys child_offsets parents status node_ops = (status, node_ops)
enforce_loop t (key ∷ keys) node_keys child_offsets parents status node_ops =
    let (single, ops) = enforce_key_single t key node_keys child_offsets parents node_ops in
    enforce_loop t keys node_keys child_offsets parents (status_max single status) ops

unfoldable pub enforce_keys :
    KeyType → List ℕ → (ℕ → ℕ) → (ℕ → ℕ) → (ℕ → ℕ) → List ℕ → ResolutionStatus × List ℕ
enforce_keys t mandatory_keys node_keys child_offsets parents node_ops =
    enforce_loop t mandatory_keys node_keys child_offsets parents converged node_ops

-- std::accumulate in 64 bits, of `left` counts from `i` on.
unfoldable pub accumulate : (ℕ → ℕ) → ℕ → ℕ → ℕ → ℕ
accumulate counts zero i sum = sum
accumulate counts (suc left) i sum = accumulate counts left (i + 1) (u64 (sum + counts i))

-- The leaves are searched with all their keys; the code asserts that both keys are found.
unfoldable pub range_count_one : List ℕ → (ℕ → ℕ) → (ℕ → ℕ) → ℕ → ℕ
range_count_one leaves counts leaves_focus leaf_idx =
    let start_idx =
      pos_part (find_node_below (at leaves) (length leaves) (leaves_focus leaf_idx)) in
    let end_idx = find_node_above (at leaves) (length leaves) (leaves_focus (leaf_idx + 1)) in
    u32 (min (2 ^ 32 - 1) (accumulate counts (end_idx - start_idx) start_idx 0))

unfoldable pub range_count : List ℕ → (ℕ → ℕ) → (ℕ → ℕ) → List ℕ → List ℕ → List ℕ
range_count leaves counts leaves_focus [] counts_focus = counts_focus
range_count leaves counts leaves_focus (leaf_idx ∷ rest) counts_focus =
    range_count leaves counts leaves_focus rest
      (set counts_focus leaf_idx (range_count_one leaves counts leaves_focus leaf_idx))
