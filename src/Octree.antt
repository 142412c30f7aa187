-- ===== src/Octree.antt =====
-- The linked octree (domain/include/cstone/tree/octree.hpp), on the CPU: all nodes, sorted by level
-- and key, with their prefixes, and the way from a node to its children and its parent.
pub mod Sums
use sphexa.Base.{
  ℕ, zero, suc, ◌+◌, ◌-◌, ◌*◌, ◌/◌, ◌%◌, ◌^◌, Bool, true, false, ◌&&◌, ◌||◌, not, List, [], ◌∷◌,
  ltb, leb, ◌==◌, if◌then◌else◌, set, length, replicate,
}
use sphexa.Base.Int.{ℤ, pos, ◌+ℤ◌, pos_part}
use sphexa.Key.{KeyType, max_tree_level, wrap_sub, u32, u64}
use sphexa.Sfc.Node.{tree_level}
use sphexa.Sfc.Prefix.{
  encode_placeholder_bit, decode_placeholder_bit, decode_prefix_length, common_prefix,
}
use sphexa.Sfc.Digit.{octal_digit, digit_weight}
use sphexa.Primitives.Search.{at, lower_bound, stl_min}
use sphexa.Primitives.Loop.{write_loop}

-- `left` digits from position `l` on.
unfoldable pub weight_loop : KeyType → ℕ → ℕ → ℕ → ℤ → ℤ
weight_loop t key zero l ret = ret
weight_loop t key (suc left) l ret =
    weight_loop t key left (l + 1) (ret +ℤ digit_weight (octal_digit t key l))

unfoldable pub binary_key_weight : KeyType → ℕ → ℕ → ℤ
binary_key_weight t key level = weight_loop t key (level + 1) 1 (pos 0)

-- prefixes and internalToLeaf
pub record Layout : Type 0 where
  pub prefixes : List ℕ
  pub internal_to_leaf : List ℕ

unfoldable pub put : Layout → ℕ → ℕ → Layout
put layout index prefix = record {
  prefixes = set layout.prefixes index prefix;
  internal_to_leaf = set layout.internal_to_leaf index index;
}

-- `left` leaves from `tid` on. The prefix length, an `int`, is not below 0 between two leaves, and
-- neither is the index of an internal node.
unfoldable pub layout_loop : KeyType → (ℕ → ℕ) → ℕ → ℕ → ℕ → ℕ → Layout → Layout
layout_loop t leaves num_internal num_leaves zero tid layout = layout
layout_loop t leaves num_internal num_leaves (suc left) tid layout =
    let key = leaves tid in
    let level = tree_level t (wrap_sub t (leaves (tid + 1)) key) in
    let leaf = put layout (tid + num_internal) (encode_placeholder_bit t key (3 * level)) in
    let prefix_length = pos_part (common_prefix t key (leaves (tid + 1))) in
    let oct_index = pos_part (pos tid +ℤ binary_key_weight t key (prefix_length / 3)) / 7 in
    let internal = put leaf oct_index (encode_placeholder_bit t key prefix_length) in
    layout_loop t leaves num_internal num_leaves left (tid + 1)
      (if (prefix_length % 3 == 0) && ltb tid (num_leaves - 1) then internal else leaf)

unfoldable pub create_unsorted_layout : KeyType → (ℕ → ℕ) → ℕ → ℕ → Layout → Layout
create_unsorted_layout t leaves num_internal num_leaves layout =
    layout_loop t leaves num_internal num_leaves num_leaves 0 layout

pub record Links : Type 0 where
  pub child_offsets : List ℕ
  pub parents : List ℕ

unfoldable pub link_node : KeyType → (ℕ → ℕ) → (ℕ → ℕ) → (ℕ → ℕ) → ℕ → Links → Links
link_node t prefixes leaf_to_internal level_range i links =
    let idx = leaf_to_internal i in
    let prefix = prefixes idx in
    let node_key = decode_placeholder_bit t prefix in
    let prefix_length = decode_prefix_length t prefix in
    let level = prefix_length / 3 in
    let child_prefix = encode_placeholder_bit t node_key (prefix_length + 3) in
    let search_end = level_range (level + 2) in
    let child_idx = lower_bound prefixes (level_range (level + 1)) search_end child_prefix in
    if not (child_idx == search_end) && (child_prefix == prefixes child_idx)
    then record {
      child_offsets = set links.child_offsets idx child_idx;
      parents = set links.parents ((child_idx - 1) / 8) idx;
    }
    else links

unfoldable pub link_loop : KeyType → (ℕ → ℕ) → (ℕ → ℕ) → (ℕ → ℕ) → ℕ → ℕ → Links → Links
link_loop t prefixes leaf_to_internal level_range zero i links = links
link_loop t prefixes leaf_to_internal level_range (suc left) i links =
    link_loop t prefixes leaf_to_internal level_range left (i + 1)
      (link_node t prefixes leaf_to_internal level_range i links)

unfoldable pub link_tree : KeyType → (ℕ → ℕ) → ℕ → (ℕ → ℕ) → (ℕ → ℕ) → Links → Links
link_tree t prefixes num_internal leaf_to_internal level_range links =
    link_loop t prefixes leaf_to_internal level_range num_internal 0 links

unfoldable pub get_level_range : KeyType → (ℕ → ℕ) → ℕ → List ℕ → List ℕ
get_level_range t node_keys num_nodes level_range =
    let starts =
      write_loop
        (λ level xs. lower_bound node_keys 0 num_nodes (encode_placeholder_bit t 0 (3 * level)))
        (max_tree_level t + 1) 0 level_range in
    set starts (max_tree_level t + 1) num_nodes

-- `left` levels from `i` on.
unfoldable pub descend : KeyType → ℕ → (ℕ → ℕ) → (ℕ → ℕ) → ℕ → ℕ → ℕ → ℕ
descend t node_key prefixes child_offsets zero i ret = ret
descend t node_key prefixes child_offsets (suc left) i ret =
    let key = decode_placeholder_bit t node_key in
    let rest =
      descend t node_key prefixes child_offsets left (i + 1)
        (child_offsets ret + octal_digit t key i) in
    if (child_offsets ret == 0) || (node_key == prefixes ret) then ret else rest

unfoldable pub containing_node : KeyType → ℕ → (ℕ → ℕ) → (ℕ → ℕ) → ℕ
containing_node t node_key prefixes child_offsets =
    descend t node_key prefixes child_offsets (decode_prefix_length t node_key / 3) 1 0

-- The loop `while (--level)`, from a level above 0 down.
unfoldable pub max_depth : (ℕ → ℕ) → ℕ → ℕ
max_depth level_offsets zero = 0
max_depth level_offsets (suc zero) = 0
max_depth level_offsets (suc (suc l)) =
    let rest = max_depth level_offsets (suc l) in
    if not (level_offsets (suc l) == level_offsets l) then l else rest

-- `left` nodes from `i` on, by the combination of the children's quantities.
unfoldable pub sweep_level : (ℕ → (ℕ → ℕ) → ℕ) → (ℕ → ℕ) → ℕ → ℕ → List ℕ → List ℕ
sweep_level combine child_offsets zero i quantities = quantities
sweep_level combine child_offsets (suc left) i quantities =
    let first_child = child_offsets i in
    sweep_level combine child_offsets left (i + 1) (
      if first_child == 0
      then quantities
      else set quantities i (combine first_child (at quantities)))

-- The levels below `levels`, from the last up to the root.
unfoldable pub sweep_levels : (ℕ → (ℕ → ℕ) → ℕ) → (ℕ → ℕ) → (ℕ → ℕ) → ℕ → List ℕ → List ℕ
sweep_levels combine level_offset child_offsets zero quantities = quantities
sweep_levels combine level_offset child_offsets (suc level) quantities =
    let start = level_offset level in
    sweep_levels combine level_offset child_offsets level
      (sweep_level combine child_offsets (level_offset (level + 1) - start) start quantities)

unfoldable pub upsweep : (ℕ → (ℕ → ℕ) → ℕ) → List ℕ → (ℕ → ℕ) → List ℕ → List ℕ
upsweep combine level_offset child_offsets quantities =
    sweep_levels combine (at level_offset) child_offsets (length level_offset - 1) quantities

-- The loop over the octants, in 64 bits.
unfoldable pub octant_loop : (ℕ → ℕ) → ℕ → ℕ → ℕ → ℕ → ℕ
octant_loop q c zero octant sum = sum
octant_loop q c (suc left) octant sum =
    octant_loop q c left (octant + 1) (u64 (sum + q (c + octant)))

unfoldable pub node_count : ℕ → (ℕ → ℕ) → ℕ
node_count c q = u32 (stl_min (2 ^ 32 - 1) (octant_loop q c 7 1 (q c)))
