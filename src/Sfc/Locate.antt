-- ===== src/Sfc/Locate.antt =====
-- The search for a node by its prefix (domain/include/cstone/sfc/common.hpp).
pub mod Found
use sphexa.Base.{ℕ, ◌+◌, ◌/◌, ◌&&◌, not, ◌==◌, if◌then◌else◌}
use sphexa.Key.{KeyType, max_tree_level, unused_bits, wrap_sub, sub32}
use sphexa.Clz.{count_leading_zeros}
use sphexa.Primitives.Search.{lower_bound}
use sphexa.Sfc.Prefix.{decode_prefix_length, encode_placeholder_bit}

-- The number of nodes is what the level range ends with, and the answer if there is no such node.
unfoldable pub locate_node : KeyType → ℕ → (ℕ → ℕ) → (ℕ → ℕ) → ℕ
locate_node t node_key prefixes level_range =
    let num_nodes = level_range (max_tree_level t + 1) in
    let level = decode_prefix_length t node_key / 3 in
    let it = lower_bound prefixes (level_range level) (level_range (level + 1)) node_key in
    if not (it == num_nodes) && (prefixes it == node_key) then it else num_nodes

-- The overload for the node from `start_key` to `end_key`.
unfoldable pub locate_node2 : KeyType → ℕ → ℕ → (ℕ → ℕ) → (ℕ → ℕ) → ℕ
locate_node2 t start_key end_key prefixes level_range =
    let prefix_length =
      sub32 (count_leading_zeros t (wrap_sub t (wrap_sub t end_key start_key) 1)) (unused_bits t) in
    locate_node t (encode_placeholder_bit t start_key prefix_length) prefixes level_range
