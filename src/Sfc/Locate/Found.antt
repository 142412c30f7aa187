-- ===== src/Sfc/Locate/Found.antt =====
-- Which node locateNode returns (sfc/common.hpp).
use native.Mathlib.Decide.{dec_lt}
use sphexa.Base.{ℕ, ◌+◌, ◌/◌, ◌≤◌, ◌<◌, ◌≡◌, ◌⊎◌, arith, true, false, ◌==◌}
use sphexa.Key.{KeyType, max_tree_level}
use sphexa.Primitives.Search.{lower_bound}
use sphexa.Primitives.Search.Partition.{Ascending, lower_bound-IsPartition}
use sphexa.Sfc.Prefix.{decode_prefix_length}
use sphexa.Sfc.Locate.{locate_node}

module _ (t : KeyType) (node_key : ℕ) (prefixes level_range : ℕ → ℕ)
    (ordered : level_range (decode_prefix_length t node_key / 3)
      ≤ level_range (decode_prefix_length t node_key / 3 + 1))
    (inside : level_range (decode_prefix_length t node_key / 3 + 1)
      ≤ level_range (max_tree_level t + 1))
    (up : Ascending prefixes
      (level_range (decode_prefix_length t node_key / 3))
      (level_range (decode_prefix_length t node_key / 3 + 1))) where
  -- If a node of the level of the key has the key as its prefix, then locate_node returns a node
  -- with that prefix, at its place or before it. The prefixes of the level ascend, and the level
  -- lies within the nodes.
  pub locate_node-found :
      (i : ℕ)
      → level_range (decode_prefix_length t node_key / 3) ≤ i
      → i < level_range (decode_prefix_length t node_key / 3 + 1)
      → prefixes i ≡ node_key
      → let found = locate_node t node_key prefixes level_range in
        (found ≤ i) × (prefixes found ≡ node_key)
  unfolding locate_node
  locate_node-found i a b e =
      let level = decode_prefix_length t node_key / 3 in
      let it = lower_bound prefixes (level_range level) (level_range (level + 1)) node_key in
      let p =
        lower_bound-IsPartition prefixes (level_range level) (level_range (level + 1)) node_key
          ordered up in
      let before : it ≤ i = elim (dec_lt i it) [
        | yes h ↦ absurd (ground (arith, p.passes i a h))
        | no h ↦ omega arith
      ] in
      let key : prefixes it ≡ node_key =
        ground (arith, p.fails it (omega arith) (omega arith), up it i p.above before b) in
      let x : (it == level_range (max_tree_level t + 1)) ≡ false = ground arith in
      let y : (prefixes it == node_key) ≡ true = ground arith in rw (x, y) (before, key)

  -- A node that is returned has the key.
  pub locate_node-key :
      let found = locate_node t node_key prefixes level_range in
      (found ≡ level_range (max_tree_level t + 1)) ⊎ (prefixes found ≡ node_key)
  unfolding locate_node
  locate_node-key = ground arith
