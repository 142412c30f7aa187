-- ===== src/Sfc/Node.antt =====
-- Key ranges and subdivision levels of octree nodes (domain/include/cstone/sfc/common.hpp). A node
-- of level `l` covers 8 ^ (maxTreeLevel - l) consecutive keys. Levels above maxTreeLevel, which the
-- code excludes by assertions, are not meant to occur.
pub mod Level
pub mod Power
use sphexa.Base.{ℕ, ◌+◌, ◌-◌, ◌*◌, ◌/◌, ◌%◌, ◌^◌, Bool, ◌&&◌, bit_and, ltb, ◌==◌, if◌then◌else◌}
use sphexa.Key.{KeyType, max_tree_level, unused_bits, key_bits, wrap, wrap_sub, sub32}
use sphexa.Clz.{count_leading_zeros}

-- prefix << (3 * maxTreeLevel - length)
unfoldable pub pad : KeyType → ℕ → ℕ → ℕ
pad t prefix length = wrap t (prefix * 2 ^ (3 * max_tree_level t - length))

unfoldable pub node_range : KeyType → ℕ → ℕ
node_range t level = wrap t (2 ^ (3 * (max_tree_level t - level)))

unfoldable pub log8ceil : KeyType → ℕ → ℕ
log8ceil t n =
    if n == 0
    then 0
    else let lz = count_leading_zeros t (wrap_sub t n 1) in
      sub32 (max_tree_level t) (sub32 lz (unused_bits t) / 3)

unfoldable pub is_power_of_8 : KeyType → ℕ → Bool
is_power_of_8 t n =
    let lz = sub32 (count_leading_zeros t (wrap_sub t n 1)) (unused_bits t) in
    lz % 3 == 0 && bit_and n (wrap_sub t n 1) == 0

unfoldable pub tree_level : KeyType → ℕ → ℕ
tree_level t code_range =
    sub32 (count_leading_zeros t (wrap_sub t code_range 1)) (unused_bits t) / 3

-- The power of 8 of the octal place `pos`, counted from the left.
unfoldable pub octal_power : KeyType → ℕ → ℕ
octal_power t pos = wrap t (2 ^ (3 * (max_tree_level t - pos)))
