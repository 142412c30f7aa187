-- ===== src/Sfc/Digit.antt =====
-- Octal digits of keys and the boxes that enclose them (domain/include/cstone/sfc/common.hpp).
pub mod Box
use sphexa.Base.{ℕ, ◌+◌, ◌-◌, ◌*◌, ◌/◌, ◌^◌, bit_and, leb, if◌then◌else◌}
use sphexa.Base.Int.{ℤ, pos, sub_ℕ, pos_part}
use sphexa.Key.{KeyType, max_tree_level, key_bits, wrap, wrap_sub}
use sphexa.Sfc.Node.{node_range}
use sphexa.Sfc.Prefix.{common_prefix}

-- The octant at level `position`.
unfoldable pub octal_digit : KeyType → ℕ → ℕ → ℕ
octal_digit t code position = bit_and (code / 2 ^ (3 * (max_tree_level t - position))) 7

-- fourGeqMask selects 7 - digit for the digits from 4 on, and -digit for those below.
unfoldable pub digit_weight : ℕ → ℤ
digit_weight digit = if leb 4 digit then pos (7 - digit) else sub_ℕ 0 digit

unfoldable pub enclosing_box_code : KeyType → ℕ → ℕ → ℕ
enclosing_box_code t key level =
    let mask = wrap_sub t (node_range t level) 1 in bit_and key (2 ^ key_bits t - 1 - mask)

-- A negative common prefix is -1 or -2, which `/ 3` takes to 0.
unfoldable pub smallest_common_box : KeyType → ℕ → ℕ → ℕ × ℕ
smallest_common_box t first_key second_key =
    let common_level = pos_part (common_prefix t first_key second_key) / 3 in
    let node_start = enclosing_box_code t first_key common_level in
    (node_start, wrap t (node_start + node_range t common_level))
