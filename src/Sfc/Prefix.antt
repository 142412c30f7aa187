-- ===== src/Sfc/Prefix.antt =====
-- Keys with a Warren-Salmon placeholder bit (domain/include/cstone/sfc/common.hpp): the leading bits
-- of a key behind a 1, so that a node's start and its level are one number.
pub mod RoundTrip
use sphexa.Base.{
  ℕ, ◌+◌, ◌-◌, ◌*◌, ◌/◌, ◌%◌, ◌^◌, Bool, bit_or, bit_xor, bit_and, leb, ltb, ◌==◌, ◌||◌,
  if◌then◌else◌, max,
}
use sphexa.Base.Int.{ℤ, sub_ℕ}
use sphexa.Key.{KeyType, max_tree_level, unused_bits, key_bits, wrap, wrap_sub, sub32}
use sphexa.Clz.{count_leading_zeros, count_trailing_zeros}
use sphexa.Sfc.Node.{node_range}

unfoldable pub encode_placeholder_bit : KeyType → ℕ → ℕ → ℕ
encode_placeholder_bit t code prefix_length =
    let n_shifts = 3 * max_tree_level t - prefix_length in
    let ret = code / 2 ^ n_shifts in
    let place_holder_mask = wrap t (2 ^ prefix_length) in bit_or place_holder_mask ret

-- The node from `k1` to `k2`: its prefix has 3 bits for each level.
unfoldable pub encode_placeholder_bit2 : KeyType → ℕ → ℕ → ℕ
encode_placeholder_bit2 t k1 k2 =
    let prefix_length =
      sub32 (count_leading_zeros t (wrap_sub t (wrap_sub t k2 k1) 1)) (unused_bits t) in
    encode_placeholder_bit t k1 prefix_length

unfoldable pub decode_prefix_length : KeyType → ℕ → ℕ
decode_prefix_length t code = sub32 (key_bits t - 1) (count_leading_zeros t code)

unfoldable pub decode_placeholder_bit : KeyType → ℕ → ℕ
decode_placeholder_bit t code =
    let prefix_length = decode_prefix_length t code in
    let place_holder_mask = wrap t (2 ^ prefix_length) in
    let ret = bit_xor code place_holder_mask in
    wrap t (ret * 2 ^ (3 * max_tree_level t - prefix_length))

-- Both ends of the node.
unfoldable pub decode_placeholder_bit2 : KeyType → ℕ → ℕ × ℕ
decode_placeholder_bit2 t code =
    let prefix_length = decode_prefix_length t code in
    let place_holder_mask = wrap t (2 ^ prefix_length) in
    let ret = bit_xor code place_holder_mask in
    let n_shifts = 3 * max_tree_level t - prefix_length in
    let k1 = wrap t (ret * 2 ^ n_shifts) in (k1, wrap t (k1 + wrap t (2 ^ n_shifts)))

-- Keys marked by the bit above the key space. The ends of the key space are never marked.
unfoldable pub mask_key : KeyType → ℕ → ℕ
mask_key t key = if key == 0 || key == node_range t 0 then key else bit_or key (node_range t 0)

unfoldable pub unmask_key : KeyType → ℕ → ℕ
unmask_key t key = if key == node_range t 0 then key else bit_and key (node_range t 0 - 1)

unfoldable pub is_masked : KeyType → ℕ → Bool
is_masked t key = ltb (node_range t 0) key

-- The compiler's `int` difference may be negative: keys that differ in an unused bit.
unfoldable pub common_prefix : KeyType → ℕ → ℕ → ℤ
common_prefix t key1 key2 = sub_ℕ (count_leading_zeros t (bit_xor key1 key2)) (unused_bits t)

-- `int` lengths; the differences below 0 that `max` cuts off are those that `-` stops at.
unfoldable pub is_ancestor : KeyType → ℕ → ℕ → Bool
is_ancestor t a b =
    let alen = decode_prefix_length t a in
    let blen = decode_prefix_length t b in
    let a' = wrap t (a * 2 ^ (blen - alen)) in
    let common_bits = count_leading_zeros t (bit_xor a' b) in
    leb (1 + count_leading_zeros t b + (alen - 3)) common_bits

-- Clears all but the highest `n_bits` of a key.
unfoldable pub zero_low_bits : KeyType → ℕ → ℕ → ℕ
zero_low_bits t code n_bits =
    let n_lower_bits = 3 * max_tree_level t - n_bits in
    let mask = wrap_sub t (wrap t (2 ^ n_lower_bits)) 1 in bit_and code (2 ^ key_bits t - 1 - mask)

unfoldable pub last_nz_place : KeyType → ℕ → ℕ
last_nz_place t x =
    if x == 0 then max_tree_level t else max_tree_level t - count_trailing_zeros t x / 3

-- The prefix of the largest node that starts at `a`.
unfoldable pub make_prefix : KeyType → ℕ → ℕ
make_prefix t a =
    if a == 0 then 1 else let level = last_nz_place t a in encode_placeholder_bit t a (3 * level)
