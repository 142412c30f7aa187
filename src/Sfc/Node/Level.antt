-- ===== src/Sfc/Node/Level.antt =====
-- The ranges and levels of nodes as powers of 8 (sfc/common.hpp).
use native.Mathlib.Nat.{mod-eq_of_lt, mod_self}
use sphexa.Base.{ℕ, ◌-◌, ◌*◌, ◌/◌, ◌%◌, ◌^◌, ◌≤◌, ◌<◌, ◌≡◌, ap, ◌∙◌, true, arith, bit_and}
use sphexa.Base.Pow.{pow2-triple, pow8-le, pow8_pos, pow2_pos, pow2-le}
use sphexa.Base.Bits.{bit_and-low}
use sphexa.Key.{
  KeyType, max_tree_level, unused_bits, key_bits, wrap_sub, sub32, key_space_lt, key_bits_parts,
  wrap_sub_exact, sub32_exact, level_bounds,
}
use sphexa.Clz.{count_leading_zeros, count_leading_zeros-ones}
use sphexa.Sfc.Node.{node_range, tree_level, is_power_of_8, octal_power}

-- A node of level `level` has 8 ^ (maxTreeLevel - level) keys.
pub node_range-pow8 :
    (t : KeyType) (level : ℕ) → node_range t level ≡ 8 ^ (max_tree_level t - level)
unfolding node_range
node_range-pow8 t level =
    let small : 8 ^ (max_tree_level t - level) < 2 ^ key_bits t =
      omega (arith, key_space_lt t, pow8-le (max_tree_level t - level) (max_tree_level t)) in
    rw (pow2-triple (max_tree_level t - level)) (mod-eq_of_lt small)

pub octal_power-pow8 : (t : KeyType) (pos : ℕ) → octal_power t pos ≡ 8 ^ (max_tree_level t - pos)
unfolding octal_power
octal_power-pow8 t pos = unfold node_range in node_range-pow8 t pos

-- The leading zeros that the code counts below a power of 2 in the key space.
pub clz-pow2 :
    (t : KeyType) (k : ℕ)
    → k ≤ 3 * max_tree_level t
    → sub32 (count_leading_zeros t (wrap_sub t (2 ^ k) 1)) (unused_bits t)
      ≡ 3 * max_tree_level t - k
clz-pow2 t k h =
    let below : 2 ^ k < 2 ^ key_bits t =
      omega (
        arith,
        key_space_lt t,
        pow2-le k (3 * max_tree_level t) h,
        pow2-triple (max_tree_level t),
      ) in
    let fits : k ≤ key_bits t = omega (arith, key_bits_parts t) in
    rw (wrap_sub_exact t (2 ^ k) 1 (pow2_pos k) below, count_leading_zeros-ones t k fits)
      (omega
        (arith, key_bits_parts t, level_bounds t, sub32_exact (key_bits t - k) (unused_bits t)))

clz-pow8 :
    (t : KeyType) (k : ℕ)
    → k ≤ max_tree_level t
    → sub32 (count_leading_zeros t (wrap_sub t (8 ^ k) 1)) (unused_bits t)
      ≡ 3 * (max_tree_level t - k)
clz-pow8 t k h = rw (← pow2-triple k) (omega (arith, clz-pow2 t (3 * k) (omega arith)))

-- The level of a range of 8 ^ k keys, with k at most the maximum level, is the maximum level
-- less k.
pub tree_level-pow8 :
    (t : KeyType) (k : ℕ) → k ≤ max_tree_level t → tree_level t (8 ^ k) ≡ max_tree_level t - k
unfolding tree_level
tree_level-pow8 t k h = rw (clz-pow8 t k h) (omega arith)

-- Bits k with 3 zeros fewer for each level: the power of 8 from the power of 2 it is.
pub pow2-eq-pow8 : (k : ℕ) → k % 3 ≡ 0 → 2 ^ k ≡ 8 ^ (k / 3)
pow2-eq-pow8 k h = ap (λ (n : ℕ). 2 ^ n) (omega arith) ∙ pow2-triple (k / 3)

pub is_power_of_8-pow8 :
    (t : KeyType) (k : ℕ) → k ≤ max_tree_level t → is_power_of_8 t (8 ^ k) ≡ true
unfolding is_power_of_8
is_power_of_8-pow8 t k h =
    let below : 8 ^ k < 2 ^ key_bits t =
      omega (arith, key_space_lt t, pow8-le k (max_tree_level t) h) in
    let none : bit_and (8 ^ k) (wrap_sub t (8 ^ k) 1) ≡ 0 =
      rw (wrap_sub_exact t (8 ^ k) 1 (pow8_pos k) below, ← pow2-triple k, bit_and-low (3 * k))
        (mod_self (2 ^ (3 * k))) in
    rw (clz-pow8 t k h, none) (ground arith)
