-- ===== src/Sfc/Digit/Box.antt =====
-- octalDigit and enclosingBoxCode as arithmetic (sfc/common.hpp).
use sphexa.Base.{ℕ, ◌-◌, ◌*◌, ◌/◌, ◌%◌, ◌^◌, ◌≤◌, ◌<◌, ◌≡◌, arith, pred-mul}
use sphexa.Base.Pow.{pow2-triple, pow8_pos, pow8-le, pow2-split}
use sphexa.Base.Bits.{bit_and-low, bit_and-high}
use sphexa.Key.{KeyType, max_tree_level, key_bits, key_space_lt, key_bits_parts, wrap_sub_exact}
use sphexa.Sfc.Node.Level.{node_range-pow8}
use sphexa.Sfc.Digit.{octal_digit, enclosing_box_code}

-- octal_digit returns the digit of the key in base 8 at a position counted from the first level
-- on, for every key and position; a position beyond the maximum level reads the last digit.
pub octal_digit-mod :
    (t : KeyType) (code position : ℕ)
    → octal_digit t code position ≡ code / 8 ^ (max_tree_level t - position) % 8
unfolding octal_digit
octal_digit-mod t code position =
    rw (← pow2-triple (max_tree_level t - position))
      (bit_and-low 3 (code / 2 ^ (3 * (max_tree_level t - position))))

-- The box of a key at a level starts at the greatest multiple of the size of a node of that
-- level that is not above the key. The key fits its type.
pub enclosing_box_code-mod :
    (t : KeyType) (key level : ℕ)
    → key < 2 ^ key_bits t
    → enclosing_box_code t key level
      ≡ key / 8 ^ (max_tree_level t - level) * 8 ^ (max_tree_level t - level)
unfolding enclosing_box_code
enclosing_box_code-mod t key level h =
    let k = max_tree_level t - level in
    let fits : 3 * k ≤ key_bits t = omega (arith, key_bits_parts t) in
    let size : 8 ^ k < 2 ^ key_bits t =
      omega (arith, key_space_lt t, pow8-le k (max_tree_level t)) in
    let mask : 2 ^ key_bits t - 1 - (8 ^ k - 1) ≡ (2 ^ (key_bits t - 3 * k) - 1) * 2 ^ (3 * k) =
      omega (
        arith,
        pow2-split (3 * k) (key_bits t) fits,
        pow2-triple k,
        pow8_pos k,
        pred-mul (2 ^ (key_bits t - 3 * k)) (2 ^ (3 * k)),
      ) in
    rw (
      node_range-pow8 t level,
      wrap_sub_exact t (8 ^ k) 1 (pow8_pos k) size,
      mask,
      bit_and-high (3 * k) (key_bits t) key fits h,
      pow2-triple k,
    )
