-- ===== src/Sfc/Hilbert/Range.antt =====
-- The range of the keys of iHilbert (sfc/hilbert.hpp).
use native.Mathlib.Nat.{mod-eq_of_lt}
use sphexa.Base.{ℕ, zero, suc, ◌+◌, ◌-◌, ◌*◌, ◌^◌, ◌≤◌, ◌<◌, ◌≡◌, ap, arith, get_or, bit_or}
use sphexa.Base.Pow.{pow8-le, pow8-suc, pow8-le}
use sphexa.Key.{KeyType, max_tree_level, key_bits, wrap, key_space_lt}
use sphexa.Sfc.Hilbert.{Point, hilbert_loop, i_hilbert, morton_to_hilbert, bit_at}

pub octant_digit : (octant : ℕ) → get_or morton_to_hilbert octant 0 < 8
octant_digit zero = omega arith
octant_digit (suc zero) = omega arith
octant_digit (suc (suc zero)) = omega arith
octant_digit (suc (suc (suc zero))) = omega arith
octant_digit (suc (suc (suc (suc zero)))) = omega arith
octant_digit (suc (suc (suc (suc (suc zero))))) = omega arith
octant_digit (suc (suc (suc (suc (suc (suc zero)))))) = omega arith
octant_digit (suc (suc (suc (suc (suc (suc (suc zero))))))) = omega arith
octant_digit (suc (suc (suc (suc (suc (suc (suc (suc n)))))))) = omega arith

-- Each level appends one octal digit.
hilbert_loop-lt :
    (t : KeyType) (levels : ℕ) (p : Point) (key : ℕ)
    → levels ≤ max_tree_level t
    → key < 8 ^ (max_tree_level t - levels)
    → hilbert_loop t levels p key < 8 ^ max_tree_level t
unfolding hilbert_loop
hilbert_loop-lt t zero p key a b =
    let whole : max_tree_level t - 0 ≡ max_tree_level t = omega arith in
    omega (arith, ap (λ (x : ℕ). 8 ^ x) whole)
hilbert_loop-lt t (suc level) (px, py, pz) key a b =
    let m = max_tree_level t - suc level in
    let up : max_tree_level t - level ≡ suc m = omega arith in
    let digit =
      octant_digit
        (bit_or (bit_or (bit_at px level * 4) (bit_at py level * 2)) (bit_at pz level)) in
    let size = pow8-suc m in
    let room : 8 ^ suc m < 2 ^ key_bits t =
      omega (arith, key_space_lt t, pow8-le (suc m) (max_tree_level t) (omega arith)) in
    let shift : wrap t (key * 8) ≡ key * 8 = mod-eq_of_lt (omega arith) in
    let next : wrap t (
          key * 8
          + get_or morton_to_hilbert
              (bit_or (bit_or (bit_at px level * 4) (bit_at py level * 2)) (bit_at pz level)) 0)
        ≡ key * 8
          + get_or morton_to_hilbert
              (bit_or (bit_or (bit_at px level * 4) (bit_at py level * 2)) (bit_at pz level)) 0 =
      mod-eq_of_lt (omega arith) in
    rw (shift, next)
      (hilbert_loop-lt t level _ _ (omega arith) (
        let e : 8 ^ (max_tree_level t - level) ≡ 8 ^ suc m = ap (λ (x : ℕ). 8 ^ x) up in
        omega arith))

-- The Hilbert key of all coordinates lies in the key space.
pub i_hilbert-lt : (t : KeyType) (px py pz : ℕ) → i_hilbert t px py pz < 8 ^ max_tree_level t
unfolding i_hilbert
i_hilbert-lt t px py pz =
    hilbert_loop-lt t (max_tree_level t) (px, py, pz) 0 (omega arith)
      (let e : max_tree_level t - max_tree_level t ≡ 0 = omega arith in rw e (omega arith))
