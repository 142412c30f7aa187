-- ===== src/Sfc/Node/Power.antt =====
-- isPowerOf8 and log8ceil as arithmetic (sfc/common.hpp).
use sphexa.Base.{
  ℕ, suc, ◌+◌, ◌-◌, ◌*◌, ◌/◌, ◌%◌, ◌^◌, ◌≤◌, ◌<◌, ◌≡◌, refl, inl, inr, true, false, arith, ◌==◌,
  ◌↔◌,
}
use sphexa.Base.Pow.{
  pow2-triple, pow8-le, pow8_pos, pow2_pos, pow2-le, le_of_pow2-le, lt_of_pow2-lt, le_of_pow8-le,
}
use sphexa.Base.Bits.{pow2_of_bit_and-pred}
use sphexa.Key.{
  KeyType, key32, key64, max_tree_level, key_bits, wrap_sub, key_space_lt, key_bits_parts,
  wrap_sub_exact, level_bounds,
}
use sphexa.Clz.{count_leading_zeros, count_leading_zeros-pow, first_digit}
use sphexa.Sfc.Node.{log8ceil, is_power_of_8}
use sphexa.Sfc.Node.Level.{is_power_of_8-pow8, pow2-eq-pow8, clz-pow2}

-- A power of 2 within the key space passes the test on the leading zeros if it is a power of 8.
power_found :
    (t : KeyType) (k : ℕ)
    → 2 ^ k ≤ 8 ^ max_tree_level t
    → is_power_of_8 t (2 ^ k) ≡ true
    → (j : ℕ) × (j ≤ max_tree_level t) × (2 ^ k ≡ 8 ^ j)
unfolding is_power_of_8
power_found t k fits e =
    let bound : k ≤ 3 * max_tree_level t =
      le_of_pow2-le k (3 * max_tree_level t) (omega (arith, pow2-triple (max_tree_level t))) in
    let third : k % 3 ≡ 0 = ground (arith, clz-pow2 t k bound, level_bounds t) in
    (k / 3, omega arith, pow2-eq-pow8 k third)

-- For a positive number up to the end of the key space, is_power_of_8 holds if and only if the
-- number is a power of 8 with an exponent of at most the maximum level.
pub is_power_of_8_iff :
    (t : KeyType) (n : ℕ)
    → 0 < n
    → n ≤ 8 ^ max_tree_level t
    → (is_power_of_8 t n ≡ true) ↔ ((j : ℕ) × (j ≤ max_tree_level t) × (n ≡ 8 ^ j))
unfolding is_power_of_8
is_power_of_8_iff t n pos fits = (
  λ e.
      let exact : wrap_sub t n 1 ≡ n - 1 =
        wrap_sub_exact t n 1 pos (omega (arith, key_space_lt t)) in
      let (k, p) = pow2_of_bit_and-pred n pos (ground (arith, exact)) in
      rw p (power_found t k (rw p at fits) (rw p at e)),
  λ (j, bound, p). rw p (is_power_of_8-pow8 t j bound),
)

log8ceil-one : (t : KeyType) → log8ceil t 1 ≡ 0
unfolding log8ceil count_leading_zeros
log8ceil-one key32 = refl
log8ceil-one key64 = refl

-- Where n - 1 has k + 1 binary digits.
log8ceil-digits :
    (t : KeyType) (n k : ℕ)
    → n ≤ 8 ^ max_tree_level t
    → k < 3 * max_tree_level t
    → 2 ^ k ≤ n - 1
    → n - 1 < 2 ^ suc k
    → log8ceil t n ≡ k / 3 + 1
unfolding log8ceil
log8ceil-digits t n k fits below lo hi =
    let exact : wrap_sub t n 1 ≡ n - 1 =
      wrap_sub_exact t n 1 (omega (arith, pow2_pos k)) (omega (arith, key_space_lt t)) in
    let zeros : count_leading_zeros t (n - 1) ≡ key_bits t - suc k =
      count_leading_zeros-pow t k (n - 1) (omega (arith, key_bits_parts t)) lo hi in
    let nonzero : (n == 0) ≡ false = ground (arith, pow2_pos k) in
    rw (nonzero, exact, zeros) (omega (arith, key_bits_parts t, level_bounds t))

-- For a positive number up to the end of the key space, log8ceil returns the least exponent for
-- which the power of 8 is not below the number.
pub log8ceil-least :
    (t : KeyType) (n : ℕ)
    → 0 < n
    → n ≤ 8 ^ max_tree_level t
    → (n ≤ 8 ^ log8ceil t n) × ((l : ℕ) → n ≤ 8 ^ l → log8ceil t n ≤ l)
log8ceil-least t n pos fits = elim (first_digit (3 * max_tree_level t) (n - 1) inside) [
  | inl e ↦
      let one : n ≡ 1 = omega arith in rw (one, log8ceil-one t) (omega arith, λ l h. omega arith)
  | inr (k, below, lo, hi) ↦ rw (log8ceil-digits t n k fits below lo hi) (
    omega (arith, pow2-le (suc k) (3 * (k / 3 + 1)), pow2-triple (k / 3 + 1)),
    λ l h. omega (arith, lt_of_pow2-lt k (3 * l), pow2-triple l),
  )
]
  where
    inside : n - 1 < 2 ^ (3 * max_tree_level t)
    inside = omega (arith, pow2-triple (max_tree_level t))

pub log8ceil-pow8 : (t : KeyType) (e : ℕ) → e ≤ max_tree_level t → log8ceil t (8 ^ e) ≡ e
log8ceil-pow8 t e h =
    let (fits, least) = log8ceil-least t (8 ^ e) (pow8_pos e) (pow8-le e (max_tree_level t) h) in
    omega (arith, least e (omega arith), le_of_pow8-le e (log8ceil t (8 ^ e)) fits)
