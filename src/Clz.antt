-- ===== src/Clz.antt =====
-- Leading and trailing zeros (domain/include/cstone/primitives/clz.hpp), by what the compiler's
-- built-ins count. The functions for compilers without them are not modelled.
use sphexa.Base.{
  ℕ, zero, suc, ◌-◌, ◌*◌, ◌/◌, ◌%◌, ◌^◌, ◌≤◌, ◌<◌, ◌≡◌, refl, arith, ltb, ap, ◌⊎◌, inl, inr, ◌==◌,
  if◌then◌else◌, Bool-cases, ==_iff,
}
use native.Mathlib.Decide.{dec_lt}
use sphexa.Base.Pow.{pow2-suc, pow2-le, pow2_pos, mul-pow2-suc}
use sphexa.Key.{KeyType, key_bits}

-- The zeros above the first one among the `w` low binary digits of `x`: `w` of them if `x` is 0.
unfoldable pub leading_zeros : ℕ → ℕ → ℕ
leading_zeros zero x = 0
leading_zeros (suc w) x = if ltb x (2 ^ w) then suc (leading_zeros w x) else 0

-- countLeadingZeros(uint32_t) and countLeadingZeros(uint64_t), as GCC and clang compile them.
unfoldable pub count_leading_zeros : KeyType → ℕ → ℕ
count_leading_zeros t x = if x == 0 then key_bits t else leading_zeros (key_bits t) x

-- The zeros below the last one among the `w` low binary digits of `x`.
unfoldable pub trailing_zeros : ℕ → ℕ → ℕ
trailing_zeros zero x = 0
trailing_zeros (suc w) x = if x % 2 == 0 then suc (trailing_zeros w (x / 2)) else 0

-- countTrailingZeros: __builtin_ctz and __builtin_ctzl, not to be called at 0.
unfoldable pub count_trailing_zeros : KeyType → ℕ → ℕ
count_trailing_zeros t x = trailing_zeros (key_bits t) x

leading_zeros-zero : (w : ℕ) → leading_zeros w 0 ≡ w
unfolding leading_zeros
leading_zeros-zero zero = refl
leading_zeros-zero (suc w) = ground (arith, pow2_pos w, leading_zeros-zero w)

leading_zeros-pow : (w k x : ℕ) → k < w → 2 ^ k ≤ x → x < 2 ^ suc k → leading_zeros w x ≡ w - suc k
unfolding leading_zeros
leading_zeros-pow zero k x h lo hi = absurd (omega arith)
leading_zeros-pow (suc w) k x h lo hi = elim (dec_lt k w) [
  | yes p ↦ ground (arith, pow2-le (suc k) w p, leading_zeros-pow w k x p lo hi)
  | no p ↦ let e : 2 ^ k ≡ 2 ^ w = ap (λ (n : ℕ). 2 ^ n) (omega arith) in ground arith
]

-- A number of exactly k + 1 binary digits, at most as many as the type has, has the other digits
-- of the type as leading zeros.
pub count_leading_zeros-pow :
    (t : KeyType) (k x : ℕ)
    → k < key_bits t
    → 2 ^ k ≤ x
    → x < 2 ^ suc k
    → count_leading_zeros t x ≡ key_bits t - suc k
unfolding count_leading_zeros
count_leading_zeros-pow t k x h lo hi =
    ground (arith, pow2_pos k, leading_zeros-pow (key_bits t) k x h lo hi)

pub count_leading_zeros-zero : (t : KeyType) → count_leading_zeros t 0 ≡ key_bits t
unfolding count_leading_zeros
count_leading_zeros-zero t = refl

-- A number all of whose `k` binary digits are 1, also for k = 0.
pub count_leading_zeros-ones :
    (t : KeyType) (k : ℕ) → k ≤ key_bits t → count_leading_zeros t (2 ^ k - 1) ≡ key_bits t - k
count_leading_zeros-ones t zero h = rw (count_leading_zeros-zero t) (omega arith)
count_leading_zeros-ones t (suc k) h =
    count_leading_zeros-pow t k (2 ^ suc k - 1) h (omega (arith, pow2-suc k, pow2_pos k))
      (omega (arith, pow2_pos (suc k)))

-- A number that is not 0 has its first one at some digit `k`.
pub first_digit :
    (w x : ℕ) → x < 2 ^ w → (x ≡ 0) ⊎ ((k : ℕ) × (k < w) × (2 ^ k ≤ x) × (x < 2 ^ suc k))
first_digit zero x h = inl (omega arith)
first_digit (suc w) x h = elim (dec_lt x (2 ^ w)) [
  | no big ↦ inr (w, omega arith, omega arith, h)
  | yes small ↦ elim (first_digit w x small) [
    | inl e ↦ inl e
    | inr (k, below, lo, hi) ↦ inr (k, omega arith, lo, hi)
  ]
]

-- The number is a multiple of the power of two that it ends with.
trailing_zeros-divides : (w x : ℕ) → (q : ℕ) × (x ≡ q * 2 ^ trailing_zeros w x)
unfolding trailing_zeros
trailing_zeros-divides zero x = (x, omega arith)
trailing_zeros-divides (suc w) x = elim (Bool-cases (x % 2 == 0)) [
  | inr odd ↦ (x, rw odd (omega arith))
  | inl even ↦
      let (q, e) = trailing_zeros-divides w (x / 2) in
      let z = (==_iff _ _).0 even in
      (q, rw even (omega (arith, mul-pow2-suc q (trailing_zeros w (x / 2)))))
]

pub count_trailing_zeros-divides :
    (t : KeyType) (x : ℕ) → (q : ℕ) × (x ≡ q * 2 ^ count_trailing_zeros t x)
unfolding count_trailing_zeros
count_trailing_zeros-divides t x = trailing_zeros-divides (key_bits t) x
