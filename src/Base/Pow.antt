-- ===== src/Base/Pow.antt =====
-- Powers of 2 and of 8: the widths of tree nodes.
use Prim.Native.Nat.{ℕ, zero, suc, ◌+◌, ◌-◌, ◌*◌, ◌^◌, ◌≤◌, ◌<◌}
use mathlib.Core.Path.{◌≡◌, refl, ap, ◌∙◌}
use native.Mathlib.Omega.{arith}
use native.Mathlib.Nat.{
  pow-suc, one-le-pow, pow-le-pow_right, zero-add, suc-add, mul_assoc, mul_comm,
}
use native.Mathlib.Decide.{dec_lt}

pub pow8_pos : (k : ℕ) → 0 < 8 ^ k
pow8_pos k = one-le-pow k 8 (omega arith)

pub pow2_pos : (k : ℕ) → 0 < 2 ^ k
pow2_pos k = one-le-pow k 2 (omega arith)

pub pow8-suc : (k : ℕ) → 8 ^ suc k ≡ 8 * 8 ^ k
pow8-suc k = omega (arith, pow-suc 8 k)

pub pow2-suc : (k : ℕ) → 2 ^ suc k ≡ 2 * 2 ^ k
pow2-suc k = omega (arith, pow-suc 2 k)

pub mul-pow8-suc : (p k : ℕ) → p * 8 ^ suc k ≡ 8 * (p * 8 ^ k)
mul-pow8-suc p k = omega (arith, ap (λ (x : ℕ). p * x) (pow8-suc k))

pub pow8-add : (j k : ℕ) → 8 ^ (j + k) ≡ 8 ^ j * 8 ^ k
pow8-add zero k = rw zero-add (omega arith)
pow8-add (suc j) k = rw (suc-add j k, pow8-suc (j + k), pow8-suc j, pow8-add j k) (omega arith)

pub pow2-add : (j k : ℕ) → 2 ^ (j + k) ≡ 2 ^ j * 2 ^ k
pow2-add zero k = rw zero-add (omega arith)
pow2-add (suc j) k = rw (suc-add j k, pow2-suc (j + k), pow2-suc j, pow2-add j k) (omega arith)

pub pow2-triple : (k : ℕ) → 2 ^ (3 * k) ≡ 8 ^ k
pow2-triple zero = refl
pow2-triple (suc k) =
    let e : 3 * suc k ≡ 3 + 3 * k = omega arith in
    rw (e, pow2-add 3 (3 * k), pow2-triple k, pow8-suc k)

pub pow8-le : (j k : ℕ) → j ≤ k → 8 ^ j ≤ 8 ^ k
pow8-le j k h = pow-le-pow_right (omega arith) h

pub pow2-le : (j k : ℕ) → j ≤ k → 2 ^ j ≤ 2 ^ k
pow2-le j k h = pow-le-pow_right (omega arith) h

pub pow8-lt : (j k : ℕ) → j < k → 8 ^ j < 8 ^ k
pow8-lt j k h = omega (arith, pow8-le (suc j) k h, pow8-suc j, pow8_pos j)

pub pow2-lt : (j k : ℕ) → j < k → 2 ^ j < 2 ^ k
pow2-lt j k h = omega (arith, pow2-le (suc j) k h, pow2-suc j, pow2_pos j)

pub lt_of_pow8-lt : (j k : ℕ) → 8 ^ j < 8 ^ k → j < k
lt_of_pow8-lt j k h = elim (dec_lt j k) [
  | yes p ↦ p
  | no p ↦ absurd (omega (arith, pow8-le k j (omega arith)))
]

pub le_of_pow2-le : (j k : ℕ) → 2 ^ j ≤ 2 ^ k → j ≤ k
le_of_pow2-le j k h = elim (dec_lt k j) [
  | yes p ↦ absurd (omega (arith, pow2-lt k j p))
  | no p ↦ omega arith
]

pub lt_of_pow2-lt : (j k : ℕ) → 2 ^ j < 2 ^ k → j < k
lt_of_pow2-lt j k h = elim (dec_lt j k) [
  | yes p ↦ p
  | no p ↦ absurd (omega (arith, pow2-le k j (omega arith)))
]

pub le_of_pow8-le : (j k : ℕ) → 8 ^ j ≤ 8 ^ k → j ≤ k
le_of_pow8-le j k h = elim (dec_lt k j) [
  | yes p ↦ absurd (omega (arith, pow8-lt k j p))
  | no p ↦ omega arith
]

pub pow8-injective : (j k : ℕ) → 8 ^ j ≡ 8 ^ k → j ≡ k
pow8-injective j k h = elim (dec_lt j k) [
  | yes p ↦ absurd (omega (arith, pow8-lt j k p))
  | no p ↦ elim (dec_lt k j) [ yes q ↦ absurd (omega (arith, pow8-lt k j q)) | no q ↦ omega arith ]
]

-- The powers split: `8 ^ k` is `8 ^ (k - j)` blocks of `8 ^ j`.
pub pow8-split : (j k : ℕ) → j ≤ k → 8 ^ k ≡ 8 ^ (k - j) * 8 ^ j
pow8-split j k h =
    let e : k ≡ (k - j) + j = omega arith in ap (λ (n : ℕ). 8 ^ n) e ∙ pow8-add (k - j) j

pub pow2-split : (j k : ℕ) → j ≤ k → 2 ^ k ≡ 2 ^ (k - j) * 2 ^ j
pow2-split j k h =
    let e : k ≡ (k - j) + j = omega arith in ap (λ (n : ℕ). 2 ^ n) e ∙ pow2-add (k - j) j

pub self_lt_pow2 : (n : ℕ) → n < 2 ^ n
self_lt_pow2 zero = omega arith
self_lt_pow2 (suc n) = omega (arith, self_lt_pow2 n, pow2-suc n)

pub mul-pow2-suc : (p k : ℕ) → p * 2 ^ suc k ≡ 2 * (p * 2 ^ k)
mul-pow2-suc p k = omega (
  arith,
  ap (λ (x : ℕ). p * x) (pow2-suc k),
  mul_assoc p 2 (2 ^ k),
  mul_assoc 2 p (2 ^ k),
  ap (λ (x : ℕ). x * 2 ^ k) (mul_comm p 2),
)
