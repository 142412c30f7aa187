-- ===== src/Base/Bits.antt =====
-- `&`, `|` and `^` at variables. The native operations go by binary digits; here are one equation
-- for the lowest digit of each, and what masks and shifts come to as arithmetic.
use Prim.Native.Nat.{
  bit_xor, differ, bit_xor-bitwise, ℕ, zero, suc, ◌+◌, ◌-◌, ◌*◌, ◌/◌, ◌%◌, ◌^◌, ◌≤◌, ◌<◌, min, max,
  digits, bitwise, bit_and, bit_or, bit_and-bitwise, bit_or-bitwise, bit_xor-bitwise,
}
use mathlib.Core.Path.{◌≡◌, refl, sym, ap, ◌∙◌}
use native.Mathlib.Omega.{arith}
use native.Mathlib.Nat.{
  div-add-mod, div-div-eq-div-mul, div-lt_iff_lt-mul, mod-eq_of_lt, mod-lt, mul-add-mod_self_left,
}
use native.Mathlib.Decide.{dec_lt, ℕ_discrete}
use sphexa.Base.Pow.{pow2-suc, pow2-split, pow2_pos}

-- Fuel above the first operand changes nothing.
digits-fuel :
    (z : ℕ → ℕ) (f : ℕ → ℕ → ℕ) (n m a b : ℕ) → a ≤ n → a ≤ m → digits z f n a b ≡ digits z f m a b
digits-fuel z f zero zero zero b p q = refl
digits-fuel z f zero (suc m) zero b p q = refl
digits-fuel z f (suc n) zero zero b p q = refl
digits-fuel z f (suc n) (suc m) zero b p q = refl
digits-fuel z f zero m (suc a) b p q = absurd (omega arith)
digits-fuel z f (suc n) zero (suc a) b p q = absurd (omega arith)
digits-fuel z f (suc n) (suc m) (suc a) b p q =
    ap (λ (t : ℕ). t * 2 + f (suc a % 2) (b % 2))
      (digits-fuel z f n m (suc a / 2) (b / 2) (omega arith) (omega arith))

bitwise-halves :
    (z : ℕ → ℕ) (f : ℕ → ℕ → ℕ) (a b : ℕ)
    → z b ≡ z (b / 2) * 2 + f 0 (b % 2)
    → bitwise z f a b ≡ bitwise z f (a / 2) (b / 2) * 2 + f (a % 2) (b % 2)
bitwise-halves z f zero b h = h
bitwise-halves z f (suc a) b h =
    ap (λ (t : ℕ). t * 2 + f (suc a % 2) (b % 2))
      (digits-fuel z f a (suc a / 2) (suc a / 2) (b / 2) (omega arith) (omega arith))

pub bit_and-halves : (a b : ℕ) → bit_and a b ≡ bit_and (a / 2) (b / 2) * 2 + min (a % 2) (b % 2)
bit_and-halves a b = simp bit_and-bitwise (bitwise-halves (λ _. 0) min a b (omega arith))

pub bit_or-halves : (a b : ℕ) → bit_or a b ≡ bit_or (a / 2) (b / 2) * 2 + max (a % 2) (b % 2)
bit_or-halves a b = simp bit_or-bitwise (bitwise-halves (λ y. y) max a b (omega arith))

pub bit_xor-halves : (a b : ℕ) → bit_xor a b ≡ bit_xor (a / 2) (b / 2) * 2 + differ (a % 2) (b % 2)
bit_xor-halves a b = simp bit_xor-bitwise (bitwise-halves (λ y. y) differ a b (omega arith))

-- Whatever goes wrong below `n` goes wrong at a half: induction on a bound for the number.
module _ (P : ℕ → Type 0) (start : P 0) (double : (n : ℕ) → P (n / 2) → P n) where
  halving_below : (k n : ℕ) → n ≤ k → P n
  halving_below k zero h = start
  halving_below zero (suc n) h = absurd (omega arith)
  halving_below (suc k) (suc n) h = double (suc n) (halving_below k (suc n / 2) (omega arith))

  pub halving_induction : (n : ℕ) → P n
  halving_induction n = halving_below n n (omega arith)

pub bit_or-zero : (a : ℕ) → bit_or a 0 ≡ a
bit_or-zero = halving_induction (λ a. bit_or a 0 ≡ a) refl λ a ih. omega (arith, bit_or-halves a 0)

pub zero-bit_or : (a : ℕ) → bit_or 0 a ≡ a
zero-bit_or a = bit_or-bitwise 0 a

pub bit_and-zero : (a : ℕ) → bit_and a 0 ≡ 0
bit_and-zero =
    halving_induction (λ a. bit_and a 0 ≡ 0) refl λ a ih. omega (arith, bit_and-halves a 0)

pub zero-bit_and : (a : ℕ) → bit_and 0 a ≡ 0
zero-bit_and a = bit_and-bitwise 0 a

mod-double : (a m : ℕ) → 0 < m → a % (2 * m) ≡ a / 2 % m * 2 + a % 2
mod-double a m h =
    let rest : a / 2 % m < m = mod-lt (a / 2) h in
    let e : a ≡ 2 * m * (a / 2 / m) + (a / 2 % m * 2 + a % 2) =
      omega (arith, div-add-mod (a / 2) m) in
    ap (λ (t : ℕ). t % (2 * m)) e
    ∙ mul-add-mod_self_left (2 * m) (a / 2 / m) (a / 2 % m * 2 + a % 2)
    ∙ mod-eq_of_lt (omega arith)

times-pow2-suc : (q k : ℕ) → q * 2 ^ suc k ≡ q * 2 ^ k * 2
times-pow2-suc q k = omega (arith, ap (λ (t : ℕ). q * t) (pow2-suc k))

bit_or-double : (a r : ℕ) → bit_or (a * 2) r ≡ bit_or a (r / 2) * 2 + r % 2
bit_or-double a r =
    let e : a * 2 / 2 ≡ a = omega arith in omega (arith, rw e at (bit_or-halves (a * 2) r))

bit_and-double : (a b : ℕ) → bit_and a (b * 2) ≡ bit_and (a / 2) b * 2
bit_and-double a b =
    let e : b * 2 / 2 ≡ b = omega arith in omega (arith, rw e at (bit_and-halves a (b * 2)))

-- Low digits below the shift are set beside the shifted ones.
pub bit_or-shift : (k q r : ℕ) → r < 2 ^ k → bit_or (q * 2 ^ k) r ≡ q * 2 ^ k + r
bit_or-shift zero q r h = let e : r ≡ 0 = omega arith in rw (e, bit_or-zero) (omega arith)
bit_or-shift (suc k) q r h =
    rw (times-pow2-suc q k, bit_or-double (q * 2 ^ k) r)
      (omega (arith, pow2-suc k, bit_or-shift k q (r / 2)))

-- A mask of `k` low ones keeps the remainder by `2 ^ k`.
pub bit_and-low : (k a : ℕ) → bit_and a (2 ^ k - 1) ≡ a % 2 ^ k
bit_and-low zero a = rw bit_and-zero (omega arith)
bit_and-low (suc k) a =
    let e : (2 ^ suc k - 1) / 2 ≡ 2 ^ k - 1 = omega (arith, pow2-suc k, pow2_pos k) in
    omega (
      arith,
      rw e at (bit_and-halves a (2 ^ suc k - 1)),
      pow2-suc k,
      pow2_pos k,
      bit_and-low k (a / 2),
      mod-double a (2 ^ k) (pow2_pos k),
      ap (λ (t : ℕ). a % t) (pow2-suc k),
    )

-- A mask whose `k` low digits are 0 acts on the digits above.
pub bit_and-shift : (k a b : ℕ) → bit_and a (b * 2 ^ k) ≡ bit_and (a / 2 ^ k) b * 2 ^ k
bit_and-shift zero a b =
    let e : a / 1 ≡ a = omega arith in let f : b * 1 ≡ b = omega arith in rw (e, f) (omega arith)
bit_and-shift (suc k) a b = rw (
  times-pow2-suc b k,
  bit_and-double a (b * 2 ^ k),
  bit_and-shift k (a / 2) b,
  div-div-eq-div-mul a 2 (2 ^ k),
  ← pow2-suc k,
  times-pow2-suc (bit_and (a / 2 ^ suc k) b) k,
)

-- Clearing the `k` low digits of a number of `w` digits.
pub bit_and-high :
    (k w a : ℕ) → k ≤ w → a < 2 ^ w → bit_and a ((2 ^ (w - k) - 1) * 2 ^ k) ≡ a / 2 ^ k * 2 ^ k
bit_and-high k w a h lt =
    let small : a / 2 ^ k < 2 ^ (w - k) =
      (div-lt_iff_lt-mul (pow2_pos k)).1 (rw (pow2-split k w h) at lt) in
    rw (bit_and-shift k a (2 ^ (w - k) - 1), bit_and-low (w - k) (a / 2 ^ k), mod-eq_of_lt small)

bit_and_self : (a : ℕ) → bit_and a a ≡ a
bit_and_self =
    halving_induction (λ a. bit_and a a ≡ a) refl λ a ih. omega (arith, bit_and-halves a a)

-- `n & (n - 1)` clears the last one of `n`: nothing is left of a power of 2 alone.
pub pow2_of_bit_and-pred : (n : ℕ) → 0 < n → bit_and n (n - 1) ≡ 0 → (k : ℕ) × (n ≡ 2 ^ k)
pow2_of_bit_and-pred =
    halving_induction (λ n. 0 < n → bit_and n (n - 1) ≡ 0 → (k : ℕ) × (n ≡ 2 ^ k))
      (λ h. absurd (omega arith))
      λ n ih pos e. elim (dec_lt 1 n) [
        | no one ↦ (0, omega arith)
        | yes big ↦ elim (ℕ_discrete (n % 2) 0) [
          | yes even ↦
              let p : (n - 1) / 2 ≡ n / 2 - 1 = omega arith in
              let (k, q) = ih (omega arith) (omega (arith, rw p at (bit_and-halves n (n - 1)))) in
              (suc k, omega (arith, pow2-suc k))
          | no odd ↦
              let p : (n - 1) / 2 ≡ n / 2 = omega arith in
              absurd (omega (arith, rw p at (bit_and-halves n (n - 1)), bit_and_self (n / 2)))
        ]
      ]

differ_self : (d : ℕ) → differ d d ≡ 0
differ_self zero = refl
differ_self (suc d) = differ_self d

differ-zero : (d : ℕ) → differ d 0 ≡ d
differ-zero zero = refl
differ-zero (suc d) = refl

pub bit_xor_self : (a : ℕ) → bit_xor a a ≡ 0
bit_xor_self =
    halving_induction (λ a. bit_xor a a ≡ 0) refl
      λ a ih. omega (arith, bit_xor-halves a a, differ_self (a % 2))

pub bit_xor-zero : (a : ℕ) → bit_xor a 0 ≡ a
bit_xor-zero =
    halving_induction (λ a. bit_xor a 0 ≡ a) refl
      λ a ih. omega (arith, bit_xor-halves a 0, differ-zero (a % 2))

-- Clearing the one in front of `k` digits.
pub bit_xor-top : (k r : ℕ) → r < 2 ^ k → bit_xor (2 ^ k + r) (2 ^ k) ≡ r
bit_xor-top zero r h = let e : r ≡ 0 = omega arith in rw e
bit_xor-top (suc k) r h =
    let p : (2 ^ suc k + r) / 2 ≡ 2 ^ k + r / 2 = omega (arith, pow2-suc k) in
    let q : 2 ^ suc k / 2 ≡ 2 ^ k = omega (arith, pow2-suc k) in
    let z : 2 ^ suc k % 2 ≡ 0 = omega (arith, pow2-suc k) in
    omega (
      arith,
      rw (p, q, z) at (bit_xor-halves (2 ^ suc k + r) (2 ^ suc k)),
      differ-zero ((2 ^ suc k + r) % 2),
      bit_xor-top k (r / 2) (omega (arith, pow2-suc k)),
      pow2-suc k,
    )

pub bit_or-top : (k r : ℕ) → r < 2 ^ k → bit_or (2 ^ k) r ≡ 2 ^ k + r
bit_or-top k r h = let e : 1 * 2 ^ k ≡ 2 ^ k = omega arith in rw e at (bit_or-shift k 1 r h)

-- Of two numbers, either may be the mask.
pub bit_and_comm : (a b : ℕ) → bit_and a b ≡ bit_and b a
bit_and_comm =
    halving_induction (λ a. (b : ℕ) → bit_and a b ≡ bit_and b a)
      (λ b. zero-bit_and b ∙ sym (bit_and-zero b))
      (λ a ih b. omega (arith, bit_and-halves a b, bit_and-halves b a, ih (b / 2)))

differ-one : (d : ℕ) → d < 2 → differ d 1 ≡ 1 - d
differ-one zero h = refl
differ-one (suc zero) h = refl
differ-one (suc (suc d)) h = absurd (omega arith)

-- The complement.
pub bit_xor-ones : (k x : ℕ) → x < 2 ^ k → bit_xor x (2 ^ k - 1) ≡ 2 ^ k - 1 - x
bit_xor-ones zero x h = let e : x ≡ 0 = omega arith in rw e
bit_xor-ones (suc k) x h =
    let half : (2 ^ suc k - 1) / 2 ≡ 2 ^ k - 1 = omega (arith, pow2-suc k, pow2_pos k) in
    let odd : (2 ^ suc k - 1) % 2 ≡ 1 = omega (arith, pow2-suc k, pow2_pos k) in
    omega (
      arith,
      rw (half, odd) at (bit_xor-halves x (2 ^ suc k - 1)),
      differ-one (x % 2) (omega arith),
      bit_xor-ones k (x / 2) (omega (arith, pow2-suc k)),
      pow2-suc k,
    )

pub bit_or_comm : (a b : ℕ) → bit_or a b ≡ bit_or b a
bit_or_comm =
    halving_induction (λ a. (b : ℕ) → bit_or a b ≡ bit_or b a)
      (λ b. zero-bit_or b ∙ sym (bit_or-zero b))
      (λ a ih b. omega (arith, bit_or-halves a b, bit_or-halves b a, ih (b / 2)))

differ-le : (d e : ℕ) → differ d e ≤ max d e
differ-le zero e = omega arith
differ-le (suc d) zero = omega arith
differ-le (suc d) (suc e) = omega (arith, differ-le d e)

eq_of_differ : (d e : ℕ) → differ d e ≡ 0 → d ≡ e
eq_of_differ zero e h = sym h
eq_of_differ (suc d) zero h = h
eq_of_differ (suc d) (suc e) h = ap suc (eq_of_differ d e h)

-- The digits of two numbers above a place.
pub bit_xor-div : (k a b : ℕ) → bit_xor a b / 2 ^ k ≡ bit_xor (a / 2 ^ k) (b / 2 ^ k)
bit_xor-div zero a b = rw (div-one a, div-one b, div-one (bit_xor a b)) refl
  where
    div-one : (x : ℕ) → x / 2 ^ 0 ≡ x
    div-one x = omega arith
bit_xor-div (suc k) a b =
    let e : 2 ^ suc k ≡ 2 * 2 ^ k = pow2-suc k in
    let half : bit_xor a b / 2 ≡ bit_xor (a / 2) (b / 2) =
      omega (arith, bit_xor-halves a b, differ-le (a % 2) (b % 2)) in
    rw
      (
        e,
        ← div-div-eq-div-mul a 2 (2 ^ k),
        ← div-div-eq-div-mul b 2 (2 ^ k),
        ← div-div-eq-div-mul (bit_xor a b) 2 (2 ^ k),
        half,
      )
      (bit_xor-div k (a / 2) (b / 2))

pub eq_of_bit_xor : (a b : ℕ) → bit_xor a b ≡ 0 → a ≡ b
eq_of_bit_xor =
    halving_induction (λ a. (b : ℕ) → bit_xor a b ≡ 0 → a ≡ b) (λ b h. sym h ∙ bit_xor-bitwise 0 b)
      (λ a ih b h. omega (
        arith,
        bit_xor-halves a b,
        ih (b / 2) (omega (arith, bit_xor-halves a b)),
        eq_of_differ (a % 2) (b % 2) (omega (arith, bit_xor-halves a b)),
      ))
