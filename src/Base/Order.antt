-- ===== src/Base/Order.antt =====
-- Small facts on the order of the native numbers.
use Prim.Native.Nat.{ℕ, zero, suc, ◌+◌, ◌-◌, ◌*◌, ◌≤◌, ◌<◌}
use mathlib.Core.Path.{◌≡◌, ap}
use native.Mathlib.Omega.{arith}

pub mul-le-mul : (a b c : ℕ) → a ≤ b → a * c ≤ b * c
mul-le-mul a b c h = grind arith

pub le_of_mul-le : (a b c : ℕ) → 0 < c → a * c ≤ b * c → a ≤ b
le_of_mul-le a b c h p = grind arith

pub lt_of_mul-lt : (a b c : ℕ) → a * c < b * c → a < b
lt_of_mul-lt a b c p = grind arith

pub eq_of_mul-eq : (a b c : ℕ) → 0 < c → a * c ≡ b * c → a ≡ b
eq_of_mul-eq a b c h p = omega (arith, le_of_mul-le a b c, le_of_mul-le b a c)

pub pred-mul : (x y : ℕ) → (x - 1) * y ≡ x * y - y
pred-mul zero y = omega arith
pred-mul (suc x) y = let e : suc x - 1 ≡ x = omega arith in rw e (omega arith)

pub mul-parts : (a b m c : ℕ) → a + b ≡ m → a * c + b * c ≡ m * c
mul-parts a b m c h = omega (arith, ap (λ (x : ℕ). x * c) h)

-- A sequence that rises by at most `c` in each of the first `m` steps.
pub climb :
    (f : ℕ → ℕ) (c m : ℕ)
    → ((e : ℕ) → e < m → f (e + 1) ≤ f e + c)
    → (d a b : ℕ) → a + d ≡ b
    → b ≤ m
    → f b ≤ f a + d * c
climb f c m h zero a b e k = omega (arith, ap f {x = a} {y = b} (omega arith))
climb f c m h (suc d) a b e k =
    omega (arith, climb f c m h d (a + 1) b (omega arith) k, h a (omega arith))
