-- ===== src/Sfc/Hilbert/Prepend.antt =====
-- One level of decodeHilbert2D undoes one level of iHilbert2D (sfc/hilbert.hpp).
use native.Mathlib.Nat.{
  mod-lt, div-add-mod, div-lt_iff_lt-mul, div-div-eq-div-mul, mul-add-div_right, div-eq_of_lt,
  add-mul, mul_comm, mul_assoc,
}
use sphexa.Base.{
  ℕ, zero, suc, ◌+◌, ◌-◌, ◌*◌, ◌/◌, ◌%◌, ◌^◌, ◌≤◌, ◌<◌, ◌≡◌, ap, sym, ◌∙◌, arith, bit_or, bit_xor,
  ◌==◌, if◌then◌else◌, false,
}
use sphexa.Base.Pow.{pow2_pos, pow2-split, pow2-suc}
use sphexa.Base.Bits.{bit_xor-zero, bit_xor-ones, bit_or-shift, bit_or_comm}
use sphexa.Key.{u32}
use sphexa.Sfc.Hilbert.{neg32, prepend}
use sphexa.Sfc.Hilbert.Octant.{flip, flip-lt, low-flip}

-- The highest bits of a coordinate.
abbrev pub high : ℕ → ℕ → ℕ
high n x = x / 2 ^ (32 - n)

-- A bit in front of the highest bits.
front :
    (n b x : ℕ)
    → n ≤ 31
    → b ≤ 1
    → x < 2 ^ 32
    → (bit_or (x / 2) (u32 (b * 2 ^ 31)) < 2 ^ 32)
      × (high (suc n) (bit_or (x / 2) (u32 (b * 2 ^ 31))) ≡ b * 2 ^ n + high n x)
front n b x h hb hx =
    let m = 2 ^ (31 - n) in
    let same : u32 (b * 2 ^ 31) ≡ b * 2 ^ 31 = omega arith in
    let sum : bit_or (x / 2) (b * 2 ^ 31) ≡ b * 2 ^ 31 + x / 2 =
      bit_or_comm (x / 2) (b * 2 ^ 31) ∙ bit_or-shift 31 b (x / 2) (omega arith) in
    let whole : 2 ^ 31 ≡ 2 ^ n * m = pow2-split n 31 h ∙ mul_comm (2 ^ (31 - n)) (2 ^ n) in
    let split : b * 2 ^ 31 + x / 2 ≡ (b * 2 ^ n) * m + x / 2 =
      ap (λ (y : ℕ). b * y + x / 2) whole
      ∙ ap (λ (y : ℕ). y + x / 2) (sym (mul_assoc b (2 ^ n) m)) in
    let level : 32 - suc n ≡ 31 - n = omega arith in
    let twice : 2 ^ (32 - n) ≡ 2 * m = ap (λ (y : ℕ). 2 ^ y) (omega arith) ∙ pow2-suc (31 - n) in
    rw (same, sum)
      (
        omega arith,
        rw (level, split, twice)
            (mul-add-div_right (pow2_pos (31 - n)) (b * 2 ^ n) (x / 2)
              ∙ ap (λ (y : ℕ). b * 2 ^ n + y) (div-div-eq-div-mul x 2 m)),
      )

-- The high bits of the complement.
div-complement : (m q x : ℕ) → 0 < m → x < q * m → (q * m - 1 - x) / m ≡ q - 1 - x / m
div-complement m q x p h =
    let parts = div-add-mod x m in
    let less : x / m < q = (div-lt_iff_lt-mul p).1 h in
    let r = mod-lt x p in
    let split : q * m - 1 - x ≡ (q - 1 - x / m) * m + (m - 1 - x % m) =
      omega (arith, mul-sub q (x / m) m less) in
    let none : (m - 1 - x % m) / m ≡ 0 = div-eq_of_lt (omega arith) in
    rw split (mul-add-div_right p (q - 1 - x / m) (m - 1 - x % m) ∙ omega arith)
  where
    mul-sub : (q d m : ℕ) → d < q → (q - 1 - d) * m + m + m * d ≡ q * m
    mul-sub q d m h =
        let e : q ≡ (q - 1 - d) + 1 + d = omega arith in
        omega (
          arith,
          ap (λ (y : ℕ). y * m) e,
          add-mul (q - 1 - d + 1) d m,
          add-mul (q - 1 - d) 1 m,
          mul_comm m d,
        )

-- A coordinate that is complemented comes back from the high bits of its complement.
unflip :
    (n f x p : ℕ)
    → n ≤ 31
    → f ≤ 1
    → x < 2 ^ 32
    → p < 2 ^ 32
    → high n x ≡ flip f p % 2 ^ n
    → high n (flip f x) ≡ p % 2 ^ n
unflip n zero x p h hf hx hp e = rw (bit_xor-zero x) (rw (bit_xor-zero p) at e)
unflip n (suc zero) x p h hf hx hp e =
    let whole : 2 ^ 32 ≡ 2 ^ n * 2 ^ (32 - n) =
      pow2-split n 32 (omega arith) ∙ mul_comm (2 ^ (32 - n)) (2 ^ n) in
    let r = mod-lt p (pow2_pos n) in
    ap (λ (y : ℕ). y / 2 ^ (32 - n)) (bit_xor-ones 32 x hx)
    ∙ ap (λ (y : ℕ). (y - 1 - x) / 2 ^ (32 - n)) whole
    ∙ div-complement (2 ^ (32 - n)) (2 ^ n) x (pow2_pos (32 - n)) (omega arith)
    ∙ omega (arith, low-flip n p h hp)
unflip n (suc (suc f)) x p h hf hx hp e = absurd (omega arith)

-- What a level of the decoder achieves: the coordinates, and their highest bits.
abbrev pub Restored : ℕ → ℕ → ℕ → ℕ × ℕ → Type 0
Restored n px py (x, y) =
    (x < 2 ^ 32) × (y < 2 ^ 32) × (high n x ≡ px % 2 ^ n) × (high n y ≡ py % 2 ^ n)

restored :
    (n xi yi px py x y : ℕ)
    → n ≤ 31
    → xi ≤ 1
    → yi ≤ 1
    → x < 2 ^ 32
    → y < 2 ^ 32
    → high n x ≡ px % 2 ^ n
    → high n y ≡ py % 2 ^ n
    → let x' = bit_or (x / 2) (u32 (xi * 2 ^ 31)) in
      let y' = bit_or (y / 2) (u32 (yi * 2 ^ 31)) in
      (x' < 2 ^ 32)
      × (y' < 2 ^ 32)
      × (high (suc n) x' ≡ xi * 2 ^ n + px % 2 ^ n)
      × (high (suc n) y' ≡ yi * 2 ^ n + py % 2 ^ n)
restored n xi yi px py x y h a b hx hy e f =
    let (x_fits, x_high) = front n xi x h a hx in
    let (y_fits, y_high) = front n yi y h b hy in
    (
      x_fits,
      y_fits,
      x_high ∙ ap (λ (z : ℕ). xi * 2 ^ n + z) e,
      y_high ∙ ap (λ (z : ℕ). yi * 2 ^ n + z) f,
    )

-- The point as iHilbert2D passes it to the next level.
abbrev pub turned_x : ℕ → ℕ → ℕ → ℕ → ℕ
turned_x xi yi px py = if yi == 0 then bit_xor py (neg32 xi) else px

abbrev pub turned_y : ℕ → ℕ → ℕ → ℕ → ℕ
turned_y xi yi px py = if yi == 0 then bit_xor px (neg32 xi) else py

pub turned-lt :
    (xi yi px py : ℕ)
    → xi ≤ 1
    → px < 2 ^ 32
    → py < 2 ^ 32
    → (turned_x xi yi px py < 2 ^ 32) × (turned_y xi yi px py < 2 ^ 32)
turned-lt xi zero px py a hx hy = (flip-lt xi py a hy, flip-lt xi px a hx)
turned-lt xi (suc yi) px py a hx hy =
    let kept : (suc yi == 0) ≡ false = ground arith in rw kept (hx, hy)

pub prepend_step :
    (n xi yi px py : ℕ) (p : ℕ × ℕ)
    → n ≤ 31
    → xi ≤ 1
    → yi ≤ 1
    → px < 2 ^ 32
    → py < 2 ^ 32
    → Restored n (turned_x xi yi px py) (turned_y xi yi px py) p
    → let q = prepend xi (bit_xor xi yi) (p.0) (p.1) in
      (q.0 < 2 ^ 32)
      × (q.1 < 2 ^ 32)
      × (high (suc n) (q.0) ≡ xi * 2 ^ n + px % 2 ^ n)
      × (high (suc n) (q.1) ≡ yi * 2 ^ n + py % 2 ^ n)
unfolding prepend
prepend_step n zero zero px py (x, y) h a b hx hy (fx, fy, e, f) =
    restored n 0 0 px py (flip 0 y) (flip 0 x) h a b (flip-lt 0 y a fy) (flip-lt 0 x a fx)
      (unflip n 0 y px h a fy hx f) (unflip n 0 x py h a fx hy e)
prepend_step n (suc zero) zero px py (x, y) h a b hx hy (fx, fy, e, f) =
    restored n 1 0 px py (flip 1 y) (flip 1 x) h a b (flip-lt 1 y a fy) (flip-lt 1 x a fx)
      (unflip n 1 y px h a fy hx f) (unflip n 1 x py h a fx hy e)
prepend_step n zero (suc zero) px py (x, y) h a b hx hy (fx, fy, e, f) =
    restored n 0 1 px py x y h a b fx fy e f
prepend_step n (suc zero) (suc zero) px py (x, y) h a b hx hy (fx, fy, e, f) =
    restored n 1 1 px py x y h a b fx fy e f
prepend_step n (suc (suc xi)) yi px py p h a b hx hy r = absurd (omega arith)
prepend_step n zero (suc (suc yi)) px py p h a b hx hy r = absurd (omega arith)
prepend_step n (suc zero) (suc (suc yi)) px py p h a b hx hy r = absurd (omega arith)
