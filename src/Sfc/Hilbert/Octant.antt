-- ===== src/Sfc/Hilbert/Octant.antt =====
-- One level of decodeHilbert undoes one level of iHilbert (sfc/hilbert.hpp).
use native.Mathlib.Nat.{
  mod-eq_of_lt, mod-lt, div-add-mod, div-lt_iff_lt-mul, add-mul-mod_self_right, add-mul, mul_comm,
}
use sphexa.Base.{
  ℕ, zero, suc, ◌+◌, ◌-◌, ◌*◌, ◌/◌, ◌%◌, ◌^◌, ◌≤◌, ◌<◌, ◌≡◌, ap, ◌∙◌, arith, get_or, bit_and,
  bit_or, bit_xor,
}
use sphexa.Base.Pow.{pow2_pos, pow2-le, pow2-split}
use sphexa.Base.Bits.{
  bit_xor-zero, bit_xor-ones, bit_and-zero, bit_and-low, bit_or-shift, bit_or_comm,
}
use sphexa.Key.{u32}
use sphexa.Sfc.Hilbert.{Point, morton_to_hilbert, neg32, turn, unturn, decode_octant}

-- The coordinates fit `unsigned`.
abbrev pub Fits : Point → Type 0
Fits (x, y, z) = (x < 2 ^ 32) × (y < 2 ^ 32) × (z < 2 ^ 32)

-- The lowest bits of each coordinate.
abbrev pub low : ℕ → Point → Point
low n (x, y, z) = (x % 2 ^ n, y % 2 ^ n, z % 2 ^ n)

-- x ^ -f for a bit f.
abbrev pub flip : ℕ → ℕ → ℕ
flip f x = bit_xor x (neg32 f)

pub flip-lt : (f x : ℕ) → f ≤ 1 → x < 2 ^ 32 → flip f x < 2 ^ 32
flip-lt zero x h b = rw (bit_xor-zero x) b
flip-lt (suc zero) x h b = omega (arith, bit_xor-ones 32 x b)
flip-lt (suc (suc f)) x h b = absurd (omega arith)

-- The low bits of the complement.
mod-complement : (m q x : ℕ) → 0 < m → x < q * m → (q * m - 1 - x) % m ≡ m - 1 - x % m
mod-complement m q x p h =
    let parts = div-add-mod x m in
    let less : x / m < q = (div-lt_iff_lt-mul p).1 h in
    let r = mod-lt x p in
    let split : q * m - 1 - x ≡ (m - 1 - x % m) + (q - 1 - x / m) * m =
      omega (arith, mul-sub q (x / m) m less) in
    rw split (add-mul-mod_self_right (m - 1 - x % m) (q - 1 - x / m) m ∙ mod-eq_of_lt (omega arith))
  where
    mul-sub : (q d m : ℕ) → d < q → (q - 1 - d) * m + m + m * d ≡ q * m
    mul-sub q d m h =
        let e : q ≡ (q - 1 - d) + 1 + d = omega arith in
        omega (
          arith,
          ap (λ (y : ℕ). y * m) e,
          add-mul (q - 1 - d + 1) d m,
          add-mul (q - 1 - d) 1 m,
          mul_comm m d,
        )

pub low-flip : (n x : ℕ) → n ≤ 31 → x < 2 ^ 32 → flip 1 x % 2 ^ n ≡ 2 ^ n - 1 - x % 2 ^ n
low-flip n x h b =
    let whole : 2 ^ 32 ≡ 2 ^ (32 - n) * 2 ^ n = pow2-split n 32 (omega arith) in
    ap (λ (y : ℕ). y % 2 ^ n) (bit_xor-ones 32 x b)
    ∙ ap (λ (y : ℕ). (y - 1 - x) % 2 ^ n) whole
    ∙ mod-complement (2 ^ n) (2 ^ (32 - n)) x (pow2_pos n) (omega arith)

-- What decodeHilbert does to a coordinate with a flip and a bit.
restore :
    (n f b x : ℕ)
    → n ≤ 31
    → f ≤ 1
    → b ≤ 1
    → x < 2 ^ 32
    → bit_or (bit_xor (flip f x % 2 ^ n) (bit_and (2 ^ n - 1) (neg32 f))) (u32 (b * 2 ^ n))
      ≡ b * 2 ^ n + x % 2 ^ n
restore n f b x h hf hb hx =
    rw (unflip f hf, shifted b hb)
      (bit_or_comm (x % 2 ^ n) (b * 2 ^ n) ∙ bit_or-shift n b (x % 2 ^ n) (mod-lt x (pow2_pos n)))
  where
    shifted : (b : ℕ) → b ≤ 1 → u32 (b * 2 ^ n) ≡ b * 2 ^ n
    shifted zero p = omega arith
    shifted (suc zero) p = let room : 2 ^ n ≤ 2 ^ 31 = pow2-le n 31 h in mod-eq_of_lt (omega arith)
    shifted (suc (suc b)) p = absurd (omega arith)

    unflip :
        (f : ℕ) → f ≤ 1 → bit_xor (flip f x % 2 ^ n) (bit_and (2 ^ n - 1) (neg32 f)) ≡ x % 2 ^ n
    unflip zero p = rw (bit_xor-zero x, bit_and-zero (2 ^ n - 1)) (bit_xor-zero (x % 2 ^ n))
    unflip (suc zero) p =
        let room : 2 ^ n ≤ 2 ^ 31 = pow2-le n 31 h in
        let r = mod-lt x (pow2_pos n) in
        let mask : bit_and (2 ^ n - 1) (neg32 1) ≡ 2 ^ n - 1 =
          bit_and-low 32 (2 ^ n - 1) ∙ mod-eq_of_lt (omega arith) in
        rw (low-flip n x h hx, mask)
          (bit_xor-ones n (2 ^ n - 1 - x % 2 ^ n) (omega arith) ∙ omega arith)
    unflip (suc (suc f)) p = absurd (omega arith)

-- The digit of the octant, and the turned point: its low bits give the point's back.
pub octant_step :
    (n xi yi zi px py pz : ℕ)
    → n ≤ 31
    → xi ≤ 1
    → yi ≤ 1
    → zi ≤ 1
    → Fits (px, py, pz)
    → Fits (turn xi yi zi (px, py, pz))
      × (decode_octant
            (get_or morton_to_hilbert (bit_or (bit_or (xi * 4) (yi * 2)) zi) 0)
            n
            (low n (turn xi yi zi (px, py, pz)))
          ≡ (xi * 2 ^ n + px % 2 ^ n, yi * 2 ^ n + py % 2 ^ n, zi * 2 ^ n + pz % 2 ^ n))
unfolding turn unturn decode_octant
octant_step n zero zero zero px py pz h _ _ _ (hx, hy, hz) = (
  (flip-lt 0 pz (omega arith) hz, flip-lt 0 py (omega arith) hy, flip-lt 0 px (omega arith) hx),
  λ i. (
    restore n 0 0 px h (omega arith) (omega arith) hx i,
    restore n 0 0 py h (omega arith) (omega arith) hy i,
    restore n 0 0 pz h (omega arith) (omega arith) hz i,
  ),
)
octant_step n zero zero (suc zero) px py pz h _ _ _ (hx, hy, hz) = (
  (flip-lt 0 py (omega arith) hy, flip-lt 0 pz (omega arith) hz, flip-lt 0 px (omega arith) hx),
  λ i. (
    restore n 0 0 px h (omega arith) (omega arith) hx i,
    restore n 0 0 py h (omega arith) (omega arith) hy i,
    restore n 0 1 pz h (omega arith) (omega arith) hz i,
  ),
)
octant_step n zero (suc zero) zero px py pz h _ _ _ (hx, hy, hz) = (
  (flip-lt 0 px (omega arith) hx, flip-lt 1 py (omega arith) hy, flip-lt 1 pz (omega arith) hz),
  λ i. (
    restore n 0 0 px h (omega arith) (omega arith) hx i,
    restore n 1 1 py h (omega arith) (omega arith) hy i,
    restore n 1 0 pz h (omega arith) (omega arith) hz i,
  ),
)
octant_step n zero (suc zero) (suc zero) px py pz h _ _ _ (hx, hy, hz) = (
  (flip-lt 0 py (omega arith) hy, flip-lt 0 pz (omega arith) hz, flip-lt 0 px (omega arith) hx),
  λ i. (
    restore n 0 0 px h (omega arith) (omega arith) hx i,
    restore n 0 1 py h (omega arith) (omega arith) hy i,
    restore n 0 1 pz h (omega arith) (omega arith) hz i,
  ),
)
octant_step n (suc zero) zero zero px py pz h _ _ _ (hx, hy, hz) = (
  (flip-lt 1 pz (omega arith) hz, flip-lt 0 py (omega arith) hy, flip-lt 1 px (omega arith) hx),
  λ i. (
    restore n 1 1 px h (omega arith) (omega arith) hx i,
    restore n 0 0 py h (omega arith) (omega arith) hy i,
    restore n 1 0 pz h (omega arith) (omega arith) hz i,
  ),
)
octant_step n (suc zero) zero (suc zero) px py pz h _ _ _ (hx, hy, hz) = (
  (flip-lt 1 py (omega arith) hy, flip-lt 0 pz (omega arith) hz, flip-lt 1 px (omega arith) hx),
  λ i. (
    restore n 1 1 px h (omega arith) (omega arith) hx i,
    restore n 1 0 py h (omega arith) (omega arith) hy i,
    restore n 0 1 pz h (omega arith) (omega arith) hz i,
  ),
)
octant_step n (suc zero) (suc zero) zero px py pz h _ _ _ (hx, hy, hz) = (
  (flip-lt 0 px (omega arith) hx, flip-lt 1 py (omega arith) hy, flip-lt 1 pz (omega arith) hz),
  λ i. (
    restore n 0 1 px h (omega arith) (omega arith) hx i,
    restore n 1 1 py h (omega arith) (omega arith) hy i,
    restore n 1 0 pz h (omega arith) (omega arith) hz i,
  ),
)
octant_step n (suc zero) (suc zero) (suc zero) px py pz h _ _ _ (hx, hy, hz) = (
  (flip-lt 1 py (omega arith) hy, flip-lt 0 pz (omega arith) hz, flip-lt 1 px (omega arith) hx),
  λ i. (
    restore n 1 1 px h (omega arith) (omega arith) hx i,
    restore n 1 1 py h (omega arith) (omega arith) hy i,
    restore n 0 1 pz h (omega arith) (omega arith) hz i,
  ),
)
octant_step n (suc (suc xi)) yi zi px py pz h a b c f = absurd (omega arith)
octant_step n zero (suc (suc yi)) zi px py pz h a b c f = absurd (omega arith)
octant_step n (suc zero) (suc (suc yi)) zi px py pz h a b c f = absurd (omega arith)
octant_step n zero zero (suc (suc zi)) px py pz h a b c f = absurd (omega arith)
octant_step n zero (suc zero) (suc (suc zi)) px py pz h a b c f = absurd (omega arith)
octant_step n (suc zero) zero (suc (suc zi)) px py pz h a b c f = absurd (omega arith)
octant_step n (suc zero) (suc zero) (suc (suc zi)) px py pz h a b c f = absurd (omega arith)
