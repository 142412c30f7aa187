-- ===== src/Sfc/Span/Places.antt =====
-- The octal places between which spanSfcRange goes (sfc/common.hpp): the last digit of a key that is
-- not 0, and the first digit in which two keys differ.
use native.Mathlib.Decide.{dec_lt, ℕ_discrete}
use native.Mathlib.Nat.{mul_assoc, div-lt_iff_lt-mul, le-div_iff_mul-le, div-mul-le_self}
use mathlib.Core.Path.{ap₂}
use sphexa.Base.{
  ℕ, suc, ◌+◌, ◌-◌, ◌*◌, ◌/◌, ◌%◌, ◌^◌, ◌≤◌, ◌<◌, ◌≡◌, ◌≢◌, refl, ap, sym, ◌∙◌, arith, inl, inr,
  bit_xor, ◌==◌, false, mul-le-mul,
}
use sphexa.Base.Pow.{
  pow2_pos, pow8_pos, pow2-le, pow2-suc, pow2-add, pow2-triple, pow8-split, le_of_pow2-le,
}
use sphexa.Base.Bits.{bit_xor-div, eq_of_bit_xor, bit_xor_self}
use sphexa.Key.{KeyType, max_tree_level, unused_bits, key_bits_parts, unused_pos}
use sphexa.Clz.{
  count_leading_zeros, count_trailing_zeros, count_leading_zeros-pow, first_digit,
  count_trailing_zeros-divides,
}
use sphexa.Sfc.Prefix.{last_nz_place}

abbrev pub IsMultiple : ℕ → ℕ → Type 0
IsMultiple k a = (q : ℕ) × (a ≡ q * 8 ^ k)

pub IsMultiple-le : (j k a : ℕ) → j ≤ k → IsMultiple k a → IsMultiple j a
IsMultiple-le j k a h (q, e) = (
  q * 8 ^ (k - j),
  e ∙ ap (λ (x : ℕ). q * x) (pow8-split j k h) ∙ sym (mul_assoc q (8 ^ (k - j)) (8 ^ j)),
)

-- A key within the key space is a multiple of the node size at its last place.
pub last_nz_place-IsMultiple :
    (t : KeyType) (x : ℕ)
    → x ≤ 8 ^ max_tree_level t
    → (last_nz_place t x ≤ max_tree_level t) × IsMultiple (max_tree_level t - last_nz_place t x) x
unfolding last_nz_place
last_nz_place-IsMultiple t x h = elim (ℕ_discrete x 0) [
  | yes z ↦ rw z (omega arith, (0, omega arith))
  | no nz ↦
      let m = max_tree_level t in
      let z = count_trailing_zeros t x in
      let (q, e) = count_trailing_zeros-divides t x in
      let there : (x == 0) ≡ false = ground arith in
      let some : 0 < q = elim (ℕ_discrete q 0) [
        | yes none ↦ absurd (nz (e ∙ ap (λ (y : ℕ). y * 2 ^ z) none ∙ omega arith))
        | no more ↦ omega arith
      ] in
      let within : z ≤ 3 * m =
        le_of_pow2-le z (3 * m) (omega (arith, mul-le-mul 1 q (2 ^ z) some, pow2-triple m)) in
      let back : m - (m - z / 3) ≡ z / 3 = omega arith in
      let parts : 2 ^ z ≡ 2 ^ (z % 3) * 8 ^ (z / 3) =
        ap (λ (y : ℕ). 2 ^ y) (omega arith)
        ∙ pow2-add (z % 3) (3 * (z / 3))
        ∙ ap (λ (y : ℕ). 2 ^ (z % 3) * y) (pow2-triple (z / 3)) in
      rw there (
        omega arith,
        rw back (q * 2 ^ (z % 3), e ∙ ap (λ (y : ℕ). q * y) parts ∙ sym (mul_assoc q _ _)),
      )
]

div_pow8 : (a k : ℕ) → a / 2 ^ (3 * k) ≡ a / 8 ^ k
div_pow8 a k = ap (λ (y : ℕ). a / y) (pow2-triple k)

bit_xor-lt : (k a b : ℕ) → a < 2 ^ k → b < 2 ^ k → bit_xor a b < 2 ^ k
bit_xor-lt k a b h g =
    let none : (x : ℕ) → x < 2 ^ k → x / 2 ^ k ≡ 0 =
      λ x p. omega (arith, (div-lt_iff_lt-mul {x = x} {y = 1} (pow2_pos k)).1 (omega arith)) in
    let z : bit_xor a b / 2 ^ k ≡ 0 = bit_xor-div k a b ∙ rw (none a h, none b g) refl in
    omega (arith, (div-lt_iff_lt-mul {x = bit_xor a b} {y = 1} (pow2_pos k)).0 (omega arith))

pub div-le_mono : (a b m : ℕ) → 0 < m → a ≤ b → a / m ≤ b / m
div-le_mono a b m p h = (le-div_iff_mul-le p).1 (omega (arith, div-mul-le_self a m))

-- The octal digits of two keys from the place of their first differing bit.
places :
    (a b i : ℕ)
    → a < b
    → 2 ^ i ≤ bit_xor a b
    → bit_xor a b < 2 ^ suc i
    → (a / 8 ^ suc (i / 3) ≡ b / 8 ^ suc (i / 3)) × (a / 8 ^ (i / 3) < b / 8 ^ (i / 3))
places a b i h lo hi =
    let k = i / 3 in
    let x = bit_xor a b in
    let above : x < 2 ^ (3 * suc k) = omega (arith, pow2-le (suc i) (3 * suc k) (omega arith)) in
    let at_k : 2 ^ (3 * k) ≤ x = omega (arith, pow2-le (3 * k) i (omega arith)) in
    let none : x / 2 ^ (3 * suc k) ≡ 0 =
      omega (arith, (div-lt_iff_lt-mul {x = x} {y = 1} (pow2_pos (3 * suc k))).1 (omega arith)) in
    let agree : a / 2 ^ (3 * suc k) ≡ b / 2 ^ (3 * suc k) =
      eq_of_bit_xor _ _ (sym (bit_xor-div (3 * suc k) a b) ∙ none) in
    let differs : a / 8 ^ k ≢ b / 8 ^ k = λ e.
      let same = ap₂ bit_xor (div_pow8 a k ∙ e) (div_pow8 b k) in
      let z = bit_xor-div (3 * k) a b ∙ same ∙ bit_xor_self (b / 8 ^ k) in
      absurd
        (omega (arith, (div-lt_iff_lt-mul {x = x} {y = 1} (pow2_pos (3 * k))).0 (omega arith))) in
    let up : a / 8 ^ k ≤ b / 8 ^ k = div-le_mono a b (8 ^ k) (pow8_pos k) (omega arith) in
    (
      sym (div_pow8 a (suc k)) ∙ agree ∙ div_pow8 b (suc k),
      elim (dec_lt (a / 8 ^ k) (b / 8 ^ k)) [
        | yes less ↦ less
        | no not_less ↦ absurd (differs (omega arith))
      ],
    )

-- The first place in which two keys differ: above it they agree, and at it the first is less.
pub first_place :
    (t : KeyType) (a b : ℕ)
    → a < b
    → b ≤ 8 ^ max_tree_level t
    → let place = (count_leading_zeros t (bit_xor a b) + 3 - unused_bits t) / 3 in
      let k = max_tree_level t - place in
      (place ≤ max_tree_level t) × (a / 8 ^ suc k ≡ b / 8 ^ suc k) × (a / 8 ^ k < b / 8 ^ k)
first_place t a b h top =
    let m = max_tree_level t in
    let x = bit_xor a b in
    let wide : 8 ^ m < 2 ^ suc (3 * m) =
      omega (arith, pow2-triple m, pow2-suc (3 * m), pow8_pos m) in
    let small : x < 2 ^ suc (3 * m) = bit_xor-lt (suc (3 * m)) a b (omega arith) (omega arith) in
    elim (first_digit (suc (3 * m)) x small) [
      | inl z ↦ absurd (omega (arith, eq_of_bit_xor a b z))
      | inr (i, within, lo, hi) ↦
          let zeros =
            count_leading_zeros-pow t i x (omega (arith, key_bits_parts t, unused_pos t)) lo hi in
          let place : (count_leading_zeros t x + 3 - unused_bits t) / 3 ≡ m - i / 3 =
            omega (arith, zeros, key_bits_parts t, unused_pos t) in
          let back : m - (m - i / 3) ≡ i / 3 = omega arith in
          let (agree, less) = places a b i h lo hi in rw (place, back) (omega arith, agree, less)
    ]
