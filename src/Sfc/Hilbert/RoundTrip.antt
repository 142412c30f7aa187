-- ===== src/Sfc/Hilbert/RoundTrip.antt =====
-- decodeHilbert undoes iHilbert (sfc/hilbert.hpp).
use native.Mathlib.Nat.{
  mod-eq_of_lt, mod-lt, div-add-mod, div-div-eq-div-mul, mul_comm, mul_assoc, add-mul,
  mul-add-mod_self_right,
}
use sphexa.Base.{
  ℕ, zero, suc, ◌+◌, ◌-◌, ◌*◌, ◌/◌, ◌%◌, ◌^◌, ◌≤◌, ◌<◌, ◌≡◌, refl, ap, sym, ◌∙◌, arith, get_or,
  bit_and, bit_or, mul-le-mul,
}
use sphexa.Base.Pow.{pow2_pos, pow2-le, pow2-suc, pow2-triple, pow8_pos, pow8-suc, pow8-le}
use sphexa.Base.Bits.{bit_and-low}
use sphexa.Key.{KeyType, max_tree_level, key_bits, wrap, key_space_lt, level_bounds}
use sphexa.Sfc.Hilbert.{
  Point, hilbert_loop, i_hilbert, morton_to_hilbert, bit_at, turn, decode_octant,
  decode_hilbert_loop, decode_hilbert,
}
use sphexa.Sfc.Hilbert.Range.{octant_digit}
use sphexa.Sfc.Hilbert.Octant.{Fits, low, octant_step}

-- The last round of the loop.
decode-last :
    (key left level : ℕ) (p : Point)
    → decode_hilbert_loop key (suc left) level p
      ≡ decode_octant
          (bit_and (key / 2 ^ (3 * (level + left))) 7)
          (level + left)
          (decode_hilbert_loop key left level p)
unfolding decode_hilbert_loop
decode-last key zero level p = let e : level + 0 ≡ level = omega arith in rw e refl
decode-last key (suc left) level p =
    let e : level + 1 + left ≡ level + suc left = omega arith in
    rw e at
      (decode-last key left (level + 1) (decode_octant (bit_and (key / 2 ^ (3 * level)) 7) level p))

pub bit_at-le : (x level : ℕ) → bit_at x level ≤ 1
bit_at-le x level = omega (arith, bit_and-low 1 (x / 2 ^ level))

-- One bit more of a coordinate.
pub bit_at-low : (x n : ℕ) → bit_at x n * 2 ^ n + x % 2 ^ n ≡ x % 2 ^ suc n
bit_at-low x n =
    let m = 2 ^ n in
    let bit : bit_at x n ≡ x / m % 2 = bit_and-low 1 (x / m) in
    let parts = div-add-mod x m in
    let twice = div-add-mod (x / m) 2 in
    let r = mod-lt x (pow2_pos n) in
    let c = x / m % 2 * m + x % m in
    let whole : x ≡ x / m / 2 * (2 * m) + c = omega (
      arith,
      ap (λ (y : ℕ). y * m) twice,
      add-mul (2 * (x / m / 2)) (x / m % 2) m,
      mul_comm m (x / m),
      mul_assoc 2 (x / m / 2) m,
      mul_assoc (x / m / 2) 2 m,
      mul_comm 2 (x / m / 2),
    ) in
    let small : c < 2 * m = omega (arith, mul-le-mul (x / m % 2) 1 m (omega arith)) in
    let reduced : x % (2 * m) ≡ c =
      ap (λ (y : ℕ). y % (2 * m)) whole
      ∙ mul-add-mod_self_right (x / m / 2) (2 * m) c
      ∙ mod-eq_of_lt small in
    rw (bit, pow2-suc n) (sym reduced)

abbrev digit : ℕ → Point → ℕ
digit level (px, py, pz) =
    get_or morton_to_hilbert
      (bit_or (bit_or (bit_at px level * 4) (bit_at py level * 2)) (bit_at pz level)) 0

-- A round appends a digit without wrap-around.
hilbert_loop-suc :
    (t : KeyType) (level : ℕ) (px py pz key : ℕ)
    → level < max_tree_level t
    → key < 8 ^ (max_tree_level t - suc level)
    → hilbert_loop t (suc level) (px, py, pz) key
      ≡ hilbert_loop t level
          (turn (bit_at px level) (bit_at py level) (bit_at pz level) (px, py, pz))
          (key * 8 + digit level (px, py, pz))
unfolding hilbert_loop
hilbert_loop-suc t level px py pz key a b =
    let m = max_tree_level t - suc level in
    let d =
      octant_digit
        (bit_or (bit_or (bit_at px level * 4) (bit_at py level * 2)) (bit_at pz level)) in
    let room : 8 ^ suc m < 2 ^ key_bits t =
      omega (arith, key_space_lt t, pow8-le (suc m) (max_tree_level t) (omega arith)) in
    let size = pow8-suc m in
    let shift : wrap t (key * 8) ≡ key * 8 = mod-eq_of_lt (omega arith) in
    let next : wrap t (key * 8 + digit level (px, py, pz)) ≡ key * 8 + digit level (px, py, pz) =
      mod-eq_of_lt (omega arith) in
    rw (shift, next) refl

appended-lt :
    (t : KeyType) (level : ℕ) (p : Point) (key : ℕ)
    → level < max_tree_level t
    → key < 8 ^ (max_tree_level t - suc level)
    → key * 8 + digit level p < 8 ^ (max_tree_level t - level)
appended-lt t level (px, py, pz) key a b =
    let e : max_tree_level t - level ≡ suc (max_tree_level t - suc level) = omega arith in
    omega (
      arith,
      ap (λ (x : ℕ). 8 ^ x) e,
      pow8-suc (max_tree_level t - suc level),
      octant_digit (bit_or (bit_or (bit_at px level * 4) (bit_at py level * 2)) (bit_at pz level)),
    )

-- The key so far stays in front.
hilbert_loop-front :
    (t : KeyType) (n : ℕ) (p : Point) (key : ℕ)
    → n ≤ max_tree_level t
    → key < 8 ^ (max_tree_level t - n)
    → hilbert_loop t n p key / 8 ^ n ≡ key
hilbert_loop-front t zero p key a b = unfold hilbert_loop in omega arith
hilbert_loop-front t (suc n) (px, py, pz) key a b =
    let next = key * 8 + digit n (px, py, pz) in
    let ih =
      hilbert_loop-front t n (turn (bit_at px n) (bit_at py n) (bit_at pz n) (px, py, pz)) next
        (omega arith) (appended-lt t n (px, py, pz) key a b) in
    let d = octant_digit (bit_or (bit_or (bit_at px n * 4) (bit_at py n * 2)) (bit_at pz n)) in
    let e : 8 ^ suc n ≡ 8 ^ n * 8 = omega (arith, pow8-suc n) in
    rw (hilbert_loop-suc t n px py pz key a b, e)
      (sym (div-div-eq-div-mul _ (8 ^ n) 8) ∙ ap (λ (x : ℕ). x / 8) ih ∙ omega arith)

-- Decoding the digits of the lowest n levels gives the lowest n bits of the point.
decode-low :
    (t : KeyType) (n : ℕ) (px py pz key : ℕ)
    → n ≤ max_tree_level t
    → key < 8 ^ (max_tree_level t - n)
    → Fits (px, py, pz)
    → decode_hilbert_loop (hilbert_loop t n (px, py, pz) key) n 0 (0, 0, 0) ≡ low n (px, py, pz)
decode-low t zero px py pz key a b f =
    unfold decode_hilbert_loop in λ i. (mod_one px i, mod_one py i, mod_one pz i)
  where
    mod_one : (x : ℕ) → 0 ≡ x % 2 ^ 0
    mod_one x = omega arith
decode-low t (suc n) px py pz key a b f =
    let p' = turn (bit_at px n) (bit_at py n) (bit_at pz n) (px, py, pz) in
    let next = key * 8 + digit n (px, py, pz) in
    let room = appended-lt t n (px, py, pz) key (omega arith) b in
    let (fits, back) =
      octant_step n (bit_at px n) (bit_at py n) (bit_at pz n) px py pz
        (omega (arith, (level_bounds t).0)) (bit_at-le px n) (bit_at-le py n) (bit_at-le pz n) f in
    let d = octant_digit (bit_or (bit_or (bit_at px n * 4) (bit_at py n * 2)) (bit_at pz n)) in
    let last : bit_and (hilbert_loop t n p' next / 2 ^ (3 * (0 + n))) 7 ≡ digit n (px, py, pz) =
      bit_and-low 3 (hilbert_loop t n p' next / 2 ^ (3 * (0 + n)))
      ∙ ap (λ (y : ℕ). hilbert_loop t n p' next / y % 8)
          (ap (λ (y : ℕ). 2 ^ (3 * y)) (omega arith) ∙ pow2-triple n)
      ∙ ap (λ (y : ℕ). y % 8) (hilbert_loop-front t n p' next (omega arith) room)
      ∙ omega arith in
    let ih = decode-low t n (p'.0) (p'.1) (p'.2) next (omega arith) room fits in
    let level : 0 + n ≡ n = omega arith in
    rw
      (
        hilbert_loop-suc t n px py pz key (omega arith) b,
        decode-last (hilbert_loop t n p' next) n 0 (0, 0, 0),
        last,
        level,
        ih,
      )
      (back ∙ λ i. (bit_at-low px n i, bit_at-low py n i, bit_at-low pz n i))

-- decode_hilbert returns the coordinates that i_hilbert was given, as long as they have as many
-- bits as a key has levels.
pub decode_hilbert-i_hilbert :
    (t : KeyType) (px py pz : ℕ)
    → px < 2 ^ max_tree_level t
    → py < 2 ^ max_tree_level t
    → pz < 2 ^ max_tree_level t
    → decode_hilbert t (i_hilbert t px py pz) ≡ (px, py, pz)
unfolding decode_hilbert i_hilbert
decode_hilbert-i_hilbert t px py pz hx hy hz =
    let n = max_tree_level t in
    let wide : 2 ^ n ≤ 2 ^ 32 = pow2-le n 32 (omega (arith, (level_bounds t).0)) in
    decode-low t n px py pz 0 (omega arith) (omega (arith, pow8_pos (n - n)))
      (omega arith, omega arith, omega arith)
    ∙ λ i. (mod-eq_of_lt hx i, mod-eq_of_lt hy i, mod-eq_of_lt hz i)
