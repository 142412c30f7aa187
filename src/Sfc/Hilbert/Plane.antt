-- ===== src/Sfc/Hilbert/Plane.antt =====
-- decodeHilbert2D undoes iHilbert2D (sfc/hilbert.hpp).
use native.Mathlib.Nat.{mod-eq_of_lt, div-div-eq-div-mul}
use native.Mathlib.Numerals.{add-one}
use sphexa.Base.{
  ℕ, zero, suc, ◌+◌, ◌-◌, ◌*◌, ◌/◌, ◌%◌, ◌^◌, ◌≤◌, ◌<◌, ◌≡◌, refl, ap, sym, ◌∙◌, arith, bit_and,
  bit_xor,
}
use sphexa.Base.Pow.{pow2_pos, pow2-le, pow2-suc, pow2-triple}
use sphexa.Base.Bits.{bit_and-low}
use sphexa.Key.{KeyType, max_tree_level, key_bits, wrap, u32, key_space_lt, level_bounds}
use sphexa.Sfc.Hilbert.{
  bit_at, hilbert2_loop, i_hilbert2, prepend, decode_hilbert2_loop, decode_hilbert2,
}
use sphexa.Sfc.Hilbert.RoundTrip.{bit_at-le, bit_at-low}
use sphexa.Sfc.Hilbert.Prepend.{Restored, turned_x, turned_y, turned-lt, prepend_step}

-- The two bits that a level appends.
abbrev digit : ℕ → ℕ → ℕ → ℕ
digit level px py = 2 * bit_at px level + bit_xor (bit_at px level) (bit_at py level)

bit_xor-le : (a b : ℕ) → a ≤ 1 → b ≤ 1 → bit_xor a b ≤ 1
bit_xor-le zero zero h g = omega arith
bit_xor-le zero (suc zero) h g = omega arith
bit_xor-le (suc zero) zero h g = omega arith
bit_xor-le (suc zero) (suc zero) h g = omega arith
bit_xor-le (suc (suc a)) b h g = absurd (omega arith)
bit_xor-le zero (suc (suc b)) h g = absurd (omega arith)
bit_xor-le (suc zero) (suc (suc b)) h g = absurd (omega arith)

digit-lt : (level px py : ℕ) → digit level px py < 4
digit-lt level px py = omega (
  arith,
  bit_at-le px level,
  bit_xor-le (bit_at px level) (bit_at py level) (bit_at-le px level) (bit_at-le py level),
)

-- Two bits more.
pow4-suc : (k : ℕ) → 2 ^ (2 * suc k) ≡ 4 * 2 ^ (2 * k)
pow4-suc k =
    let e : 2 * suc k ≡ suc (suc (2 * k)) = omega arith in
    ap (λ (x : ℕ). 2 ^ x) e ∙ omega (arith, pow2-suc (suc (2 * k)), pow2-suc (2 * k))

appended-lt :
    (t : KeyType) (level px py key : ℕ)
    → level < max_tree_level t
    → key < 2 ^ (2 * (max_tree_level t - suc level))
    → key * 4 + digit level px py < 2 ^ (2 * (max_tree_level t - level))
appended-lt t level px py key a b =
    let m = max_tree_level t - suc level in
    let e : max_tree_level t - level ≡ suc m = omega arith in
    rw e (omega (arith, pow4-suc m, digit-lt level px py))

room : (t : KeyType) (k : ℕ) → k ≤ max_tree_level t → 2 ^ (2 * k) < 2 ^ key_bits t
room t k h =
    let n = max_tree_level t in
    omega (arith, key_space_lt t, pow2-triple n, pow2-le (2 * k) (3 * n) (omega arith))

-- A level appends its bits without wrap-around.
hilbert2_loop-suc :
    (t : KeyType) (level px py key : ℕ)
    → level < max_tree_level t
    → key < 2 ^ (2 * (max_tree_level t - suc level))
    → hilbert2_loop t (suc level) px py key
      ≡ hilbert2_loop t level
          (turned_x (bit_at px level) (bit_at py level) px py)
          (turned_y (bit_at px level) (bit_at py level) px py)
          (key * 4 + digit level px py)
unfolding hilbert2_loop
hilbert2_loop-suc t level px py key a b =
    let n = max_tree_level t in
    let fits = room t (n - level) (omega arith) in
    let whole = appended-lt t level px py key a b in
    let twice : u32 (2 * bit_at px level) ≡ 2 * bit_at px level =
      mod-eq_of_lt (omega (arith, bit_at-le px level)) in
    let shift : wrap t (4 * key) ≡ 4 * key = mod-eq_of_lt (omega arith) in
    let sum : wrap t (4 * key + 2 * bit_at px level) ≡ 4 * key + 2 * bit_at px level =
      mod-eq_of_lt (omega arith) in
    let next : wrap t (4 * key + 2 * bit_at px level + bit_xor (bit_at px level) (bit_at py level))
        ≡ key * 4 + digit level px py =
      mod-eq_of_lt (omega arith) ∙ omega arith in
    rw (twice, shift, sum, next) refl

-- The key so far stays in front.
hilbert2_loop-front :
    (t : KeyType) (n px py key : ℕ)
    → n ≤ max_tree_level t
    → key < 2 ^ (2 * (max_tree_level t - n))
    → hilbert2_loop t n px py key / 2 ^ (2 * n) ≡ key
hilbert2_loop-front t zero px py key a b = unfold hilbert2_loop in omega arith
hilbert2_loop-front t (suc n) px py key a b =
    let next = key * 4 + digit n px py in
    let ih : hilbert2_loop t n (turned_x (bit_at px n) (bit_at py n) px py)
            (turned_y (bit_at px n) (bit_at py n) px py) next
          / 2 ^ (2 * n)
        ≡ next =
      hilbert2_loop-front t n (turned_x (bit_at px n) (bit_at py n) px py)
        (turned_y (bit_at px n) (bit_at py n) px py) next (omega arith)
        (appended-lt t n px py key (omega arith) b) in
    let e : 2 ^ (2 * suc n) ≡ 2 ^ (2 * n) * 4 = omega (arith, pow4-suc n) in
    rw (hilbert2_loop-suc t n px py key (omega arith) b, e)
      (sym (div-div-eq-div-mul _ (2 ^ (2 * n)) 4)
        ∙ ap (λ (x : ℕ). x / 4) ih
        ∙ omega (arith, digit-lt n px py))

-- The last round of the loop.
decode2-last :
    (key left level : ℕ) (p : ℕ × ℕ)
    → let q = decode_hilbert2_loop key left level p in
      decode_hilbert2_loop key (suc left) level p
      ≡ prepend
          (bit_and (key / 2 ^ (level + 2 * left + 1)) 1)
          (bit_and (key / 2 ^ (level + 2 * left)) 1)
          (q.0)
          (q.1)
unfolding decode_hilbert2_loop
decode2-last key zero level p = let e : level + 2 * 0 ≡ level = omega arith in rw e refl
decode2-last key (suc left) level (x, y) =
    let e : level + 2 + 2 * left ≡ level + 2 * suc left = omega arith in
    rw e at (
      decode2-last key left (level + 2)
        (prepend (bit_and (key / 2 ^ (level + 1)) 1) (bit_and (key / 2 ^ level) 1) x y))

-- The two bits of a level, read from the key.
read_bits :
    (key next k xi c : ℕ)
    → key / 2 ^ k ≡ next * 4 + (2 * xi + c)
    → xi ≤ 1
    → c ≤ 1
    → (bit_and (key / 2 ^ (k + 1)) 1 ≡ xi) × (bit_and (key / 2 ^ k) 1 ≡ c)
read_bits key next k xi c e h g =
    let up : 2 ^ (k + 1) ≡ 2 ^ k * 2 = rw (add-one k) (omega (arith, pow2-suc k)) in
    let half : key / 2 ^ (k + 1) ≡ 2 * next + xi =
      rw up (sym (div-div-eq-div-mul key (2 ^ k) 2) ∙ ap (λ (x : ℕ). x / 2) e ∙ omega arith) in
    (
      bit_and-low 1 (key / 2 ^ (k + 1)) ∙ ap (λ (x : ℕ). x % 2) half ∙ omega arith,
      bit_and-low 1 (key / 2 ^ k) ∙ ap (λ (x : ℕ). x % 2) e ∙ omega arith,
    )

-- Decoding the bits of the lowest n levels gives the lowest n bits of the point.
decode2-Restored :
    (t : KeyType) (n px py key : ℕ)
    → n ≤ max_tree_level t
    → key < 2 ^ (2 * (max_tree_level t - n))
    → px < 2 ^ 32
    → py < 2 ^ 32
    → Restored n px py (decode_hilbert2_loop (hilbert2_loop t n px py key) n 0 (0, 0))
decode2-Restored t zero px py key a b hx hy =
    unfold decode_hilbert2_loop in (omega arith, omega arith, omega arith, omega arith)
decode2-Restored t (suc n) px py key a b hx hy =
    let xi = bit_at px n in
    let yi = bit_at py n in
    let next = key * 4 + digit n px py in
    let whole = appended-lt t n px py key (omega arith) b in
    let (fits_x, fits_y) = turned-lt xi yi px py (bit_at-le px n) hx hy in
    let code = hilbert2_loop t n (turned_x xi yi px py) (turned_y xi yi px py) next in
    let front : code / 2 ^ (2 * n) ≡ next =
      hilbert2_loop-front t n (turned_x xi yi px py) (turned_y xi yi px py) next (omega arith)
        whole in
    let ih =
      decode2-Restored t n (turned_x xi yi px py) (turned_y xi yi px py) next (omega arith) whole
        fits_x fits_y in
    let (sa, sb) =
      read_bits code key (2 * n) xi (bit_xor xi yi) front (bit_at-le px n)
        (bit_xor-le xi yi (bit_at-le px n) (bit_at-le py n)) in
    let from : 0 + 2 * n ≡ 2 * n = omega arith in
    let (low_x, low_y, e, f) =
      prepend_step n xi yi px py (decode_hilbert2_loop code n 0 (0, 0))
        (omega (arith, (level_bounds t).0)) (bit_at-le px n) (bit_at-le py n) hx hy ih in
    rw (hilbert2_loop-suc t n px py key (omega arith) b, decode2-last code n 0 (0, 0), from, sa, sb)
      (low_x, low_y, e ∙ bit_at-low px n, f ∙ bit_at-low py n)

-- decode_hilbert2 returns the two coordinates that i_hilbert2 was given, as long as they have as
-- many bits as a key has levels.
pub decode_hilbert2-i_hilbert2 :
    (t : KeyType) (px py : ℕ)
    → px < 2 ^ max_tree_level t
    → py < 2 ^ max_tree_level t
    → decode_hilbert2 t (i_hilbert2 t px py) ≡ (px, py)
unfolding decode_hilbert2 i_hilbert2
decode_hilbert2-i_hilbert2 t px py hx hy =
    let n = max_tree_level t in
    let wide : 2 ^ n ≤ 2 ^ 32 = pow2-le n 32 (omega (arith, (level_bounds t).0)) in
    let (fits_x, fits_y, e, f) =
      decode2-Restored t n px py 0 (omega arith) (omega (arith, pow2_pos (2 * (n - n))))
        (omega arith) (omega arith) in
    λ i. ((e ∙ mod-eq_of_lt hx) i, (f ∙ mod-eq_of_lt hy) i)
