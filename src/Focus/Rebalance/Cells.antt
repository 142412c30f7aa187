-- ===== src/Focus/Rebalance/Cells.antt =====
-- Cells by their prefixes, ranges that are apart, and the exponents of a split
-- (focus/rebalance.hpp).
use native.Mathlib.Decide.{dec_lt}
use native.Mathlib.Nat.{mul-mod_left, add-mul}
use sphexa.Base.{
  ℕ, zero, suc, ◌+◌, ◌-◌, ◌*◌, ◌^◌, ◌≤◌, ◌<◌, ◌≡◌, ◌↔◌, ◌⊎◌, inl, inr, ap, ◌∙◌, arith, false,
  Bool-cases, ◌&&◌, ltb, ◌==◌, if◌then◌else◌, mul-le-mul,
}
use sphexa.Base.Pow.{pow8_pos, pow2-triple, pow8-split}
use sphexa.Key.{KeyType, max_tree_level}
use sphexa.Sfc.Prefix.{encode_placeholder_bit, decode_prefix_length, decode_placeholder_bit}
use sphexa.Sfc.Prefix.RoundTrip.{decode-encode}
use sphexa.Focus.Rebalance.{overlap_two_ranges, split_leaf}

-- Where the cell number `q` of a level starts, and its prefix.
abbrev pub cell_start : KeyType → ℕ → ℕ → ℕ
cell_start t level q = q * 8 ^ (max_tree_level t - level)

abbrev pub cell_prefix : KeyType → ℕ → ℕ → ℕ
cell_prefix t level q = encode_placeholder_bit t (cell_start t level q) (3 * level)

pub cell_start-lt :
    (t : KeyType) (level q : ℕ)
    → level ≤ max_tree_level t
    → q < 8 ^ level
    → cell_start t level q + 8 ^ (max_tree_level t - level) ≤ 8 ^ max_tree_level t
cell_start-lt t level q h b =
    let m = max_tree_level t in
    let r = 8 ^ (m - level) in
    let back : m - (m - level) ≡ level = omega arith in
    omega (
      arith,
      rw back at (pow8-split (m - level) m (omega arith)),
      mul-le-mul (q + 1) (8 ^ level) r (omega arith),
      add-mul q 1 r,
    )

pub decode-cell :
    (t : KeyType) (level q : ℕ)
    → level ≤ max_tree_level t
    → q < 8 ^ level
    → (decode_prefix_length t (cell_prefix t level q) ≡ 3 * level)
      × (decode_placeholder_bit t (cell_prefix t level q) ≡ cell_start t level q)
decode-cell t level q h b =
    let m = max_tree_level t in
    let (length, start) =
      decode-encode t (cell_start t level q) (3 * level)
        (omega (arith, cell_start-lt t level q h b, pow8_pos (m - level))) (omega arith) in
    let unit : 2 ^ (3 * m - 3 * level) ≡ 8 ^ (m - level) =
      ap (λ (x : ℕ). 2 ^ x) (omega arith) ∙ pow2-triple (m - level) in
    (length, start ∙ rw (unit, mul-mod_left q (8 ^ (m - level))) (omega arith))

-- The exponents of a split.
pub split_leaf_iff :
    (t : KeyType) (level count bucket_size e : ℕ)
    → 4096 * bucket_size < 2 ^ 32
    → 0 < e
    → e ≤ 4
    → (8 ^ e ≤ split_leaf t level count bucket_size) ↔ (
        (level + e ≤ max_tree_level t)
        × ((if e == 1 then bucket_size else 8 ^ e * bucket_size) < count))
unfolding split_leaf
split_leaf_iff t level count bucket_size zero small a b = absurd (omega arith)
split_leaf_iff t level count bucket_size (suc zero) small a b = ground arith
split_leaf_iff t level count bucket_size (suc (suc zero)) small a b = ground arith
split_leaf_iff t level count bucket_size (suc (suc (suc zero))) small a b = ground arith
split_leaf_iff t level count bucket_size (suc (suc (suc (suc zero)))) small a b = ground arith
split_leaf_iff t level count bucket_size (suc (suc (suc (suc (suc e))))) small a b =
    absurd (omega arith)

split_leaf-cases :
    (t : KeyType) (level count bucket_size : ℕ)
    → let op = split_leaf t level count bucket_size in
      (op ≡ 4096) ⊎ (op ≡ 512) ⊎ (op ≡ 64) ⊎ (op ≡ 8) ⊎ (op ≡ 1)
unfolding split_leaf
split_leaf-cases t level count bucket_size = ground arith

pub split_leaf-pow8 :
    (t : KeyType) (level count bucket_size : ℕ)
    → (e : ℕ) × (e ≤ 4) × (split_leaf t level count bucket_size ≡ 8 ^ e)
split_leaf-pow8 t level count bucket_size = elim (split_leaf-cases t level count bucket_size) [
  | inl e ↦ (4, omega arith, e)
  | inr (inl e) ↦ (3, omega arith, e)
  | inr (inr (inl e)) ↦ (2, omega arith, e)
  | inr (inr (inr (inl e))) ↦ (1, omega arith, e)
  | inr (inr (inr (inr e))) ↦ (0, omega arith, e)
]

-- Two ranges, the second not empty, that share no number.
abbrev pub Apart : ℕ → ℕ → ℕ → ℕ → Type 0
Apart a b c d = (z : ℕ) → a ≤ z → z < b → (z < c) ⊎ (d ≤ z)

pub overlap_two_ranges-Apart :
    (a b c d : ℕ) → a < b → c < d → (overlap_two_ranges a b c d ≡ false) ↔ Apart a b c d
unfolding overlap_two_ranges
overlap_two_ranges-Apart a b c d h g = (
  λ e z lo hi. elim (dec_lt z c) [ yes before ↦ inl before | no behind ↦ inr (ground arith) ],
  λ apart. elim (Bool-cases (ltb c b && ltb a d)) [
    | inr e ↦ e
    | inl e ↦ elim (dec_lt a c) [
      | yes later ↦ absurd (omega (arith, apart c (ground arith) (ground arith)))
      | no earlier ↦ absurd (ground (arith, apart a (omega arith) h))
    ]
  ],
)
