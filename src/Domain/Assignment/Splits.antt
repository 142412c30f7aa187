-- ===== src/Domain/Assignment/Splits.antt =====
-- The first segments of the curve (initialDomainSplits of domain/domaindecomp.hpp).
use native.Mathlib.Decide.{dec_lt}
use native.Mathlib.Nat.{mod-eq_of_lt, mod-lt, mul-mod_left, div-add-mod, div-mul-le_self}
use sphexa.Base.{
  ℕ, zero, suc, ◌+◌, ◌-◌, ◌*◌, ◌/◌, ◌%◌, ◌^◌, ◌≤◌, ◌<◌, ◌≡◌, refl, ap, ◌∙◌, arith, List, length,
  set, replicate, length-replicate, length-set, get_or-set_self, get_or-set_ne, mul-le-mul,
  lt_of_mul-lt,
}
use sphexa.Base.Pow.{pow8_pos}
use sphexa.Key.{KeyType, max_tree_level, wrap, key_space_lt}
use sphexa.Primitives.Search.{at}
use sphexa.Primitives.Search.Partition.{Ascending, steps-Ascending}
use sphexa.Primitives.Loop.{write_loop, write_loop-at, length-write_loop}
use sphexa.Sfc.Node.{node_range}
use sphexa.Sfc.Node.Level.{node_range-pow8}
use sphexa.Sfc.Digit.{enclosing_box_code}
use sphexa.Sfc.Digit.Box.{enclosing_box_code-mod}
use sphexa.Domain.Assignment.{initial_domain_splits}

module _ (t : KeyType) (num_ranks level : ℕ) (some_rank : 0 < num_ranks) where
  abbrev delta : ℕ
  delta = node_range t 0 / num_ranks

  abbrev box : ℕ → ℕ
  box i = enclosing_box_code t (wrap t (i * delta)) level

  whole : node_range t 0 ≡ 8 ^ max_tree_level t
  whole =
      node_range-pow8 t 0
      ∙ (let e : max_tree_level t - 0 ≡ max_tree_level t = omega arith in rw e refl)

  -- The start of a segment before rounding.
  raw :
      (i : ℕ)
      → i ≤ num_ranks
      → (i * delta ≤ 8 ^ max_tree_level t) × (wrap t (i * delta) ≡ i * delta)
  raw i h =
      let a = mul-le-mul i num_ranks delta h in
      let b : num_ranks * delta ≤ node_range t 0 =
        omega (arith, div-add-mod (node_range t 0) num_ranks) in
      let w = whole in
      let c : i * delta ≤ 8 ^ max_tree_level t = omega arith in
      (c, mod-eq_of_lt (omega (arith, key_space_lt t)))

  size : ℕ
  size = 8 ^ (max_tree_level t - level)

  box-size : (i : ℕ) → i ≤ num_ranks → box i ≡ i * delta / size * size
  unfolding size
  box-size i h =
      let (a, e) = raw i h in
      rw e (enclosing_box_code-mod t (i * delta) level (omega (arith, key_space_lt t)))

  round-le : (x y : ℕ) → x ≤ y → x / size * size ≤ y / size * size
  unfolding size
  round-le x y h =
      let w = 8 ^ (max_tree_level t - level) in
      let p = pow8_pos (max_tree_level t - level) in
      let below = div-mul-le_self x w in
      let above : y < (y / w + 1) * w = omega (arith, div-add-mod y w, mod-lt y p) in
      let c : x / w < y / w + 1 = lt_of_mul-lt (x / w) (y / w + 1) w (omega arith) in
      mul-le-mul (x / w) (y / w) w (omega arith)

  splits : ℕ → ℕ
  splits = at (initial_domain_splits t num_ranks level)

  inner : List ℕ
  inner = write_loop (λ i xs. box i) (num_ranks - 1) 1 (replicate (num_ranks + 1) 0)

  length-inner : length inner ≡ num_ranks + 1
  unfolding inner
  length-inner =
      length-write_loop (λ i xs. box i) (num_ranks - 1) 1 (replicate (num_ranks + 1) 0)
      ∙ length-replicate {A = ℕ} (num_ranks + 1) 0

  splits-first : splits 0 ≡ 0
  unfolding splits initial_domain_splits inner
  splits-first =
      get_or-set_ne (set inner 0 0) num_ranks 0 (node_range t 0) 0 (omega arith)
      ∙ get_or-set_self inner 0 0 0 (omega (arith, length-inner))

  splits-last : splits num_ranks ≡ 8 ^ max_tree_level t
  unfolding splits initial_domain_splits inner
  splits-last =
      get_or-set_self (set inner 0 0) num_ranks (node_range t 0) 0
        (omega (arith, length-inner, length-set inner 0 0))
      ∙ whole

  splits-box : (i : ℕ) → 0 < i → i < num_ranks → splits i ≡ box i
  unfolding splits initial_domain_splits inner
  splits-box i a b =
      get_or-set_ne (set inner 0 0) num_ranks i (node_range t 0) 0 (omega arith)
      ∙ get_or-set_ne inner 0 i 0 0 (omega arith)
      ∙ write_loop-at (λ k xs. box k) box (num_ranks - 1) 1 i (replicate (num_ranks + 1) 0)
          (λ k xs c d. refl) (omega arith) (omega arith)
          (omega (arith, length-replicate {A = ℕ} (num_ranks + 1) 0))

  splits-step : (i : ℕ) → suc i < num_ranks + 1 → splits i ≤ splits (suc i)
  splits-step zero h = omega (arith, splits-first)
  splits-step (suc i) h =
      let here = splits-box (suc i) (omega arith) (omega arith) ∙ box-size (suc i) (omega arith) in
      elim (dec_lt (suc (suc i)) num_ranks) [
        | yes more ↦
            let next =
              splits-box (suc (suc i)) (omega arith) more ∙ box-size (suc (suc i)) (omega arith) in
            omega (
              arith,
              round-le (suc i * delta) (suc (suc i) * delta)
                  (mul-le-mul (suc i) (suc (suc i)) delta (omega arith)),
            )
        | no last ↦
            let end : suc (suc i) ≡ num_ranks = omega arith in
            omega (
              arith,
              ap splits end,
              splits-last,
              div-mul-le_self (suc i * delta) size,
              (raw (suc i) (omega arith)).0,
            )
      ]

-- The initial splits for one rank or more start at 0, end at the end of the key space and
-- ascend, and those between are multiples of the size of a node of the given level.
pub initial_domain_splits-Ascending :
    (t : KeyType) (num_ranks level : ℕ)
    → 0 < num_ranks
    → let splits = at (initial_domain_splits t num_ranks level) in
      (splits 0 ≡ 0)
      × (splits num_ranks ≡ 8 ^ max_tree_level t)
      × Ascending splits 0 (num_ranks + 1)
      × ((i : ℕ) → 0 < i → i < num_ranks → splits i % 8 ^ (max_tree_level t - level) ≡ 0)
unfolding splits size
initial_domain_splits-Ascending t num_ranks level h = (
  splits-first t num_ranks level h,
  splits-last t num_ranks level h,
  steps-Ascending (splits t num_ranks level h) (num_ranks + 1) (splits-step t num_ranks level h),
  λ i a b.
      rw (splits-box t num_ranks level h i a b, box-size t num_ranks level h i (omega arith))
        (mul-mod_left (i * delta t num_ranks level h / size t num_ranks level h)
          (8 ^ (max_tree_level t - level))),
)
