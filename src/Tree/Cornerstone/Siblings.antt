-- ===== src/Tree/Cornerstone/Siblings.antt =====
-- Around a node of an octree: the nodes before and after it under the same parent.
use native.Mathlib.Decide.{dec_lt}
use sphexa.Base.{
  ℕ, zero, suc, ◌+◌, ◌-◌, ◌*◌, ◌^◌, ◌≤◌, ◌<◌, ◌≡◌, ap, arith, mul-le-mul, mul-parts, ◌≢◌, climb,
  ◌⊎◌, inl, inr, lt_of_mul-lt,
}
use sphexa.Base.Pow.{pow8-suc, pow8-le, pow8_pos, pow8-split}
use sphexa.Key.{KeyType, max_tree_level}
use sphexa.Tree.Cornerstone.{IsOctree, IsGroup}

-- A cell that begins or ends strictly inside a parent of size 8 * 8 ^ k is no larger than 8 ^ k.
-- `p` counts the parents before this one.
small_start : (k p j q : ℕ) → p * 8 ^ suc k < q * 8 ^ j → q * 8 ^ j < (p + 1) * 8 ^ suc k → j ≤ k
small_start k p j q lo hi = elim (dec_lt k j) [
  | no h ↦ omega arith
  | yes h ↦
      let m = q * 8 ^ (j - suc k) in
      let e : q * 8 ^ j ≡ m * 8 ^ suc k =
        omega (arith, ap (λ (x : ℕ). q * x) (pow8-split (suc k) j h)) in
      absurd (
        omega (
          arith,
          lt_of_mul-lt p m (8 ^ suc k) (omega arith),
          lt_of_mul-lt m (p + 1) (8 ^ suc k) (omega arith),
        ))
]

module _ (t : KeyType) (tree : ℕ → ℕ) (n : ℕ) (o : IsOctree t tree n) where
  -- The keys ascend strictly.
  pub tree-lt : (i : ℕ) → i < n → tree i < tree (i + 1)
  tree-lt i h = let (k, q, b, e, f) = o.node i h in omega (arith, pow8_pos k)

  pub tree-le : (i d j : ℕ) → i + d ≡ j → j ≤ n → tree i ≤ tree j
  tree-le i zero j e h = omega (arith, ap tree {x = i} {y = j} (omega arith))
  tree-le i (suc d) j e h =
      omega (arith, tree-le (i + 1) d j (omega arith) h, tree-lt i (omega arith))

  -- A node that begins or ends inside a parent of size 8 * 8 ^ k is no larger than 8 ^ k.
  small_node :
      (k p j : ℕ)
      → j < n
      → (p * 8 ^ suc k < tree j) × (tree j < (p + 1) * 8 ^ suc k)
        ⊎ (p * 8 ^ suc k < tree (j + 1)) × (tree (j + 1) < (p + 1) * 8 ^ suc k)
      → tree (j + 1) ≤ tree j + 8 ^ k
  small_node k p j h (inl (lo, hi)) =
      let (kj, qj, b, e, f) = o.node j h in
      omega (arith, pow8-le kj k (small_start k p kj qj (omega arith) (omega arith)))
  small_node k p j h (inr (lo, hi)) =
      let (kj, qj, b, e, f) = o.node j h in
      omega (arith, pow8-le kj k (small_start k p kj (qj + 1) (omega arith) (omega arith)))

  module _ (i k p s : ℕ) (inside : i < n) (deep : k < max_tree_level t) (octant : s < 8)
      (at_i : tree i ≡ p * 8 ^ suc k + s * 8 ^ k) (next_i : tree (i + 1) ≡ tree i + 8 ^ k) where
    -- The parent ends within the key space.
    parent_end : (p + 1) * 8 ^ suc k ≤ 8 ^ max_tree_level t
    parent_end =
        let size = pow8-split (suc k) (max_tree_level t) deep in
        let below : p < 8 ^ (max_tree_level t - suc k) =
          lt_of_mul-lt p (8 ^ (max_tree_level t - suc k)) (8 ^ suc k) (
            omega (
              arith,
              o.ends,
              pow8_pos k,
              tree-le (i + 1) (n - (i + 1)) n (omega arith) (omega arith),
            )) in
        omega (arith, mul-le-mul (suc p) (8 ^ (max_tree_level t - suc k)) (8 ^ suc k) below)

    -- Before node `i` stand its `s` elder siblings, or nodes below them.
    before :
        (d : ℕ) → d ≤ s → (d ≤ i) × (tree i ≤ tree (i - d) + d * 8 ^ k) × (tree (i - d) ≤ tree i)
    before zero h =
        let e : tree (i - 0) ≡ tree i = ap tree (omega arith) in
        (omega arith, omega arith, omega arith)
    before (suc d) h =
        let (r, lo, hi) = before d (omega arith) in
        let room : suc d * 8 ^ k ≤ s * 8 ^ k = mul-le-mul (suc d) s (8 ^ k) h in
        let wide : s * 8 ^ k < 8 ^ suc k =
          omega (arith, mul-le-mul (suc s) 8 (8 ^ k) octant, pow8-suc k, pow8_pos k) in
        let first : i - d ≢ 0 = λ e. omega (arith, o.starts, ap tree e, pow8_pos k) in
        let e : tree (i - suc d + 1) ≡ tree (i - d) = ap tree (omega arith) in
        let step : tree (i - suc d + 1) ≤ tree (i - suc d) + 8 ^ k =
          small_node k p (i - suc d) (omega arith) (inr (omega (arith, pow8_pos k), omega arith)) in
        (omega arith, omega arith, omega (arith, tree-lt (i - suc d)))

    -- Behind it stand its younger siblings, or nodes below them.
    behind : (d : ℕ) → d + s ≤ 8 → (i + d ≤ n) × (tree (i + d) ≤ tree i + d * 8 ^ k)
    behind zero h =
        let e : tree (i + 0) ≡ tree i = ap tree (omega arith) in (omega arith, omega arith)
    behind (suc zero) h = (omega arith, omega arith)
    behind (suc (suc d)) h =
        let (r, hi) = behind (suc d) (omega arith) in
        let room : (suc d + s) * 8 ^ k < 8 ^ suc k =
          omega (arith, mul-le-mul (suc (suc d) + s) 8 (8 ^ k) h, pow8-suc k, pow8_pos k) in
        let last : i + suc d ≢ n = λ e. omega (arith, o.ends, ap tree e, parent_end) in
        let e : tree (i + suc d + 1) ≡ tree (i + suc (suc d)) = ap tree (omega arith) in
        let step : tree (i + suc d + 1) ≤ tree (i + suc d) + 8 ^ k =
          small_node k p (i + suc d) (omega arith) (
            inl (
              omega (arith, pow8_pos k, tree-le (i + 1) d (i + suc d) (omega arith) r),
              omega arith,
            )) in
        (omega arith, omega arith)

    within : s * 8 ^ k + 8 ^ k ≤ 8 ^ suc k
    within = omega (arith, mul-le-mul (suc s) 8 (8 ^ k) octant, pow8-suc k)

    step_before : (e : ℕ) → e < s → tree (i - s + (e + 1)) ≤ tree (i - s + e) + 8 ^ k
    step_before e h =
        let (r, lo, hi) = before (s - (e + 1)) (omega arith) in
        let elder : s ≤ i = (before s (omega arith)).0 in
        let a : tree (i - s + e + 1) ≡ tree (i - (s - (e + 1))) = ap tree (omega arith) in
        let b : tree (i - s + (e + 1)) ≡ tree (i - s + e + 1) = ap tree (omega arith) in
        let room : suc (s - (e + 1)) * 8 ^ k ≤ s * 8 ^ k =
          mul-le-mul (suc (s - (e + 1))) s (8 ^ k) (omega arith) in
        let c = pow8_pos k in
        let w = within in
        omega (arith, small_node k p (i - s + e) (omega arith) (inr (omega arith, omega arith)))

    step_behind : (e : ℕ) → s < e → e < 8 → tree (i - s + (e + 1)) ≤ tree (i - s + e) + 8 ^ k
    step_behind e h b =
        let elder : s ≤ i = (before s (omega arith)).0 in
        let (r, hi) = behind (e - s) (omega arith) in
        let (r', _) = behind (e - s + 1) (omega arith) in
        let a : tree (i - s + e) ≡ tree (i + (e - s)) = ap tree (omega arith) in
        let a' : tree (i - s + (e + 1)) ≡ tree (i + (e - s) + 1) = ap tree (omega arith) in
        let room : suc (s + (e - s)) * 8 ^ k ≤ 8 * 8 ^ k =
          mul-le-mul (suc (s + (e - s))) 8 (8 ^ k) (omega arith) in
        let c = pow8_pos k in
        let later = tree-le (i + 1) (e - s - 1) (i + (e - s)) (omega arith) r in
        omega (
          arith,
          small_node k p (i + (e - s)) (omega arith) (inl (omega arith, omega (arith, pow8-suc k))),
        )

    -- None of the nodes around is larger than node `i`.
    step : (e : ℕ) → e < 8 → tree (i - s + (e + 1)) ≤ tree (i - s + e) + 8 ^ k
    step e h = elim (dec_lt e s) [
      | yes p' ↦ step_before e p'
      | no q' ↦ elim (dec_lt s e) [
        | yes p' ↦ step_behind e p' h
        | no r' ↦
            let elder : s ≤ i = (before s (omega arith)).0 in
            let a : tree (i - s + e) ≡ tree i = ap tree (omega arith) in
            let b : tree (i - s + (e + 1)) ≡ tree (i + 1) = ap tree (omega arith) in omega arith
      ]
    ]

    -- The places that the code reads exist.
    pub siblings_inside : (s ≤ i) × (i - s + 8 ≤ n)
    siblings_inside =
        let (elder, _, _) = before s (omega arith) in
        let (younger, _) = behind (8 - s) (omega arith) in (elder, omega arith)

    -- If the eighth node from the place of the first child ends one parent further, then the
    -- eight nodes are the children.
    pub siblings_found :
        tree (i - s + 8) ≡ tree (i - s) + 8 ^ suc k
        → (tree (i - s) ≡ p * 8 ^ suc k) × IsGroup t tree n (i - s) k
    siblings_found e =
        let (elder, lo, _) = before s (omega arith) in
        let (younger, hi) = behind (8 - s) (omega arith) in
        let a : tree (i - s + 8) ≡ tree (i + (8 - s)) = ap tree (omega arith) in
        let first : tree (i - s) ≡ p * 8 ^ suc k =
          omega (arith, pow8-suc k, mul-parts (8 - s) s 8 (8 ^ k) (omega arith)) in
        let rise = climb (λ e. tree (i - s + e)) (8 ^ k) 8 step in
        (
          first,
          record {
            parent = p;
            aligned = first;
            deep = deep;
            inside = siblings_inside.1;
            child = λ d h.
                let z : tree (i - s + 0) ≡ tree (i - s) = ap tree (omega arith) in
                omega (
                  arith,
                  rise d 0 d (omega arith) h,
                  rise (8 - d) d 8 (omega arith) (omega arith),
                  mul-parts d (8 - d) 8 (8 ^ k) (omega arith),
                  pow8-suc k,
                );
          },
        )
