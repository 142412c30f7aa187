-- ===== src/Tree/Rebalance/Decision.antt =====
-- The parts of a decision on an octree: level, octant and siblings of a node, and its splits
-- (siblingAndLevel and calculateNodeOp of tree/csarray.hpp).
use native.Mathlib.Decide.{dec_lt, ℕ_discrete}
use native.Mathlib.Nat.{mod-eq_of_lt, mul-div_cancel, div-add-mod}
use sphexa.Base.{
  ℕ, suc, ◌+◌, ◌-◌, ◌*◌, ◌/◌, ◌%◌, ◌^◌, ◌≤◌, ◌<◌, ◌≡◌, ◌≢◌, ap, ◌∙◌, arith, ◌⊎◌, inl, inr, false,
  ◌==◌,
}
use sphexa.Base.Int.{pos, negsuc}
use sphexa.Base.Pow.{mul-pow8-suc, pow8-suc, pow8_pos, pow8-le}
use sphexa.Key.{
  KeyType, max_tree_level, key_bits, wrap, wrap_sub, wrap_sub_exact, key_space_lt, key_space_double,
}
use sphexa.Sfc.Node.{tree_level}
use sphexa.Sfc.Node.Level.{tree_level-pow8, node_range-pow8}
use sphexa.Sfc.Digit.{octal_digit}
use sphexa.Sfc.Digit.Box.{octal_digit-mod}
use sphexa.Tree.Cornerstone.{IsOctree, IsGroup}
use sphexa.Tree.Cornerstone.Siblings.{tree-lt, tree-le, siblings_inside, siblings_found}
use sphexa.Tree.Rebalance.{sibling_and_level, split_op}

module _ (t : KeyType) (tree : ℕ → ℕ) (n : ℕ) (o : IsOctree t tree n) where
  key_below : (i : ℕ) → i ≤ n → tree i < 2 ^ key_bits t
  key_below i h = omega (arith, key_space_lt t, o.ends, tree-le t tree n o i (n - i) n)

  -- The level read off a node's two keys.
  pub node_level :
      (i k : ℕ)
      → i < n
      → k ≤ max_tree_level t
      → tree (i + 1) ≡ tree i + 8 ^ k
      → tree_level t (wrap_sub t (tree (i + 1)) (tree i)) ≡ max_tree_level t - k
  node_level i k h b e =
      let width : wrap_sub t (tree (i + 1)) (tree i) ≡ 8 ^ k =
        wrap_sub_exact t (tree (i + 1)) (tree i) (omega arith) (key_below (i + 1) (omega arith))
        ∙ omega arith in
      rw width (tree_level-pow8 t k b)

  -- The octant read off a node's start.
  node_octant :
      (i k p s : ℕ)
      → k ≤ max_tree_level t
      → s < 8
      → tree i ≡ p * 8 ^ suc k + s * 8 ^ k
      → octal_digit t (tree i) (max_tree_level t - k) ≡ s
  node_octant i k p s b h e =
      let back : max_tree_level t - (max_tree_level t - k) ≡ k = omega arith in
      let whole : tree i ≡ (p * 8 + s) * 8 ^ k = omega (arith, mul-pow8-suc p k) in
      rw
        (
          octal_digit-mod t (tree i) (max_tree_level t - k),
          back,
          whole,
          mul-div_cancel (p * 8 + s) (pow8_pos k),
        )
        (omega arith)

  -- The outcome of the test on a node above level 0: the eight nodes are found, or they are not.
  pub siblings_cases :
      (i k p s : ℕ)
      → i < n
      → k < max_tree_level t
      → s < 8
      → tree i ≡ p * 8 ^ suc k + s * 8 ^ k
      → tree (i + 1) ≡ tree i + 8 ^ k
      → (sibling_and_level t tree i ≡ (pos s, max_tree_level t - k))
          × (tree (i - s) ≡ p * 8 ^ suc k)
          × IsGroup t tree n (i - s) k
        ⊎ (sibling_and_level t tree i ≡ (negsuc 0, max_tree_level t - k))
          × (tree (i - s + 8) ≢ tree (i - s) + 8 ^ suc k)
  unfolding sibling_and_level
  siblings_cases i k p s h b c e f =
      let level = node_level i k h (omega arith) f in
      let octant = node_octant i k p s (omega arith) c e in
      let (elder, younger) = siblings_inside t tree n o i k p s h b c e f in
      let up : max_tree_level t - (max_tree_level t - k - 1) ≡ suc k = omega arith in
      let deep : (max_tree_level t - k == 0) ≡ false = ground arith in
      let found = siblings_found t tree n o i k p s h b c e f in
      let exact : wrap t (tree (i - s) + 8 ^ suc k) ≡ tree (i - s) + 8 ^ suc k = mod-eq_of_lt (
        omega (
          arith,
          key_space_double t,
          o.ends,
          tree-lt t tree n o (i - s) (omega arith),
          tree-le t tree n o (i - s + 1) (n - (i - s + 1)) n (omega arith) (omega arith),
          pow8-le (suc k) (max_tree_level t) b,
        )) in
      elim (ℕ_discrete (tree (i - s + 8)) (tree (i - s) + 8 ^ suc k)) [
        | yes g ↦ inl (
          rw (level, deep, octant, node_range-pow8 t (max_tree_level t - k - 1), up, exact)
              (ground arith),
          (found g).0,
          (found g).1,
        )
        | no g ↦ inr (
          rw (level, deep, octant, node_range-pow8 t (max_tree_level t - k - 1), up, exact)
              (ground arith),
          g,
        )
      ]

  -- The root has no siblings.
  pub sibling_and_level-root :
      (i : ℕ)
      → i < n
      → tree (i + 1) ≡ tree i + 8 ^ max_tree_level t
      → sibling_and_level t tree i ≡ (negsuc 0, 0)
  unfolding sibling_and_level
  sibling_and_level-root i h e =
      let level : tree_level t (wrap_sub t (tree (i + 1)) (tree i)) ≡ 0 =
        node_level i (max_tree_level t) h (omega arith) e ∙ omega arith in
      rw level

  -- In an octree, each of eight nodes that are the children of one cell is recognised as such:
  -- sibling_and_level returns its index among them and its level.
  pub sibling_and_level-child :
      (g k d : ℕ)
      → IsGroup t tree n g k
      → d < 8
      → sibling_and_level t tree (g + d) ≡ (pos d, max_tree_level t - k)
  sibling_and_level-child g k d v h =
      let back : tree (g + d - d) ≡ tree g = ap tree (omega arith) in
      let end : tree (g + d - d + 8) ≡ tree (g + 8) = ap tree (omega arith) in
      let next : tree (g + d + 1) ≡ tree (g + (d + 1)) = ap tree (omega arith) in
      let here = v.child d (omega arith) in
      let after = v.child (d + 1) (omega arith) in
      elim (siblings_cases (g + d) k v.parent d (omega (arith, v.inside)) v.deep h
        (omega (arith, v.aligned)) (omega arith)) [
          | inl (e, _, _) ↦ e
          | inr (_, ne) ↦ absurd (ne (omega (arith, v.child 8, pow8-suc k)))
        ]

  -- A node with its octant: the root, or child `s` of a cell.
  pub data Place (i : ℕ) : Type 0 where
    root : tree (i + 1) ≡ tree i + 8 ^ max_tree_level t → Place i
    child :
        (k p s : ℕ)
        → k < max_tree_level t
        → s < 8
        → tree i ≡ p * 8 ^ suc k + s * 8 ^ k
        → tree (i + 1) ≡ tree i + 8 ^ k
        → Place i

  pub place : (i : ℕ) → i < n → Place i
  place i h =
      let (k, q, b, e, f) = o.node i h in
      elim (dec_lt k (max_tree_level t)) [
        | yes deep ↦
            Place.child k (q / 8) (q % 8) deep (omega arith)
              (omega (arith, mul-pow8-suc (q / 8) k, ap (λ (x : ℕ). x * 8 ^ k) (div-add-mod q 8))) f
        | no top ↦ Place.root (f ∙ ap (λ (x : ℕ). tree i + 8 ^ x) (omega arith))
      ]

module _ (t : KeyType) (count level bucket_size : ℕ) where
  split_op_cases :
      (split_op t count level bucket_size ≡ 4096) × (level + 4 ≤ max_tree_level t)
      ⊎ (split_op t count level bucket_size ≡ 512) × (level + 3 ≤ max_tree_level t)
      ⊎ (split_op t count level bucket_size ≡ 64) × (level + 2 ≤ max_tree_level t)
      ⊎ (split_op t count level bucket_size ≡ 8) × (level + 1 ≤ max_tree_level t)
      ⊎ (split_op t count level bucket_size ≡ 1)
  unfolding split_op
  split_op_cases = ground arith

  -- A decision to split is a power of 8 that the levels have room for.
  pub split_op-pow8 :
      level ≤ max_tree_level t
      → (e : ℕ) × (split_op t count level bucket_size ≡ 8 ^ e)
        × (level + e ≤ max_tree_level t)
        × (e ≤ 4)
  split_op-pow8 h = elim split_op_cases [
    | inl (e, b) ↦ (4, e, b, omega arith)
    | inr (inl (e, b)) ↦ (3, e, b, omega arith)
    | inr (inr (inl (e, b))) ↦ (2, e, b, omega arith)
    | inr (inr (inr (inl (e, b)))) ↦ (1, e, b, omega arith)
    | inr (inr (inr (inr e))) ↦ (0, e, omega arith, omega arith)
  ]

  -- A node within the bucket size is kept, as long as no product wraps around.
  pub split_op-keep :
      bucket_size * 512 < 2 ^ 32 → count ≤ bucket_size → split_op t count level bucket_size ≡ 1
  unfolding split_op
  split_op-keep w h = ground arith
