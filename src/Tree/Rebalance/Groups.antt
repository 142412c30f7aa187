-- ===== src/Tree/Rebalance/Groups.antt =====
-- The decisions for eight sibling nodes (calculateNodeOp of tree/csarray.hpp).
use native.Mathlib.Decide.{dec_lt, ℕ_discrete}
use sphexa.Base.{ℕ, suc, ◌+◌, ◌-◌, ◌*◌, ◌^◌, ◌≤◌, ◌<◌, ◌≡◌, ap, ◌∙◌, arith, inl, inr}
use sphexa.Base.Int.{pos}
use sphexa.Key.{KeyType, max_tree_level}
use sphexa.Tree.Cornerstone.{IsOctree, IsGroup}
use sphexa.Tree.Cornerstone.Siblings.{siblings_inside}
use sphexa.Tree.Rebalance.{sibling_and_level, group_count, split_op, calculate_node_op}
use sphexa.Tree.Rebalance.Decision.{
  siblings_cases, sibling_and_level-root, sibling_and_level-child, Place, place, split_op-pow8,
  split_op-keep,
}

module _ (t : KeyType) (tree : ℕ → ℕ) (n : ℕ) (o : IsOctree t tree n) (counts : ℕ → ℕ)
    (bucket_size : ℕ) where
  abbrev pub op : ℕ → ℕ
  op i = calculate_node_op t tree i counts bucket_size

  -- A younger sibling of a group is merged if the parent's count fits the bucket.
  pub op-younger :
      (g k d : ℕ)
      → IsGroup t tree n g k
      → 0 < d
      → d < 8
      → group_count counts g ≤ bucket_size
      → op (g + d) ≡ 0
  unfolding calculate_node_op
  op-younger g k d v a b c =
      let back : g + d - d ≡ g = omega arith in
      rw (sibling_and_level-child t tree n o g k d v b, back) (ground arith)

  -- The first of a group is never merged away.
  pub op-first :
      (g k : ℕ)
      → IsGroup t tree n g k
      → op g ≡ split_op t (counts g) (max_tree_level t - k) bucket_size
  unfolding calculate_node_op
  op-first g k v =
      let e : sibling_and_level t tree g ≡ (pos 0, max_tree_level t - k) =
        ap (sibling_and_level t tree) (omega arith)
        ∙ sibling_and_level-child t tree n o g k 0 v (omega arith) in
      rw e (ground arith)

  pub op-first_merge :
      (g k : ℕ)
      → IsGroup t tree n g k
      → bucket_size * 512 < 2 ^ 32
      → group_count counts g ≤ bucket_size
      → op g ≡ 1
  unfolding group_count
  op-first_merge g k v w h =
      op-first g k v ∙ split_op-keep t (counts g) (max_tree_level t - k) bucket_size w (omega arith)

  -- A node that is merged away is a younger sibling of a group with few particles.
  pub data Merged (i : ℕ) : Type 0 where
    merged :
        (g k d : ℕ)
        → i ≡ g + d
        → IsGroup t tree n g k
        → 0 < d
        → d < 8
        → group_count counts g ≤ bucket_size
        → Merged i

  -- What the decision of a node is: merge with its siblings, or a power of 8 within the levels.
  pub data Decided (i : ℕ) : Type 0 where
    merge : op i ≡ 0 → Merged i → Decided i
    split :
        (e k : ℕ)
        → op i ≡ 8 ^ e
        → e ≤ 4
        → e ≤ k
        → k ≤ max_tree_level t
        → tree (i + 1) ≡ tree i + 8 ^ k
        → Decided i

  split-Decided :
      (i k : ℕ)
      → k ≤ max_tree_level t
      → tree (i + 1) ≡ tree i + 8 ^ k
      → op i ≡ split_op t (counts i) (max_tree_level t - k) bucket_size
      → Decided i
  split-Decided i k b f e =
      let (x, g, r, small) =
        split_op-pow8 t (counts i) (max_tree_level t - k) bucket_size (omega arith) in
      Decided.split x k (e ∙ g) small (omega arith) b f

  -- The three outcomes for a node below the root: no siblings, the first of them, a younger one.
  child-Decided :
      (i k p s : ℕ)
      → i < n
      → k < max_tree_level t
      → s < 8
      → tree i ≡ p * 8 ^ suc k + s * 8 ^ k
      → tree (i + 1) ≡ tree i + 8 ^ k
      → Decided i
  unfolding calculate_node_op
  child-Decided i k p s h b c e f = elim (siblings_cases t tree n o i k p s h b c e f) [
    | inr (g, _) ↦ split-Decided i k (omega arith) f (rw g (ground arith))
    | inl (g, _, v) ↦ elim (dec_lt bucket_size (group_count counts (i - s))) [
      | yes big ↦ split-Decided i k (omega arith) f (rw g (ground arith))
      | no small ↦ elim (ℕ_discrete s 0) [
        | yes z ↦ split-Decided i k (omega arith) f (rw (g, z) (ground arith))
        | no nz ↦
            let elder = siblings_inside t tree n o i k p s h b c e f in
            Decided.merge (rw g (ground arith))
              (Merged.merged (i - s) k s (omega arith) v (omega arith) c (omega arith))
      ]
    ]
  ]

  pub decided : (i : ℕ) → i < n → Decided i
  unfolding calculate_node_op
  decided i h = elim (place t tree n o i h) [
    | Place.root e ↦
        split-Decided i (max_tree_level t) (omega arith) e
          (rw (sibling_and_level-root t tree n o i h e) (ground arith))
    | Place.child k p s b c e f ↦ child-Decided i k p s h b c e f
  ]
