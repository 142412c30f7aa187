-- ===== src/Tree/Update/Balanced.antt =====
-- The result of rebalanceDecision, and the tree in that case (tree/csarray.hpp).
use native.Mathlib.Decide.{dec_lt}
use sphexa.Base.{
  ℕ, zero, suc, ◌+◌, ◌-◌, ◌*◌, ◌^◌, ◌≤◌, ◌<◌, ◌≡◌, ◌↔◌, refl, ap, sym, ◌∙◌, arith, ◌⊎◌, inl, inr,
  true, List, [], ◌∷◌, ◌++◌, length, drop,
}
use sphexa.Base.Pow.{pow8-injective}
use sphexa.Key.{KeyType, max_tree_level, n_nodes, wrap_sub}
use sphexa.Primitives.Search.{at}
use sphexa.Sfc.Node.{tree_level}
use sphexa.Tree.Cornerstone.{IsOctree, IsGroup, IsOctree-length}
use sphexa.Tree.Cornerstone.Tiles.{rungs}
use sphexa.Tree.Rebalance.{
  sibling_and_level, group_count, split_op, calculate_node_op, rebalance_decision, rebalance_tree,
}
use sphexa.Tree.Rebalance.Decision.{node_level, split_op-keep}
use sphexa.Tree.Rebalance.Groups.{op, op-younger, Merged}
use sphexa.Tree.Rebalance.Emitted.{node_keys, emitted}
use sphexa.Tree.Rebalance.Arrays.{
  decision_loop-converged, decision_loop-at, length-decision_loop, rebalance_tree-emitted,
}
use sphexa.Tree.Rebalance.Invariant.{gone}

-- No leaf above the bucket size can be split, and no group fits one bucket.
pub record IsBalanced (t : KeyType) (tree : ℕ → ℕ) (n : ℕ) (counts : ℕ → ℕ) (bucket_size : ℕ)
    : Type 0 where
  pub split : (i : ℕ) → i < n → (counts i ≤ bucket_size) ⊎ (tree (i + 1) ≡ tree i + 1)
  pub merge : (g k : ℕ) → IsGroup t tree n g k → bucket_size < group_count counts g

split_op-one :
    (t : KeyType) (count level bucket_size : ℕ)
    → split_op t count level bucket_size ≡ 1
    → (count ≤ bucket_size) ⊎ (max_tree_level t ≤ level)
unfolding split_op
split_op-one t count level bucket_size e = ground arith

split_op-last :
    (t : KeyType) (count level bucket_size : ℕ)
    → max_tree_level t ≤ level
    → split_op t count level bucket_size ≡ 1
unfolding split_op
split_op-last t count level bucket_size h = ground arith

module _ (t : KeyType) (tree : ℕ → ℕ) (n : ℕ) (o : IsOctree t tree n) (counts : ℕ → ℕ)
    (bucket_size : ℕ) (small : bucket_size * 512 < 2 ^ 32) where
  abbrev ops : ℕ → ℕ
  ops = op t tree n o counts bucket_size

  level_of :
      (i : ℕ) → (sibling_and_level t tree i).1 ≡ tree_level t (wrap_sub t (tree (i + 1)) (tree i))
  unfolding sibling_and_level
  level_of i = ground arith

  op_cases :
      (i : ℕ)
      → (ops i ≡ 0) ⊎ (ops i ≡ split_op t (counts i) (sibling_and_level t tree i).1 bucket_size)
  unfolding calculate_node_op
  op_cases i = ground arith

  pub op-level :
      (i k : ℕ)
      → i < n
      → k ≤ max_tree_level t
      → tree (i + 1) ≡ tree i + 8 ^ k
      → (ops i ≡ 0) ⊎ (ops i ≡ split_op t (counts i) (max_tree_level t - k) bucket_size)
  op-level i k h b e = rw (level_of i, node_level t tree n o i k h b e) at (op_cases i)

  ops_one-IsBalanced : ((i : ℕ) → i < n → ops i ≡ 1) → IsBalanced t tree n counts bucket_size
  ops_one-IsBalanced all = record {
    split = λ i h.
        let (k, q, b, _, f) = o.node i h in
        elim (op-level i k h b f) [
          | inl z ↦ absurd (omega (arith, all i h))
          | inr e ↦
              elim (split_op-one t (counts i) (max_tree_level t - k) bucket_size
                (sym e ∙ all i h)) [
                  | inl fits ↦ inl fits
                  | inr deep ↦
                      let bottom : k ≡ 0 = omega arith in
                      inr (f ∙ ap (λ (x : ℕ). tree i + 8 ^ x) bottom)
                ]
        ];
    merge = λ g k v. elim (dec_lt bucket_size (group_count counts g)) [
      | yes h ↦ h
      | no h ↦ absurd (
          omega (
            arith,
            all (g + 1) (omega (arith, v.inside)),
            op-younger t tree n o counts bucket_size g k 1 v (omega arith) (omega arith)
                (omega arith),
          ))
    ];
  }

  IsBalanced-ops_one : IsBalanced t tree n counts bucket_size → (i : ℕ) → i < n → ops i ≡ 1
  IsBalanced-ops_one balanced i h =
      let (k, q, b, _, f) = o.node i h in
      elim (op-level i k h b f) [
        | inl z ↦ elim (gone t tree n o counts bucket_size small i h z) [
          | Merged.merged g k' d _ v _ _ few ↦ absurd (omega (arith, balanced.merge g k' v))
        ]
        | inr e ↦ elim (balanced.split i h) [
          | inl fits ↦ e ∙ split_op-keep t (counts i) (max_tree_level t - k) bucket_size small fits
          | inr one ↦
              let bottom : k ≡ 0 = pow8-injective k 0 (omega arith) in
              e ∙ split_op-last t (counts i) (max_tree_level t - k) bucket_size (omega arith)
        ]
      ]

  -- On an octree, rebalance_decision reports convergence if and only if the tree is balanced:
  -- each node has at most bucket_size particles or is of the last level, and no eight sibling
  -- nodes have that few together. 512 times the bucket size fits 32 bits.
  pub rebalance_decision-IsBalanced :
      (node_ops : List ℕ)
      → ((rebalance_decision t tree counts n bucket_size node_ops).1 ≡ true)
        ↔ IsBalanced t tree n counts bucket_size
  unfolding rebalance_decision
  rebalance_decision-IsBalanced node_ops =
      let (to, from) = decision_loop-converged t tree counts bucket_size n 0 node_ops true in
      (
        λ e. ops_one-IsBalanced (λ i h. (to e).1 i (omega arith) (omega arith)),
        λ balanced. from (refl, λ i a b. IsBalanced-ops_one balanced i (omega arith)),
      )

-- A list from the place `i` on.
drop-at : (xs : List ℕ) (i : ℕ) → i < length xs → drop i xs ≡ at xs i ∷ drop (i + 1) xs
drop-at [] i h = absurd (omega arith)
drop-at (x ∷ xs) zero h = refl
drop-at (x ∷ xs) (suc i) h =
    let e : suc i + 1 ≡ suc (i + 1) = omega arith in rw e (drop-at xs i (omega arith))

drop-all : (xs : List ℕ) (k : ℕ) → length xs ≤ k → drop k xs ≡ []
drop-all [] zero h = refl
drop-all [] (suc k) h = refl
drop-all (x ∷ xs) zero h = absurd (omega arith)
drop-all (x ∷ xs) (suc k) h = drop-all xs k (omega arith)

-- If every node is kept, then each node is written as it was.
emitted-kept :
    (tree : List ℕ) (ops : ℕ → ℕ) (n m i : ℕ)
    → length tree ≡ suc n
    → i + m ≡ n
    → ((j : ℕ) → j < n → ops j ≡ 1)
    → emitted (at tree) ops m i ++ at tree n ∷ [] ≡ drop i tree
unfolding emitted node_keys rungs
emitted-kept tree ops n zero i e f all =
    let here : i ≡ n = omega arith in
    rw here (
      sym
        (drop-at tree n (omega arith) ∙ ap (◌∷◌ (at tree n)) (drop-all tree (n + 1) (omega arith))))
emitted-kept tree ops n (suc m) i e f all =
    rw (all i (omega arith), drop-at tree i (omega arith))
      (ap (◌∷◌ (at tree i)) (emitted-kept tree ops n m (i + 1) e (omega arith) all))

-- If rebalance_decision reports convergence for an octree, then rebalance_tree returns the same
-- tree. The array of operations has as many elements as the tree has keys.
pub rebalance_tree-converged :
    (t : KeyType) (tree : List ℕ) (counts : ℕ → ℕ) (bucket_size : ℕ) (node_ops : List ℕ)
    → IsOctree t (at tree) (n_nodes tree)
    → length node_ops ≡ length tree
    → (rebalance_decision t (at tree) counts (n_nodes tree) bucket_size node_ops).1 ≡ true
    → rebalance_tree t tree
        (rebalance_decision t (at tree) counts (n_nodes tree) bucket_size node_ops).0
      ≡ tree
unfolding rebalance_decision
rebalance_tree-converged t tree counts bucket_size node_ops o sized e =
    let n = n_nodes tree in
    let full = IsOctree-length tree o in
    let kept = ((decision_loop-converged t (at tree) counts bucket_size n 0 node_ops true).0 e).1 in
    rebalance_tree-emitted t tree _ counts bucket_size n o full
      (length-decision_loop t (at tree) counts bucket_size n 0 node_ops true ∙ sized ∙ full)
      (λ i h.
        decision_loop-at t (at tree) counts bucket_size n 0 i node_ops true (omega arith)
          (omega arith) (omega arith))
    ∙ emitted-kept tree _ n n 0 full (omega arith) (λ i h. kept i (omega arith) (omega arith))
