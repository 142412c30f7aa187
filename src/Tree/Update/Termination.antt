-- ===== src/Tree/Update/Termination.antt =====
-- computeOctree ends with a balanced tree (tree/csarray.hpp).
use mathlib.Core.Bool.{false≢true}
use sphexa.Base.{
  ℕ, zero, suc, ◌+◌, ◌-◌, ◌*◌, ◌^◌, ◌≤◌, ◌<◌, ◌≡◌, ◌≢◌, refl, ap, sym, ◌∙◌, arith, inl, inr, true,
  false, Bool-cases, Option, some, List, [], ◌∷◌, ◌++◌, length, length-replicate, subst, min,
  length-append, replicate,
}
use sphexa.Key.{KeyType, max_tree_level, n_nodes, u32}
use sphexa.Primitives.Search.{at}
use sphexa.Primitives.Search.Partition.{Ascending}
use sphexa.Sfc.Node.{node_range}
use sphexa.Sfc.Node.Level.{node_range-pow8}
use sphexa.Tree.Cornerstone.{IsOctree, IsOctree-pos, IsOctree-length}
use sphexa.Tree.Cornerstone.Siblings.{tree-le, tree-lt}
use sphexa.Tree.Cornerstone.Tiles.{Tiles-one, Tiles-IsOctree}
use sphexa.Tree.Counts.Total.{keys_in}
use sphexa.Tree.Rebalance.{group_count, rebalance_decision}
use sphexa.Tree.Rebalance.Groups.{op}
use sphexa.Tree.Rebalance.Emitted.{emitted}
use sphexa.Tree.Rebalance.Arrays.{rebalance-emitted, decision_loop-converged}
use sphexa.Tree.Rebalance.Invariant.{first_kept}
use sphexa.Tree.Update.{update_octree, update_loop, compute_octree}
use sphexa.Tree.Update.Balanced.{
  IsBalanced, rebalance_decision-IsBalanced, rebalance_tree-converged,
}
use sphexa.Tree.Update.Step.{IsCounted, update_octree-IsCounted}
use sphexa.Tree.Update.Potential.{changes, changes-zero, cost-le, cells, cells-spread}
use sphexa.Tree.Update.Falls.{emitted-falls}

keys_in-split :
    (keys : List ℕ) (a b c : ℕ)
    → a ≤ b
    → b ≤ c
    → keys_in keys a c ≡ keys_in keys a b + keys_in keys b c
unfolding keys_in
keys_in-split [] a b c h g = refl
keys_in-split (x ∷ xs) a b c h g = ground (arith, keys_in-split xs a b c h g)

min-add : (x y m : ℕ) → min (x + y) m ≤ min x m + min y m
min-add x y m = omega arith

-- All nodes together weigh at most the square of what they cover.
cells-le :
    (f : ℕ → ℕ → ℕ) (bucket_size : ℕ) (t : KeyType) (tree : ℕ → ℕ) (n : ℕ)
    → IsOctree t tree n
    → (m i j : ℕ) → i + m ≡ j
    → j ≤ n
    → cells f bucket_size tree m i ≤ (tree j - tree i) * (tree j - tree i)
unfolding cells
cells-le f b t tree n o zero i j e h = omega arith
cells-le f b t tree n o (suc m) i j e h =
    let up = tree-lt t tree n o i (omega arith) in
    let rest = tree-le t tree n o (i + 1) m j (omega arith) h in
    let one =
      cost-le f b (tree i) (tree (i + 1)) (tree (i + 1) - tree i) (omega arith) (omega arith) in
    let ih = cells-le f b t tree n o m (i + 1) j (omega arith) h in
    squares (tree (i + 1) - tree i) (tree j - tree (i + 1)) (tree j - tree i) _ _ (omega arith) one
      ih
  where
    squares : (x y z p q : ℕ) → x + y ≡ z → p ≤ x * x → q ≤ y * y → p + q ≤ z * z
    squares x y z p q e a b = rw (← e) (grind arith)

-- A tree with its counts, as computeOctree should return it.
pub record IsResult (t : KeyType) (keys : List ℕ) (bucket_size max_count : ℕ) (tree counts : List ℕ)
    : Type 0 where
  pub octree : IsOctree t (at tree) (n_nodes tree)
  pub counted : IsCounted tree counts keys max_count
  pub balanced : IsBalanced t (at tree) (n_nodes tree) (at counts) bucket_size

module _ (t : KeyType) (keys : List ℕ) (bucket_size max_count : ℕ)
    (up : Ascending (at keys) 0 (length keys))
    (bounded : (j : ℕ) → j < length keys → at keys j ≤ 8 ^ max_tree_level t)
    (few : length keys < 2 ^ 32) (cap : max_count < 2 ^ 32)
    (small : bucket_size * 512 < 2 ^ 32) where
  abbrev count : ℕ → ℕ → ℕ
  count a b = min (keys_in keys a b) max_count

  count-parts : (a b c : ℕ) → a ≤ b → b ≤ c → count a c ≤ count a b + count b c
  count-parts a b c h g =
      rw (keys_in-split keys a b c h g) (min-add (keys_in keys a b) (keys_in keys b c) max_count)

  abbrev weight : List ℕ → ℕ
  weight tree = cells count bucket_size (at tree) (n_nodes tree) 0

  abbrev IsTree : List ℕ → Type 0
  IsTree tree = IsOctree t (at tree) (n_nodes tree)

  weight-lt :
      (tree : List ℕ) → IsTree tree → weight tree ≤ 8 ^ max_tree_level t * 8 ^ max_tree_level t
  weight-lt tree o =
      let n = n_nodes tree in
      let all : at tree n - at tree 0 ≡ 8 ^ max_tree_level t = omega (arith, o.starts, o.ends) in
      rw all at (cells-le count bucket_size t (at tree) n o n 0 n (omega arith) (omega arith))

  -- A step that changes the tree lowers its weight.
  weight-falls :
      (tree counts : List ℕ)
      → IsTree tree
      → IsCounted tree counts keys max_count
      → (update_octree t keys bucket_size tree counts max_count).converged ≡ false
      → weight (update_octree t keys bucket_size tree counts max_count).tree < weight tree
  unfolding update_octree rebalance_decision
  weight-falls tree counts o c e =
      let n = n_nodes tree in
      let out = emitted (at tree) (op t (at tree) n o (at counts) bucket_size) n 0 in
      let falls =
        emitted-falls t (at tree) n o (at counts) bucket_size small count count-parts c.count n n 0
          (omega arith) (omega arith)
          (λ _. first_kept t (at tree) n o (at counts) bucket_size small (IsOctree-pos o)) in
      let size : n_nodes (out ++ at tree n ∷ []) ≡ length out =
        omega (arith, length-append out (at tree n ∷ [])) in
      let some_change : changes (op t (at tree) n o (at counts) bucket_size) n 0 ≢ 0 = λ z.
        false≢true (
          sym e
          ∙ (decision_loop-converged t (at tree) (at counts) bucket_size n 0
                (replicate {A = ℕ} (suc n) 0) true).1
              (refl, λ j a b. changes-zero _ n 0 j z a b)) in
      rw
        (
          rebalance-emitted t tree (at counts) bucket_size o,
          size,
          cells-spread count bucket_size out (at tree n),
        )
        (omega arith)

  IsCounted-IsBalanced :
      (tree old new : List ℕ)
      → IsCounted tree old keys max_count
      → IsCounted tree new keys max_count
      → IsBalanced t (at tree) (n_nodes tree) (at old) bucket_size
      → IsBalanced t (at tree) (n_nodes tree) (at new) bucket_size
  unfolding group_count
  IsCounted-IsBalanced tree old new c d balanced =
      let same : (i : ℕ) → i < n_nodes tree → at new i ≡ at old i =
        λ i h. d.count i h ∙ sym (c.count i h) in
      record {
        split = λ i h. rw (same i h) (balanced.split i h);
        merge = λ g k v. omega (
          arith,
          balanced.merge g k v,
          v.inside,
          same g (omega (arith, v.inside)),
          same (g + 1) (omega (arith, v.inside)),
          same (g + 2) (omega (arith, v.inside)),
          same (g + 3) (omega (arith, v.inside)),
          same (g + 4) (omega (arith, v.inside)),
          same (g + 5) (omega (arith, v.inside)),
          same (g + 6) (omega (arith, v.inside)),
          same (g + 7) (omega (arith, v.inside)),
        );
      }

  -- The last step of the loop leaves the tree, which is balanced, and counts it again.
  last_step :
      (tree counts : List ℕ)
      → IsTree tree
      → (update_octree t keys bucket_size tree counts max_count).converged ≡ true
      → ((update_octree t keys bucket_size tree counts max_count).tree ≡ tree)
        × IsBalanced t (at tree) (n_nodes tree) (at counts) bucket_size
  unfolding update_octree
  last_step tree counts o e = (
    rebalance_tree-converged t tree (at counts) bucket_size _ o
        (length-replicate {A = ℕ} (suc (n_nodes tree)) 0 ∙ sym (IsOctree-length tree o)) e,
    (rebalance_decision-IsBalanced t (at tree) (n_nodes tree) o (at counts) bucket_size small _).0
        e,
  )

  abbrev Returns : Option (List ℕ × List ℕ) → Type 0
  Returns r =
      (tree : List ℕ) × (counts : List ℕ) × (r ≡ some (tree, counts))
      × IsResult t keys bucket_size max_count tree counts

  update_loop-Returns :
      (fuel : ℕ) (tree counts : List ℕ)
      → IsTree tree
      → IsCounted tree counts keys max_count
      → weight tree < fuel
      → Returns (update_loop t keys bucket_size max_count fuel tree counts)
  unfolding update_loop
  update_loop-Returns zero tree counts o c h = absurd (omega arith)
  update_loop-Returns (suc fuel) tree counts o c h =
      let step = update_octree t keys bucket_size tree counts max_count in
      let next =
        update_octree-IsCounted t keys bucket_size tree counts max_count up bounded few cap small
          o in
      elim (Bool-cases step.converged) [
        | inl done ↦
            let (same, balanced) = last_step tree counts o done in
            let counted = subst (λ x. IsCounted x step.counts keys max_count) same (next.1) in
            (
              tree,
              step.counts,
              rw (done, same) refl,
              record {
                octree = o;
                counted = counted;
                balanced = IsCounted-IsBalanced tree counts step.counts c counted balanced;
              },
            )
        | inr more ↦ rw more (
            update_loop-Returns fuel step.tree step.counts (next.0) (next.1)
              (omega (arith, weight-falls tree counts o c more)))
      ]

  abbrev root : List ℕ
  root = 0 ∷ 8 ^ max_tree_level t ∷ []

  root-IsOctree : IsTree root
  root-IsOctree =
      Tiles-IsOctree (Tiles-one (max_tree_level t, 0, omega arith, omega arith, omega arith))

  keys_in-le : (xs : List ℕ) (lo hi : ℕ) → keys_in xs lo hi ≤ length xs
  unfolding keys_in
  keys_in-le [] lo hi = omega arith
  keys_in-le (x ∷ xs) lo hi = ground (arith, keys_in-le xs lo hi)

  -- The first count of the root is not capped, but the root is kept or split all the same.
  root-IsBalanced :
      (counts : List ℕ)
      → IsCounted root counts keys max_count
      → IsBalanced t (at root) 1 (at (length keys ∷ [])) bucket_size
      → IsBalanced t (at root) 1 (at counts) bucket_size
  root-IsBalanced counts c balanced = record {
    split = λ i h.
        let only : i ≡ 0 = omega arith in
        rw only (elim (balanced.split 0 (omega arith)) [
          | inl fits ↦
              inl (omega (arith, c.count 0 (omega arith), keys_in-le keys (at root 0) (at root 1)))
          | inr one ↦ inr one
        ]);
    merge = λ g k v. absurd (omega (arith, v.inside));
  }

  -- compute_octree ends, and what it returns is an octree that is balanced and whose counts are,
  -- node by node, the number of keys in the node, or max_count if that is less. Fuel of two more
  -- than the square of the size of the key space is enough. The keys ascend, are at most the end
  -- of the key space and fewer than 2 ^ 32; max_count and 512 times the bucket size fit 32 bits.
  pub compute_octree-IsResult :
      (fuel : ℕ)
      → 8 ^ max_tree_level t * 8 ^ max_tree_level t + 1 < fuel
      → (tree : List ℕ) × (counts : List ℕ) × (compute_octree t keys bucket_size max_count fuel
          ≡ some (tree, counts))
        × IsResult t keys bucket_size max_count tree counts
  unfolding compute_octree update_loop
  compute_octree-IsResult zero h = absurd (omega arith)
  compute_octree-IsResult (suc fuel) h =
      let whole : node_range t 0 ≡ 8 ^ max_tree_level t =
        node_range-pow8 t 0 ∙ ap (λ (x : ℕ). 8 ^ x) (omega arith) in
      let all : u32 (length keys) ≡ length keys = omega arith in
      let first = length keys ∷ [] in
      let step = update_octree t keys bucket_size root first max_count in
      let next =
        update_octree-IsCounted t keys bucket_size root first max_count up bounded few cap small
          root-IsOctree in
      rw (whole, all)
        (elim (Bool-cases step.converged) [
          | inl done ↦
              let (same, balanced) = last_step root first root-IsOctree done in
              let counted = subst (λ x. IsCounted x step.counts keys max_count) same (next.1) in
              (
                root,
                step.counts,
                rw (done, same) refl,
                record {
                  octree = root-IsOctree;
                  counted = counted;
                  balanced = root-IsBalanced step.counts counted balanced;
                },
              )
          | inr more ↦ rw more (
              update_loop-Returns fuel step.tree step.counts (next.0) (next.1)
                (omega (arith, weight-lt step.tree (next.0))))
        ])
