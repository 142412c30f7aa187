-- ===== src/Focus/Inject/Octree.antt =====
-- What injectKeys leaves is an octree (domain/include/cstone/focus/inject.hpp).
use native.Mathlib.Decide.{dec_lt}
use native.Mathlib.Numerals.{add-one}
use sphexa.Base.{
  ℕ, suc, ◌-◌, ◌^◌, ◌≤◌, ◌<◌, ◌≡◌, ◌↔◌, ◌⊎◌, inl, inr, refl, ap, ◌∙◌, arith, List, [], ◌∷◌, ◌++◌,
  length, subst,
}
use sphexa.Base.Pow.{pow8_pos}
use sphexa.Key.{KeyType, max_tree_level, n_nodes}
use sphexa.Sfc.Node.{node_range}
use sphexa.Sfc.Node.Level.{node_range-pow8}
use sphexa.Primitives.Search.{at}
use sphexa.Primitives.Sort.{
  In, In-at, at-In, In-append, Above-step, Above-le, unique-sort-Ordered, Ordered-first,
  Ordered-end, sort, unique,
}
use sphexa.Tree.Cornerstone.{IsOctree, IsOctree-length}
use sphexa.Tree.Cornerstone.Siblings.{tree-le}
use sphexa.Tree.Cornerstone.Union.{IsBoundary, union-IsNode}
use sphexa.Tree.Spanning.{compute_spanning_tree}
use sphexa.Tree.Spanning.Cover.{compute_spanning_tree-IsOctree}
use sphexa.Focus.Inject.{inject_keys}

module _ (t : KeyType) where
  abbrev IsTree : List ℕ → Type 0
  IsTree tree = IsOctree t (at tree) (n_nodes tree)

  abbrev top : ℕ
  top = 8 ^ max_tree_level t

  In-IsBoundary : (tree : List ℕ) (z : ℕ) → In z tree → IsBoundary (at tree) (n_nodes tree) z
  In-IsBoundary tree z h = let (i, b, e) = In-at z tree h in (i, omega arith, e)

  IsBoundary-In :
      (tree : List ℕ) (z : ℕ) → IsTree tree → IsBoundary (at tree) (n_nodes tree) z → In z tree
  IsBoundary-In tree z o (i, b, e) =
      subst (λ w. In w tree) e (at-In tree i (omega (arith, IsOctree-length tree o)))

  In-top : (tree : List ℕ) → IsTree tree → (z : ℕ) → In z tree → z ≤ top
  In-top tree o z h =
      let (i, b, e) = In-IsBoundary tree z h in
      omega (
        arith,
        o.ends,
        tree-le t (at tree) (n_nodes tree) o i (n_nodes tree - i) (n_nodes tree) (omega arith)
            (omega arith),
      )

  -- All boundaries of two octrees, in order, are an octree.
  pub union-IsOctree : (a b : List ℕ) → IsTree a → IsTree b → IsTree (unique (sort (a ++ b)))
  union-IsOctree a b oa ob =
      let from = λ (z : ℕ). In-append z a b in
      let first : In 0 (a ++ b) =
        (from 0).1 (inl (IsBoundary-In a 0 oa (0, omega arith, oa.starts))) in
      let last : In top (a ++ b) =
        (from top).1 (inl (IsBoundary-In a top oa (n_nodes a, omega arith, oa.ends))) in
      let o = unique-sort-Ordered 0 (a ++ b) first in
      let bounded : (z : ℕ) → In z (a ++ b) → z ≤ top =
        λ z h. elim ((from z).0 h) [ inl g ↦ In-top a oa z g | inr g ↦ In-top b ob z g ] in
      let least : (z : ℕ) → In z (a ++ b) → 0 ≤ z = λ z h. omega arith in
      let union = o.head ∷ o.rest in
      let boundary : (z : ℕ)
          → In z union
          → IsBoundary (at a) (n_nodes a) z ⊎ IsBoundary (at b) (n_nodes b) z =
        λ z h. elim ((from z).0 ((o.same z).0 h)) [
          | inl g ↦ inl (In-IsBoundary a z g)
          | inr g ↦ inr (In-IsBoundary b z g)
        ] in
      let back : (z : ℕ)
          → IsBoundary (at a) (n_nodes a) z ⊎ IsBoundary (at b) (n_nodes b) z
          → In z union =
        λ z h. (o.same z).1 (
          (from z).1 (elim h [
            | inl g ↦ inl (IsBoundary-In a z oa g)
            | inr g ↦ inr (IsBoundary-In b z ob g)
          ])) in
      rw (o.result) (record {
        starts = Ordered-first (a ++ b) _ o 0 top first last least bounded;
        ends = Ordered-end (a ++ b) _ o 0 top first last least bounded;
        node = λ i h. rw (add-one i) (
            union-IsNode t (at a) (at b) (n_nodes a) (n_nodes b) oa ob (at union i)
              (at union (suc i)) (boundary _ (at-In union i (omega arith)))
              (boundary _ (at-In union (suc i) (omega arith)))
              (Above-step o.head o.rest i o.ascends (omega arith))
              (λ z g.
                let (j, c, e) = In-at z union (back z g) in
                elim (dec_lt i j) [
                  | no before ↦ inl (
                      omega (
                        arith,
                        Above-le o.head o.rest o.ascends (i - j) j i (omega arith) (omega arith),
                      ))
                  | yes behind ↦ inr (
                      omega (
                        arith,
                        Above-le o.head o.rest o.ascends (j - suc i) (suc i) j (omega arith)
                            (omega arith),
                      ))
                ]));
      })

  In-union :
      (a b : List ℕ) (z w : ℕ) → In w (a ++ b) → In z (a ++ b) ↔ In z (unique (sort (a ++ b)))
  In-union a b z w h =
      let o = unique-sort-Ordered w (a ++ b) h in
      rw (o.result) (λ g. (o.same z).1 g, λ g. (o.same z).0 g)

  -- inject_keys of an octree is an octree that has all node boundaries of the old one and one at
  -- each of the given keys. The keys are at most the end of the key space, in any order.
  pub inject_keys-IsOctree :
      (tree keys : List ℕ)
      → IsOctree t (at tree) (n_nodes tree)
      → ((z : ℕ) → In z keys → z ≤ 8 ^ max_tree_level t)
      → let new = inject_keys t tree keys in
        IsOctree t (at new) (n_nodes new)
        × ((z : ℕ) → In z tree → In z new)
        × ((z : ℕ) → In z keys → In z new)
  unfolding inject_keys
  inject_keys-IsOctree tree keys o bounded =
      let whole : node_range t 0 ≡ top =
        node_range-pow8 t 0 ∙ ap (λ (x : ℕ). 8 ^ x) (omega arith) in
      let us = (keys ++ 0 ∷ []) ++ top ∷ [] in
      let from = λ (z : ℕ). In-append z (keys ++ 0 ∷ []) (top ∷ []) in
      let from' = λ (z : ℕ). In-append z keys (0 ∷ []) in
      let has_start : In 0 us = (from 0).1 (inl ((from' 0).1 (inr (inl refl)))) in
      let has_end : In top us = (from top).1 (inr (inl refl)) in
      let s = unique-sort-Ordered 0 us has_start in
      let least : (z : ℕ) → In z us → 0 ≤ z = λ z h. omega arith in
      let greatest : (z : ℕ) → In z us → z ≤ top = λ z h. elim ((from z).0 h) [
        | inr g ↦ elim g [ inl e ↦ omega arith | inr k ↦ absurd k ]
        | inl g ↦ elim ((from' z).0 g) [
          | inl k ↦ bounded z k
          | inr k ↦ elim k [ inl e ↦ omega arith | inr l ↦ absurd l ]
        ]
      ] in
      let spanning = s.head ∷ s.rest in
      let start = Ordered-first us _ s 0 top has_start has_end least greatest in
      let end = Ordered-end us _ s 0 top has_start has_end least greatest in
      let two : 0 < length s.rest = some_rest s.rest start end in
      let (span, has) = compute_spanning_tree-IsOctree t spanning (omega arith) start end (λ j h.
        rw (add-one j) (omega (arith, Above-step s.head s.rest j s.ascends (omega arith)))) in
      let tree' = compute_spanning_tree t spanning in
      let filled : In 0 (tree ++ tree') =
        (In-append 0 tree tree').1 (inl (IsBoundary-In tree 0 o (0, omega arith, o.starts))) in
      rw (whole, s.result)
        (
          union-IsOctree tree tree' o span,
          λ z h. (In-union tree tree' z 0 filled).0 ((In-append z tree tree').1 (inl h)),
          λ z h.
              let (j, b, e) =
                In-at z spanning ((s.same z).1 ((from z).1 (inl ((from' z).1 (inl h))))) in
              let (i, c, f) = has j b in
              (In-union tree tree' z 0 filled).0
                ((In-append z tree tree').1 (inr (IsBoundary-In tree' z span (i, c, f ∙ e)))),
        )
    where
      some_rest :
          {x : ℕ} (xs : List ℕ)
          → at (x ∷ xs) 0 ≡ 0
          → at (x ∷ xs) (length (x ∷ xs) - 1) ≡ 8 ^ max_tree_level t
          → 0 < length xs
      some_rest {x} [] e f = absurd (omega (arith, e, f, pow8_pos (max_tree_level t)))
      some_rest (y ∷ xs) e f = omega arith
