-- ===== src/Focus/Rebalance/Ancestors.antt =====
-- protectAncestors (focus/rebalance.hpp), whose loop reads the array of operations while it writes
-- it.
use native.Mathlib.Decide.{ℕ_discrete}
use sphexa.Base.{
  ℕ, zero, suc, ◌+◌, ◌-◌, ◌/◌, ◌≤◌, ◌<◌, ◌≡◌, ◌≢◌, refl, ap, sym, ◌∙◌, arith, ◌⊎◌, inl, inr, true,
  false, List, length, set, length-set, get_or-set_self, get_or-set_ne, ◌==◌, if◌then◌else◌,
}
use sphexa.Key.{KeyType}
use sphexa.Sfc.Prefix.{decode_placeholder_bit}
use sphexa.Primitives.Search.{at}
use sphexa.Focus.Rebalance.{closest_nz, nz_ancestor_op, protect_loop, protect_ancestors}

module _ (t : KeyType) (prefixes parents : ℕ → ℕ)
    (above : (i : ℕ) → 0 < i → parents ((i - 1) / 8) < i) where
  abbrev start : ℕ → ℕ
  start i = decode_placeholder_bit t (prefixes i)

  abbrev parent : ℕ → ℕ
  parent i = parents ((i - 1) / 8)

  closest_nz-fuel :
      (ops : ℕ → ℕ) (f g x : ℕ)
      → ops 0 ≢ 0
      → x ≤ f
      → x ≤ g
      → closest_nz parents ops f x ≡ closest_nz parents ops g x
  unfolding closest_nz
  closest_nz-fuel ops zero zero x r a b = refl
  closest_nz-fuel ops zero (suc g) x r a b =
      let z : x ≡ 0 = omega arith in let e : (ops 0 == 0) ≡ false = ground arith in rw (z, e)
  closest_nz-fuel ops (suc f) zero x r a b =
      let z : x ≡ 0 = omega arith in let e : (ops 0 == 0) ≡ false = ground arith in rw (z, e)
  closest_nz-fuel ops (suc f) (suc g) x r a b = elim (ℕ_discrete (ops x) 0) [
    | no nz ↦ let e : (ops x == 0) ≡ false = ground arith in rw e
    | yes z ↦
        let e : (ops x == 0) ≡ true = ground arith in
        let p : 0 < x = elim (ℕ_discrete x 0) [
          | yes w ↦ absurd (r (ap ops (sym w) ∙ z))
          | no w ↦ omega arith
        ] in
        rw e (
          closest_nz-fuel ops f g (parent x) r (omega (arith, above x p))
            (omega (arith, above x p)))
  ]

  -- The operation that node `i` gets from the closest ancestor of node `x`.
  found : (ℕ → ℕ) → ℕ → ℕ → ℕ
  found ops x i =
      if start i == start (closest_nz parents ops x x) then ops (closest_nz parents ops x x) else 0

  found-kept :
      (ops : ℕ → ℕ) (x i : ℕ)
      → ops x ≢ 0
      → found ops x i ≡ (if start i == start x then ops x else 0)
  unfolding found closest_nz
  found-kept ops zero i nz = refl
  found-kept ops (suc x) i nz = let e : (ops (suc x) == 0) ≡ false = ground arith in rw e

  found-parent :
      (ops : ℕ → ℕ) (x i : ℕ)
      → ops 0 ≢ 0
      → ops x ≡ 0
      → (0 < x) × (found ops x i ≡ found ops (parent x) i)
  unfolding found closest_nz
  found-parent ops zero i r z = absurd (r z)
  found-parent ops (suc x) i r z =
      let e : (ops (suc x) == 0) ≡ true = ground arith in
      let p = above (suc x) (omega arith) in
      (
        omega arith,
        rw (
          e,
          closest_nz-fuel ops x (parent (suc x)) (parent (suc x)) r (omega arith) (omega arith),
        ),
      )

  nz_ancestor_op-found :
      (ops : ℕ → ℕ) (i : ℕ) → nz_ancestor_op t i prefixes parents ops ≡ found ops i i
  unfolding nz_ancestor_op found closest_nz
  nz_ancestor_op-found ops zero = let e : (start 0 == start 0) ≡ true = ground arith in rw e
  nz_ancestor_op-found ops (suc i) = let e : (suc i == 0) ≡ false = ground arith in rw e

  found_self : (ops : ℕ → ℕ) (x : ℕ) → ops x ≢ 0 → found ops x x ≡ ops x
  found_self ops x nz =
      let e : (start x == start x) ≡ true = ground arith in found-kept ops x x nz ∙ rw e refl

  -- If some operations are replaced by what their nodes get, then all nodes get what they got.
  module _ (ops ops' : ℕ → ℕ) (root : ops 0 ≢ 0) (root' : ops' 0 ≢ 0)
      (mixed : (j : ℕ) → (ops' j ≡ ops j) ⊎ (ops' j ≡ found ops j j)) where
    replaced :
        (x i : ℕ)
        → ops' x ≡ found ops x x
        → ops' x ≢ 0
        → (if start i == start x then ops' x else 0) ≡ found ops x i
    unfolding found
    replaced x i e nz = elim (ℕ_discrete (start x) (start (closest_nz parents ops x x))) [
      | no ne ↦
          let f : (start x == start (closest_nz parents ops x x)) ≡ false = ground arith in
          absurd (nz (e ∙ rw f refl))
      | yes same ↦
          let f : (start x == start (closest_nz parents ops x x)) ≡ true = ground arith in
          rw (same, rw f at e) refl
    ]

    one_step :
        (x i : ℕ)
        → (0 < x → found ops' (parent x) i ≡ found ops (parent x) i)
        → found ops' x i ≡ found ops x i
    one_step x i ih = elim (ℕ_discrete (ops x) 0) [
      | no nz ↦
          let kept : ops' x ≡ ops x = elim (mixed x) [
            | inl e ↦ e
            | inr e ↦ e ∙ found_self ops x nz
          ] in
          found-kept ops' x i (λ z. nz (sym kept ∙ z))
          ∙ ap (λ (y : ℕ). if start i == start x then y else 0) kept
          ∙ sym (found-kept ops x i nz)
      | yes z ↦ elim (ℕ_discrete (ops' x) 0) [
        | yes z' ↦
            let (p, e) = found-parent ops x i root z in
            let (_, e') = found-parent ops' x i root' z' in e' ∙ ih p ∙ sym e
        | no nz' ↦
            let new : ops' x ≡ found ops x x = elim (mixed x) [
              | inl e ↦ absurd (nz' (e ∙ z))
              | inr e ↦ e
            ] in
            found-kept ops' x i nz' ∙ replaced x i new nz'
      ]
    ]

    found-replaced : (f x i : ℕ) → x ≤ f → found ops' x i ≡ found ops x i
    found-replaced zero x i b = one_step x i (λ p. absurd (omega arith))
    found-replaced (suc f) x i b =
        one_step x i (λ p. found-replaced f (parent x) i (omega (arith, above x p)))

  -- The loop, where the nodes before `i` may have got their operations already.
  module _ (ops : ℕ → ℕ) (root : ops 0 ≢ 0) where
    Mixed : List ℕ → Type 0
    Mixed xs = (j : ℕ) → (at xs j ≡ ops j) ⊎ (at xs j ≡ found ops j j)

    start-Mixed : (xs : List ℕ) → ((j : ℕ) → at xs j ≡ ops j) → Mixed xs
    unfolding Mixed
    start-Mixed xs e j = inl (e j)

    root_kept : (xs : List ℕ) → Mixed xs → at xs 0 ≢ 0
    unfolding Mixed
    root_kept xs m z = elim (m 0) [
      | inl e ↦ root (sym e ∙ z)
      | inr e ↦ root (sym (found_self ops 0 root) ∙ sym e ∙ z)
    ]

    op_now :
        (xs : List ℕ) (i : ℕ)
        → Mixed xs
        → nz_ancestor_op t i prefixes parents (at xs) ≡ found ops i i
    unfolding Mixed
    op_now xs i m =
        nz_ancestor_op-found (at xs) i
        ∙ found-replaced ops (at xs) root (root_kept xs m) m i i i (omega arith)

    Mixed-set : (xs : List ℕ) (i : ℕ) → i < length xs → Mixed xs → Mixed (set xs i (found ops i i))
    unfolding Mixed
    Mixed-set xs i h m j = elim (ℕ_discrete i j) [
      | yes e ↦ inr (
          ap (at (set xs i (found ops i i))) (sym e)
          ∙ get_or-set_self xs i (found ops i i) 0 h
          ∙ ap (λ (x : ℕ). found ops x x) e)
      | no ne ↦
          let kept = get_or-set_ne xs i j (found ops i i) 0 ne in
          elim (m j) [ inl e ↦ inl (kept ∙ e) | inr e ↦ inr (kept ∙ e) ]
    ]

    protect_loop-before :
        (left i j : ℕ) (xs : List ℕ) (k : ℕ)
        → j < i
        → at (protect_loop t prefixes parents left i xs k).0 j ≡ at xs j
    unfolding protect_loop
    protect_loop-before zero i j xs k h = refl
    protect_loop-before (suc left) i j xs k h =
        protect_loop-before left (i + 1) j _ _ (omega arith)
        ∙ get_or-set_ne xs i j (nz_ancestor_op t i prefixes parents (at xs)) 0 (omega arith)

    protect_loop-found :
        (left i j : ℕ) (xs : List ℕ) (k : ℕ)
        → Mixed xs
        → i ≤ j
        → j < i + left
        → i + left ≤ length xs
        → at (protect_loop t prefixes parents left i xs k).0 j ≡ found ops j j
    unfolding protect_loop
    protect_loop-found zero i j xs k m a b c = absurd (omega arith)
    protect_loop-found (suc left) i j xs k m a b c =
        let after : (d c : ℕ)
            → d ≡ found ops i i
            → at (protect_loop t prefixes parents left (i + 1) (set xs i d) c).0 j ≡ found ops j j =
          λ d c' e. rw e (elim (ℕ_discrete i j) [
            | yes f ↦
                ap
                  (at
                    (protect_loop t prefixes parents left (i + 1) (set xs i (found ops i i)) c').0)
                  (sym f)
                ∙ protect_loop-before left (i + 1) i _ _ (omega arith)
                ∙ get_or-set_self xs i (found ops i i) 0 (omega arith)
                ∙ ap (λ (x : ℕ). found ops x x) f
            | no ne ↦
                protect_loop-found left (i + 1) j (set xs i (found ops i i)) c'
                  (Mixed-set xs i (omega arith) m) (omega arith) (omega arith)
                  (omega (arith, length-set xs i (found ops i i)))
          ]) in
        after _ _ (op_now xs i m)

-- protect_ancestors, which reads the operations while it overwrites them, leaves each node the
-- operation that nz_ancestor_op finds in the operations as they were at the start. A parent
-- comes before its children, and the root is not to be merged.
pub protect_ancestors-nz_ancestor_op :
    (t : KeyType) (prefixes parents : ℕ → ℕ) (node_ops : List ℕ) (i : ℕ)
    → ((j : ℕ) → 0 < j → parents ((j - 1) / 8) < j)
    → at node_ops 0 ≢ 0
    → i < length node_ops
    → at (protect_ancestors t (length node_ops) prefixes parents node_ops).0 i
      ≡ nz_ancestor_op t i prefixes parents (at node_ops)
unfolding protect_ancestors
protect_ancestors-nz_ancestor_op t prefixes parents node_ops i above root h =
    protect_loop-found t prefixes parents above (at node_ops) root (length node_ops) 0 i node_ops 0
      (start-Mixed t prefixes parents above (at node_ops) root node_ops (λ j. refl)) (omega arith)
      (omega arith) (omega arith)
    ∙ sym (nz_ancestor_op-found t prefixes parents above (at node_ops) i)
