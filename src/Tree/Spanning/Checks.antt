-- ===== src/Tree/Spanning/Checks.antt =====
-- What checkOctreeInvariants tests (tree/cs_util.hpp).
use native.Mathlib.Decide.{dec_lt, ℕ_discrete}
use sphexa.Base.{
  ℕ, zero, suc, ◌+◌, ◌-◌, ◌^◌, ◌≤◌, ◌<◌, ◌≡◌, ◌↔◌, refl, ap, subst, ◌∙◌, arith, Bool, true, false,
  ◌&&◌, not, leb, ltb, ◌==◌,
}
use sphexa.Base.Pow.{pow8_pos, pow8-le}
use sphexa.Key.{KeyType, max_tree_level, wrap_sub, wrap_sub_exact, key_space_lt}
use sphexa.Sfc.Node.{node_range, is_power_of_8}
use sphexa.Sfc.Node.Level.{node_range-pow8}
use sphexa.Sfc.Node.Power.{is_power_of_8_iff}
use sphexa.Tree.Cornerstone.{IsOctree, IsOctree-pos}
use sphexa.Tree.Cornerstone.Siblings.{tree-le}
use sphexa.Tree.Spanning.{check_nodes, check_octree_invariants}

-- A node as long as a cell of the octree.
abbrev pub IsLong : KeyType → ℕ → ℕ → Type 0
IsLong t a b = (k : ℕ) × (k ≤ max_tree_level t) × (b ≡ a + 8 ^ k)

module _ (t : KeyType) (tree : ℕ → ℕ) (n : ℕ) (ends : tree n ≡ 8 ^ max_tree_level t)
    (bounded : (i : ℕ) → i ≤ n → tree i ≤ 8 ^ max_tree_level t) where
  -- One round of the loop.
  abbrev passes : ℕ → Bool
  passes i =
      not (ltb (i + 1) n && leb (tree (i + 1)) (tree i))
      && not (wrap_sub t (tree (i + 1)) (tree i) == 0)
      && is_power_of_8 t (wrap_sub t (tree (i + 1)) (tree i))

  width :
      (i : ℕ)
      → i < n
      → tree i ≤ tree (i + 1)
      → wrap_sub t (tree (i + 1)) (tree i) ≡ tree (i + 1) - tree i
  width i h le =
      wrap_sub_exact t (tree (i + 1)) (tree i) le
        (omega (arith, key_space_lt t, bounded (i + 1) (omega arith)))

  -- The last node ends at the largest key, and the others are compared.
  passes-le : (i : ℕ) → i < n → passes i ≡ true → tree i ≤ tree (i + 1)
  passes-le i h e = elim (dec_lt (i + 1) n) [
    | yes inside ↦
        let compared : ltb (i + 1) n ≡ true = ground arith in
        let rises = rw compared at e in ground arith
    | no last ↦
        let same : i + 1 ≡ n = omega arith in omega (arith, bounded i (omega arith), ap tree same)
  ]

  passes-IsLong : (i : ℕ) → i < n → (passes i ≡ true) ↔ IsLong t (tree i) (tree (i + 1))
  passes-IsLong i h = (
    λ e.
        let le = passes-le i h e in
        let tested = rw (width i h le) at e in
        let d = tree (i + 1) - tree i in
        let power : is_power_of_8 t d ≡ true = ground arith in
        let some : 0 < d = ground arith in
        let (k, b, f) =
          (is_power_of_8_iff t d some (omega (arith, bounded (i + 1) (omega arith)))).0 power in
        (k, b, omega arith),
    λ (k, b, f).
        let exact : wrap_sub t (tree (i + 1)) (tree i) ≡ 8 ^ k =
          width i h (omega arith) ∙ omega arith in
        let power : is_power_of_8 t (8 ^ k) ≡ true =
          (is_power_of_8_iff t (8 ^ k) (pow8_pos k) (pow8-le k (max_tree_level t) b)).1
            (k, b, refl) in
        let some : (8 ^ k == 0) ≡ false = ground (arith, pow8_pos k) in
        let rises : leb (tree (i + 1)) (tree i) ≡ false = ground (arith, pow8_pos k) in
        rw (exact, power, some, rises) (ground arith),
  )

  check_nodes-suc :
      (left i : ℕ)
      → check_nodes t tree n (suc left) i ≡ (passes i && check_nodes t tree n left (i + 1))
  unfolding check_nodes
  check_nodes-suc left i = ground arith

  check_nodes_iff :
      (left i : ℕ)
      → i + left ≡ n
      → (check_nodes t tree n left i ≡ true)
        ↔ ((j : ℕ) → i ≤ j → j < n → IsLong t (tree j) (tree (j + 1)))
  check_nodes_iff zero i e = (λ _ j a b. absurd (omega arith), λ _. unfold check_nodes in refl)
  check_nodes_iff (suc left) i e =
      let (to, from) = check_nodes_iff left (i + 1) (omega arith) in
      let (long, passed) = passes-IsLong i (omega arith) in
      rw (check_nodes-suc left i) (
        λ f j a b. elim (ℕ_discrete i j) [
          | yes g ↦ subst (λ k. IsLong t (tree k) (tree (k + 1))) g (long (ground arith))
          | no ne ↦ to (ground arith) j (omega arith) b
        ],
        λ all.
            rw (passed (all i (omega arith) (omega arith))) (from (λ j a b. all j (omega arith) b)),
      )

-- check_octree_invariants returns true if and only if there is a node, the first key is 0, the
-- last key is the end of the key space, and the length of each node, from its key to the next
-- one, is the length of a cell of some level. No key is above the end of the key space.
pub check_octree_invariants_iff :
    (t : KeyType) (tree : ℕ → ℕ) (n : ℕ)
    → ((i : ℕ) → i ≤ n → tree i ≤ 8 ^ max_tree_level t)
    → (check_octree_invariants t tree n ≡ true) ↔ (
        (0 < n)
        × (tree 0 ≡ 0)
        × (tree n ≡ 8 ^ max_tree_level t)
        × ((i : ℕ) → i < n → IsLong t (tree i) (tree (i + 1))))
unfolding check_octree_invariants
check_octree_invariants_iff t tree n bounded =
    let top : node_range t 0 ≡ 8 ^ max_tree_level t =
      node_range-pow8 t 0
      ∙ (let e : max_tree_level t - 0 ≡ max_tree_level t = omega arith in rw e refl) in
    rw top (
      λ e.
          let some : 0 < n = ground arith in
          let starts : tree 0 ≡ 0 = ground arith in
          let ends : tree n ≡ 8 ^ max_tree_level t = ground arith in
          let nodes : check_nodes t tree n n 0 ≡ true = ground arith in
          let (to, from) = check_nodes_iff t tree n ends bounded n 0 (omega arith) in
          (some, starts, ends, λ i h. to nodes i (omega arith) h),
      λ (some, starts, ends, all).
          let (to, from) = check_nodes_iff t tree n ends bounded n 0 (omega arith) in
          let nodes : check_nodes t tree n n 0 ≡ true = from (λ j a b. all j b) in ground arith,
    )

-- All octrees of this development are accepted.
pub check_octree_invariants-IsOctree :
    (t : KeyType) (tree : ℕ → ℕ) (n : ℕ)
    → IsOctree t tree n
    → check_octree_invariants t tree n ≡ true
check_octree_invariants-IsOctree t tree n o =
    (check_octree_invariants_iff t tree n (λ i h.
        omega (arith, o.ends, tree-le t tree n o i (n - i) n (omega arith) (omega arith)))).1
      (IsOctree-pos o, o.starts, o.ends, λ i h. let (k, q, b, f, g) = o.node i h in (k, b, g))
