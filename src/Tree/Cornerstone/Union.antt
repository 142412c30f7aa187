-- ===== src/Tree/Cornerstone/Union.antt =====
-- The cells between the boundaries of two octrees: nodes of one octree or the other, since cells
-- are nested or disjoint.
use native.Mathlib.Decide.{dec_lt}
use native.Mathlib.Nat.{mul_assoc, add-mul}
use sphexa.Base.{
  ℕ, zero, suc, ◌+◌, ◌-◌, ◌*◌, ◌^◌, ◌≤◌, ◌<◌, ◌≡◌, ◌⊎◌, inl, inr, refl, ap, sym, ◌∙◌, arith,
  mul-le-mul, lt_of_mul-lt,
}
use sphexa.Base.Pow.{pow8-split}
use sphexa.Key.{KeyType, max_tree_level}
use sphexa.Tree.Cornerstone.{IsNode, IsOctree}
use sphexa.Tree.Cornerstone.Siblings.{tree-le}

-- The key starts a node, or ends the last.
abbrev pub IsBoundary : (ℕ → ℕ) → ℕ → ℕ → Type 0
IsBoundary tree n x = (i : ℕ) × (i ≤ n) × (tree i ≡ x)

-- A node that a key lies in.
abbrev Holds : (ℕ → ℕ) → ℕ → ℕ → Type 0
Holds tree n x = (i : ℕ) × (i < n) × (tree i ≤ x) × (x < tree (i + 1))

Holds-from :
    (tree : ℕ → ℕ) (n x : ℕ) → x < tree n → (m i : ℕ) → i + m ≡ n → tree i ≤ x → Holds tree n x
Holds-from tree n x h zero i e a = absurd (omega (arith, ap tree {x = i} {y = n} (omega arith)))
Holds-from tree n x h (suc m) i e a = elim (dec_lt x (tree (i + 1))) [
  | yes here ↦ (i, omega arith, a, here)
  | no later ↦ Holds-from tree n x h m (i + 1) (omega arith) (omega arith)
]

-- Of two cells that share a key, the smaller lies in the larger.
nested :
    (p q k l x : ℕ)
    → k ≤ l
    → p * 8 ^ k ≤ x
    → x < p * 8 ^ k + 8 ^ k
    → q * 8 ^ l ≤ x
    → x < q * 8 ^ l + 8 ^ l
    → (q * 8 ^ l ≤ p * 8 ^ k) × (p * 8 ^ k + 8 ^ k ≤ q * 8 ^ l + 8 ^ l)
nested p q k l x h a b c d =
    let r = 8 ^ (l - k) in
    let w = 8 ^ k in
    let size : 8 ^ l ≡ r * w = pow8-split k l h in
    let from : q * 8 ^ l ≡ q * r * w = ap (λ (y : ℕ). q * y) size ∙ sym (mul_assoc q r w) in
    let lower : q * r < p + 1 = lt_of_mul-lt (q * r) (p + 1) w (omega (arith, add-mul p 1 w)) in
    let upper : p < q * r + r = lt_of_mul-lt p (q * r + r) w (omega (arith, add-mul (q * r) r w)) in
    (
      omega (arith, mul-le-mul (q * r) p w (omega arith)),
      omega (
        arith,
        mul-le-mul (p + 1) (q * r + r) w (omega arith),
        add-mul p 1 w,
        add-mul (q * r) r w,
      ),
    )

module _ (t : KeyType) where
  -- A boundary within a node is its start; one behind it is not before its end.
  boundary_start :
      (tree : ℕ → ℕ) (n : ℕ)
      → IsOctree t tree n
      → (x i : ℕ) → i < n
      → tree i ≤ x
      → x < tree (i + 1)
      → IsBoundary tree n x
      → x ≡ tree i
  boundary_start tree n o x i h a b (j, c, e) = elim (dec_lt i j) [
    | yes above ↦ absurd (omega (arith, tree-le t tree n o (i + 1) (j - (i + 1)) j (omega arith) c))
    | no below ↦ omega (arith, tree-le t tree n o j (i - j) i (omega arith) (omega arith))
  ]

  boundary_end :
      (tree : ℕ → ℕ) (n : ℕ)
      → IsOctree t tree n
      → (y i : ℕ) → i < n
      → tree i < y
      → IsBoundary tree n y
      → tree (i + 1) ≤ y
  boundary_end tree n o y i h a (j, c, e) = elim (dec_lt i j) [
    | yes above ↦ omega (arith, tree-le t tree n o (i + 1) (j - (i + 1)) j (omega arith) c)
    | no below ↦ absurd (omega (arith, tree-le t tree n o j (i - j) i (omega arith) (omega arith)))
  ]

  -- The case in which the cell of the first octree is the smaller.
  smaller_cell :
      (a b : ℕ → ℕ) (m n : ℕ)
      → IsOctree t a m
      → IsOctree t b n
      → (x y i j k l p q : ℕ) → k ≤ l
      → k ≤ max_tree_level t
      → i < m
      → j < n
      → a i ≡ p * 8 ^ k
      → a (i + 1) ≡ a i + 8 ^ k
      → b j ≡ q * 8 ^ l
      → b (j + 1) ≡ b j + 8 ^ l
      → a i ≤ x
      → x < a (i + 1)
      → b j ≤ x
      → x < b (j + 1)
      → IsBoundary a m x ⊎ IsBoundary b n x
      → x < y
      → IsBoundary a m y ⊎ IsBoundary b n y
      → (a (i + 1) ≤ x) ⊎ (y ≤ a (i + 1))
      → IsNode t x y
  smaller_cell a b m n oa ob x y i j k l p q h top hi hj ea fa eb fb c d c' d' bx less by next =
      let (low, high) =
        nested p q k l x h (omega arith) (omega arith) (omega arith) (omega arith) in
      let start : x ≡ a i = elim bx [
        | inl g ↦ boundary_start a m oa x i hi c d g
        | inr g ↦ omega (arith, boundary_start b n ob x j hj c' d' g)
      ] in
      let past : a (i + 1) ≤ y = elim by [
        | inl g ↦ boundary_end a m oa y i hi (omega arith) g
        | inr g ↦ omega (arith, boundary_end b n ob y j hj (omega arith) g)
      ] in
      let stop : y ≡ a (i + 1) = elim next [ inl g ↦ absurd (omega arith) | inr g ↦ omega arith ] in
      (k, p, top, start ∙ ea, omega arith)

  -- Two neighbours among the boundaries of two octrees bound a cell.
  pub union-IsNode :
      (a b : ℕ → ℕ) (m n : ℕ)
      → IsOctree t a m
      → IsOctree t b n
      → (x y : ℕ) → IsBoundary a m x ⊎ IsBoundary b n x
      → IsBoundary a m y ⊎ IsBoundary b n y
      → x < y
      → ((z : ℕ) → IsBoundary a m z ⊎ IsBoundary b n z → (z ≤ x) ⊎ (y ≤ z))
      → IsNode t x y
  union-IsNode a b m n oa ob x y bx by less next =
      let within : y ≤ 8 ^ max_tree_level t = elim by [
        | inl (j, c, e) ↦
            omega (arith, oa.ends, tree-le t a m oa j (m - j) m (omega arith) (omega arith))
        | inr (j, c, e) ↦
            omega (arith, ob.ends, tree-le t b n ob j (n - j) n (omega arith) (omega arith))
      ] in
      let (i, hi, c, d) =
        Holds-from a m x (omega (arith, oa.ends)) m 0 (omega arith) (omega (arith, oa.starts)) in
      let (j, hj, c', d') =
        Holds-from b n x (omega (arith, ob.ends)) n 0 (omega arith) (omega (arith, ob.starts)) in
      let (k, p, top, ea, fa) = oa.node i hi in
      let (l, q, top', eb, fb) = ob.node j hj in
      elim (dec_lt l k) [
        | no small ↦
            smaller_cell a b m n oa ob x y i j k l p q (omega arith) top hi hj ea fa eb fb c d c' d'
              bx less by (next (a (i + 1)) (inl (i + 1, omega arith, refl)))
        | yes small ↦
            smaller_cell b a n m ob oa x y j i l k q p (omega arith) top' hj hi eb fb ea fa c' d' c
              d (flip bx) less (flip by) (next (b (j + 1)) (inr (j + 1, omega arith, refl)))
      ]
    where
      flip : {z : ℕ} → IsBoundary a m z ⊎ IsBoundary b n z → IsBoundary b n z ⊎ IsBoundary a m z
      flip (inl g) = inr g
      flip (inr g) = inl g
