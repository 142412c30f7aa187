-- ===== src/Traversal/Single.antt =====
-- singleTraversal without the way back: a recursive descent (traversal/traversal.hpp).
use mathlib.Core.List.{append_assoc, append-nil}
use native.Mathlib.Nat.{add-zero, add_assoc}
use native.Mathlib.Numerals.{one-add}
use sphexa.Base.{
  ℕ, suc, ◌+◌, ◌-◌, ◌*◌, ◌/◌, ◌%◌, ◌≤◌, ◌<◌, ◌≡◌, ◌≢◌, refl, ◌∙◌, arith, inl, inr, Bool, true,
  false, Bool-cases, Option, some, List, [], ◌∷◌, ◌++◌, ◌==◌, if◌then◌else◌,
}
use sphexa.Traversal.{Cursor, next_cursor, traversal_loop, single_traversal}

-- The shape of an octree, and the nodes below one.
mutual
  pub data Shape : Type 0 where
    leaf : Shape
    inner : Shapes → Shape

  pub data Shapes : Type 0 where
    end : Shapes
    next : Shape → Shapes → Shapes

-- The number of nodes.
unfoldable mutual
  pub size : Shape → ℕ
  size leaf = 1
  size (inner s) = suc (sizes s)

  pub sizes : Shapes → ℕ
  sizes end = 0
  sizes (next s r) = size s + sizes r

module _ (child_offsets parents : ℕ → ℕ) where
  -- The node `i` and all below it are linked to children and parents as the shape says: eight
  -- siblings in a row, from a place that is 1 modulo 8.
  abbrev mutual
    pub Linked : ℕ → Shape → Type 0
    Linked i leaf = child_offsets i ≡ 0
    Linked i (inner s) =
        (child_offsets i ≢ 0)
        × ((child_offsets i - 1) % 8 ≡ 0)
        × (parents ((child_offsets i - 1) / 8) ≡ i)
        × LinkedFrom (child_offsets i) 8 s

    pub LinkedFrom : ℕ → ℕ → Shapes → Type 0
    LinkedFrom i left end = left ≡ 0
    LinkedFrom i left (next s r) = (0 < left) × Linked i s × LinkedFrom (i + 1) (left - 1) r

  module _ (continuation : ℕ → Bool) where
    -- The leaves below `i` that are reached: those all whose ancestors, and themselves, satisfy
    -- the criterion.
    unfoldable mutual
      pub reached : ℕ → Shape → List ℕ
      reached i leaf = if continuation i then i ∷ [] else []
      reached i (inner s) = if continuation i then reached_from (child_offsets i) s else []

      pub reached_from : ℕ → Shapes → List ℕ
      reached_from i end = []
      reached_from i (next s r) = reached i s ++ reached_from (i + 1) r

    -- Rounds of the loop.
    mutual
      rounds : ℕ → Shape → ℕ
      rounds i leaf = 1
      rounds i (inner s) = if continuation i then suc (suc (rounds_from (child_offsets i) s)) else 1

      rounds_from : ℕ → Shapes → ℕ
      rounds_from i end = 0
      rounds_from i (next s r) = rounds i s + rounds_from (i + 1) r

    abbrev loop : ℕ → Cursor → List ℕ → Option (List ℕ)
    loop = traversal_loop child_offsets parents continuation

    abbrev at_node : ℕ → Cursor
    at_node i = record { node = i; backtrack = false }

    abbrev back_at : ℕ → Cursor
    back_at i = record { node = i; backtrack = true }

    abbrev behind : ℕ → Cursor
    behind i = next_cursor child_offsets parents i false

    -- One round, at a node that is skipped, a leaf that is reached, and an inner node.
    skip :
        (i fuel : ℕ) (found : List ℕ)
        → i ≢ 0
        → continuation i ≡ false
        → loop (suc fuel) (at_node i) found ≡ loop fuel (behind i) found
    unfolding traversal_loop
    skip i fuel found nz h = ground arith

    come_back :
        (i fuel : ℕ) (found : List ℕ)
        → i ≢ 0
        → loop (suc fuel) (back_at i) found ≡ loop fuel (behind i) found
    unfolding traversal_loop
    come_back i fuel found nz = ground arith

    reach :
        (i fuel : ℕ) (found : List ℕ)
        → i ≢ 0
        → child_offsets i ≡ 0
        → continuation i ≡ true
        → loop (suc fuel) (at_node i) found ≡ loop fuel (behind i) (found ++ i ∷ [])
    unfolding traversal_loop next_cursor
    reach i fuel found nz z h = ground arith

    descend :
        (i fuel : ℕ) (found : List ℕ)
        → i ≢ 0
        → child_offsets i ≢ 0
        → continuation i ≡ true
        → loop (suc fuel) (at_node i) found ≡ loop fuel (at_node (child_offsets i)) found
    unfolding traversal_loop next_cursor
    descend i fuel found nz z h = ground arith

    behind-sibling : (i : ℕ) → (i - 1) % 8 < 7 → behind i ≡ at_node (i + 1)
    unfolding next_cursor
    behind-sibling i h = ground arith

    behind-last : (i : ℕ) → (i - 1) % 8 ≡ 7 → behind i ≡ back_at (parents ((i - 1) / 8))
    unfolding next_cursor
    behind-last i h = ground arith

    -- The loop goes through the nodes below `i` and on to what is behind it.
    mutual
      unfolding rounds rounds_from reached reached_from

      through :
          (i : ℕ) (s : Shape) (rest : ℕ) (found : List ℕ)
          → i ≢ 0
          → Linked i s
          → loop (rounds i s + rest) (at_node i) found ≡ loop rest (behind i) (found ++ reached i s)
      through i leaf rest found nz z = elim (Bool-cases (continuation i)) [
        | inl h ↦ rw (h, one-add rest) (reach i rest found nz z h)
        | inr h ↦ rw (h, one-add rest, append-nil) (skip i rest found nz h)
      ]
      through i (inner s) rest found nz (some_child, aligned, up, below) =
          elim (Bool-cases (continuation i)) [
            | inr h ↦ rw (h, one-add rest, append-nil) (skip i rest found nz h)
            | inl h ↦
                let c = child_offsets i in
                let more : suc (suc (rounds_from c s)) + rest ≡ suc (rounds_from c s + suc rest) =
                  omega arith in
                let first : (c - 1 + 0) % 8 ≡ 0 = omega arith in
                rw (h, more)
                  (descend i (rounds_from c s + suc rest) found nz some_child h
                    ∙ through_from c 8 s (suc rest) found some_child below (omega arith)
                    ∙ rw up (come_back i rest _ nz))
          ]

      through_from :
          (i left : ℕ) (s : Shapes) (rest : ℕ) (found : List ℕ)
          → i ≢ 0
          → LinkedFrom i left s
          → (i - 1) % 8 + left ≡ 8
          → loop (rounds_from i s + rest) (at_node i) found
            ≡ loop rest (back_at (parents ((i - 1) / 8))) (found ++ reached_from i s)
      through_from i left end rest found nz none e = absurd (omega arith)
      through_from i left (next s end) rest found nz (some_left, here, done) e =
          let last : (i - 1) % 8 ≡ 7 = omega arith in
          rw (add-zero (rounds i s), append-nil (reached i s))
            (through i s rest found nz here ∙ rw (behind-last i last) refl)
      through_from i left (next s (next u r)) rest found nz (some_left, here, more) e =
          let inside : (i - 1) % 8 < 7 = omega arith in
          let others = rounds_from (i + 1) (next u r) in
          let same : (i + 1 - 1) / 8 ≡ (i - 1) / 8 = omega arith in
          rw (add_assoc (rounds i s) others rest) (
            through i s (others + rest) found nz here
            ∙ rw (behind-sibling i inside) (
                rw (same, append_assoc found (reached i s)) at
                  (through_from (i + 1) (left - 1) (next u r) rest (found ++ reached i s)
                    (λ z. absurd (omega arith)) more (omega arith))))

    mutual
      unfolding rounds rounds_from size sizes

      rounds-le : (i : ℕ) (s : Shape) → rounds i s ≤ 2 * size s
      rounds-le i leaf = omega arith
      rounds-le i (inner s) = ground (arith, rounds_from-le (child_offsets i) s)

      rounds_from-le : (i : ℕ) (s : Shapes) → rounds_from i s ≤ 2 * sizes s
      rounds_from-le i end = omega arith
      rounds_from-le i (next s r) = omega (arith, rounds-le i s, rounds_from-le (i + 1) r)

    stop : (fuel : ℕ) (found : List ℕ) → loop (suc fuel) (back_at 0) found ≡ some found
    unfolding traversal_loop
    stop fuel found = refl

    -- On a linked octree of any shape, single_traversal comes back to the root and has then
    -- called the endpoint action with the leaves that a recursive descent reaches, in the same
    -- order: those that satisfy the criterion with all nodes above them. Fuel of more than twice
    -- the number of nodes is enough.
    pub single_traversal-reached :
        (s : Shape) (fuel : ℕ)
        → Linked 0 s
        → 2 * size s < fuel
        → single_traversal child_offsets parents continuation fuel ≡ some (reached 0 s)
    unfolding single_traversal reached size
    single_traversal-reached leaf fuel z h = ground arith
    single_traversal-reached (inner s) fuel (some_child, aligned, up, below) h =
        elim (Bool-cases (continuation 0)) [
          | inr skipped ↦ rw skipped refl
          | inl entered ↦
              let c = child_offsets 0 in
              let left = fuel - rounds_from c s - 1 in
              let enough : fuel ≡ rounds_from c s + suc left = omega (arith, rounds_from-le c s) in
              let run =
                rw (up, ← enough) at
                  (through_from c 8 s (suc left) [] some_child below (omega arith)) in
              let inside : (c == 0) ≡ false = ground arith in
              rw (entered, inside) (run ∙ stop left (reached_from c s))
        ]
