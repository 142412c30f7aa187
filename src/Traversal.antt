-- ===== src/Traversal.antt =====
-- The traversal of the linked octree with a continuation criterion
-- (domain/include/cstone/traversal/traversal.hpp). Endpoint actions are the list of the nodes that
-- they are called with, in order.
pub mod Single
pub mod Dual
use sphexa.Base.{
  ℕ, zero, suc, ◌+◌, ◌-◌, ◌/◌, ◌%◌, Bool, true, false, not, ◌&&◌, Option, none, some, List, [], ◌∷◌,
  ◌++◌, ltb, ◌==◌, if◌then◌else◌,
}

-- The variables of the loop; a node other than the root is above 0.
pub record Cursor : Type 0 where
  pub node : ℕ
  pub backtrack : Bool

-- The node after `node`: its first child, its next sibling or its parent.
unfoldable pub next_cursor : (ℕ → ℕ) → (ℕ → ℕ) → ℕ → Bool → Cursor
next_cursor child_offsets parents node descend =
    if not (child_offsets node == 0) && descend
    then record { node = child_offsets node; backtrack = false }
    else if ltb ((node - 1) % 8) 7
    then record { node = node + 1; backtrack = false }
    else record { node = parents ((node - 1) / 8); backtrack = true }

-- The loop until the root is reached again; `none` if the fuel runs out.
unfoldable pub traversal_loop :
    (ℕ → ℕ) → (ℕ → ℕ) → (ℕ → Bool) → ℕ → Cursor → List ℕ → Option (List ℕ)
traversal_loop child_offsets parents continuation zero cursor endpoints = none
traversal_loop child_offsets parents continuation (suc fuel) cursor endpoints =
    let node = cursor.node in
    let descend = not cursor.backtrack && continuation node in
    let found = (child_offsets node == 0) && descend in
    let rest =
      traversal_loop child_offsets parents continuation fuel
        (next_cursor child_offsets parents node descend)
        (if found then endpoints ++ node ∷ [] else endpoints) in
    if node == 0 then some endpoints else rest

unfoldable pub single_traversal : (ℕ → ℕ) → (ℕ → ℕ) → (ℕ → Bool) → ℕ → Option (List ℕ)
single_traversal child_offsets parents continuation fuel =
    if not (continuation 0)
    then some []
    else if child_offsets 0 == 0
    then some (0 ∷ [])
    else traversal_loop child_offsets parents continuation fuel
        (record { node = child_offsets 0; backtrack = false }) []
