-- ===== src/Traversal/Dual.antt =====
-- The simultaneous traversal of two parts of a linked octree
-- (domain/include/cstone/traversal/traversal.hpp). The endpoint actions are the list of their
-- calls, in order.
pub mod Visits
pub mod Octants
pub mod Room
use sphexa.Base.{
  ℕ, zero, suc, ◌+◌, Bool, not, ◌&&◌, ◌||◌, Option, none, some, List, [], ◌∷◌, ◌++◌, ltb, ◌==◌,
  if◌then◌else◌, length,
}

-- What the traversal calls on a pair of nodes: target, source.
pub data Call : Type 0 where
  m2l : ℕ → ℕ → Call
  p2p : ℕ → ℕ → Call

abbrev pub NodePair : Type 0
NodePair = ℕ × ℕ

-- The pairs on the stack, its top first, and the calls so far. The position in the stack is its
-- length.
pub record Interactions : Type 0 where
  pub stack : List NodePair
  pub calls : List Call

-- How a traversal ends; `overflow` is the failed assertion, a write behind the stack without it.
pub data Run : Type 0 where
  finished : List Call → Run
  overflow : Run
  no_fuel : Run

module _ (child_offsets : ℕ → ℕ) where
  unfoldable pub is_leaf : ℕ → Bool
  is_leaf idx = child_offsets idx == 0

  module _ (continuation : ℕ → ℕ → Bool) where
    -- One pair; `none` if the stack is full.
    unfoldable pub interact : ℕ → ℕ → Interactions → Option Interactions
    interact a b s =
        if continuation a b
        then if is_leaf a && is_leaf b
          then some (record { stack = s.stack; calls = s.calls ++ p2p a b ∷ [] })
          else if ltb (length s.stack) 128
          then some (record { stack = (a, b) ∷ s.stack; calls = s.calls })
          else none
        else some (record { stack = s.stack; calls = s.calls ++ m2l a b ∷ [] })

    unfoldable pub interact_then :
        (Interactions → Option Interactions) → Option Interactions → Option Interactions
    interact_then rest none = none
    interact_then rest (some s) = rest s

    -- `n` octants from `octant` on, of the target or of the source.
    unfoldable pub target_loop : ℕ → ℕ → ℕ → ℕ → Interactions → Option Interactions
    target_loop zero octant target source s = some s
    target_loop (suc n) octant target source s =
        interact_then (target_loop n (octant + 1) target source)
          (interact (child_offsets target + octant) source s)

    unfoldable pub source_loop : ℕ → ℕ → ℕ → ℕ → Interactions → Option Interactions
    source_loop zero octant target source s = some s
    source_loop (suc n) octant target source s =
        interact_then (source_loop n (octant + 1) target source)
          (interact target (child_offsets source + octant) s)

    unfoldable pub subdivide : ℕ → ℕ → Interactions → Option Interactions
    subdivide target source s =
        if (ltb target source && not (is_leaf target)) || is_leaf source
        then target_loop (if is_leaf target then 0 else 8) 0 target source s
        else source_loop (if is_leaf source then 0 else 8) 0 target source s

    unfoldable pub resume : (Interactions → Run) → Option Interactions → Run
    resume loop none = overflow
    resume loop (some s) = loop s

    unfoldable pub pop : (Interactions → Run) → Interactions → Run
    pop loop s = elim (s.stack) [
      | [] ↦ finished s.calls
      | node_pair ∷ stack ↦
          resume loop
            (subdivide node_pair.0 node_pair.1 (record { stack = stack; calls = s.calls }))
    ]

    unfoldable pub dual_loop : ℕ → Interactions → Run
    dual_loop zero s = no_fuel
    dual_loop (suc fuel) s = pop (dual_loop fuel) s

    unfoldable pub dual_traversal : ℕ → ℕ → ℕ → Run
    dual_traversal a b fuel =
        if is_leaf a && is_leaf b
        then finished (if continuation a b then p2p a b ∷ [] else [])
        else dual_loop fuel (record { stack = (a, b) ∷ []; calls = [] })
