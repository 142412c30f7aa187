-- ===== src/Traversal/Dual/Visits.antt =====
-- The calls of dualTraversal, without the stack: a recursive descent (traversal/traversal.hpp).
use sphexa.Base.{ℕ, zero, suc, ◌+◌, Bool, not, ◌&&◌, ◌||◌, List, [], ◌∷◌, ◌++◌, ltb, if◌then◌else◌}
use sphexa.Traversal.Dual.{Call, m2l, p2p, is_leaf}

module _ (child_offsets : ℕ → ℕ) where
  -- The target is subdivided if it comes first and has children, or if the source has none.
  unfoldable pub target_first : ℕ → ℕ → Bool
  target_first a b = (ltb a b && not (is_leaf child_offsets a)) || is_leaf child_offsets b

  -- The pairs in place of a pair: one of the two nodes and a child of the other.
  abbrev pub below : ℕ → ℕ → ℕ → ℕ × ℕ
  below a b octant =
      if target_first a b then (child_offsets a + octant, b) else (a, child_offsets b + octant)

  module _ (continuation : ℕ → ℕ → Bool) where
    -- A pair that is met: one call, or the calls for the pairs in its place.
    unfoldable pub meet : (ℕ × ℕ → List Call) → ℕ × ℕ → List Call
    meet deeper (a, b) =
        if continuation a b
        then if is_leaf child_offsets a && is_leaf child_offsets b
          then p2p a b ∷ []
          else deeper (a, b)
        else m2l a b ∷ []

    unfoldable pub meet_each : (ℕ × ℕ → List Call) → ℕ → ℕ → (ℕ → ℕ × ℕ) → List Call
    meet_each deeper zero octant pairs = []
    meet_each deeper (suc n) octant pairs =
        meet deeper (pairs octant) ++ meet_each deeper n (octant + 1) pairs

    -- All calls from a pair on, as deep as the depth says.
    unfoldable pub visit : ℕ → ℕ × ℕ → List Call
    visit zero p = []
    visit (suc depth) (a, b) = meet_each (visit depth) 8 0 (below a b)

    -- The calls for a first pair. If both are leaves, the criterion decides whether there is one.
    unfoldable pub calls_for : ℕ → ℕ → ℕ → List Call
    calls_for depth a b =
        if is_leaf child_offsets a && is_leaf child_offsets b
        then (if continuation a b then p2p a b ∷ [] else [])
        else visit depth (a, b)
