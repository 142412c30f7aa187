-- ===== src/Examples/Traversal.antt =====
-- Traversals of the root and its eight children, and of ten levels.
use mathlib.Core.List.{Perm}
use sphexa.Base.{
  ℕ, zero, suc, ◌+◌, ◌-◌, ◌%◌, ◌<◌, ◌≡◌, ◌≢◌, refl, arith, Bool, true, some, List, [], ◌∷◌, ltb,
  ◌==◌, ◌&&◌, if◌then◌else◌,
}
use sphexa.Traversal.{single_traversal}
use sphexa.Traversal.Dual.{
  Call, finished, overflow, is_leaf, interact, interact_then, target_loop, source_loop, subdivide,
  resume, pop, dual_loop, dual_traversal,
}
use sphexa.Traversal.Dual.Visits.{calls_for}
use sphexa.Traversal.Dual.Room.{rounds, dual_traversal-visit}
use sphexa.Traversal.Single.{
  Shape, leaf, inner, end, next, Linked, reached, size, single_traversal-reached,
}

abbrev children : ℕ → ℕ
children zero = 1
children (suc i) = 0

abbrev parents : ℕ → ℕ
parents i = 0

abbrev one_level : Shape
one_level = inner (
    next leaf
      (next leaf (next leaf (next leaf (next leaf (next leaf (next leaf (next leaf end))))))))

one_level-Linked : Linked children parents 0 one_level
one_level-Linked = (
  λ e. absurd (omega arith),
  refl,
  refl,
  (
    omega arith,
    refl,
    (
      omega arith,
      refl,
      (
        omega arith,
        refl,
        (
          omega arith,
          refl,
          (omega arith, refl, (omega arith, refl, (omega arith, refl, (omega arith, refl, refl)))),
        ),
      ),
    ),
  ),
)

-- All leaves below the number 4 are reached.
single_traversal-reached_example :
    single_traversal children parents (λ i. ltb i 4) 20 ≡ some (1 ∷ 2 ∷ 3 ∷ [])
unfolding reached size
single_traversal-reached_example =
    single_traversal-reached children parents (λ i. ltb i 4) one_level 20 one_level-Linked
      (omega arith)

abbrev height : ℕ → ℕ
height i = 1 - i

abbrev near : ℕ → ℕ → Bool
near a b = ltb a (b + 4)

height-falls :
    (i octant : ℕ) → children i ≢ 0 → octant < 8 → height (children i + octant) < height i
height-falls zero octant some_child h = omega arith
height-falls (suc i) octant some_child h = absurd (some_child refl)

dual_traversal-visit_example :
    (calls : List Call) × (dual_traversal children near 0 0 20 ≡ finished calls)
    × Perm calls (calls_for children near 2 0 0)
unfolding rounds
dual_traversal-visit_example =
    dual_traversal-visit children height near height-falls 0 0 20 (omega arith) (omega arith)

-- The last of eight children has children, down to the tenth level.
abbrev last_octants : ℕ → ℕ
last_octants i = if (i % 8 == 0) && ltb i 80 then i + 1 else 0

-- Two nodes of height ten are too high for the stack, if each pair continues.
ten_levels_overflow : dual_traversal last_octants (λ a b. true) 0 0 1000 ≡ overflow
unfolding dual_traversal is_leaf dual_loop pop resume subdivide source_loop target_loop
    interact_then interact
ten_levels_overflow = refl
