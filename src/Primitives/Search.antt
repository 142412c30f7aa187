-- ===== src/Primitives/Search.antt =====
-- Binary search (domain/include/cstone/primitives/stl.hpp). An iterator into an array is an offset
-- together with the function that reads the array at each offset.
pub mod Partition
use sphexa.Base.{
  ℕ, zero, suc, ◌+◌, ◌-◌, ◌/◌, ◌<◌, Bool, true, false, not, List, ltb, get_or, if◌then◌else◌,
}

-- A pointer to the first element of an array.
abbrev pub at : List ℕ → ℕ → ℕ
at keys i = get_or keys i 0

-- stl::min and stl::max
unfoldable pub stl_min : ℕ → ℕ → ℕ
stl_min a b = if ltb b a then b else a

unfoldable pub stl_max : ℕ → ℕ → ℕ
stl_max a b = if ltb a b then b else a

-- The loop of both searches: `right` says whether the answer lies behind the element read. The
-- count falls in every round, so fuel of that much is enough.
unfoldable pub search_loop : (ℕ → Bool) → (ℕ → ℕ) → ℕ → ℕ → ℕ → ℕ
search_loop right keys zero first count = first
search_loop right keys (suc fuel) first count = elim (ltb 0 count) [
  | false ↦ first
  | true ↦
      let step = count / 2 in
      let it = first + step in
      elim (right (keys it)) [
        | true ↦ search_loop right keys fuel (it + 1) (count - (step + 1))
        | false ↦ search_loop right keys fuel first step
      ]
]

unfoldable pub lower_bound : (ℕ → ℕ) → ℕ → ℕ → ℕ → ℕ
lower_bound keys first last value =
    let count = last - first in search_loop (λ x. ltb x value) keys count first count

unfoldable pub upper_bound : (ℕ → ℕ) → ℕ → ℕ → ℕ → ℕ
upper_bound keys first last value =
    let count = last - first in search_loop (λ x. not (ltb value x)) keys count first count
