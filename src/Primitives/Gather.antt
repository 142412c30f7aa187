-- ===== src/Primitives/Gather.antt =====
-- Reordering of arrays (domain/include/cstone/primitives/gather.hpp): the loops write one element a
-- round, in order here; the code runs them in parallel.
use native.Mathlib.Decide.{ℕ_discrete}
use sphexa.Base.{
  ℕ, zero, suc, ◌+◌, ◌≤◌, ◌<◌, ◌≡◌, ◌≢◌, refl, ap, sym, ◌∙◌, arith, List, length, set, length-set,
  get_or-set_self, get_or-set_ne,
}
use sphexa.Primitives.Search.{at}
use sphexa.Primitives.Loop.{write_loop, write_loop-at}

-- destination[i] = source[ordering[i]]
unfoldable pub gather : List ℕ → (ℕ → ℕ) → List ℕ → List ℕ
gather ordering source destination =
    write_loop (λ i xs. source (at ordering i)) (length ordering) 0 destination

-- destination[smap[i]] = source[gmap[i]]
unfoldable pub gather_scatter_loop : (ℕ → ℕ) → (ℕ → ℕ) → (ℕ → ℕ) → ℕ → ℕ → List ℕ → List ℕ
gather_scatter_loop gmap smap src zero i dst = dst
gather_scatter_loop gmap smap src (suc left) i dst =
    gather_scatter_loop gmap smap src left (i + 1) (set dst (smap i) (src (gmap i)))

unfoldable pub gather_scatter : List ℕ → List ℕ → (ℕ → ℕ) → List ℕ → List ℕ
gather_scatter gmap smap src dst = gather_scatter_loop (at gmap) (at smap) src (length gmap) 0 dst

-- destination[ordering[i]] = source[i]
unfoldable pub scatter_loop : (ℕ → ℕ) → (ℕ → ℕ) → ℕ → ℕ → List ℕ → List ℕ
scatter_loop ordering source zero i destination = destination
scatter_loop ordering source (suc left) i destination =
    scatter_loop ordering source left (i + 1) (set destination (ordering i) (source i))

unfoldable pub scatter : List ℕ → (ℕ → ℕ) → List ℕ → List ℕ
scatter ordering source destination =
    scatter_loop (at ordering) source (length ordering) 0 destination

module _ (ordering source : ℕ → ℕ) where
  length-scatter_loop :
      (left i : ℕ) (xs : List ℕ) → length (scatter_loop ordering source left i xs) ≡ length xs
  unfolding scatter_loop
  length-scatter_loop zero i xs = refl
  length-scatter_loop (suc left) i xs =
      length-scatter_loop left (i + 1) _ ∙ length-set xs (ordering i) (source i)

  -- A place that no later round writes keeps its element.
  scatter_loop-keeps :
      (left i j : ℕ) (xs : List ℕ)
      → ((k : ℕ) → i ≤ k → k < i + left → ordering k ≢ j)
      → at (scatter_loop ordering source left i xs) j ≡ at xs j
  unfolding scatter_loop
  scatter_loop-keeps zero i j xs h = refl
  scatter_loop-keeps (suc left) i j xs h =
      scatter_loop-keeps left (i + 1) j _ (λ k a b. h k (omega arith) (omega arith))
      ∙ get_or-set_ne xs (ordering i) j (source i) 0 (h i (omega arith) (omega arith))

  scatter_loop-at :
      (left i j : ℕ) (xs : List ℕ)
      → ((k l : ℕ) → i ≤ k → k < l → l < i + left → ordering k ≢ ordering l)
      → i ≤ j
      → j < i + left
      → ordering j < length xs
      → at (scatter_loop ordering source left i xs) (ordering j) ≡ source j
  unfolding scatter_loop
  scatter_loop-at zero i j xs h a b c = absurd (omega arith)
  scatter_loop-at (suc left) i j xs h a b c = elim (ℕ_discrete i j) [
    | yes e ↦
        ap
          (λ (x : ℕ).
            at (scatter_loop ordering source left (i + 1) (set xs (ordering i) (source i)))
              (ordering x))
          (sym e)
        ∙ scatter_loop-keeps left (i + 1) (ordering i) _
            (λ k d f g. h i k (omega arith) (omega arith) (omega arith) (sym g))
        ∙ get_or-set_self xs (ordering i) (source i) 0
            (let f : ordering j ≡ ordering i = ap ordering (sym e) in omega arith)
        ∙ ap source e
    | no ne ↦
        scatter_loop-at left (i + 1) j _ (λ k l d f g. h k l (omega arith) f (omega arith))
          (omega arith) (omega arith) (omega (arith, length-set xs (ordering i) (source i)))
  ]

-- A gather by the ordering that a scatter used gives back each element of the source. No place
-- occurs twice in the ordering, all are within the scattered array, and the gathered array has
-- as many elements as the ordering.
pub gather-scatter :
    (ordering : List ℕ) (source : ℕ → ℕ) (scattered gathered : List ℕ) (i : ℕ)
    → ((k l : ℕ) → k < l → l < length ordering → at ordering k ≢ at ordering l)
    → ((k : ℕ) → k < length ordering → at ordering k < length scattered)
    → length gathered ≡ length ordering
    → i < length ordering
    → at (gather ordering (at (scatter ordering source scattered)) gathered) i ≡ source i
unfolding gather scatter
gather-scatter ordering source scattered gathered i h b e c =
    write_loop-at _ (λ k. at (scatter ordering source scattered) (at ordering k)) (length ordering)
      0 i gathered (λ k xs x y. refl) (omega arith) (omega arith) (omega arith)
    ∙ scatter_loop-at (at ordering) source (length ordering) 0 i scattered
        (λ k l x y z. h k l y (omega arith)) (omega arith) (omega arith) (b i c)
