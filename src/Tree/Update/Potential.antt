-- ===== src/Tree/Update/Potential.antt =====
-- A number that falls with each rebalance step (rebalanceDecision and rebalanceTree of
-- tree/csarray.hpp) that changes the tree: a node above the bucket size weighs the square of its
-- size, any other 1.
use native.Mathlib.Decide.{dec_lt, ℕ_discrete}
use sphexa.Base.{
  ℕ, zero, suc, ◌+◌, ◌-◌, ◌*◌, ◌≤◌, ◌<◌, ◌≡◌, refl, ap, ◌∙◌, arith, List, [], ◌∷◌, ◌++◌, ltb, ◌==◌,
  if◌then◌else◌, length,
}
use sphexa.Key.{KeyType}
use sphexa.Primitives.Search.{at}
use sphexa.Tree.Cornerstone.Tiles.{rungs, Tiles}

-- The first key of a list that ends at `e`.
abbrev pub first : List ℕ → ℕ → ℕ
first [] e = e
first (x ∷ xs) e = x

first-append : (xs ys : List ℕ) (e : ℕ) → first (xs ++ ys) e ≡ first xs (first ys e)
first-append [] ys e = refl
first-append (x ∷ xs) ys e = refl

pub Tiles-first :
    {t : KeyType} {lo hi : ℕ} {keys : List ℕ} → Tiles t lo keys hi → first keys hi ≡ lo
Tiles-first Tiles.done = refl
Tiles-first (Tiles.tile next n p) = refl

-- How many of the operations are not to keep the node.
unfoldable pub changes : (ℕ → ℕ) → ℕ → ℕ → ℕ
changes ops zero i = 0
changes ops (suc m) i = (if ops i == 1 then 0 else 1) + changes ops m (i + 1)

pub changes-zero : (ops : ℕ → ℕ) (m i j : ℕ) → changes ops m i ≡ 0 → i ≤ j → j < i + m → ops j ≡ 1
unfolding changes
changes-zero ops zero i j h a b = absurd (omega arith)
changes-zero ops (suc m) i j h a b = elim (ℕ_discrete i j) [
  | yes here ↦ rw (← here) (ground arith)
  | no later ↦ changes-zero ops m (i + 1) j (omega arith) (omega arith) (omega arith)
]

pub changes-one : (ops : ℕ → ℕ) (i : ℕ) → ops i ≡ 1 → changes ops 1 i ≡ 0
unfolding changes
changes-one ops i h = ground arith

pub changes-keep :
    (ops : ℕ → ℕ) (m i : ℕ) → ops i ≡ 1 → changes ops (suc m) i ≡ changes ops m (i + 1)
unfolding changes
changes-keep ops m i h = ground arith

pub changes-le : (ops : ℕ → ℕ) (m i : ℕ) → changes ops m i ≤ m
unfolding changes
changes-le ops zero i = omega arith
changes-le ops (suc m) i = ground (arith, changes-le ops m (i + 1))

pub changes-split :
    (ops : ℕ → ℕ) (k m rest i : ℕ) → rest ≡ k + m → changes ops rest i ≤ k + changes ops m (i + k)
unfolding changes
changes-split ops zero m rest i e =
    let same : i + 0 ≡ i = omega arith in
    let all : rest ≡ m = omega arith in rw (same, all) (omega arith)
changes-split ops (suc k) m zero i e = absurd (omega arith)
changes-split ops (suc k) m (suc rest) i e =
    let next : i + 1 + k ≡ i + suc k = omega arith in
    let ih = rw next at (changes-split ops k m rest (i + 1) (omega arith)) in ground (arith, ih)

-- The particles of the keys in a range, whatever they are, and the bucket size.
module _ (f : ℕ → ℕ → ℕ) (bucket_size : ℕ) where
  unfoldable pub cost : ℕ → ℕ → ℕ
  cost lo hi = if ltb bucket_size (f lo hi) then (hi - lo) * (hi - lo) else 1

  unfoldable pub spread : List ℕ → ℕ → ℕ
  spread [] e = 0
  spread (x ∷ xs) e = cost x (first xs e) + spread xs e

  unfoldable pub cells : (ℕ → ℕ) → ℕ → ℕ → ℕ
  cells tree zero i = 0
  cells tree (suc m) i = cost (tree i) (tree (i + 1)) + cells tree m (i + 1)

  pub spread-append :
      (xs ys : List ℕ) (e mid : ℕ)
      → first ys e ≡ mid
      → spread (xs ++ ys) e ≡ spread xs mid + spread ys e
  unfolding spread
  spread-append [] ys e mid h = omega arith
  spread-append (x ∷ xs) ys e mid h =
      rw (first-append xs ys e, h) (omega (arith, spread-append xs ys e mid h))

  cells-tail : (x : ℕ) (xs : List ℕ) (m i : ℕ) → cells (at (x ∷ xs)) m (suc i) ≡ cells (at xs) m i
  unfolding cells
  cells-tail x xs zero i = refl
  cells-tail x xs (suc m) i =
      let e : suc i + 1 ≡ suc (i + 1) = omega arith in
      rw e (ap (λ (y : ℕ). cost (at xs i) (at xs (i + 1)) + y) (cells-tail x xs m (i + 1)))

  pub cells-spread : (xs : List ℕ) (e : ℕ) → cells (at (xs ++ e ∷ [])) (length xs) 0 ≡ spread xs e
  unfolding cells spread
  cells-spread [] e = refl
  cells-spread (x ∷ []) e = refl
  cells-spread (x ∷ (y ∷ xs)) e =
      ap (λ (z : ℕ). cost x y + z)
        (cells-tail x (y ∷ (xs ++ e ∷ [])) (suc (length xs)) 0 ∙ cells-spread (y ∷ xs) e)

  pub cost-one : (lo hi : ℕ) → f lo hi ≤ bucket_size → cost lo hi ≡ 1
  unfolding cost
  cost-one lo hi h = ground arith

  pub cost-square : (lo hi : ℕ) → bucket_size < f lo hi → cost lo hi ≡ (hi - lo) * (hi - lo)
  unfolding cost
  cost-square lo hi h = ground arith

  pub cost-le : (lo hi w : ℕ) → hi ≡ lo + w → 0 < w → cost lo hi ≤ w * w
  cost-le lo hi w e p = elim (dec_lt bucket_size (f lo hi)) [
    | yes h ↦ let g : hi - lo ≡ w = omega arith in rw (cost-square lo hi h, g) (omega arith)
    | no h ↦ rw (cost-one lo hi (omega arith)) (grind arith)
  ]

  -- A node that splits into equal parts.
  pub spread-rungs :
      (w : ℕ)
      → 0 < w
      → (count a e : ℕ) → e ≡ a + count * w
      → spread (rungs a w count) e ≤ count * (w * w)
  unfolding spread rungs
  spread-rungs w p zero a e h = omega arith
  spread-rungs w p (suc zero) a e h = omega (arith, cost-le a e w (omega arith) p)
  spread-rungs w p (suc (suc count)) a e h =
      omega
        (arith, cost-le a (a + w) w refl p, spread-rungs w p (suc count) (a + w) e (omega arith))
