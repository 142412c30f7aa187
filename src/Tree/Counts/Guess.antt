-- ===== src/Tree/Counts/Guess.antt =====
-- The bounds of findSearchBounds against the search of the whole array (tree/csarray.hpp).
use native.Mathlib.Decide.{dec_lt, ℕ_discrete}
use sphexa.Base.{
  ℕ, zero, suc, ◌+◌, ◌-◌, ◌*◌, ◌^◌, ◌≤◌, ◌<◌, ◌≡◌, refl, ap, arith, ◌⊎◌, inl, inr, true, false,
  ◌&&◌, Bool-cases, &&_false, ltb, leb, ◌==◌, if◌then◌else◌,
}
use sphexa.Base.Int.{ℤ, pos, pos_part, sub_ℕ}
use sphexa.Base.Pow.{self_lt_pow2, pow2-suc}
use sphexa.Key.{KeyType, key32, key64, max_tree_level}
use sphexa.Sfc.Node.{node_range}
use sphexa.Sfc.Node.Level.{node_range-pow8}
use sphexa.Primitives.Search.{lower_bound, stl_min, stl_max}
use sphexa.Primitives.Search.Partition.{
  Ascending, IsPartition, IsPartition-unique, lower_bound-IsPartition,
}
use sphexa.Tree.Counts.{within_target, second_index, widen, find_search_bounds}

-- The comparison in two's complement, also for the key of removed particles.
within_up :
    (t : KeyType) (code target : ℕ)
    → code ≤ 8 ^ max_tree_level t
    → target < 8 ^ max_tree_level t
    → within_target t true code target ≡ false
    → target < code
unfolding within_target
within_up key32 code target a b e = ground arith
within_up key64 code target a b e = ground arith

within_down :
    (t : KeyType) (code target : ℕ)
    → code ≤ 8 ^ max_tree_level t
    → target < 8 ^ max_tree_level t
    → within_target t false code target ≡ false
    → code < target
unfolding within_target
within_down key32 code target a b e = ground arith
within_down key64 code target a b e = ground arith

module _ (t : KeyType) (codes : ℕ → ℕ) (n target : ℕ)
    (bounded : (i : ℕ) → i < n → codes i ≤ 8 ^ max_tree_level t)
    (inside : target < 8 ^ max_tree_level t) where
  widen_up-step :
      (first fuel r : ℕ)
      → widen t true codes n first target (suc fuel) r ≡ (
          if ltb (first + r) n && within_target t true (codes (first + r)) target
          then widen t true codes n first target fuel (r * 2)
          else pos (first + r))
  unfolding widen second_index
  widen_up-step first fuel r = ground arith

  widen_down-step :
      (first fuel r : ℕ)
      → first < n
      → widen t false codes n first target (suc fuel) r ≡ (
          if leb r first && within_target t false (codes (first - r)) target
          then widen t false codes n first target fuel (r * 2)
          else sub_ℕ first r)
  unfolding widen second_index
  widen_down-step first fuel r b = ground arith

  doubled : (fuel r : ℕ) → n < r * 2 ^ suc fuel → n < r * 2 * 2 ^ fuel
  doubled fuel r h = omega (arith, ap (λ (x : ℕ). r * x) (pow2-suc fuel))

  -- Towards the end, the loop stops behind the array or at a key above the target.
  widen_up :
      (first fuel r : ℕ)
      → 0 < r
      → n < r * 2 ^ fuel
      → (k : ℕ) × (widen t true codes n first target fuel r ≡ pos k)
        × (first < k)
        × ((n ≤ k) ⊎ (target < codes k))
  unfolding widen second_index
  widen_up first zero r p h = (first + r, refl, omega arith, inl (omega arith))
  widen_up first (suc fuel) r p h =
      elim (Bool-cases (ltb (first + r) n && within_target t true (codes (first + r)) target)) [
        | inl e ↦
            let (k, f, g, z) = widen_up first fuel (r * 2) (omega arith) (doubled fuel r h) in
            (k, rw (widen_up-step first fuel r, e) f, g, z)
        | inr e ↦ (
          first + r,
          rw (widen_up-step first fuel r, e) refl,
          omega arith,
          elim (dec_lt (first + r) n) [
            | no out ↦ inl (omega arith)
            | yes lt ↦ inr (
                within_up t (codes (first + r)) target (bounded (first + r) lt) inside
                  (&&_false (ltb (first + r) n) _ (ground arith) e))
          ],
        )
      ]

  -- Towards the start, it stops before the array or at a key below the target.
  widen_down :
      (first fuel r : ℕ)
      → first < n
      → 0 < r
      → n < r * 2 ^ fuel
      → (k : ℕ) × (widen t false codes n first target fuel r ≡ sub_ℕ first k)
        × (0 < k)
        × ((first < k) ⊎ (codes (first - k) < target))
  unfolding widen second_index
  widen_down first zero r b p h = (r, refl, omega arith, inl (omega arith))
  widen_down first (suc fuel) r b p h =
      elim (Bool-cases (leb r first && within_target t false (codes (first - r)) target)) [
        | inl e ↦
            let (k, f, g, z) = widen_down first fuel (r * 2) b (omega arith) (doubled fuel r h) in
            (k, rw (widen_down-step first fuel r b, e) f, g, z)
        | inr e ↦ (
          r,
          rw (widen_down-step first fuel r b, e) refl,
          p,
          elim (dec_lt first r) [
            | yes out ↦ inl out
            | no lt ↦ inr (
                within_down t (codes (first - r)) target (bounded (first - r) (omega arith)) inside
                  (&&_false (leb r first) _ (ground arith) e))
          ],
        )
      ]

module _ (codes : ℕ → ℕ) (n target : ℕ) where
  -- A place that parts the whole array parts each range around it.
  narrowed :
      (a b r : ℕ)
      → Ascending codes 0 n
      → IsPartition (λ x. ltb x target) codes 0 n r
      → a ≤ r
      → r ≤ b
      → b ≤ n
      → lower_bound codes a b target ≡ r
  narrowed a b r up p x y z =
      IsPartition-unique _ r
        (lower_bound-IsPartition codes a b target (omega arith)
          (λ i j c d e. up i j (omega arith) d (omega arith)))
        (record {
          above = x;
          below = y;
          passes = λ i c d. p.passes i (omega arith) d;
          fails = λ i c d. p.fails i c (omega arith);
        })

module _ (t : KeyType) (codes : ℕ → ℕ) (n target : ℕ)
    (bounded : (i : ℕ) → i < n → codes i ≤ 8 ^ max_tree_level t) (up : Ascending codes 0 n) where
  place_behind :
      (r i : ℕ) → IsPartition (λ x. ltb x target) codes 0 n r → i < n → codes i < target → i < r
  place_behind r i p h lt = elim (dec_lt i r) [
    | yes q ↦ q
    | no q ↦ absurd (ground (arith, p.fails i (omega arith) h))
  ]

  place_before : (r i : ℕ) → IsPartition (λ x. ltb x target) codes 0 n r → target ≤ codes i → r ≤ i
  place_before r i p le = elim (dec_lt i r) [
    | yes q ↦ absurd (ground (arith, p.passes i (omega arith) q))
    | no q ↦ omega arith
  ]

  first_of : ℤ → ℕ
  first_of guess = stl_min (n - 1) (pos_part guess)

  first_of-lt : (guess : ℤ) → 0 < n → first_of guess < n
  unfolding first_of stl_min
  first_of-lt guess h = ground arith

  bounds-empty : (guess : ℤ) → n ≡ 0 → find_search_bounds t guess target codes n ≡ (0, 0)
  unfolding find_search_bounds
  bounds-empty guess h = let e : (n == 0) ≡ true = ground arith in rw e

  bounds-far :
      (guess : ℤ)
      → 0 < n
      → 8 ^ max_tree_level t ≤ target
      → find_search_bounds t guess target codes n ≡ (lower_bound codes 0 n target, n)
  unfolding find_search_bounds
  bounds-far guess h far =
      let e : (n == 0) ≡ false = ground arith in
      let top = node_range-pow8 t 0 in
      let f : leb (node_range t 0) target ≡ true = ground arith in rw (e, f)

  bounds-near :
      (guess : ℤ)
      → 0 < n
      → target < 8 ^ max_tree_level t
      → let first = first_of guess in
        let second =
          stl_min n (pos_part (widen t (ltb (codes first) target) codes n first target n 1)) in
        find_search_bounds t guess target codes n ≡ (stl_min first second, stl_max first second)
  unfolding find_search_bounds first_of
  bounds-near guess h near =
      let e : (n == 0) ≡ false = ground arith in
      let top = node_range-pow8 t 0 in
      let f : leb (node_range t 0) target ≡ false = ground arith in rw (e, f)

  -- The place of the target, and the bounds around it.
  pub bounds_around :
      (guess : ℤ) (r : ℕ)
      → IsPartition (λ x. ltb x target) codes 0 n r
      → let (a, b) = find_search_bounds t guess target codes n in (a ≤ r) × (r ≤ b) × (b ≤ n)
  unfolding stl_min stl_max
  bounds_around guess r p = elim (ℕ_discrete n 0) [
    | yes z ↦ rw (bounds-empty guess z) (omega (arith, p.below))
    | no nz ↦ elim (dec_lt target (8 ^ max_tree_level t)) [
      | no far ↦
          let all = lower_bound-IsPartition codes 0 n target (omega arith) up in
          let e = IsPartition-unique _ r all p in
          rw (bounds-far guess (omega arith) (omega arith), e) (omega (arith, p.below))
      | yes near ↦
          let first = first_of guess in
          let inside = first_of-lt guess (omega arith) in
          let much : n < 1 * 2 ^ n = omega (arith, self_lt_pow2 n) in
          rw (bounds-near guess (omega arith) near) (elim (Bool-cases (ltb (codes first) target)) [
            | inl e ↦
                let (k, f, g, h) =
                  widen_up t codes n target bounded near first n 1 (omega arith) much in
                let low : first < r = place_behind r first p inside (ground arith) in
                let high : r ≤ k = elim h [
                  | inl out ↦ omega (arith, p.below)
                  | inr above ↦ place_before r k p (omega arith)
                ] in
                rw (e, f) (ground (arith, p.below))
            | inr e ↦
                let (k, f, g, h) =
                  widen_down t codes n target bounded near first n 1 inside (omega arith) much in
                let high : r ≤ first = place_before r first p (ground arith) in
                let low : first - k ≤ r = elim h [
                  | inl out ↦ omega arith
                  | inr under ↦ omega (arith, place_behind r (first - k) p (omega arith) under)
                ] in
                rw (e, f) (ground (arith, p.below))
          ])
    ]
  ]

  -- The lower bound of a target within the bounds that find_search_bounds returns is the lower
  -- bound in the whole array, for every guess, negative or too large. The codes ascend and are
  -- at most the end of the key space.
  pub search_bounds-lower_bound :
      (guess : ℤ)
      → let (a, b) = find_search_bounds t guess target codes n in
        lower_bound codes a b target ≡ lower_bound codes 0 n target
  search_bounds-lower_bound guess =
      let all = lower_bound-IsPartition codes 0 n target (omega arith) up in
      let (x, y, z) = bounds_around guess _ all in narrowed codes n target _ _ _ up all x y z
