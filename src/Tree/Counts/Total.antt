-- ===== src/Tree/Counts/Total.antt =====
-- The count of one node against the keys in it (calculateNodeCount and updateNodeCount of
-- tree/csarray.hpp).
use sphexa.Base.{
  ℕ, zero, suc, ◌+◌, ◌-◌, ◌^◌, ◌≤◌, ◌<◌, ◌≡◌, refl, arith, Bool, ◌&&◌, List, [], ◌∷◌, ltb, leb,
  if◌then◌else◌, min, length,
}
use sphexa.Base.Int.{ℤ}
use sphexa.Key.{KeyType, max_tree_level, u32}
use sphexa.Primitives.Search.{at, lower_bound, stl_min}
use sphexa.Primitives.Search.Partition.{Ascending, IsPartition, lower_bound-IsPartition}
use sphexa.Tree.Counts.{calculate_node_count, update_node_count}
use sphexa.Tree.Counts.Guess.{search_bounds-lower_bound}

-- The keys below a value, and the keys in a range.
keys_below : List ℕ → ℕ → ℕ
keys_below [] hi = 0
keys_below (x ∷ xs) hi = (if ltb x hi then 1 else 0) + keys_below xs hi

unfoldable pub keys_in : List ℕ → ℕ → ℕ → ℕ
keys_in [] lo hi = 0
keys_in (x ∷ xs) lo hi = (if leb lo x && ltb x hi then 1 else 0) + keys_in xs lo hi

keys_below-split :
    (keys : List ℕ) (lo hi : ℕ)
    → lo ≤ hi
    → keys_below keys hi ≡ keys_below keys lo + keys_in keys lo hi
unfolding keys_below keys_in
keys_below-split [] lo hi h = refl
keys_below-split (x ∷ xs) lo hi h = ground (arith, keys_below-split xs lo hi h)

IsPartition-tail :
    (right : ℕ → Bool) (x : ℕ) (xs : List ℕ) (n r : ℕ)
    → IsPartition right (at (x ∷ xs)) 0 (suc n) (suc r)
    → IsPartition right (at xs) 0 n r
IsPartition-tail right x xs n r p = record {
  above = omega arith;
  below = omega (arith, p.below);
  passes = λ i a b. p.passes (suc i) (omega arith) (omega arith);
  fails = λ i a b. p.fails (suc i) (omega arith) (omega arith);
}

-- The place that parts the keys is the number of keys before it.
place-keys_below :
    (keys : List ℕ) (hi r : ℕ)
    → IsPartition (λ x. ltb x hi) (at keys) 0 (length keys) r
    → r ≡ keys_below keys hi
unfolding keys_below
place-keys_below [] hi r p = omega (arith, p.below)
place-keys_below (x ∷ xs) hi zero p =
    let first = p.fails 0 (omega arith) (omega arith) in
    let rest = place-keys_below xs hi 0 (record {
      above = omega arith;
      below = omega arith;
      passes = λ i a b. absurd (omega arith);
      fails = λ i a b. p.fails (suc i) (omega arith) (omega arith);
    }) in
    rw first (omega arith)
place-keys_below (x ∷ xs) hi (suc r) p =
    let first = p.passes 0 (omega arith) (omega arith) in
    let rest = place-keys_below xs hi r (IsPartition-tail _ x xs (length xs) r p) in
    rw first (omega arith)

cap_exact : (x m : ℕ) → x < 2 ^ 32 → u32 (if ltb m x then m else x) ≡ min x m
cap_exact x m h = ground arith

cap_difference :
    (a b m : ℕ)
    → a ≤ b
    → b < 2 ^ 32
    → m < 2 ^ 32
    → (if ltb m (u32 (b + 2 ^ 32 - a)) then m else u32 (b + 2 ^ 32 - a))
      ≡ u32 (if ltb m (b - a) then m else b - a)
cap_difference a b m h k c =
    let e : u32 (b + 2 ^ 32 - a) ≡ b - a = omega arith in rw e (ground arith)

module _ (keys : List ℕ) (up : Ascending (at keys) 0 (length keys)) where
  lower_bound-keys_below : (hi : ℕ) → lower_bound (at keys) 0 (length keys) hi ≡ keys_below keys hi
  lower_bound-keys_below hi =
      place-keys_below keys hi _
        (lower_bound-IsPartition (at keys) 0 (length keys) hi (omega arith) up)

  keys_below-le : (hi : ℕ) → keys_below keys hi ≤ length keys
  keys_below-le hi = omega (
    arith,
    lower_bound-keys_below hi,
    IsPartition.below (lower_bound-IsPartition (at keys) 0 (length keys) hi (omega arith) up),
  )

  -- The count of a node is the number of keys that are not below its start and are below its
  -- end, or max_count if that is less. The keys ascend and are fewer than 2 ^ 32, and the node
  -- does not end before it starts.
  pub calculate_node_count-keys_in :
      (lo hi max_count : ℕ)
      → lo ≤ hi
      → length keys < 2 ^ 32
      → calculate_node_count lo hi (at keys) (length keys) max_count
        ≡ min (keys_in keys lo hi) max_count
  unfolding calculate_node_count stl_min
  calculate_node_count-keys_in lo hi max_count h small =
      let a = lower_bound-keys_below lo in
      let b = lower_bound-keys_below hi in
      let c = keys_below-split keys lo hi h in
      let d = keys_below-le hi in
      let e : lower_bound (at keys) 0 (length keys) hi - lower_bound (at keys) 0 (length keys) lo
          ≡ keys_in keys lo hi =
        omega arith in
      rw e (cap_exact (keys_in keys lo hi) max_count (omega arith))

  -- The count of a node with guesses equals the count without, whatever the two guesses are. The
  -- keys ascend, are at most the end of the key space and fewer than 2 ^ 32, the node does not
  -- end before it starts, and max_count fits 32 bits.
  pub update_node_count-calculate_node_count :
      (t : KeyType) (tree : ℕ → ℕ) (i max_count : ℕ) (first_guess second_guess : ℤ)
      → ((j : ℕ) → j < length keys → at keys j ≤ 8 ^ max_tree_level t)
      → tree i ≤ tree (i + 1)
      → length keys < 2 ^ 32
      → max_count < 2 ^ 32
      → update_node_count t i tree first_guess second_guess (at keys) (length keys) max_count
        ≡ calculate_node_count (tree i) (tree (i + 1)) (at keys) (length keys) max_count
  unfolding update_node_count calculate_node_count stl_min
  update_node_count-calculate_node_count t tree i max_count g h bounded le small cap =
      let n = length keys in
      let a = search_bounds-lower_bound t (at keys) n (tree i) bounded up g in
      let b = search_bounds-lower_bound t (at keys) n (tree (i + 1)) bounded up h in
      rw (a, b)
        (cap_difference _ _ max_count
          (omega (
            arith,
            lower_bound-keys_below (tree i),
            lower_bound-keys_below (tree (i + 1)),
            keys_below-split keys (tree i) (tree (i + 1)) le,
          ))
          (omega (arith, lower_bound-keys_below (tree (i + 1)), keys_below-le (tree (i + 1)))) cap)
