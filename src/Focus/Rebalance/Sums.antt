-- ===== src/Focus/Rebalance/Sums.antt =====
-- The particle count of a leaf of the focus tree (rangeCount of focus/rebalance.hpp).
use native.Mathlib.Decide.{dec_lt}
use native.Mathlib.Nat.{mod-eq_of_lt}
use sphexa.Base.{ℕ, zero, suc, ◌+◌, ◌-◌, ◌^◌, ◌≤◌, ◌<◌, ◌≡◌, ap, ◌∙◌, arith, List, length, min}
use sphexa.Base.Int.{pos_part, sub_ℕ}
use sphexa.Key.{u64}
use sphexa.Primitives.Search.{at, lower_bound, upper_bound}
use sphexa.Primitives.Search.Partition.{
  Ascending, IsPartition-unique, lower_bound-IsPartition, upper_bound-IsPartition,
}
use sphexa.Tree.Counts.{find_node_below, find_node_above}
use sphexa.Tree.Rebalance.Emitted.{total}
use sphexa.Focus.Rebalance.{accumulate, range_count_one}

accumulate-total :
    (counts : ℕ → ℕ) (left i sum : ℕ)
    → sum + total counts left i < 2 ^ 64
    → accumulate counts left i sum ≡ sum + total counts left i
unfolding accumulate total
accumulate-total counts zero i sum h = omega arith
accumulate-total counts (suc left) i sum h =
    let e : u64 (sum + counts i) ≡ sum + counts i = mod-eq_of_lt (omega arith) in
    rw e (accumulate-total counts left (i + 1) (sum + counts i) (omega arith) ∙ omega arith)

module _ (leaves : List ℕ)
    (strict : (i j : ℕ) → i < j → j < length leaves → at leaves i < at leaves j) where
  up : Ascending (at leaves) 0 (length leaves)
  up i j a b c = elim (dec_lt i j) [
    | yes h ↦ omega (arith, strict i j h c)
    | no h ↦ omega (arith, ap (at leaves) {x = i} {y = j} (omega arith))
  ]

  below :
      (s : ℕ) → s < length leaves → upper_bound (at leaves) 0 (length leaves) (at leaves s) ≡ s + 1
  below s h =
      IsPartition-unique _ _
        (upper_bound-IsPartition (at leaves) 0 (length leaves) (at leaves s) (omega arith) up)
        (record {
          above = omega arith;
          below = omega arith;
          passes = λ i a b. ground (arith, up i s a (omega arith) h);
          fails = λ i a b. ground (arith, strict s i (omega arith) b);
        })

  above : (e : ℕ) → e < length leaves → lower_bound (at leaves) 0 (length leaves) (at leaves e) ≡ e
  above e h =
      IsPartition-unique _ _
        (lower_bound-IsPartition (at leaves) 0 (length leaves) (at leaves e) (omega arith) up)
        (record {
          above = omega arith;
          below = omega arith;
          passes = λ i a b. ground (arith, strict i e b h);
          fails = λ i a b. ground (arith, up e i (omega arith) a b);
        })

  -- If a leaf of the focus tree starts at one key of the global leaves and ends at the same or a
  -- later one, then its count is the sum of the counts of the global leaves between, or 2 ^ 32 -
  -- 1 if that is less. The keys of the global leaves rise strictly, and the sum fits 64 bits.
  pub range_count_one-total :
      (counts leaves_focus : ℕ → ℕ) (leaf first last : ℕ)
      → first ≤ last
      → last < length leaves
      → leaves_focus leaf ≡ at leaves first
      → leaves_focus (leaf + 1) ≡ at leaves last
      → total counts (last - first) first < 2 ^ 64
      → range_count_one leaves counts leaves_focus leaf
        ≡ min (2 ^ 32 - 1) (total counts (last - first) first)
  unfolding range_count_one find_node_below find_node_above
  range_count_one-total counts leaves_focus leaf first last a b e f small =
      let x : pos_part (sub_ℕ (first + 1) 1) ≡ first = ground arith in
      rw
        (
          e,
          f,
          below first (omega arith),
          above last b,
          x,
          accumulate-total counts (last - first) first 0 (omega arith),
        )
        (ground arith)
