-- ===== src/Examples/Domain.antt =====
-- The domain decomposition at concrete values.
use sphexa.Base.{
  ◌-◌, ◌%◌, ℕ, zero, suc, ◌+◌, ◌^◌, ◌≤◌, ◌<◌, ◌≡◌, ◌≢◌, ◌↔◌, ◌⊎◌, refl, arith, List, [], ◌∷◌,
  if◌then◌else◌,
}
use sphexa.Base.Int.{pos}
use sphexa.Key.{key32, u32}
use sphexa.Primitives.Search.{at}
use sphexa.Primitives.Search.Partition.{Ascending, steps-Ascending}
use sphexa.Primitives.Gather.{gather, scatter, gather-scatter}
use sphexa.Domain.Ranges.{IndexPair, no_ranges, add_range, range_start, range_end, range_count}
use sphexa.Domain.Ranges.Scan.{IsScan, no_ranges-IsScan, add_range-IsScan, add_range-ranges}
use sphexa.Domain.Buffer.{BufferDescription, receive_start, assigned_envelope}
use sphexa.Domain.Buffer.Room.{grown, receive_start-room}
use sphexa.Domain.Assignment.{
  translate_rank, initial_domain_splits, SfcAssignment, assignment_ranks, find_rank,
  create_send_ranges,
}
use sphexa.Domain.Assignment.Leaves.{translate_rank-leaves}
use sphexa.Domain.Assignment.Splits.{initial_domain_splits-Ascending}
use sphexa.Domain.Assignment.Owner.{create_send_ranges-find_rank}
use sphexa.Domain.Layout.{invert_ranges, extract_marked_elements, compute_node_layout, check_layout}
use sphexa.Domain.Layout.Inverse.{Covers, IsSorted, invert_ranges-Covers}
use sphexa.Domain.Layout.Marked.{InPairs, extract_marked_elements-InPairs}
use sphexa.Domain.Layout.Offsets.{is_present, compute_node_layout-places}
use sphexa.Domain.Layout.Checked.{IsSound, check_layout-IsSound}

add_range-IsScan_example : IsScan (add_range no_ranges 6 10)
add_range-IsScan_example =
    add_range-IsScan no_ranges 6 10 no_ranges-IsScan (omega arith) (omega arith) (omega arith)

add_range-ranges_example :
    let new = add_range no_ranges 6 10 in
    (range_start new 0 ≡ 6)
    × (range_end new 0 ≡ 10)
    × ((i : ℕ)
        → i < 0
        → (range_start new i ≡ range_start no_ranges i)
          × (range_count new i ≡ range_count no_ranges i))
add_range-ranges_example =
    add_range-ranges no_ranges 6 10 no_ranges-IsScan (omega arith) (omega arith) (omega arith)

-- Neither the head nor the tail has room for seven particles.
abbrev small_buffer : BufferDescription
small_buffer = record { start = 3; end = 9; size = 12 }

receive_start-room_example :
    let new = grown small_buffer 6 13 in
    let from = receive_start new 7 in
    let envelope = assigned_envelope new 7 in
    (12 ≤ new.size)
    × (from + 7 ≤ new.size)
    × ((from + 7 ≡ 3) × (envelope ≡ (from, 9)) ⊎ (from ≡ 9) × (envelope ≡ (3, from + 7)))
receive_start-room_example =
    receive_start-room small_buffer 6 13 (omega arith) (omega arith) (omega arith) (omega arith)
      (omega arith)

-- Two ranks, and three particles.
abbrev two_ranks : SfcAssignment
two_ranks = record { rank_boundaries = 0 ∷ 50 ∷ 100 ∷ []; counts = 0 ∷ 0 ∷ [] }

abbrev three_keys : List ℕ
three_keys = 7 ∷ 50 ∷ 99 ∷ []

two_ranks-steps :
    (i : ℕ) → suc i < 3 → at two_ranks.rank_boundaries i ≤ at two_ranks.rank_boundaries (suc i)
two_ranks-steps zero h = omega arith
two_ranks-steps (suc zero) h = omega arith
two_ranks-steps (suc (suc i)) h = absurd (omega arith)

three_keys-steps : (i : ℕ) → suc i < 3 → at three_keys i ≤ at three_keys (suc i)
three_keys-steps zero h = omega arith
three_keys-steps (suc zero) h = omega arith
three_keys-steps (suc (suc i)) h = absurd (omega arith)

two_ranks-two : 1 < assignment_ranks two_ranks
unfolding assignment_ranks
two_ranks-two = omega arith

create_send_ranges-find_rank_example :
    let ranges = create_send_ranges two_ranks three_keys in
    ((at ranges 1 ≤ 2) × (2 < at ranges 2)) ↔ (find_rank two_ranks (at three_keys 2) ≡ pos 1)
create_send_ranges-find_rank_example =
    create_send_ranges-find_rank two_ranks three_keys
      (steps-Ascending (at two_ranks.rank_boundaries) 3 two_ranks-steps)
      (steps-Ascending (at three_keys) 3 three_keys-steps) 1 2 two_ranks-two (omega arith)

abbrev one_range : List IndexPair
one_range = record { start = 2; end = 5 } ∷ []

invert_ranges-Covers_example :
    (Covers 6 (invert_ranges 0 one_range 9) ⊎ Covers 6 one_range)
    × (Covers 6 (invert_ranges 0 one_range 9) → Covers 6 one_range → ⊥)
invert_ranges-Covers_example =
    invert_ranges-Covers 0 9 one_range 6
      (IsSorted.next (omega arith) (omega arith) (IsSorted.none (omega arith))) (omega arith)
      (omega arith)

-- Flags that rise behind the indices 1 and 2 of four.
abbrev some_flags : List ℕ
some_flags = 0 ∷ 0 ∷ 1 ∷ 2 ∷ 2 ∷ []

some_flags-steps : (i : ℕ) → i < 4 → at some_flags i ≤ at some_flags (i + 1)
some_flags-steps zero h = omega arith
some_flags-steps (suc zero) h = omega arith
some_flags-steps (suc (suc zero)) h = omega arith
some_flags-steps (suc (suc (suc zero))) h = omega arith
some_flags-steps (suc (suc (suc (suc i)))) h = absurd (omega arith)

extract_marked_elements-InPairs_example :
    InPairs (2 + 10) (extract_marked_elements (λ i. i + 10) (at some_flags) 0 4)
    ↔ (at some_flags 2 < at some_flags 3)
extract_marked_elements-InPairs_example =
    extract_marked_elements-InPairs (λ i. i + 10) (at some_flags) 4 some_flags-steps
      (λ i j a b. omega arith) 0 2 (omega arith) (omega arith)

-- Three leaves, of which the first is the rank's own and the last is a halo.
abbrev own_leaf : IndexPair
own_leaf = record { start = 0; end = 1 }

leaf_counts_small : (i : ℕ) → i < 3 → at (5 ∷ 6 ∷ 7 ∷ []) i < 2 ^ 32
leaf_counts_small zero h = omega arith
leaf_counts_small (suc zero) h = omega arith
leaf_counts_small (suc (suc zero)) h = omega arith
leaf_counts_small (suc (suc (suc i))) h = absurd (omega arith)

compute_node_layout-places_example :
    let counts : List ℕ = 5 ∷ 6 ∷ 7 ∷ [] in
    let flags = at (0 ∷ 0 ∷ 1 ∷ []) in
    let new = at (compute_node_layout counts flags (λ i. i) own_leaf (9 ∷ 9 ∷ 9 ∷ 9 ∷ [])) in
    (new 0 ≡ 0)
    × ((i : ℕ)
        → i < 3
        → new (i + 1)
          ≡ u32 (new i + (if is_present own_leaf flags (λ i. i) i then at counts i else 0)))
compute_node_layout-places_example =
    compute_node_layout-places (5 ∷ 6 ∷ 7 ∷ []) (at (0 ∷ 0 ∷ 1 ∷ [])) (λ i. i) own_leaf
      (9 ∷ 9 ∷ 9 ∷ 9 ∷ []) refl leaf_counts_small

check_layout-IsSound_example :
    (check_layout 0 (own_leaf ∷ []) (at (0 ∷ 5 ∷ 5 ∷ 12 ∷ [])) (0 ∷ 1 ∷ 2 ∷ 3 ∷ []) 10 ≡ pos 0) ↔ (
      (i : ℕ) → i < 3 → (i < 0) ⊎ (1 ≤ i) → IsSound (own_leaf ∷ []) (at (0 ∷ 5 ∷ 5 ∷ 12 ∷ [])) 10 i)
check_layout-IsSound_example =
    check_layout-IsSound 0 (own_leaf ∷ []) (at (0 ∷ 5 ∷ 5 ∷ 12 ∷ [])) (0 ∷ 1 ∷ 2 ∷ 3 ∷ []) 10
      (omega arith) (omega arith)

swapped-differ : (k l : ℕ) → k < l → l < 2 → at (1 ∷ 0 ∷ []) k ≢ at (1 ∷ 0 ∷ []) l
swapped-differ zero zero a b e = omega arith
swapped-differ zero (suc zero) a b e = omega arith
swapped-differ (suc k) (suc zero) a b e = omega arith
swapped-differ k (suc (suc l)) a b e = omega arith
swapped-differ (suc k) zero a b e = omega arith

swapped-inside : (k : ℕ) → k < 2 → at (1 ∷ 0 ∷ []) k < 2
swapped-inside zero h = omega arith
swapped-inside (suc zero) h = omega arith
swapped-inside (suc (suc k)) h = absurd (omega arith)

gather-scatter_example :
    at (gather (1 ∷ 0 ∷ []) (at (scatter (1 ∷ 0 ∷ []) (λ i. i + 40) (0 ∷ 0 ∷ []))) (0 ∷ 0 ∷ [])) 1
    ≡ 1 + 40
gather-scatter_example =
    gather-scatter (1 ∷ 0 ∷ []) (λ i. i + 40) (0 ∷ 0 ∷ []) (0 ∷ 0 ∷ []) 1 swapped-differ
      swapped-inside refl (omega arith)

-- The focus tree has the boundaries of the ranks and two keys more.
abbrev focus_keys : List ℕ
focus_keys = 0 ∷ 20 ∷ 50 ∷ 80 ∷ 100 ∷ []

focus_keys-steps : (i : ℕ) → suc i < 5 → at focus_keys i ≤ at focus_keys (suc i)
focus_keys-steps zero h = omega arith
focus_keys-steps (suc zero) h = omega arith
focus_keys-steps (suc (suc zero)) h = omega arith
focus_keys-steps (suc (suc (suc zero))) h = omega arith
focus_keys-steps (suc (suc (suc (suc i)))) h = absurd (omega arith)

translate_rank-leaves_example :
    let range = translate_rank two_ranks focus_keys 1 in
    ((range.start ≤ 2) × (2 < range.end)) ↔ (
      (at two_ranks.rank_boundaries 1 ≤ at focus_keys 2)
      × (at focus_keys 3 ≤ at two_ranks.rank_boundaries 2))
translate_rank-leaves_example =
    translate_rank-leaves two_ranks focus_keys 1 2
      (steps-Ascending (at focus_keys) 5 focus_keys-steps) (omega arith)

initial_domain_splits-Ascending_example :
    let splits = at (initial_domain_splits key32 3 5) in
    (splits 0 ≡ 0)
    × (splits 3 ≡ 8 ^ 10)
    × Ascending splits 0 4
    × ((i : ℕ) → 0 < i → i < 3 → splits i % 8 ^ (10 - 5) ≡ 0)
initial_domain_splits-Ascending_example = initial_domain_splits-Ascending key32 3 5 (omega arith)
