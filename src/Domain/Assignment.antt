-- ===== src/Domain/Assignment.antt =====
-- Which rank a key belongs to (domain/include/cstone/domain/domaindecomp.hpp). The bins of equal
-- counts, found in floating point, are not modelled.
pub mod Owner
pub mod Leaves
pub mod Splits
use sphexa.Base.{
  ℕ, zero, suc, ◌+◌, ◌-◌, ◌*◌, ◌/◌, List, [], ◌∷◌, ltb, if◌then◌else◌, length, set, replicate, map,
}
use sphexa.Base.Int.{ℤ, pos, ltb_ℤ, pos_part, sub_ℕ}
use sphexa.Key.{KeyType, wrap, u32}
use sphexa.Sfc.Node.{node_range}
use sphexa.Sfc.Digit.{enclosing_box_code}
use sphexa.Primitives.Search.{at, lower_bound, upper_bound}
use sphexa.Primitives.Loop.{write_loop}
use sphexa.Tree.Counts.{find_node_above, find_node_below}
use sphexa.Domain.Ranges.{IndexPair, num_ranks}

pub record SfcAssignment : Type 0 where
  pub rank_boundaries : List ℕ
  pub counts : List ℕ

unfoldable pub set_rank : SfcAssignment → ℕ → ℕ → ℕ → SfcAssignment
set_rank assignment rank a count = record {
  rank_boundaries = set assignment.rank_boundaries rank a;
  counts =
      if ltb rank (length assignment.counts)
      then set assignment.counts rank count
      else assignment.counts;
}

unfoldable pub assignment_ranks : SfcAssignment → ℕ
assignment_ranks assignment = length assignment.rank_boundaries - 1

-- -1 for a key below all boundaries
unfoldable pub find_rank : SfcAssignment → ℕ → ℤ
find_rank assignment key =
    let bounds = assignment.rank_boundaries in
    sub_ℕ (upper_bound (at bounds) 0 (length bounds) key) 1

-- `focus_tree` is searched with all its keys.
unfoldable pub translate_rank : SfcAssignment → List ℕ → ℕ → IndexPair
translate_rank assignment focus_tree rank =
    let bounds = at assignment.rank_boundaries in
    let start_index = find_node_above (at focus_tree) (length focus_tree) (bounds rank) in
    let end_index = find_node_below (at focus_tree) (length focus_tree) (bounds (rank + 1)) in
    record {
      start = start_index;
      end = if ltb_ℤ end_index (pos start_index) then start_index else pos_part end_index;
    }

unfoldable pub translate_loop : SfcAssignment → List ℕ → ℕ → ℕ → List IndexPair
translate_loop assignment focus_tree zero rank = []
translate_loop assignment focus_tree (suc left) rank =
    translate_rank assignment focus_tree rank ∷ translate_loop assignment focus_tree left (rank + 1)

unfoldable pub translate_assignment : SfcAssignment → List ℕ → List IndexPair
translate_assignment assignment focus_tree =
    translate_loop assignment focus_tree (assignment_ranks assignment) 0

unfoldable pub create_send_ranges : SfcAssignment → List ℕ → List ℕ
create_send_ranges assignment particle_keys =
    let num = assignment_ranks assignment in
    write_loop
      (λ rank xs.
        lower_bound (at particle_keys) 0 (length particle_keys)
          (at assignment.rank_boundaries rank))
      (num + 1) 0 (replicate (num + 1) 0)

unfoldable pub shift_send_ranges : List ℕ → ℕ → ℕ → List ℕ
shift_send_ranges ranges this_rank num_incoming =
    write_loop (λ rank xs. u32 (at xs rank + num_incoming)) (num_ranks ranges - this_rank)
      (this_rank + 1) ranges

unfoldable pub initial_domain_splits : KeyType → ℕ → ℕ → List ℕ
initial_domain_splits t num_ranks level =
    let delta = node_range t 0 / num_ranks in
    let inner =
      write_loop (λ i xs. enclosing_box_code t (wrap t (i * delta)) level) (num_ranks - 1) 1
        (replicate (num_ranks + 1) 0) in
    set (set inner 0 0) num_ranks (node_range t 0)
