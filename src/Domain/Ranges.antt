-- ===== src/Domain/Ranges.antt =====
-- Index ranges to be sent (domain/include/cstone/domain/index_ranges.hpp).
pub mod Scan
use sphexa.Base.{
  ℕ, zero, suc, ◌+◌, ◌-◌, ◌≤◌, ◌<◌, List, [], ◌∷◌, ◌++◌, ◌==◌, leb, if◌then◌else◌, length, max,
  Option, none, some, get_elem?, set,
}
use sphexa.Key.{u32, sub32, u64}
use sphexa.Primitives.Search.{at}

pub record IndexPair : Type 0 where
  pub start : ℕ
  pub end : ℕ

-- `scan` has one element more than `offsets`; it holds 32-bit indices, and the total 64 bits.
pub record IndexRanges : Type 0 where
  pub total_count : ℕ
  pub offsets : List ℕ
  pub scan : List ℕ

abbrev pub no_ranges : IndexRanges
no_ranges = record { total_count = 0; offsets = []; scan = 0 ∷ [] }

-- The difference is one of `LocalIndex`; the code asserts lower <= upper.
unfoldable pub add_range : IndexRanges → ℕ → ℕ → IndexRanges
add_range ranges lower upper =
    let total = u64 (ranges.total_count + sub32 upper lower) in
    if lower == upper then ranges else record {
      total_count = total;
      offsets = ranges.offsets ++ lower ∷ [];
      scan = ranges.scan ++ u32 total ∷ [];
    }

unfoldable pub range_start : IndexRanges → ℕ → ℕ
range_start ranges i = at ranges.offsets i

unfoldable pub range_count : IndexRanges → ℕ → ℕ
range_count ranges i = sub32 (at ranges.scan (i + 1)) (at ranges.scan i)

unfoldable pub range_end : IndexRanges → ℕ → ℕ
range_end ranges i = u32 (range_start ranges i + range_count ranges i)

unfoldable pub n_ranges : IndexRanges → ℕ
n_ranges ranges = length ranges.offsets

-- SendList: one IndexRanges for each rank. Both loops go over the ranks in order.
unfoldable pub send_total : List IndexRanges → ℕ → ℕ
send_total [] count = count
send_total (ranges ∷ send_list) count = send_total send_list (u64 (count + ranges.total_count))

unfoldable pub max_num_ranges : List IndexRanges → ℕ → ℕ
max_num_ranges [] ret = ret
max_num_ranges (ranges ∷ send_list) ret = max_num_ranges send_list (max ret (n_ranges ranges))

-- SendRanges: the places where the ranges of the ranks start, and the last end.
unfoldable pub num_ranks : List ℕ → ℕ
num_ranks ranges = length ranges - 1

unfoldable pub send_count : List ℕ → ℕ → ℕ
send_count ranges rank =
    if leb (at ranges rank) (at ranges (rank + 1)) then at ranges (rank + 1) - at ranges rank else 0

-- ExchangeLog: a rank and a place for each message, in order.
unfoldable pub add_exchange : List (ℕ × ℕ) → ℕ → ℕ → List (ℕ × ℕ)
add_exchange log rank location = log ++ (rank, location) ∷ []

-- The first message of the rank; the code asserts that there is one.
unfoldable pub lookup : List (ℕ × ℕ) → ℕ → Option ℕ
lookup [] rank = none
lookup ((r, location) ∷ log) rank = if r == rank then some location else lookup log rank
