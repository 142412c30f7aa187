-- ===== src/Domain/Layout.antt =====
-- Ranges of leaf nodes and the layout of the particle arrays (domain/include/cstone/domain/layout.hpp).
-- The branches for the GPU are not modelled.
pub mod Inverse
pub mod Marked
pub mod Offsets
pub mod Checked
use sphexa.Base.{
  ℕ, zero, suc, ◌+◌, ◌-◌, ◌^◌, Bool, true, false, ◌&&◌, ◌||◌, List, [], ◌∷◌, ◌++◌, ltb, leb, ◌==◌,
  if◌then◌else◌, length, get_or, map, replicate, not, bit_and,
}
use sphexa.Base.Int.{ℤ, pos, negsuc}
use sphexa.Key.{u32, sub32, n_nodes}
use sphexa.Primitives.Search.{at}
use sphexa.Primitives.Loop.{write_loop}
use sphexa.Tree.Rebalance.{exclusive_scan}
use sphexa.Tree.Counts.{scan_counts}
use sphexa.Domain.Ranges.{IndexPair}

-- The loop over the ranges from `current` on; the code asserts that they are sorted.
unfoldable pub invert_ranges : ℕ → List IndexPair → ℕ → List IndexPair
invert_ranges current [] last =
    if ltb current last then record { start = current; end = last } ∷ [] else []
invert_ranges current (range ∷ ranges) last =
    let skip = invert_ranges current ranges last in
    let rest = invert_ranges range.end ranges last in
    if range.start == range.end
    then skip
    else if ltb current range.start
    then record { start = current; end = range.start } ∷ rest
    else rest

abbrev pub count : IndexPair → ℕ
count range = range.end - range.start

-- std::iota of `start`, from the place `offset` on, for each of the ranges.
unfoldable pub iota_loop : List IndexPair → List ℕ → ℕ → List ℕ → List ℕ
iota_loop [] range_counts i ret = ret
iota_loop (range ∷ ranges) range_counts i ret =
    let offset = at range_counts i in
    iota_loop ranges range_counts (i + 1)
      (write_loop (λ k xs. range.start + (k - offset)) (count range) offset ret)

unfoldable pub enumerate_ranges : List IndexPair → List ℕ
enumerate_ranges ranges =
    let range_counts = exclusive_scan 0 (map count ranges ++ 0 ∷ []) in
    iota_loop ranges range_counts 0 (replicate (at range_counts (length ranges)) 0)

-- The inner loops, on fuel: while (first < second && test(first)) { first++; }
unfoldable pub advance : (ℕ → Bool) → ℕ → ℕ → ℕ → ℕ
advance test zero first second = first
advance test (suc fuel) first second =
    let rest = advance test fuel (first + 1) second in
    if ltb first second && test first then rest else first

unfoldable pub skip_unmarked : (ℕ → ℕ) → ℕ → ℕ → ℕ
skip_unmarked flags first second =
    advance (λ i. flags (i + 1) == flags i) (second - first) first second

unfoldable pub skip_marked : (ℕ → ℕ) → ℕ → ℕ → ℕ
skip_marked flags first second =
    advance (λ i. ltb (flags i) (flags (i + 1))) (second - first) first second

-- The outer loop; it makes no progress where the flags fall, and each range takes an index else.
unfoldable pub extract_loop : (ℕ → ℕ) → (ℕ → ℕ) → ℕ → ℕ → ℕ → List ℕ
extract_loop source flags zero first second = []
extract_loop source flags (suc fuel) first second =
    let start = skip_unmarked flags first second in
    let end = skip_marked flags start second in
    let rest = extract_loop source flags fuel end second in
    if first == second then [] else if start == second then [] else source start ∷ source end ∷ rest

unfoldable pub extract_marked_elements : (ℕ → ℕ) → (ℕ → ℕ) → ℕ → ℕ → List ℕ
extract_marked_elements source flags first second =
    extract_loop source flags (second - first) first second

-- The bit mask -int(haveParticles), of 32 bits.
unfoldable pub node_mask : IndexPair → (ℕ → ℕ) → (ℕ → ℕ) → ℕ → ℕ
node_mask idx flags leaf_to_internal i =
    if leb idx.start i && ltb i idx.end || not (flags (leaf_to_internal i) == 0)
    then 2 ^ 32 - 1
    else 0

unfoldable pub compute_node_layout : List ℕ → (ℕ → ℕ) → (ℕ → ℕ) → IndexPair → List ℕ → List ℕ
compute_node_layout focus_leaf_counts flags leaf_to_internal idx layout =
    let present =
      write_loop (λ i xs. bit_and (node_mask idx flags leaf_to_internal i) (at focus_leaf_counts i))
        (length focus_leaf_counts) 0 layout in
    scan_counts (length layout) 0 0 present

-- The range of a rank; the code reads no rank out of bounds.
abbrev pub range_of : List IndexPair → ℕ → IndexPair
range_of focus_assignment rank = get_or focus_assignment rank (record { start = 0; end = 0 })

unfoldable pub peer_found : List IndexPair → ℕ → Bool
peer_found [] i = false
peer_found (range ∷ ranges) i = leb range.start i && ltb i range.end || peer_found ranges i

-- `left` nodes from `i` on.
unfoldable pub check_range : List IndexPair → (ℕ → ℕ) → ℕ → ℕ → ℕ → ℤ → ℤ
check_range focus_assignment layout max_particles zero i ret = ret
check_range focus_assignment layout max_particles (suc left) i ret =
    let lost = ltb (layout i) (layout (i + 1)) && not (peer_found focus_assignment i) in
    let ret_found = if lost then pos 1 else ret in
    let ret_size =
      if ltb max_particles (sub32 (layout (i + 1)) (layout i)) then negsuc 0 else ret_found in
    check_range focus_assignment layout max_particles left (i + 1) ret_size

unfoldable pub check_layout : ℕ → List IndexPair → (ℕ → ℕ) → List ℕ → ℕ → ℤ
check_layout my_rank focus_assignment layout ftree max_particles =
    let mine = range_of focus_assignment my_rank in
    let head = check_range focus_assignment layout max_particles mine.start 0 (pos 0) in
    check_range focus_assignment layout max_particles (n_nodes ftree - mine.end) mine.end head
