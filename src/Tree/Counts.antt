-- ===== src/Tree/Counts.antt =====
-- Particle counts of the leaf nodes (domain/include/cstone/tree/csarray.hpp): a binary search for
-- each node, with or without a guess that narrows the search.
pub mod Guess
pub mod Total
pub mod Array
use sphexa.Base.{
  ℕ, zero, suc, ◌+◌, ◌-◌, ◌*◌, ◌^◌, Bool, true, false, ◌&&◌, List, [], ◌∷◌, ltb, leb, ◌==◌,
  if◌then◌else◌, min, length, set,
}
use sphexa.Base.Int.{ℤ, pos, negsuc, pos_part, sub_ℕ, leb_ℤ, ltb_ℤ}
use sphexa.Key.{KeyType, key_bits, wrap, wrap_sub, signed, u32, n_nodes}
use sphexa.Sfc.Node.{node_range}
use sphexa.Primitives.Search.{at, lower_bound, upper_bound, stl_min, stl_max}
use sphexa.Primitives.Loop.{write_loop}

-- -1 if all nodes start above the key.
unfoldable pub find_node_below : (ℕ → ℕ) → ℕ → ℕ → ℤ
find_node_below tree num_nodes key = sub_ℕ (upper_bound tree 0 num_nodes key) 1

unfoldable pub find_node_above : (ℕ → ℕ) → ℕ → ℕ → ℕ
find_node_above tree num_nodes key = lower_bound tree 0 num_nodes key

-- The codes are an array and its length; the count is one of `size_t`, returned as `unsigned`.
unfoldable pub calculate_node_count : ℕ → ℕ → (ℕ → ℕ) → ℕ → ℕ → ℕ
calculate_node_count node_start node_end codes n_codes max_count =
    let range_start = lower_bound codes 0 n_codes node_start in
    let range_end = lower_bound codes 0 n_codes node_end in
    u32 (stl_min (range_end - range_start) max_count)

-- d * SI(code) <= targetCode * d, where d is 1 if `up` and else -1: products of two's complement.
unfoldable pub within_target : KeyType → Bool → ℕ → ℕ → Bool
within_target t up code target =
    let times_d = λ (x : ℕ). signed t (if up then x else wrap_sub t 0 x) in
    leb_ℤ (times_d code) (times_d target)

-- firstIdx + searchRange * d
unfoldable pub second_index : Bool → ℕ → ℕ → ℤ
second_index up first_idx search_range =
    if up then pos (first_idx + search_range) else sub_ℕ first_idx search_range

-- The loop that doubles the range, on fuel; it returns the second index.
unfoldable pub widen : KeyType → Bool → (ℕ → ℕ) → ℕ → ℕ → ℕ → ℕ → ℕ → ℤ
widen t up codes n_codes first_idx target zero search_range = second_index up first_idx search_range
widen t up codes n_codes first_idx target (suc fuel) search_range =
    let index = second_index up first_idx search_range in
    let wider = widen t up codes n_codes first_idx target fuel (search_range * 2) in
    if leb_ℤ (pos 0) index
      && ltb_ℤ index (pos n_codes)
      && within_target t up (codes (pos_part index)) target
    then wider
    else index

-- The two ends of the range to search, as offsets from `codesStart`. The range has outgrown the
-- array after as many rounds as there are codes.
unfoldable pub find_search_bounds : KeyType → ℤ → ℕ → (ℕ → ℕ) → ℕ → ℕ × ℕ
find_search_bounds t first_idx target codes n_codes =
    let first = stl_min (n_codes - 1) (pos_part first_idx) in
    let up = ltb (codes first) target in
    let second = widen t up codes n_codes first target n_codes 1 in
    let bounded = stl_min n_codes (pos_part second) in
    if n_codes == 0
    then (0, 0)
    else if leb (node_range t 0) target
    then (lower_bound codes 0 n_codes target, n_codes)
    else (stl_min first bounded, stl_max first bounded)

unfoldable pub update_node_count : KeyType → ℕ → (ℕ → ℕ) → ℤ → ℤ → (ℕ → ℕ) → ℕ → ℕ → ℕ
update_node_count t node_idx tree first_guess second_guess codes n_codes max_count =
    let node_start = tree node_idx in
    let node_end = tree (node_idx + 1) in
    let (a, b) = find_search_bounds t first_guess node_start codes n_codes in
    let range_start = lower_bound codes a b node_start in
    let (c, d) = find_search_bounds t second_guess node_end codes n_codes in
    let range_end = lower_bound codes c d node_end in
    stl_min (u32 (range_end + 2 ^ 32 - range_start)) max_count

-- std::exclusive_scan of `left` elements from the place `i` on, in place and in `unsigned`.
unfoldable pub scan_counts : ℕ → ℕ → ℕ → List ℕ → List ℕ
scan_counts zero i acc counts = counts
scan_counts (suc left) i acc counts =
    scan_counts left (i + 1) (u32 (acc + at counts i)) (set counts i acc)

-- The first node with a key in it and the first behind the last such node. The first key is not
-- below the first node of an octree, which starts at 0, so the search is not 0.
unfoldable pub populated : (ℕ → ℕ) → ℕ → List ℕ → ℕ × ℕ
populated tree n_nodes [] = (n_nodes, n_nodes)
populated tree n_nodes (key ∷ keys) =
    let key_at = at (key ∷ keys) in
    (upper_bound tree 0 n_nodes (key_at 0) - 1, upper_bound tree 0 n_nodes (key_at (length keys)))

unfoldable pub compute_node_counts : KeyType → (ℕ → ℕ) → List ℕ → ℕ → List ℕ → ℕ → Bool → List ℕ
compute_node_counts t tree counts n_nodes keys max_count use_counts_as_guess =
    let (first_node, last_node) = populated tree n_nodes keys in
    let front = write_loop (λ i xs. 0) first_node 0 counts in
    let zeroed = write_loop (λ i xs. 0) (n_nodes - last_node) last_node front in
    let n_non_zero = last_node - first_node in
    let scanned = scan_counts n_non_zero first_node 0 zeroed in
    let guess = λ (xs : List ℕ) (i : ℕ). signed t (wrap t (at xs i)) in
    if use_counts_as_guess
    then write_loop
        (λ i xs.
          update_node_count t i tree (guess xs i) (guess xs (min (i + 1) (n_nodes - 1))) (at keys)
            (length keys) max_count)
        n_non_zero first_node scanned
    else write_loop
        (λ i xs. calculate_node_count (tree i) (tree (i + 1)) (at keys) (length keys) max_count)
        n_non_zero first_node zeroed
