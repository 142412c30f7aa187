-- ===== src/Tree/Spanning.antt =====
-- The octree around given keys (domain/include/cstone/tree/csarray.hpp), and the utilities of
-- domain/include/cstone/tree/cs_util.hpp. The class OctreeMaker of the tests is not modelled.
pub mod Checks
pub mod Cover
use sphexa.Base.{
  ℕ, zero, suc, ◌+◌, ◌-◌, ◌*◌, ◌/◌, ◌^◌, Bool, true, false, ◌&&◌, ◌||◌, not, List, [], ◌∷◌, ◌++◌,
  length, set, replicate, leb, ltb, ◌==◌, if◌then◌else◌,
}
use sphexa.Key.{KeyType, max_tree_level, key_bits, wrap, wrap_sub, u32, n_nodes}
use sphexa.Sfc.Node.{node_range, log8ceil, is_power_of_8}
use sphexa.Sfc.Span.{Span, span_sfc_range}
use sphexa.Primitives.Search.{at}
use sphexa.Primitives.Loop.{write_loop}
use sphexa.Tree.Rebalance.{exclusive_scan}

unfoldable pub write_values : List ℕ → ℕ → List ℕ → List ℕ
write_values [] index tree = tree
write_values (x ∷ xs) index tree = write_values xs (index + 1) (set tree index x)

unfoldable pub spanning_loop : KeyType → (ℕ → ℕ) → (ℕ → ℕ) → ℕ → ℕ → List ℕ → List ℕ
spanning_loop t keys offsets zero i tree = tree
spanning_loop t keys offsets (suc left) i tree =
    let span = span_sfc_range t (keys i) (keys (i + 1)) in
    spanning_loop t keys offsets left (i + 1) (write_values span.output (offsets i) tree)

unfoldable pub compute_spanning_tree : KeyType → List ℕ → List ℕ
compute_spanning_tree t spanning_keys =
    let keys = at spanning_keys in
    let num_intervals = length spanning_keys - 1 in
    let counts =
      write_loop (λ i xs. let span = span_sfc_range t (keys i) (keys (i + 1)) in span.num_values)
        num_intervals 0 (replicate (num_intervals + 1) 0) in
    let offsets = at (exclusive_scan 0 counts) in
    let size = offsets num_intervals + 1 in
    let tree = spanning_loop t keys offsets num_intervals 0 (replicate size 0) in
    set tree (size - 1) (node_range t 0)

-- `left` nodes from `i` on.
unfoldable pub check_nodes : KeyType → (ℕ → ℕ) → ℕ → ℕ → ℕ → Bool
check_nodes t tree num_nodes zero i = true
check_nodes t tree num_nodes (suc left) i =
    let range = wrap_sub t (tree (i + 1)) (tree i) in
    let rest = check_nodes t tree num_nodes left (i + 1) in
    if ltb (i + 1) num_nodes && leb (tree (i + 1)) (tree i)
    then false
    else if range == 0
    then false
    else if not (is_power_of_8 t range)
    then false
    else rest

unfoldable pub check_octree_invariants : KeyType → (ℕ → ℕ) → ℕ → Bool
check_octree_invariants t tree num_nodes =
    if ltb num_nodes 1
    then false
    else if not (tree 0 == 0) || not (tree num_nodes == node_range t 0)
    then false
    else check_nodes t tree num_nodes num_nodes 0

unfoldable pub make_root_node_tree : KeyType → List ℕ
make_root_node_tree t = [] ++ 0 ∷ [] ++ node_range t 0 ∷ []

unfoldable pub grid_loop : KeyType → ℕ → ℕ → ℕ → List ℕ → List ℕ
grid_loop t tick_range zero i codes = codes
grid_loop t tick_range (suc left) i codes =
    grid_loop t tick_range left (i + 1) (codes ++ wrap t (i * tick_range) ∷ [])

-- The product of the ticks is one of `unsigned`, whatever the key type.
unfoldable pub make_n_level_grid : KeyType → ℕ → List ℕ
make_n_level_grid t level =
    let ticks_per_dim = u32 (2 ^ level) in
    let num_nodes = wrap t (u32 (u32 (ticks_per_dim * ticks_per_dim) * ticks_per_dim)) in
    grid_loop t (node_range t level) num_nodes 0 []

unfoldable pub make_uniform_n_level_tree : KeyType → ℕ → ℕ → List ℕ
make_uniform_n_level_tree t n_particles bucket_size =
    let level = log8ceil t (wrap t (n_particles / bucket_size)) in
    make_n_level_grid t level ++ node_range t 0 ∷ []

-- `left` indices from `idx` on, of all levels that the type has bits for.
unfoldable pub code_loop : KeyType → (ℕ → ℕ) → ℕ → ℕ → ℕ → ℕ → ℕ
code_loop t indices n_levels zero idx ret = ret
code_loop t indices n_levels (suc left) idx ret =
    let tree_level = n_levels - idx - 1 in
    code_loop t indices n_levels left (idx + 1)
      (wrap t (ret + wrap t (indices idx * 2 ^ (3 * tree_level))))

unfoldable pub code_from_indices : KeyType → (ℕ → ℕ) → ℕ
code_from_indices t indices =
    let n_levels = key_bits t / 3 in code_loop t indices n_levels n_levels 0 0
