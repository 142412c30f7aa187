-- ===== src/Focus/Inject.antt =====
-- Keys that a leaf array has to have as boundaries (domain/include/cstone/focus/inject.hpp), on the
-- CPU.
pub mod Octree
use sphexa.Base.{List, [], ◌∷◌, ◌++◌, ℕ}
use sphexa.Key.{KeyType}
use sphexa.Sfc.Node.{node_range}
use sphexa.Primitives.Sort.{sort, unique}
use sphexa.Tree.Spanning.{compute_spanning_tree}

unfoldable pub inject_keys : KeyType → List ℕ → List ℕ → List ℕ
inject_keys t tree keys =
    let spanning_keys = unique (sort ((keys ++ 0 ∷ []) ++ node_range t 0 ∷ [])) in
    let spanning_tree = compute_spanning_tree t spanning_keys in
    unique (sort (tree ++ spanning_tree))
