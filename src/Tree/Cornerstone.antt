-- ===== src/Tree/Cornerstone.antt =====
-- The format of the leaf arrays (domain/include/cstone/tree/csarray.hpp): n + 1 keys, the starts of
-- n nodes and the end of the last, and each node one of the octree's cells.
pub mod Siblings
pub mod Tiles
pub mod Union
use native.Mathlib.Decide.{ℕ_discrete}
use sphexa.Base.{ℕ, suc, ◌+◌, ◌*◌, ◌^◌, ◌≤◌, ◌<◌, ◌≡◌, ap, arith, List, length}
use sphexa.Base.Pow.{pow8_pos}
use sphexa.Key.{KeyType, max_tree_level, n_nodes}
use sphexa.Primitives.Search.{at}

-- [a, b) is a cell of the octree: 8 ^ k keys from a multiple of 8 ^ k on.
abbrev pub IsNode : KeyType → ℕ → ℕ → Type 0
IsNode t a b = (k : ℕ) × (q : ℕ) × (k ≤ max_tree_level t) × (a ≡ q * 8 ^ k) × (b ≡ a + 8 ^ k)

-- The keys `tree 0`, ..., `tree n` are a cornerstone octree: its nodes cover the key space.
pub record IsOctree (t : KeyType) (tree : ℕ → ℕ) (n : ℕ) : Type 0 where
  pub starts : tree 0 ≡ 0
  pub ends : tree n ≡ 8 ^ max_tree_level t
  pub node : (i : ℕ) → i < n → IsNode t (tree i) (tree (i + 1))

-- The nodes `g`, ..., `g + 7` are the eight children of one cell, of 8 ^ k keys each.
pub record IsGroup (t : KeyType) (tree : ℕ → ℕ) (n g k : ℕ) : Type 0 where
  pub parent : ℕ
  pub aligned : tree g ≡ parent * 8 ^ suc k
  pub deep : k < max_tree_level t
  pub inside : g + 8 ≤ n
  pub child : (d : ℕ) → d ≤ 8 → tree (g + d) ≡ tree g + d * 8 ^ k

-- There is a node, since the key space is not empty.
pub IsOctree-pos : {t : KeyType} {tree : ℕ → ℕ} {n : ℕ} → IsOctree t tree n → 0 < n
IsOctree-pos {t} {tree} {n} o = elim (ℕ_discrete n 0) [
  | yes z ↦ absurd (omega (arith, o.starts, o.ends, ap tree z, pow8_pos (max_tree_level t)))
  | no nz ↦ omega arith
]

pub IsOctree-length :
    {t : KeyType} (tree : List ℕ)
    → IsOctree t (at tree) (n_nodes tree)
    → length tree ≡ suc (n_nodes tree)
IsOctree-length tree o = omega (arith, IsOctree-pos o)
