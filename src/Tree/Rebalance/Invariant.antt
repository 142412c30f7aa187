-- ===== src/Tree/Rebalance/Invariant.antt =====
-- The rebalance step and the format of the octree (rebalanceDecision and rebalanceTree of
-- tree/csarray.hpp).
use native.Mathlib.Decide.{dec_lt, ℕ_discrete}
use native.Mathlib.Nat.{mul-div_cancel}
use sphexa.Base.{
  ℕ, zero, suc, ◌+◌, ◌-◌, ◌*◌, ◌/◌, ◌^◌, ◌≤◌, ◌<◌, ◌≡◌, ◌≢◌, refl, ap, sym, ◌∙◌, arith, List, [],
  ◌∷◌, ◌++◌, length, length-append, replicate,
}
use sphexa.Base.Int.{ℤ, pos_part}
use sphexa.Base.Pow.{pow8_pos, pow8-injective, pow8-suc}
use sphexa.Key.{KeyType, max_tree_level, n_nodes}
use sphexa.Primitives.Search.{at}
use sphexa.Tree.Cornerstone.{IsOctree, IsGroup, IsOctree-pos}
use sphexa.Tree.Cornerstone.Tiles.{Tiles, Tiles-append, rungs, split-Tiles, Tiles-IsOctree}
use sphexa.Tree.Rebalance.{sibling_and_level, group_count, rebalance_decision, rebalance_tree}
use sphexa.Tree.Rebalance.Decision.{sibling_and_level-child}
use sphexa.Tree.Rebalance.Groups.{op, op-younger, op-first_merge, Merged, Decided, decided}
use sphexa.Tree.Rebalance.Emitted.{split_width, node_keys, emitted}
use sphexa.Tree.Rebalance.Arrays.{rebalance-emitted}

module _ (t : KeyType) (tree : ℕ → ℕ) (n : ℕ) (o : IsOctree t tree n) (counts : ℕ → ℕ)
    (bucket_size : ℕ) (small : bucket_size * 512 < 2 ^ 32) where
  abbrev ops : ℕ → ℕ
  ops = op t tree n o counts bucket_size

  -- A node that is not merged away is followed by its successors.
  node_keys-Tiles :
      (i : ℕ) → i < n → ops i ≢ 0 → Tiles t (tree i) (node_keys tree ops i) (tree (i + 1))
  unfolding node_keys
  node_keys-Tiles i h nz = elim (decided t tree n o counts bucket_size i h) [
    | Decided.merge e _ ↦ absurd (nz e)
    | Decided.split e k p x c b next ↦
        let (j, q, d, f, g) = o.node i h in
        let same : j ≡ k = pow8-injective j k (omega arith) in
        let width : (tree (i + 1) - tree i) / 8 ^ e ≡ 8 ^ (k - e) =
          ap (λ (x : ℕ). x / 8 ^ e) (split_width k e (tree i) (tree (i + 1)) c next)
          ∙ mul-div_cancel (8 ^ (k - e)) (pow8_pos e) in
        rw (p, width, next) (split-Tiles t k q e (tree i) b c (f ∙ ap (λ (x : ℕ). q * 8 ^ x) same))
  ]

  -- The younger nodes of a merged group write nothing.
  emitted-younger :
      (left d m rest g k : ℕ)
      → IsGroup t tree n g k
      → group_count counts g ≤ bucket_size
      → 0 < d
      → d + left ≡ 8
      → rest ≡ left + m
      → emitted tree ops rest (g + d) ≡ emitted tree ops m (g + 8)
  unfolding emitted node_keys rungs
  emitted-younger zero d m rest g k v h p e f =
      let all : rest ≡ m = omega arith in
      let end : g + d ≡ g + 8 = omega arith in rw (all, end) refl
  emitted-younger (suc left) d m zero g k v h p e f = absurd (omega arith)
  emitted-younger (suc left) d m (suc rest) g k v h p e f =
      let gone = op-younger t tree n o counts bucket_size g k d v p (omega arith) h in
      let next : g + d + 1 ≡ g + suc d = omega arith in
      rw (gone, next)
        (emitted-younger left (suc d) m rest g k v h (omega arith) (omega arith) (omega arith))

  -- The first is kept.
  pub emitted-group :
      (m rest g k : ℕ)
      → IsGroup t tree n g k
      → group_count counts g ≤ bucket_size
      → rest ≡ 7 + m
      → emitted tree ops (suc rest) g ≡ tree g ∷ emitted tree ops m (g + 8)
  unfolding emitted node_keys rungs
  emitted-group m rest g k v h e =
      rw (op-first_merge t tree n o counts bucket_size g k v small h)
        (ap (◌∷◌ (tree g)) (emitted-younger 7 1 m rest g k v h (omega arith) (omega arith) e))

  -- Two groups have no node in common but as a whole.
  group_unique :
      (g g' k k' d d' : ℕ)
      → IsGroup t tree n g k
      → IsGroup t tree n g' k'
      → d < 8
      → d' < 8
      → g + d ≡ g' + d'
      → (d ≡ d') × (g ≡ g')
  group_unique g g' k k' d d' v v' b b' e =
      let same =
        sym (sibling_and_level-child t tree n o g k d v b)
        ∙ ap (sibling_and_level t tree) e
        ∙ sibling_and_level-child t tree n o g' k' d' v' b' in
      let octant : d ≡ d' = ap (λ (x : ℤ × ℕ). pos_part (x.0)) same in (octant, omega arith)

  -- A merged node is a younger child of its group.
  pub gone : (i : ℕ) → i < n → ops i ≡ 0 → Merged t tree n o counts bucket_size i
  gone i h z = elim (decided t tree n o counts bucket_size i h) [
    | Decided.merge _ g ↦ g
    | Decided.split e _ p _ _ _ _ ↦ absurd (omega (arith, pow8_pos e))
  ]

  -- The node before a merged node is merged, or it is the first of the group.
  pub before_gone :
      (i g k d : ℕ)
      → i + 1 ≡ g + d
      → IsGroup t tree n g k
      → 0 < d
      → d < 8
      → group_count counts g ≤ bucket_size
      → ops i ≢ 0
      → i ≡ g
  before_gone i g k d e v p b c nz = elim (ℕ_discrete d 1) [
    | yes one ↦ omega arith
    | no more ↦
        let here : g + (d - 1) ≡ i = omega arith in
        absurd (
          nz (
            ap ops (sym here)
            ∙ op-younger t tree n o counts bucket_size g k (d - 1) v (omega arith) (omega arith) c))
  ]

  -- The node behind a group is not merged away.
  pub behind_group : (g k : ℕ) → IsGroup t tree n g k → g + 8 < n → ops (g + 8) ≢ 0
  behind_group g k v h z = elim (gone (g + 8) h z) [
    | Merged.merged g' k' d e v' p b _ ↦
        let (octant, _) =
          group_unique g g' k k' 7 (d - 1) v v' (omega arith) (omega arith) (omega arith) in
        absurd (omega arith)
  ]

  -- The first node is not merged away.
  pub first_kept : 0 < n → ops 0 ≢ 0
  first_kept h z = elim (gone 0 h z) [ Merged.merged g k d e _ p _ _ ↦ absurd (omega arith) ]

  -- Where the nodes from `i` on are emitted, they tile the rest of the key space; the fuel
  -- counts the nodes left, and a group of eight takes one step.
  pub emitted-Tiles :
      (fuel m i : ℕ)
      → m ≤ fuel
      → i + m ≡ n
      → (0 < m → ops i ≢ 0)
      → Tiles t (tree i) (emitted tree ops m i) (tree n)
  unfolding emitted
  emitted-Tiles fuel zero i f e nz = let here : i ≡ n = omega arith in rw here Tiles.done
  emitted-Tiles zero (suc m) i f e nz = absurd (omega arith)
  emitted-Tiles (suc fuel) (suc m) i f e nz = elim (dec_lt 0 m) [
    | no last ↦
        Tiles-append (node_keys-Tiles i (omega arith) (nz (omega arith)))
          (emitted-Tiles fuel m (i + 1) (omega arith) (omega arith) (λ p. absurd (omega arith)))
    | yes more ↦ elim (ℕ_discrete (ops (i + 1)) 0) [
      | no kept ↦
          Tiles-append (node_keys-Tiles i (omega arith) (nz (omega arith)))
            (emitted-Tiles fuel m (i + 1) (omega arith) (omega arith) (λ _. kept))
      | yes z ↦ elim (gone (i + 1) (omega arith) z) [
        | Merged.merged g k d w v p b c ↦
            let first : i ≡ g = before_gone i g k d w v p b c (nz (omega arith)) in
            let whole : tree (g + 8) ≡ tree g + 8 ^ suc k = omega (arith, v.child 8, pow8-suc k) in
            rw (first, emitted-group (m - 7) m g k v c (omega (arith, v.inside)))
              (Tiles.tile (tree (g + 8)) (suc k, v.parent, v.deep, v.aligned, whole)
                (emitted-Tiles fuel (m - 7) (g + 8) (omega arith) (omega (arith, v.inside))
                  (λ q. behind_group g k v (omega arith))))
      ]
    ]
  ]

-- Carrying out the operations that rebalance_decision finds for an octree, by rebalance_tree,
-- leads to an octree again: its keys start at 0, end at the end of the key space, and each two
-- neighbours bound a cell. This holds for all counts, and for bucket sizes of which 512 times
-- the value fits 32 bits.
pub rebalance-IsOctree :
    (t : KeyType) (tree : List ℕ) (counts : ℕ → ℕ) (bucket_size : ℕ)
    → bucket_size * 512 < 2 ^ 32
    → IsOctree t (at tree) (n_nodes tree)
    → let ops =
        (rebalance_decision t
          (at tree)
          counts
          (n_nodes tree)
          bucket_size
          (replicate {A = ℕ} (suc (n_nodes tree)) 0)).0 in
      let new_tree = rebalance_tree t tree ops in IsOctree t (at new_tree) (n_nodes new_tree)
rebalance-IsOctree t tree counts bucket_size small o =
    let n = n_nodes tree in
    let filled : 0 < n = IsOctree-pos o in
    let keys = emitted (at tree) (op t (at tree) n o counts bucket_size) n 0 in
    let start =
      emitted-Tiles t (at tree) n o counts bucket_size small n n 0 (omega arith) (omega arith)
        (λ _. first_kept t (at tree) n o counts bucket_size small filled) in
    let tiles = rw (o.starts, o.ends) at start in
    let count : n_nodes (keys ++ 8 ^ max_tree_level t ∷ []) ≡ length keys =
      omega (arith, length-append keys (8 ^ max_tree_level t ∷ [])) in
    rw (rebalance-emitted t tree counts bucket_size o, o.ends, count) (Tiles-IsOctree tiles)
