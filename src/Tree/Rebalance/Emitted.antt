-- ===== src/Tree/Rebalance/Emitted.antt =====
-- The new array of rebalanceTree (tree/csarray.hpp) as a list: the keys of each node's successors,
-- in order.
use mathlib.Core.List.{append_assoc}
use native.Mathlib.Nat.{mul-div_cancel}
use sphexa.Base.{
  ℕ, zero, suc, ◌+◌, ◌-◌, ◌*◌, ◌/◌, ◌^◌, ◌≤◌, ◌<◌, ◌≡◌, refl, ap, ◌∙◌, arith, List, [], ◌++◌,
  length, length-append, drop, drop-drop, length-drop,
}
use sphexa.Base.Pow.{pow8_pos, pow8-split}
use sphexa.Key.{KeyType}
use sphexa.Tree.Cornerstone.{IsOctree}
use sphexa.Tree.Cornerstone.Siblings.{tree-le}
use sphexa.Tree.Cornerstone.Tiles.{rungs, length-rungs}
use sphexa.Tree.Rebalance.{process_node, process_loop}
use sphexa.Tree.Rebalance.Groups.{op, decided, Decided}
use sphexa.Tree.Rebalance.Writes.{process_node-split, process_node-none}

-- `ops i` nodes of equal size take the place of node `i`.
unfoldable pub node_keys : (ℕ → ℕ) → (ℕ → ℕ) → ℕ → List ℕ
node_keys tree ops i = rungs (tree i) ((tree (i + 1) - tree i) / ops i) (ops i)

pub length-node_keys : (tree ops : ℕ → ℕ) (i : ℕ) → length (node_keys tree ops i) ≡ ops i
unfolding node_keys
length-node_keys tree ops i = length-rungs (tree i) ((tree (i + 1) - tree i) / ops i) (ops i)

unfoldable pub emitted : (ℕ → ℕ) → (ℕ → ℕ) → ℕ → ℕ → List ℕ
emitted tree ops zero i = []
emitted tree ops (suc m) i = node_keys tree ops i ++ emitted tree ops m (i + 1)

unfoldable pub total : (ℕ → ℕ) → ℕ → ℕ → ℕ
total ops zero i = 0
total ops (suc m) i = ops i + total ops m (i + 1)

pub length-emitted : (tree ops : ℕ → ℕ) (m i : ℕ) → length (emitted tree ops m i) ≡ total ops m i
unfolding emitted total
length-emitted tree ops zero i = refl
length-emitted tree ops (suc m) i = omega (
  arith,
  length-append (node_keys tree ops i) (emitted tree ops m (i + 1)),
  length-emitted tree ops m (i + 1),
  length-node_keys tree ops i,
)

-- One run of the offsets goes up by the operation of each node.
pub total-offsets :
    (ops offsets : ℕ → ℕ) (n : ℕ)
    → ((i : ℕ) → i < n → offsets (i + 1) ≡ offsets i + ops i)
    → (m i j : ℕ) → i + m ≡ j
    → j ≤ n
    → offsets i + total ops m i ≡ offsets j
unfolding total
total-offsets ops offsets n h zero i j e b = omega (arith, ap offsets {x = i} {y = j} (omega arith))
total-offsets ops offsets n h (suc m) i j e b =
    omega (arith, h i (omega arith), total-offsets ops offsets n h m (i + 1) j (omega arith) b)

pub split_width : (k e a b : ℕ) → e ≤ k → b ≡ a + 8 ^ k → b - a ≡ 8 ^ (k - e) * 8 ^ e
split_width k e a b h next = omega (arith, pow8-split e k h)

module _ (t : KeyType) (tree : ℕ → ℕ) (n : ℕ) (o : IsOctree t tree n) (counts : ℕ → ℕ)
    (bucket_size : ℕ) (offsets : ℕ → ℕ)
    (rises : (i : ℕ)
      → i < n
      → offsets (i + 1) ≡ offsets i + op t tree n o counts bucket_size i) where
  abbrev ops : ℕ → ℕ
  ops = op t tree n o counts bucket_size

  process_node-node_keys :
      (i : ℕ) (front back : List ℕ)
      → i < n
      → length front ≡ offsets i
      → ops i ≤ length back
      → process_node t i tree offsets (front ++ back)
        ≡ front ++ (node_keys tree ops i ++ drop (ops i) back)
  unfolding node_keys rungs
  process_node-node_keys i front back h g r = elim (decided t tree n o counts bucket_size i h) [
    | Decided.merge e _ ↦
        rw (process_node-none t i tree offsets (front ++ back) (omega (arith, rises i h)), e)
    | Decided.split e k p small b c next ↦
        let width : (tree (i + 1) - tree i) / 8 ^ e ≡ 8 ^ (k - e) =
          ap (λ (x : ℕ). x / 8 ^ e) (split_width k e (tree i) (tree (i + 1)) b next)
          ∙ mul-div_cancel (8 ^ (k - e)) (pow8_pos e) in
        let end = tree-le t tree n o (i + 1) (n - (i + 1)) n (omega arith) (omega arith) in
        rw (p, width)
          (process_node-split t i k e tree offsets front back c b small next (omega (arith, o.ends))
            (omega (arith, rises i h)) g (omega arith))
  ]

  pub process_loop-emitted :
      (m i : ℕ) (front back : List ℕ)
      → i + m ≤ n
      → length front ≡ offsets i
      → total ops m i ≤ length back
      → process_loop t tree offsets m i (front ++ back)
        ≡ front ++ (emitted tree ops m i ++ drop (total ops m i) back)
  unfolding process_loop emitted total
  process_loop-emitted zero i front back h g r = refl
  process_loop-emitted (suc m) i front back h g r =
      let keys = node_keys tree ops i in
      let rest =
        process_loop-emitted m (i + 1) (front ++ keys) (drop (ops i) back) (omega arith)
          (omega
            (arith, length-append front keys, rises i (omega arith), length-node_keys tree ops i))
          (omega (arith, length-drop (ops i) back)) in
      rw (
        process_node-node_keys i front back (omega arith) g (omega arith),
        ← append_assoc front keys (drop (ops i) back),
        rest,
        drop-drop (ops i) (total ops m (i + 1)) back,
        append_assoc front keys
            (emitted tree ops m (i + 1) ++ drop (ops i + total ops m (i + 1)) back),
        append_assoc keys (emitted tree ops m (i + 1)) (drop (ops i + total ops m (i + 1)) back),
      )
