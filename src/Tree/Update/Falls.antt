-- ===== src/Tree/Update/Falls.antt =====
-- The number of Potential falls by a rebalance step, by at least one for each operation that is not
-- to keep the node (rebalanceDecision and rebalanceTree of tree/csarray.hpp).
use native.Mathlib.Decide.{dec_lt, ℕ_discrete}
use native.Mathlib.Nat.{mul-div_cancel}
use sphexa.Base.{
  ℕ, zero, suc, ◌+◌, ◌-◌, ◌*◌, ◌/◌, ◌^◌, ◌≤◌, ◌<◌, ◌≡◌, ◌≢◌, refl, ap, ◌∙◌, arith, inl, inr, List,
  mul-le-mul,
}
use sphexa.Base.Pow.{pow8_pos, pow8-split, pow8-le}
use sphexa.Key.{KeyType, max_tree_level}
use sphexa.Tree.Cornerstone.{IsOctree, IsGroup}
use sphexa.Tree.Cornerstone.Siblings.{tree-le}
use sphexa.Tree.Cornerstone.Tiles.{rungs}
use sphexa.Tree.Rebalance.{group_count}
use sphexa.Tree.Rebalance.Decision.{split_op-keep}
use sphexa.Tree.Rebalance.Groups.{op, op-first_merge, Merged, Decided, decided}
use sphexa.Tree.Rebalance.Emitted.{split_width, node_keys, emitted}
use sphexa.Tree.Rebalance.Invariant.{gone, emitted-Tiles, emitted-group, before_gone, behind_group}
use sphexa.Tree.Update.Balanced.{op-level}
use sphexa.Tree.Update.Potential.{
  first, Tiles-first, changes, changes-one, changes-keep, changes-le, changes-split, cost, spread,
  cells, spread-append, spread-rungs, cost-one, cost-square,
}

-- 8 ^ e parts of a node weigh less than the node, if there are eight or more.
parts-lt : (x w n : ℕ) → 8 ≤ x → 0 < w → n ≡ w * x → x * (w * w) + 1 ≤ n * n
parts-lt x w n h p e =
    let one : 1 ≤ w * w = grind arith in
    let y : 1 ≤ x * (w * w) = grind arith in
    let big : 8 * (x * (w * w)) ≤ x * (x * (w * w)) = mul-le-mul 8 x (x * (w * w)) h in
    let same : n * n ≡ x * (x * (w * w)) = rw e (grind arith) in omega arith

-- The counts of a node and its next d nodes.
run_count : (ℕ → ℕ) → ℕ → ℕ → ℕ
run_count counts g zero = counts g
run_count counts g (suc d) = run_count counts g d + counts (g + suc d)

group_count-run : (counts : ℕ → ℕ) (g : ℕ) → group_count counts g ≡ run_count counts g 7
unfolding group_count run_count
group_count-run counts g = refl

count-le-run : (counts : ℕ → ℕ) (g d e : ℕ) → d ≤ e → counts (g + d) ≤ run_count counts g e
unfolding run_count
count-le-run counts g d zero h = let here : g + d ≡ g = omega arith in rw here (omega arith)
count-le-run counts g d (suc e) h = elim (ℕ_discrete d (suc e)) [
  | yes last ↦ rw last (omega arith)
  | no other ↦ omega (arith, count-le-run counts g d e (omega arith))
]

module _ (t : KeyType) (tree : ℕ → ℕ) (n : ℕ) (o : IsOctree t tree n) (counts : ℕ → ℕ)
    (bucket_size : ℕ) (small : bucket_size * 512 < 2 ^ 32) (f : ℕ → ℕ → ℕ)
    (parts : (a b c : ℕ) → a ≤ b → b ≤ c → f a c ≤ f a b + f b c)
    (counted : (i : ℕ) → i < n → counts i ≡ f (tree i) (tree (i + 1))) where
  abbrev ops : ℕ → ℕ
  ops = op t tree n o counts bucket_size

  abbrev after : ℕ → ℕ → List ℕ
  after m i = emitted tree ops m i

  run-le : (g d : ℕ) → g + d < n → f (tree g) (tree (g + suc d)) ≤ run_count counts g d
  unfolding run_count
  run-le g zero h = omega (arith, counted g (omega arith))
  run-le g (suc d) h =
      let e : g + suc d + 1 ≡ g + suc (suc d) = omega arith in
      let here = rw e at (counted (g + suc d) h) in
      omega (
        arith,
        run-le g d (omega arith),
        here,
        parts (tree g) (tree (g + suc d)) (tree (g + suc (suc d)))
            (tree-le t tree n o g (suc d) (g + suc d) refl (omega arith))
            (tree-le t tree n o (g + suc d) 1 (g + suc (suc d)) (omega arith) (omega arith)),
      )

  -- The cells of a group weigh 1 each.
  cells-group :
      (left d m rest g k : ℕ)
      → IsGroup t tree n g k
      → group_count counts g ≤ bucket_size
      → d + left ≡ 8
      → rest ≡ left + m
      → cells f bucket_size tree rest (g + d) ≡ left + cells f bucket_size tree m (g + 8)
  unfolding cells
  cells-group zero d m rest g k v h p e =
      let all : rest ≡ m = omega arith in
      let end : g + d ≡ g + 8 = omega arith in rw (all, end) (omega arith)
  cells-group (suc left) d m zero g k v h p e = absurd (omega arith)
  cells-group (suc left) d m (suc rest) g k v h p e =
      let next : g + d + 1 ≡ g + suc d = omega arith in
      let few : f (tree (g + d)) (tree (g + d + 1)) ≤ bucket_size = omega (
        arith,
        counted (g + d) (omega (arith, v.inside)),
        count-le-run counts g d 7 (omega arith),
        group_count-run counts g,
      ) in
      rw (cost-one f bucket_size (tree (g + d)) (tree (g + d + 1)) few, next)
        (omega (arith, cells-group left (suc d) m rest g k v h (omega arith) (omega arith)))

  -- Only a node above the bucket size is split.
  splits-full :
      (i k e : ℕ)
      → i < n
      → k ≤ max_tree_level t
      → tree (i + 1) ≡ tree i + 8 ^ k
      → ops i ≡ 8 ^ e
      → 0 < e
      → bucket_size < counts i
  splits-full i k e h b next p pos = elim (dec_lt bucket_size (counts i)) [
    | yes full ↦ full
    | no fits ↦
        let eight : 8 ≤ 8 ^ e = pow8-le 1 e (omega arith) in
        elim (op-level t tree n o counts bucket_size small i k h b next) [
          | inl z ↦ absurd (omega arith)
          | inr q ↦ absurd (
              omega (
                arith,
                split_op-keep t (counts i) (max_tree_level t - k) bucket_size small (omega arith),
              ))
        ]
  ]

  -- What one node that is not merged away leaves.
  spread-node_keys :
      (i : ℕ)
      → i < n
      → ops i ≢ 0
      → spread f bucket_size (node_keys tree ops i) (tree (i + 1)) + changes ops 1 i
        ≤ cost f bucket_size (tree i) (tree (i + 1))
  unfolding node_keys rungs spread
  spread-node_keys i h nz = elim (decided t tree n o counts bucket_size i h) [
    | Decided.merge z _ ↦ absurd (nz z)
    | Decided.split e k p x c b next ↦
        let width : (tree (i + 1) - tree i) / 8 ^ e ≡ 8 ^ (k - e) =
          ap (λ (x : ℕ). x / 8 ^ e) (split_width k e (tree i) (tree (i + 1)) c next)
          ∙ mul-div_cancel (8 ^ (k - e)) (pow8_pos e) in
        elim (ℕ_discrete e 0) [
          | yes z ↦
              let one : ops i ≡ 1 = p ∙ ap (λ (y : ℕ). 8 ^ y) z in
              rw one (omega (arith, changes-one ops i one))
          | no more ↦
              let parted =
                spread-rungs f bucket_size (8 ^ (k - e)) (pow8_pos (k - e)) (8 ^ e) (tree i)
                  (tree (i + 1)) (omega (arith, pow8-split e k c)) in
              let full = splits-full i k e h b next p (omega arith) in
              let size : tree (i + 1) - tree i ≡ 8 ^ k = omega arith in
              let less =
                parts-lt (8 ^ e) (8 ^ (k - e)) (8 ^ k) (pow8-le 1 e (omega arith))
                  (pow8_pos (k - e)) (pow8-split e k c) in
              let square =
                cost-square f bucket_size (tree i) (tree (i + 1)) (omega (arith, counted i h)) in
              rw (p, width, square, size) (omega (arith, changes-le ops 1 i))
        ]
  ]

  first-after : (m i : ℕ) → i + m ≡ n → (0 < m → ops i ≢ 0) → first (after m i) (tree n) ≡ tree i
  first-after m i e nz =
      Tiles-first (emitted-Tiles t tree n o counts bucket_size small m m i (omega arith) e nz)

  node-falls :
      (m i : ℕ)
      → i + suc m ≡ n
      → ops i ≢ 0
      → (0 < m → ops (i + 1) ≢ 0)
      → spread f bucket_size (after m (i + 1)) (tree n) + changes ops m (i + 1)
        ≤ cells f bucket_size tree m (i + 1)
      → spread f bucket_size (after (suc m) i) (tree n) + changes ops (suc m) i
        ≤ cells f bucket_size tree (suc m) i
  unfolding emitted changes cells
  node-falls m i e nz nz' ih =
      rw
        (spread-append f bucket_size (node_keys tree ops i) (after m (i + 1)) (tree n)
          (tree (i + 1)) (first-after m (i + 1) (omega arith) nz'))
        (omega (arith, spread-node_keys i (omega arith) nz))

  group-falls :
      (m rest g k : ℕ)
      → IsGroup t tree n g k
      → group_count counts g ≤ bucket_size
      → rest ≡ 7 + m
      → g + suc rest ≡ n
      → (0 < m → ops (g + 8) ≢ 0)
      → spread f bucket_size (after m (g + 8)) (tree n) + changes ops m (g + 8)
        ≤ cells f bucket_size tree m (g + 8)
      → spread f bucket_size (after (suc rest) g) (tree n) + changes ops (suc rest) g
        ≤ cells f bucket_size tree (suc rest) g
  unfolding spread
  group-falls m rest g k v few e end nz ih =
      let here : g + 0 ≡ g = omega arith in
      let old = rw here at (cells-group 8 0 m (suc rest) g k v few (omega arith) (omega arith)) in
      let one =
        cost-one f bucket_size (tree g) (tree (g + 8))
          (omega (arith, run-le g 7 (omega (arith, v.inside)), group_count-run counts g)) in
      let keep : ops g ≡ 1 = op-first_merge t tree n o counts bucket_size g k v small few in
      let next : g + 1 + 7 ≡ g + 8 = omega arith in
      let more = rw next at (changes-split ops 7 m rest (g + 1) e) in
      let head : changes ops (suc rest) g ≡ changes ops rest (g + 1) =
        changes-keep ops rest g keep in
      rw
        (
          emitted-group t tree n o counts bucket_size small m rest g k v few e,
          first-after m (g + 8) (omega arith) nz,
          one,
        )
        (omega arith)

  -- From a node on that is not merged away, what is emitted weighs less than the nodes, by one for
  -- each operation that changes a node.
  pub emitted-falls :
      (fuel m i : ℕ)
      → m ≤ fuel
      → i + m ≡ n
      → (0 < m → ops i ≢ 0)
      → spread f bucket_size (after m i) (tree n) + changes ops m i ≤ cells f bucket_size tree m i
  unfolding emitted changes cells spread
  emitted-falls fuel zero i b e nz = omega arith
  emitted-falls zero (suc m) i b e nz = absurd (omega arith)
  emitted-falls (suc fuel) (suc m) i b e nz = elim (dec_lt 0 m) [
    | no last ↦
        node-falls m i (omega arith) (nz (omega arith)) (λ p. absurd (omega arith))
          (emitted-falls fuel m (i + 1) (omega arith) (omega arith) (λ p. absurd (omega arith)))
    | yes more ↦ elim (ℕ_discrete (ops (i + 1)) 0) [
      | no kept ↦
          node-falls m i (omega arith) (nz (omega arith)) (λ _. kept)
            (emitted-falls fuel m (i + 1) (omega arith) (omega arith) (λ _. kept))
      | yes z ↦ elim (gone t tree n o counts bucket_size small (i + 1) (omega arith) z) [
        | Merged.merged g k d w v p b' c ↦
            let start : i ≡ g =
              before_gone t tree n o counts bucket_size small i g k d w v p b' c
                (nz (omega arith)) in
            let behind : 0 < m - 7 → ops (g + 8) ≢ 0 =
              λ q. behind_group t tree n o counts bucket_size small g k v (omega arith) in
            rw start (
              group-falls (m - 7) m g k v c (omega (arith, v.inside)) (omega arith) behind
                (emitted-falls fuel (m - 7) (g + 8) (omega arith) (omega (arith, v.inside)) behind))
      ]
    ]
  ]
