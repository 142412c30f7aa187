-- ===== src/Tree/Spanning/Cover.antt =====
-- The tree of computeSpanningTree is an octree (tree/csarray.hpp).
use mathlib.Core.List.{append_assoc}
use native.Mathlib.Numerals.{add-one}
use sphexa.Base.{
  ℕ, zero, suc, ◌+◌, ◌-◌, ◌^◌, ◌≤◌, ◌<◌, ◌≡◌, refl, ap, sym, ◌∙◌, arith, List, [], ◌∷◌, ◌++◌,
  length, length-append, length-replicate, replicate, drop, drop-drop, length-drop, set-append,
}
use sphexa.Key.{KeyType, max_tree_level, n_nodes}
use sphexa.Sfc.Node.{node_range}
use sphexa.Sfc.Node.Level.{node_range-pow8}
use sphexa.Sfc.Span.{span_sfc_range}
use sphexa.Sfc.Span.Count.{span_sfc_range-count}
use sphexa.Sfc.Span.Cover.{span_sfc_range-Tiles}
use sphexa.Primitives.Search.{at}
use sphexa.Primitives.Loop.{write_loop, length-write_loop, write_loop-at}
use sphexa.Tree.Cornerstone.{IsOctree}
use sphexa.Tree.Cornerstone.Tiles.{Tiles, Tiles-append, Tiles-first, Tiles-IsOctree}
use sphexa.Tree.Rebalance.{exclusive_scan}
use sphexa.Tree.Rebalance.Arrays.{exclusive_scan-first, exclusive_scan-rises, drop-replicate}
use sphexa.Tree.Spanning.{write_values, spanning_loop, compute_spanning_tree}

write_values_lem :
    (xs front back : List ℕ) (index : ℕ)
    → length front ≡ index
    → length xs ≤ length back
    → write_values xs index (front ++ back) ≡ front ++ (xs ++ drop (length xs) back)
unfolding write_values
write_values_lem [] front back index e h = refl
write_values_lem (x ∷ xs) front [] index e h = absurd (omega arith)
write_values_lem (x ∷ xs) front (y ∷ back) index e h =
    rw (set-append front y back index x e, ← append_assoc front (x ∷ []) back)
      (write_values_lem xs (front ++ x ∷ []) back (index + 1)
          (omega (arith, length-append front (x ∷ []))) (omega arith)
        ∙ append_assoc front (x ∷ []) (xs ++ drop (length xs) back))

module _ (t : KeyType) (keys : ℕ → ℕ) where
  abbrev part : ℕ → List ℕ
  part i = (span_sfc_range t (keys i) (keys (i + 1))).output

  -- The values of `m` intervals from `i` on.
  parts : ℕ → ℕ → List ℕ
  parts zero i = []
  parts (suc m) i = part i ++ parts m (i + 1)

  parts-Tiles :
      (n m i : ℕ)
      → ((j : ℕ) → j < n → keys j ≤ keys (j + 1))
      → ((j : ℕ) → j ≤ n → keys j ≤ 8 ^ max_tree_level t)
      → i + m ≡ n
      → Tiles t (keys i) (parts m i) (keys n)
  unfolding parts
  parts-Tiles n zero i up top e = let here : i ≡ n = omega arith in rw here Tiles.done
  parts-Tiles n (suc m) i up top e =
      Tiles-append
        (span_sfc_range-Tiles t (keys i) (keys (i + 1)) (up i (omega arith))
          (top (i + 1) (omega arith)))
        (parts-Tiles n m (i + 1) up top (omega arith))

  module _ (offsets : ℕ → ℕ) (n : ℕ)
      (rises : (i : ℕ) → i < n → offsets (i + 1) ≡ offsets i + length (part i)) where
    length-parts : (m i : ℕ) → i + m ≡ n → offsets i + length (parts m i) ≡ offsets n
    unfolding parts
    length-parts zero i e = omega (arith, ap offsets {x = i} {y = n} (omega arith))
    length-parts (suc m) i e = omega (
      arith,
      length-append (part i) (parts m (i + 1)),
      rises i (omega arith),
      length-parts m (i + 1) (omega arith),
    )

    spanning_loop-parts :
        (m i : ℕ) (front back : List ℕ)
        → i + m ≡ n
        → length front ≡ offsets i
        → length (parts m i) ≤ length back
        → spanning_loop t keys offsets m i (front ++ back)
          ≡ front ++ (parts m i ++ drop (length (parts m i)) back)
    unfolding spanning_loop parts
    spanning_loop-parts zero i front back e f h = refl
    spanning_loop-parts (suc m) i front back e f h =
        let size = length-append (part i) (parts m (i + 1)) in
        let rest =
          spanning_loop-parts m (i + 1) (front ++ part i) (drop (length (part i)) back)
            (omega arith) (omega (arith, length-append front (part i), rises i (omega arith)))
            (omega (arith, length-drop (length (part i)) back)) in
        rw (
          write_values_lem (part i) front back (offsets i) f (omega arith),
          ← append_assoc front (part i) (drop (length (part i)) back),
          rest,
          drop-drop (length (part i)) (length (parts m (i + 1))) back,
          size,
          append_assoc front (part i)
              (parts m (i + 1) ++ drop (length (part i) + length (parts m (i + 1))) back),
          append_assoc (part i) (parts m (i + 1))
              (drop (length (part i) + length (parts m (i + 1))) back),
        )

-- The whole array: the values of all intervals, and the end of the key space.
compute_spanning_tree-parts :
    (t : KeyType) (spanning_keys : List ℕ)
    → 1 < length spanning_keys
    → compute_spanning_tree t spanning_keys
      ≡ parts t (at spanning_keys) (length spanning_keys - 1) 0 ++ 8 ^ max_tree_level t ∷ []
unfolding compute_spanning_tree
compute_spanning_tree-parts t spanning_keys many =
    let keys = at spanning_keys in
    let n = length spanning_keys - 1 in
    let blank = replicate {A = ℕ} (n + 1) 0 in
    let count = λ (i : ℕ) (xs : List ℕ). (span_sfc_range t (keys i) (keys (i + 1))).num_values in
    let counts = write_loop count n 0 blank in
    let sized : length counts ≡ n + 1 =
      length-write_loop count n 0 blank ∙ length-replicate {A = ℕ} (n + 1) 0 in
    let offsets = at (exclusive_scan 0 counts) in
    let rises : (i : ℕ) → i < n → offsets (i + 1) ≡ offsets i + length (part t keys i) = λ i h.
      let counted : at counts i ≡ length (part t keys i) =
        write_loop-at count (λ j. (span_sfc_range t (keys j) (keys (j + 1))).num_values) n 0 i blank
          (λ k xs a b. refl) (omega arith) (omega arith)
          (omega (arith, length-replicate {A = ℕ} (n + 1) 0))
        ∙ sym (span_sfc_range-count t (keys i) (keys (i + 1))) in
      rw (add-one i)
        (exclusive_scan-rises 0 counts i (omega arith) ∙ ap (λ (x : ℕ). offsets i + x) counted) in
    let start : offsets 0 ≡ 0 = exclusive_scan-first 0 counts (omega arith) in
    let size = length-parts t keys offsets n rises n 0 (omega arith) in
    let filled =
      spanning_loop-parts t keys offsets n rises n 0 [] (replicate (offsets n + 1) 0) (omega arith)
        (sym start) (omega (arith, length-replicate {A = ℕ} (offsets n + 1) 0)) in
    let total : length (parts t keys n 0) ≡ offsets n = omega arith in
    let last : offsets n + 1 - 1 ≡ offsets n = omega arith in
    let root : node_range t 0 ≡ 8 ^ max_tree_level t =
      node_range-pow8 t 0 ∙ ap (λ (x : ℕ). 8 ^ x) (omega arith) in
    rw (filled, last, root, total, drop-replicate (offsets n) 0)
      (set-append (parts t keys n 0) 0 [] (offsets n) (8 ^ max_tree_level t) total)

parts-split :
    (t : KeyType) (keys : ℕ → ℕ) (j m i : ℕ)
    → parts t keys (j + m) i ≡ parts t keys j i ++ parts t keys m (i + j)
unfolding parts
parts-split t keys zero m i =
    let here : i + 0 ≡ i = omega arith in let all : 0 + m ≡ m = omega arith in rw (here, all) refl
parts-split t keys (suc j) m i =
    let next : i + 1 + j ≡ i + suc j = omega arith in
    let all : suc j + m ≡ suc (j + m) = omega arith in
    rw (all, append_assoc (part t keys i) (parts t keys j (i + 1)) (parts t keys m (i + suc j)))
      (ap (λ xs. part t keys i ++ xs) (rw next at (parts-split t keys j m (i + 1))))

at-append : (xs ys : List ℕ) → at (xs ++ ys) (length xs) ≡ at ys 0
at-append [] ys = refl
at-append (x ∷ xs) ys = at-append xs ys

-- compute_spanning_tree returns an octree that has a node boundary at each of the given keys.
-- The keys, two or more, start at 0, ascend and end at the end of the key space.
pub compute_spanning_tree-IsOctree :
    (t : KeyType) (spanning_keys : List ℕ)
    → 1 < length spanning_keys
    → at spanning_keys 0 ≡ 0
    → at spanning_keys (length spanning_keys - 1) ≡ 8 ^ max_tree_level t
    → ((j : ℕ) → j < length spanning_keys - 1 → at spanning_keys j ≤ at spanning_keys (j + 1))
    → let tree = compute_spanning_tree t spanning_keys in
      IsOctree t (at tree) (n_nodes tree)
      × ((j : ℕ)
          → j < length spanning_keys
          → (i : ℕ) × (i ≤ n_nodes tree) × (at tree i ≡ at spanning_keys j))
compute_spanning_tree-IsOctree t spanning_keys many start end up =
    let keys = at spanning_keys in
    let n = length spanning_keys - 1 in
    let top : (j : ℕ) → j ≤ n → keys j ≤ 8 ^ max_tree_level t =
      λ j h. omega (arith, ascending keys n up (n - j) j (omega arith)) in
    let all = parts-Tiles t keys n n 0 up top (omega arith) in
    let tiles = rw (start, end) at all in
    let values = parts t keys n 0 in
    let size : n_nodes (values ++ 8 ^ max_tree_level t ∷ []) ≡ length values =
      omega (arith, length-append values (8 ^ max_tree_level t ∷ [])) in
    rw (compute_spanning_tree-parts t spanning_keys many, size)
      (
        Tiles-IsOctree tiles,
        λ j h.
            let back = n - j in
            let whole : n ≡ j + back = omega arith in
            let front = parts t keys j 0 in
            let here : 0 + j ≡ j = omega arith in
            let split : values ≡ front ++ parts t keys back j =
              ap (λ k. parts t keys k 0) whole
              ∙ parts-split t keys j back 0
              ∙ ap (λ k. front ++ parts t keys back k) here in
            let rest = parts-Tiles t keys n back j up top (omega arith) in
            let read : at (values ++ keys n ∷ []) (length front) ≡ keys j =
              ap (λ xs. at (xs ++ keys n ∷ []) (length front)) split
              ∙ ap (λ xs. at xs (length front))
                  (append_assoc front (parts t keys back j) (keys n ∷ []))
              ∙ at-append front (parts t keys back j ++ keys n ∷ [])
              ∙ Tiles-first rest in
            (
              length front,
              omega (
                arith,
                ap (λ (xs : List ℕ). length xs) split,
                length-append front (parts t keys back j),
              ),
              rw end at read,
            ),
      )
  where
    ascending :
        (keys : ℕ → ℕ) (n : ℕ)
        → ((j : ℕ) → j < n → keys j ≤ keys (j + 1))
        → (m j : ℕ) → j + m ≡ n
        → keys j ≤ keys n
    ascending keys n up zero j e = omega (arith, ap keys {x = j} {y = n} (omega arith))
    ascending keys n up (suc m) j e =
        omega (arith, up j (omega arith), ascending keys n up m (j + 1) (omega arith))
