-- ===== src/Tree/Counts/Array.antt =====
-- The counts of all nodes (computeNodeCounts of tree/csarray.hpp): which nodes the code searches
-- for, and what it writes.
use native.Mathlib.Decide.{dec_lt}
use sphexa.Base.{
  ℕ, zero, suc, ◌+◌, ◌-◌, ◌^◌, ◌≤◌, ◌<◌, ◌≡◌, refl, ◌∙◌, arith, Bool, true, false, List, [], ◌∷◌,
  min, length, length-set, get_or-set_ne, inl, inr, ◌⊎◌,
}
use sphexa.Key.{KeyType, max_tree_level}
use sphexa.Primitives.Search.{at}
use sphexa.Primitives.Search.Partition.{Ascending, IsPartition, upper_bound-IsPartition}
use sphexa.Primitives.Loop.{write_loop, length-write_loop, write_loop-outside, write_loop-at}
use sphexa.Tree.Cornerstone.{IsOctree}
use sphexa.Tree.Cornerstone.Siblings.{tree-le}
use sphexa.Tree.Counts.{calculate_node_count, scan_counts, populated, compute_node_counts}
use sphexa.Tree.Counts.Total.{
  keys_in, calculate_node_count-keys_in, update_node_count-calculate_node_count,
}

pub scan_counts-outside :
    (left i j acc : ℕ) (counts : List ℕ)
    → (j < i) ⊎ (i + left ≤ j)
    → at (scan_counts left i acc counts) j ≡ at counts j
unfolding scan_counts
scan_counts-outside zero i j acc counts h = refl
scan_counts-outside (suc left) i j acc counts (inl h) =
    scan_counts-outside left (i + 1) j _ _ (inl (omega arith))
    ∙ get_or-set_ne counts i j acc 0 (omega arith)
scan_counts-outside (suc left) i j acc counts (inr h) =
    scan_counts-outside left (i + 1) j _ _ (inr (omega arith))
    ∙ get_or-set_ne counts i j acc 0 (omega arith)

pub length-scan_counts :
    (left i acc : ℕ) (counts : List ℕ) → length (scan_counts left i acc counts) ≡ length counts
unfolding scan_counts
length-scan_counts zero i acc counts = refl
length-scan_counts (suc left) i acc counts =
    length-scan_counts left (i + 1) _ _ ∙ length-set counts i acc

-- No key of the list is in the range.
keys_in-none :
    (keys : List ℕ) (lo hi : ℕ)
    → ((j : ℕ) → j < length keys → (hi ≤ at keys j) ⊎ (at keys j < lo))
    → keys_in keys lo hi ≡ 0
unfolding keys_in
keys_in-none [] lo hi h = refl
keys_in-none (x ∷ xs) lo hi h =
    let rest = keys_in-none xs lo hi (λ j l. h (suc j) (omega arith)) in
    elim (h 0 (omega arith)) [ inl a ↦ ground arith | inr b ↦ ground arith ]

module _ (t : KeyType) (tree : ℕ → ℕ) (n : ℕ) (o : IsOctree t tree n) (max_count : ℕ)
    (cap : max_count < 2 ^ 32) where
  tree-Ascending : Ascending tree 0 n
  tree-Ascending i j a b c = tree-le t tree n o i (j - i) j (omega arith) (omega arith)

  -- Nodes before and behind the populated ones hold no key.
  empty_before :
      (key : ℕ) (keys : List ℕ) (i : ℕ)
      → Ascending (at (key ∷ keys)) 0 (suc (length keys))
      → i < (populated tree n (key ∷ keys)).0
      → (i < n) × (keys_in (key ∷ keys) (tree i) (tree (i + 1)) ≡ 0)
  unfolding populated
  empty_before key keys i up h =
      let p = upper_bound-IsPartition tree 0 n key (omega arith) tree-Ascending in
      let starts : tree (i + 1) ≤ key =
        ground (arith, p.passes (i + 1) (omega arith) (omega arith)) in
      (
        omega (arith, p.below),
        keys_in-none (key ∷ keys) (tree i) (tree (i + 1))
            (λ j l. inl (omega (arith, up 0 j (omega arith) (omega arith) l))),
      )

  empty_behind :
      (key : ℕ) (keys : List ℕ) (i : ℕ)
      → Ascending (at (key ∷ keys)) 0 (suc (length keys))
      → (populated tree n (key ∷ keys)).1 ≤ i
      → i < n
      → keys_in (key ∷ keys) (tree i) (tree (i + 1)) ≡ 0
  unfolding populated
  empty_behind key keys i up h b =
      let last = at (key ∷ keys) (length keys) in
      let p = upper_bound-IsPartition tree 0 n last (omega arith) tree-Ascending in
      let starts : last < tree i = ground (arith, p.fails i h b) in
      keys_in-none (key ∷ keys) (tree i) (tree (i + 1))
        (λ j l. inr (omega (arith, up j (length keys) (omega arith) (omega arith) (omega arith))))

  -- Which nodes are populated.
  populated-none :
      (keys : List ℕ) (i : ℕ)
      → Ascending (at keys) 0 (length keys)
      → i < n
      → ((i < (populated tree n keys).0) ⊎ ((populated tree n keys).1 ≤ i)
          → keys_in keys (tree i) (tree (i + 1)) ≡ 0)
        × ((populated tree n keys).1 ≤ n)
  unfolding populated keys_in
  populated-none [] i up h = (λ _. refl, omega arith)
  populated-none (key ∷ keys) i up h =
      let last = at (key ∷ keys) (length keys) in
      (
        λ c. elim c [
          | inl a ↦ (empty_before key keys i up a).1
          | inr b ↦ empty_behind key keys i up b h
        ],
        IsPartition.below (upper_bound-IsPartition tree 0 n last (omega arith) tree-Ascending),
      )

  zeros :
      (first last i : ℕ) (counts : List ℕ)
      → length counts ≡ n
      → i < n
      → (i < first) ⊎ (last ≤ i)
      → at (write_loop (λ j xs. 0) (n - last) last (write_loop (λ j xs. 0) first 0 counts)) i ≡ 0
  zeros first last i counts e h c = elim (dec_lt i last) [
    | no behind ↦
        write_loop-at (λ j xs. 0) (λ j. 0) (n - last) last i _ (λ k xs a b. refl) (omega arith)
          (omega arith) (omega (arith, length-write_loop (λ j xs. 0) first 0 counts))
    | yes before ↦ write_loop-outside (λ j xs. 0) (n - last) last i _ (inl before) ∙ elim c [
      | inr d ↦ absurd (omega arith)
      | inl d ↦
          write_loop-at (λ j xs. 0) (λ j. 0) first 0 i counts (λ k xs a b. refl) (omega arith)
            (omega arith) (omega arith)
    ]
  ]

  module _ (keys : List ℕ) (up : Ascending (at keys) 0 (length keys))
      (small : length keys < 2 ^ 32) where
    abbrev value : ℕ → ℕ
    value i = calculate_node_count (tree i) (tree (i + 1)) (at keys) (length keys) max_count

    rises : (i : ℕ) → i < n → tree i ≤ tree (i + 1)
    rises i h = tree-le t tree n o i 1 (i + 1) (omega arith) (omega arith)

    value-keys_in : (i : ℕ) → i < n → value i ≡ min (keys_in keys (tree i) (tree (i + 1))) max_count
    value-keys_in i h =
        calculate_node_count-keys_in keys up (tree i) (tree (i + 1)) max_count (rises i h) small

    -- The loops, given which nodes are populated.
    populated_counts :
        (first last i : ℕ) (scanned : List ℕ) (f : ℕ → List ℕ → ℕ)
        → length scanned ≡ n
        → i < n
        → last ≤ n
        → ((j : ℕ) (xs : List ℕ) → j < n → f j xs ≡ value j)
        → ((i < first) ⊎ (last ≤ i)
            → (at scanned i ≡ 0) × (keys_in keys (tree i) (tree (i + 1)) ≡ 0))
        → at (write_loop f (last - first) first scanned) i
          ≡ min (keys_in keys (tree i) (tree (i + 1))) max_count
    populated_counts first last i scanned f e h r g none = elim (dec_lt i first) [
      | yes before ↦
          let (a, b) = none (inl before) in
          rw b (write_loop-outside f (last - first) first i scanned (inl before) ∙ a ∙ omega arith)
      | no x ↦ elim (dec_lt i last) [
        | no behind ↦
            let (a, b) = none (inr (omega arith)) in
            rw b (
              write_loop-outside f (last - first) first i scanned (inr (omega arith))
              ∙ a
              ∙ omega arith)
        | yes inside ↦
            write_loop-at f value (last - first) first i scanned (λ j xs a b. g j xs (omega arith))
              (omega arith) (omega arith) (omega arith)
            ∙ value-keys_in i h
      ]
    ]

    -- For an octree, compute_node_counts stores for each node the number of keys in the node, or
    -- max_count if that is less, both with the old counts as guesses and without. The keys
    -- ascend, are at most the end of the key space and fewer than 2 ^ 32, max_count fits 32
    -- bits, and there are as many counts as nodes.
    pub compute_node_counts-keys_in :
        (counts : List ℕ) (guess : Bool) (i : ℕ)
        → ((j : ℕ) → j < length keys → at keys j ≤ 8 ^ max_tree_level t)
        → length counts ≡ n
        → i < n
        → at (compute_node_counts t tree counts n keys max_count guess) i
          ≡ min (keys_in keys (tree i) (tree (i + 1))) max_count
    unfolding compute_node_counts
    compute_node_counts-keys_in counts guess i bounded e h =
        let (none, inside) = populated-none keys i up h in
        let first = (populated tree n keys).0 in
        let last = (populated tree n keys).1 in
        let front = write_loop (λ j xs. 0) first 0 counts in
        let zeroed = write_loop (λ j xs. 0) (n - last) last front in
        let whole : length zeroed ≡ n =
          length-write_loop (λ j xs. 0) (n - last) last front
          ∙ length-write_loop (λ j xs. 0) first 0 counts
          ∙ e in
        let blank : (i < first) ⊎ (last ≤ i) → at zeroed i ≡ 0 = zeros first last i counts e h in
        let outside : (i < first) ⊎ (last ≤ i) → (i < first) ⊎ (first + (last - first) ≤ i) = λ c.
          elim (dec_lt i first) [
            | yes a ↦ inl a
            | no b ↦ elim c [ inl a ↦ inl a | inr d ↦ inr (omega arith) ]
          ] in
        elim guess
          as (λ x.
            at (compute_node_counts t tree counts n keys max_count x) i
            ≡ min (keys_in keys (tree i) (tree (i + 1))) max_count) [
              | false ↦
                  populated_counts first last i zeroed _ whole h inside (λ j xs l. refl)
                    (λ c. (blank c, none c))
              | true ↦
                  populated_counts first last i (scan_counts (last - first) first 0 zeroed) _
                    (length-scan_counts (last - first) first 0 zeroed ∙ whole) h inside
                    (λ j xs l.
                      update_node_count-calculate_node_count keys up t tree j max_count _ _ bounded
                        (rises j l) small cap)
                    (λ c. (
                      scan_counts-outside (last - first) first i 0 zeroed (outside c) ∙ blank c,
                      none c,
                    ))
            ]

pub length-compute_node_counts :
    (t : KeyType) (tree : ℕ → ℕ) (counts keys : List ℕ) (n max_count : ℕ) (guess : Bool)
    → length (compute_node_counts t tree counts n keys max_count guess) ≡ length counts
unfolding compute_node_counts
length-compute_node_counts t tree counts keys n max_count true =
    length-write_loop _ _ _ _
    ∙ length-scan_counts _ _ _ _
    ∙ length-write_loop _ _ _ _
    ∙ length-write_loop _ _ _ counts
length-compute_node_counts t tree counts keys n max_count false =
    length-write_loop _ _ _ _ ∙ length-write_loop _ _ _ _ ∙ length-write_loop _ _ _ counts
