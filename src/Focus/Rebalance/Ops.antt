-- ===== src/Focus/Rebalance/Ops.antt =====
-- When mergeCountAndMacOp merges a node, and how far it splits it (focus/rebalance.hpp).
use native.Mathlib.Decide.{ℕ_discrete}
use native.Mathlib.Nat.{mod-eq_of_lt}
use sphexa.Base.{
  ℕ, suc, ◌+◌, ◌-◌, ◌*◌, ◌/◌, ◌^◌, ◌≤◌, ◌<◌, ◌≡◌, ◌≢◌, ◌↔◌, ◌⊎◌, inl, inr, refl, ap, sym, ◌∙◌,
  arith, Bool, true, false, Bool-cases, ◌&&◌, ◌||◌, not, ltb, leb, ◌==◌, if◌then◌else◌,
}
use sphexa.Base.Pow.{pow8_pos, pow8-le, pow8-suc}
use sphexa.Key.{KeyType, max_tree_level, wrap, key_space_lt}
use sphexa.Sfc.Node.{node_range}
use sphexa.Sfc.Node.Level.{node_range-pow8}
use sphexa.Focus.Rebalance.{split_leaf, merge_test, merge_count_and_mac_op}
use sphexa.Focus.Rebalance.Cells.{
  cell_start, cell_prefix, cell_start-lt, decode-cell, split_leaf_iff, split_leaf-pow8,
  overlap_two_ranges-Apart,
}

-- A node, the cell number `q` of its level, below the cell of eight times the size that it is in.
module _ (t : KeyType) (node_idx level q : ℕ) (node_keys child_offsets parents counts macs : ℕ → ℕ)
    (focus_start focus_end bucket_size : ℕ) where
  abbrev parent : ℕ
  parent = parents ((node_idx - 1) / 8)

  -- The cell of the parent and the focus have no key in common.
  abbrev pub IsFar : Type 0
  IsFar =
      (key : ℕ)
      → cell_start t (level - 1) (q / 8) ≤ key
      → key < cell_start t (level - 1) (q / 8) + 8 ^ (max_tree_level t - (level - 1))
      → (key < focus_start) ⊎ (focus_end ≤ key)

  -- The parent has few particles, or is not needed in detail and away from the focus.
  abbrev pub IsMerged : Type 0
  IsMerged = (node_idx ≢ 0) × ((counts parent ≤ bucket_size) ⊎ (macs parent ≡ 0) × IsFar)

  -- A leaf that fails its acceptance criterion or starts in the focus.
  abbrev pub IsEssential : Type 0
  IsEssential =
      (child_offsets node_idx ≡ 0)
      × ((macs node_idx ≢ 0)
          ⊎ (focus_start ≤ cell_start t level q) × (cell_start t level q < focus_end))

  abbrev op : ℕ
  op =
      merge_count_and_mac_op t node_idx node_keys child_offsets parents counts macs focus_start
        focus_end bucket_size

  abbrev test : Bool
  test = merge_test t parent level node_keys counts macs focus_start focus_end bucket_size

  module _ (deep : level ≤ max_tree_level t) (inside : q < 8 ^ level)
      (key : node_keys node_idx ≡ cell_prefix t level q)
      (above : node_idx ≢ 0 → (0 < level) × (node_keys parent ≡ cell_prefix t (level - 1) (q / 8)))
      (wide : focus_start < focus_end) where
    merge_test-IsMerged : node_idx ≢ 0 → (test ≡ true) ↔ IsMerged
    unfolding merge_test
    merge_test-IsMerged nz =
        let m = max_tree_level t in
        let (up, prefix) = above nz in
        let up_suc : level ≡ suc (level - 1) = omega arith in
        let parent_inside : q / 8 < 8 ^ (level - 1) =
          omega (arith, ap (λ (x : ℕ). 8 ^ x) up_suc, pow8-suc (level - 1)) in
        let (_, start) = decode-cell t (level - 1) (q / 8) (omega arith) parent_inside in
        let first = cell_start t (level - 1) (q / 8) in
        let size = 8 ^ (m - (level - 1)) in
        let fits = cell_start-lt t (level - 1) (q / 8) (omega arith) parent_inside in
        let eight : 8 * 8 ^ (m - level) ≡ size =
          sym (pow8-suc (m - level)) ∙ ap (λ (x : ℕ). 8 ^ x) (omega arith) in
        let whole : wrap t (8 * node_range t level) ≡ size =
          ap (λ (x : ℕ). wrap t (8 * x)) (node_range-pow8 t level)
          ∙ ap (wrap t) eight
          ∙ mod-eq_of_lt (omega (arith, key_space_lt t)) in
        let end : wrap t (first + size) ≡ first + size =
          mod-eq_of_lt (omega (arith, key_space_lt t)) in
        let (far, near) =
          overlap_two_ranges-Apart first (first + size) focus_start focus_end
            (omega (arith, pow8_pos (m - (level - 1)))) wide in
        rw (prefix, start, whole, end)
          (
            λ e. (
              nz,
              elim (Bool-cases (leb (counts parent) bucket_size)) [
                | inl few ↦ inl (ground arith)
                | inr many ↦ let rest = rw many at e in inr (ground arith, far (ground arith))
              ],
            ),
            λ (_, why). elim why [
              | inl few ↦ ground arith
              | inr (none, apart) ↦
                  let away = near apart in
                  let zero_mac : (macs parent == 0) ≡ true = ground arith in
                  rw (away, zero_mac) (ground arith)
            ],
          )

    abbrev essential : Bool
    essential =
        (child_offsets node_idx == 0)
        && (not (macs node_idx == 0)
            || leb focus_start (cell_start t level q) && ltb (cell_start t level q) focus_end)

    essential-IsEssential : (essential ≡ true) ↔ IsEssential
    essential-IsEssential = ground arith

    abbrev merges : Bool
    merges = not (node_idx == 0) && test

    merges-IsMerged : (merges ≡ true) ↔ IsMerged
    merges-IsMerged = elim (ℕ_discrete node_idx 0) [
      | yes z ↦ (λ e. absurd (ground arith), λ (nz, _). absurd (nz z))
      | no nz ↦
          let other : (node_idx == 0) ≡ false = ground arith in rw other (merge_test-IsMerged nz)
    ]

    op_cases : op ≡ (
        if merges
        then 0
        else if essential
        then split_leaf t level (counts node_idx) bucket_size
        else 1)
    unfolding merge_count_and_mac_op
    op_cases =
        let (length, start) = decode-cell t level q deep inside in
        let third : 3 * level / 3 ≡ level = omega arith in
        rw (key, length, start, third)
          (elim (Bool-cases (node_idx == 0)) [ inl z ↦ rw z refl | inr z ↦ rw z refl ])

    -- The operation of a node is 0 if and only if the node is not the root, and its parent has
    -- at most bucket_size particles, or has no flag and its cell has no key in common with the
    -- focus. For each e from 1 to 4, the operation is at least 8 ^ e if and only if the node is
    -- not to be merged, is a leaf that has a flag or starts in the focus, has e further levels
    -- below it, and its count exceeds the bucket size, for e = 1, or 8 ^ e times the bucket
    -- size. The operation is 0 or 8 ^ e for an e up to 4. The prefixes of the node and of its
    -- parent are those of their cells, the focus has a key, and 4096 times the bucket size fits
    -- 32 bits.
    pub merge_count_and_mac_op_iff :
        4096 * bucket_size < 2 ^ 32
        → ((op ≡ 0) ↔ IsMerged)
          × ((e : ℕ)
              → 0 < e
              → e ≤ 4
              → (8 ^ e ≤ op) ↔ (
                  (¬ IsMerged)
                  × IsEssential
                  × (level + e ≤ max_tree_level t)
                  × ((if e == 1 then bucket_size else 8 ^ e * bucket_size) < counts node_idx)))
          × ((op ≡ 0) ⊎ ((e : ℕ) × (e ≤ 4) × (op ≡ 8 ^ e)))
    merge_count_and_mac_op_iff small =
        let count = counts node_idx in
        let (merged, not_kept) = merges-IsMerged in
        let (needed, found) = essential-IsEssential in
        rw op_cases (elim (Bool-cases merges) [
          | inl m ↦ rw m (
            (λ _. merged m, λ _. refl),
            λ e lo hi. (
              λ le. absurd (omega (arith, pow8_pos e)),
              λ (unmerged, _, _, _). absurd (unmerged (merged m)),
            ),
            inl refl,
          )
          | inr k ↦
              let unmerged : ¬ IsMerged =
                λ yes_merged. let back = not_kept yes_merged in ground arith in
              elim (Bool-cases essential) [
                | inl f ↦
                    let (n, n_le, power) = split_leaf-pow8 t level count bucket_size in
                    rw (k, f)
                      (
                        (
                          λ z. absurd (omega (arith, pow8_pos n)),
                          λ yes_merged. absurd (unmerged yes_merged),
                        ),
                        λ e lo hi.
                            let (to, from) =
                              split_leaf_iff t level count bucket_size e small lo hi in
                            (
                              λ le. let (fits, many) = to le in (unmerged, needed f, fits, many),
                              λ (_, _, fits, many). from (fits, many),
                            ),
                        inr (n, n_le, power),
                      )
                | inr f ↦
                    rw (k, f)
                      (
                        (λ z. absurd (omega arith), λ yes_merged. absurd (unmerged yes_merged)),
                        λ e lo hi. (
                          λ le. absurd (omega (arith, pow8-le 1 e lo)),
                          λ (_, wanted, _, _). let back = found wanted in absurd (ground arith),
                        ),
                        inr (0, omega arith, refl),
                      )
              ]
        ])
