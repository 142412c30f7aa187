-- ===== src/Domain/Layout/Offsets.antt =====
-- The places of the leaves in the layout (computeNodeLayout of domain/layout.hpp).
use native.Mathlib.Decide.{ℕ_discrete}
use native.Mathlib.Nat.{mod-eq_of_lt}
use sphexa.Base.{
  ℕ, zero, suc, ◌+◌, ◌-◌, ◌^◌, ◌≤◌, ◌<◌, ◌≡◌, refl, ap, sym, ◌∙◌, arith, inl, inr, Bool, Bool-cases,
  ◌&&◌, ◌||◌, not, List, length, set, length-set, get_or-set_self, get_or-set_ne, ltb, leb, ◌==◌,
  if◌then◌else◌, bit_and,
}
use sphexa.Base.Bits.{bit_and-low, zero-bit_and, bit_and_comm}
use sphexa.Key.{u32}
use sphexa.Primitives.Search.{at}
use sphexa.Primitives.Loop.{write_loop, write_loop-at, length-write_loop}
use sphexa.Tree.Counts.{scan_counts}
use sphexa.Tree.Counts.Array.{scan_counts-outside}
use sphexa.Domain.Ranges.{IndexPair}
use sphexa.Domain.Layout.{node_mask, compute_node_layout}

-- The scan in place: the first element is the start value, and each further one adds the element
-- before it, in 32 bits.
scan_counts-first :
    (left i acc : ℕ) (xs : List ℕ)
    → 0 < left
    → i < length xs
    → at (scan_counts left i acc xs) i ≡ acc
unfolding scan_counts
scan_counts-first zero i acc xs h b = absurd (omega arith)
scan_counts-first (suc left) i acc xs h b =
    scan_counts-outside left (i + 1) i _ _ (inl (omega arith)) ∙ get_or-set_self xs i acc 0 b

scan_counts-next :
    (left i j acc : ℕ) (xs : List ℕ)
    → i ≤ j
    → j + 1 < i + left
    → j + 1 < length xs
    → at (scan_counts left i acc xs) (j + 1) ≡ u32 (at (scan_counts left i acc xs) j + at xs j)
unfolding scan_counts
scan_counts-next zero i j acc xs a b c = absurd (omega arith)
scan_counts-next (suc left) i j acc xs a b c = elim (ℕ_discrete i j) [
  | yes e ↦
      let start : at (scan_counts left (i + 1) (u32 (acc + at xs i)) (set xs i acc)) i ≡ acc =
        scan_counts-outside left (i + 1) i _ _ (inl (omega arith))
        ∙ get_or-set_self xs i acc 0 (omega arith) in
      rw (← e) (
        scan_counts-first left (i + 1) (u32 (acc + at xs i)) (set xs i acc) (omega arith)
          (omega (arith, length-set xs i acc))
        ∙ ap (λ (x : ℕ). u32 (x + at xs i)) (sym start))
  | no ne ↦
      scan_counts-next left (i + 1) j _ _ (omega arith) (omega arith)
        (omega (arith, length-set xs i acc))
      ∙ ap
          (λ (x : ℕ).
            u32 (at (scan_counts left (i + 1) (u32 (acc + at xs i)) (set xs i acc)) j + x))
          (get_or-set_ne xs i j acc 0 ne)
]

-- A node of the own range, or one that is flagged as a halo.
abbrev pub is_present : IndexPair → (ℕ → ℕ) → (ℕ → ℕ) → ℕ → Bool
is_present idx flags leaf_to_internal i =
    leb idx.start i && ltb i idx.end || not (flags (leaf_to_internal i) == 0)

masked :
    (idx : IndexPair) (flags leaf_to_internal : ℕ → ℕ) (i count : ℕ)
    → count < 2 ^ 32
    → bit_and (node_mask idx flags leaf_to_internal i) count
      ≡ (if is_present idx flags leaf_to_internal i then count else 0)
unfolding node_mask
masked idx flags leaf_to_internal i count h =
    elim (Bool-cases (is_present idx flags leaf_to_internal i)) [
      | inl e ↦ rw e (bit_and_comm (2 ^ 32 - 1) count ∙ bit_and-low 32 count ∙ mod-eq_of_lt h)
      | inr e ↦ rw e (zero-bit_and count)
    ]

-- The layout starts at 0, and the place behind each leaf is its own place plus its count if the
-- leaf is in the own range or flagged, and its own place otherwise, in 32 bits. There is one
-- place more than there are leaves, and the counts fit 32 bits.
pub compute_node_layout-places :
    (counts : List ℕ) (flags leaf_to_internal : ℕ → ℕ) (idx : IndexPair) (layout : List ℕ)
    → length layout ≡ suc (length counts)
    → ((i : ℕ) → i < length counts → at counts i < 2 ^ 32)
    → let new = at (compute_node_layout counts flags leaf_to_internal idx layout) in
      (new 0 ≡ 0)
      × ((i : ℕ)
          → i < length counts
          → new (i + 1)
            ≡ u32 (new i + (if is_present idx flags leaf_to_internal i then at counts i else 0)))
unfolding compute_node_layout
compute_node_layout-places counts flags leaf_to_internal idx layout e small =
    let mask = λ (i : ℕ). bit_and (node_mask idx flags leaf_to_internal i) (at counts i) in
    let present = write_loop (λ i xs. mask i) (length counts) 0 layout in
    let whole : length present ≡ length layout =
      length-write_loop (λ i xs. mask i) (length counts) 0 layout in
    (
      scan_counts-first (length layout) 0 0 present (omega arith) (omega arith),
      λ i h.
          scan_counts-next (length layout) 0 i 0 present (omega arith) (omega arith) (omega arith)
          ∙ ap (λ (x : ℕ). u32 (at (scan_counts (length layout) 0 0 present) i + x))
              (write_loop-at (λ i xs. mask i) mask (length counts) 0 i layout (λ k xs a b. refl)
                  (omega arith) (omega arith) (omega arith)
                ∙ masked idx flags leaf_to_internal i (at counts i) (small i h)),
    )
