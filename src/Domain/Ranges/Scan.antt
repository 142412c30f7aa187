-- ===== src/Domain/Ranges/Scan.antt =====
-- The scan of the sizes of index ranges (IndexRanges of domain/index_ranges.hpp).
use sphexa.Base.{
  ℕ, zero, suc, ◌+◌, ◌-◌, ◌^◌, ◌≤◌, ◌<◌, ◌≡◌, refl, ◌∙◌, arith, List, [], ◌∷◌, ◌++◌, length,
  length-append, ◌==◌, true, false,
}
use native.Mathlib.Nat.{mod-eq_of_lt}
use native.Mathlib.Decide.{ℕ_discrete, dec_lt}
use sphexa.Key.{u32, u64, sub32}
use sphexa.Primitives.Search.{at}
use sphexa.Domain.Ranges.{IndexRanges, no_ranges, add_range, range_start, range_count, range_end}

-- The scan starts at 0, does not fall, and ends at the total, which 32 bits hold.
pub record IsScan (ranges : IndexRanges) : Type 0 where
  pub sized : length ranges.scan ≡ suc (length ranges.offsets)
  pub starts : at ranges.scan 0 ≡ 0
  pub rises : (i : ℕ) → i < length ranges.offsets → at ranges.scan i < at ranges.scan (i + 1)
  pub ends : at ranges.scan (length ranges.offsets) ≡ ranges.total_count
  pub fits : ranges.total_count < 2 ^ 32
  pub inside : (i : ℕ) → i ≤ length ranges.offsets → at ranges.scan i ≤ ranges.total_count

at-front : (xs ys : List ℕ) (i : ℕ) → i < length xs → at (xs ++ ys) i ≡ at xs i
at-front [] ys i h = absurd (omega arith)
at-front (x ∷ xs) ys zero h = refl
at-front (x ∷ xs) ys (suc i) h = at-front xs ys i (omega arith)

at-end : (xs : List ℕ) (y i : ℕ) → i ≡ length xs → at (xs ++ y ∷ []) i ≡ y
at-end [] y zero h = refl
at-end [] y (suc i) h = absurd (omega arith)
at-end (x ∷ xs) y zero h = absurd (omega arith)
at-end (x ∷ xs) y (suc i) h = at-end xs y i (omega arith)

pub no_ranges-IsScan : IsScan no_ranges
no_ranges-IsScan = record {
  sized = refl;
  starts = refl;
  rises = λ i h. absurd (omega arith);
  ends = refl;
  fits = omega arith;
  inside = λ i h. let z : i ≡ 0 = omega arith in rw z (omega arith);
}

abbrev grown : IndexRanges → ℕ → ℕ → IndexRanges
grown ranges lower upper = record {
  total_count = ranges.total_count + (upper - lower);
  offsets = ranges.offsets ++ lower ∷ [];
  scan = ranges.scan ++ (ranges.total_count + (upper - lower)) ∷ [];
}

add_range-none :
    {ranges : IndexRanges} {lower upper : ℕ} → lower ≡ upper → add_range ranges lower upper ≡ ranges
unfolding add_range
add_range-none {lower} {upper} h = let e : (lower == upper) ≡ true = ground arith in rw e

module _ (ranges : IndexRanges) (lower upper : ℕ) (s : IsScan ranges) (bound : upper < 2 ^ 32)
    (room : ranges.total_count + (upper - lower) < 2 ^ 32) where
  add_range-grown : lower < upper → add_range ranges lower upper ≡ grown ranges lower upper
  unfolding add_range
  add_range-grown h =
      let ne : (lower == upper) ≡ false = ground arith in
      let diff : sub32 upper lower ≡ upper - lower = omega arith in
      let total : u64 (ranges.total_count + (upper - lower))
          ≡ ranges.total_count + (upper - lower) =
        mod-eq_of_lt (omega arith) in
      let index : u32 (ranges.total_count + (upper - lower))
          ≡ ranges.total_count + (upper - lower) =
        mod-eq_of_lt room in
      rw (ne, diff, total, index)

  -- The elements of the longer scan.
  scan-old :
      (i : ℕ) → i ≤ length ranges.offsets → at (grown ranges lower upper).scan i ≡ at ranges.scan i
  scan-old i h = at-front ranges.scan _ i (omega (arith, s.sized))

  scan-new :
      at (grown ranges lower upper).scan (length ranges.offsets + 1)
      ≡ ranges.total_count + (upper - lower)
  scan-new = at-end ranges.scan _ _ (omega (arith, s.sized))

  grown-sized : length (grown ranges lower upper).offsets ≡ length ranges.offsets + 1
  grown-sized = omega (arith, length-append ranges.offsets (lower ∷ []))

  grown-IsScan : lower < upper → IsScan (grown ranges lower upper)
  grown-IsScan h = record {
    sized = omega (
      arith,
      length-append ranges.scan ((ranges.total_count + (upper - lower)) ∷ []),
      grown-sized,
      s.sized,
    );
    starts = scan-old 0 (omega arith) ∙ s.starts;
    rises = λ i b. elim (dec_lt i (length ranges.offsets)) [
      | yes old ↦
          omega (arith, scan-old i (omega arith), scan-old (i + 1) (omega arith), s.rises i old)
      | no new ↦
          let last : i ≡ length ranges.offsets = omega (arith, grown-sized) in
          rw last (omega (arith, scan-old (length ranges.offsets) (omega arith), scan-new, s.ends))
    ];
    ends = rw grown-sized scan-new;
    fits = room;
    inside = λ i b. elim (dec_lt (length ranges.offsets) i) [
      | no old ↦ omega (arith, scan-old i (omega arith), s.inside i (omega arith))
      | yes new ↦
          let last : i ≡ length ranges.offsets + 1 = omega (arith, grown-sized) in
          rw last (omega (arith, scan-new))
    ];
  }

  -- Adding a range to IndexRanges keeps the scan consistent: it has one element more than there
  -- are ranges, starts at 0, rises, and ends at the total count. The range does not end before
  -- it starts, and its end and the new total fit 32 bits.
  pub add_range-IsScan : lower ≤ upper → IsScan (add_range ranges lower upper)
  add_range-IsScan h = elim (ℕ_discrete lower upper) [
    | yes e ↦ rw (add_range-none e) s
    | no ne ↦ rw (add_range-grown (omega arith)) (grown-IsScan (omega arith))
  ]

  -- After a range that is not empty is added to consistent IndexRanges, the last range starts
  -- and ends where that range does, and the ranges before it have the starts and counts they
  -- had. The end of the range and the new total fit 32 bits.
  pub add_range-ranges :
      lower < upper
      → let new = add_range ranges lower upper in
        let last = length ranges.offsets in
        (range_start new last ≡ lower)
        × (range_end new last ≡ upper)
        × ((i : ℕ)
            → i < last
            → (range_start new i ≡ range_start ranges i)
              × (range_count new i ≡ range_count ranges i))
  unfolding range_start range_end range_count
  add_range-ranges h =
      let start : at (ranges.offsets ++ lower ∷ []) (length ranges.offsets) ≡ lower =
        at-end ranges.offsets lower _ refl in
      let old = scan-old (length ranges.offsets) (omega arith) in
      rw (add_range-grown h) (
        start,
        rw (start, scan-new, old, s.ends) (omega arith),
        λ i b. (
          at-front ranges.offsets (lower ∷ []) i b,
          rw (scan-old i (omega arith), scan-old (i + 1) (omega arith)) refl,
        ),
      )
