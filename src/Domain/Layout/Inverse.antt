-- ===== src/Domain/Layout/Inverse.antt =====
-- The ranges that invertRanges returns (domain/layout.hpp).
use native.Mathlib.Decide.{dec_lt}
use sphexa.Base.{
  subst, ℕ, ◌≤◌, ◌<◌, ◌≡◌, ◌↔◌, arith, ◌⊎◌, inl, inr, List, [], ◌∷◌, ltb, ◌==◌, true, false,
}
use sphexa.Domain.Ranges.{IndexPair}
use sphexa.Domain.Layout.{invert_ranges}

-- The index lies in one of the ranges.
pub data Covers (i : ℕ) : List IndexPair → Type 0 where
  here :
      {range : IndexPair} {ranges : List IndexPair}
      → range.start ≤ i
      → i < range.end
      → Covers i (range ∷ ranges)
  there :
      {range : IndexPair} {ranges : List IndexPair} → Covers i ranges → Covers i (range ∷ ranges)

-- The ranges that are not empty stand one behind the other between `first` and `last`.
pub data IsSorted : ℕ → List IndexPair → ℕ → Type 0 where
  none : {first last : ℕ} → first ≤ last → IsSorted first [] last
  empty :
      {first last : ℕ} {range : IndexPair} {ranges : List IndexPair}
      → range.start ≡ range.end
      → IsSorted first ranges last
      → IsSorted first (range ∷ ranges) last
  next :
      {first last : ℕ} {range : IndexPair} {ranges : List IndexPair}
      → first ≤ range.start
      → range.start < range.end
      → IsSorted range.end ranges last
      → IsSorted first (range ∷ ranges) last

IsSorted-le : {first last : ℕ} {ranges : List IndexPair} → IsSorted first ranges last → first ≤ last
IsSorted-le (IsSorted.none h) = h
IsSorted-le (IsSorted.empty e s) = IsSorted-le s
IsSorted-le (IsSorted.next a b s) = omega (arith, IsSorted-le s)

-- What sorted ranges cover lies between their ends.
Covers-between :
    {first last i : ℕ} {ranges : List IndexPair}
    → IsSorted first ranges last
    → Covers i ranges
    → (first ≤ i) × (i < last)
Covers-between (IsSorted.none h) c = elim c [ ]
Covers-between (IsSorted.empty e s) (Covers.here a b) = absurd (omega arith)
Covers-between (IsSorted.empty e s) (Covers.there c) = Covers-between s c
Covers-between (IsSorted.next a b s) (Covers.here c d) = omega (arith, IsSorted-le s)
Covers-between (IsSorted.next a b s) (Covers.there c) = omega (arith, Covers-between s c)

inverted_none : (first last i : ℕ) → first ≤ i → i < last → Covers i (invert_ranges first [] last)
unfolding invert_ranges
inverted_none first last i a b =
    let t : ltb first last ≡ true = ground arith in rw t (Covers.here a b)

inverted_empty :
    (first last : ℕ) (range : IndexPair) (ranges : List IndexPair)
    → range.start ≡ range.end
    → invert_ranges first (range ∷ ranges) last ≡ invert_ranges first ranges last
unfolding invert_ranges
inverted_empty first last range ranges e =
    let t : (range.start == range.end) ≡ true = ground arith in rw t

-- The ranges inverted from the end of one, with the gap before it.
inverted_next :
    (first last : ℕ) (range : IndexPair) (ranges : List IndexPair) (i : ℕ)
    → first ≤ range.start
    → range.start < range.end
    → Covers i (invert_ranges first (range ∷ ranges) last)
      ↔ ((first ≤ i) × (i < range.start) ⊎ Covers i (invert_ranges range.end ranges last))
unfolding invert_ranges
inverted_next first last range ranges i a b =
    let ne : (range.start == range.end) ≡ false = ground arith in
    elim (dec_lt first range.start) [
      | yes gap ↦
          let t : ltb first range.start ≡ true = ground arith in
          rw (ne, t)
            (λ c. split c, λ c. elim c [ inl (d, e) ↦ Covers.here d e | inr d ↦ Covers.there d ])
      | no tight ↦
          let t : ltb first range.start ≡ false = ground arith in
          rw (ne, t) (λ c. inr c, λ c. elim c [ inl (d, e) ↦ absurd (omega arith) | inr d ↦ d ])
    ]
  where
    split :
        {a b j : ℕ} {rs : List IndexPair}
        → Covers j (record { start = a; end = b } ∷ rs)
        → (a ≤ j) × (j < b) ⊎ Covers j rs
    split (Covers.here d e) = inl (d, e)
    split (Covers.there d) = inr d

-- They begin no earlier than the first index.
inverted-above :
    {first last i : ℕ} {ranges : List IndexPair}
    → IsSorted first ranges last
    → Covers i (invert_ranges first ranges last)
    → first ≤ i
unfolding invert_ranges
inverted-above {first} {last} {i} (IsSorted.none h) c = elim (dec_lt first last) [
  | yes lt ↦ let t : ltb first last ≡ true = ground arith in start (rw t at c)
  | no ge ↦ let t : ltb first last ≡ false = ground arith in elim (rw t at c) [ ]
]
  where
    start : {a b j : ℕ} → Covers j (record { start = a; end = b } ∷ []) → a ≤ j
    start (Covers.here d e) = d
    start (Covers.there d) = elim d [ ]
inverted-above {first} {last} {ranges = range ∷ ranges} (IsSorted.empty e s) c =
    inverted-above s (subst (Covers _) (inverted_empty first last range ranges e) c)
inverted-above {first} {last} {i} {ranges = range ∷ ranges} (IsSorted.next a b s) c =
    elim ((inverted_next first last range ranges i a b).0 c) [
      | inl (d, _) ↦ d
      | inr d ↦ omega (arith, inverted-above s d)
    ]

-- For sorted ranges between first and last, some of them perhaps empty, an index from first to
-- before last is covered either by these ranges or by what invert_ranges returns, and never by
-- both.
pub invert_ranges-Covers :
    (first last : ℕ) (ranges : List IndexPair) (i : ℕ)
    → IsSorted first ranges last
    → first ≤ i
    → i < last
    → (Covers i (invert_ranges first ranges last) ⊎ Covers i ranges)
      × (Covers i (invert_ranges first ranges last) → Covers i ranges → ⊥)
invert_ranges-Covers first last [] i (IsSorted.none h) a b =
    (inl (inverted_none first last i a b), λ c d. elim d [ ])
invert_ranges-Covers first last (range ∷ ranges) i (IsSorted.empty e s) a b =
    let (some, only) = invert_ranges-Covers first last ranges i s a b in
    rw (inverted_empty first last range ranges e) (
      elim some [ inl c ↦ inl c | inr c ↦ inr (Covers.there c) ],
      λ c d. elim d [ Covers.here x y ↦ absurd (omega arith) | Covers.there d' ↦ only c d' ],
    )
invert_ranges-Covers first last (range ∷ ranges) i (IsSorted.next u v s) a b =
    let (to, from) = inverted_next first last range ranges i u v in
    elim (dec_lt i range.start) [
      | yes gap ↦ (
        inl (from (inl (a, gap))),
        λ c d. elim d [
          | Covers.here x y ↦ absurd (omega arith)
          | Covers.there d' ↦ absurd (omega (arith, Covers-between s d'))
        ],
      )
      | no behind ↦ elim (dec_lt i range.end) [
        | yes inside ↦ (
          inr (Covers.here (omega arith) inside),
          λ c d. elim (to c) [
            | inl (x, y) ↦ absurd (omega arith)
            | inr x ↦ absurd (omega (arith, inverted-above s x))
          ],
        )
        | no later ↦
            let (some, only) = invert_ranges-Covers range.end last ranges i s (omega arith) b in
            (
              elim some [ inl c ↦ inl (from (inr c)) | inr c ↦ inr (Covers.there c) ],
              λ c d. elim (to c) [
                | inl (x, y) ↦ absurd (omega arith)
                | inr x ↦ elim d [
                  | Covers.here y z ↦ absurd (omega arith)
                  | Covers.there d' ↦ only x d'
                ]
              ],
            )
      ]
    ]
