-- ===== src/Domain/Layout/Marked.antt =====
-- What extractMarkedElements extracts (domain/layout.hpp).
use native.Mathlib.Decide.{dec_lt, ℕ_discrete}
use sphexa.Base.{
  Bool, subst, ℕ, zero, suc, ◌+◌, ◌-◌, ◌≤◌, ◌<◌, ◌≡◌, ◌↔◌, ap, sym, ◌∙◌, arith, ◌⊎◌, inl, inr,
  Bool-cases, ◌&&◌, &&_true, &&_false, List, [], ◌∷◌, ltb, ◌==◌, true, false,
}
use sphexa.Domain.Layout.{
  advance, skip_unmarked, skip_marked, extract_loop, extract_marked_elements,
}

-- The value lies in one of the half-open ranges that the list names by their ends.
pub data InPairs (x : ℕ) : List ℕ → Type 0 where
  here : {a b : ℕ} {rest : List ℕ} → a ≤ x → x < b → InPairs x (a ∷ b ∷ rest)
  there : {a b : ℕ} {rest : List ℕ} → InPairs x rest → InPairs x (a ∷ b ∷ rest)

from_pairs :
    {x a b : ℕ} {rest : List ℕ} → InPairs x (a ∷ b ∷ rest) → (a ≤ x) × (x < b) ⊎ InPairs x rest
from_pairs (InPairs.here p q) = inl (p, q)
from_pairs (InPairs.there p) = inr p

-- Where an inner loop stops, given what it passes over.
record Stops (test : ℕ → Bool) (second first r : ℕ) : Type 0 where
  above : first ≤ r
  below : r ≤ second
  run : (k : ℕ) → first ≤ k → k < r → test k ≡ true
  stop : (r ≡ second) ⊎ (test r ≡ false)

advance-Stops :
    (test : ℕ → Bool) (fuel first second : ℕ)
    → first ≤ second
    → second ≤ first + fuel
    → Stops test second first (advance test fuel first second)
unfolding advance
advance-Stops test zero first second a b = record {
  above = omega arith;
  below = omega arith;
  run = λ k c d. absurd (omega arith);
  stop = inl (omega arith);
}
advance-Stops test (suc fuel) first second a b =
    elim (Bool-cases (ltb first second && test first)) [
      | inl e ↦
          let (lt, pass) = &&_true (ltb first second) (test first) e in
          let s = advance-Stops test fuel (first + 1) second (ground arith) (omega arith) in
          rw e (record {
            above = omega (arith, s.above);
            below = s.below;
            run = λ k c d. elim (ℕ_discrete first k) [
              | yes g ↦ ap test (sym g) ∙ pass
              | no ne ↦ s.run k (omega arith) d
            ];
            stop = s.stop;
          })
      | inr e ↦
          let here : (first ≡ second) ⊎ (test first ≡ false) = elim (dec_lt first second) [
            | no h ↦ inl (omega arith)
            | yes h ↦ inr (&&_false (ltb first second) (test first) (ground arith) e)
          ] in
          rw e (record {
            above = omega arith;
            below = a;
            run = λ k c d. absurd (omega arith);
            stop = here;
          })
    ]

module _ (source flags : ℕ → ℕ) (second : ℕ)
    (ascending : (i : ℕ) → i < second → flags i ≤ flags (i + 1))
    (strict : (i j : ℕ) → i < j → j ≤ second → source i < source j) where
  source_le : (i j : ℕ) → i ≤ j → j ≤ second → source i ≤ source j
  source_le i j a b = elim (ℕ_discrete i j) [
    | yes e ↦ omega (arith, ap source e)
    | no ne ↦ omega (arith, strict i j (omega arith) b)
  ]

  extract_loop-step :
      (fuel first : ℕ)
      → let start = skip_unmarked flags first second in
        start < second
        → first < second
        → extract_loop source flags (suc fuel) first second
          ≡ source start
            ∷ source (skip_marked flags start second)
            ∷ extract_loop source flags fuel (skip_marked flags start second) second
  unfolding extract_loop
  extract_loop-step fuel first a b =
      let x : (first == second) ≡ false = ground arith in
      let y : (skip_unmarked flags first second == second) ≡ false = ground arith in rw (x, y)

  extract_loop-end :
      (fuel first : ℕ)
      → (first ≡ second) ⊎ (skip_unmarked flags first second ≡ second)
      → extract_loop source flags (suc fuel) first second ≡ []
  unfolding extract_loop
  extract_loop-end fuel first (inl e) = let x : (first == second) ≡ true = ground arith in rw x
  extract_loop-end fuel first (inr e) =
      let x : (skip_unmarked flags first second == second) ≡ true = ground arith in
      elim (Bool-cases (first == second)) [ inl y ↦ rw y | inr y ↦ rw (y, x) ]

  abbrev unmarked : ℕ → Bool
  unmarked i = flags (i + 1) == flags i

  abbrev marked : ℕ → Bool
  marked i = ltb (flags i) (flags (i + 1))

  start_of :
      (first : ℕ) → first ≤ second → Stops unmarked second first (skip_unmarked flags first second)
  unfolding skip_unmarked
  start_of first a = advance-Stops unmarked (second - first) first second a (omega arith)

  end_of : (first : ℕ) → first ≤ second → Stops marked second first (skip_marked flags first second)
  unfolding skip_marked
  end_of first a = advance-Stops marked (second - first) first second a (omega arith)

  -- One round of the outer loop: nothing more is marked, or a range is found.
  data Round (fuel first : ℕ) : Type 0 where
    over :
        extract_loop source flags (suc fuel) first second ≡ []
        → ((k : ℕ) → first ≤ k → k < second → unmarked k ≡ true)
        → Round fuel first
    found :
        (start end : ℕ)
        → extract_loop source flags (suc fuel) first second
          ≡ source start ∷ source end ∷ extract_loop source flags fuel end second
        → first ≤ start
        → start < end
        → end ≤ second
        → ((k : ℕ) → first ≤ k → k < start → unmarked k ≡ true)
        → ((k : ℕ) → start ≤ k → k < end → marked k ≡ true)
        → Round fuel first

  one-Round : (fuel first : ℕ) → first ≤ second → Round fuel first
  one-Round fuel first a = elim (ℕ_discrete first second) [
    | yes e ↦ Round.over (extract_loop-end fuel first (inl e)) (λ k c d. absurd (omega arith))
    | no ne ↦
        let start = skip_unmarked flags first second in
        let s = start_of first a in
        elim (ℕ_discrete start second) [
          | yes e ↦
              Round.over (extract_loop-end fuel first (inr e)) (λ k c d. s.run k c (omega arith))
          | no inside ↦
              let end = skip_marked flags start second in
              let f = end_of start s.below in
              let differs : unmarked start ≡ false = elim s.stop [
                | inl e ↦ absurd (inside e)
                | inr e ↦ e
              ] in
              let first_marked : marked start ≡ true =
                ground (arith, ascending start (omega (arith, s.below))) in
              let progress : start < end = elim (ℕ_discrete start end) [
                | no more ↦ omega (arith, f.above)
                | yes stuck ↦ elim f.stop [
                  | inl e ↦ absurd (inside (stuck ∙ e))
                  | inr e ↦ absurd (clash first_marked (ap marked stuck ∙ e))
                ]
              ] in
              Round.found start end
                (extract_loop-step fuel first (omega (arith, s.below)) (omega arith)) s.above
                progress f.below s.run f.run
        ]
  ]
    where
      clash : {b : Bool} → b ≡ true → b ≡ false → ⊥
      clash p q = cc

  -- The ranges begin no earlier than the first index.
  extract_loop-above :
      (fuel first x : ℕ)
      → first ≤ second
      → InPairs x (extract_loop source flags fuel first second)
      → source first ≤ x
  unfolding extract_loop
  extract_loop-above zero first x a c = elim c [ ]
  extract_loop-above (suc fuel) first x a c = elim (one-Round fuel first a) [
    | Round.over e _ ↦ elim (subst (InPairs x) e c) [ ]
    | Round.found start end e low step high _ _ ↦ elim (from_pairs (subst (InPairs x) e c)) [
      | inl (h, _) ↦ omega (arith, source_le first start low (omega arith))
      | inr h ↦
          omega
            (arith, source_le first end (omega arith) high, extract_loop-above fuel end x high h)
    ]
  ]

  extract_loop-marked :
      (fuel first i : ℕ)
      → first ≤ second
      → second ≤ first + fuel
      → first ≤ i
      → i < second
      → InPairs (source i) (extract_loop source flags fuel first second) ↔ (flags i < flags (i + 1))
  extract_loop-marked zero first i a b c d = absurd (omega arith)
  extract_loop-marked (suc fuel) first i a b c d = elim (one-Round fuel first a) [
    | Round.over e none ↦
        (λ p. elim (subst (InPairs (source i)) e p) [ ], λ h. absurd (ground (arith, none i c d)))
    | Round.found start end e low step high before inside ↦ elim (dec_lt i end) [
      | no later ↦
          let (to, from) = extract_loop-marked fuel end i high (omega arith) (omega arith) d in
          (
            λ p. elim (from_pairs (subst (InPairs (source i)) e p)) [
              | inl (_, h) ↦ absurd (omega (arith, source_le end i (omega arith) (omega arith)))
              | inr q ↦ to q
            ],
            λ h. subst (InPairs (source i)) (sym e) (InPairs.there (from h)),
          )
      | yes early ↦ elim (dec_lt i start) [
        | yes under ↦ (
          λ p. absurd (elim (from_pairs (subst (InPairs (source i)) e p)) [
            | inl (h, _) ↦ omega (arith, strict i start under (omega arith))
            | inr q ↦
                omega
                  (arith, extract_loop-above fuel end (source i) high q, strict i end early high)
          ]),
          λ h. absurd (ground (arith, before i c under)),
        )
        | no after ↦ (
          λ p. ground (arith, inside i (omega arith) early),
          λ h. subst (InPairs (source i)) (sym e) (
              InPairs.here (source_le start i (omega arith) (omega arith))
                (strict i end early high)),
        )
      ]
    ]
  ]

  -- The elements that extract_marked_elements returns are the ends of half-open ranges, which
  -- contain the source element of an index of [first, second) if and only if the flags rise
  -- behind the index. The flags do not fall before second, and the source rises strictly up to
  -- it.
  pub extract_marked_elements-InPairs :
      (first i : ℕ)
      → first ≤ i
      → i < second
      → InPairs (source i) (extract_marked_elements source flags first second)
        ↔ (flags i < flags (i + 1))
  unfolding extract_marked_elements
  extract_marked_elements-InPairs first i a b =
      extract_loop-marked (second - first) first i (omega arith) (omega arith) a b
