-- ===== src/Primitives/Search/Partition.antt =====
-- The results of the searches on a sorted range (primitives/stl.hpp).
use native.Mathlib.Decide.{dec_lt}
use sphexa.Base.{
  ℕ, zero, suc, ◌+◌, ◌-◌, ◌/◌, ◌≤◌, ◌<◌, ◌≡◌, refl, ap, Bool, true, false, not, arith, ltb,
  Bool-cases, if◌then◌else◌, inl, inr,
}
use sphexa.Primitives.Search.{search_loop, lower_bound, upper_bound}

-- The keys of [first, last) do not fall.
abbrev pub Ascending : (ℕ → ℕ) → ℕ → ℕ → Type 0
Ascending keys first last = (i j : ℕ) → first ≤ i → i ≤ j → j < last → keys i ≤ keys j

-- `r` parts [first, last) into the elements that pass the test and those that do not.
pub record IsPartition (right : ℕ → Bool) (keys : ℕ → ℕ) (first last r : ℕ) : Type 0 where
  pub above : first ≤ r
  pub below : r ≤ last
  pub passes : (i : ℕ) → first ≤ i → i < r → right (keys i) ≡ true
  pub fails : (i : ℕ) → r ≤ i → i < last → right (keys i) ≡ false

search_loop-suc :
    (right : ℕ → Bool) (keys : ℕ → ℕ) (fuel first n : ℕ)
    → search_loop right keys (suc fuel) first (suc n) ≡ (
        if right (keys (first + suc n / 2))
        then search_loop right keys fuel (first + suc n / 2 + 1) (suc n - (suc n / 2 + 1))
        else search_loop right keys fuel first (suc n / 2))
unfolding search_loop
search_loop-suc right keys fuel first n = ground arith

-- There is one such point at most.
pub IsPartition-unique :
    {right : ℕ → Bool} {keys : ℕ → ℕ} {first last : ℕ} (r s : ℕ)
    → IsPartition right keys first last r
    → IsPartition right keys first last s
    → r ≡ s
IsPartition-unique {right} {keys} r s p q = elim (dec_lt r s) [
  | yes h ↦
      absurd (differ (p.fails r (omega arith) (omega (arith, q.below))) (q.passes r p.above h))
  | no h ↦ elim (dec_lt s r) [
    | yes k ↦
        absurd (differ (q.fails s (omega arith) (omega (arith, p.below))) (p.passes s q.above k))
    | no k ↦ omega arith
  ]
]
  where
    differ : {b : Bool} → b ≡ false → b ≡ true → ⊥
    differ e f = cc

module _ (right : ℕ → Bool) (keys : ℕ → ℕ) (lo hi : ℕ)
    (falls : (i j : ℕ)
      → lo ≤ i
      → i ≤ j
      → j < hi
      → right (keys j) ≡ true
      → right (keys i) ≡ true) where
  -- The element read passes, so the answer lies behind it.
  skip_left :
      (first it last r : ℕ)
      → lo ≤ first
      → first ≤ it
      → it < last
      → last ≤ hi
      → right (keys it) ≡ true
      → IsPartition right keys (it + 1) last r
      → IsPartition right keys first last r
  skip_left first it last r a b c d e p = record {
    above = omega (arith, p.above);
    below = p.below;
    passes = λ i m n. elim (dec_lt it i) [
      | yes h ↦ p.passes i (omega arith) n
      | no h ↦ falls i it (omega arith) (omega arith) (omega arith) e
    ];
    fails = p.fails;
  }

  -- The element read fails, so the answer lies before it or is its place.
  skip_right :
      (first it last r : ℕ)
      → lo ≤ first
      → it < last
      → last ≤ hi
      → right (keys it) ≡ false
      → IsPartition right keys first it r
      → IsPartition right keys first last r
  skip_right first it last r a c d e p = record {
    above = p.above;
    below = omega (arith, p.below);
    passes = p.passes;
    fails = λ i m n. elim (dec_lt i it) [
      | yes h ↦ p.fails i m h
      | no h ↦ elim (Bool-cases (right (keys i))) [
        | inr f ↦ f
        | inl g ↦ ground (
          arith,
          p.above,
          p.below,
          falls it i (omega (arith, p.above, p.below)) (omega arith) (omega arith) g,
        )
      ]
    ];
  }

  search_loop-IsPartition :
      (fuel first count last : ℕ)
      → lo ≤ first
      → first + count ≡ last
      → last ≤ hi
      → count ≤ fuel
      → IsPartition right keys first last (search_loop right keys fuel first count)
  unfolding search_loop
  search_loop-IsPartition zero first count last a b c d = record {
    above = omega arith;
    below = omega arith;
    passes = λ i m n. absurd (omega arith);
    fails = λ i m n. absurd (omega arith);
  }
  search_loop-IsPartition (suc fuel) first zero last a b c d = record {
    above = omega arith;
    below = omega arith;
    passes = λ i m n. absurd (omega arith);
    fails = λ i m n. absurd (omega arith);
  }
  search_loop-IsPartition (suc fuel) first (suc n) last a b c d =
      elim (Bool-cases (right (keys (first + suc n / 2)))) [
        | inl e ↦
            rw (search_loop-suc right keys fuel first n, e)
              (skip_left first (first + suc n / 2) last _ a (omega arith) (omega arith) c e (
                search_loop-IsPartition fuel (first + suc n / 2 + 1) (suc n - (suc n / 2 + 1)) last
                  (omega arith) (omega arith) c (omega arith)))
        | inr e ↦
            rw (search_loop-suc right keys fuel first n, e)
              (skip_right first (first + suc n / 2) last _ a (omega arith) c e (
                search_loop-IsPartition fuel first (suc n / 2) (first + suc n / 2) a refl
                  (omega arith) (omega arith)))
      ]

module _ (keys : ℕ → ℕ) (first last value : ℕ) (ordered : first ≤ last)
    (ascending : Ascending keys first last) where
  -- On ascending keys, lower_bound returns the place in [first, last] before which all keys are
  -- below the value and from which on none is.
  pub lower_bound-IsPartition :
      IsPartition (λ x. ltb x value) keys first last (lower_bound keys first last value)
  unfolding lower_bound
  lower_bound-IsPartition =
      search_loop-IsPartition (λ x. ltb x value) keys first last
        (λ i j a b c h. ground (arith, ascending i j a b c)) (last - first) first (last - first)
        last (omega arith) (omega arith) (omega arith) (omega arith)

  -- On ascending keys, upper_bound returns the place in [first, last] before which no key is
  -- above the value and from which on all are.
  pub upper_bound-IsPartition :
      IsPartition (λ x. not (ltb value x)) keys first last (upper_bound keys first last value)
  unfolding upper_bound
  upper_bound-IsPartition =
      search_loop-IsPartition (λ x. not (ltb value x)) keys first last
        (λ i j a b c h. ground (arith, ascending i j a b c)) (last - first) first (last - first)
        last (omega arith) (omega arith) (omega arith) (omega arith)

-- It is enough to compare neighbours.
pub steps-Ascending :
    (keys : ℕ → ℕ) (n : ℕ) → ((i : ℕ) → suc i < n → keys i ≤ keys (suc i)) → Ascending keys 0 n
steps-Ascending keys n h i j a b c = climb_to (j - i) i j (omega arith) c
  where
    climb_to : (d i j : ℕ) → i + d ≡ j → j < n → keys i ≤ keys j
    climb_to zero i j e f = omega (arith, ap keys {x = i} {y = j} (omega arith))
    climb_to (suc d) i j e f =
        omega (arith, h i (omega arith), climb_to d (suc i) j (omega arith) f)
