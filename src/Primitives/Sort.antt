-- ===== src/Primitives/Sort.antt =====
-- The standard library's sort, and unique with the erasure behind it, on numbers, for
-- domain/include/cstone/focus/inject.hpp.
use sphexa.Base.{
  ℕ, zero, suc, ◌+◌, ◌-◌, ◌≤◌, ◌<◌, ◌≡◌, ◌↔◌, ◌⊎◌, inl, inr, refl, ap, sym, ◌∙◌, arith, Bool-cases,
  List, [], ◌∷◌, ◌++◌, ltb, ltb→lt, ◌==◌, ==_iff, if◌then◌else◌, length,
}
use sphexa.Primitives.Search.{at}

unfoldable pub insert_sorted : ℕ → List ℕ → List ℕ
insert_sorted a [] = a ∷ []
insert_sorted a (x ∷ xs) = if ltb x a then x ∷ insert_sorted a xs else a ∷ (x ∷ xs)

unfoldable pub sort : List ℕ → List ℕ
sort [] = []
sort (x ∷ xs) = insert_sorted x (sort xs)

-- Of equal neighbours one is kept.
unfoldable pub unique : List ℕ → List ℕ
unique [] = []
unique (x ∷ []) = x ∷ []
unique (x ∷ (y ∷ xs)) = if x == y then unique (y ∷ xs) else x ∷ unique (y ∷ xs)

-- Membership, and lists that ascend, strictly or not, from a number on.
abbrev pub In : ℕ → List ℕ → Type 0
In z [] = ⊥
In z (x ∷ xs) = (z ≡ x) ⊎ In z xs

abbrev pub From : ℕ → List ℕ → Type 0
From lo [] = Unit {0}
From lo (x ∷ xs) = (lo ≤ x) × From x xs

abbrev pub Above : ℕ → List ℕ → Type 0
Above lo [] = Unit {0}
Above lo (x ∷ xs) = (lo < x) × Above x xs

In-cons : (z x : ℕ) (us vs : List ℕ) → (In z us → In z vs) → In z (x ∷ us) → In z (x ∷ vs)
In-cons z x us vs f (inl e) = inl e
In-cons z x us vs f (inr h) = inr (f h)

insert_sorted-From : (lo a : ℕ) (xs : List ℕ) → lo ≤ a → From lo xs → From lo (insert_sorted a xs)
unfolding insert_sorted
insert_sorted-From lo a [] h f = (h, tt)
insert_sorted-From lo a (x ∷ xs) h (g, f) = elim (Bool-cases (ltb x a)) [
  | inl less ↦ rw less (g, insert_sorted-From x a xs (omega (arith, ltb→lt x a less)) f)
  | inr more ↦ rw more (h, (ground arith, f))
]

pub sort-From : (xs : List ℕ) → From 0 (sort xs)
unfolding sort
sort-From [] = tt
sort-From (x ∷ xs) = insert_sorted-From 0 x (sort xs) (omega arith) (sort-From xs)

In-insert_sorted : (z a : ℕ) (xs : List ℕ) → In z (insert_sorted a xs) ↔ In z (a ∷ xs)
unfolding insert_sorted
In-insert_sorted z a [] = (λ h. h, λ h. h)
In-insert_sorted z a (x ∷ xs) =
    let (to, from) = In-insert_sorted z a xs in
    elim (Bool-cases (ltb x a)) [
      | inr more ↦ rw more (λ h. h, λ h. h)
      | inl less ↦ rw less (swap to, unswap from)
    ]
  where
    swap :
        (In z (insert_sorted a xs) → In z (a ∷ xs))
        → In z (x ∷ insert_sorted a xs)
        → In z (a ∷ (x ∷ xs))
    swap to (inl e) = inr (inl e)
    swap to (inr h) = elim (to h) [ inl e ↦ inl e | inr g ↦ inr (inr g) ]

    unswap :
        (In z (a ∷ xs) → In z (insert_sorted a xs))
        → In z (a ∷ (x ∷ xs))
        → In z (x ∷ insert_sorted a xs)
    unswap from (inl e) = inr (from (inl e))
    unswap from (inr (inl e)) = inl e
    unswap from (inr (inr h)) = inr (from (inr h))

pub In-sort : (z : ℕ) (xs : List ℕ) → In z (sort xs) ↔ In z xs
unfolding sort
In-sort z [] = (λ h. h, λ h. h)
In-sort z (x ∷ xs) =
    let (to, from) = In-insert_sorted z x (sort xs) in
    let (to', from') = In-sort z xs in
    (λ h. In-cons z x (sort xs) xs to' (to h), λ h. from (In-cons z x xs (sort xs) from' h))

In-kept :
    (z x y : ℕ) (us vs : List ℕ)
    → x ≡ y
    → (In z (y ∷ us) → In z (y ∷ vs))
    → In z (x ∷ us)
    → In z (x ∷ (y ∷ vs))
In-kept z x y us vs e g (inl i) = inl i
In-kept z x y us vs e g (inr h) = inr (g (inr h))

In-merged :
    (z x y : ℕ) (us vs : List ℕ)
    → x ≡ y
    → (In z (y ∷ vs) → In z (y ∷ us))
    → In z (x ∷ (y ∷ vs))
    → In z (x ∷ us)
In-merged z x y us vs e g (inl i) = inl i
In-merged z x y us vs e g (inr h) = elim (g h) [ inl i ↦ inl (i ∙ sym e) | inr k ↦ inr k ]

-- A list in order without its repetitions: strictly ascending, with the same elements.
pub record Distinct (x : ℕ) (xs : List ℕ) : Type 0 where
  pub rest : List ℕ
  pub result : unique (x ∷ xs) ≡ x ∷ rest
  pub ascends : Above x rest
  pub same : (z : ℕ) → In z (x ∷ rest) ↔ In z (x ∷ xs)

pub unique-Distinct : (x : ℕ) (xs : List ℕ) → From x xs → Distinct x xs
unfolding unique
unique-Distinct x [] f = record {
  rest = [];
  result = refl;
  ascends = tt;
  same = λ z. (λ h. h, λ h. h);
}
unique-Distinct x (y ∷ xs) (h, f) =
    let d = unique-Distinct y xs f in
    elim (Bool-cases (x == y)) [
      | inl e ↦
          let here : x ≡ y = (==_iff x y).0 e in
          record {
            rest = d.rest;
            result = rw e (d.result ∙ ap (λ (w : ℕ). w ∷ d.rest) (sym here));
            ascends = rw here (d.ascends);
            same = λ z. (
              In-kept z x y d.rest xs here (d.same z).0,
              In-merged z x y d.rest xs here (d.same z).1,
            );
          }
      | inr ne ↦
          let less : x < y = ground arith in
          record {
            rest = y ∷ d.rest;
            result = rw ne (ap (λ r. x ∷ r) d.result);
            ascends = (less, d.ascends);
            same = λ z. (
              In-cons z x (y ∷ d.rest) (y ∷ xs) (d.same z).0,
              In-cons z x (y ∷ xs) (y ∷ d.rest) (d.same z).1,
            );
          }
    ]

pub In-append : (z : ℕ) (xs ys : List ℕ) → In z (xs ++ ys) ↔ (In z xs ⊎ In z ys)
In-append z [] ys = (λ h. inr h, λ h. elim h [ inl g ↦ absurd g | inr g ↦ g ])
In-append z (x ∷ xs) ys = (to (In-append z xs ys).0, from (In-append z xs ys).1)
  where
    to : (In z (xs ++ ys) → In z xs ⊎ In z ys) → In z (x ∷ (xs ++ ys)) → In z (x ∷ xs) ⊎ In z ys
    to f (inl e) = inl (inl e)
    to f (inr h) = elim (f h) [ inl g ↦ inl (inr g) | inr g ↦ inr g ]

    from : (In z xs ⊎ In z ys → In z (xs ++ ys)) → In z (x ∷ xs) ⊎ In z ys → In z (x ∷ (xs ++ ys))
    from f (inl (inl e)) = inl e
    from f (inl (inr h)) = inr (f (inl h))
    from f (inr h) = inr (f (inr h))

-- The same by index.
pub In-at : (z : ℕ) (xs : List ℕ) → In z xs → (i : ℕ) × (i < length xs) × (at xs i ≡ z)
In-at z [] h = absurd h
In-at z (x ∷ xs) (inl e) = (0, omega arith, sym e)
In-at z (x ∷ xs) (inr h) = let (i, b, e) = In-at z xs h in (suc i, omega arith, e)

pub at-In : (xs : List ℕ) (i : ℕ) → i < length xs → In (at xs i) xs
at-In [] i h = absurd (omega arith)
at-In (x ∷ xs) zero h = inl refl
at-In (x ∷ xs) (suc i) h = inr (at-In xs i (omega arith))

pub Above-step :
    (x : ℕ) (xs : List ℕ) (i : ℕ) → Above x xs → i < length xs → at (x ∷ xs) i < at (x ∷ xs) (suc i)
Above-step x [] i a h = absurd (omega arith)
Above-step x (y ∷ xs) zero (less, a) h = less
Above-step x (y ∷ xs) (suc i) (less, a) h = Above-step y xs i a (omega arith)

pub Above-le :
    (x : ℕ) (xs : List ℕ)
    → Above x xs
    → (d i j : ℕ) → i + d ≡ j
    → j ≤ length xs
    → at (x ∷ xs) i ≤ at (x ∷ xs) j
Above-le x xs a zero i j e h = omega (arith, ap (at (x ∷ xs)) {x = i} {y = j} (omega arith))
Above-le x xs a (suc d) i j e h =
    omega (arith, Above-step x xs i a (omega arith), Above-le x xs a d (suc i) j (omega arith) h)

-- What sorting and removing repetitions gives, for a list that is not empty.
pub record Ordered (us vs : List ℕ) : Type 0 where
  pub head : ℕ
  pub rest : List ℕ
  pub result : vs ≡ head ∷ rest
  pub ascends : Above head rest
  pub same : (z : ℕ) → In z (head ∷ rest) ↔ In z us

pub unique-sort-Ordered : (z : ℕ) (us : List ℕ) → In z us → Ordered us (unique (sort us))
unique-sort-Ordered z us h = ordered (sort us) (sort-From us) (λ w. In-sort w us)
  where
    ordered : (vs : List ℕ) → From 0 vs → ((w : ℕ) → In w vs ↔ In w us) → Ordered us (unique vs)
    ordered [] f same = absurd ((same z).1 h)
    ordered (x ∷ xs) (_, f) same =
        let d = unique-Distinct x xs f in
        record {
          head = x;
          rest = d.rest;
          result = d.result;
          ascends = d.ascends;
          same = λ w. (λ g. (same w).0 ((d.same w).0 g), λ g. (d.same w).1 ((same w).1 g));
        }

-- The ends, if the least and the greatest element are known.
module _ (us vs : List ℕ) (o : Ordered us vs) (lo hi : ℕ) (has_lo : In lo us) (has_hi : In hi us)
    (least : (z : ℕ) → In z us → lo ≤ z) (greatest : (z : ℕ) → In z us → z ≤ hi) where
  pub Ordered-first : at (o.head ∷ o.rest) 0 ≡ lo
  Ordered-first =
      let (i, b, e) = In-at lo (o.head ∷ o.rest) ((o.same lo).1 has_lo) in
      omega (
        arith,
        least o.head ((o.same o.head).0 (inl refl)),
        Above-le o.head o.rest o.ascends i 0 i (omega arith) (omega arith),
      )

  Ordered-last : at (o.head ∷ o.rest) (length o.rest) ≡ hi
  Ordered-last =
      let n = length o.rest in
      let (i, b, e) = In-at hi (o.head ∷ o.rest) ((o.same hi).1 has_hi) in
      omega (
        arith,
        greatest (at (o.head ∷ o.rest) n) ((o.same _).0 (at-In (o.head ∷ o.rest) n (omega arith))),
        Above-le o.head o.rest o.ascends (n - i) i n (omega arith) (omega arith),
      )

  pub Ordered-end : at (o.head ∷ o.rest) (length (o.head ∷ o.rest) - 1) ≡ hi
  Ordered-end = ap (at (o.head ∷ o.rest)) (omega arith) ∙ Ordered-last
