-- ===== src/Focus/Peers/Includes.antt =====
-- What std::includes finds in ascending ranges (focus/peer_flags.hpp).
use sphexa.Base.{
  ℕ, zero, suc, ◌+◌, ◌≤◌, ◌<◌, ◌≡◌, ◌↔◌, inl, inr, refl, ◌∙◌, arith, true, false, Bool-cases, List,
  [], ◌∷◌, ltb, length, ltb→lt,
}
use sphexa.Primitives.Sort.{In, Above}
use sphexa.Focus.Peers.{elements, includes, is_peer}

abbrev pub Ascending : List ℕ → Type 0
Ascending [] = Unit {0}
Ascending (x ∷ xs) = Above x xs

abbrev pub Has : List ℕ → List ℕ → Type 0
Has xs ys = (z : ℕ) → In z ys → In z xs

Above-Ascending : (x : ℕ) (xs : List ℕ) → Above x xs → Ascending xs
Above-Ascending x [] a = tt
Above-Ascending x (y ∷ xs) (less, a) = a

Above-In : (x z : ℕ) (xs : List ℕ) → Above x xs → In z xs → x < z
Above-In x z [] a h = absurd h
Above-In x z (y ∷ xs) (less, a) (inl e) = omega arith
Above-In x z (y ∷ xs) (less, a) (inr h) = omega (arith, Above-In y z xs a h)

-- An element other than the first.
In-rest : (x z : ℕ) (xs : List ℕ) → x < z → In z (x ∷ xs) → In z xs
In-rest x z xs less (inl e) = absurd (omega arith)
In-rest x z xs less (inr h) = h

includes-Has : (xs ys : List ℕ) → includes xs ys ≡ true → Has xs ys × (length ys ≤ length xs)
unfolding includes
includes-Has [] [] e = (λ z h. h, omega arith)
includes-Has [] (y ∷ ys) e = absurd (ground arith)
includes-Has (x ∷ xs) [] e = (λ z h. absurd h, omega arith)
includes-Has (x ∷ xs) (y ∷ ys) e = elim (Bool-cases (ltb y x)) [
  | inl over ↦ (let no = rw over at e in absurd (ground arith))
  | inr not_over ↦ elim (Bool-cases (ltb x y)) [
    | inl skip ↦
        let (has, size) = includes-Has xs (y ∷ ys) (rw (not_over, skip) at e) in
        (λ z h. inr (has z h), omega arith)
    | inr both ↦
        let same : y ≡ x = ground arith in
        let (has, size) = includes-Has xs ys (rw (not_over, both) at e) in
        (λ z h. elim h [ inl g ↦ inl (g ∙ same) | inr g ↦ inr (has z g) ], omega arith)
  ]
]

Has-includes : (xs ys : List ℕ) → Ascending xs → Ascending ys → Has xs ys → includes xs ys ≡ true
unfolding includes
Has-includes [] [] a b has = refl
Has-includes [] (y ∷ ys) a b has = absurd (has y (inl refl))
Has-includes (x ∷ xs) [] a b has = refl
Has-includes (x ∷ xs) (y ∷ ys) a b has =
    let least : x ≤ y = elim (has y (inl refl)) [
      | inl e ↦ omega arith
      | inr h ↦ omega (arith, Above-In x y xs a h)
    ] in
    let found : ltb y x ≡ false = ground arith in
    elim (Bool-cases (ltb x y)) [
      | inl skip ↦
          rw (found, skip)
            (Has-includes xs (y ∷ ys) (Above-Ascending x xs a) b (λ z h.
              In-rest x z xs
                (elim h [
                  | inl e ↦ omega (arith, ltb→lt x y skip)
                  | inr g ↦ omega (arith, Above-In y z ys b g)
                ])
                (has z h)))
      | inr both ↦
          rw (found, both)
            (Has-includes xs ys (Above-Ascending x xs a) (Above-Ascending y ys b)
              (λ z h. In-rest x z xs (omega (arith, Above-In y z ys b h)) (has z (inr h))))
    ]

-- The comparison of the lengths is a short cut only.
pub is_peer_iff :
    (glob foc : List ℕ) → Ascending glob → Ascending foc → (is_peer glob foc ≡ false) ↔ Has glob foc
unfolding is_peer
is_peer_iff glob foc a b = elim (Bool-cases (includes glob foc)) [
  | inl e ↦
      let (has, size) = includes-Has glob foc e in
      let short : ltb (length glob) (length foc) ≡ false = ground arith in
      (λ _. has, λ _. rw (short, e) refl)
  | inr e ↦
      (λ h. absurd (ground arith), λ has. absurd (ground (arith, Has-includes glob foc a b has)))
]

pub elements-Ascending :
    (tree : ℕ → ℕ) (n left i : ℕ)
    → ((j : ℕ) → j + 1 < n → tree j < tree (j + 1))
    → i + left ≤ n
    → Ascending (elements tree left i)
unfolding elements
elements-Ascending tree n zero i up h = tt
elements-Ascending tree n (suc zero) i up h = tt
elements-Ascending tree n (suc (suc left)) i up h =
    (up i (omega arith), elements-Ascending tree n (suc left) (i + 1) up (omega arith))
