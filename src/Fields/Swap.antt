-- ===== src/Fields/Swap.antt =====
-- Two elements of a list that change places, as in std::swap (fields/field_states.hpp).
use mathlib.Core.List.{Perm}
use mathlib.Core.List.Perm
use native.Mathlib.Decide.{ℕ_discrete}
use sphexa.Base.{
  ℕ, zero, suc, ◌<◌, ◌≡◌, ◌≢◌, ap, sym, ◌∙◌, arith, true, false, List, [], ◌∷◌, ◌==◌, if◌then◌else◌,
  length, length-set, set, get_or, get_or-set_self, get_or-set_ne,
}

module _ {ℓ} {A : Type ℓ} where
  pub get_or-set :
      (xs : List A) (i j : ℕ) (v d : A)
      → i < length xs
      → get_or (set xs i v) j d ≡ (if i == j then v else get_or xs j d)
  get_or-set xs i j v d h = elim (ℕ_discrete i j) [
    | yes e ↦
        let same : (i == j) ≡ true = ground arith in
        rw same (ap (λ k. get_or (set xs i v) k d) (sym e) ∙ get_or-set_self xs i v d h)
    | no ne ↦ let other : (i == j) ≡ false = ground arith in rw other (get_or-set_ne xs i j v d ne)
  ]

  set-perm :
      (xs : List A) (i : ℕ) (v d : A) → i < length xs → Perm (get_or xs i d ∷ set xs i v) (v ∷ xs)
  set-perm [] i v d h = absurd (omega arith)
  set-perm (x ∷ xs) zero v d h = Perm.swap v x xs
  set-perm (x ∷ xs) (suc i) v d h =
      Perm.trans (Perm.swap x (get_or xs i d) (set xs i v))
        (Perm.trans (Perm.cons x (set-perm xs i v d (omega arith))) (Perm.swap v x xs))

  -- Two elements that change places.
  pub swap-perm :
      (xs : List A) (i j : ℕ) (d : A)
      → i ≢ j
      → i < length xs
      → j < length xs
      → Perm xs (set (set xs i (get_or xs j d)) j (get_or xs i d))
  swap-perm xs i j d ne hi hj =
      let second =
        set-perm (set xs i (get_or xs j d)) j (get_or xs i d) d
          (omega (arith, length-set xs i (get_or xs j d))) in
      let read = get_or-set_ne xs i j (get_or xs j d) d ne in
      Perm.symm
        (Perm.cons_inv (Perm.trans (rw read at second) (set-perm xs i (get_or xs j d) d hi)))
