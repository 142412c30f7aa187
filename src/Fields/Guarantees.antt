-- ===== src/Fields/Guarantees.antt =====
-- What the class comment of field_states.hpp promises: acquire and release leave conserved fields
-- alone, and only pass memory on.
use Prim.Native.String.{String}
use sphexa.Base.{◌≡◌, sym, ◌∙◌, List, [], ◌∷◌, length, subst}
use sphexa.Fields.{
  FieldStates, Failure, Outcome, returns, throws, out_of_bounds, find_field, each, release, acquire,
}
use sphexa.Fields.Keeps.{Keeps, Keeps-refl, Keeps-trans, Leaves, release_one-Leaves}
use sphexa.Fields.Acquire.{acquire_one-Leaves}

-- There is one vector for each field.
abbrev pub IsSized : FieldStates → Type 0
IsSized s = length s.data_ ≡ length s.field_states

Keeps-IsSized : (s s' : FieldStates) → Keeps s s' → IsSized s → IsSized s'
Keeps-IsSized s s' k h = k.buffers_sized ∙ h ∙ sym k.sized

Leaves-trans : (a b : FieldStates) (o : Outcome) → Keeps a b → Leaves b o → Leaves a o
Leaves-trans a b (returns c) p q = Keeps-trans a b c p q
Leaves-trans a b (throws e c) p q = Keeps-trans a b c p q
Leaves-trans a b out_of_bounds p q = tt

each-Leaves {ℓ} :
    {A : Type ℓ} (call : A → FieldStates → Outcome)
    → ((x : A) (s : FieldStates) → IsSized s → Leaves s (call x s))
    → (xs : List A) (s : FieldStates) → IsSized s
    → Leaves s (each call xs s)
unfolding each
each-Leaves call keeps [] s h = Keeps-refl s
each-Leaves call keeps (x ∷ xs) s h =
    then_rest (call x s) (keeps x s h)
      (λ s' k. each-Leaves call keeps xs s' (Keeps-IsSized s s' k h))
  where
    then_rest :
        (o : Outcome)
        → Leaves s o
        → ((s' : FieldStates) → Keeps s s' → Leaves s' (each call xs s'))
        → Leaves s (elim o [
          | returns s' ↦ each call xs s'
          | throws e s' ↦ throws e s'
          | out_of_bounds ↦ out_of_bounds
        ])
    then_rest (returns s') k rest = Leaves-trans s s' _ k (rest s' k)
    then_rest (throws e s') k rest = k
    then_rest out_of_bounds k rest = tt

-- The calls of a program between two points, with exceptions that it may catch.
pub data Calls (names : List String) (s : FieldStates) : FieldStates → Type 0 where
  none_yet : Calls names s s
  release_done :
      {t u : FieldStates} (fields : List String)
      → Calls names s t
      → release names fields t ≡ returns u
      → Calls names s u
  release_failed :
      {t u : FieldStates} (fields : List String) (e : Failure)
      → Calls names s t
      → release names fields t ≡ throws e u
      → Calls names s u
  acquire_done :
      {t u : FieldStates} (fields : List String)
      → Calls names s t
      → acquire names fields t ≡ returns u
      → Calls names s u
  acquire_failed :
      {t u : FieldStates} (fields : List String) (e : Failure)
      → Calls names s t
      → acquire names fields t ≡ throws e u
      → Calls names s u

release-Leaves :
    (names fields : List String) (s : FieldStates) → IsSized s → Leaves s (release names fields s)
unfolding release
release-Leaves names fields s h =
    each-Leaves _ (λ x s' _. release_one-Leaves (find_field names x) s') fields s h

acquire-Leaves :
    (names fields : List String) (s : FieldStates) → IsSized s → Leaves s (acquire names fields s)
unfolding acquire
acquire-Leaves names fields s h =
    each-Leaves _ (λ x s' h'. acquire_one-Leaves (find_field names x) s' h') fields s h

-- All calls of release and acquire together, those that throw included, keep which fields are
-- conserved and keep the vectors of those, keep the type of the vector of each field, and
-- reorder the vectors without loss or duplication. There is one vector for each field, and no
-- call is out of bounds.
pub Calls-Keeps :
    (names : List String) (s t : FieldStates) → IsSized s → Calls names s t → Keeps s t
Calls-Keeps names s _ h Calls.none_yet = Keeps-refl s
Calls-Keeps names s _ h (Calls.release_done {t} {u} fields c e) =
    let k = Calls-Keeps names s t h c in
    Keeps-trans s t u k (subst (Leaves t) e (release-Leaves names fields t (Keeps-IsSized s t k h)))
Calls-Keeps names s _ h (Calls.release_failed {t} {u} fields _ c e) =
    let k = Calls-Keeps names s t h c in
    Keeps-trans s t u k (subst (Leaves t) e (release-Leaves names fields t (Keeps-IsSized s t k h)))
Calls-Keeps names s _ h (Calls.acquire_done {t} {u} fields c e) =
    let k = Calls-Keeps names s t h c in
    Keeps-trans s t u k (subst (Leaves t) e (acquire-Leaves names fields t (Keeps-IsSized s t k h)))
Calls-Keeps names s _ h (Calls.acquire_failed {t} {u} fields _ c e) =
    let k = Calls-Keeps names s t h c in
    Keeps-trans s t u k (subst (Leaves t) e (acquire-Leaves names fields t (Keeps-IsSized s t k h)))
