-- ===== src/Examples/Fields.antt =====
-- Three fields of one type: a conserved one, a dependent one, and one that takes over its memory.
use mathlib.Core.Logic.{◌⊎◌}
use Prim.Native.String.{String}
use sphexa.Base.{ℕ, ◌<◌, ◌≡◌, refl, arith, List, [], ◌∷◌}
use sphexa.Fields.{
  unused, conserved, dependent, released, Buffer, FieldStates, returns, throws, no_suitable_field,
  find_field, release, release_one, acquire, acquire_loop, acquire_one, suitable, take_over, each,
}
use sphexa.Fields.Keeps.{Keeps}
use sphexa.Fields.Acquire.{IsSuitable, Passed, acquire_one-outcome}
use sphexa.Fields.Guarantees.{none_yet, release_done, acquire_done, Calls-Keeps}

abbrev names : List String
names = "x" ∷ "rho" ∷ "p" ∷ []

abbrev vector : ℕ → Buffer
vector n = record { element_type = 8; contents = n }

abbrev at_start : FieldStates
at_start = record {
  field_states = conserved ∷ dependent ∷ unused ∷ [];
  data_ = vector 1 ∷ vector 2 ∷ vector 3 ∷ [];
}

abbrev rho_released : FieldStates
rho_released = record {
  field_states = conserved ∷ released ∷ unused ∷ [];
  data_ = vector 1 ∷ vector 2 ∷ vector 3 ∷ [];
}

abbrev p_acquired : FieldStates
p_acquired = record {
  field_states = conserved ∷ unused ∷ dependent ∷ [];
  data_ = vector 1 ∷ vector 3 ∷ vector 2 ∷ [];
}

release_rho : release names ("rho" ∷ []) at_start ≡ returns rho_released
unfolding release each release_one find_field
release_rho = refl

acquire_p : acquire names ("p" ∷ []) rho_released ≡ returns p_acquired
unfolding acquire each acquire_one find_field acquire_loop suitable take_over
acquire_p = refl

Calls-Keeps_example : Keeps at_start p_acquired
Calls-Keeps_example =
    Calls-Keeps names at_start p_acquired refl
      (acquire_done ("p" ∷ []) (release_done ("rho" ∷ []) none_yet release_rho) acquire_p)

acquire_one-outcome_example :
    ((k : ℕ) × (k < 3)
      × IsSuitable k 2 rho_released
      × ((j : ℕ) → j < k → ¬ IsSuitable j 2 rho_released)
      × (s' : FieldStates) × (acquire_one 2 rho_released ≡ returns s')
      × Passed k 2 rho_released s')
    ⊎ (((j : ℕ) → j < 3 → ¬ IsSuitable j 2 rho_released)
        × (acquire_one 2 rho_released ≡ throws (no_suitable_field 2) rho_released))
acquire_one-outcome_example = acquire_one-outcome 2 rho_released (omega arith) refl refl
