-- ===== src/Fields.antt =====
-- The states of the particle fields (domain/include/cstone/fields/field_states.hpp): which fields
-- are in use, and how memory is passed from one field to another.
pub mod Swap
pub mod Keeps
pub mod Acquire
pub mod Guarantees
use Prim.Native.String.{String}
use text.Mathlib.Text.{◌==◌ as str_eq}
use sphexa.Base.{
  ℕ, zero, suc, ◌+◌, Bool, true, false, not, ◌&&◌, List, [], ◌∷◌, ltb, ◌==◌, if◌then◌else◌, set,
  get_or, length, replicate,
}

pub data State : Type 0 where
  unused : State
  conserved : State
  dependent : State
  released : State

-- The operator `==` of the enumeration.
abbrev pub same_state : State → State → Bool
same_state unused unused = true
same_state conserved conserved = true
same_state dependent dependent = true
same_state released released = true
same_state s s' = false

-- The vector that a variant pointer to a field points to: the type of its elements, and which
-- vector it is.
pub record Buffer : Type 0 where
  pub element_type : ℕ
  pub contents : ℕ

abbrev no_buffer : Buffer
no_buffer = record { element_type = 0; contents = 0 }

-- `field_states` has one state for each of the field names of DataType, and `data` one vector.
pub record FieldStates : Type 0 where
  pub field_states : List State
  pub data_ : List Buffer

abbrev pub state_at : FieldStates → ℕ → State
state_at s idx = get_or s.field_states idx unused

abbrev pub buffer_at : FieldStates → ℕ → Buffer
buffer_at s idx = get_or s.data_ idx no_buffer

pub data Failure : Type 0 where
  not_released : ℕ → Failure
  already_in_use : ℕ → Failure
  no_suitable_field : ℕ → Failure
  unknown_field : Failure

-- A call returns, throws std::runtime_error, or accesses a vector out of its bounds. What was done
-- before an exception stays done.
pub data Outcome : Type 0 where
  returns : FieldStates → Outcome
  throws : Failure → FieldStates → Outcome
  out_of_bounds : Outcome

-- std::find(...) - begin: the number of names if there is no such name.
unfoldable pub find_field : List String → String → ℕ
find_field [] field = 0
find_field (name ∷ names) field = if str_eq name field then 0 else suc (find_field names field)

-- The constructor.
unfoldable pub new_field_states : List String → List Buffer → FieldStates
new_field_states names data_ = record {
  field_states = replicate (length names) unused;
  data_ = data_;
}

unfoldable pub is_allocated : FieldStates → ℕ → Bool
is_allocated s idx = ltb idx (length s.field_states) && not (same_state (state_at s idx) unused)

unfoldable pub is_conserved : FieldStates → ℕ → Bool
is_conserved s idx = ltb idx (length s.field_states) && same_state (state_at s idx) conserved

unfoldable pub is_allocated_name : List String → FieldStates → String → Bool
is_allocated_name names s field = is_allocated s (find_field names field)

-- setState of an index is used with valid indices only.
unfoldable pub set_state : State → ℕ → FieldStates → Outcome
set_state state idx s =
    if ltb idx (length s.field_states)
    then returns (record s { field_states = set s.field_states idx state })
    else out_of_bounds

unfoldable pub set_state_name : List String → State → String → FieldStates → Outcome
set_state_name names state field s =
    let idx = find_field names field in
    if idx == length s.field_states then throws unknown_field s else set_state state idx s

unfoldable pub release_one : ℕ → FieldStates → Outcome
release_one idx s =
    if not (ltb idx (length s.field_states))
    then out_of_bounds
    else if not (same_state (state_at s idx) dependent)
    then throws (not_released idx) s
    else returns (record s { field_states = set s.field_states idx released })

-- What the loop does with the first released field of the same type.
unfoldable pub take_over : ℕ → ℕ → FieldStates → FieldStates
take_over i field_idx s = record {
  field_states = set (set s.field_states i unused) field_idx dependent;
  data_ = set (set s.data_ i (buffer_at s field_idx)) field_idx (buffer_at s i);
}

unfoldable pub suitable : ℕ → ℕ → FieldStates → Bool
suitable i field_idx s =
    same_state (state_at s i) released
    && ((buffer_at s i).element_type == (buffer_at s field_idx).element_type)

-- The loop over the fields from `i` on.
unfoldable pub acquire_loop : ℕ → ℕ → ℕ → FieldStates → Outcome
acquire_loop field_idx zero i s = throws (no_suitable_field field_idx) s
acquire_loop field_idx (suc left) i s =
    let rest = acquire_loop field_idx left (i + 1) s in
    if suitable i field_idx s then returns (take_over i field_idx s) else rest

unfoldable pub acquire_one : ℕ → FieldStates → Outcome
acquire_one field_idx s =
    if not (ltb field_idx (length s.field_states))
    then out_of_bounds
    else if not (same_state (state_at s field_idx) unused)
    then throws (already_in_use field_idx) s
    else acquire_loop field_idx (length s.field_states) 0 s

-- The calls for a list of fields, in order, up to the first that does not return.
unfoldable pub each {ℓ} :
    {A : Type ℓ} → (A → FieldStates → Outcome) → List A → FieldStates → Outcome
each call [] s = returns s
each call (field ∷ fields) s = elim (call field s) [
  | returns s' ↦ each call fields s'
  | throws e s' ↦ throws e s'
  | out_of_bounds ↦ out_of_bounds
]

unfoldable pub set_conserved : List String → List String → FieldStates → Outcome
set_conserved names = each (set_state_name names conserved)

unfoldable pub set_dependent : List String → List String → FieldStates → Outcome
set_dependent names = each (set_state_name names dependent)

unfoldable pub release : List String → List String → FieldStates → Outcome
release names = each (λ field. release_one (find_field names field))

unfoldable pub acquire : List String → List String → FieldStates → Outcome
acquire names = each (λ field. acquire_one (find_field names field))
