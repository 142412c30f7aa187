-- ===== src/Fields/Acquire.antt =====
-- acquireOne: which field gives its memory (fields/field_states.hpp).
use native.Mathlib.Decide.{ℕ_discrete}
use mathlib.Core.Bool.{false≢true}
use sphexa.Base.{
  ℕ, zero, suc, ◌==◌, if◌then◌else◌, ◌+◌, ◌≤◌, ◌<◌, ◌≡◌, ◌⊎◌, inl, inr, refl, ap, sym, ◌∙◌, arith,
  true, false, Bool-cases, length, ltb, ltb→lt, lt→ltb, &&_true, ==_iff,
}
use sphexa.Fields.{
  unused, dependent, released, same_state, FieldStates, state_at, buffer_at, no_suitable_field,
  returns, throws, take_over, suitable, acquire_loop, acquire_one,
}
use sphexa.Fields.Keeps.{
  Keeps-refl, Leaves, same_state→≡, Keeps-take_over, take_over-state, take_over-buffer,
}

-- What the loop of acquireOne finds: the first suitable field from `i` on, or none.
abbrev Found : ℕ → ℕ → ℕ → FieldStates → Type 0
Found idx left i s =
    (k : ℕ) × (i ≤ k)
    × (k < i + left)
    × (suitable k idx s ≡ true)
    × ((j : ℕ) → i ≤ j → j < k → suitable j idx s ≡ false)
    × (acquire_loop idx left i s ≡ returns (take_over k idx s))

abbrev NotFound : ℕ → ℕ → ℕ → FieldStates → Type 0
NotFound idx left i s =
    ((j : ℕ) → i ≤ j → j < i + left → suitable j idx s ≡ false)
    × (acquire_loop idx left i s ≡ throws (no_suitable_field idx) s)

acquire_loop_cases : (idx left i : ℕ) (s : FieldStates) → Found idx left i s ⊎ NotFound idx left i s
unfolding acquire_loop
acquire_loop_cases idx zero i s = inr (λ j a b. absurd (omega arith), refl)
acquire_loop_cases idx (suc left) i s = elim (Bool-cases (suitable i idx s)) [
  | inl fits ↦ inl (i, omega arith, omega arith, fits, λ j a b. absurd (omega arith), rw fits refl)
  | inr not_here ↦ elim (acquire_loop_cases idx left (i + 1) s) [
    | inl (k, a, b, fits, before, e) ↦ inl (
      k,
      omega arith,
      omega arith,
      fits,
      λ j c d. elim (ℕ_discrete i j) [
        | yes here ↦ ap (λ x. suitable x idx s) (sym here) ∙ not_here
        | no ne ↦ before j (omega arith) (omega arith)
      ],
      rw not_here e,
    )
    | inr (unfit, e) ↦ inr (
      λ j c d. elim (ℕ_discrete i j) [
        | yes here ↦ ap (λ x. suitable x idx s) (sym here) ∙ not_here
        | no ne ↦ unfit j (omega arith) (omega arith)
      ],
      rw not_here e,
    )
  ]
]

-- The two outcomes for an unused field.
acquire_one_cases :
    (idx : ℕ) (s : FieldStates)
    → idx < length s.field_states
    → state_at s idx ≡ unused
    → ((k : ℕ) × (k < length s.field_states)
        × (suitable k idx s ≡ true)
        × ((j : ℕ) → j < k → suitable j idx s ≡ false)
        × (acquire_one idx s ≡ returns (take_over k idx s)))
      ⊎ (((j : ℕ) → j < length s.field_states → suitable j idx s ≡ false)
          × (acquire_one idx s ≡ throws (no_suitable_field idx) s))
unfolding acquire_one
acquire_one_cases idx s h free =
    let inside : ltb idx (length s.field_states) ≡ true = lt→ltb _ _ h in
    let right : same_state (state_at s idx) unused ≡ true = ap (λ x. same_state x unused) free in
    elim (acquire_loop_cases idx (length s.field_states) 0 s) [
      | inl (k, a, b, fits, before, e) ↦
          inl (k, omega arith, fits, λ j c. before j (omega arith) c, rw (inside, right) e)
      | inr (unfit, e) ↦ inr (λ j c. unfit j (omega arith) (omega arith), rw (inside, right) e)
    ]

suitable-parts :
    (k idx : ℕ) (s : FieldStates)
    → suitable k idx s ≡ true
    → (state_at s k ≡ released) × ((buffer_at s k).element_type ≡ (buffer_at s idx).element_type)
unfolding suitable
suitable-parts k idx s h = let (a, b) = &&_true _ _ h in (same_state→≡ _ _ a, (==_iff _ _).0 b)

pub acquire_one-Leaves :
    (idx : ℕ) (s : FieldStates)
    → length s.data_ ≡ length s.field_states
    → Leaves s (acquire_one idx s)
acquire_one-Leaves idx s sized = elim (Bool-cases (ltb idx (length s.field_states))) [
  | inr beyond ↦ unfold acquire_one in rw beyond tt
  | inl inside ↦ elim (Bool-cases (same_state (state_at s idx) unused)) [
    | inr wrong ↦ unfold acquire_one in rw (inside, wrong) (Keeps-refl s)
    | inl right ↦
        let free = same_state→≡ _ _ right in
        let h = ltb→lt _ _ inside in
        elim (acquire_one_cases idx s h free) [
          | inl (k, b, fits, _, e) ↦
              let (given, typed) = suitable-parts k idx s fits in
              rw e (Keeps-take_over k idx s b h sized given free typed)
          | inr (_, e) ↦ rw e (Keeps-refl s)
        ]
  ]
]

-- A released field whose vector has the type of that of `idx`.
abbrev pub IsSuitable : ℕ → ℕ → FieldStates → Type 0
IsSuitable k idx s =
    (state_at s k ≡ released) × ((buffer_at s k).element_type ≡ (buffer_at s idx).element_type)

IsSuitable-suitable : (k idx : ℕ) (s : FieldStates) → IsSuitable k idx s → suitable k idx s ≡ true
unfolding suitable
IsSuitable-suitable k idx s (a, b) =
    let free : same_state (state_at s k) released ≡ true = ap (λ x. same_state x released) a in
    rw free ((==_iff _ _).1 b)

-- The memory of the field `k` goes to the field `idx`.
pub record Passed (k idx : ℕ) (s s' : FieldStates) : Type 0 where
  pub states :
      (j : ℕ)
      → state_at s' j ≡ (if idx == j then dependent else if k == j then unused else state_at s j)
  pub buffers :
      (j : ℕ)
      → buffer_at s' j
        ≡ (if idx == j then buffer_at s k else if k == j then buffer_at s idx else buffer_at s j)

-- For an unused field, acquire_one finds the first released field with a vector of the same
-- type: that field becomes unused, the given one dependent, the two swap their vectors, and all
-- other states and vectors stay. If there is no such field, it throws and leaves all states and
-- vectors as they were. There is one vector for each field.
pub acquire_one-outcome :
    (idx : ℕ) (s : FieldStates)
    → idx < length s.field_states
    → length s.data_ ≡ length s.field_states
    → state_at s idx ≡ unused
    → ((k : ℕ) × (k < length s.field_states)
        × IsSuitable k idx s
        × ((j : ℕ) → j < k → ¬ IsSuitable j idx s)
        × (s' : FieldStates) × (acquire_one idx s ≡ returns s')
        × Passed k idx s s')
      ⊎ (((j : ℕ) → j < length s.field_states → ¬ IsSuitable j idx s)
          × (acquire_one idx s ≡ throws (no_suitable_field idx) s))
acquire_one-outcome idx s h sized free = elim (acquire_one_cases idx s h free) [
  | inl (k, b, fits, before, e) ↦
      let (given, typed) = suitable-parts k idx s fits in
      inl (
        k,
        b,
        (given, typed),
        λ j c fit. false≢true (sym (before j c) ∙ IsSuitable-suitable j idx s fit),
        take_over k idx s,
        e,
        record {
          states = take_over-state k idx s b h sized given free typed;
          buffers = take_over-buffer k idx s b h sized given free typed;
        },
      )
  | inr (unfit, e) ↦
      inr (λ j c fit. false≢true (sym (unfit j c) ∙ IsSuitable-suitable j idx s fit), e)
]
