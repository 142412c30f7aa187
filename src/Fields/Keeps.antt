-- ===== src/Fields/Keeps.antt =====
-- What acquire and release of field_states.hpp leave alone, for one field.
use mathlib.Core.List.{Perm}
use mathlib.Core.List.Perm
use native.Mathlib.Decide.{ℕ_discrete}
use sphexa.Base.{
  ℕ, ◌<◌, ◌≡◌, ◌≢◌, ◌↔◌, inl, inr, refl, ap, sym, ◌∙◌, arith, true, false, Bool-cases, ◌==◌,
  if◌then◌else◌, length, length-set, set, get_or-set_self, get_or-set_ne, ltb, ltb→lt,
}
use sphexa.Fields.{
  State, unused, conserved, dependent, released, same_state, Buffer, FieldStates, state_at,
  buffer_at, Outcome, returns, throws, out_of_bounds, release_one, take_over,
}
use sphexa.Fields.Swap.{get_or-set, swap-perm}

-- What holds between the states before and after calls of acquire and release.
pub record Keeps (s s' : FieldStates) : Type 0 where
  pub sized : length s'.field_states ≡ length s.field_states
  pub buffers_sized : length s'.data_ ≡ length s.data_
  pub conserves : (j : ℕ) → (state_at s' j ≡ conserved) ↔ (state_at s j ≡ conserved)
  pub untouched : (j : ℕ) → state_at s j ≡ conserved → buffer_at s' j ≡ buffer_at s j
  pub typed : (j : ℕ) → (buffer_at s' j).element_type ≡ (buffer_at s j).element_type
  pub memory : Perm s.data_ s'.data_

pub Keeps-refl : (s : FieldStates) → Keeps s s
Keeps-refl s = record {
  sized = refl;
  buffers_sized = refl;
  conserves = λ j. (λ h. h, λ h. h);
  untouched = λ j h. refl;
  typed = λ j. refl;
  memory = Perm.refl s.data_;
}

pub Keeps-trans : (a b c : FieldStates) → Keeps a b → Keeps b c → Keeps a c
Keeps-trans a b c p q = record {
  sized = q.sized ∙ p.sized;
  buffers_sized = q.buffers_sized ∙ p.buffers_sized;
  conserves = λ j.
      (λ h. (p.conserves j).0 ((q.conserves j).0 h), λ h. (q.conserves j).1 ((p.conserves j).1 h));
  untouched = λ j h. q.untouched j ((p.conserves j).1 h) ∙ p.untouched j h;
  typed = λ j. q.typed j ∙ p.typed j;
  memory = Perm.trans p.memory q.memory;
}

-- The state that a call leaves, if it does not access a vector out of bounds.
abbrev pub Leaves : FieldStates → Outcome → Type 0
Leaves s (returns s') = Keeps s s'
Leaves s (throws e s') = Keeps s s'
Leaves s out_of_bounds = Unit {0}

pub same_state→≡ : (a b : State) → same_state a b ≡ true → a ≡ b
same_state→≡ unused unused h = refl
same_state→≡ conserved conserved h = refl
same_state→≡ dependent dependent h = refl
same_state→≡ released released h = refl
same_state→≡ _ _ h = cc

different : (i j : ℕ) → i ≢ j → (i == j) ≡ false
different i j h = ground arith

Keeps-released :
    (idx : ℕ) (s : FieldStates)
    → idx < length s.field_states
    → state_at s idx ≡ dependent
    → Keeps s (record s { field_states = set s.field_states idx released })
Keeps-released idx s h e = record {
  sized = length-set s.field_states idx released;
  buffers_sized = refl;
  conserves = λ j. elim (ℕ_discrete idx j) [
    | yes here ↦
        let now =
          ap (state_at (record s { field_states = set s.field_states idx released })) (sym here)
          ∙ get_or-set_self s.field_states idx released unused h in
        let before = ap (state_at s) (sym here) ∙ e in (λ c. cc, λ c. cc)
    | no ne ↦ let same = get_or-set_ne s.field_states idx j released unused ne in (λ c. cc, λ c. cc)
  ];
  untouched = λ j c. refl;
  typed = λ j. refl;
  memory = Perm.refl s.data_;
}

pub release_one-Leaves : (idx : ℕ) (s : FieldStates) → Leaves s (release_one idx s)
unfolding release_one
release_one-Leaves idx s = elim (Bool-cases (ltb idx (length s.field_states))) [
  | inr beyond ↦ rw beyond tt
  | inl inside ↦ elim (Bool-cases (same_state (state_at s idx) dependent)) [
    | inr wrong ↦ rw (inside, wrong) (Keeps-refl s)
    | inl right ↦
        rw (inside, right) (Keeps-released idx s (ltb→lt _ _ inside) (same_state→≡ _ _ right))
  ]
]

-- The field `idx`, which is unused, takes the memory of the field `i`, which is released.
module _ (i idx : ℕ) (s : FieldStates) (in_range : i < length s.field_states)
    (inside : idx < length s.field_states) (sized : length s.data_ ≡ length s.field_states)
    (free : state_at s i ≡ released) (wanted : state_at s idx ≡ unused)
    (typed : (buffer_at s i).element_type ≡ (buffer_at s idx).element_type) where
  abbrev after : FieldStates
  after = take_over i idx s

  apart : i ≢ idx
  apart e = let same = ap (state_at s) e in cc

  pub take_over-state :
      (j : ℕ)
      → state_at after j ≡ (if idx == j then dependent else if i == j then unused else state_at s j)
  unfolding take_over
  take_over-state j =
      get_or-set (set s.field_states i unused) idx j dependent unused
        (omega (arith, length-set s.field_states i unused))
      ∙ ap (λ x. if idx == j then dependent else x)
          (get_or-set s.field_states i j unused unused in_range)

  pub take_over-buffer :
      (j : ℕ)
      → buffer_at after j
        ≡ (if idx == j then buffer_at s i else if i == j then buffer_at s idx else buffer_at s j)
  unfolding take_over
  take_over-buffer j =
      get_or-set (set s.data_ i (buffer_at s idx)) idx j (buffer_at s i) _
        (omega (arith, length-set s.data_ i (buffer_at s idx)))
      ∙ ap (λ x. if idx == j then buffer_at s i else x)
          (get_or-set s.data_ i j (buffer_at s idx) _ (omega arith))

  pub Keeps-take_over : Keeps s after
  unfolding take_over
  Keeps-take_over = record {
    sized =
        length-set (set s.field_states i unused) idx dependent ∙ length-set s.field_states i unused;
    buffers_sized =
        length-set (set s.data_ i (buffer_at s idx)) idx (buffer_at s i)
        ∙ length-set s.data_ i (buffer_at s idx);
    conserves = λ j. elim (ℕ_discrete idx j) [
      | yes here ↦
          let before = ap (state_at s) (sym here) ∙ wanted in
          let now : state_at after j ≡ dependent = ground (arith, take_over-state j) in
          (λ c. cc, λ c. cc)
      | no ne ↦ elim (ℕ_discrete i j) [
        | yes here ↦
            let before = ap (state_at s) (sym here) ∙ free in
            let now : state_at after j ≡ unused = ground (arith, take_over-state j) in
            (λ c. cc, λ c. cc)
        | no ne' ↦
            let now : state_at after j ≡ state_at s j = ground (arith, take_over-state j) in
            (λ c. cc, λ c. cc)
      ]
    ];
    untouched = λ j c.
        let other : (idx == j) ≡ false = different idx j (λ e. let x = ap (state_at s) e in cc) in
        let other' : (i == j) ≡ false = different i j (λ e. let x = ap (state_at s) e in cc) in
        take_over-buffer j ∙ rw (other, other') refl;
    typed = λ j. elim (ℕ_discrete idx j) [
      | yes here ↦
          let hit : (idx == j) ≡ true = ground arith in
          let now : buffer_at after j ≡ buffer_at s i = take_over-buffer j ∙ rw hit refl in
          ap (λ (b : Buffer). b.element_type) now
          ∙ typed
          ∙ ap (λ k. (buffer_at s k).element_type) here
      | no ne ↦ elim (ℕ_discrete i j) [
        | yes here ↦
            let miss = different idx j ne in
            let hit : (i == j) ≡ true = ground arith in
            let now : buffer_at after j ≡ buffer_at s idx =
              take_over-buffer j ∙ rw (miss, hit) refl in
            ap (λ (b : Buffer). b.element_type) now
            ∙ sym typed
            ∙ ap (λ k. (buffer_at s k).element_type) here
        | no ne' ↦
            let miss = different idx j ne in
            let miss' = different i j ne' in
            let now : buffer_at after j ≡ buffer_at s j =
              take_over-buffer j ∙ rw (miss, miss') refl in
            ap (λ (b : Buffer). b.element_type) now
      ]
    ];
    memory = swap-perm s.data_ i idx _ apart (omega arith) (omega arith);
  }
