-- ===== src/Memory/Packed.antt =====
-- Where packAllocBuffer places the arrays (util/pack_buffers.hpp).
use native.Mathlib.Nat.{mod-eq_of_lt, mod-lt, div-add-mod', zero-add}
use sphexa.Base.{
  ℕ, zero, suc, ◌+◌, ◌-◌, ◌*◌, ◌^◌, ◌≤◌, ◌<◌, ◌≡◌, refl, ap, ◌∙◌, arith, Bool-cases, inl, inr, List,
  [], ◌∷◌, length, get_or, ltb,
}
use sphexa.Key.{u64}
use sphexa.Primitives.Search.{at}
use sphexa.Memory.{compute_byte_offsets, reallocate_bytes, PackedSpan, spans, pack_alloc_buffer}
use sphexa.Memory.Round.{Aligned, total_bytes, offsets-next, offsets-last}

reallocate_bytes-le :
    (element_size size num_bytes : ℕ)
    → 0 < element_size
    → size * element_size < 2 ^ 64
    → num_bytes + element_size < 2 ^ 64
    → num_bytes ≤ reallocate_bytes element_size size num_bytes * element_size
unfolding reallocate_bytes
reallocate_bytes-le element_size size num_bytes pos old new =
    let now : u64 (size * element_size) ≡ size * element_size = mod-eq_of_lt old in
    elim (Bool-cases (ltb (size * element_size) num_bytes)) [
      | inr enough ↦ rw (now, enough) (ground arith)
      | inl grows ↦
          let inner : u64 (num_bytes + element_size + 2 ^ 64 - 1) ≡ num_bytes + element_size - 1 =
            omega arith in
          rw (now, grows, inner)
            (omega (
              arith,
              div-add-mod' (num_bytes + element_size - 1) element_size,
              mod-lt (num_bytes + element_size - 1) pos,
            ))
    ]

-- The array at an index; none is empty.
abbrev pub array_at : List PackedSpan → ℕ → PackedSpan
array_at arrays i = get_or arrays i (record { start = 0; count = 0 })

array_at-spans :
    (size_bytes : ℕ → ℕ) (num_elements : List ℕ) (from i : ℕ)
    → i < length num_elements
    → (array_at (spans size_bytes num_elements from) i).start ≡ size_bytes (from + i)
      × (array_at (spans size_bytes num_elements from) i).count ≡ at num_elements i
unfolding spans
array_at-spans size_bytes [] from i h = absurd (omega arith)
array_at-spans size_bytes (n ∷ ns) from zero h = (ap size_bytes (omega arith), refl)
array_at-spans size_bytes (n ∷ ns) from (suc i) h =
    let (e, f) = array_at-spans size_bytes ns (from + 1) i (omega arith) in
    (e ∙ ap size_bytes (omega arith), f)

module _ (vec_element_size size element_size alignment : ℕ) (num_elements : List ℕ)
    (pos : 0 < alignment) (vec_pos : 0 < vec_element_size) (old : size * vec_element_size < 2 ^ 64)
    (fits : total_bytes element_size alignment num_elements + vec_element_size < 2 ^ 64) where
  abbrev places : ℕ → ℕ
  places = at (compute_byte_offsets element_size alignment num_elements)

  places-next :
      (i : ℕ)
      → i < length num_elements
      → Aligned alignment (places i)
        × (places i + at num_elements i * element_size ≤ places (suc i))
  unfolding compute_byte_offsets
  places-next i h =
      offsets-next element_size alignment pos 0 num_elements i (0, omega arith) (omega arith) h

  places-le : (d i j : ℕ) → i + d ≡ j → j ≤ length num_elements → places i ≤ places j
  places-le zero i j e h = omega (arith, ap places {x = i} {y = j} (omega arith))
  places-le (suc d) i j e h =
      omega (arith, (places-next i (omega arith)).1, places-le d (suc i) j (omega arith) h)

  places-last : places (length num_elements) ≤ total_bytes element_size alignment num_elements
  unfolding compute_byte_offsets
  places-last = omega (arith, offsets-last element_size alignment pos 0 num_elements (omega arith))

  -- Each array that pack_alloc_buffer returns has the requested number of elements, starts at a
  -- multiple of the alignment, ends within the vector as it is then, and ends before each later
  -- array starts. The alignment and the elements of the vector have at least one byte, the
  -- vector has less than 2 ^ 64 bytes before, and so have all arrays with one alignment each and
  -- one element of the vector.
  pub pack_alloc_buffer-array :
      let buffer = pack_alloc_buffer vec_element_size size element_size alignment num_elements in
      (i : ℕ)
      → i < length num_elements
      → let array = array_at buffer.arrays i in
        (array.count ≡ at num_elements i)
        × Aligned alignment array.start
        × (array.start + array.count * element_size ≤ buffer.size * vec_element_size)
        × ((j : ℕ)
            → i < j
            → j < length num_elements
            → array.start + array.count * element_size ≤ (array_at buffer.arrays j).start)
  unfolding pack_alloc_buffer
  pack_alloc_buffer-array i h =
      let (start, count) = array_at-spans places num_elements 0 i h in
      let (al, next) = places-next i h in
      let n = length num_elements in
      let room =
        reallocate_bytes-le vec_element_size size (places n) vec_pos old
          (omega (arith, places-last)) in
      rw (start, count, zero-add i)
        (
          refl,
          al,
          omega (arith, places-le (n - suc i) (suc i) n (omega arith) (omega arith)),
          λ j after g.
              let (start', count') = array_at-spans places num_elements 0 j g in
              rw (start', zero-add j)
                (omega (arith, places-le (j - suc i) (suc i) j (omega arith) (omega arith))),
        )
