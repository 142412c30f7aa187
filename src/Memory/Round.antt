-- ===== src/Memory/Round.antt =====
-- roundUp, and the offsets of arrays of rounded sizes (util/pack_buffers.hpp).
use native.Mathlib.Nat.{mod-eq_of_lt, mod-lt, div-add-mod', add-mul}
use sphexa.Base.{
  ℕ, zero, suc, ◌+◌, ◌-◌, ◌*◌, ◌/◌, ◌^◌, ◌≤◌, ◌<◌, ◌≡◌, refl, arith, List, [], ◌∷◌, length,
}
use sphexa.Key.{u64}
use sphexa.Primitives.Search.{at}
use sphexa.Memory.{round_up, byte_sizes, scan_bytes}

-- A multiple.
abbrev pub Aligned : ℕ → ℕ → Type 0
Aligned m a = (k : ℕ) × (a ≡ k * m)

round_up-le :
    (n m : ℕ)
    → 0 < m
    → n + m < 2 ^ 64
    → (n ≤ round_up n m) × (round_up n m < n + m) × Aligned m (round_up n m)
unfolding round_up
round_up-le n m pos fits =
    let inner : u64 (n + m + 2 ^ 64 - 1) ≡ n + m - 1 = omega arith in
    let q = (n + m - 1) / m in
    let whole = div-add-mod' (n + m - 1) m in
    let part = mod-lt (n + m - 1) pos in
    let outer : u64 (q * m) ≡ q * m = mod-eq_of_lt (omega arith) in
    rw (inner, outer) (omega arith, omega arith, (q, refl))

-- The bytes that are enough for all arrays.
unfoldable pub total_bytes : ℕ → ℕ → List ℕ → ℕ
total_bytes element_size alignment [] = 0
total_bytes element_size alignment (n ∷ num_elements) =
    n * element_size + alignment + total_bytes element_size alignment num_elements

module _ (element_size alignment : ℕ) (pos : 0 < alignment) where
  abbrev offsets : ℕ → List ℕ → List ℕ
  offsets acc num_elements = scan_bytes acc (byte_sizes element_size alignment num_elements)

  abbrev total : List ℕ → ℕ
  total = total_bytes element_size alignment

  offsets-first : (acc : ℕ) (num_elements : List ℕ) → at (offsets acc num_elements) 0 ≡ acc
  unfolding scan_bytes byte_sizes
  offsets-first acc [] = refl
  offsets-first acc (n ∷ num_elements) = refl

  -- Where the next array begins.
  abbrev bytes_up : ℕ → ℕ → ℕ
  bytes_up acc n = u64 (acc + round_up (u64 (n * element_size)) alignment)

  next_offset :
      (acc n : ℕ)
      → acc + n * element_size + alignment < 2 ^ 64
      → let r = round_up (u64 (n * element_size)) alignment in
        (bytes_up acc n ≡ acc + r)
        × (n * element_size ≤ r)
        × (r < n * element_size + alignment)
        × Aligned alignment r
  next_offset acc n fits =
      let bytes : u64 (n * element_size) ≡ n * element_size = mod-eq_of_lt (omega arith) in
      let (enough, little, whole) = round_up-le (n * element_size) alignment pos (omega arith) in
      rw bytes (mod-eq_of_lt (omega arith), enough, little, whole)

  Aligned-add : {a b : ℕ} → Aligned alignment a → Aligned alignment b → Aligned alignment (a + b)
  Aligned-add (k, e) (l, f) = (k + l, omega (arith, add-mul k l alignment))

  -- Each array is aligned and fits before the next.
  pub offsets-next :
      (acc : ℕ) (num_elements : List ℕ) (i : ℕ)
      → Aligned alignment acc
      → acc + total num_elements < 2 ^ 64
      → i < length num_elements
      → Aligned alignment (at (offsets acc num_elements) i)
        × (at (offsets acc num_elements) i + at num_elements i * element_size
            ≤ at (offsets acc num_elements) (suc i))
  unfolding scan_bytes byte_sizes total_bytes
  offsets-next acc [] i al fits h = absurd (omega arith)
  offsets-next acc (n ∷ ns) zero al fits h =
      let (sum, enough, little, whole) = next_offset acc n (omega arith) in
      (al, omega (arith, offsets-first (bytes_up acc n) ns))
  offsets-next acc (n ∷ ns) (suc i) al fits h =
      let (sum, enough, little, whole) = next_offset acc n (omega arith) in
      offsets-next (bytes_up acc n) ns i (rw sum (Aligned-add al whole)) (omega arith) (omega arith)

  -- The end of the last array.
  pub offsets-last :
      (acc : ℕ) (num_elements : List ℕ)
      → acc + total num_elements < 2 ^ 64
      → at (offsets acc num_elements) (length num_elements) ≤ acc + total num_elements
  unfolding scan_bytes byte_sizes total_bytes
  offsets-last acc [] fits = omega arith
  offsets-last acc (n ∷ ns) fits =
      let (sum, enough, little, whole) = next_offset acc n (omega arith) in
      omega (arith, offsets-last (bytes_up acc n) ns (omega arith))
