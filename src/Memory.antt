-- ===== src/Memory.antt =====
-- Several arrays in one buffer (domain/include/cstone/util/pack_buffers.hpp, with
-- util/reallocate.hpp and primitives/math.hpp). A pointer is a number of bytes from the start of the
-- buffer, and a vector its number of elements.
pub mod Round
pub mod Packed
use sphexa.Base.{ℕ, zero, suc, ◌+◌, ◌-◌, ◌*◌, ◌/◌, ◌^◌, List, [], ◌∷◌, ltb, length, if◌then◌else◌}
use sphexa.Key.{u64}
use sphexa.Primitives.Search.{at}

unfoldable pub round_up : ℕ → ℕ → ℕ
round_up n m = u64 (u64 (n + m + 2 ^ 64 - 1) / m * m)

-- The bytes of each array; there is one element more.
unfoldable pub byte_sizes : ℕ → ℕ → List ℕ → List ℕ
byte_sizes element_size alignment [] = 0 ∷ []
byte_sizes element_size alignment (n ∷ num_elements) =
    round_up (u64 (n * element_size)) alignment ∷ byte_sizes element_size alignment num_elements

-- std::exclusive_scan from `acc` on, in 64 bits.
unfoldable pub scan_bytes : ℕ → List ℕ → List ℕ
scan_bytes acc [] = []
scan_bytes acc (x ∷ xs) = acc ∷ scan_bytes (u64 (acc + x)) xs

unfoldable pub compute_byte_offsets : ℕ → ℕ → List ℕ → List ℕ
compute_byte_offsets element_size alignment num_elements =
    scan_bytes 0 (byte_sizes element_size alignment num_elements)

-- The new number of elements of a vector.
unfoldable pub reallocate_bytes : ℕ → ℕ → ℕ → ℕ
reallocate_bytes element_size size num_bytes =
    if ltb (u64 (size * element_size)) num_bytes
    then u64 (num_bytes + element_size + 2 ^ 64 - 1) / element_size
    else size

pub record PackedSpan : Type 0 where
  pub start : ℕ
  pub count : ℕ

-- A vector with the arrays in it.
pub record PackedBuffer : Type 0 where
  pub size : ℕ
  pub arrays : List PackedSpan

-- The arrays from `i` on.
unfoldable pub spans : (ℕ → ℕ) → List ℕ → ℕ → List PackedSpan
spans size_bytes [] i = []
spans size_bytes (n ∷ num_elements) i =
    record { start = size_bytes i; count = n } ∷ spans size_bytes num_elements (i + 1)

-- Arrays of elements of `element_size` bytes in a vector of `size` elements of `vec_element_size`.
unfoldable pub pack_alloc_buffer : ℕ → ℕ → ℕ → ℕ → List ℕ → PackedBuffer
pack_alloc_buffer vec_element_size size element_size alignment num_elements =
    let size_bytes = compute_byte_offsets element_size alignment num_elements in
    let n = length num_elements in
    record {
      size = reallocate_bytes vec_element_size size (at size_bytes n);
      arrays = spans (at size_bytes) num_elements 0;
    }
