-- ===== src/Examples/Memory.antt =====
-- Two arrays of 8-byte elements in a vector of 4-byte elements.
use sphexa.Base.{ℕ, ◌+◌, ◌*◌, ◌≤◌, ◌<◌, ◌≡◌, refl, arith, List, [], ◌∷◌, length}
use sphexa.Memory.{round_up, byte_sizes, scan_bytes, compute_byte_offsets, pack_alloc_buffer}
use sphexa.Memory.Round.{Aligned, total_bytes}
use sphexa.Memory.Packed.{array_at, pack_alloc_buffer-array}

abbrev two_arrays : List ℕ
two_arrays = 3 ∷ 10 ∷ []

pack_alloc_buffer-array_example :
    let buffer = pack_alloc_buffer 4 0 8 64 two_arrays in
    let array = array_at buffer.arrays 0 in
    (array.count ≡ 3)
    × Aligned 64 array.start
    × (array.start + array.count * 8 ≤ buffer.size * 4)
    × ((j : ℕ)
        → 0 < j
        → j < length two_arrays
        → array.start + array.count * 8 ≤ (array_at buffer.arrays j).start)
unfolding total_bytes
pack_alloc_buffer-array_example =
    pack_alloc_buffer-array 4 0 8 64 two_arrays (omega arith) (omega arith) (omega arith)
      (omega arith) 0 (omega arith)

two_offsets : compute_byte_offsets 8 64 two_arrays ≡ 0 ∷ 64 ∷ 192 ∷ []
unfolding compute_byte_offsets scan_bytes byte_sizes round_up
two_offsets = refl
