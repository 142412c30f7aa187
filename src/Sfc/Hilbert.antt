-- ===== src/Sfc/Hilbert.antt =====
-- The Hilbert curve (domain/include/cstone/sfc/hilbert.hpp), on the CPU. The coordinates are
-- `unsigned`; the code asserts that they have as many bits as a key has levels.
pub mod Range
pub mod Octant
pub mod RoundTrip
pub mod Prepend
pub mod Plane
use sphexa.Base.{
  ℕ, zero, suc, ◌+◌, ◌-◌, ◌*◌, ◌/◌, ◌%◌, ◌^◌, Bool, ◌&&◌, ◌||◌, not, bit_and, bit_or, bit_xor, List,
  [], ◌∷◌, get_or, ◌==◌, if◌then◌else◌,
}
use sphexa.Key.{KeyType, max_tree_level, max_coord, wrap, wrap_sub, u32, sub32}
use sphexa.Sfc.Node.{tree_level}

abbrev pub Point : Type 0
Point = ℕ × ℕ × ℕ

-- The operator `!` on a bit, and the unary minus of `unsigned`.
abbrev pub not_bit : ℕ → ℕ
not_bit x = if x == 0 then 1 else 0

abbrev pub neg32 : ℕ → ℕ
neg32 x = sub32 0 x

abbrev pub bit_at : ℕ → ℕ → ℕ
bit_at x level = bit_and (x / 2 ^ level) 1

abbrev pub morton_to_hilbert : List ℕ
morton_to_hilbert = 0 ∷ 1 ∷ 3 ∷ 2 ∷ 7 ∷ 6 ∷ 4 ∷ 5 ∷ []

-- px, py and pz are turned, and then rotated or two of them swapped.
unfoldable pub turn : ℕ → ℕ → ℕ → Point → Point
turn xi yi zi (px, py, pz) =
    let qx = bit_xor px (neg32 (bit_and xi (bit_or (not_bit yi) zi))) in
    let qy = bit_xor py (neg32 (bit_or (bit_and xi (bit_or yi zi)) (bit_and yi (not_bit zi)))) in
    let qz =
      bit_xor pz (
        neg32
          (bit_or (bit_and (bit_and xi (not_bit yi)) (not_bit zi)) (bit_and yi (not_bit zi)))) in
    if not (zi == 0) then (qy, qz, qx) else if yi == 0 then (qz, qy, qx) else (qx, qy, qz)

-- The levels below `levels`, from the highest down.
unfoldable pub hilbert_loop : KeyType → ℕ → Point → ℕ → ℕ
hilbert_loop t zero p key = key
hilbert_loop t (suc level) (px, py, pz) key =
    let xi = bit_at px level in
    let yi = bit_at py level in
    let zi = bit_at pz level in
    let octant = bit_or (bit_or (xi * 4) (yi * 2)) zi in
    hilbert_loop t level (turn xi yi zi (px, py, pz))
      (wrap t (wrap t (key * 8) + get_or morton_to_hilbert octant 0))

unfoldable pub i_hilbert : KeyType → ℕ → ℕ → ℕ → ℕ
i_hilbert t px py pz = hilbert_loop t (max_tree_level t) (px, py, pz) 0

unfoldable pub hilbert2_loop : KeyType → ℕ → ℕ → ℕ → ℕ → ℕ
hilbert2_loop t zero px py key = key
hilbert2_loop t (suc level) px py key =
    let xi = bit_at px level in
    let yi = bit_at py level in
    let next = wrap t (wrap t (wrap t (4 * key) + u32 (2 * xi)) + bit_xor xi yi) in
    hilbert2_loop t level (if yi == 0 then bit_xor py (neg32 xi) else px)
      (if yi == 0 then bit_xor px (neg32 xi) else py) next

unfoldable pub i_hilbert2 : KeyType → ℕ → ℕ → ℕ
i_hilbert2 t px py = hilbert2_loop t (max_tree_level t) px py 0

-- One level of the way back in the plane: swap and complement, and put a bit in front.
unfoldable pub prepend : ℕ → ℕ → ℕ → ℕ → ℕ × ℕ
prepend sa sb x y =
    let same = bit_xor sa sb == 0 in
    let next_x = if same then bit_xor y (neg32 sa) else x in
    let next_y = if same then bit_xor x (neg32 sa) else y in
    (bit_or (next_x / 2) (u32 (sa * 2 ^ 31)), bit_or (next_y / 2) (u32 (bit_xor sa sb * 2 ^ 31)))

-- `left` pairs of bits of the key from `level` on.
unfoldable pub decode_hilbert2_loop : ℕ → ℕ → ℕ → ℕ × ℕ → ℕ × ℕ
decode_hilbert2_loop key zero level p = p
decode_hilbert2_loop key (suc left) level (x, y) =
    let sa = bit_and (key / 2 ^ (level + 1)) 1 in
    let sb = bit_and (key / 2 ^ level) 1 in
    decode_hilbert2_loop key left (level + 2) (prepend sa sb x y)

unfoldable pub decode_hilbert2 : KeyType → ℕ → ℕ × ℕ
decode_hilbert2 t key =
    let order = max_tree_level t in
    let (x, y) = decode_hilbert2_loop key order 0 (0, 0) in
    (x / 2 ^ (32 - order), y / 2 ^ (32 - order))

-- The way back for one octant: rotate or swap, turn, and append a bit to each coordinate.
unfoldable pub unturn : ℕ → ℕ → ℕ → Point → Point
unturn xi yi zi (px, py, pz) =
    if not (bit_xor yi zi == 0)
    then (pz, px, py)
    else if (xi == 0) && (yi == 0) && (zi == 0) || not (bit_and (bit_and xi yi) zi == 0)
    then (pz, py, px)
    else (px, py, pz)

unfoldable pub decode_octant : ℕ → ℕ → Point → Point
decode_octant octant level p =
    let xi = octant / 4 in
    let yi = bit_and (octant / 2) 1 in
    let zi = bit_and octant 1 in
    let (px, py, pz) = unturn xi yi zi p in
    let mask = 2 ^ level - 1 in
    let qx = bit_xor px (bit_and mask (neg32 (bit_and xi (bit_or yi zi)))) in
    let qy = bit_xor py (
      bit_and mask (
        neg32 (
          bit_or (bit_and xi (bit_or (not_bit yi) (not_bit zi)))
            (bit_and (bit_and (not_bit xi) yi) zi)))) in
    let qz = bit_xor pz (
      bit_and mask
        (neg32 (bit_or (bit_and (bit_and xi (not_bit yi)) (not_bit zi)) (bit_and yi zi)))) in
    (
      bit_or qx (u32 (xi * 2 ^ level)),
      bit_or qy (u32 (bit_xor xi yi * 2 ^ level)),
      bit_or qz (u32 (bit_xor yi zi * 2 ^ level)),
    )

-- `left` levels from `level` up.
unfoldable pub decode_hilbert_loop : ℕ → ℕ → ℕ → Point → Point
decode_hilbert_loop key zero level p = p
decode_hilbert_loop key (suc left) level p =
    decode_hilbert_loop key left (level + 1)
      (decode_octant (bit_and (key / 2 ^ (3 * level)) 7) level p)

unfoldable pub decode_hilbert : KeyType → ℕ → Point
decode_hilbert t key = decode_hilbert_loop key (max_tree_level t) 0 (0, 0, 0)

-- IBox: the ends of the box in each direction.
pub record IBox : Type 0 where
  pub xmin : ℕ
  pub xmax : ℕ
  pub ymin : ℕ
  pub ymax : ℕ
  pub zmin : ℕ
  pub zmax : ℕ

-- The mask ~(cubeLength - 1) is of 32 bits.
unfoldable pub hilbert_ibox : KeyType → ℕ → ℕ → IBox
hilbert_ibox t key_start level =
    let cube_length = max_coord t / 2 ^ level in
    let mask = 2 ^ 32 - 1 - sub32 cube_length 1 in
    let (ix, iy, iz) = decode_hilbert t key_start in
    record {
      xmin = bit_and ix mask;
      xmax = u32 (bit_and ix mask + cube_length);
      ymin = bit_and iy mask;
      ymax = u32 (bit_and iy mask + cube_length);
      zmin = bit_and iz mask;
      zmax = u32 (bit_and iz mask + cube_length);
    }

unfoldable pub hilbert_ibox_keys : KeyType → ℕ → ℕ → IBox
hilbert_ibox_keys t key_start key_end =
    hilbert_ibox t key_start (tree_level t (wrap_sub t key_end key_start))
