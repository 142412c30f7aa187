-- ===== src/Key.antt =====
-- The two SFC key types and their constants (domain/include/cstone/tree/definitions.h), and the
-- unsigned arithmetic that the code does on keys, on `unsigned` and on `uint64_t`.
use sphexa.Base.Int.{ℤ, pos, negsuc}
use sphexa.Base.{
  ℕ, ltb, if◌then◌else◌, ◌+◌, ◌-◌, ◌*◌, ◌%◌, ◌^◌, ◌≤◌, ◌<◌, ◌≡◌, refl, arith, List, length,
}

-- `unsigned` and `unsigned long`, the instances of the template parameter `KeyType`.
pub data KeyType : Type 0 where
  key32 : KeyType
  key64 : KeyType

-- 8 * sizeof(KeyType)
abbrev pub key_bits : KeyType → ℕ
key_bits key32 = 32
key_bits key64 = 64

abbrev pub unused_bits : KeyType → ℕ
unused_bits key32 = 2
unused_bits key64 = 1

abbrev pub max_tree_level : KeyType → ℕ
max_tree_level key32 = 10
max_tree_level key64 = 21

abbrev pub max_coord : KeyType → ℕ
max_coord t = 2 ^ max_tree_level t

-- KeyType(1ul << (3 * maxTreeLevel))
abbrev pub remove_key : KeyType → ℕ
remove_key t = 2 ^ (3 * max_tree_level t) % 2 ^ key_bits t

-- The wrap-around of the unsigned types.
abbrev pub wrap : KeyType → ℕ → ℕ
wrap t x = x % 2 ^ key_bits t

abbrev pub wrap_sub : KeyType → ℕ → ℕ → ℕ
wrap_sub t a b = (a + 2 ^ key_bits t - b) % 2 ^ key_bits t

-- The conversion to std::make_signed_t<KeyType>.
abbrev pub signed : KeyType → ℕ → ℤ
signed t x = if ltb x (2 ^ (key_bits t - 1)) then pos x else negsuc (2 ^ key_bits t - x - 1)

abbrev pub u32 : ℕ → ℕ
u32 x = x % 2 ^ 32

abbrev pub sub32 : ℕ → ℕ → ℕ
sub32 a b = (a + 2 ^ 32 - b) % 2 ^ 32

abbrev pub u64 : ℕ → ℕ
u64 x = x % 2 ^ 64

-- A vector of n + 1 keys is a tree of n nodes; the code asserts that it is not empty.
abbrev pub n_nodes : List ℕ → ℕ
n_nodes tree = length tree - 1

pub key_bits_parts : (t : KeyType) → key_bits t ≡ 3 * max_tree_level t + unused_bits t
key_bits_parts key32 = refl
key_bits_parts key64 = refl

-- The whole range of keys, 8 ^ maxTreeLevel, is half or a quarter of what the type can hold.
pub key_space_lt : (t : KeyType) → 8 ^ max_tree_level t < 2 ^ key_bits t
key_space_lt key32 = omega arith
key_space_lt key64 = omega arith

pub wrap_sub_exact : (t : KeyType) (a b : ℕ) → b ≤ a → a < 2 ^ key_bits t → wrap_sub t a b ≡ a - b
wrap_sub_exact key32 a b h lt = omega arith
wrap_sub_exact key64 a b h lt = omega arith

pub sub32_exact : (a b : ℕ) → b ≤ a → a < 2 ^ 32 → sub32 a b ≡ a - b
sub32_exact a b h lt = omega arith

pub level_bounds : (t : KeyType) → (max_tree_level t ≤ 21) × (unused_bits t ≤ 2) × (key_bits t ≤ 64)
level_bounds key32 = omega arith
level_bounds key64 = omega arith

pub unused_pos : (t : KeyType) → 0 < unused_bits t
unused_pos key32 = omega arith
unused_pos key64 = omega arith

pub key_space_double : (t : KeyType) → 2 * 8 ^ max_tree_level t ≤ 2 ^ key_bits t
key_space_double key32 = omega arith
key_space_double key64 = omega arith
