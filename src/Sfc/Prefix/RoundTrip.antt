-- ===== src/Sfc/Prefix/RoundTrip.antt =====
-- Encoding and decoding of placeholder bits as arithmetic (sfc/common.hpp).
use native.Mathlib.Nat.{mod-eq_of_lt, div-lt_iff_lt-mul, div-add-mod, mul-div_cancel}
use sphexa.Base.{
  ℕ, suc, ◌+◌, ◌-◌, ◌*◌, ◌/◌, ◌%◌, ◌^◌, ◌≤◌, ◌<◌, ◌≡◌, refl, ap, sym, ◌∙◌, arith, mul-le-mul,
}
use sphexa.Base.Pow.{pow2-triple, pow2-suc, pow2_pos, pow2-le, pow2-add}
use sphexa.Base.Bits.{bit_or-top, bit_xor-top}
use sphexa.Key.{
  KeyType, max_tree_level, wrap, key_space_lt, key_bits_parts, level_bounds, unused_pos,
}
use sphexa.Clz.{count_leading_zeros-pow}
use sphexa.Sfc.Prefix.{
  encode_placeholder_bit, decode_prefix_length, decode_placeholder_bit, decode_placeholder_bit2,
}

-- The key space is 2 ^ len ranges of the size that a prefix of `len` bits leaves.
space-split :
    (t : KeyType) (len : ℕ)
    → len ≤ 3 * max_tree_level t
    → 8 ^ max_tree_level t ≡ 2 ^ len * 2 ^ (3 * max_tree_level t - len)
space-split t len h =
    let e : 3 * max_tree_level t ≡ len + (3 * max_tree_level t - len) = omega arith in
    sym (pow2-triple (max_tree_level t))
    ∙ ap (λ (n : ℕ). 2 ^ n) e
    ∙ pow2-add len (3 * max_tree_level t - len)

mask-exact : (t : KeyType) (len : ℕ) → len ≤ 3 * max_tree_level t → wrap t (2 ^ len) ≡ 2 ^ len
mask-exact t len h = mod-eq_of_lt (
    omega
      (arith, key_space_lt t, pow2-triple (max_tree_level t), pow2-le len (3 * max_tree_level t) h))

-- A prefix of `len` bits is the number 2 ^ len + bits.
pub encode-sum :
    (t : KeyType) (code len : ℕ)
    → code < 8 ^ max_tree_level t
    → len ≤ 3 * max_tree_level t
    → encode_placeholder_bit t code len ≡ 2 ^ len + code / 2 ^ (3 * max_tree_level t - len)
unfolding encode_placeholder_bit
encode-sum t code len h k =
    let bits : code / 2 ^ (3 * max_tree_level t - len) < 2 ^ len =
      (div-lt_iff_lt-mul (pow2_pos (3 * max_tree_level t - len))).1
        (rw (space-split t len k) at h) in
    rw (mask-exact t len k) (bit_or-top len (code / 2 ^ (3 * max_tree_level t - len)) bits)

pub decode_prefix_length-sum :
    (t : KeyType) (len bits : ℕ)
    → len ≤ 3 * max_tree_level t
    → bits < 2 ^ len
    → decode_prefix_length t (2 ^ len + bits) ≡ len
unfolding decode_prefix_length
decode_prefix_length-sum t len bits h k =
    rw
      (count_leading_zeros-pow t len (2 ^ len + bits)
        (omega (arith, key_bits_parts t, unused_pos t)) (omega arith) (omega (arith, pow2-suc len)))
      (omega (arith, key_bits_parts t, level_bounds t, unused_pos t))

-- The end of the node with these leading bits stays in the key space.
end_in_space :
    (t : KeyType) (len bits : ℕ)
    → len ≤ 3 * max_tree_level t
    → bits < 2 ^ len
    → bits * 2 ^ (3 * max_tree_level t - len) + 2 ^ (3 * max_tree_level t - len)
      ≤ 8 ^ max_tree_level t
end_in_space t len bits h k = omega (
  arith,
  space-split t len h,
  mul-le-mul (suc bits) (2 ^ len) (2 ^ (3 * max_tree_level t - len)) k,
)

-- The parts of `decode_placeholder_bit` where the prefix is in range.
pub decode-sum :
    (t : KeyType) (len bits : ℕ)
    → len ≤ 3 * max_tree_level t
    → bits < 2 ^ len
    → decode_placeholder_bit t (2 ^ len + bits) ≡ bits * 2 ^ (3 * max_tree_level t - len)
unfolding decode_placeholder_bit
decode-sum t len bits h k =
    rw (decode_prefix_length-sum t len bits h k, mask-exact t len h, bit_xor-top len bits k)
      (mod-eq_of_lt (
        omega (
          arith,
          key_space_lt t,
          pow2_pos (3 * max_tree_level t - len),
          end_in_space t len bits h k,
        )))

-- Decoding the encoding of the leading len bits of a key gives back len as the prefix length,
-- and the key with its other bits 0. The key lies in the key space, and len is at most the
-- number of its bits.
pub decode-encode :
    (t : KeyType) (code len : ℕ)
    → code < 8 ^ max_tree_level t
    → len ≤ 3 * max_tree_level t
    → (decode_prefix_length t (encode_placeholder_bit t code len) ≡ len)
      × (decode_placeholder_bit t (encode_placeholder_bit t code len)
          ≡ code - code % 2 ^ (3 * max_tree_level t - len))
decode-encode t code len h k =
    let r = 2 ^ (3 * max_tree_level t - len) in
    let bits : code / r < 2 ^ len =
      (div-lt_iff_lt-mul (pow2_pos (3 * max_tree_level t - len))).1
        (rw (space-split t len k) at h) in
    rw (encode-sum t code len h k) (
      decode_prefix_length-sum t len (code / r) k bits,
      decode-sum t len (code / r) k bits ∙ omega (arith, div-add-mod code r),
    )

-- A prefix of len bits behind its placeholder bit is the encoding of the key and the prefix
-- length that it decodes to, where len is at most the number of bits of a key.
pub encode-decode :
    (t : KeyType) (prefix len : ℕ)
    → len ≤ 3 * max_tree_level t
    → 2 ^ len ≤ prefix
    → prefix < 2 ^ suc len
    → encode_placeholder_bit t (decode_placeholder_bit t prefix) (decode_prefix_length t prefix)
      ≡ prefix
encode-decode t prefix len h lo hi =
    let r = 2 ^ (3 * max_tree_level t - len) in
    let bits : prefix - 2 ^ len < 2 ^ len = omega (arith, pow2-suc len) in
    let e : prefix ≡ 2 ^ len + (prefix - 2 ^ len) = omega arith in
    let start : decode_placeholder_bit t prefix ≡ (prefix - 2 ^ len) * r =
      ap (decode_placeholder_bit t) e ∙ decode-sum t len (prefix - 2 ^ len) h bits in
    let length : decode_prefix_length t prefix ≡ len =
      ap (decode_prefix_length t) e ∙ decode_prefix_length-sum t len (prefix - 2 ^ len) h bits in
    let inside : (prefix - 2 ^ len) * r < 8 ^ max_tree_level t = omega (
      arith,
      end_in_space t len (prefix - 2 ^ len) h bits,
      pow2_pos (3 * max_tree_level t - len),
    ) in
    rw
      (
        start,
        length,
        encode-sum t ((prefix - 2 ^ len) * r) len inside h,
        mul-div_cancel (prefix - 2 ^ len) (pow2_pos (3 * max_tree_level t - len)),
      )
      (omega arith)

decode2-shape :
    (t : KeyType) (prefix : ℕ)
    → decode_placeholder_bit2 t prefix ≡ (
      decode_placeholder_bit t prefix,
      wrap t (
          decode_placeholder_bit t prefix
          + wrap t (2 ^ (3 * max_tree_level t - decode_prefix_length t prefix))),
    )
unfolding decode_placeholder_bit2 decode_placeholder_bit
decode2-shape t prefix = refl

-- For a prefix of len bits, at most as many as a key has, decode_placeholder_bit2 returns the
-- key that decode_placeholder_bit returns, and the key behind it by 2 to the power of the bits
-- that are not in the prefix.
pub decode2-ends :
    (t : KeyType) (prefix len : ℕ)
    → len ≤ 3 * max_tree_level t
    → 2 ^ len ≤ prefix
    → prefix < 2 ^ suc len
    → decode_placeholder_bit2 t prefix ≡ (
      decode_placeholder_bit t prefix,
      decode_placeholder_bit t prefix + 2 ^ (3 * max_tree_level t - len),
    )
decode2-ends t prefix len h lo hi =
    let bits : prefix - 2 ^ len < 2 ^ len = omega (arith, pow2-suc len) in
    let e : prefix ≡ 2 ^ len + (prefix - 2 ^ len) = omega arith in
    let length : decode_prefix_length t prefix ≡ len =
      ap (decode_prefix_length t) e ∙ decode_prefix_length-sum t len (prefix - 2 ^ len) h bits in
    let start : decode_placeholder_bit t prefix
        ≡ (prefix - 2 ^ len) * 2 ^ (3 * max_tree_level t - len) =
      ap (decode_placeholder_bit t) e ∙ decode-sum t len (prefix - 2 ^ len) h bits in
    let exact : wrap t (2 ^ (3 * max_tree_level t - len)) ≡ 2 ^ (3 * max_tree_level t - len) =
      mask-exact t (3 * max_tree_level t - len) (omega arith) in
    rw (decode2-shape t prefix, length, exact, start)
      (ap (λ (k : ℕ). ((prefix - 2 ^ len) * 2 ^ (3 * max_tree_level t - len), k))
        (mod-eq_of_lt
          (omega (arith, key_space_lt t, end_in_space t len (prefix - 2 ^ len) h bits))))
