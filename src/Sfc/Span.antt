-- ===== src/Sfc/Span.antt =====
-- The nodes that cover a range of keys (domain/include/cstone/sfc/common.hpp): steps up to the first
-- digit in which the ends differ, and down again.
pub mod Count
pub mod Places
pub mod Cover
use sphexa.Base.{ℕ, zero, suc, ◌+◌, ◌-◌, ◌/◌, ◌%◌, List, [], ◌∷◌, ◌++◌, length, bit_xor}
use sphexa.Key.{KeyType, unused_bits, wrap, sub32}
use sphexa.Clz.{count_leading_zeros}
use sphexa.Sfc.Node.{octal_power}
use sphexa.Sfc.Prefix.{last_nz_place}
use sphexa.Sfc.Digit.{octal_digit}

-- What is stored, how many values are counted, and where `a` is by then.
pub record Span : Type 0 where
  pub output : List ℕ
  pub num_values : ℕ
  pub a : ℕ

-- while (numDigits--) { *output++ = a; a += octalPower(pos); }
unfoldable pub emit : KeyType → ℕ → ℕ → Span → Span
emit t pos zero span = span
emit t pos (suc num_digits) span = emit t pos num_digits (record {
  output = span.output ++ span.a ∷ [];
  num_values = span.num_values;
  a = wrap t (span.a + octal_power t pos);
})

unfoldable pub add_digits : KeyType → ℕ → ℕ → Span → Span
add_digits t pos num_digits span =
    emit t pos num_digits
      (record { output = span.output; num_values = span.num_values + num_digits; a = span.a })

-- `left` positions above `first`, from the last down.
unfoldable pub span_up : KeyType → ℕ → ℕ → Span → Span
span_up t first zero span = span
span_up t first (suc left) span =
    let pos = first + suc left in
    span_up t first left (add_digits t pos ((8 - octal_digit t span.a pos) % 8) span)

-- `left` positions from `pos` up. The digit of `a` is not above that of `b`: it is lower at the
-- first position and 0 at the others.
unfoldable pub span_down : KeyType → ℕ → ℕ → ℕ → Span → Span
span_down t b zero pos span = span
span_down t b (suc left) pos span =
    span_down t b left (pos + 1)
      (add_digits t pos (octal_digit t b pos - octal_digit t span.a pos) span)

unfoldable pub span_sfc_range : KeyType → ℕ → ℕ → Span
span_sfc_range t a b =
    let first_diff = (count_leading_zeros t (bit_xor a b) + 3 - unused_bits t) / 3 in
    let up =
      span_up t first_diff (last_nz_place t a - first_diff)
        (record { output = []; num_values = 0; a = a }) in
    span_down t b (suc (last_nz_place t b) - first_diff) first_diff up
