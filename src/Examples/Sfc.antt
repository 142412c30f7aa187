-- ===== src/Examples/Sfc.antt =====
-- Keys, prefixes and nodes at concrete values (domain/include/cstone/sfc/common.hpp).
use sphexa.Base.{ℕ, ◌-◌, ◌*◌, ◌/◌, ◌%◌, ◌^◌, ◌≤◌, ◌≡◌, ◌↔◌, arith, true}
use sphexa.Key.{key32}
use sphexa.Sfc.Node.{is_power_of_8, log8ceil}
use sphexa.Sfc.Node.Power.{is_power_of_8_iff, log8ceil-least}
use sphexa.Sfc.Prefix.{encode_placeholder_bit, decode_prefix_length, decode_placeholder_bit}
use sphexa.Sfc.Prefix.RoundTrip.{decode-encode, encode-decode}
use sphexa.Sfc.Digit.{enclosing_box_code}
use sphexa.Sfc.Digit.Box.{enclosing_box_code-mod}

-- 0o1234567012, of which 9 bits are kept
decode-encode_example :
    (decode_prefix_length key32 (encode_placeholder_bit key32 175304202 9) ≡ 9)
    × (decode_placeholder_bit key32 (encode_placeholder_bit key32 175304202 9)
        ≡ 175304202 - 175304202 % 2 ^ 21)
decode-encode_example = decode-encode key32 175304202 9 (omega arith) (omega arith)

encode-decode_example :
    encode_placeholder_bit key32 (decode_placeholder_bit key32 595) (decode_prefix_length key32 595)
    ≡ 595
encode-decode_example = encode-decode key32 595 9 (omega arith) (omega arith) (omega arith)

is_power_of_8_iff_example : (is_power_of_8 key32 512 ≡ true) ↔ ((j : ℕ) × (j ≤ 10) × (512 ≡ 8 ^ j))
is_power_of_8_iff_example = is_power_of_8_iff key32 512 (omega arith) (omega arith)

log8ceil-least_example :
    (100 ≤ 8 ^ log8ceil key32 100) × ((l : ℕ) → 100 ≤ 8 ^ l → log8ceil key32 100 ≤ l)
log8ceil-least_example = log8ceil-least key32 100 (omega arith) (omega arith)

enclosing_box_code-mod_example :
    enclosing_box_code key32 175304202 3 ≡ 175304202 / 8 ^ (10 - 3) * 8 ^ (10 - 3)
enclosing_box_code-mod_example = enclosing_box_code-mod key32 175304202 3 (omega arith)
