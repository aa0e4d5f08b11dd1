-- ===== src/Codec/Address.antt =====
-- `encode_address` and `decode_address` of server/gtg_server/modem/sms_codec.py.
pub mod RoundTrip
use Prim.Native.Nat.{bit_or, bit_and}
use generic_text_gateway.Common.{
  ltb, leb, ◌==◌, if◌then◌else◌, length, take, drop, keep, nat_eq, Text, Bytes, text_eq,
  starts_with, strip, DigitTable, is_digits, ℕ, ◌+◌, ◌-◌, ◌*◌, ◌/◌, ◌%◌, ◌^◌, not, ◌&&◌, Option,
  none, some, [], ◌∷◌, ◌++◌, map, arith,
}
use generic_text_gateway.Codec.Alphabet.{from_septets}
use generic_text_gateway.Codec.Septets.{unpack_septets}
use generic_text_gateway.Codec.Recipient.{plus}

pub record Address : Type 0 where
  pub digit_count : ℕ
  pub toa : ℕ
  pub bcd : Bytes

-- `int(c, 16)` of one character; `none` is the ValueError.
unfoldable pub hex_value : DigitTable → ℕ → Option ℕ
hex_value t c =
    if leb b'a' c && leb c b'f'
    then some (c - 87)
    else if leb b'A' c && leb c b'F'
    then some (c - 55)
    else t.decimal c

abbrev pub octet_of : Option ℕ → Option ℕ → Option Bytes → Option Bytes
octet_of (some lo) (some hi) (some bs) = some (bit_or (hi * 2 ^ 4) lo ∷ bs)
octet_of (some lo) (some hi) none = none
octet_of (some lo) none bs = none
octet_of none hi bs = none

-- The loop over pairs of characters. The text is padded to an even length: an odd one would index
-- past the end.
unfoldable pub bcd_octets : DigitTable → Text → Option Bytes
bcd_octets t [] = some []
bcd_octets t (x ∷ []) = none
bcd_octets t (x ∷ y ∷ s) = octet_of (hex_value t x) (hex_value t y) (bcd_octets t s)

-- `"F" if len(digits) % 2 else ""`
unfoldable pub padding : ℕ → Text
padding n = if n % 2 == 0 then [] else b'F' ∷ []

abbrev with_bcd : ℕ → ℕ → Option Bytes → Option Address
with_bcd n toa none = none
with_bcd n toa (some bcd) = some (record { digit_count = n; toa = toa; bcd = bcd })

unfoldable pub encode_digits : DigitTable → ℕ → Text → Option Address
encode_digits t toa digits =
    if is_digits t digits
    then with_bcd (length digits) toa (bcd_octets t (digits ++ padding (length digits)))
    else none

unfoldable pub encode_address : DigitTable → Text → Option Address
encode_address t number =
    let n = strip number in
    if starts_with n (plus ∷ []) then encode_digits t 0x91 (drop 1 n) else encode_digits t 0x81 n

-- `f"{x:x}"` of one nibble
unfoldable pub hex_digit : ℕ → ℕ
hex_digit x = if ltb x 10 then 48 + x else 87 + x

unfoldable pub nibbles : Bytes → Text
unfolding hex_digit
nibbles [] = []
nibbles (b ∷ bs) = hex_digit (b % 16) ∷ hex_digit (b / 2 ^ 4 % 16) ∷ nibbles bs

-- `str.upper` of a hexadecimal digit
unfoldable pub upper : ℕ → ℕ
upper c = if leb b'a' c && leb c b'z' then c - 32 else c

unfoldable pub decode_address : ℕ → ℕ → Bytes → Text
unfolding nibbles upper
decode_address digit_count toa octets =
    if bit_and toa 0x70 == 0x50
    then from_septets (unpack_septets octets (digit_count * 4 / 7) 0)
    else let s = keep (λ c. not (c == b'F')) (map upper (take digit_count (nibbles octets))) in
      if bit_and toa 0x70 == 0x10 then plus ∷ s else s
