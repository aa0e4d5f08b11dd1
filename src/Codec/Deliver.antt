-- ===== src/Codec/Deliver.antt =====
-- `decode_deliver` and `_decode_scts` of server/gtg_server/modem/sms_codec.py. `none` is the ValueError
-- or the IndexError that a malformed PDU raises.
pub mod Reading
pub mod RoundTrip
use Prim.Native.Nat.{bit_or, bit_and}
use generic_text_gateway.Common.{
  ◌>>=◌, ◌>>◌, ltb, leb, ◌==◌, if◌then◌else◌, get_elem?, take, drop, concat, nat_eq, Text, Bytes,
  codes, text_eq, strip, is_ascii_digit, ℕ, zero, suc, ◌+◌, ◌-◌, ◌*◌, ◌/◌, ◌%◌, ◌^◌, Bool, true,
  not, ◌&&◌, ◌||◌, Option, none, some, [], ◌∷◌, ◌++◌, arith,
}
use generic_text_gateway.Codec.Alphabet.{from_septets}
use generic_text_gateway.Codec.Septets.{unpack_septets}
use generic_text_gateway.Codec.Utf16.{utf16_decode}
use generic_text_gateway.Codec.Address.{decode_address}
use generic_text_gateway.Codec.Submit.{fill_bits, header_septets}

-- The `concat` tuple: reference, number of parts, position.
pub record Concat : Type 0 where
  pub ref : ℕ
  pub parts : ℕ
  pub seq : ℕ

-- The dictionary of kind "deliver".
pub record Message : Type 0 where
  pub sender : Text
  pub text : Text
  pub scts : Text
  pub concat : Option Concat

pub data Decoded : Type 0 where
  deliver : Message → Decoded
  status_report other : Decoded

-- `b[i]`, which raises outside the octets
unfoldable pub octet_at : Bytes → ℕ → Option ℕ
octet_at bs i = get_elem? bs i

-- `b[i:j]`
unfoldable pub slice : ℕ → ℕ → Bytes → Bytes
slice i j bs = take (j - i) (drop i bs)

-- A hexadecimal digit of `bytes.fromhex`.
unfoldable pub unhex : ℕ → Option ℕ
unhex c =
    if is_ascii_digit c
    then some (c - 48)
    else if leb b'a' c && leb c b'f'
    then some (c - 87)
    else if leb b'A' c && leb c b'F'
    then some (c - 55)
    else none

abbrev pub is_ascii_space : ℕ → Bool
is_ascii_space c = leb 9 c && leb c 13 || c == 32

-- `bytes.fromhex`, which skips white space between octets
unfoldable pub from_hex : Text → Option Bytes
from_hex [] = some []
from_hex (c ∷ []) = if is_ascii_space c then some [] else none
from_hex (c ∷ d ∷ s) =
    let skipped = from_hex (d ∷ s) in
    let rest = from_hex s in
    if is_ascii_space c
    then skipped
    else do hi ← unhex c; lo ← unhex d; bs ← rest; some ((hi * 16 + lo) ∷ bs)

-- The swapped nibbles of a decimal octet.
unfoldable pub sw : ℕ → ℕ
sw b = b % 16 * 10 + b / 2 ^ 4 % 16

-- `f"{n:02d}"` of a number below 1000
unfoldable pub two_digits : ℕ → Text
two_digits n =
    if ltb n 100
    then (48 + n / 10) ∷ (48 + n % 10) ∷ []
    else (48 + n / 100) ∷ (48 + n / 10 % 10) ∷ (48 + n % 10) ∷ []

unfoldable pub decode_scts : Bytes → Option Text
unfolding sw two_digits
decode_scts bs = do
  yy ← octet_at bs 0
  mm ← octet_at bs 1
  dd ← octet_at bs 2
  hh ← octet_at bs 3
  mi ← octet_at bs 4
  ss ← octet_at bs 5
  tz ← octet_at bs 6
  let sign = if bit_and tz 0x08 == 0 then b'+' else b'-'
  let quarters = bit_and tz 0x07 * 10 + tz / 2 ^ 4 % 16
  let field = λ (b : ℕ). two_digits (sw b)
  some (
      codes "20"
      ++ field yy
      ++ b'-' ∷ field mm
      ++ b'-' ∷ field dd
      ++ b'T' ∷ field hh
      ++ b':' ∷ field mi
      ++ b':' ∷ field ss
      ++ sign ∷ two_digits (quarters * 15 / 60)
      ++ b':' ∷ two_digits (quarters * 15 % 60))

-- The alphabet of a coding scheme: 0 is GSM7, 1 is 8-bit, 2 is UCS-2.
unfoldable pub alphabet_of : ℕ → ℕ
alphabet_of dcs =
    if bit_and dcs 0xC0 == 0x00
    then dcs / 2 ^ 2 % 4
    else let group = bit_and dcs 0xF0 in
      if group == 0xF0 || group == 0xE0 || group == 0xC0 || group == 0xD0
      then dcs / 2 ^ 2 % 2
      else 0

-- One information element: the last concatenation element counts.
unfoldable pub element : ℕ → ℕ → Bytes → Option Concat → Option (Option Concat)
element iei ie_len ie concat =
    if iei == 0x00 && ie_len == 3
    then (do
      a ← octet_at ie 0
      b ← octet_at ie 1
      c ← octet_at ie 2
      some (some (record { ref = a; parts = b; seq = c })))
    else if iei == 0x08 && ie_len == 4
    then (do
      a ← octet_at ie 0
      b ← octet_at ie 1
      c ← octet_at ie 2
      d ← octet_at ie 3
      some (some (record { ref = bit_or (a * 2 ^ 8) b; parts = c; seq = d })))
    else some concat

-- `while j + 2 <= len(udh)`, over what is left of the header; the first argument counts the octets of
-- the last element that are still to be passed over.
unfoldable pub elements : ℕ → Option Concat → Bytes → Option (Option Concat)
elements zero concat [] = some concat
elements zero concat (iei ∷ []) = some concat
elements zero concat (iei ∷ ie_len ∷ udh) = do
  concat' ← element iei ie_len (take ie_len udh) concat
  elements ie_len concat' udh
elements (suc k) concat [] = some concat
elements (suc k) concat (_ ∷ udh) = elements k concat udh

-- The header of the user data: the concatenation, its length with the length octet, and the rest.
pub record Header : Type 0 where
  pub concat : Option Concat
  pub full_len : ℕ
  pub payload : Bytes

unfoldable pub read_header : Bool → Bytes → Option Header
read_header true (udh_len ∷ ud) = do
  concat ← elements 0 none (take udh_len ud)
  some (record { concat = concat; full_len = udh_len + 1; payload = drop udh_len ud })
read_header udhi ud = some (record { concat = none; full_len = 0; payload = ud })

unfoldable pub decode_text : ℕ → ℕ → ℕ → Bytes → Text
decode_text alphabet udl full_len payload =
    if alphabet == 0
    then (if full_len == 0
        then from_septets (unpack_septets payload udl 0)
        else from_septets
            (unpack_septets payload (udl - header_septets full_len) (fill_bits full_len)))
    else if alphabet == 2
    then utf16_decode payload
    else payload

-- What follows the time stamp: the length octet and the user data.
unfoldable pub decode_user_data : Bool → ℕ → ℕ → Bytes → Option (Text × Option Concat)
decode_user_data udhi dcs udl ud = do
  header ← read_header udhi ud
  some (decode_text (alphabet_of dcs) udl header.full_len header.payload, header.concat)

unfoldable pub decode_tpdu : ℕ → Bytes → ℕ → Option Decoded
decode_tpdu fo b i = do
  digit_count ← octet_at b i
  toa ← octet_at b (i + 1)
  let addr_bytes = (digit_count + 1) / 2
  let sender = decode_address digit_count toa (slice (i + 2) (i + 2 + addr_bytes) b)
  let i = i + 2 + addr_bytes
  pid ← octet_at b i
  dcs ← octet_at b (i + 1)
  scts ← decode_scts (slice (i + 2) (i + 9) b)
  udl ← octet_at b (i + 9)
  (text, concat) ← decode_user_data (not (bit_and fo 0x40 == 0)) dcs udl (drop (i + 10) b)
  some (deliver (record { sender = sender; text = text; scts = scts; concat = concat }))

unfoldable pub decode_deliver : Text → Option Decoded
decode_deliver pdu_hex = do
  b ← from_hex (strip pdu_hex)
  smsc_len ← octet_at b 0
  fo ← octet_at b (1 + smsc_len)
  let mti = bit_and fo 0x03
  if mti == 0x02
      then some status_report
      else if mti == 0x00
      then decode_tpdu fo b (2 + smsc_len)
      else some other
