-- ===== src/Codec/Submit.antt =====
-- `build_submit_pdus` of server/gtg_server/modem/sms_codec.py. `none` is the ValueError: a number or a
-- text that cannot be encoded, or a field that does not fit its octet.
pub mod Decoding
pub mod Total
pub mod Parts
use Prim.Native.Nat.{bit_or}
use generic_text_gateway.Common.{
  ◌>>=◌, ◌>>◌, ltb, leb, if◌then◌else◌, length, total, all, nat_eq, Text, Bytes, text_eq,
  DigitTable, ℕ, ◌+◌, ◌-◌, ◌*◌, ◌/◌, ◌%◌, Bool, true, false, Option, none, some, List, [], ◌∷◌,
  ◌++◌, arith,
}
use generic_text_gateway.Codec.Alphabet.{is_gsm7, septet_len, to_septets}
use generic_text_gateway.Codec.Septets.{pack_septets}
use generic_text_gateway.Codec.Utf16.{utf16_encode}
use generic_text_gateway.Codec.Address.{encode_address, hex_digit, upper}
use generic_text_gateway.Codec.Split.{single_gsm7, single_ucs2, split_gsm7, split_ucs2}

-- `(pdu_hex, cmgs_length)`
pub record Pdu : Type 0 where
  pub pdu_hex : Text
  pub cmgs_length : ℕ

-- `bytes(xs)`, which refuses a number above 255
unfoldable pub octets : List ℕ → Option Bytes
octets xs = if all (λ x. ltb x 256) xs then some xs else none

-- `os.urandom` is the reference `ref`; a single part has no header.
unfoldable pub user_data_header : Bool → ℕ → ℕ → ℕ → Option Bytes
user_data_header multi ref parts seq =
    if multi then octets (0x00 ∷ 0x03 ∷ ref ∷ parts ∷ seq ∷ []) else some []

abbrev pub fill_bits : ℕ → ℕ
fill_bits udh_full_len = (7 - udh_full_len * 8 % 7) % 7

-- The header's septets: `(len(udh_full) * 8 + fill) // 7`.
abbrev pub header_septets : ℕ → ℕ
header_septets udh_full_len = (udh_full_len * 8 + fill_bits udh_full_len) / 7

-- `udl` and `ud` of one part
pub record UserData : Type 0 where
  pub udl : ℕ
  pub ud : Bytes

unfoldable pub gsm7_user_data : Bytes → Text → Option UserData
gsm7_user_data [] part = do
  septets ← to_septets part
  some (record { udl = length septets; ud = pack_septets septets 0 })
gsm7_user_data (u ∷ udh) part = do
  septets ← to_septets part
  head ← octets (length (u ∷ udh) ∷ [])
  let udh_full = head ++ u ∷ udh
  let fill = fill_bits (length udh_full)
  some (record {
    udl = header_septets (length udh_full) + length septets;
    ud = udh_full ++ pack_septets septets fill;
  })

unfoldable pub ucs2_user_data : Bytes → Text → Option UserData
ucs2_user_data [] part = do
  payload ← utf16_encode part
  some (record { udl = length payload; ud = payload })
ucs2_user_data (u ∷ udh) part = do
  payload ← utf16_encode part
  head ← octets (length (u ∷ udh) ∷ [])
  let ud = head ++ u ∷ udh ++ payload
  some (record { udl = length ud; ud = ud })

unfoldable pub user_data : Bool → Bytes → Text → Option UserData
user_data gsm7 udh part = if gsm7 then gsm7_user_data udh part else ucs2_user_data udh part

abbrev pub is_empty : Bytes → Bool
is_empty [] = true
is_empty (_ ∷ _) = false

-- `f"{b:02X}"` of each octet
unfoldable pub hex : Bytes → Text
hex [] = []
hex (b ∷ bs) = upper (hex_digit (b / 16)) ∷ upper (hex_digit (b % 16)) ∷ hex bs

abbrev pub pdu_of : Bytes → Pdu
pdu_of tpdu = record { pdu_hex = b'0' ∷ b'0' ∷ hex tpdu; cmgs_length = length tpdu }

-- One round of the loop over the parts.
unfoldable pub submit_tpdu : DigitTable → ℕ → Text → Bool → ℕ → ℕ → Text → Option Bytes
submit_tpdu t ref number gsm7 parts seq part = do
  udh ← user_data_header (ltb 1 parts) ref parts seq
  let fo = bit_or 0x01 (if is_empty udh then 0 else 0x40)
  address ← encode_address t number
  head ← octets (fo ∷ 0x00 ∷ address.digit_count ∷ address.toa ∷ [])
  u ← user_data gsm7 udh part
  tail ← octets (0x00 ∷ (if gsm7 then 0x00 else 0x08) ∷ u.udl ∷ [])
  some (head ++ address.bcd ++ tail ++ u.ud)

unfoldable pub submit_parts : DigitTable → ℕ → Text → Bool → ℕ → ℕ → List Text → Option (List Pdu)
submit_parts t ref number gsm7 parts seq [] = some []
submit_parts t ref number gsm7 parts seq (part ∷ rest) = do
  tpdu ← submit_tpdu t ref number gsm7 parts seq part
  pdus ← submit_parts t ref number gsm7 parts (seq + 1) rest
  some (pdu_of tpdu ∷ pdus)

-- The parts of a text: one that fits is whole.
unfoldable pub parts_of : Bool → Text → Option (List Text)
parts_of gsm7 text =
    if gsm7
    then some (if leb (total septet_len text) single_gsm7 then text ∷ [] else split_gsm7 text)
    else do
      bytes ← utf16_encode text
      if leb (length bytes) single_ucs2 then some (text ∷ []) else split_ucs2 text

unfoldable pub build_submit_pdus : DigitTable → ℕ → Text → Text → Option (List Pdu)
build_submit_pdus t ref number text = do
  parts ← parts_of (is_gsm7 text) text
  submit_parts t ref number (is_gsm7 text) (length parts) 1 parts
