-- ===== src/Codec/Tests.antt =====
-- The vectors of server/tests/test_sms_codec.py, and runs of the codec that its theorems speak of.
use generic_text_gateway.Common.{
  ◌>>=◌, ltb, length, total, all, All, nat_eq, lookup, Text, Bytes, codes, text_eq, starts_with,
  strip, is_ascii_digit, is_digits, ascii_table, ℕ, ◌+◌, ◌*◌, ◌/◌, ◌≤◌, ◌<◌, ◌≡◌, refl, true, none,
  some, List, [], ◌∷◌, ◌++◌, arith,
}
use generic_text_gateway.Codec.Alphabet.{
  index_from, gsm7_map, gsm7_ext_get, rev_lookup, is_gsm7_char, is_gsm7, septet_len, char_septets,
  to_septets, from_septets,
}
use generic_text_gateway.Codec.Septets.{pack_septets, unpack_septets}
use generic_text_gateway.Codec.Utf16.{utf16_char, utf16_encode, utf16_decode}
use generic_text_gateway.Codec.Address.{
  Address, hex_value, bcd_octets, padding, encode_digits, encode_address, hex_digit, upper,
  decode_address,
}
use generic_text_gateway.Codec.Split.{split_gsm7, split_ucs2}
use generic_text_gateway.Codec.Submit.{
  Pdu, octets, user_data_header, UserData, gsm7_user_data, ucs2_user_data, user_data, hex,
  submit_tpdu, submit_parts, parts_of, build_submit_pdus,
}
use generic_text_gateway.Codec.Deliver.{
  octet_at, slice, unhex, from_hex, decode_scts, alphabet_of, element, elements, read_header,
  decode_text, decode_user_data, decode_tpdu, decode_deliver, deliver,
}
use generic_text_gateway.Codec.Recipient.{drop_plus, is_e164}
use generic_text_gateway.Codec.Alphabet.RoundTrip.{from_septets-to_septets}
use generic_text_gateway.Codec.Alphabet.Length.{to_septets-is_gsm7, to_septets-not-is_gsm7}
use generic_text_gateway.Codec.Septets.RoundTrip.{unpack_septets-pack_septets}
use generic_text_gateway.Codec.Septets.Length.{AreOctets, pack_septets-octets}
use generic_text_gateway.Codec.Address.RoundTrip.{decode_address-encode_address}
use generic_text_gateway.Codec.Utf16.RoundTrip.{IsScalar, utf16_decode-utf16_encode}
use generic_text_gateway.Codec.Submit.Total.{IsPdu}
use generic_text_gateway.Codec.Submit.Decoding.{
  from_septets-unpack-pack, decode_user_data-user_data,
}
use generic_text_gateway.Codec.Submit.Parts.{IsDivision, build_submit_pdus-total}
use generic_text_gateway.Codec.Deliver.RoundTrip.{Envelope, deliver_octets, received_part}

-- What a run of the codec computes with.
codec : Unit {0}
unfolding lookup starts_with strip is_ascii_digit is_digits index_from gsm7_map gsm7_ext_get
    rev_lookup is_gsm7_char is_gsm7 septet_len char_septets to_septets from_septets pack_septets
    unpack_septets utf16_char utf16_encode utf16_decode hex_value bcd_octets padding encode_digits
    encode_address decode_address split_gsm7 split_ucs2 octets user_data_header gsm7_user_data
    ucs2_user_data user_data hex_digit upper hex submit_tpdu submit_parts parts_of build_submit_pdus
    octet_at slice unhex from_hex decode_scts alphabet_of element elements read_header decode_text
    decode_user_data decode_tpdu decode_deliver
codec = tt

hello_hello :
    (do ss ← to_septets (codes "hellohello"); some (hex (pack_septets ss 0)))
    ≡ some (codes "E8329BFD4697D9EC37")
unfolding codec
hello_hello = refl

national :
    encode_address ascii_table (codes "0555")
    ≡ some (record { digit_count = 4; toa = 0x81; bcd = 0x50 ∷ 0x55 ∷ [] })
unfolding codec
national = refl

-- Bounds on the numbers of a concrete list.
all_below : (n : ℕ) (xs : List ℕ) → all (λ x. ltb x n) xs ≡ true → All (λ x. x < n) xs
all_below n [] h = tt
all_below n (x ∷ xs) h = ground (arith, all_below n xs)

ascii_scalars : (xs : Text) → all (λ x. ltb x 128) xs ≡ true → All IsScalar xs
ascii_scalars [] h = tt
ascii_scalars (x ∷ xs) h = ground (arith, ascii_scalars xs)

abbrev sender : Text
sender = codes "+49151234567"

abbrev words : Text
words = codes "Hello {World}"

-- The octets in front of the text of a concatenated part.
abbrev part_header : Bytes
part_header = 0x05 ∷ 0x00 ∷ 0x03 ∷ 7 ∷ 2 ∷ 1 ∷ []

abbrev part_septets : List ℕ
part_septets = 72 ∷ 101 ∷ 108 ∷ 108 ∷ 111 ∷ 32 ∷ 27 ∷ 40 ∷ 87 ∷ 111 ∷ 114 ∷ 108 ∷ 100 ∷ 27 ∷ 41 ∷ []

part_septets_lem : to_septets words ≡ some part_septets
unfolding codec
part_septets_lem = refl

abbrev part_data : UserData
unfolding pack_septets
part_data = record { udl = 22; ud = part_header ++ pack_septets part_septets 1 }

abbrev sender_address : Address
sender_address = record {
  digit_count = 11;
  toa = 0x91;
  bcd = 0x94 ∷ 0x51 ∷ 0x21 ∷ 0x43 ∷ 0x65 ∷ 0xF7 ∷ [];
}

-- As the network would deliver it.
abbrev envelope : Envelope
envelope = record {
  smsc = 0x91 ∷ 0x94 ∷ [];
  pid = 0;
  scts = 0x42 ∷ 0x60 ∷ 0x71 ∷ 0x41 ∷ 0x03 ∷ 0x00 ∷ 0x80 ∷ [];
}

received_part_example :
    decode_deliver (hex (deliver_octets envelope true sender_address 0 part_data))
    ≡ some (
        deliver (record {
          sender = sender;
          text = words;
          scts = codes "2024-06-17T14:30:00+02:00";
          concat = some (record { ref = 7; parts = 2; seq = 1 });
        }))
unfolding codec is_e164 drop_plus
received_part_example =
    received_part ascii_table envelope true true 7 2 1 sender words refl
      (all_below 0x110000 words refl) refl refl refl
      (all_below 256 (deliver_octets envelope true sender_address 0 part_data) refl) refl refl

build_submit_pdus_total_example :
    (parts : List Text) × (parts_of (is_gsm7 words) words ≡ some parts)
    × IsDivision (is_gsm7 words) words parts
    × (pdus : List Pdu) × (build_submit_pdus ascii_table 7 sender words ≡ some pdus)
    × (length pdus ≡ length parts)
    × All IsPdu pdus
unfolding codec is_e164 drop_plus
build_submit_pdus_total_example =
    build_submit_pdus-total ascii_table 7 sender words (omega arith) refl (omega arith)
      (ascii_scalars words refl)

decode_address-encode_address_example :
    (a : Address) × (encode_address ascii_table sender ≡ some a)
    × (decode_address a.digit_count a.toa a.bcd ≡ sender)
    × (a.digit_count ≤ 20)
    × (length a.bcd ≡ (a.digit_count + 1) / 2)
    × (a.toa < 256)
unfolding codec is_e164 drop_plus
decode_address-encode_address_example = decode_address-encode_address ascii_table sender refl

decode_user_data-user_data_example :
    decode_user_data true 0x00 part_data.udl part_data.ud
    ≡ some (words, some (record { ref = 7; parts = 2; seq = 1 }))
unfolding codec
decode_user_data-user_data_example =
    decode_user_data-user_data true true 7 2 1 words {udh = 0x00 ∷ 0x03 ∷ 7 ∷ 2 ∷ 1 ∷ []}
      {u = part_data} (all_below 0x110000 words refl) refl refl

unpack_septets-pack_septets_example :
    unpack_septets (pack_septets part_septets 1) (length part_septets) 1 ≡ part_septets
unfolding codec
unpack_septets-pack_septets_example =
    unpack_septets-pack_septets part_septets 1 (omega arith) (all_below 128 part_septets refl)

from_septets-unpack-pack_example :
    from_septets (unpack_septets (pack_septets part_septets 1) (length part_septets) 1) ≡ words
unfolding codec
from_septets-unpack-pack_example =
    from_septets-unpack-pack words 1 {ss = part_septets} (omega arith) part_septets_lem

-- A text outside the GSM alphabet, with a character outside the first plane.
abbrev smile : Text
smile = codes "Hi " ++ 0x1F600 ∷ []

abbrev smile_octets : Bytes
smile_octets = 0x00 ∷ 0x48 ∷ 0x00 ∷ 0x69 ∷ 0x00 ∷ 0x20 ∷ 0xD8 ∷ 0x3D ∷ 0xDE ∷ 0x00 ∷ []

utf16_decode-utf16_encode_example : utf16_decode smile_octets ≡ smile
unfolding codec
utf16_decode-utf16_encode_example =
    utf16_decode-utf16_encode smile {bs = smile_octets} (all_below 0x110000 smile refl) refl

pack_septets-octets_example :
    (length (pack_septets part_septets 1) ≡ (1 + 7 * length part_septets + 7) / 8)
    × AreOctets (pack_septets part_septets 1)
unfolding codec
pack_septets-octets_example = pack_septets-octets part_septets 1 (omega arith)

to_septets-is_gsm7_example :
    (ss : List ℕ) × (to_septets words ≡ some ss)
    × (length ss ≡ total septet_len words)
    × All (λ s. s < 128) ss
unfolding codec
to_septets-is_gsm7_example = to_septets-is_gsm7 words refl

to_septets-not-is_gsm7_example : to_septets smile ≡ none
unfolding codec
to_septets-not-is_gsm7_example = to_septets-not-is_gsm7 smile refl

from_septets-to_septets_example : from_septets part_septets ≡ words
unfolding codec
from_septets-to_septets_example = from_septets-to_septets words {ss = part_septets} part_septets_lem
