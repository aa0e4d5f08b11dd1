-- ===== src/Codec/Submit/Decoding.antt =====
-- The user data of a part: the decoder reads back the text and the place among the parts.
use generic_text_gateway.Common.{
  if◌then◌else◌, Option-cases, length, All, nat_eq, Text, Bytes, text_eq, ℕ, ◌+◌, ◌-◌, ◌<◌, ◌≡◌,
  subst, inl, inr, Bool, true, false, Option, none, some, List, [], ◌∷◌, arith,
}
use generic_text_gateway.Codec.Alphabet.{to_septets, from_septets}
use generic_text_gateway.Codec.Alphabet.RoundTrip.{from_septets-to_septets}
use generic_text_gateway.Codec.Alphabet.Length.{AreSeptets-to_septets}
use generic_text_gateway.Codec.Septets.{pack_septets, unpack_septets}
use generic_text_gateway.Codec.Septets.RoundTrip.{unpack_septets-pack_septets}
use generic_text_gateway.Codec.Utf16.{utf16_encode}
use generic_text_gateway.Codec.Utf16.RoundTrip.{utf16_decode-utf16_encode}
use generic_text_gateway.Codec.Submit.{
  octets, user_data_header, UserData, gsm7_user_data, ucs2_user_data, user_data,
}
use generic_text_gateway.Codec.Deliver.{
  Concat, octet_at, alphabet_of, element, elements, read_header, decode_text, decode_user_data,
}

-- A text that `to_septets` encodes comes back from its packed septets, behind fewer than eight
-- fill bits.
pub from_septets-unpack-pack :
    (part : Text) (fill : ℕ) {ss : List ℕ}
    → fill < 8
    → to_septets part ≡ some ss
    → from_septets (unpack_septets (pack_septets ss fill) (length ss) fill) ≡ part
from_septets-unpack-pack part fill {ss} p e =
    rw (unpack_septets-pack_septets ss fill p (AreSeptets-to_septets part e))
      (from_septets-to_septets part e)

-- The concatenation that the header of a part states.
abbrev pub place : Bool → ℕ → ℕ → ℕ → Option Concat
place multi ref parts seq =
    if multi then some (record { ref = ref; parts = parts; seq = seq }) else none

abbrev pub coding : Bool → ℕ
coding gsm7 = if gsm7 then 0x00 else 0x08

-- The user data of a part behind its header.
abbrev header_data : ℕ → ℕ → ℕ → ℕ → Bytes → UserData
header_data ref parts seq udl payload = record {
  udl = udl;
  ud = 0x05 ∷ 0x00 ∷ 0x03 ∷ ref ∷ parts ∷ seq ∷ payload;
}

module _ (part : Text) {u : UserData} where
  gsm7_whole :
      gsm7_user_data [] part ≡ some u → decode_user_data false 0x00 u.udl u.ud ≡ some (part, none)
  unfolding gsm7_user_data decode_user_data read_header alphabet_of decode_text
  gsm7_whole h = elim (Option-cases (to_septets part)) [
    | inl bad ↦ ground arith
    | inr (ss, e) ↦
        let back = from_septets-unpack-pack part 0 (omega arith) e in ground (arith, back)
  ]

  gsm7_part :
      (ref parts seq : ℕ)
      → gsm7_user_data (0x00 ∷ 0x03 ∷ ref ∷ parts ∷ seq ∷ []) part ≡ some u
      → decode_user_data true 0x00 u.udl u.ud
        ≡ some (part, some (record { ref = ref; parts = parts; seq = seq }))
  unfolding gsm7_user_data decode_user_data read_header alphabet_of decode_text octets elements
      element octet_at
  gsm7_part ref parts seq h = elim (Option-cases (to_septets part)) [
    | inl bad ↦ ground arith
    | inr (ss, e) ↦
        let back = from_septets-unpack-pack part 1 (omega arith) e in
        let eu : header_data ref parts seq (7 + length ss) (pack_septets ss 1) ≡ u = ground arith in
        let n : 7 + length ss - 7 ≡ length ss = omega arith in
        subst
          (λ (v : UserData).
            decode_user_data true 0x00 v.udl v.ud
            ≡ some (part, some (record { ref = ref; parts = parts; seq = seq })))
          eu (rw (n, back))
  ]

  ucs2_whole :
      All (λ c. c < 0x110000) part
      → ucs2_user_data [] part ≡ some u
      → decode_user_data false 0x08 u.udl u.ud ≡ some (part, none)
  unfolding ucs2_user_data decode_user_data read_header alphabet_of decode_text
  ucs2_whole a h = elim (Option-cases (utf16_encode part)) [
    | inl bad ↦ ground arith
    | inr (bs, e) ↦ ground (arith, utf16_decode-utf16_encode part a e)
  ]

  ucs2_part :
      (ref parts seq : ℕ)
      → All (λ c. c < 0x110000) part
      → ucs2_user_data (0x00 ∷ 0x03 ∷ ref ∷ parts ∷ seq ∷ []) part ≡ some u
      → decode_user_data true 0x08 u.udl u.ud
        ≡ some (part, some (record { ref = ref; parts = parts; seq = seq }))
  unfolding ucs2_user_data decode_user_data read_header alphabet_of decode_text octets elements
      element octet_at
  ucs2_part ref parts seq a h = elim (Option-cases (utf16_encode part)) [
    | inl bad ↦ ground arith
    | inr (bs, e) ↦
        let eu : header_data ref parts seq (6 + length bs) bs ≡ u = ground arith in
        subst
          (λ (v : UserData).
            decode_user_data true 0x08 v.udl v.ud
            ≡ some (part, some (record { ref = ref; parts = parts; seq = seq })))
          eu (rw (utf16_decode-utf16_encode part a e))
  ]

-- From the user data of any part that could be built, in either alphabet, the decoder reads the
-- text of the part, and its place exactly when there are several parts.
pub decode_user_data-user_data :
    (gsm7 multi : Bool) (ref parts seq : ℕ) (part : Text) {udh : Bytes} {u : UserData}
    → All (λ c. c < 0x110000) part
    → user_data_header multi ref parts seq ≡ some udh
    → user_data gsm7 udh part ≡ some u
    → decode_user_data multi (coding gsm7) u.udl u.ud ≡ some (part, place multi ref parts seq)
unfolding user_data_header octets user_data
decode_user_data-user_data true false ref parts seq part {udh} {u} a h e =
    let none_udh : [] ≡ udh = ground arith in gsm7_whole part (rw (← none_udh) at e)
decode_user_data-user_data false false ref parts seq part {udh} {u} a h e =
    let none_udh : [] ≡ udh = ground arith in ucs2_whole part a (rw (← none_udh) at e)
decode_user_data-user_data true true ref parts seq part {udh} {u} a h e =
    let some_udh : 0x00 ∷ 0x03 ∷ ref ∷ parts ∷ seq ∷ [] ≡ udh = ground arith in
    gsm7_part part ref parts seq (rw (← some_udh) at e)
decode_user_data-user_data false true ref parts seq part {udh} {u} a h e =
    let some_udh : 0x00 ∷ 0x03 ∷ ref ∷ parts ∷ seq ∷ [] ≡ udh = ground arith in
    ucs2_part part ref parts seq a (rw (← some_udh) at e)
