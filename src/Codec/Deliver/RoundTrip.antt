-- ===== src/Codec/Deliver/RoundTrip.antt =====
-- A whole SMS-DELIVER PDU, laid out field by field as `_build_deliver` of
-- server/tests/test_sms_codec.py lays it out, is read back.
use Prim.Native.Nat.{bit_and}
use native.Mathlib.Nat.{add_assoc, zero-add}
use generic_text_gateway.Common.{
  ◌>>=◌, ◌==◌, if◌then◌else◌, length, drop, concat, length-append, All, nat_eq, Text, Bytes,
  text_eq, DigitTable, strip-no_space, ℕ, suc, ◌+◌, ◌-◌, ◌/◌, ◌<◌, ◌≡◌, refl, ap, subst, ◌∙◌, Bool,
  true, false, not, Option, some, [], ◌∷◌, ◌++◌, append_assoc, arith,
}
use generic_text_gateway.Codec.Recipient.{is_e164}
use generic_text_gateway.Codec.Address.{Address, encode_address, decode_address}
use generic_text_gateway.Codec.Address.RoundTrip.{decode_address-encode_address}
use generic_text_gateway.Codec.Septets.Length.{AreOctets}
use generic_text_gateway.Codec.Submit.{octets, user_data_header, UserData, user_data, hex}
use generic_text_gateway.Codec.Submit.Decoding.{place, coding, decode_user_data-user_data}
use generic_text_gateway.Codec.Deliver.{
  Concat, octet_at, slice, decode_scts, decode_user_data, decode_tpdu, decode_deliver, deliver,
}
use generic_text_gateway.Codec.Deliver.Reading.{
  octet_at-shift, octet_at-front, drop-shift, slice-shift, take-append, hex-no_space, from_hex-hex,
}

-- What the network puts around a sender and the user data: its own address in front, the protocol
-- identifier and the time stamp.
pub record Envelope : Type 0 where
  pub smsc : Bytes
  pub pid : ℕ
  pub scts : Bytes

-- `fo`: an SMS-DELIVER with no more messages waiting, and the header flag
abbrev pub deliver_octet : Bool → ℕ
deliver_octet udhi = if udhi then 0x44 else 0x04

abbrev pub behind_sender : Envelope → ℕ → UserData → Bytes
behind_sender e dcs u = e.pid ∷ dcs ∷ (e.scts ++ u.udl ∷ u.ud)

abbrev pub deliver_body : Envelope → Address → ℕ → UserData → Bytes
deliver_body e a dcs u = a.digit_count ∷ a.toa ∷ (a.bcd ++ behind_sender e dcs u)

abbrev pub deliver_prefix : Envelope → Bool → Bytes
deliver_prefix e udhi = length e.smsc ∷ (e.smsc ++ deliver_octet udhi ∷ [])

abbrev pub deliver_octets : Envelope → Bool → Address → ℕ → UserData → Bytes
deliver_octets e udhi a dcs u = deliver_prefix e udhi ++ deliver_body e a dcs u

-- Reading at an index behind a prefix is reading the rest.
decode_tpdu-shift :
    (fo : ℕ) (xs ys : Bytes) → decode_tpdu fo (xs ++ ys) (length xs) ≡ decode_tpdu fo ys 0
unfolding decode_tpdu
decode_tpdu-shift fo xs ys =
    rw octet_at-front (simp (add_assoc, zero-add, octet_at-shift, slice-shift, drop-shift))

module _ (e : Envelope) (dcs : ℕ) (u : UserData) where
  -- The fields behind the sender.
  field_pid : octet_at (behind_sender e dcs u) 0 ≡ some e.pid
  unfolding octet_at
  field_pid = refl

  field_dcs : octet_at (behind_sender e dcs u) 1 ≡ some dcs
  unfolding octet_at
  field_dcs = refl

  module _ (seven : length e.scts ≡ 7) where
    field_scts : slice 2 9 (behind_sender e dcs u) ≡ e.scts
    unfolding slice
    field_scts = rw (← seven) (take-append e.scts (u.udl ∷ u.ud))

    field_udl : octet_at (behind_sender e dcs u) 9 ≡ some u.udl
    unfolding octet_at
    field_udl =
        let nine : 9 ≡ length (e.pid ∷ dcs ∷ e.scts) = omega (arith, seven) in
        ap (octet_at (behind_sender e dcs u)) nine
        ∙ octet_at-front (e.pid ∷ dcs ∷ e.scts) (u.udl ∷ u.ud)

    field_ud : drop 10 (behind_sender e dcs u) ≡ u.ud
    field_ud =
        let ten : 10 ≡ length (e.pid ∷ dcs ∷ e.scts) + 1 = omega (arith, seven) in
        ap (λ k. drop k (behind_sender e dcs u)) ten
        ∙ drop-shift (e.pid ∷ dcs ∷ e.scts) (u.udl ∷ u.ud) 1

module _ (e : Envelope) (fo : ℕ) (a : Address) (dcs : ℕ) (u : UserData) where
  abbrev sender_part : Bytes
  sender_part = a.digit_count ∷ a.toa ∷ a.bcd

  field_count : octet_at (deliver_body e a dcs u) 0 ≡ some a.digit_count
  unfolding octet_at
  field_count = refl

  field_toa : octet_at (deliver_body e a dcs u) 1 ≡ some a.toa
  unfolding octet_at
  field_toa = refl

  field_bcd : slice 2 (length sender_part) (deliver_body e a dcs u) ≡ a.bcd
  unfolding slice
  field_bcd =
      let size : length sender_part - 2 ≡ length a.bcd = omega arith in
      rw size (take-append a.bcd (behind_sender e dcs u))

  -- The fields, whatever the length of the sender's number.
  decode_tpdu-body :
      length e.scts ≡ 7
      → length a.bcd ≡ (a.digit_count + 1) / 2
      → decode_tpdu fo (deliver_body e a dcs u) 0 ≡ (do
        scts ← decode_scts e.scts
        (text, concat) ← decode_user_data (not (bit_and fo 0x40 == 0)) dcs u.udl u.ud
        some (
            deliver (record {
              sender = decode_address a.digit_count a.toa a.bcd;
              text = text;
              scts = scts;
              concat = concat;
            })))
  unfolding decode_tpdu
  decode_tpdu-body s n =
      let rest = behind_sender e dcs u in
      let at : 0 + 2 + (a.digit_count + 1) / 2 ≡ length sender_part = omega (arith, n) in
      rw (field_count, field_toa)
        (rw at (
          rw (
            octet_at-front sender_part rest ∙ field_pid e dcs u,
            octet_at-shift sender_part rest 1 ∙ field_dcs e dcs u,
            slice-shift sender_part rest 2 9 ∙ field_scts e dcs u s,
            octet_at-shift sender_part rest 9 ∙ field_udl e dcs u s,
            drop-shift sender_part rest 10 ∙ field_ud e dcs u s,
            field_bcd,
          )))

-- Where a whole PDU begins.
deliver_head :
    (e : Envelope) (udhi : Bool) (body : Bytes)
    → (octet_at (deliver_prefix e udhi ++ body) 0 ≡ some (length e.smsc))
      × (octet_at (deliver_prefix e udhi ++ body) (1 + length e.smsc) ≡ some (deliver_octet udhi))
      × (length (deliver_prefix e udhi) ≡ 2 + length e.smsc)
deliver_head e udhi body =
    let flag = deliver_octet udhi in
    let whole : e.smsc ++ flag ∷ [] ++ body ≡ e.smsc ++ flag ∷ body =
      append_assoc e.smsc (flag ∷ []) body in
    let second : octet_at (e.smsc ++ flag ∷ body) (length e.smsc) ≡ some flag =
      octet_at-front e.smsc (flag ∷ body) ∙ unfold octet_at in refl in
    let index : 1 + length e.smsc ≡ suc (length e.smsc) = omega arith in
    (
      unfold octet_at in refl,
      rw (index, whole) (unfold octet_at in second),
      omega (arith, length-append e.smsc (flag ∷ [])),
    )

-- What the first octet says.
deliver_flags :
    (udhi : Bool)
    → (bit_and (deliver_octet udhi) 0x03 ≡ 0)
      × (not (bit_and (deliver_octet udhi) 0x40 == 0) ≡ udhi)
deliver_flags true = (refl, refl)
deliver_flags false = (refl, refl)

module _ (t : DigitTable) (e : Envelope) (udhi : Bool) (dcs : ℕ) (u : UserData)
    (sender : Text) where
  -- Whatever the service centre, the sender, the alphabet and the place among the parts.
  pub decode_deliver-deliver_octets :
      {a : Address} {scts text : Text} {concat : Option Concat}
      → is_e164 sender ≡ true
      → encode_address t sender ≡ some a
      → AreOctets (deliver_octets e udhi a dcs u)
      → length e.scts ≡ 7
      → decode_scts e.scts ≡ some scts
      → decode_user_data udhi dcs u.udl u.ud ≡ some (text, concat)
      → decode_deliver (hex (deliver_octets e udhi a dcs u))
        ≡ some (deliver (record { sender = sender; text = text; scts = scts; concat = concat }))
  unfolding decode_deliver
  decode_deliver-deliver_octets {a} h enc octets seven es eu =
      let (a', ea, back, count, n, toa) = decode_address-encode_address t sender h in
      let same : a' ≡ a = ground arith in
      let back' : decode_address a.digit_count a.toa a.bcd ≡ sender =
        subst (λ (x : Address). decode_address x.digit_count x.toa x.bcd ≡ sender) same back in
      let n' : length a.bcd ≡ (a.digit_count + 1) / 2 =
        subst (λ (x : Address). length x.bcd ≡ (x.digit_count + 1) / 2) same n in
      let bs = deliver_octets e udhi a dcs u in
      let body = deliver_body e a dcs u in
      let (first, second, size) = deliver_head e udhi body in
      let (mti, flag) = deliver_flags udhi in
      rw (strip-no_space (hex bs) (hex-no_space bs octets), from_hex-hex bs octets)
        (rw (first, second)
          (rw (mti, ← size)
            (decode_tpdu-shift (deliver_octet udhi) (deliver_prefix e udhi) body
              ∙ decode_tpdu-body e (deliver_octet udhi) a dcs u seven n'
              ∙ rw (es, flag) (rw (eu, back')))))

-- Let a part of a message be given whose user data and header `build_submit_pdus` can write, in
-- either alphabet, and a sender that the API accepts as a recipient. If the network puts them into
-- an SMS-DELIVER behind any service centre address, with a time stamp of seven octets that
-- decodes, then `decode_deliver` of its hexadecimal text is a message with that sender, that text,
-- that time, and the place among the parts exactly when there are several.
pub received_part :
    (t : DigitTable) (e : Envelope) (gsm7 multi : Bool) (ref parts seq : ℕ) (sender part : Text)
    → {udh : Bytes} {u : UserData} {a : Address} {scts : Text} → is_e164 sender ≡ true
    → All (λ c. c < 0x110000) part
    → user_data_header multi ref parts seq ≡ some udh
    → user_data gsm7 udh part ≡ some u
    → encode_address t sender ≡ some a
    → AreOctets (deliver_octets e multi a (coding gsm7) u)
    → length e.scts ≡ 7
    → decode_scts e.scts ≡ some scts
    → decode_deliver (hex (deliver_octets e multi a (coding gsm7) u))
      ≡ some (
          deliver (record {
            sender = sender;
            text = part;
            scts = scts;
            concat = place multi ref parts seq;
          }))
received_part t e gsm7 multi ref parts seq sender part {udh = udh} {u = u} h chars eh eu ea octets
      seven es =
    decode_deliver-deliver_octets t e multi (coding gsm7) u sender h ea octets seven es
      (decode_user_data-user_data gsm7 multi ref parts seq part chars eh eu)
