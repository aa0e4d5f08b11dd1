-- ===== src/Codec/Submit/Total.antt =====
-- Every message that the API accepts is encoded, and every PDU of it fits.
use Prim.Native.Nat.{bit_or}
use generic_text_gateway.Common.{
  ltb, if◌then◌else◌, lt→ltb, Bool-cases, length, total, all, length-append, All, nat_eq, Text,
  Bytes, text_eq, DigitTable, ℕ, suc, ◌+◌, ◌*◌, ◌≤◌, ◌<◌, ◌≡◌, refl, ap, inl, inr, Bool, true,
  false, some, List, [], ◌∷◌, ◌++◌, arith,
}
use generic_text_gateway.Codec.Alphabet.{is_gsm7_char, is_gsm7, septet_len}
use generic_text_gateway.Codec.Alphabet.Length.{to_septets-is_gsm7}
use generic_text_gateway.Codec.Septets.{pack_septets}
use generic_text_gateway.Codec.Septets.Length.{AreOctets, pack_septets-octets}
use generic_text_gateway.Codec.Recipient.{is_e164}
use generic_text_gateway.Codec.Utf16.{is_surrogate, ucs2_cost}
use generic_text_gateway.Codec.Utf16.RoundTrip.{IsScalar, utf16_encode-length}
use generic_text_gateway.Codec.Address.RoundTrip.{decode_address-encode_address}
use generic_text_gateway.Codec.Split.{single_gsm7, multi_gsm7, single_ucs2, multi_ucs2}
use generic_text_gateway.Codec.Submit.Decoding.{coding}
use generic_text_gateway.Codec.Submit.{
  is_empty, pdu_of, Pdu, octets, user_data_header, UserData, gsm7_user_data, ucs2_user_data,
  user_data, hex, submit_tpdu, submit_parts,
}

-- The texts that an alphabet can write.
abbrev pub CanWrite : Bool → ℕ → Type 0
CanWrite true c = is_gsm7_char c ≡ true
CanWrite false c = is_surrogate c ≡ false

abbrev pub Encodable : Bool → Text → Type 0
Encodable gsm7 = All (CanWrite gsm7)

all-All : (text : Text) → is_gsm7 text ≡ true → Encodable true text
unfolding is_gsm7
all-All [] h = tt
all-All (c ∷ text) h = ground (arith, all-All text)

All-all : (text : Text) → Encodable true text → is_gsm7 text ≡ true
unfolding is_gsm7
All-all [] h = refl
All-all (c ∷ text) h = rw h.0 (All-all text h.1)

-- A text of Unicode characters can be written in the alphabet that is chosen for it.
pub Encodable-is_gsm7 : (text : Text) → All IsScalar text → Encodable (is_gsm7 text) text
Encodable-is_gsm7 text h = elim (Bool-cases (is_gsm7 text)) [
  | inl yes' ↦ rw yes' (all-All text yes')
  | inr no' ↦ rw no' (plain text h)
]
  where
    plain : (s : Text) → All IsScalar s → Encodable false s
    plain [] a = tt
    plain (c ∷ s) a = (a.0.1, plain s a.1)

abbrev pub cost_of : Bool → ℕ → ℕ
cost_of gsm7 = if gsm7 then septet_len else ucs2_cost

abbrev pub part_limit : Bool → Bool → ℕ
part_limit gsm7 multi =
    if gsm7
    then (if multi then multi_gsm7 else single_gsm7)
    else (if multi then multi_ucs2 else single_ucs2)

-- The user data fits the 140 octets of a short message, and its length an octet.
pub record Carries (u : UserData) : Type 0 where
  pub udl : u.udl < 256
  pub ud : length u.ud ≤ 140

abbrev header_of : Bool → ℕ → ℕ → ℕ → Bytes
header_of multi ref parts seq = if multi then 0x00 ∷ 0x03 ∷ ref ∷ parts ∷ seq ∷ [] else []

user_data_header_lem :
    (multi : Bool) (ref parts seq : ℕ)
    → ref < 256
    → parts < 256
    → seq < 256
    → user_data_header multi ref parts seq ≡ some (header_of multi ref parts seq)
unfolding user_data_header octets
user_data_header_lem multi ref parts seq p q r = ground arith

pub user_data-total :
    (gsm7 multi : Bool) (ref parts seq : ℕ) (part : Text)
    → Encodable gsm7 part
    → total (cost_of gsm7) part ≤ part_limit gsm7 multi
    → (u : UserData) × (user_data gsm7 (header_of multi ref parts seq) part ≡ some u) × Carries u
unfolding user_data gsm7_user_data ucs2_user_data octets
user_data-total true false ref parts seq part e fits =
    let (ss, es, n, below) = to_septets-is_gsm7 part (All-all part e) in
    (
      record { udl = length ss; ud = pack_septets ss 0 },
      rw es,
      omega (arith, n, (pack_septets-octets ss 0 (omega arith)).0),
    )
user_data-total true true ref parts seq part e fits =
    let (ss, es, n, below) = to_septets-is_gsm7 part (All-all part e) in
    (
      record {
        udl = 7 + length ss;
        ud = 0x05 ∷ 0x00 ∷ 0x03 ∷ ref ∷ parts ∷ seq ∷ pack_septets ss 1;
      },
      rw es,
      omega (arith, n, (pack_septets-octets ss 1 (omega arith)).0),
    )
user_data-total false false ref parts seq part e fits =
    let (bs, es, n) = utf16_encode-length part e in
    (record { udl = length bs; ud = bs }, rw es, omega (arith, n))
user_data-total false true ref parts seq part e fits =
    let (bs, es, n) = utf16_encode-length part e in
    (
      record {
        udl = length (0x05 ∷ 0x00 ∷ 0x03 ∷ ref ∷ parts ∷ seq ∷ bs);
        ud = 0x05 ∷ 0x00 ∷ 0x03 ∷ ref ∷ parts ∷ seq ∷ bs;
      },
      rw es,
      omega (arith, n),
    )

octets_lem : (xs : List ℕ) → AreOctets xs → octets xs ≡ some xs
unfolding octets
octets_lem xs h = rw (tests xs h)
  where
    tests : (ys : List ℕ) → AreOctets ys → all (λ x. ltb x 256) ys ≡ true
    tests [] a = refl
    tests (y ∷ ys) a = rw (lt→ltb y 256 a.0) (tests ys a.1)

-- `fo`, with the header flag
abbrev pub first_octet : Bytes → ℕ
first_octet udh = bit_or 0x01 (if is_empty udh then 0 else 0x40)

first_octet-lt :
    (multi : Bool) (ref parts seq : ℕ) → first_octet (header_of multi ref parts seq) < 256
first_octet-lt true ref parts seq = omega arith
first_octet-lt false ref parts seq = omega arith

coding-lt : (gsm7 : Bool) → coding gsm7 < 256
coding-lt true = omega arith
coding-lt false = omega arith

-- The address of an accepted recipient and the header octets.
pub submit_tpdu-total :
    (t : DigitTable) (ref : ℕ) (number : Text) (gsm7 : Bool) (parts seq : ℕ) (part : Text)
    → ref < 256
    → is_e164 number ≡ true
    → parts < 256
    → seq < 256
    → Encodable gsm7 part
    → total (cost_of gsm7) part ≤ part_limit gsm7 (ltb 1 parts)
    → (tpdu : Bytes) × (submit_tpdu t ref number gsm7 parts seq part ≡ some tpdu)
      × (length tpdu ≤ 157)
unfolding submit_tpdu
submit_tpdu-total t ref number gsm7 parts seq part r h p q e fits =
    let multi = ltb 1 parts in
    let udh = header_of multi ref parts seq in
    let (a, ea, back, count, n, toa) = decode_address-encode_address t number h in
    let (u, eu, carries) = user_data-total gsm7 multi ref parts seq part e fits in
    let eh = user_data_header_lem multi ref parts seq r p q in
    let head = first_octet udh ∷ 0x00 ∷ a.digit_count ∷ a.toa ∷ [] in
    let tail = 0x00 ∷ coding gsm7 ∷ u.udl ∷ [] in
    let e_head : octets head ≡ some head =
      octets_lem head
        (first_octet-lt multi ref parts seq, (omega arith, (omega (arith, count), (toa, tt)))) in
    let e_tail : octets tail ≡ some tail =
      octets_lem tail (omega arith, (coding-lt gsm7, (carries.udl, tt))) in
    (
      head ++ a.bcd ++ tail ++ u.ud,
      rw (eh, ea, e_head, eu, e_tail),
      omega (
        arith,
        length-append (head ++ a.bcd ++ tail) u.ud,
        length-append (head ++ a.bcd) tail,
        length-append head a.bcd,
        n,
        count,
        carries.ud,
      ),
    )

-- The PDU of one part, as `AT+CMGS` takes it: two digits for each octet behind the empty SMSC.
pub record IsPdu (p : Pdu) : Type 0 where
  pub hex_length : length p.pdu_hex ≡ 2 * p.cmgs_length + 2
  pub short : p.cmgs_length ≤ 157

length-hex : (bs : Bytes) → length (hex bs) ≡ 2 * length bs
unfolding hex
length-hex [] = refl
length-hex (b ∷ bs) = omega (arith, length-hex bs)

pdu_of-IsPdu : (tpdu : Bytes) → length tpdu ≤ 157 → IsPdu (pdu_of tpdu)
pdu_of-IsPdu tpdu h = record { hex_length = omega (arith, length-hex tpdu); short = h }

pub submit_parts-total :
    (t : DigitTable) (ref : ℕ) (number : Text) (gsm7 : Bool) (parts seq : ℕ) (rest : List Text)
    → ref < 256
    → is_e164 number ≡ true
    → parts < 256
    → seq + length rest ≤ 256
    → All (Encodable gsm7) rest
    → All (λ part. total (cost_of gsm7) part ≤ part_limit gsm7 (ltb 1 parts)) rest
    → (pdus : List Pdu) × (submit_parts t ref number gsm7 parts seq rest ≡ some pdus)
      × (length pdus ≡ length rest)
      × All IsPdu pdus
unfolding submit_parts
submit_parts-total t ref number gsm7 parts seq [] r h p q e fits = ([], refl, refl, tt)
submit_parts-total t ref number gsm7 parts seq (part ∷ rest) r h p q e fits =
    let (tpdu, et, short) =
      submit_tpdu-total t ref number gsm7 parts seq part r h p (omega arith) e.0 fits.0 in
    let (pdus, ep, n, ok) =
      submit_parts-total t ref number gsm7 parts (seq + 1) rest r h p (omega arith) e.1 fits.1 in
    (pdu_of tpdu ∷ pdus, rw (et, ep), ap suc n, (pdu_of-IsPdu tpdu short, ok))
