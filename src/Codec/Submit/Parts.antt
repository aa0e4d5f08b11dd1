-- ===== src/Codec/Submit/Parts.antt =====
-- The parts of a text, and the whole of `build_submit_pdus` on what the API accepts.
use generic_text_gateway.Common.{
  ltb, leb, leb→le, Bool-cases, length, concat, total, All, nat_eq, Text, text_eq, DigitTable, ℕ,
  ◌*◌, ◌≤◌, ◌<◌, ◌≡◌, refl, inl, inr, Bool, true, false, some, List, [], ◌∷◌, ◌++◌, append-nil,
  arith,
}
use generic_text_gateway.Codec.Alphabet.{is_gsm7, septet_len}
use generic_text_gateway.Codec.Recipient.{is_e164}
use generic_text_gateway.Codec.Utf16.{ucs2_cost}
use generic_text_gateway.Codec.Utf16.RoundTrip.{IsScalar, utf16_encode-length}
use generic_text_gateway.Codec.Split.{
  single_gsm7, multi_gsm7, single_ucs2, multi_ucs2, split_loop, split_gsm7, split_ucs2,
}
use generic_text_gateway.Codec.Split.Bounds.{concat-split_loop, split_loop-Fits, length-split_loop}
use generic_text_gateway.Codec.Submit.{Pdu, parts_of, build_submit_pdus}
use generic_text_gateway.Codec.Submit.Total.{
  CanWrite, Encodable, Encodable-is_gsm7, cost_of, part_limit, IsPdu, submit_parts-total,
}

-- What a division of a text into parts promises.
pub record IsDivision (gsm7 : Bool) (text : Text) (parts : List Text) : Type 0 where
  pub whole : concat parts ≡ text
  pub fits : All (λ part. total (cost_of gsm7) part ≤ part_limit gsm7 (ltb 1 (length parts))) parts
  pub few : length parts < 256

septet_len-le : (c : ℕ) → septet_len c ≤ 2
unfolding septet_len
septet_len-le c = ground arith

ucs2_cost-le : (c : ℕ) → ucs2_cost c ≤ 4
ucs2_cost-le c = ground arith

All-every {ℓ κ} : {A : Type ℓ} (P : A → Type κ) → ((a : A) → P a) → (xs : List A) → All P xs
All-every P h [] = tt
All-every P h (x ∷ xs) = (h x, All-every P h xs)

total-le :
    (cost : ℕ → ℕ) (big : ℕ) (text : Text)
    → All (λ c. cost c ≤ big) text
    → total cost text ≤ big * length text
total-le cost big [] h = omega arith
total-le cost big (c ∷ text) h = omega (arith, total-le cost big text h.1, h.0)

part_limit-le : (gsm7 multi : Bool) → part_limit gsm7 true ≤ part_limit gsm7 multi
part_limit-le gsm7 multi = ground arith

-- A part that is a split's fits the limit of several parts, and that of one too.
weaken :
    (gsm7 : Bool) (n : ℕ) (parts : List Text)
    → All (λ part. total (cost_of gsm7) part ≤ part_limit gsm7 true) parts
    → All (λ part. total (cost_of gsm7) part ≤ part_limit gsm7 (ltb 1 n)) parts
weaken gsm7 n [] h = tt
weaken gsm7 n (part ∷ parts) h =
    (omega (arith, h.0, part_limit-le gsm7 (ltb 1 n)), weaken gsm7 n parts h.1)

split-IsDivision :
    (gsm7 : Bool) (text : Text)
    → length text ≤ 5000
    → IsDivision gsm7 text (split_loop (cost_of gsm7) (part_limit gsm7 true) [] 0 text)
split-IsDivision true text h = record {
  whole = concat-split_loop septet_len multi_gsm7 text [] 0;
  fits =
      weaken true (length (split_loop septet_len multi_gsm7 [] 0 text))
        (split_loop septet_len multi_gsm7 [] 0 text)
        (split_loop-Fits septet_len multi_gsm7 text [] 0 refl (omega arith)
          (All-every (λ c. septet_len c ≤ multi_gsm7) (λ c. omega (arith, septet_len-le c)) text));
  few =
      let a = All-every (λ c. septet_len c ≤ 2) septet_len-le text in
      omega (
        arith,
        length-split_loop septet_len multi_gsm7 2 text [] 0 a,
        total-le septet_len 2 text a,
      );
}
split-IsDivision false text h = record {
  whole = concat-split_loop ucs2_cost multi_ucs2 text [] 0;
  fits =
      weaken false (length (split_loop ucs2_cost multi_ucs2 [] 0 text))
        (split_loop ucs2_cost multi_ucs2 [] 0 text)
        (split_loop-Fits ucs2_cost multi_ucs2 text [] 0 refl (omega arith)
          (All-every (λ c. ucs2_cost c ≤ multi_ucs2) (λ c. omega (arith, ucs2_cost-le c)) text));
  few =
      let a = All-every (λ c. ucs2_cost c ≤ 4) ucs2_cost-le text in
      omega
        (arith, length-split_loop ucs2_cost multi_ucs2 4 text [] 0 a, total-le ucs2_cost 4 text a);
}

pub parts_of-IsDivision :
    (gsm7 : Bool) (text : Text)
    → length text ≤ 5000
    → Encodable gsm7 text
    → (parts : List Text) × (parts_of gsm7 text ≡ some parts) × IsDivision gsm7 text parts
unfolding parts_of split_gsm7 split_ucs2
parts_of-IsDivision true text h e = elim (Bool-cases (leb (total septet_len text) single_gsm7)) [
  | inl fits ↦ (
    text ∷ [],
    rw fits,
    record {
      whole = append-nil text;
      fits = (leb→le (total septet_len text) single_gsm7 fits, tt);
      few = omega arith;
    },
  )
  | inr long ↦ (split_loop septet_len multi_gsm7 [] 0 text, rw long, split-IsDivision true text h)
]
parts_of-IsDivision false text h e =
    let (bytes, eb, n) = utf16_encode-length text e in
    elim (Bool-cases (leb (length bytes) single_ucs2)) [
      | inl fits ↦ (
        text ∷ [],
        rw eb (rw fits),
        record {
          whole = append-nil text;
          fits = (omega (arith, n, leb→le (length bytes) single_ucs2 fits), tt);
          few = omega arith;
        },
      )
      | inr long ↦ (
        split_loop ucs2_cost multi_ucs2 [] 0 text,
        rw eb (rw long),
        split-IsDivision false text h,
      )
    ]

-- The characters of the parts are those of the text.
All-concat {ℓ} : (P : ℕ → Type ℓ) (parts : List Text) → All P (concat parts) → All (All P) parts
All-concat P [] h = tt
All-concat P (part ∷ parts) h =
    (front part (concat parts) h, All-concat P parts (back part (concat parts) h))
  where
    front : (xs ys : Text) → All P (xs ++ ys) → All P xs
    front [] ys a = tt
    front (x ∷ xs) ys a = (a.0, front xs ys a.1)

    back : (xs ys : Text) → All P (xs ++ ys) → All P ys
    back [] ys a = a
    back (x ∷ xs) ys a = back xs ys a.1

-- For a recipient that the API accepts and a text of at most 5000 characters without surrogates,
-- `build_submit_pdus` raises nothing. Its parts are the text in order, each within the limit for
-- one or for several parts, and are fewer than 256. There is one PDU for each part, of at most 157
-- octets behind the empty service centre, and `AT+CMGS` is told its length.
pub build_submit_pdus-total :
    (t : DigitTable) (ref : ℕ) (number text : Text)
    → ref < 256
    → is_e164 number ≡ true
    → length text ≤ 5000
    → All IsScalar text
    → (parts : List Text) × (parts_of (is_gsm7 text) text ≡ some parts)
      × IsDivision (is_gsm7 text) text parts
      × (pdus : List Pdu) × (build_submit_pdus t ref number text ≡ some pdus)
      × (length pdus ≡ length parts)
      × All IsPdu pdus
unfolding build_submit_pdus
build_submit_pdus-total t ref number text r h n scalars =
    let gsm7 = is_gsm7 text in
    let e = Encodable-is_gsm7 text scalars in
    let (parts, ep, d) = parts_of-IsDivision gsm7 text n e in
    let (pdus, es, m, ok) =
      submit_parts-total t ref number gsm7 (length parts) 1 parts r h d.few (omega (arith, d.few))
        (All-concat (CanWrite gsm7) parts (rw d.whole e)) d.fits in
    (parts, ep, d, pdus, rw ep es, m, ok)
