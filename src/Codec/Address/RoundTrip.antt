-- ===== src/Codec/Address/RoundTrip.antt =====
-- An accepted recipient survives encoding and decoding.
use Prim.Native.Nat.{bit_or}
use generic_text_gateway.Common.{
  ◌==◌, ==_iff, Bool-cases, length, take, all, keep, All, nat_eq, Text, Bytes, text_eq, starts_with,
  is_space, is_ascii_digit, DigitTable, is_digits, strip-no_space, ascii_digit_not_space, ℕ, suc,
  ◌+◌, ◌-◌, ◌*◌, ◌/◌, ◌%◌, ◌^◌, ◌≤◌, ◌<◌, ◌≡◌, refl, sym, ap₂, inl, inr, true, false, not, some, [],
  ◌∷◌, ◌++◌, map, arith,
}
use generic_text_gateway.Codec.Recipient.{plus, drop_plus, is_e164}
use generic_text_gateway.Codec.Address.{
  Address, hex_value, bcd_octets, padding, encode_digits, encode_address, hex_digit, nibbles, upper,
  decode_address,
}
use generic_text_gateway.Codec.Septets.Bits.{bit_or-low}

abbrev AreDigits : Text → Type 0
AreDigits = All (λ c. is_ascii_digit c ≡ true)

module _ (t : DigitTable) where
  -- What `int(c, 16)` gives for an ASCII digit, and for the padding.
  hex_value_digit : (c : ℕ) → is_ascii_digit c ≡ true → hex_value t c ≡ some (c - 48)
  unfolding hex_value is_ascii_digit
  hex_value_digit c h = ground (arith, t.decimal_ascii c)

  hex_value_padding : hex_value t b'F' ≡ some 15
  unfolding hex_value
  hex_value_padding = refl

  -- An octet is written from two digits and read back as them.
  nibbles-octet :
      (lo hi : ℕ) (bs : Bytes)
      → lo < 16
      → hi < 16
      → nibbles (bit_or (hi * 2 ^ 4) lo ∷ bs) ≡ hex_digit lo ∷ hex_digit hi ∷ nibbles bs
  unfolding nibbles
  nibbles-octet lo hi bs p q =
      let e = bit_or-low 4 hi lo p in
      let low : bit_or (hi * 2 ^ 4) lo % 16 ≡ lo = omega (arith, e) in
      let high : bit_or (hi * 2 ^ 4) lo / 2 ^ 4 % 16 ≡ hi = omega (arith, e) in rw (low, high)

  hex_digit_back : (c : ℕ) → is_ascii_digit c ≡ true → (hex_digit (c - 48) ≡ c) × (c - 48 < 16)
  unfolding hex_digit is_ascii_digit
  hex_digit_back c h = ground arith

  -- The octets of a digit string, and what `decode_address` reads from them.
  bcd_octets-nibbles :
      (ds : Text)
      → AreDigits ds
      → (bs : Bytes) × (bcd_octets t (ds ++ padding (length ds)) ≡ some bs)
        × (take (length ds) (nibbles bs) ≡ ds)
        × (length bs ≡ (length ds + 1) / 2)
  unfolding bcd_octets padding
  bcd_octets-nibbles [] h = ([], refl, refl, refl)
  bcd_octets-nibbles (c ∷ []) h =
      let (hc, lc) = hex_digit_back c h.0 in
      (
        bit_or (15 * 2 ^ 4) (c - 48) ∷ [],
        rw (hex_value_digit c h.0, hex_value_padding),
        rw (nibbles-octet (c - 48) 15 [] lc (omega arith), hc),
        refl,
      )
  bcd_octets-nibbles (c ∷ d ∷ ds) h =
      let (bs, e, back, n) = bcd_octets-nibbles ds h.1.1 in
      let (hc, lc) = hex_digit_back c h.0 in
      let (hd, ld) = hex_digit_back d h.1.0 in
      let parity : suc (suc (length ds)) % 2 ≡ length ds % 2 = omega arith in
      (
        bit_or ((d - 48) * 2 ^ 4) (c - 48) ∷ bs,
        rw (hex_value_digit c h.0, hex_value_digit d h.1.0, parity, e),
        rw (nibbles-octet (c - 48) (d - 48) bs lc ld, hc, hd, back),
        omega (arith, n),
      )

  -- Upper case and the removal of the padding leave digits alone.
  clean_digits : (ds : Text) → AreDigits ds → keep (λ c. not (c == b'F')) (map upper ds) ≡ ds
  unfolding upper is_ascii_digit
  clean_digits [] h = refl
  clean_digits (c ∷ ds) h = ground (arith, clean_digits ds h.1)

  AreDigits-no_space : (ds : Text) → AreDigits ds → All (λ c. is_space c ≡ false) ds
  AreDigits-no_space [] h = tt
  AreDigits-no_space (c ∷ ds) h = (ascii_digit_not_space c h.0, AreDigits-no_space ds h.1)

  ascii_digit_lt : (c : ℕ) → is_ascii_digit c ≡ true → c < 128
  unfolding is_ascii_digit
  ascii_digit_lt c h = ground arith

  AreDigits-is_digits : (ds : Text) → AreDigits ds → all t.is_digit ds ≡ true
  AreDigits-is_digits [] h = refl
  AreDigits-is_digits (c ∷ ds) h =
      let low : c < 128 = ascii_digit_lt c h.0 in
      rw (t.is_digit_ascii c low, h.0) (AreDigits-is_digits ds h.1)

  all-AreDigits : (ds : Text) → all is_ascii_digit ds ≡ true → AreDigits ds
  all-AreDigits [] h = tt
  all-AreDigits (c ∷ ds) h = ground (arith, all-AreDigits ds)

  -- The address of a string of digits, and what is read back from it.
  encode_digits_lem :
      (toa : ℕ) (ds : Text)
      → AreDigits ds
      → 0 < length ds
      → (bs : Bytes) × (encode_digits t toa ds
          ≡ some (record { digit_count = length ds; toa = toa; bcd = bs }))
        × (keep (λ c. not (c == b'F')) (map upper (take (length ds) (nibbles bs))) ≡ ds)
        × (length bs ≡ (length ds + 1) / 2)
  unfolding encode_digits is_digits
  encode_digits_lem toa [] h pos = absurd (omega arith)
  encode_digits_lem toa (c ∷ ds) h pos =
      let (bs, e, back, n) = bcd_octets-nibbles (c ∷ ds) h in
      (bs, rw (AreDigits-is_digits (c ∷ ds) h, e), rw back (clean_digits (c ∷ ds) h), n)

  plus_not_space : is_space plus ≡ false
  unfolding is_space
  plus_not_space = refl

  -- Each number that the API accepts is encoded by `encode_address`, and decoded from what this
  -- gives to the same number; there are at most 20 digits and half as many octets, rounded up.
  pub decode_address-encode_address :
      (number : Text)
      → is_e164 number ≡ true
      → (a : Address) × (encode_address t number ≡ some a)
        × (decode_address a.digit_count a.toa a.bcd ≡ number)
        × (a.digit_count ≤ 20)
        × (length a.bcd ≡ (a.digit_count + 1) / 2)
        × (a.toa < 256)
  unfolding is_e164 drop_plus encode_address decode_address starts_with
  decode_address-encode_address [] h = absurd (ground arith)
  decode_address-encode_address (c ∷ s) h = elim (Bool-cases (c == plus)) [
    | inl is_plus ↦
        let ds = all-AreDigits s (ground arith) in
        let e43 : c ≡ plus = (==_iff c plus).0 is_plus in
        let blank : is_space c ≡ false = rw e43 plus_not_space in
        let st = strip-no_space (c ∷ s) (blank, AreDigits-no_space s ds) in
        let (bs, e, back, n) = encode_digits_lem 0x91 s ds (ground arith) in
        (
          record { digit_count = length s; toa = 0x91; bcd = bs },
          rw st (rw (is_plus) e),
          ap₂ (λ x xs. x ∷ xs) (sym e43) back,
          ground arith,
          n,
          omega arith,
        )
    | inr no_plus ↦
        let ds = all-AreDigits (c ∷ s) (ground arith) in
        let st = strip-no_space (c ∷ s) (AreDigits-no_space (c ∷ s) ds) in
        let (bs, e, back, n) = encode_digits_lem 0x81 (c ∷ s) ds (omega arith) in
        (
          record { digit_count = length (c ∷ s); toa = 0x81; bcd = bs },
          rw (st, no_plus) e,
          back,
          ground arith,
          n,
          omega arith,
        )
  ]
