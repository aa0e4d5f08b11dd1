-- ===== src/Codec/Utf16/RoundTrip.antt =====
-- What was encoded is decoded.
use generic_text_gateway.Common.{
  total, >>=-eq-some, ltb, ltb→le, Bool-cases, length, All, nat_eq, Text, Bytes, text_eq, ℕ, ◌+◌,
  ◌-◌, ◌*◌, ◌/◌, ◌%◌, ◌<◌, ◌≡◌, refl, ap, ◌∙◌, inl, inr, false, some, [], ◌∷◌, ◌++◌, arith,
}
use generic_text_gateway.Codec.Utf16.{
  ucs2_cost, is_surrogate, unit, utf16_char, utf16_encode, utf16_decode,
}

-- A character that Unicode has, no surrogate.
abbrev pub IsScalar : ℕ → Type 0
IsScalar c = (c < 0x110000) × (is_surrogate c ≡ false)

-- One unit that is no surrogate, whatever follows.
utf16_decode-unit :
    (a b : ℕ) (rest : Bytes)
    → is_surrogate (a * 256 + b) ≡ false
    → utf16_decode (a ∷ b ∷ rest) ≡ (a * 256 + b) ∷ utf16_decode rest
unfolding utf16_decode
utf16_decode-unit a b [] h = ground arith
utf16_decode-unit a b (c ∷ []) h = ground arith
utf16_decode-unit a b (c ∷ d ∷ rest) h = ground arith

-- A surrogate pair.
utf16_decode-pair :
    (hi lo : ℕ) (rest : Bytes)
    → hi < 0x400
    → lo < 0x400
    → utf16_decode (unit (0xD800 + hi) ++ unit (0xDC00 + lo) ++ rest)
      ≡ (0x10000 + hi * 0x400 + lo) ∷ utf16_decode rest
unfolding utf16_decode
utf16_decode-pair hi lo rest p q =
    let e : (0xD800 + hi) / 256 * 256 + (0xD800 + hi) % 256 ≡ 0xD800 + hi = omega arith in
    let e' : (0xDC00 + lo) / 256 * 256 + (0xDC00 + lo) % 256 ≡ 0xDC00 + lo = omega arith in
    rw (e, e') (ground arith)

-- One character, whatever follows.
utf16_decode-char :
    (c : ℕ) (rest : Bytes) {a : Bytes}
    → c < 0x110000
    → utf16_char c ≡ some a
    → utf16_decode (a ++ rest) ≡ c ∷ utf16_decode rest
unfolding utf16_char
utf16_decode-char c rest {a} h e = elim (Bool-cases (is_surrogate c)) [
  | inl bad ↦ ground arith
  | inr plain ↦ elim (Bool-cases (ltb c 0x10000)) [
    | inl short ↦
        let w : c / 256 * 256 + c % 256 ≡ c = omega arith in
        let ea : unit c ≡ a = ground arith in
        rw (← ea) (utf16_decode-unit (c / 256) (c % 256) rest (rw w plain) ∙ rw w)
    | inr long ↦
        let hi = (c - 0x10000) / 0x400 in
        let lo = (c - 0x10000) % 0x400 in
        let ea : unit (0xD800 + hi) ++ unit (0xDC00 + lo) ≡ a = ground arith in
        let back : 0x10000 + hi * 0x400 + lo ≡ c = omega (arith, ltb→le c 0x10000 long) in
        rw (← ea) (utf16_decode-pair hi lo rest (omega arith) (omega arith) ∙ rw back)
  ]
]

-- A text that was encoded in UTF-16-BE is decoded to itself.
pub utf16_decode-utf16_encode :
    (text : Text) {bs : Bytes}
    → All (λ c. c < 0x110000) text
    → utf16_encode text ≡ some bs
    → utf16_decode bs ≡ text
unfolding utf16_encode
utf16_decode-utf16_encode [] h e = unfold utf16_decode in ground arith
utf16_decode-utf16_encode (c ∷ text) {bs} h e =
    let (a, ea, e') = >>=-eq-some (utf16_char c) _ e in
    let (b, eb, e'') = >>=-eq-some (utf16_encode text) _ e' in
    let eq : a ++ b ≡ bs = ground arith in
    rw (← eq)
      (utf16_decode-char c b h.0 ea ∙ ap (λ r. c ∷ r) (utf16_decode-utf16_encode text h.1 eb))

-- A text is encoded exactly when it holds no surrogate; each character takes two octets or four.
pub utf16_encode-length :
    (text : Text)
    → All (λ c. is_surrogate c ≡ false) text
    → (bs : Bytes) × (utf16_encode text ≡ some bs) × (length bs ≡ total ucs2_cost text)
unfolding utf16_encode utf16_char
utf16_encode-length [] h = ([], refl, refl)
utf16_encode-length (c ∷ text) h =
    let (b, eb, lb) = utf16_encode-length text h.1 in
    elim (Bool-cases (ltb c 0x10000)) [
      | inl short ↦ (unit c ++ b, rw (h.0, short, eb), rw short (omega (arith, lb)))
      | inr long ↦ (
        (unit (0xD800 + (c - 0x10000) / 0x400) ++ unit (0xDC00 + (c - 0x10000) % 0x400)) ++ b,
        rw (h.0, long, eb),
        rw long (omega (arith, lb)),
      )
    ]
