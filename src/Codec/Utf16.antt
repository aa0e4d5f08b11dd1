-- ===== src/Codec/Utf16.antt =====
-- Python's "utf-16-be" codec, which server/gtg_server/modem/sms_codec.py uses for texts outside the
-- GSM alphabet. Encoding raises at a lone surrogate; decoding replaces what it cannot read.
pub mod RoundTrip
use generic_text_gateway.Common.{
  ◌>>=◌, ◌>>◌, ltb, leb, if◌then◌else◌, nat_eq, Text, Bytes, text_eq, ℕ, ◌+◌, ◌-◌, ◌*◌, ◌/◌, ◌%◌,
  Bool, ◌&&◌, Option, none, some, [], ◌∷◌, ◌++◌, arith,
}
use generic_text_gateway.Codec.Alphabet.{replacement}

abbrev pub is_surrogate : ℕ → Bool
is_surrogate c = leb 0xD800 c && leb c 0xDFFF

-- Two octets of one 16-bit unit.
abbrev pub unit : ℕ → Bytes
unit w = (w / 256) ∷ (w % 256) ∷ []

-- `c.encode("utf-16-be")`; `none` is the UnicodeEncodeError.
unfoldable pub utf16_char : ℕ → Option Bytes
utf16_char c =
    if is_surrogate c
    then none
    else if ltb c 0x10000
    then some (unit c)
    else some (unit (0xD800 + (c - 0x10000) / 0x400) ++ unit (0xDC00 + (c - 0x10000) % 0x400))

unfoldable pub utf16_encode : Text → Option Bytes
utf16_encode [] = some []
utf16_encode (c ∷ text) = do a ← utf16_char c; b ← utf16_encode text; some (a ++ b)

abbrev pub is_high : ℕ → Bool
is_high w = leb 0xD800 w && leb w 0xDBFF

abbrev pub is_low : ℕ → Bool
is_low w = leb 0xDC00 w && leb w 0xDFFF

-- `bs.decode("utf-16-be", errors="replace")`: an odd octet at the end, a high surrogate with no unit
-- after it and a surrogate that is not half of a pair become U+FFFD.
unfoldable pub utf16_decode : Bytes → Text
utf16_decode [] = []
utf16_decode (a ∷ []) = replacement ∷ []
utf16_decode (a ∷ b ∷ []) =
    if is_surrogate (a * 256 + b) then replacement ∷ [] else (a * 256 + b) ∷ []
utf16_decode (a ∷ b ∷ c ∷ []) =
    if is_high (a * 256 + b)
    then replacement ∷ []
    else if is_low (a * 256 + b)
    then replacement ∷ replacement ∷ []
    else (a * 256 + b) ∷ replacement ∷ []
utf16_decode (a ∷ b ∷ c ∷ d ∷ bs) =
    let w = a * 256 + b in
    let v = c * 256 + d in
    let after_pair = utf16_decode bs in
    let after_unit = utf16_decode (c ∷ d ∷ bs) in
    if is_high w && is_low v
    then (0x10000 + (w - 0xD800) * 0x400 + (v - 0xDC00)) ∷ after_pair
    else if is_surrogate w
    then replacement ∷ after_unit
    else w ∷ after_unit

-- `len(c.encode("utf-16-be"))` of a character that is no surrogate
abbrev pub ucs2_cost : ℕ → ℕ
ucs2_cost c = if ltb c 0x10000 then 2 else 4
