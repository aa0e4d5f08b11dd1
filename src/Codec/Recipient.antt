-- ===== src/Codec/Recipient.antt =====
-- `E164_RE` of server/gtg_server/api.py and `_E164_RE` of server/gtg_server/modem/worker.py: the
-- recipients that the gateway accepts, `\+?[0-9]{3,20}`.
use generic_text_gateway.Common.{
  leb, ◌==◌, if◌then◌else◌, length, all, nat_eq, Text, text_eq, is_ascii_digit, ℕ, Bool, ◌&&◌, [],
  ◌∷◌,
}

abbrev pub plus : ℕ
plus = b'+'

-- `\+?`
unfoldable pub drop_plus : Text → Text
drop_plus [] = []
drop_plus (c ∷ s) = if c == plus then s else c ∷ s

-- `fullmatch`
unfoldable pub is_e164 : Text → Bool
is_e164 number =
    let digits = drop_plus number in
    all is_ascii_digit digits && leb 3 (length digits) && leb (length digits) 20
