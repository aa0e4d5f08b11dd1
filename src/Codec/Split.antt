-- ===== src/Codec/Split.antt =====
-- `_split_gsm7` and `_split_ucs2` of server/gtg_server/modem/sms_codec.py, one loop at two costs.
pub mod Bounds
use generic_text_gateway.Common.{
  ◌>>=◌, ◌>>◌, ltb, nat_eq, Text, text_eq, ℕ, ◌+◌, true, false, Option, some, List, [], ◌∷◌, ◌++◌,
  arith,
}
use generic_text_gateway.Codec.Alphabet.{septet_len}
use generic_text_gateway.Codec.Utf16.{utf16_encode, ucs2_cost}

abbrev pub single_gsm7 : ℕ
single_gsm7 = 160

abbrev pub multi_gsm7 : ℕ
multi_gsm7 = 153

abbrev pub single_ucs2 : ℕ
single_ucs2 = 140

abbrev pub multi_ucs2 : ℕ
multi_ucs2 = 134

abbrev last_chunk : Text → List Text
last_chunk [] = []
last_chunk (c ∷ cur) = (c ∷ cur) ∷ []

-- `cur` and its cost are the chunk in the making.
unfoldable pub split_loop : (ℕ → ℕ) → ℕ → Text → ℕ → Text → List Text
split_loop cost limit cur cur_len [] = last_chunk cur
split_loop cost limit cur cur_len (c ∷ text) = elim (ltb limit (cur_len + cost c)) [
  | true ↦ cur ∷ split_loop cost limit (c ∷ []) (cost c) text
  | false ↦ split_loop cost limit (cur ++ c ∷ []) (cur_len + cost c) text
]

unfoldable pub split_gsm7 : Text → List Text
unfolding split_loop
split_gsm7 text = split_loop septet_len multi_gsm7 [] 0 text

-- Encoding each character raises at a surrogate.
unfoldable pub split_ucs2 : Text → Option (List Text)
unfolding split_loop
split_ucs2 text = do _ ← utf16_encode text; some (split_loop ucs2_cost multi_ucs2 [] 0 text)
