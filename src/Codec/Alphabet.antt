-- ===== src/Codec/Alphabet.antt =====
-- The GSM 7-bit alphabet of server/gtg_server/modem/sms_codec.py: `GSM7_BASIC`, `GSM7_EXT`, the maps
-- made of them, and the conversions between text and septets.
pub mod RoundTrip
pub mod Length
use generic_text_gateway.Common.{
  ℕ, suc, Bool, true, false, not, ◌&&◌, ◌||◌, Option, none, some, List, [], ◌∷◌, ◌++◌, ltb, ◌==◌,
  if◌then◌else◌, all, get_elem?, Text, lookup, nat_eq,
}

-- `GSM7_BASIC` by code point: the index is the septet.
abbrev pub gsm7_basic : List ℕ
gsm7_basic =
    64 ∷ 163 ∷ 36 ∷ 165 ∷ 232 ∷ 233 ∷ 249 ∷ 236 ∷ 242 ∷ 199 ∷ 10 ∷ 216 ∷ 248 ∷ 13 ∷ 197 ∷ 229 ∷ 916
    ∷ 95 ∷ 934 ∷ 915 ∷ 923 ∷ 937 ∷ 928 ∷ 936 ∷ 931 ∷ 920 ∷ 926 ∷ 27 ∷ 198 ∷ 230 ∷ 223 ∷ 201 ∷ 32
    ∷ 33 ∷ 34 ∷ 35 ∷ 164 ∷ 37 ∷ 38 ∷ 39 ∷ 40 ∷ 41 ∷ 42 ∷ 43 ∷ 44 ∷ 45 ∷ 46 ∷ 47 ∷ 48 ∷ 49 ∷ 50 ∷ 51
    ∷ 52 ∷ 53 ∷ 54 ∷ 55 ∷ 56 ∷ 57 ∷ 58 ∷ 59 ∷ 60 ∷ 61 ∷ 62 ∷ 63 ∷ 161 ∷ 65 ∷ 66 ∷ 67 ∷ 68 ∷ 69 ∷ 70
    ∷ 71 ∷ 72 ∷ 73 ∷ 74 ∷ 75 ∷ 76 ∷ 77 ∷ 78 ∷ 79 ∷ 80 ∷ 81 ∷ 82 ∷ 83 ∷ 84 ∷ 85 ∷ 86 ∷ 87 ∷ 88 ∷ 89
    ∷ 90 ∷ 196 ∷ 214 ∷ 209 ∷ 220 ∷ 167 ∷ 191 ∷ 97 ∷ 98 ∷ 99 ∷ 100 ∷ 101 ∷ 102 ∷ 103 ∷ 104 ∷ 105
    ∷ 106 ∷ 107 ∷ 108 ∷ 109 ∷ 110 ∷ 111 ∷ 112 ∷ 113 ∷ 114 ∷ 115 ∷ 116 ∷ 117 ∷ 118 ∷ 119 ∷ 120 ∷ 121
    ∷ 122 ∷ 228 ∷ 246 ∷ 241 ∷ 252 ∷ 224 ∷ []

-- `GSM7_EXT`: what follows the escape septet for each extension character.
abbrev pub gsm7_ext : List (ℕ × ℕ)
gsm7_ext =
    (94, 0x14)
    ∷ (123, 0x28)
    ∷ (125, 0x29)
    ∷ (92, 0x2F)
    ∷ (91, 0x3C)
    ∷ (126, 0x3D)
    ∷ (93, 0x3E)
    ∷ (124, 0x40)
    ∷ (8364, 0x65)
    ∷ []

-- U+FFFD
abbrev pub replacement : ℕ
replacement = 0xFFFD

abbrev pub escape : ℕ
escape = 0x1B

-- The position of a character at or after `i`, the escape marker left out (`GSM7_MAP`).
unfoldable pub index_from : ℕ → ℕ → List ℕ → Option ℕ
index_from i c [] = none
index_from i c (x ∷ xs) =
    let rest = index_from (suc i) c xs in if x == c && not (c == escape) then some i else rest

-- `GSM7_MAP.get(c)`
unfoldable pub gsm7_map : ℕ → Option ℕ
unfolding index_from
gsm7_map c = index_from 0 c gsm7_basic

-- `GSM7_EXT.get(c)`
unfoldable pub gsm7_ext_get : ℕ → Option ℕ
unfolding lookup
gsm7_ext_get c = lookup c gsm7_ext

-- `GSM7_EXT_REV.get(s)`: the character of an extension septet.
unfoldable pub rev_lookup : ℕ → List (ℕ × ℕ) → Option ℕ
rev_lookup s [] = none
rev_lookup s ((c, v) ∷ m) = if v == s then some c else rev_lookup s m

abbrev pub is_some : Option ℕ → Bool
is_some none = false
is_some (some _) = true

-- one character of `is_gsm7`
unfoldable pub is_gsm7_char : ℕ → Bool
is_gsm7_char c = is_some (gsm7_map c) || is_some (gsm7_ext_get c)

unfoldable pub is_gsm7 : Text → Bool
is_gsm7 text = all is_gsm7_char text

unfoldable pub septet_len : ℕ → ℕ
septet_len c = elim (gsm7_ext_get c) [ none ↦ 1 | some _ ↦ 2 ]

-- The septets of one character; `none` is the ValueError.
unfoldable pub char_septets : ℕ → Option (List ℕ)
char_septets c = elim (gsm7_map c) [
  | some s ↦ some (s ∷ [])
  | none ↦ elim (gsm7_ext_get c) [ some v ↦ some (escape ∷ v ∷ []) | none ↦ none ]
]

abbrev pub append? : Option (List ℕ) → Option (List ℕ) → Option (List ℕ)
append? none b = none
append? (some a) none = none
append? (some a) (some b) = some (a ++ b)

unfoldable pub to_septets : Text → Option (List ℕ)
to_septets [] = some []
to_septets (c ∷ text) = append? (char_septets c) (to_septets text)

abbrev or_replacement : Option ℕ → ℕ
or_replacement none = replacement
or_replacement (some c) = c

-- The loop of `from_septets`, whose flag says that the last septet was the escape.
unfoldable pub from_septets_loop : Bool → List ℕ → Text
unfolding rev_lookup
from_septets_loop esc [] = []
from_septets_loop true (s ∷ ss) =
    or_replacement (rev_lookup s gsm7_ext) ∷ from_septets_loop false ss
from_septets_loop false (s ∷ ss) = elim (s == escape) [
  | true ↦ from_septets_loop true ss
  | false ↦
      (if ltb s 128 then or_replacement (get_elem? gsm7_basic s) else replacement)
      ∷ from_septets_loop false ss
]

unfoldable pub from_septets : List ℕ → Text
unfolding from_septets_loop
from_septets septets = from_septets_loop false septets
