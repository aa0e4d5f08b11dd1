-- ===== src/Codec/Alphabet/Length.antt =====
-- When a text can be encoded, and in how many septets.
use generic_text_gateway.Common.{
  total, Bool-cases, Option-cases, length, all, length-append, All, All-append, nat_eq, lookup-all,
  Text, text_eq, ℕ, ◌<◌, ◌≡◌, refl, inl, inr, Bool, true, false, not, none, some, List, [], ◌∷◌,
  ◌++◌, arith,
}
use generic_text_gateway.Codec.Alphabet.{
  gsm7_ext, escape, index_from, gsm7_map, gsm7_ext_get, is_some, is_gsm7_char, is_gsm7, septet_len,
  char_septets, to_septets,
}
use generic_text_gateway.Codec.Alphabet.RoundTrip.{gsm7_map_lem, gsm7_ext_get_lem}

abbrev not_basic : ℕ × ℕ → Bool
not_basic e = not (is_some (gsm7_map e.0))

-- No extension character is a basic one.
ext_not_basic : all not_basic gsm7_ext ≡ true
unfolding gsm7_map index_from
ext_not_basic = refl

gsm7_map_of_ext : (c : ℕ) {v : ℕ} → gsm7_ext_get c ≡ some v → gsm7_map c ≡ none
unfolding gsm7_ext_get
gsm7_map_of_ext c {v} h =
    let p : not_basic (c, v) ≡ true = lookup-all not_basic c gsm7_ext ext_not_basic h in
    ground arith

-- What `char_septets` gives: as many septets as `septet_len` says, each below 128.
pub char_septets_lem :
    (c : ℕ)
    → is_gsm7_char c ≡ true
    → (a : List ℕ) × (char_septets c ≡ some a) × (length a ≡ septet_len c) × All (λ s. s < 128) a
unfolding is_gsm7_char char_septets septet_len
char_septets_lem c h = elim (Option-cases (gsm7_ext_get c)) [
  | inr (v, e) ↦ (
    escape ∷ v ∷ [],
    ground (arith, gsm7_map_of_ext c e),
    ground arith,
    ground (arith, gsm7_ext_get_lem c e),
  )
  | inl no_ext ↦ elim (Option-cases (gsm7_map c)) [
    | inl no_basic ↦ absurd (ground arith)
    | inr (s, e) ↦ (s ∷ [], ground arith, ground arith, ground (arith, gsm7_map_lem c e))
  ]
]

-- Each text that `is_gsm7` accepts is encoded, in numbers below 128, as many as `septet_len`
-- counts.
pub to_septets-is_gsm7 :
    (text : Text)
    → is_gsm7 text ≡ true
    → (ss : List ℕ) × (to_septets text ≡ some ss)
      × (length ss ≡ total septet_len text)
      × All (λ s. s < 128) ss
unfolding is_gsm7 to_septets
to_septets-is_gsm7 [] h = ([], refl, refl, tt)
to_septets-is_gsm7 (c ∷ text) h =
    let (a, ea, la, ba) = char_septets_lem c (ground arith) in
    let (b, eb, lb, bb) = to_septets-is_gsm7 text (ground arith) in
    (
      a ++ b,
      rw (ea, eb),
      omega (arith, length-append a b, la, lb),
      All-append (λ s. s < 128) a b ba bb,
    )

-- On each text that `is_gsm7` rejects, `to_septets` raises.
pub to_septets-not-is_gsm7 : (text : Text) → is_gsm7 text ≡ false → to_septets text ≡ none
unfolding is_gsm7 is_gsm7_char to_septets char_septets
to_septets-not-is_gsm7 [] h = ground arith
to_septets-not-is_gsm7 (c ∷ text) h = ground (arith, to_septets-not-is_gsm7 text)

-- What `to_septets` gives are septets.
pub AreSeptets-to_septets :
    (text : Text) {ss : List ℕ} → to_septets text ≡ some ss → All (λ s. s < 128) ss
AreSeptets-to_septets text {ss} h = elim (Bool-cases (is_gsm7 text)) [
  | inr no_gsm7 ↦ cc (to_septets-not-is_gsm7 text no_gsm7)
  | inl gsm7 ↦
      let (ss', e, n, below) = to_septets-is_gsm7 text gsm7 in
      let same : ss' ≡ ss = ground arith in rw (← same) below
]
