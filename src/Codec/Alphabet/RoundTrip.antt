-- ===== src/Codec/Alphabet/RoundTrip.antt =====
-- `from_septets` undoes `to_septets`.
use generic_text_gateway.Common.{
  ◌==◌, Bool-cases, Option-cases, length, get_elem?, nat_eq, Text, text_eq, ℕ, suc, ◌+◌, ◌<◌, ◌≡◌,
  subst, ◌≢◌, inl, inr, false, not, ◌&&◌, some, List, [], ◌∷◌, ◌++◌, arith,
}
use generic_text_gateway.Codec.Alphabet.{
  gsm7_basic, gsm7_ext, escape, index_from, gsm7_map, gsm7_ext_get, rev_lookup, char_septets,
  to_septets, from_septets_loop, from_septets,
}

-- Where `index_from` finds a character: its position, which is in range; the marker is never found.
record IsAt (c i k : ℕ) (xs : List ℕ) : Type 0 where
  at : ℕ
  sum : i ≡ k + at
  below : at < length xs
  item : get_elem? xs at ≡ some c
  ne_escape : c ≢ escape

index_from-IsAt : (k c : ℕ) (xs : List ℕ) {i : ℕ} → index_from k c xs ≡ some i → IsAt c i k xs
unfolding index_from
index_from-IsAt k c [] h = cc
index_from-IsAt k c (x ∷ xs) {i} h = elim (Bool-cases (x == c && not (c == escape))) [
  | inl here ↦ record {
    at = 0;
    sum = ground arith;
    below = omega arith;
    item = ground arith;
    ne_escape = ground arith;
  }
  | inr later ↦
      let r = index_from-IsAt (suc k) c xs {i = i} (ground arith) in
      record {
        at = suc r.at;
        sum = omega (arith, r.sum);
        below = omega (arith, r.below);
        item = r.item;
        ne_escape = r.ne_escape;
      }
]

-- A basic character's septet is below 128, is not the escape, and stands for the character.
pub gsm7_map_lem :
    (c : ℕ) {s : ℕ}
    → gsm7_map c ≡ some s
    → (s < 128) × (get_elem? gsm7_basic s ≡ some c) × (s ≢ escape)
unfolding gsm7_map
gsm7_map_lem c {s} h =
    let r = index_from-IsAt 0 c gsm7_basic h in
    let e : s ≡ r.at = omega (arith, r.sum) in
    let item : get_elem? gsm7_basic s ≡ some c = rw e r.item in
    (
      omega (arith, r.below),
      item,
      λ bad. r.ne_escape (ground (arith, subst (λ k. get_elem? gsm7_basic k ≡ some c) bad item)),
    )

-- An extension septet is below 128 and stands for its character.
pub gsm7_ext_get_lem :
    (c : ℕ) {v : ℕ} → gsm7_ext_get c ≡ some v → (v < 128) × (rev_lookup v gsm7_ext ≡ some c)
unfolding gsm7_ext_get rev_lookup
gsm7_ext_get_lem c {v} h = ground arith

-- One character, whatever follows.
from_septets_loop-char_septets :
    (c : ℕ) (rest : List ℕ) {a : List ℕ}
    → char_septets c ≡ some a
    → from_septets_loop false (a ++ rest) ≡ c ∷ from_septets_loop false rest
unfolding char_septets from_septets_loop
from_septets_loop-char_septets c rest {a} h = elim (Option-cases (gsm7_map c)) [
  | inl no_basic ↦ elim (Option-cases (gsm7_ext_get c)) [
    | inl no_ext ↦ ground arith
    | inr (v, e) ↦ ground (arith, gsm7_ext_get_lem c e)
  ]
  | inr (s, e) ↦ let (low, item, plain) = gsm7_map_lem c e in ground (arith, low, item, plain)
]

-- A text that `to_septets` encodes is decoded from its septets, its extension characters too.
pub from_septets-to_septets :
    (text : Text) {ss : List ℕ} → to_septets text ≡ some ss → from_septets ss ≡ text
unfolding from_septets to_septets
from_septets-to_septets [] h = ground arith
from_septets-to_septets (c ∷ text) {ss} h = elim (Option-cases (char_septets c)) [
  | inl bad ↦ ground arith
  | inr (a, ea) ↦ elim (Option-cases (to_septets text)) [
    | inl bad ↦ ground arith
    | inr (b, eb) ↦
        let e : a ++ b ≡ ss = ground arith in
        rw (← e)
          (ground (arith, from_septets_loop-char_septets c b ea, from_septets-to_septets text eb))
  ]
]
