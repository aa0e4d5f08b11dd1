-- ===== src/Codec/Deliver/Reading.antt =====
-- Reading octets behind a prefix, and the octets of a hexadecimal text.
use native.Mathlib.Nat.{zero-add, suc-add}
use generic_text_gateway.Common.{
  length, take, drop, All, nat_eq, Bytes, text_eq, is_space, is_ascii_digit, ℕ, ◌+◌, ◌-◌, ◌*◌, ◌/◌,
  ◌%◌, ◌<◌, ◌≡◌, refl, ap, false, some, [], ◌∷◌, ◌++◌, arith,
}
use generic_text_gateway.Codec.Address.{hex_digit, upper}
use generic_text_gateway.Codec.Septets.Length.{AreOctets}
use generic_text_gateway.Codec.Submit.{hex}
use generic_text_gateway.Codec.Deliver.{octet_at, slice, unhex, is_ascii_space, from_hex}

pub octet_at-shift : (xs ys : Bytes) (k : ℕ) → octet_at (xs ++ ys) (length xs + k) ≡ octet_at ys k
unfolding octet_at
octet_at-shift [] ys k = rw zero-add
octet_at-shift (x ∷ xs) ys k = rw suc-add (octet_at-shift xs ys k)

pub octet_at-front : (xs ys : Bytes) → octet_at (xs ++ ys) (length xs) ≡ octet_at ys 0
unfolding octet_at
octet_at-front [] ys = refl
octet_at-front (x ∷ xs) ys = octet_at-front xs ys

pub drop-shift : (xs ys : Bytes) (k : ℕ) → drop (length xs + k) (xs ++ ys) ≡ drop k ys
drop-shift [] ys k = rw zero-add
drop-shift (x ∷ xs) ys k = rw suc-add (drop-shift xs ys k)

pub slice-shift :
    (xs ys : Bytes) (i j : ℕ) → slice (length xs + i) (length xs + j) (xs ++ ys) ≡ slice i j ys
unfolding slice
slice-shift xs ys i j =
    let e : length xs + j - (length xs + i) ≡ j - i = omega arith in rw (e, drop-shift xs ys i)

pub take-append : (xs ys : Bytes) → take (length xs) (xs ++ ys) ≡ xs
take-append [] ys = refl
take-append (x ∷ xs) ys = ap (λ r. x ∷ r) (take-append xs ys)

-- One octet as two digits.
hex_digit_lem :
    (x : ℕ)
    → x < 16
    → (unhex (upper (hex_digit x)) ≡ some x) × (is_space (upper (hex_digit x)) ≡ false)
unfolding unhex upper hex_digit is_ascii_digit is_space
hex_digit_lem x h = ground arith

abbrev Spaceless : ℕ → Type 0
Spaceless c = is_space c ≡ false

pub hex-no_space : (bs : Bytes) → AreOctets bs → All Spaceless (hex bs)
unfolding hex
hex-no_space [] h = tt
hex-no_space (b ∷ bs) h = (
  (hex_digit_lem (b / 16) (omega (arith, h.0))).1,
  ((hex_digit_lem (b % 16) (omega arith)).1, hex-no_space bs h.1),
)

ascii_space_is_space : (c : ℕ) → is_space c ≡ false → is_ascii_space c ≡ false
unfolding is_space
ascii_space_is_space c h = ground arith

pub from_hex-hex : (bs : Bytes) → AreOctets bs → from_hex (hex bs) ≡ some bs
unfolding from_hex hex
from_hex-hex [] h = refl
from_hex-hex (b ∷ bs) h =
    let (hi, blank) = hex_digit_lem (b / 16) (omega (arith, h.0)) in
    let (lo, blank') = hex_digit_lem (b % 16) (omega arith) in
    let e : b / 16 * 16 + b % 16 ≡ b = omega arith in
    rw (ascii_space_is_space (upper (hex_digit (b / 16))) blank)
      (rw (hi, lo, from_hex-hex bs h.1, e))
