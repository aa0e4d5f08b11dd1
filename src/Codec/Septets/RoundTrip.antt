-- ===== src/Codec/Septets/RoundTrip.antt =====
-- Unpacking undoes packing.
use native.Mathlib.Nat.{
  div-div-eq-div-mul, pow-le-pow_right, one-le-pow, mul-le-mul_right, mul_comm, zero-add, div-one,
  mul-div_right,
}
use native.Mathlib.Numerals.{towards_suc}
use Prim.Native.Nat.{bit_or}
use generic_text_gateway.Common.{
  leb, ◌==◌, leb→le, ==_iff, Bool-cases, length, All, nat_eq, Bytes, text_eq, ℕ, zero, suc, ◌+◌,
  ◌-◌, ◌*◌, ◌/◌, ◌%◌, ◌^◌, ◌≤◌, ◌<◌, ◌≡◌, refl, sym, ap, ap₂, ◌∙◌, inl, inr, true, List, [], ◌∷◌,
  ◌++◌, arith,
}
use generic_text_gateway.Codec.Septets.{
  drain, pack_loop, pack_septets, from_bytes, unpack_from, unpack_septets,
}
use generic_text_gateway.Codec.Septets.Bits.{bit_or-shifted}

-- The number whose base-128 digits, lowest first, are the septets.
unfoldable pub value : List ℕ → ℕ
value [] = 0
value (s ∷ ss) = s + 128 * value ss

abbrev pub AreSeptets : List ℕ → Type 0
AreSeptets = All (λ s. s < 128)

pow_eight : (n : ℕ) → 2 ^ (n + 8) ≡ 256 * 2 ^ n
pow_eight n = simp towards_suc (omega arith)

pow_seven : (n : ℕ) → 2 ^ (n + 7) ≡ 128 * 2 ^ n
pow_seven n = simp towards_suc (omega arith)

pow-sub_eight : (n : ℕ) → leb 8 n ≡ true → 2 ^ n ≡ 256 * 2 ^ (n - 8)
pow-sub_eight n h =
    let e : n ≡ n - 8 + 8 = omega (arith, leb→le 8 n h) in ap (λ k. 2 ^ k) e ∙ pow_eight (n - 8)

-- `drain` takes off whole octets: what is left is below its own shift.
pub drain-bounds :
    (fuel val shift : ℕ)
    → shift ≤ fuel
    → val < 2 ^ shift
    → ((drain fuel val shift).shift < 8)
      × ((drain fuel val shift).val < 2 ^ (drain fuel val shift).shift)
unfolding drain
drain-bounds zero val shift p h = (omega arith, h)
drain-bounds (suc fuel) val shift p h = elim (Bool-cases (leb 8 shift)) [
  | inl more ↦ rw more (
      drain-bounds fuel (val / 256) (shift - 8) (omega arith)
        (omega (arith, pow-sub_eight shift more)))
  | inr done ↦ rw done (ground arith, h)
]

-- The octets that `drain` writes, and then those of what it leaves, are those of what it got.
from_bytes-drain :
    (fuel val shift : ℕ) (rest : Bytes) (w : ℕ)
    → shift ≤ fuel
    → from_bytes rest ≡ (drain fuel val shift).val + 2 ^ (drain fuel val shift).shift * w
    → from_bytes ((drain fuel val shift).octets ++ rest) ≡ val + 2 ^ shift * w
unfolding drain from_bytes
from_bytes-drain zero val shift rest w p h = h
from_bytes-drain (suc fuel) val shift rest w p h = elim (Bool-cases (leb 8 shift)) [
  | inl more ↦
      let e = pow-sub_eight shift more in
      let ih =
        from_bytes-drain fuel (val / 256) (shift - 8) rest w (omega arith)
          (rw (more, drain) at h) in
      rw (more, drain) (omega (arith, ih, ap (λ (t : ℕ). t * w) e))
  | inr done ↦
      let h' : from_bytes rest ≡ val + 2 ^ shift * w = rw (done, drain) at h in rw (done, drain) h'
]

-- Packing keeps the number, shifted past the fill bits.
from_bytes-pack_loop :
    (ss : List ℕ) (val shift : ℕ)
    → shift < 8
    → val < 2 ^ shift
    → AreSeptets ss
    → from_bytes (pack_loop val shift ss) ≡ val + 2 ^ shift * value ss
unfolding pack_loop value from_bytes
from_bytes-pack_loop [] val shift p h a = elim (Bool-cases (shift == 0)) [
  | inl z ↦
      let one : 2 ^ shift ≡ 1 = ap (λ k. 2 ^ k) ((==_iff shift 0).0 z) in rw z (omega (arith, one))
  | inr nz ↦
      let octet : 2 ^ shift ≤ 2 ^ 8 =
        pow-le-pow_right {n = 2} (omega arith) {i = shift} {j = 8} (omega arith) in
      rw nz (omega arith)
]
from_bytes-pack_loop (s ∷ ss) val shift p h a =
    let same : s % 128 ≡ s = omega (arith, a.0) in
    let sum : bit_or val (s % 128 * 2 ^ shift) ≡ val + s * 2 ^ shift =
      rw same (bit_or-shifted shift val s h) in
    let e = pow_seven shift in
    let small : val + s * 2 ^ shift < 2 ^ (shift + 7) =
      omega (arith, e, mul-le-mul_right {m = s} {n = 127} (2 ^ shift) (omega (arith, a.0))) in
    let (p', h') = drain-bounds (shift + 7) (val + s * 2 ^ shift) (shift + 7) (omega arith) small in
    rw sum (
      omega (
        arith,
        ap (λ (t : ℕ). t * value ss) e,
        from_bytes-drain (shift + 7) (val + s * 2 ^ shift) (shift + 7) _ (value ss) (omega arith)
            (from_bytes-pack_loop ss _ _ p' h' a.1),
      ))

-- Unpacking reads the digits of the number from position `i` on.
unpack_from-value :
    (ss : List ℕ) (i val : ℕ)
    → AreSeptets ss
    → val / 2 ^ (7 * i) ≡ value ss
    → unpack_from (length ss) i val ≡ ss
unfolding unpack_from value
unpack_from-value [] i val a h = refl
unpack_from-value (s ∷ ss) i val a h =
    let e : 2 ^ (7 * (i + 1)) ≡ 2 ^ (7 * i) * 128 =
      ap (λ k. 2 ^ k) (omega arith) ∙ pow_seven (7 * i) ∙ mul_comm 128 (2 ^ (7 * i)) in
    let next : val / 2 ^ (7 * (i + 1)) ≡ value ss =
      rw e (sym (div-div-eq-div-mul val (2 ^ (7 * i)) 128) ∙ rw h (omega (arith, a.0))) in
    ap₂ (λ x xs. x ∷ xs) (rw h (omega (arith, a.0))) (unpack_from-value ss (i + 1) val a.1 next)

-- Numbers below 128 that are packed behind fewer than eight fill bits are unpacked as they were.
pub unpack_septets-pack_septets :
    (ss : List ℕ) (fill : ℕ)
    → fill < 8
    → AreSeptets ss
    → unpack_septets (pack_septets ss fill) (length ss) fill ≡ ss
unfolding unpack_septets pack_septets
unpack_septets-pack_septets ss fill p a =
    let pos : 0 < 2 ^ fill = one-le-pow fill 2 (omega arith) in
    let sum : from_bytes (pack_loop 0 fill ss) ≡ 2 ^ fill * value ss =
      from_bytes-pack_loop ss 0 fill p pos a ∙ zero-add (2 ^ fill * value ss) in
    rw sum (
      unpack_from-value ss 0 (2 ^ fill * value ss / 2 ^ fill) a
        (div-one (2 ^ fill * value ss / 2 ^ fill) ∙ mul-div_right (value ss) pos))
