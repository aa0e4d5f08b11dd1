-- ===== src/Codec/Septets/Length.antt =====
-- How many octets packing writes, and that they are octets.
use Prim.Native.Nat.{bit_or}
use generic_text_gateway.Common.{
  leb, ◌==◌, leb→le, Bool-cases, length, length-append, All, All-append, nat_eq, Bytes, text_eq, ℕ,
  zero, suc, ◌+◌, ◌-◌, ◌*◌, ◌/◌, ◌%◌, ◌^◌, ◌≤◌, ◌<◌, ◌≡◌, inl, inr, List, [], ◌∷◌, arith,
}
use generic_text_gateway.Codec.Septets.{drain, pack_loop, pack_septets}

abbrev pub AreOctets : Bytes → Type 0
AreOctets = All (λ b. b < 256)

-- `drain` writes an octet for each eight places of the shift.
drain-octets :
    (fuel val shift : ℕ)
    → shift ≤ fuel
    → (8 * length (drain fuel val shift).octets + (drain fuel val shift).shift ≡ shift)
      × ((drain fuel val shift).shift < 8)
      × AreOctets (drain fuel val shift).octets
unfolding drain
drain-octets zero val shift p = (omega arith, omega arith, tt)
drain-octets (suc fuel) val shift p = elim (Bool-cases (leb 8 shift)) [
  | inl more ↦
      let (n, r, o) =
        drain-octets fuel (val / 256) (shift - 8) (omega (arith, leb→le 8 shift more)) in
      rw more (omega (arith, n, leb→le 8 shift more), r, (omega arith, o))
  | inr done ↦ rw done (omega arith, ground arith, tt)
]

pack_loop-octets :
    (ss : List ℕ) (val shift : ℕ)
    → shift < 8
    → (length (pack_loop val shift ss) ≡ (shift + 7 * length ss + 7) / 8)
      × AreOctets (pack_loop val shift ss)
unfolding pack_loop
pack_loop-octets [] val shift p = elim (Bool-cases (shift == 0)) [
  | inl z ↦ rw z (ground arith, tt)
  | inr nz ↦ rw nz (ground arith, (omega arith, tt))
]
pack_loop-octets (s ∷ ss) val shift p =
    let d = drain (shift + 7) (bit_or val (s % 128 * 2 ^ shift)) (shift + 7) in
    let (n, r, o) =
      drain-octets (shift + 7) (bit_or val (s % 128 * 2 ^ shift)) (shift + 7) (omega arith) in
    let (n', o') = pack_loop-octets ss d.val d.shift r in
    (
      omega (arith, length-append d.octets (pack_loop d.val d.shift ss), n, n'),
      All-append (λ b. b < 256) d.octets (pack_loop d.val d.shift ss) o o',
    )

-- Behind fewer than eight fill bits, packing gives octets, as many as the fill bits and seven bits
-- for each septet take, rounded up.
pub pack_septets-octets :
    (ss : List ℕ) (fill : ℕ)
    → fill < 8
    → (length (pack_septets ss fill) ≡ (fill + 7 * length ss + 7) / 8)
      × AreOctets (pack_septets ss fill)
unfolding pack_septets
pack_septets-octets ss fill p = pack_loop-octets ss 0 fill p
