-- ===== src/Codec/Septets.antt =====
-- `pack_septets` and `unpack_septets` of server/gtg_server/modem/sms_codec.py. `x & 0x7F` and
-- `x & 0xFF` are remainders, `<<` and `>>` powers of two.
pub mod Bits
pub mod RoundTrip
pub mod Length
use Prim.Native.Nat.{bit_or}
use generic_text_gateway.Common.{
  leb, ◌==◌, if◌then◌else◌, nat_eq, Bytes, text_eq, ℕ, zero, suc, ◌+◌, ◌-◌, ◌*◌, ◌/◌, ◌%◌, ◌^◌,
  List, [], ◌∷◌, ◌++◌, arith,
}

-- What the inner loop leaves: the octets written, then the value and the shift.
pub record Drained : Type 0 where
  pub octets : Bytes
  pub val : ℕ
  pub shift : ℕ

-- `while shift >= 8`, which takes at most `shift` rounds.
unfoldable pub drain : ℕ → ℕ → ℕ → Drained
drain zero val shift = record { octets = []; val = val; shift = shift }
drain (suc fuel) val shift =
    let r = drain fuel (val / 256) (shift - 8) in
    if leb 8 shift
    then record r { octets = (val % 256) ∷ r.octets }
    else record { octets = []; val = val; shift = shift }

unfoldable pub pack_loop : ℕ → ℕ → List ℕ → Bytes
unfolding drain
pack_loop val shift [] = if shift == 0 then [] else (val % 256) ∷ []
pack_loop val shift (s ∷ ss) =
    let d = drain (shift + 7) (bit_or val ((s % 128) * 2 ^ shift)) (shift + 7) in
    d.octets ++ pack_loop d.val d.shift ss

unfoldable pub pack_septets : List ℕ → ℕ → Bytes
unfolding pack_loop
pack_septets septets fill_bits = pack_loop 0 fill_bits septets

-- `int.from_bytes(data, "little")`
unfoldable pub from_bytes : Bytes → ℕ
from_bytes [] = 0
from_bytes (b ∷ bs) = b + 256 * from_bytes bs

-- `[(val >> (7 * i)) & 0x7F for i in range(i, i + count)]`
unfoldable pub unpack_from : ℕ → ℕ → ℕ → List ℕ
unpack_from zero i val = []
unpack_from (suc count) i val = (val / 2 ^ (7 * i) % 128) ∷ unpack_from count (i + 1) val

unfoldable pub unpack_septets : Bytes → ℕ → ℕ → List ℕ
unfolding from_bytes unpack_from
unpack_septets bytes count fill_bits = unpack_from count 0 (from_bytes bytes / 2 ^ fill_bits)
