-- ===== src/Codec/Septets/Bits.antt =====
-- `val | (s << shift)` is a sum when `val` is below `2 ** shift`.
use Prim.Native.Nat.{bit_or, bit_or-bitwise, digits}
use native.Mathlib.Nat.{pow-suc}
use generic_text_gateway.Common.{
  nat_eq, text_eq, ℕ, zero, suc, ◌+◌, ◌*◌, ◌/◌, ◌^◌, ◌≤◌, ◌<◌, max, ◌≡◌, refl, ◌∙◌, arith,
}

-- The same of the digit recursion that `bit_or` stands for, on fuel `n`.
or_digits-shifted :
    (n k a m b : ℕ) → a ≤ n → a < 2 ^ k → b ≡ m * 2 ^ k → digits (λ b. b) max n a b ≡ a + b
or_digits-shifted zero k zero m b p h e = omega arith
or_digits-shifted (suc n) k zero m b p h e = omega arith
or_digits-shifted zero k (suc a) m b p h e = absurd (omega arith)
or_digits-shifted (suc n) zero (suc a) m b p h e = absurd (omega arith)
or_digits-shifted (suc n) (suc k) (suc a) m b p h e =
    let twice : m * 2 ^ suc k ≡ m * 2 ^ k * 2 = rw (pow-suc 2 k) (omega arith) in
    let half : b / 2 ≡ m * 2 ^ k = omega (arith, twice) in
    omega (
      arith,
      twice,
      or_digits-shifted n k (suc a / 2) m (b / 2) (omega arith) (omega (arith, pow-suc 2 k)) half,
    )

-- Disjoint bits are added.
pub bit_or-shifted : (k a m : ℕ) → a < 2 ^ k → bit_or a (m * 2 ^ k) ≡ a + m * 2 ^ k
bit_or-shifted k a m h =
    bit_or-bitwise a (m * 2 ^ k) ∙ or_digits-shifted a k a m (m * 2 ^ k) (omega arith) h refl

-- The same with the shifted number first.
or_digits-low :
    (n k m a b : ℕ) → a ≤ n → a ≡ m * 2 ^ k → b < 2 ^ k → digits (λ b. b) max n a b ≡ a + b
or_digits-low zero k m zero b p e h = omega arith
or_digits-low (suc n) k m zero b p e h = omega arith
or_digits-low zero k m (suc a) b p e h = absurd (omega arith)
or_digits-low (suc n) zero m (suc a) b p e h = omega (
  arith,
  or_digits-low n zero (suc a / 2) (suc a / 2) (b / 2) (omega arith) (omega arith) (omega arith),
)
or_digits-low (suc n) (suc k) m (suc a) b p e h =
    let twice : m * 2 ^ suc k ≡ m * 2 ^ k * 2 = rw (pow-suc 2 k) (omega arith) in
    omega (
      arith,
      twice,
      or_digits-low n k m (suc a / 2) (b / 2) (omega arith) (omega (arith, twice))
          (omega (arith, pow-suc 2 k)),
    )

pub bit_or-low : (k m b : ℕ) → b < 2 ^ k → bit_or (m * 2 ^ k) b ≡ m * 2 ^ k + b
bit_or-low k m b h =
    bit_or-bitwise (m * 2 ^ k) b ∙ or_digits-low (m * 2 ^ k) k m (m * 2 ^ k) b (omega arith) refl h
