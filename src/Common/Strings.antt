-- ===== src/Common/Strings.antt =====
-- Python's `str` as its code points and `bytes` as numbers below 256, with the string methods
-- that the source calls.
use Prim.Native.Nat.{ℕ, ◌-◌, ◌<◌}
use Prim.Native.Char.{code}
use Prim.Native.String.{String}
use mathlib.Core.Path.{◌≡◌, refl}
use mathlib.Core.Logic.{◌↔◌}
use mathlib.Core.Bool.{Bool, true, false, ◌&&◌, ◌||◌}
use mathlib.Core.Option.{Option, none, some}
use mathlib.Core.List.{List, [], ◌∷◌}
use native.Mathlib.Omega.{arith}
use generic_text_gateway.Common.Tests.{leb, ◌==◌, if◌then◌else◌, ==_iff}
use generic_text_gateway.Common.Lists.{all, All}
use generic_text_gateway.Common.Dict.{Keyed}

abbrev pub Text : Type 0
Text = List ℕ

abbrev pub Bytes : Type 0
Bytes = List ℕ

-- The code points of a literal.
abbrev pub codes : String → Text
codes String.[] = []
codes (String.◌∷◌ c s) = code c ∷ codes s

unfoldable pub text_beq : Text → Text → Bool
text_beq [] [] = true
text_beq [] (y ∷ ys) = false
text_beq (x ∷ xs) [] = false
text_beq (x ∷ xs) (y ∷ ys) = x == y && text_beq xs ys

pub text_beq_iff : (a b : Text) → (text_beq a b ≡ true) ↔ (a ≡ b)
unfolding text_beq
text_beq_iff [] [] = ground arith
text_beq_iff [] (y ∷ ys) = ground arith
text_beq_iff (x ∷ xs) [] = ground arith
text_beq_iff (x ∷ xs) (y ∷ ys) = ground (arith, text_beq_iff xs ys, ==_iff x y)

instance abbrev pub text_eq : Keyed Text
text_eq = record { same = text_beq; same_iff = text_beq_iff }

-- `s.startswith(p)`
unfoldable pub starts_with : Text → Text → Bool
starts_with s [] = true
starts_with [] (p ∷ ps) = false
starts_with (c ∷ s) (p ∷ ps) = c == p && starts_with s ps

-- `str.isspace` of one character: the code points that `str.strip` removes.
unfoldable pub is_space : ℕ → Bool
is_space c =
    leb 9 c && leb c 13
    || leb 28 c && leb c 32
    || c == 0x85
    || c == 0xA0
    || c == 0x1680
    || leb 0x2000 c && leb c 0x200A
    || c == 0x2028
    || c == 0x2029
    || c == 0x202F
    || c == 0x205F
    || c == 0x3000

unfoldable pub lstrip : Text → Text
lstrip [] = []
lstrip (c ∷ s) = let rest = lstrip s in if is_space c then rest else c ∷ s

abbrev rstrip_cons : ℕ → Text → Text
rstrip_cons c [] = if is_space c then [] else c ∷ []
rstrip_cons c (d ∷ s) = c ∷ d ∷ s

unfoldable pub rstrip : Text → Text
rstrip [] = []
rstrip (c ∷ s) = rstrip_cons c (rstrip s)

unfoldable pub strip : Text → Text
unfolding lstrip rstrip is_space
strip s = rstrip (lstrip s)

-- `0` to `9`
unfoldable pub is_ascii_digit : ℕ → Bool
is_ascii_digit c = leb b'0' c && leb c b'9'

-- What the source uses of Python's Unicode tables beyond ASCII: `str.isdigit` of a character, and
-- the value that `int` gives to a decimal digit. (A superscript two is a digit with no value.)
pub record DigitTable : Type 0 where
  pub is_digit : ℕ → Bool
  pub decimal : ℕ → Option ℕ
  pub is_digit_ascii : (c : ℕ) → c < 128 → is_digit c ≡ is_ascii_digit c
  pub decimal_ascii :
      (c : ℕ) → c < 128 → decimal c ≡ (if is_ascii_digit c then some (c - 48) else none)
  pub decimal_lt_ten : (c : ℕ) {d : ℕ} → decimal c ≡ some d → d < 10

-- `s.isdigit()`, false of the empty text
unfoldable pub is_digits : DigitTable → Text → Bool
is_digits t [] = false
is_digits t (c ∷ s) = all t.is_digit (c ∷ s)

pub ascii_lt_ten :
    (c : ℕ) {d : ℕ} → (if is_ascii_digit c then some (c - 48) else none) ≡ some d → d < 10
unfolding is_ascii_digit
ascii_lt_ten c h = ground arith

-- The table of the ASCII digits alone, an instance for tests.
abbrev pub ascii_table : DigitTable
ascii_table = record {
  is_digit = is_ascii_digit;
  decimal = λ c. if is_ascii_digit c then some (c - 48) else none;
  is_digit_ascii = λ c h. refl;
  decimal_ascii = λ c h. refl;
  decimal_lt_ten = ascii_lt_ten;
}

-- Text with no white space is left alone by `strip`.
rstrip-no_space : (s : Text) → All (λ c. is_space c ≡ false) s → rstrip s ≡ s
unfolding rstrip
rstrip-no_space [] h = refl
rstrip-no_space (c ∷ []) h = rw h.0
rstrip-no_space (c ∷ d ∷ s) h = rw (rstrip-no_space (d ∷ s) h.1)

pub strip-no_space : (s : Text) → All (λ c. is_space c ≡ false) s → strip s ≡ s
unfolding strip lstrip
strip-no_space [] h = refl
strip-no_space (c ∷ s) h = rw h.0 (rstrip-no_space (c ∷ s) h)

pub ascii_digit_not_space : (c : ℕ) → is_ascii_digit c ≡ true → is_space c ≡ false
unfolding is_ascii_digit is_space
ascii_digit_not_space c h = ground arith
