-- ===== src/Common/Lists.antt =====
-- Lists measured and indexed by native numbers, under the library's names, and predicates on them.
use Prim.Native.Nat.{ℕ, zero, suc, ◌+◌, ◌-◌, ◌≤◌, min}
use mathlib.Core.Path.{◌≡◌, refl}
use mathlib.Core.Bool.{Bool, true, false, ◌&&◌, ◌||◌}
use mathlib.Core.List.{List, [], ◌∷◌, ◌++◌, append_assoc}
use mathlib.Core.Option.{Option, none, some}
use native.Mathlib.Omega.{arith}
use mathlib.Core.Logic.{inl, inr}
use generic_text_gateway.Common.Tests.{if◌then◌else◌, leb, leb→le, Bool-cases}

module _ {ℓ} {A : Type ℓ} where
  abbrev pub length : List A → ℕ
  length [] = 0
  length (x ∷ xs) = suc (length xs)

  abbrev pub get_elem? : List A → ℕ → Option A
  get_elem? [] i = none
  get_elem? (x ∷ xs) zero = some x
  get_elem? (x ∷ xs) (suc i) = get_elem? xs i

  abbrev pub take : ℕ → List A → List A
  take zero xs = []
  take (suc n) [] = []
  take (suc n) (x ∷ xs) = x ∷ take n xs

  abbrev pub drop : ℕ → List A → List A
  drop zero xs = xs
  drop (suc n) [] = []
  drop (suc n) (x ∷ xs) = drop n xs

  -- Python's `xs[-n:]` for a positive n, and `xs[:-n]`.
  abbrev pub take_last : ℕ → List A → List A
  take_last n xs = drop (length xs - n) xs

  abbrev pub concat : List (List A) → List A
  concat [] = []
  concat (xs ∷ xss) = xs ++ concat xss

  -- `sum(cost(x) for x in xs)`
  abbrev pub total : (A → ℕ) → List A → ℕ
  total cost [] = 0
  total cost (x ∷ xs) = cost x + total cost xs

  -- `all` and `any` of a test, and `[x for x in xs if test x]`
  abbrev pub all : (A → Bool) → List A → Bool
  all p [] = true
  all p (x ∷ xs) = p x && all p xs

  abbrev pub any : (A → Bool) → List A → Bool
  any p [] = false
  any p (x ∷ xs) = p x || any p xs

  abbrev pub keep : (A → Bool) → List A → List A
  keep p [] = []
  keep p (x ∷ xs) = let rest = keep p xs in if p x then x ∷ rest else rest

module _ {ℓ} {A : Type ℓ} where
  pub length-append : (xs ys : List A) → length (xs ++ ys) ≡ length xs + length ys
  length-append [] ys = omega arith
  length-append (x ∷ xs) ys = omega (arith, length-append xs ys)

  pub total-append :
      (cost : A → ℕ) (xs ys : List A) → total cost (xs ++ ys) ≡ total cost xs + total cost ys
  total-append cost [] ys = omega arith
  total-append cost (x ∷ xs) ys = omega (arith, total-append cost xs ys)

  pub length-drop : (n : ℕ) (xs : List A) → length (drop n xs) ≡ length xs - n
  length-drop zero xs = omega arith
  length-drop (suc n) [] = omega arith
  length-drop (suc n) (x ∷ xs) = omega (arith, length-drop n xs)

  pub length-take : (n : ℕ) (xs : List A) → length (take n xs) ≡ min n (length xs)
  length-take zero xs = omega arith
  length-take (suc n) [] = omega arith
  length-take (suc n) (x ∷ xs) = omega (arith, length-take n xs)

  pub take-append-drop : (n : ℕ) (xs : List A) → take n xs ++ drop n xs ≡ xs
  take-append-drop zero xs = refl
  take-append-drop (suc n) [] = refl
  take-append-drop (suc n) (x ∷ xs) = rw (take-append-drop n xs)

  pub take_of_length-le : (n : ℕ) (xs : List A) → length xs ≤ n → take n xs ≡ xs
  take_of_length-le (suc m) (y ∷ ys) h = rw (take_of_length-le m ys (omega arith))
  take_of_length-le (suc m) [] h = refl
  take_of_length-le zero (y ∷ ys) h = absurd (omega arith)
  take_of_length-le zero [] h = refl

  pub concat-append : (xss yss : List (List A)) → concat (xss ++ yss) ≡ concat xss ++ concat yss
  concat-append [] yss = refl
  concat-append (xs ∷ xss) yss = rw (concat-append xss yss, append_assoc)

-- A predicate on every item; it computes to a tuple.
abbrev pub All {ℓ κ} : {A : Type ℓ} → (A → Type κ) → List A → Type κ
All P [] = Unit
All P (x ∷ xs) = P x × All P xs

module _ {ℓ κ} {A : Type ℓ} (P : A → Type κ) where
  pub All-append : (xs ys : List A) → All P xs → All P ys → All P (xs ++ ys)
  All-append [] ys hx hy = hy
  All-append (x ∷ xs) ys hx hy = (hx.0, All-append xs ys hx.1 hy)

  pub All-drop : (n : ℕ) (xs : List A) → All P xs → All P (drop n xs)
  All-drop zero xs h = h
  All-drop (suc n) [] h = h
  All-drop (suc n) (x ∷ xs) h = All-drop n xs h.1

-- The newest items of a list, and of a list that grows.
module _ {ℓ} {A : Type ℓ} where
  pub take_last_of_length-le : (n : ℕ) (xs : List A) → length xs ≤ n → take_last n xs ≡ xs
  take_last_of_length-le n xs h = let e : length xs - n ≡ 0 = omega (arith, h) in rw e

  pub length-take_last : (n : ℕ) (xs : List A) → length (take_last n xs) ≡ min n (length xs)
  length-take_last n xs = omega (arith, length-drop (length xs - n) xs)

  pub take_last_idem : (n : ℕ) (xs : List A) → take_last n (take_last n xs) ≡ take_last n xs
  take_last_idem n xs =
      take_last_of_length-le n (take_last n xs) (omega (arith, length-take_last n xs))

  take_last-cons :
      (n : ℕ) (x : A) (xs : List A) → n ≤ length xs → take_last n (x ∷ xs) ≡ take_last n xs
  take_last-cons n x xs h =
      let e : length (x ∷ xs) - n ≡ suc (length xs - n) = omega (arith, h) in rw e

  pub take_last-append :
      (n : ℕ) (xs ys : List A) → take_last n (take_last n xs ++ ys) ≡ take_last n (xs ++ ys)
  take_last-append n [] ys = let e : 0 - n ≡ 0 = omega arith in rw e
  take_last-append n (x ∷ xs) ys = elim (Bool-cases (leb n (length xs))) [
    | inl long ↦
        let p = leb→le n (length xs) long in
        rw
          (
            take_last-cons n x xs p,
            take_last-cons n x (xs ++ ys) (omega (arith, p, length-append xs ys)),
          )
          (take_last-append n xs ys)
    | inr short ↦ rw (take_last_of_length-le n (x ∷ xs) (ground arith))
  ]

  pub drop-snoc :
      (n : ℕ) (xs : List A) (x : A) → n ≤ length xs → drop n (xs ++ x ∷ []) ≡ drop n xs ++ x ∷ []
  drop-snoc zero xs x h = refl
  drop-snoc (suc n) [] x h = absurd (omega arith)
  drop-snoc (suc n) (y ∷ xs) x h = drop-snoc n xs x (omega arith)
