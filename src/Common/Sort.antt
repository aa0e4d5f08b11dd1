-- ===== src/Common/Sort.antt =====
-- `list.sort` and `sorted` by a numeric key: stable, and ascending. Items are counted by key.
use Prim.Native.Nat.{ℕ, ◌+◌, ◌≤◌, ◌<◌}
use mathlib.Core.Path.{◌≡◌, refl, ◌∙◌}
use mathlib.Core.Logic.{inl, inr}
use mathlib.Core.Bool.{Bool}
use mathlib.Core.List.{List, [], ◌∷◌, ◌++◌}
use native.Mathlib.Omega.{arith}
use generic_text_gateway.Common.Tests.{leb, ◌==◌, if◌then◌else◌, leb→le, ==_iff, Bool-cases}
use generic_text_gateway.Common.Lists.{keep, All}

module _ {ℓ} {A : Type ℓ} (key : A → ℕ) where
  unfoldable pub insert_by : A → List A → List A
  insert_by x [] = x ∷ []
  insert_by x (y ∷ ys) =
      let rest = insert_by x ys in if leb (key x) (key y) then x ∷ y ∷ ys else y ∷ rest

  unfoldable pub sort_by : List A → List A
  unfolding insert_by
  sort_by [] = []
  sort_by (x ∷ xs) = insert_by x (sort_by xs)

  -- How many items have the key.
  unfoldable pub count_key : ℕ → List A → ℕ
  count_key i [] = 0
  count_key i (x ∷ xs) = (if key x == i then 1 else 0) + count_key i xs

  -- Ascending keys: each is at least the ones before it.
  abbrev pub AtLeast : ℕ → List A → Type 0
  AtLeast n = All (λ x. n ≤ key x)

  abbrev pub Ascending : List A → Type 0
  Ascending [] = Unit
  Ascending (x ∷ xs) = AtLeast (key x) xs × Ascending xs

  -- Each key once, in order.
  abbrev pub Above : ℕ → List A → Type 0
  Above n = All (λ x. n < key x)

  abbrev pub StrictlyAscending : List A → Type 0
  StrictlyAscending [] = Unit
  StrictlyAscending (x ∷ xs) = Above (key x) xs × StrictlyAscending xs

module _ {ℓ} {A : Type ℓ} (key : A → ℕ) where
  pub count_key-append :
      (i : ℕ) (xs ys : List A)
      → count_key key i (xs ++ ys) ≡ count_key key i xs + count_key key i ys
  unfolding count_key
  count_key-append i [] ys = omega arith
  count_key-append i (x ∷ xs) ys = omega (arith, count_key-append i xs ys)

  count_key-insert_by :
      (i : ℕ) (x : A) (ys : List A)
      → count_key key i (insert_by key x ys) ≡ count_key key i (x ∷ ys)
  unfolding count_key insert_by
  count_key-insert_by i x [] = refl
  count_key-insert_by i x (y ∷ ys) = elim (Bool-cases (leb (key x) (key y))) [
    | inl front ↦ rw (front, count_key)
    | inr behind ↦ rw (behind, count_key) (omega (arith, count_key-insert_by i x ys))
  ]

  pub count_key-sort_by :
      (i : ℕ) (xs : List A) → count_key key i (sort_by key xs) ≡ count_key key i xs
  unfolding sort_by count_key
  count_key-sort_by i [] = refl
  count_key-sort_by i (x ∷ xs) =
      count_key-insert_by i x (sort_by key xs) ∙ omega (arith, count_key-sort_by i xs)

  AtLeast-insert_by :
      (n : ℕ) (x : A) (ys : List A)
      → n ≤ key x
      → AtLeast key n ys
      → AtLeast key n (insert_by key x ys)
  unfolding insert_by
  AtLeast-insert_by n x [] p a = (p, tt)
  AtLeast-insert_by n x (y ∷ ys) p a = elim (Bool-cases (leb (key x) (key y))) [
    | inl front ↦ rw (front, All) (p, a)
    | inr behind ↦ rw (behind, All) (a.0, AtLeast-insert_by n x ys p a.1)
  ]

  AtLeast-mono : (m n : ℕ) (xs : List A) → m ≤ n → AtLeast key n xs → AtLeast key m xs
  AtLeast-mono m n [] p a = tt
  AtLeast-mono m n (x ∷ xs) p a = (omega (arith, a.0), AtLeast-mono m n xs p a.1)

  insert_by-Ascending :
      (x : A) (ys : List A) → Ascending key ys → Ascending key (insert_by key x ys)
  unfolding insert_by
  insert_by-Ascending x [] a = (tt, tt)
  insert_by-Ascending x (y ∷ ys) a = elim (Bool-cases (leb (key x) (key y))) [
    | inl front ↦
        let p = leb→le (key x) (key y) front in
        rw (front, Ascending) ((p, AtLeast-mono (key x) (key y) ys p a.0), a)
    | inr behind ↦
        rw (behind, Ascending)
          (AtLeast-insert_by (key y) x ys (ground arith) a.0, insert_by-Ascending x ys a.1)
  ]

  pub sort_by-Ascending : (xs : List A) → Ascending key (sort_by key xs)
  unfolding sort_by
  sort_by-Ascending [] = tt
  sort_by-Ascending (x ∷ xs) = insert_by-Ascending x (sort_by key xs) (sort_by-Ascending xs)

  -- Ascending keys of which none comes twice are strictly ascending.
  Above-of_once : (n : ℕ) (xs : List A) → AtLeast key n xs → count_key key n xs ≡ 0 → Above key n xs
  unfolding count_key
  Above-of_once n [] a c = tt
  Above-of_once n (x ∷ xs) a c = (ground (arith, a.0), Above-of_once n xs a.1 (ground arith))

  pub StrictlyAscending-of_once :
      (xs : List A)
      → Ascending key xs
      → ((i : ℕ) → count_key key i xs ≤ 1)
      → StrictlyAscending key xs
  unfolding count_key
  StrictlyAscending-of_once [] a c = tt
  StrictlyAscending-of_once (x ∷ xs) a c =
      let once : count_key key (key x) xs ≡ 0 = ground (arith, c (key x)) in
      (
        Above-of_once (key x) xs a.0 once,
        StrictlyAscending-of_once xs a.1 (λ i. omega (arith, c i)),
      )

  -- A key below all the others does not come.
  pub count_key_of_Above : (i : ℕ) (xs : List A) → Above key i xs → count_key key i xs ≡ 0
  unfolding count_key
  count_key_of_Above i [] a = refl
  count_key_of_Above i (x ∷ xs) a = ground (arith, a.0, count_key_of_Above i xs a.1)

  Above-mono : (m n : ℕ) (xs : List A) → m ≤ n → Above key n xs → Above key m xs
  Above-mono m n [] p a = tt
  Above-mono m n (x ∷ xs) p a = (omega (arith, a.0), Above-mono m n xs p a.1)

  -- Strictly ascending keys come once at most.
  pub once_of_StrictlyAscending :
      (i : ℕ) (xs : List A) → StrictlyAscending key xs → count_key key i xs ≤ 1
  unfolding count_key
  once_of_StrictlyAscending i [] a = omega arith
  once_of_StrictlyAscending i (x ∷ xs) a = elim (Bool-cases (key x == i)) [
    | inl here ↦
        let e : key x ≡ i = (==_iff (key x) i).0 here in
        let zero_rest : count_key key i xs ≡ 0 =
          count_key_of_Above i xs (Above-mono i (key x) xs (omega (arith, e)) a.0) in
        rw (here, zero_rest) (omega arith)
    | inr there ↦ rw there (omega (arith, once_of_StrictlyAscending i xs a.1))
  ]

module _ {ℓ} {A : Type ℓ} (key : A → ℕ) where
  -- A filter that looks at keys alone.
  pub count_key-keep :
      (q : ℕ → Bool) (i : ℕ) (xs : List A)
      → count_key key i (keep (λ x. q (key x)) xs) ≡ (if q i then count_key key i xs else 0)
  unfolding count_key
  count_key-keep q i [] = ground arith
  count_key-keep q i (x ∷ xs) = elim (Bool-cases (q (key x))) [
    | inl kept ↦ rw (kept, count_key) (ground (arith, count_key-keep q i xs))
    | inr dropped ↦ rw (dropped, count_key) (ground (arith, count_key-keep q i xs))
  ]
