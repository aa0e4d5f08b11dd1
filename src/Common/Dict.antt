-- ===== src/Common/Dict.antt =====
-- Python's `dict` as an association list in insertion order: an assignment to a key that is
-- there keeps its place.
use Prim.Native.Nat.{max, ℕ, ◌+◌, ◌≤◌}
use mathlib.Core.Path.{◌≡◌, refl}
use mathlib.Core.Logic.{◌↔◌, inl, inr}
use mathlib.Core.Bool.{Bool, true}
use mathlib.Core.List.{List, [], ◌∷◌}
use mathlib.Core.Option.{Option, none, some}
use native.Mathlib.Omega.{arith}
use generic_text_gateway.Common.Tests.{Bool-cases, if◌then◌else◌, ◌==◌, ==_iff}
use generic_text_gateway.Common.Lists.{length, all}

-- Equality of keys.
pub record Keyed {ℓ} (A : Type ℓ) : Type ℓ where
  pub same : A → A → Bool
  pub same_iff : (a b : A) → (same a b ≡ true) ↔ (a ≡ b)

abbrev nat_beq : ℕ → ℕ → Bool
nat_beq a b = a == b

instance abbrev pub nat_eq : Keyed ℕ
nat_eq = record { same = nat_beq; same_iff = ==_iff }

module _ {ℓ κ} {K : Type ℓ} {V : Type κ} ⦃e : Keyed K⦄ where
  unfoldable pub lookup : K → List (K × V) → Option V
  lookup k [] = none
  lookup k ((j, v) ∷ m) = if e.same j k then some v else lookup k m

  unfoldable pub insert : K → V → List (K × V) → List (K × V)
  insert k v [] = (k, v) ∷ []
  insert k v ((j, w) ∷ m) = if e.same j k then (j, v) ∷ m else (j, w) ∷ insert k v m

  unfoldable pub remove : K → List (K × V) → List (K × V)
  remove k [] = []
  remove k ((j, w) ∷ m) = let rest = remove k m in if e.same j k then rest else (j, w) ∷ rest

  pub lookup-insert :
      (k j : K) (v : V) (m : List (K × V))
      → lookup j (insert k v m) ≡ (if e.same k j then some v else lookup j m)
  unfolding lookup insert
  lookup-insert k j v [] = refl
  lookup-insert k j v ((i, w) ∷ m) =
      ground (arith, e.same_iff k j, e.same_iff i k, e.same_iff i j, lookup-insert k j v m)

  pub lookup-remove :
      (k j : K) (m : List (K × V))
      → lookup j (remove k m) ≡ (if e.same k j then none else lookup j m)
  unfolding lookup remove
  lookup-remove k j [] = ground arith
  lookup-remove k j ((i, w) ∷ m) =
      ground (arith, e.same_iff k j, e.same_iff i k, e.same_iff i j, lookup-remove k j m)

  pub length-insert-le : (k : K) (v : V) (m : List (K × V)) → length (insert k v m) ≤ length m + 1
  unfolding insert
  length-insert-le k v [] = omega arith
  length-insert-le k v ((j, w) ∷ m) = ground (arith, length-insert-le k v m)

  pub length-remove-le : (k : K) (m : List (K × V)) → length (remove k m) ≤ length m
  unfolding remove
  length-remove-le k [] = omega arith
  length-remove-le k ((j, w) ∷ m) = ground (arith, length-remove-le k m)

  -- What holds of every entry holds of the one that a lookup finds.
  pub lookup-all :
      (p : K × V → Bool) (k : K) (m : List (K × V)) {v : V}
      → all p m ≡ true
      → lookup k m ≡ some v
      → p (k, v) ≡ true
  unfolding lookup
  lookup-all p k [] a h = cc
  lookup-all p k ((j, w) ∷ m) {v} a h = elim (Bool-cases (e.same j k)) [
    | inl here ↦
        let ek : j ≡ k = (e.same_iff j k).0 here in
        let ev : w ≡ v = ground arith in rw (← ek, ← ev) (ground arith)
    | inr there ↦ lookup-all p k m (ground arith) (ground arith)
  ]

-- How many entries have the key.
module _ {ℓ κ} {K : Type ℓ} {V : Type κ} ⦃e : Keyed K⦄ where
  unfoldable pub entries : K → List (K × V) → ℕ
  entries k [] = 0
  entries k ((j, _) ∷ m) = (if e.same j k then 1 else 0) + entries k m

  pub entries_of_none : (k : K) (m : List (K × V)) → lookup k m ≡ none → entries k m ≡ 0
  unfolding lookup entries
  entries_of_none k [] h = refl
  entries_of_none k ((j, v) ∷ m) h = ground (arith, entries_of_none k m)

  pub entries_of_some : (k : K) (m : List (K × V)) {v : V} → lookup k m ≡ some v → 1 ≤ entries k m
  unfolding lookup entries
  entries_of_some k [] h = cc
  entries_of_some k ((j, w) ∷ m) {v} h = elim (Bool-cases (e.same j k)) [
    | inl here ↦ rw here (omega arith)
    | inr there ↦ rw there (omega (arith, entries_of_some k m {v = v} (ground arith)))
  ]

  -- An assignment adds an entry for a new key, and none else.
  pub entries-insert :
      (k j : K) (v : V) (m : List (K × V))
      → entries j (insert k v m) ≡ (if e.same k j then max 1 (entries j m) else entries j m)
  unfolding insert entries
  entries-insert k j v [] = ground arith
  entries-insert k j v ((i, w) ∷ m) =
      ground (arith, e.same_iff k j, e.same_iff i k, e.same_iff i j, entries-insert k j v m)

  pub entries-remove :
      (k j : K) (m : List (K × V))
      → entries j (remove k m) ≡ (if e.same k j then 0 else entries j m)
  unfolding remove entries
  entries-remove k j [] = ground arith
  entries-remove k j ((i, w) ∷ m) =
      ground (arith, e.same_iff k j, e.same_iff i k, e.same_iff i j, entries-remove k j m)
