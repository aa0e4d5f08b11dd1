-- ===== src/Common/Members.antt =====
-- How often an item comes in a list, and Python's `set` as a list of its members.
use Prim.Native.Nat.{ℕ, ◌+◌, ◌≤◌}
use mathlib.Core.Path.{◌≡◌, refl, ap, sym, subst, ◌∙◌}
use mathlib.Core.Bool.{Bool, true, false, not, ◌&&◌, ◌||◌}
use mathlib.Core.List.{List, [], ◌∷◌, ◌++◌}
use mathlib.Core.Logic.{inl, inr}
use native.Mathlib.Omega.{arith}
use generic_text_gateway.Common.Tests.{if◌then◌else◌, ltb, Bool-cases}
use generic_text_gateway.Common.Dict.{Keyed}
use generic_text_gateway.Common.Lists.{take, drop, take-append-drop}

module _ {ℓ} {K : Type ℓ} ⦃e : Keyed K⦄ where
  -- `x in xs`
  unfoldable pub member : K → List K → Bool
  member k [] = false
  member k (x ∷ xs) = e.same x k || member k xs

  unfoldable pub times : K → List K → ℕ
  times k [] = 0
  times k (x ∷ xs) = (if e.same x k then 1 else 0) + times k xs

  -- `add`, which leaves a member as it is
  unfoldable pub set_add : K → List K → List K
  unfolding member
  set_add k xs = if member k xs then xs else k ∷ xs

  -- `discard`
  unfoldable pub set_discard : K → List K → List K
  set_discard k [] = []
  set_discard k (x ∷ xs) = let rest = set_discard k xs in if e.same x k then rest else x ∷ rest

  -- `for old in olds: s.discard(old)`
  unfoldable pub set_discard_all : List K → List K → List K
  unfolding set_discard
  set_discard_all [] s = s
  set_discard_all (old ∷ olds) s = set_discard_all olds (set_discard old s)

  pub times-append : (k : K) (xs ys : List K) → times k (xs ++ ys) ≡ times k xs + times k ys
  unfolding times
  times-append k [] ys = omega arith
  times-append k (x ∷ xs) ys = omega (arith, times-append k xs ys)

  pub times-member : (k : K) (xs : List K) → member k xs ≡ ltb 0 (times k xs)
  unfolding member times
  times-member k [] = refl
  times-member k (x ∷ xs) = ground (arith, times-member k xs)

  pub times-one-le : (j k : K) → times j (k ∷ []) ≤ 1
  unfolding times
  times-one-le j k = ground arith

  pub times-take-drop :
      (k : K) (n : ℕ) (xs : List K) → times k (take n xs) + times k (drop n xs) ≡ times k xs
  times-take-drop k n xs =
      sym (times-append k (take n xs) (drop n xs)) ∙ ap (times k) (take-append-drop n xs)

  pub member-set_add : (j k : K) (s : List K) → member j (set_add k s) ≡ (e.same k j || member j s)
  unfolding member set_add
  member-set_add j k s = elim (Bool-cases (member k s)) [
    | inl there ↦ elim (Bool-cases (e.same k j)) [
      | inl same ↦ rw (there, same) (subst (λ x. member x s ≡ true) ((e.same_iff k j).0 same) there)
      | inr other ↦ rw (there, other)
    ]
    | inr new ↦ rw new
  ]

  pub member-set_discard :
      (j k : K) (s : List K) → member j (set_discard k s) ≡ (not (e.same k j) && member j s)
  unfolding member set_discard
  member-set_discard j k [] = ground arith
  member-set_discard j k (x ∷ s) =
      ground (arith, member-set_discard j k s, e.same_iff x k, e.same_iff k j, e.same_iff x j)

  pub member-set_discard_all :
      (j : K) (olds s : List K)
      → member j (set_discard_all olds s) ≡ (not (member j olds) && member j s)
  unfolding member set_discard_all
  member-set_discard_all j [] s = ground arith
  member-set_discard_all j (old ∷ olds) s =
      ground (arith, member-set_discard_all j olds (set_discard old s), member-set_discard j old s)

  pub member-append : (k : K) (xs ys : List K) → member k (xs ++ ys) ≡ (member k xs || member k ys)
  unfolding member
  member-append k [] ys = refl
  member-append k (x ∷ xs) ys = ground (arith, member-append k xs ys)

  -- What is left of a list without repetition.
  pub member-drop :
      (k : K) (n : ℕ) (xs : List K)
      → times k xs ≤ 1
      → member k (drop n xs) ≡ (not (member k (take n xs)) && member k xs)
  member-drop k n xs once = ground (
    arith,
    times-member k (drop n xs),
    times-member k (take n xs),
    times-member k xs,
    times-take-drop k n xs,
  )
