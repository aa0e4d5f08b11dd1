-- ===== src/Relay/History.antt =====
-- What the journal remembers: of a log of all marks, the newest.
use generic_text_gateway.Common.{
  Bool-cases, length, take_last, take_last-append, nat_eq, Text, text_beq, text_beq_iff, text_eq,
  member, times, times-append, times-member, times-one-le, times-take-drop, ◌-◌, ◌≤◌, ◌≡◌, refl,
  subst, inl, inr, false, List, [], ◌∷◌, ◌++◌, arith,
}

-- A log of marked hashes, and those that were fired, both newest last: none is marked that is
-- among the last 500 marked, and each that is fired was marked just before.
pub data History : List Text → List Text → Type 0 where
  start : History [] []
  marked :
      {log posted : List Text} (h : Text)
      → History log posted
      → member h (take_last 500 log) ≡ false
      → History (log ++ h ∷ []) posted
  marked_fired :
      {log posted : List Text} (h : Text)
      → History log posted
      → member h (take_last 500 log) ≡ false
      → History (log ++ h ∷ []) (posted ++ h ∷ [])

-- A hash that is not among the marked does not count.
times_of_new : (h : Text) (xs : List Text) → member h xs ≡ false → times h xs ≡ 0
times_of_new h xs new = ground (arith, times-member h xs)

pub times-other : (k h : Text) → text_beq k h ≡ false → times h (k ∷ []) ≡ 0
unfolding times
times-other k h other = rw other refl

pub times-snoc-le :
    (window : List Text) (k h : Text)
    → times h window ≤ 1
    → member k window ≡ false
    → times h (window ++ k ∷ []) ≤ 1
times-snoc-le window k h once new = elim (Bool-cases (text_beq k h)) [
  | inl same ↦
      let e : k ≡ h = (text_beq_iff k h).0 same in
      let none_late : times h window ≡ 0 =
        times_of_new h window (subst (λ x. member x window ≡ false) e new) in
      omega (arith, none_late, times-append h window (k ∷ []), times-one-le h k)
  | inr other ↦ omega (arith, once, times-other k h other, times-append h window (k ∷ []))
]

window_snoc :
    (log : List Text) (k h : Text)
    → times h (take_last 500 log) ≤ 1
    → member k (take_last 500 log) ≡ false
    → times h (take_last 500 (log ++ k ∷ [])) ≤ 1
window_snoc log k h once new =
    let both = take_last 500 log ++ k ∷ [] in
    rw (← take_last-append 500 log (k ∷ [])) (
      omega (
        arith,
        times-snoc-le (take_last 500 log) k h once new,
        times-take-drop h (length both - 500) both,
      ))

-- The journal holds no hash twice.
pub times-window-le :
    {log posted : List Text} → History log posted → (h : Text) → times h (take_last 500 log) ≤ 1
unfolding times
times-window-le start h = omega arith
times-window-le (marked {log} k hist new) h = window_snoc log k h (times-window-le hist h) new
times-window-le (marked_fired {log} k hist new) h = window_snoc log k h (times-window-le hist h) new
