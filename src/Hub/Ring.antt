-- ===== src/Hub/Ring.antt =====
-- The replay ring: `deque(maxlen=ring_size)` of messages in the order of their ids.
use generic_text_gateway.Common.{
  StrictlyAscending, length, drop, length-drop, All, All-append, All-drop, nat_eq, text_eq, ℕ, zero,
  suc, ◌+◌, ◌-◌, ◌≤◌, ◌<◌, List, [], ◌∷◌, ◌++◌, arith,
}
use generic_text_gateway.Hub.Queue.{Published}
use generic_text_gateway.Hub.{id_of, ring_append}

module _ {M : Type 0} where
  StrictlyAscending-drop :
      (n : ℕ) (ms : List (Published M))
      → StrictlyAscending id_of ms
      → StrictlyAscending id_of (drop n ms)
  StrictlyAscending-drop zero ms h = h
  StrictlyAscending-drop (suc n) [] h = h
  StrictlyAscending-drop (suc n) (m ∷ ms) h = StrictlyAscending-drop n ms h.1

  StrictlyAscending-snoc :
      (ms : List (Published M)) (m : Published M)
      → StrictlyAscending id_of ms
      → All (λ x. x.id < m.id) ms
      → StrictlyAscending id_of (ms ++ m ∷ [])
  StrictlyAscending-snoc [] m h a = (tt, tt)
  StrictlyAscending-snoc (x ∷ ms) m h a =
      (All-append (λ y. x.id < y.id) ms (m ∷ []) h.0 (a.0, tt), StrictlyAscending-snoc ms m h.1 a.1)

  pub length-ring_append :
      (size : ℕ) (ring : List (Published M)) (m : Published M)
      → length (ring_append size ring m) ≤ size
  unfolding ring_append
  length-ring_append size ring m =
      let n = length (ring ++ m ∷ []) in omega (arith, length-drop (n - size) (ring ++ m ∷ []))

  pub ring_append-StrictlyAscending :
      (size : ℕ) (ring : List (Published M)) (m : Published M)
      → StrictlyAscending id_of ring
      → All (λ x. x.id < m.id) ring
      → StrictlyAscending id_of (ring_append size ring m)
  unfolding ring_append
  ring_append-StrictlyAscending size ring m h a =
      StrictlyAscending-drop (length (ring ++ m ∷ []) - size) (ring ++ m ∷ [])
        (StrictlyAscending-snoc ring m h a)

  weaken : (n : ℕ) (ms : List (Published M)) → All (λ x. x.id < n) ms → All (λ x. x.id < n + 1) ms
  weaken n [] a = tt
  weaken n (m ∷ ms) a = (omega (arith, a.0), weaken n ms a.1)

  pub ring_append-All :
      (size : ℕ) (ring : List (Published M)) (m : Published M)
      → All (λ x. x.id < m.id) ring
      → All (λ x. x.id < m.id + 1) (ring_append size ring m)
  unfolding ring_append
  ring_append-All size ring m a =
      All-drop (λ x. x.id < m.id + 1) (length (ring ++ m ∷ []) - size) (ring ++ m ∷ [])
        (All-append (λ x. x.id < m.id + 1) ring (m ∷ []) (weaken m.id ring a) (omega arith, tt))
