-- ===== src/Outbox/Kept.antt =====
-- A new record is not among those that are evicted for it.
use generic_text_gateway.Common.{
  ltb, ◌==◌, ==_refl, Bool-cases, Option-cases, length, nat_eq, lookup, insert, lookup-insert, Text,
  text_eq, ℕ, ◌+◌, ◌≤◌, ◌≡◌, refl, ◌∙◌, inl, inr, Bool, true, false, Option, none, some, List, [],
  ◌∷◌, arith,
}
use generic_text_gateway.Outbox.{
  Outbound, Outbox, truthy, forget, evict, Posted, new_record, remember, known, create_new, create,
  get,
}
use generic_text_gateway.Outbox.Replay.{IsValid, create_new-IsValid, known-found}

lookup-newest :
    (i : ℕ) (r : Outbound) (rs : List (ℕ × Outbound)) → lookup i (insert i r rs) ≡ some r
lookup-newest i r rs = ground (arith, lookup-insert i i r rs, ==_refl i)

lookup-other :
    (j i : ℕ) (x : Outbound) (rs : List (ℕ × Outbound))
    → (j == i) ≡ false
    → lookup i ((j, x) ∷ rs) ≡ lookup i rs
unfolding lookup
lookup-other j i x rs h = rw h refl

evict-newest :
    (limit i : ℕ) (r : Outbound) (rs : List (ℕ × Outbound)) (idem : List (Text × ℕ))
    → 1 ≤ limit
    → lookup i rs ≡ none
    → lookup i (evict limit (insert i r rs) idem).0 ≡ some r
unfolding evict insert lookup
evict-newest limit i r [] idem l h = ground (arith, l, ==_refl i)
evict-newest limit i r ((j, x) ∷ rs) idem l h =
    let other : (j == i) ≡ false = ground (arith, h) in
    let fresh : lookup i rs ≡ none = ground (arith, h) in
    elim (Bool-cases (ltb limit (length (insert i r rs) + 1))) [
      | inl over ↦
          rw (other, evict, over)
            (evict-newest limit i r rs (forget (truthy x.idempotency_key) idem) l fresh)
      | inr fits ↦
          rw (other, evict, fits) (lookup-other j i x (insert i r rs) other ∙ lookup-newest i r rs)
    ]

-- What `create` comes to for a valid outbox: the kept record that stands under the key of the request, and nothing is
-- changed; or, where no record has this key, a new record under the next id, which is kept where the limit lets any be
-- kept.
pub data Outcome {S : Type 0} (now : Text) (p : Posted) (b : Outbox S)
    : Option (Outbound × Bool) × Outbox S → Type 0 where
  replay :
      (k : Text) (i : ℕ) (r : Outbound)
      → p.idempotency_key ≡ some k
      → lookup k b.idem ≡ some i
      → get i b ≡ some r
      → Outcome now p b (some (r, false), b)
  new :
      (b' : Outbox S)
      → ((k : Text) (i : ℕ) → truthy p.idempotency_key ≡ some k → lookup k b.idem ≡ some i → ⊥)
      → get b.next_id b' ≡ some (new_record now p b.next_id)
      → IsValid b'
      → Outcome now p b (some (new_record now p b.next_id, true), b')

-- A key that is known was given.
known-truthy :
    (key : Option Text) (idem : List (Text × ℕ)) {i : ℕ}
    → known (truthy key) idem ≡ some i
    → (k : Text) × (key ≡ some k) × (lookup k idem ≡ some i)
unfolding truthy
known-truthy none idem e = absurd (ground (arith, e))
known-truthy (some []) idem e = absurd (ground (arith, e))
known-truthy (some (c ∷ k)) idem e = (c ∷ k, refl, e)

unknown_key :
    (key : Option Text) (idem : List (Text × ℕ))
    → known key idem ≡ none
    → (k : Text) (i : ℕ) → key ≡ some k
    → lookup k idem ≡ some i
    → ⊥
unknown_key none idem e k i a b = ground (arith, a)
unknown_key (some j) idem e k i a b =
    let same : j ≡ k = ground (arith, a) in
    let found : lookup j idem ≡ some i = rw same b in ground (arith, found, e)

module _ {S : Type 0} where
  pub create-Outcome :
      (now : Text) (p : Posted) (b : Outbox S)
      → IsValid b
      → 1 ≤ b.keep_limit
      → Outcome now p b (create now p b)
  unfolding create create_new get
  create-Outcome now p b v l = elim (Option-cases (known (truthy p.idempotency_key) b.idem)) [
    | inl none_known ↦
        rw (none_known, create)
          (new (create_new now p b).1 (unknown_key (truthy p.idempotency_key) b.idem none_known)
            (evict-newest b.keep_limit b.next_id (new_record now p b.next_id) b.records
              (remember (truthy p.idempotency_key) b.next_id b.idem) l
              (v.below b.next_id (omega arith)))
            (create_new-IsValid now p b v))
    | inr (i, old) ↦
        let (r, found) = known-found (truthy p.idempotency_key) i b v old in
        let (k, given, there) = known-truthy p.idempotency_key b.idem old in
        rw (old, create, found) (replay k i r given there found)
  ]
