-- ===== src/Outbox/Replay.antt =====
-- What the outbox remembers of idempotency keys is always of records that it keeps.
use generic_text_gateway.Common.{
  ltb, ◌==◌, ltb→le, ==_iff, ==_refl, Bool-cases, Option-cases, length, nat_eq, lookup, insert,
  lookup-insert, lookup-remove, Text, text_beq, text_beq_iff, text_eq, ℕ, ◌+◌, ◌≤◌, ◌≡◌, refl, sym,
  ap, subst, ◌∙◌, ◌⊎◌, inl, inr, Bool, true, false, Option, none, some, List, [], ◌∷◌, arith,
}
use generic_text_gateway.Outbox.{
  Outbound, Outbox, truthy, forget, evict, Posted, new_record, remember, known, create_new, create,
}

-- Each remembered key is that of a record that is kept.
abbrev IsIndexed : List (ℕ × Outbound) → List (Text × ℕ) → Type 0
IsIndexed records idem =
    (k : Text) (i : ℕ)
    → lookup k idem ≡ some i
    → (r : Outbound) × (lookup i records ≡ some r) × (truthy r.idempotency_key ≡ some k)

-- The ids that were handed out are below `next_id`, and the records are within the limit.
pub record IsValid {S : Type 0} (b : Outbox S) : Type 0 where
  pub indexed : IsIndexed b.records b.idem
  pub below : (i : ℕ) → b.next_id ≤ i → lookup i b.records ≡ none
  pub bounded : length b.records ≤ b.keep_limit

none-some : {A : Type 0} {a : A} → ◌≡◌ {A = Option A} none (some a) → ⊥
none-some h = ground (arith, h)

lookup-cons :
    (j i : ℕ) (r r' : Outbound) (rs : List (ℕ × Outbound))
    → lookup j ((i, r) ∷ rs) ≡ some r'
    → (r ≡ r') ⊎ (lookup j rs ≡ some r')
unfolding lookup
lookup-cons j i r r' rs h = elim (Bool-cases (i == j)) [
  | inl same ↦ inl (ground (arith, h, same))
  | inr other ↦ inr (ground (arith, h, other))
]

-- Without its oldest record and this one's key.
forget-IsIndexed :
    (i : ℕ) (r : Outbound) (rs : List (ℕ × Outbound)) (idem : List (Text × ℕ)) (key : Option Text)
    → truthy r.idempotency_key ≡ key
    → IsIndexed ((i, r) ∷ rs) idem
    → IsIndexed rs (forget key idem)
forget-IsIndexed i r rs idem none h ix k j e =
    let (r', found, has) = ix k j e in
    elim (lookup-cons j i r r' rs found) [
      | inl same ↦
          absurd (none-some (sym h ∙ ap (λ (x : Outbound). truthy x.idempotency_key) same ∙ has))
      | inr later ↦ (r', later, has)
    ]
forget-IsIndexed i r rs idem (some old) h ix k j e = elim (Bool-cases (text_beq old k)) [
  | inl gone ↦ absurd (let l = lookup-remove old k idem in ground (arith, e, l, gone))
  | inr other ↦
      let (r', found, has) =
        ix k j (let l = lookup-remove old k idem in ground (arith, e, l, other)) in
      elim (lookup-cons j i r r' rs found) [
        | inl same ↦ absurd (
            let keys : some k ≡ some old =
              sym has ∙ sym (ap (λ (x : Outbound). truthy x.idempotency_key) same) ∙ h in
            ground (arith, keys, other, text_beq_iff old k))
        | inr later ↦ (r', later, has)
      ]
]

evict-IsIndexed :
    (limit : ℕ) (rs : List (ℕ × Outbound)) (idem : List (Text × ℕ))
    → IsIndexed rs idem
    → IsIndexed (evict limit rs idem).0 (evict limit rs idem).1
unfolding evict
evict-IsIndexed limit [] idem ix = ix
evict-IsIndexed limit ((i, r) ∷ rs) idem ix = elim (Bool-cases (ltb limit (length rs + 1))) [
  | inl full ↦
      rw (full, evict)
        (evict-IsIndexed limit rs (forget (truthy r.idempotency_key) idem)
          (forget-IsIndexed i r rs idem (truthy r.idempotency_key) refl ix))
  | inr room ↦ rw (room, evict) ix
]

-- A new id hides no record.
old-found :
    (n j : ℕ) (r r' : Outbound) (rs : List (ℕ × Outbound))
    → lookup n rs ≡ none
    → lookup j rs ≡ some r'
    → lookup j (insert n r rs) ≡ some r'
old-found n j r r' rs new found = elim (Bool-cases (n == j)) [
  | inl same ↦
      let e : n ≡ j = (==_iff n j).0 same in
      absurd (none-some (sym (subst (λ x. lookup x rs ≡ none) e new) ∙ found))
  | inr other ↦ let l = lookup-insert n j r rs in ground (arith, l, other, found)
]

lookup-tail :
    (i j : ℕ) (r : Outbound) (rs : List (ℕ × Outbound))
    → lookup i ((j, r) ∷ rs) ≡ none
    → lookup i rs ≡ none
unfolding lookup
lookup-tail i j r rs h = ground (arith, h)

-- With a new record, and its key.
remember-IsIndexed :
    (n : ℕ) (r : Outbound) (rs : List (ℕ × Outbound)) (idem : List (Text × ℕ)) (key : Option Text)
    → truthy r.idempotency_key ≡ key
    → lookup n rs ≡ none
    → IsIndexed rs idem
    → IsIndexed (insert n r rs) (remember key n idem)
remember-IsIndexed n r rs idem none h new ix k j e =
    let (r', found, has) = ix k j e in (r', old-found n j r r' rs new found, has)
remember-IsIndexed n r rs idem (some key) h new ix k j e = elim (Bool-cases (text_beq key k)) [
  | inl same ↦
      let ej : j ≡ n = (let l = lookup-insert key k n idem in ground (arith, e, l, same)) in
      let ek : key ≡ k = (text_beq_iff key k).0 same in
      (r, rw ej (let l = lookup-insert n n r rs in ground (arith, l, ==_refl n)), h ∙ rw ek refl)
  | inr other ↦
      let (r', found, has) =
        ix k j (let l = lookup-insert key k n idem in ground (arith, e, l, other)) in
      (r', old-found n j r r' rs new found, has)
]

evict-lookup :
    (limit i : ℕ) (rs : List (ℕ × Outbound)) (idem : List (Text × ℕ))
    → lookup i rs ≡ none
    → lookup i (evict limit rs idem).0 ≡ none
unfolding evict
evict-lookup limit i [] idem h = h
evict-lookup limit i ((j, r) ∷ rs) idem h = elim (Bool-cases (ltb limit (length rs + 1))) [
  | inl full ↦
      rw (full, evict)
        (evict-lookup limit i rs (forget (truthy r.idempotency_key) idem) (lookup-tail i j r rs h))
  | inr room ↦ rw (room, evict) h
]

evict-length :
    (limit : ℕ) (rs : List (ℕ × Outbound)) (idem : List (Text × ℕ))
    → length (evict limit rs idem).0 ≤ limit
unfolding evict
evict-length limit [] idem = omega arith
evict-length limit ((j, r) ∷ rs) idem = elim (Bool-cases (ltb limit (length rs + 1))) [
  | inl full ↦ rw (full, evict) (evict-length limit rs (forget (truthy r.idempotency_key) idem))
  | inr room ↦ rw (room, evict) (omega (arith, ltb→le limit (length rs + 1) room))
]

pub known-found :
    {S : Type 0} (key : Option Text) (i : ℕ) (b : Outbox S)
    → IsValid b
    → known key b.idem ≡ some i
    → (r : Outbound) × (lookup i b.records ≡ some r)
known-found none i b v h = absurd (none-some h)
known-found (some k) i b v h = let (r, found, _) = v.indexed k i h in (r, found)

module _ {S : Type 0} where
  pub create_new-IsValid :
      (now : Text) (p : Posted) (b : Outbox S) → IsValid b → IsValid (create_new now p b).1
  unfolding create_new
  create_new-IsValid now p b v =
      let r = new_record now p b.next_id in
      let key = truthy p.idempotency_key in
      let fresh = v.below b.next_id (omega arith) in
      record {
        indexed =
            evict-IsIndexed b.keep_limit (insert b.next_id r b.records)
              (remember key b.next_id b.idem)
              (remember-IsIndexed b.next_id r b.records b.idem key refl fresh v.indexed);
        below = λ i h.
            evict-lookup b.keep_limit i (insert b.next_id r b.records)
              (remember key b.next_id b.idem)
              (let l = lookup-insert b.next_id i r b.records in
                let old = v.below i (omega (arith, h)) in ground (arith, l, old, h));
        bounded =
            evict-length b.keep_limit (insert b.next_id r b.records)
              (remember key b.next_id b.idem);
      }

  -- From a valid outbox, `create` raises nothing and leaves a valid one: each idempotency key that it
  -- remembers is the key of a record that it keeps, no record has an id yet to be handed out, and
  -- there are at most as many records as the limit.
  pub create-IsValid :
      (now : Text) (p : Posted) (b : Outbox S)
      → IsValid b
      → ((answer : Outbound × Bool) × ((create now p b).0 ≡ some answer))
        × IsValid (create now p b).1
  unfolding create
  create-IsValid now p b v = elim (Option-cases (known (truthy p.idempotency_key) b.idem)) [
    | inl new ↦
        rw (new, create) ((((create_new now p b).0, true), refl), create_new-IsValid now p b v)
    | inr (i, old) ↦
        let (r, found) = known-found (truthy p.idempotency_key) i b v old in
        rw (old, create, found) (((r, false), refl), v)
  ]
