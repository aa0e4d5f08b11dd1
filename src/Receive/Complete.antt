-- ===== src/Receive/Complete.antt =====
-- The parts of one message, in whatever order they come.
use generic_text_gateway.Common.{
  sort_by, Ascending, sort_by-Ascending, ◌==◌, Bool-cases, length, length-append, All, nat_eq,
  lookup, insert, lookup-insert, lookup-remove, Text, text_eq, ℕ, ◌+◌, ◌<◌, ◌≡◌, refl, sym, ap,
  subst, ◌∙◌, inl, inr, true, false, Option, none, some, List, [], ◌∷◌, ◌++◌, map, append-nil,
  append_assoc, arith,
}
use generic_text_gateway.Codec.Deliver.{Message}
use generic_text_gateway.Receive.{
  PartKey, key_beq_iff, key_eq, Part, Slot, Assembler, Inbound, seq_of, joined, assemble,
  slot_or_new, add_part, add,
}

-- A part that comes at some time.
pub record Arrival : Type 0 where
  pub now : ℕ
  pub seq : ℕ
  pub text : Text
  pub scts : Text
  pub index : Option ℕ

abbrev pub message_of : PartKey → Arrival → Message
message_of key x = record {
  sender = key.sender;
  text = x.text;
  scts = x.scts;
  concat = some (record { ref = key.ref; parts = key.parts; seq = x.seq });
}

abbrev pub part_of : PartKey → Arrival → ℕ × Part
part_of key x = (x.seq, (message_of key x, x.index))

abbrev pub arrive : PartKey → Arrival → Assembler → Option (Inbound × List ℕ) × Assembler
arrive key x a = add x.now (message_of key x) x.index a

-- What was given out, and the assembler after all.
unfoldable pub arrive_all :
    PartKey → List Arrival → Assembler → List (Option (Inbound × List ℕ)) × Assembler
arrive_all key [] a = ([], a)
arrive_all key (x ∷ xs) a =
    let (given, a') = arrive key x a in
    let (rest, a'') = arrive_all key xs a' in (given ∷ rest, a'')

abbrev pub held_in : Option Slot → List (ℕ × Part)
held_in none = []
held_in (some slot) = slot.parts

-- The parts that wait under a key.
abbrev pub held : PartKey → Assembler → List (ℕ × Part)
held key a = held_in (lookup key a.slots)

-- No part comes that is there.
abbrev pub AreNew : PartKey → List (ℕ × Part) → List Arrival → Type 0
AreNew key parts [] = Unit
AreNew key parts (x ∷ xs) =
    (lookup x.seq parts ≡ none) × AreNew key (parts ++ part_of key x ∷ []) xs

insert-new :
    (k : ℕ) (v : Part) (m : List (ℕ × Part)) → lookup k m ≡ none → insert k v m ≡ m ++ (k, v) ∷ []
unfolding insert lookup
insert-new k v [] h = refl
insert-new k v ((j, w) ∷ m) h = elim (Bool-cases (j == k)) [
  | inl same ↦ absurd (ground (arith, h, same))
  | inr other ↦
      let later : lookup k m ≡ none = ground (arith, h, other) in
      rw (other, insert-new k v m later) refl
]

slot_parts : (now : ℕ) (o : Option Slot) → (slot_or_new now o).parts ≡ held_in o
slot_parts now none = refl
slot_parts now (some slot) = refl

-- The parts of the slot with a new one.
grown_parts :
    (key : PartKey) (x : Arrival) (a : Assembler) (parts : List (ℕ × Part))
    → held key a ≡ parts
    → lookup x.seq parts ≡ none
    → insert x.seq (message_of key x, x.index) (slot_or_new x.now (lookup key a.slots)).parts
      ≡ parts ++ part_of key x ∷ []
grown_parts key x a parts h new =
    rw (slot_parts x.now (lookup key a.slots), h)
      (insert-new x.seq (message_of key x, x.index) parts new)

-- A part that does not complete the message waits with the others.
arrive-waits :
    (key : PartKey) (x : Arrival) (a : Assembler) (parts : List (ℕ × Part))
    → held key a ≡ parts
    → lookup x.seq parts ≡ none
    → length parts + 1 < key.parts
    → ((arrive key x a).0 ≡ none) × (held key (arrive key x a).1 ≡ parts ++ part_of key x ∷ [])
unfolding add add_part
arrive-waits key x a parts h new few =
    let more = parts ++ part_of key x ∷ [] in
    let test : (length more == key.parts) ≡ false =
      ground (arith, length-append parts (part_of key x ∷ []), few) in
    let slot : Slot = record {
      since = (slot_or_new x.now (lookup key a.slots)).since;
      parts = more;
    } in
    rw (grown_parts key x a parts h new, test)
      (
        refl,
        let l = lookup-insert key key slot a.slots in rw (l, (key_beq_iff key key).1 refl) refl,
      )

-- The part that completes the message.
arrive-completes :
    (key : PartKey) (x : Arrival) (a : Assembler) (parts : List (ℕ × Part))
    → held key a ≡ parts
    → lookup x.seq parts ≡ none
    → length parts + 1 ≡ key.parts
    → ((arrive key x a).0 ≡ joined false (sort_by seq_of (parts ++ part_of key x ∷ [])))
      × (lookup key (arrive key x a).1.slots ≡ none)
unfolding add add_part assemble
arrive-completes key x a parts h new full =
    let more = parts ++ part_of key x ∷ [] in
    let test : (length more == key.parts) ≡ true =
      ground (arith, length-append parts (part_of key x ∷ []), full) in
    rw (grown_parts key x a parts h new, test)
      (refl, let l = lookup-remove key key a.slots in rw (l, (key_beq_iff key key).1 refl) refl)

arrive_all-waits :
    (key : PartKey) (xs : List Arrival) (a : Assembler) (parts : List (ℕ × Part))
    → held key a ≡ parts
    → AreNew key parts xs
    → length parts + length xs < key.parts
    → All (λ given. given ≡ none) (arrive_all key xs a).0
      × (held key (arrive_all key xs a).1 ≡ parts ++ map (part_of key) xs)
unfolding arrive_all
arrive_all-waits key [] a parts h new few = (tt, h ∙ sym (append-nil parts))
arrive_all-waits key (x ∷ xs) a parts h new few =
    let (nothing, h') = arrive-waits key x a parts h new.0 (omega (arith, few)) in
    let (rest, h'') =
      arrive_all-waits key xs (arrive key x a).1 (parts ++ part_of key x ∷ []) h' new.1
        (omega (arith, few, length-append parts (part_of key x ∷ []))) in
    ((nothing, rest), h'' ∙ append_assoc parts (part_of key x ∷ []) (map (part_of key) xs))

-- The last arrival apart.
AreNew-snoc :
    (key : PartKey) (xs : List Arrival) (x : Arrival) (parts : List (ℕ × Part))
    → AreNew key parts (xs ++ x ∷ [])
    → AreNew key parts xs × (lookup x.seq (parts ++ map (part_of key) xs) ≡ none)
AreNew-snoc key [] x parts h = (tt, rw (append-nil parts) h.0)
AreNew-snoc key (y ∷ xs) x parts h =
    let (before, last) = AreNew-snoc key xs x (parts ++ part_of key y ∷ []) h.1 in
    (
      (h.0, before),
      subst (λ m. lookup x.seq m ≡ none)
          (append_assoc parts (part_of key y ∷ []) (map (part_of key) xs)) last,
    )

map-snoc :
    (key : PartKey) (xs : List Arrival) (x : Arrival)
    → map (part_of key) (xs ++ x ∷ []) ≡ map (part_of key) xs ++ part_of key x ∷ []
map-snoc key [] x = refl
map-snoc key (y ∷ xs) x = ap (λ m. part_of key y ∷ m) (map-snoc key xs x)

length-parts : (key : PartKey) (xs : List Arrival) → length (map (part_of key) xs) ≡ length xs
length-parts key [] = refl
length-parts key (x ∷ xs) = omega (arith, length-parts key xs)

-- Let no part of a message wait, and all its parts come once each, in any order and at any times.
-- Then nothing is given out for any part but the last to come. For that one, the message is: its
-- parts in ascending order of their numbers, joined; and none of them waits any more.
pub arrive-joined :
    (key : PartKey) (xs : List Arrival) (x : Arrival) (a : Assembler)
    → lookup key a.slots ≡ none
    → AreNew key [] (xs ++ x ∷ [])
    → key.parts ≡ length xs + 1
    → All (λ given. given ≡ none) (arrive_all key xs a).0
      × ((arrive key x (arrive_all key xs a).1).0
          ≡ joined false (sort_by seq_of (map (part_of key) (xs ++ x ∷ []))))
      × Ascending seq_of (sort_by seq_of (map (part_of key) (xs ++ x ∷ [])))
      × (lookup key (arrive key x (arrive_all key xs a).1).1.slots ≡ none)
arrive-joined key xs x a absent new n =
    let nothing : held key a ≡ [] = rw absent refl in
    let (before, last) = AreNew-snoc key xs x [] new in
    let (none_given, h) = arrive_all-waits key xs a [] nothing before (omega (arith, n)) in
    let (given, gone) =
      arrive-completes key x (arrive_all key xs a).1 (map (part_of key) xs) h last
        (omega (arith, n, length-parts key xs)) in
    (
      none_given,
      rw (map-snoc key xs x) given,
      sort_by-Ascending seq_of (map (part_of key) (xs ++ x ∷ [])),
      gone,
    )
