-- ===== src/Hub/Replay.antt =====
-- What a new subscriber is given.
use generic_text_gateway.Common.{
  sort_by, count_key, Ascending, Above, StrictlyAscending, count_key-append, count_key-sort_by,
  sort_by-Ascending, count_key-keep, ℤ, pos, negsuc, ltb, ◌==◌, if◌then◌else◌, Bool-cases,
  Option-cases, length, keep, length-append, nat_eq, Text, text_beq, text_eq, ℕ, ◌+◌, ◌≤◌, ◌<◌, min,
  ◌≡◌, refl, sym, ap, ◌∙◌, ◌⊎◌, inl, inr, Bool, false, not, ◌&&◌, ◌||◌, Option, none, some, List,
  [], ◌∷◌, ◌++◌, map, append-nil, append_assoc, arith,
}
use generic_text_gateway.Hub.Queue.{Published, Event, Subscriber, message}
use generic_text_gateway.Hub.Gaps.{offer_room}
use generic_text_gateway.Hub.{
  StoreOps, Hub, id_of, pending_messages, min_id, oldest, offer_all, new_subscriber, valid_cursor,
  cursor_replay, replay_base, replay_for, subscribe,
}

module _ {S M H : Type 0} (ops : StoreOps S M) (hub : Hub S M H) (cursor : Option ℕ) where
  -- The replay holds each message that the cursor asks for, and each pending one, as often as
  -- these do, but never a message of both twice.
  pub count-replay_for :
      (i : ℕ)
      → count_key id_of i (replay_for ops hub cursor) ≡ (
          if count_key id_of i (replay_base ops hub cursor) == 0
          then count_key id_of i (pending_messages hub.pending)
          else count_key id_of i (replay_base ops hub cursor))
  unfolding replay_for
  count-replay_for i =
      let base = replay_base ops hub cursor in
      let waiting = sort_by id_of (pending_messages hub.pending) in
      let q = λ (j : ℕ). count_key id_of j base == 0 in
      count_key-sort_by id_of i (base ++ keep (λ m. q (id_of m)) waiting)
      ∙ count_key-append id_of i base (keep (λ m. q (id_of m)) waiting)
      ∙ rw
          (
            count_key-keep id_of q i waiting,
            count_key-sort_by id_of i (pending_messages hub.pending),
          )
          (ground arith)

  pub replay_for-Ascending : Ascending id_of (replay_for ops hub cursor)
  unfolding replay_for
  replay_for-Ascending =
      let base = replay_base ops hub cursor in
      let waiting = sort_by id_of (pending_messages hub.pending) in
      sort_by-Ascending (id_of {M = M})
        (base ++ keep (λ m. count_key id_of (id_of m) base == 0) waiting)

module _ {M H : Type 0} where
  -- Offers to a queue with room are appended in order.
  offer_all-room :
      (s : Subscriber M H) (ms : List (Published M))
      → s.maxsize ≡ 500
      → length s.queue + length ms ≤ 500
      → offer_all s ms ≡ record s { queue = s.queue ++ map message ms }
  unfolding offer_all
  offer_all-room s [] b h =
      ap (λ (q : List (Event M H)). record s { queue = q }) (sym (append-nil s.queue))
  offer_all-room s (m ∷ ms) b h =
      let s' : Subscriber M H = record s { queue = s.queue ++ message m ∷ [] } in
      rw (offer_room s (message m) b (omega arith)) (
        offer_all-room s' ms b (omega (arith, length-append s.queue (message m ∷ [])))
        ∙ ap (λ (q : List (Event M H)). record s { queue = q })
            (append_assoc s.queue (message m ∷ []) (map message ms)))

-- What a cursor asks for: a stream is named and is the present one, the id was given out, and the message is later.
abbrev pub asks : Option ℤ → Option Text → Text → ℕ → ℕ → Bool
asks none stream current next i = false
asks (some (negsuc a)) stream current next i = false
asks (some (pos a)) none current next i = false
asks (some (pos a)) (some s) current next i = text_beq s current && (ltb a next && ltb a i)

abbrev pub has : {M : Type 0} → ℕ → List (Published M) → Bool
has i ms = not (count_key id_of i ms == 0)

-- The id from which on the ring holds all: it is that of its first message, or the next one.
abbrev pub first_id : {M : Type 0} → ℕ → List (Published M) → ℕ
first_id next [] = next
first_id next (m ∷ ms) = m.id

-- A store gives messages between two ids, each once; not always all of them.
abbrev pub IsBetween : {S M : Type 0} → StoreOps S M → Option S → Type 0
IsBetween ops store =
    (s : _)
    → store ≡ some s
    → (a b i : ℕ)
    → (count_key id_of i (ops.replay_after s a b) ≤ 1)
      × ((ltb a i && ltb i b) ≡ false → count_key id_of i (ops.replay_after s a b) ≡ 0)

count-nothing : (M : Type 0) (i : ℕ) → count_key (id_of {M = M}) i [] ≡ 0
unfolding count_key
count-nothing M i = refl

module _ {M : Type 0} where
  count-Above :
      (i n : ℕ) (ms : List (Published M)) → i ≤ n → Above id_of n ms → count_key id_of i ms ≡ 0
  unfolding count_key
  count-Above i n [] p a = refl
  count-Above i n (m ∷ ms) p a = ground (arith, count-Above i n ms p a.1, a.0)

  count-StrictlyAscending :
      (i : ℕ) (ms : List (Published M)) → StrictlyAscending id_of ms → count_key id_of i ms ≤ 1
  unfolding count_key
  count-StrictlyAscending i [] a = omega arith
  count-StrictlyAscending i (m ∷ ms) a = elim (Bool-cases (m.id == i)) [
    | inl here ↦ ground (arith, count-Above i m.id ms (ground (arith, here)) a.0, here)
    | inr other ↦ ground (arith, count-StrictlyAscending i ms a.1, other)
  ]

  count-first_id :
      (i next : ℕ) (ms : List (Published M))
      → StrictlyAscending id_of ms
      → i < first_id next ms
      → count_key id_of i ms ≡ 0
  unfolding count_key
  count-first_id i next [] a p = refl
  count-first_id i next (m ∷ ms) a p = ground (arith, count-Above i m.id ms (omega (arith, p)) a.0)

  min_id-Above : (n : ℕ) (ms : List (Published M)) → Above id_of n ms → min_id n ms ≡ n
  min_id-Above n [] a = refl
  min_id-Above n (m ∷ ms) a =
      let e : min n m.id ≡ n = omega (arith, a.0) in rw (e) (min_id-Above n ms a.1)

  oldest-first_id :
      (next : ℕ) (ms : List (Published M))
      → StrictlyAscending id_of ms
      → oldest next ms ≡ first_id next ms
  unfolding oldest
  oldest-first_id next [] a = refl
  oldest-first_id next (m ∷ ms) a = min_id-Above m.id ms a.0

module _ {S M H : Type 0} (ops : StoreOps S M) (hub : Hub S M H) where
  -- What the store has beyond the ring.
  unfoldable pub stored : Option ℤ → List (Published M)
  stored none = []
  stored (some (negsuc a)) = []
  stored (some (pos a)) = elim hub.store [
    | none ↦ []
    | some s ↦ ops.replay_after s a (first_id hub.next_id hub.ring)
  ]

  not_in_ring :
      (i : ℕ)
      → StrictlyAscending id_of hub.ring
      → (ltb i (first_id hub.next_id hub.ring) ≡ false) ⊎ (count_key id_of i hub.ring ≡ 0)
  not_in_ring i order = elim (Bool-cases (ltb i (first_id hub.next_id hub.ring))) [
    | inl early ↦ inr (count-first_id i hub.next_id hub.ring order (ground (arith, early)))
    | inr late ↦ inl late
  ]

  count-cursor_replay :
      (a i : ℕ)
      → IsBetween ops hub.store
      → StrictlyAscending id_of hub.ring
      → count_key id_of i (cursor_replay ops hub a)
        ≡ (if ltb a i && (has i hub.ring || has i (stored (some (pos a)))) then 1 else 0)
  unfolding cursor_replay stored
  count-cursor_replay a i between order =
      let first = first_id hub.next_id hub.ring in
      let kept = count_key-keep (id_of {M = M}) (λ j. ltb a j) i hub.ring in
      let once = count-StrictlyAscending i hub.ring order in
      let same = oldest-first_id hub.next_id hub.ring order in
      elim (Option-cases hub.store) [
        | inl bare ↦
            rw (bare, cursor_replay, stored) (ground (arith, kept, once, count-nothing M i))
        | inr (s, files) ↦
            let law = between s files a first i in
            let late = not_in_ring i order in
            elim (Bool-cases (ltb (a + 1) first)) [
              | inl far ↦
                  let both =
                    count_key-append (id_of {M = M}) i (ops.replay_after s a first)
                      (keep (λ m. ltb a (id_of m)) hub.ring) in
                  rw (files, cursor_replay, stored, same, far)
                    (ground (arith, both, kept, once, law, late, far))
              | inr near ↦
                  rw (files, cursor_replay, stored, same, near)
                    (ground (arith, kept, once, law, late, near))
            ]
      ]

module _ {S M H : Type 0} (ops : StoreOps S M) (hub : Hub S M H) where
  count-replay_base :
      (after : Option ℤ) (stream : Option Text) (i : ℕ)
      → IsBetween ops hub.store
      → StrictlyAscending id_of hub.ring
      → count_key id_of i (replay_base ops hub (valid_cursor hub after stream)) ≡ (
          if asks after stream hub.stream_id hub.next_id i
            && (has i hub.ring || has i (stored ops hub after))
          then 1
          else 0)
  unfolding valid_cursor
  count-replay_base none stream i between order = count-nothing M i
  count-replay_base (some (negsuc a)) stream i between order = count-nothing M i
  count-replay_base (some (pos a)) none i between order = count-nothing M i
  count-replay_base (some (pos a)) (some stream) i between order =
      elim (Bool-cases (text_beq stream hub.stream_id && ltb a hub.next_id)) [
        | inl good ↦ rw (good) (ground (arith, good, count-cursor_replay ops hub a i between order))
        | inr bad ↦ rw (bad) (ground (arith, bad, count-nothing M i))
      ]

module _ {S M H : Type 0} (ops : StoreOps S M) (hub : Hub S M H) (after : Option ℤ)
    (stream : Option Text) where
  abbrev replay : List (Published M)
  replay = replay_for ops hub (valid_cursor hub after stream)

  -- For a ring in strictly ascending order, pending messages each once, and a store that gives messages between
  -- two ids, each once: if the replay has at most 500 messages, the new subscriber's queue is the replay, without a
  -- gap. The replay is in ascending order of ids. It holds each message once that is pending, or that the cursor asks
  -- for (it names the present stream, its id was given out, and the message is later) and that stands in the
  -- ring or is given by the store before the ring's first; and it holds no other.
  pub subscribe-replay :
      IsBetween ops hub.store
      → StrictlyAscending id_of hub.ring
      → ((i : ℕ) → count_key id_of i (pending_messages hub.pending) ≤ 1)
      → length replay ≤ 500
      → ((subscribe ops hub after stream).1.subs
          ≡ hub.subs
            ++ (hub.next_sub, record { maxsize = 500; queue = map message replay; gapped = false })
              ∷ [])
        × Ascending id_of replay
        × ((i : ℕ)
            → count_key id_of i replay ≡ (
                if asks after stream hub.stream_id hub.next_id i
                    && (has i hub.ring || has i (stored ops hub after))
                  || has i (pending_messages hub.pending)
                then 1
                else 0))
  unfolding subscribe
  subscribe-replay between order distinct h =
      let cursor = valid_cursor hub after stream in
      (
        ap (λ s. hub.subs ++ (hub.next_sub, s) ∷ [])
            (offer_all-room {M = M} {H = H} new_subscriber replay refl (omega (arith, h))),
        replay_for-Ascending ops hub cursor,
        λ i. ground (
          arith,
          count-replay_for ops hub cursor i,
          count-replay_base ops hub after stream i between order,
          distinct i,
        ),
      )
