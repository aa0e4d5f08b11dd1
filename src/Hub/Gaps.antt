-- ===== src/Hub/Gaps.antt =====
-- The queue of a slow subscriber over its whole life, between the hub that offers events and the
-- stream that takes them.
use generic_text_gateway.Common.{
  ltb, if◌then◌else◌, ltb→lt, ltb→le, Bool-cases, length, take, drop, length-append, length-drop,
  take-append-drop, nat_eq, text_eq, ℕ, ◌+◌, ◌≤◌, ◌<◌, ◌≡◌, refl, sym, ◌∙◌, inl, inr, Bool, true,
  false, List, [], ◌∷◌, ◌++◌, append_assoc, arith,
}
use generic_text_gateway.Hub.Queue.{
  Published, Event, Subscriber, drop_oldest, offer, message, gap, health,
}
use generic_text_gateway.Hub.{new_subscriber}

module _ {M H : Type 0} where
  pub is_gap : Event M H → Bool
  is_gap gap = true
  is_gap (message m) = false
  is_gap (health h) = false

  -- The gap markers among events.
  pub gaps : List (Event M H) → ℕ
  gaps [] = 0
  gaps (e ∷ es) = (if is_gap e then 1 else 0) + gaps es

  gaps-append : (es fs : List (Event M H)) → gaps (es ++ fs) ≡ gaps es + gaps fs
  unfolding gaps
  gaps-append [] fs = omega arith
  gaps-append (e ∷ es) fs = omega (arith, gaps-append es fs)

-- What happens to a queue: the hub offers a message or a snapshot, or the stream takes the oldest
-- event.
pub data Action (M H : Type 0) : Type 0 where
  offer_message : Published M → Action M H
  offer_health : H → Action M H
  take_event : Action M H

-- A subscriber with all that it has taken and all that it was offered.
pub record Life (M H : Type 0) : Type 0 where
  pub sub : Subscriber M H
  pub taken : List (Event M H)
  pub offered : List (Event M H)

module _ {M H : Type 0} where
  abbrev offered_to : Life M H → Event M H → Life M H
  offered_to l e = record {
    sub = (offer l.sub e).0;
    taken = l.taken;
    offered = l.offered ++ e ∷ [];
  }

  unfoldable pub act : Life M H → Action M H → Life M H
  act l (offer_message m) = offered_to l (message m)
  act l (offer_health h) = offered_to l (health h)
  act l take_event = record {
    sub = drop_oldest l.sub;
    taken = l.taken ++ take 1 l.sub.queue;
    offered = l.offered;
  }

  unfoldable pub live : Life M H → List (Action M H) → Life M H
  live l [] = l
  live l (a ∷ as') = live (act l a) as'

  abbrev pub newborn : Life M H
  newborn = record { sub = new_subscriber; taken = []; offered = [] }

  -- The queue is within its bound; there is one gap marker, in the queue or taken, exactly when
  -- the queue has overflowed; until then the stream misses nothing.
  pub record IsFair (l : Life M H) : Type 0 where
    pub bound : l.sub.maxsize ≡ 500
    pub bounded : length l.sub.queue ≤ 500
    pub markers : gaps l.taken + gaps l.sub.queue ≡ (if l.sub.gapped then 1 else 0)
    pub complete : l.sub.gapped ≡ false → l.taken ++ l.sub.queue ≡ l.offered

  -- The three outcomes of an offer to a queue of 500.
  pub offer_room :
      (s : Subscriber M H) (e : Event M H)
      → s.maxsize ≡ 500
      → length s.queue < 500
      → (offer s e).0 ≡ record s { queue = s.queue ++ e ∷ [] }
  unfolding offer
  offer_room s e b h = ground arith

  offer_first :
      (s : Subscriber M H) (e : Event M H)
      → s.maxsize ≡ 500
      → 500 ≤ length s.queue
      → length (drop 1 s.queue) < 500
      → s.gapped ≡ false
      → (offer s e).0 ≡ record s { queue = drop 1 s.queue ++ gap ∷ []; gapped = true }
  unfolding offer
  offer_first s e b h r g = ground arith

  offer_again :
      (s : Subscriber M H) (e : Event M H)
      → s.maxsize ≡ 500
      → 500 ≤ length s.queue
      → s.gapped ≡ true
      → (offer s e).0 ≡ s
  unfolding offer
  offer_again s e b h g = ground arith

  gaps-drop : (es : List (Event M H)) → gaps es ≡ 0 → gaps (drop 1 es) ≡ 0
  unfolding gaps
  gaps-drop [] h = refl
  gaps-drop (e ∷ es) h = omega arith

  gaps-take-drop : (es : List (Event M H)) → gaps (take 1 es) + gaps (drop 1 es) ≡ gaps es
  gaps-take-drop es =
      let split = take-append-drop 1 es in rw (← gaps-append (take 1 es) (drop 1 es), split)

  -- A queue in the life of a subscriber, put back in its place.
  abbrev with_sub : Life M H → Event M H → Subscriber M H → Life M H
  with_sub l e s = record { sub = s; taken = l.taken; offered = l.offered ++ e ∷ [] }

  room-IsFair :
      (l : Life M H) (e : Event M H)
      → is_gap e ≡ false
      → length l.sub.queue < 500
      → IsFair l
      → IsFair (with_sub l e (record l.sub { queue = l.sub.queue ++ e ∷ [] }))
  unfolding gaps
  room-IsFair l e news h f = record {
    bound = f.bound;
    bounded = omega (arith, length-append l.sub.queue (e ∷ []));
    markers = rw (gaps-append l.sub.queue (e ∷ []), news) (omega (arith, f.markers));
    complete = λ g. sym (append_assoc l.taken l.sub.queue (e ∷ [])) ∙ rw (f.complete g);
  }

  first-IsFair :
      (l : Life M H) (e : Event M H)
      → length (drop 1 l.sub.queue) < 500
      → l.sub.gapped ≡ false
      → IsFair l
      → IsFair
          (with_sub l e (record l.sub { queue = drop 1 l.sub.queue ++ gap ∷ []; gapped = true }))
  unfolding gaps is_gap
  first-IsFair l e h g f =
      let quiet : gaps l.taken + gaps l.sub.queue ≡ 0 = f.markers ∙ rw g in
      record {
        bound = f.bound;
        bounded = omega (arith, length-append (drop 1 l.sub.queue) (gap ∷ []), h);
        markers =
            rw (gaps-append (drop 1 l.sub.queue) (gap ∷ []))
              (omega (arith, quiet, gaps-drop l.sub.queue (omega (arith, quiet))));
        complete = λ bad. cc;
      }

  again-IsFair :
      (l : Life M H) (e : Event M H) → l.sub.gapped ≡ true → IsFair l → IsFair (with_sub l e l.sub)
  again-IsFair l e g f = record {
    bound = f.bound;
    bounded = f.bounded;
    markers = f.markers;
    complete = λ no_gap. cc;
  }

  offered_to-IsFair :
      (l : Life M H) (e : Event M H) → is_gap e ≡ false → IsFair l → IsFair (offered_to l e)
  offered_to-IsFair l e news f = elim (Bool-cases (ltb (length l.sub.queue) 500)) [
    | inl room ↦
        let h = ltb→lt (length l.sub.queue) 500 room in
        rw (offer_room l.sub e f.bound h) (room-IsFair l e news h f)
    | inr full ↦
        let h = ltb→le (length l.sub.queue) 500 full in
        let one_less : length (drop 1 l.sub.queue) < 500 =
          omega (arith, length-drop 1 l.sub.queue, f.bounded, h) in
        elim (Bool-cases l.sub.gapped) [
          | inl again ↦ rw (offer_again l.sub e f.bound h again) (again-IsFair l e again f)
          | inr first ↦
              rw (offer_first l.sub e f.bound h one_less first) (first-IsFair l e one_less first f)
        ]
  ]

  take_event-IsFair : (l : Life M H) → IsFair l → IsFair (act l take_event)
  unfolding act drop_oldest
  take_event-IsFair l f = record {
    bound = f.bound;
    bounded = omega (arith, length-drop 1 l.sub.queue, f.bounded);
    markers =
        rw (gaps-append l.taken (take 1 l.sub.queue))
          (omega (arith, gaps-take-drop l.sub.queue, f.markers));
    complete = λ g.
        append_assoc l.taken (take 1 l.sub.queue) (drop 1 l.sub.queue)
        ∙ rw (take-append-drop 1 l.sub.queue) (f.complete g);
  }

  act-IsFair : (l : Life M H) (a : Action M H) → IsFair l → IsFair (act l a)
  unfolding act is_gap
  act-IsFair l (offer_message m) f = offered_to-IsFair l (message m) refl f
  act-IsFair l (offer_health h) f = offered_to-IsFair l (health h) refl f
  act-IsFair l take_event f = take_event-IsFair l f

  live-IsFair : (as' : List (Action M H)) (l : Life M H) → IsFair l → IsFair (live l as')
  unfolding live
  live-IsFair [] l f = f
  live-IsFair (a ∷ as') l f = live-IsFair as' (act l a) (act-IsFair l a f)

  -- Over the whole life of a subscriber, whatever it was offered and has taken: its queue holds at
  -- most 500 events; the events taken and queued hold one gap marker if the queue has ever
  -- overflowed, and none before; and before that they are all the events offered, in order.
  pub newborn-IsFair : (actions : List (Action M H)) → IsFair (live newborn actions)
  unfolding gaps
  newborn-IsFair actions =
      live-IsFair actions newborn
        (record { bound = refl; bounded = omega arith; markers = refl; complete = λ g. refl })
