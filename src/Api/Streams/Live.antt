-- ===== src/Api/Streams/Live.antt =====
-- Any order of the steps that connections and the hub take.
use generic_text_gateway.Common.{
  ℤ, ◌==◌, if◌then◌else◌, length, length-append, nat_eq, entries, entries-remove, Text, text_eq, ℕ,
  ◌+◌, ◌≤◌, ◌≡◌, ◌∙◌, Option, none, some, List, [], ◌∷◌, ◌++◌, arith,
}
use generic_text_gateway.Hub.{
  StoreOps, Hub, offer_all, new_subscriber, broadcast, confirm_delivered, unsubscribe, valid_cursor,
  replay_for, subscribe, publish,
}
use generic_text_gateway.Hub.Queue.{Event}
use generic_text_gateway.Api.{Request}
use generic_text_gateway.Api.Streams.{cursor_of, reserve, attach, release}
use generic_text_gateway.Api.Streams.Subscribers.{
  SameSubs, entries-snoc, broadcast-SameSubs, publish-SameSubs, confirm_delivered-SameSubs,
}

-- The hub, the count, and the handlers that run: each with its subscriber, once it has one.
pub record World (S M H : Type 0) : Type 0 where
  pub hub : Hub S M H
  pub count : ℕ
  pub live : List (Option ℕ)

-- How many of the handlers have the subscriber `k`.
unfoldable pub holders : ℕ → List (Option ℕ) → ℕ
holders k [] = 0
holders k (none ∷ hs) = holders k hs
holders k (some j ∷ hs) = (if j == k then 1 else 0) + holders k hs

module _ {S M H : Type 0} (ops : StoreOps S M) (int : Text → Option ℤ) (max_subscribers : ℕ) where
  -- One step: a connection is refused or counted, one that was counted is attached, one ends wherever it is, or
  -- the hub publishes, broadcasts or is told of a delivery.
  pub data Step : World S M H → World S M H → Type 0 where
    refuse : (w : World S M H) → reserve max_subscribers w.count ≡ none → Step w w
    enter :
        (w : World S M H) (n : ℕ)
        → reserve max_subscribers w.count ≡ some n
        → Step w (record w { count = n; live = none ∷ w.live })
    start :
        (hub : Hub S M H) (count : ℕ) (before after : List (Option ℕ)) (q : Request)
        → Step
            (record { hub = hub; count = count; live = before ++ none ∷ after })
            (record {
              hub = (attach ops int q hub).1;
              count = count;
              live = before ++ some (attach ops int q hub).0 ∷ after;
            })
    finish :
        (hub : Hub S M H) (count : ℕ) (before after : List (Option ℕ)) (k : Option ℕ)
        → Step
            (record { hub = hub; count = count; live = before ++ k ∷ after })
            (record {
              hub = (release k (count, hub)).1;
              count = (release k (count, hub)).0;
              live = before ++ after;
            })
    published :
        (w : World S M H) (msg : M) (indices : List ℕ)
        → Step w (record w { hub = (publish ops w.hub msg indices).1 })
    broadcasted :
        (w : World S M H) (event : Event M H) → Step w (record w { hub = broadcast event w.hub })
    confirmed :
        (w : World S M H) (id : ℕ) → Step w (record w { hub = (confirm_delivered w.hub id).1 })

  -- What a run of steps comes to.
  pub data Reached (w : World S M H) : World S M H → Type 0 where
    here : Reached w w
    then_step : {v v' : World S M H} → Reached w v → Step v v' → Reached w v'

  -- Each handler is counted, within the limit, and the hub has one subscriber for each that is attached and
  -- no other.
  pub record IsCounted (w : World S M H) : Type 0 where
    pub counted : w.count ≡ length w.live
    pub limited : w.count ≤ max_subscribers
    pub held : (k : ℕ) → entries k w.hub.subs ≡ holders k w.live
    pub once : (k : ℕ) → holders k w.live ≤ 1
    pub fresh : (k : ℕ) → w.hub.next_sub ≤ k → holders k w.live ≡ 0

holders-append :
    (k : ℕ) (hs hs' : List (Option ℕ)) → holders k (hs ++ hs') ≡ holders k hs + holders k hs'
unfolding holders
holders-append k [] hs' = omega arith
holders-append k (none ∷ hs) hs' = holders-append k hs hs'
holders-append k (some j ∷ hs) hs' = omega (arith, holders-append k hs hs')

module _ {S M H : Type 0} (ops : StoreOps S M) (int : Text → Option ℤ) (max_subscribers : ℕ) where
  SameSubs-IsCounted :
      (w : World S M H) (hub : Hub S M H)
      → SameSubs w.hub hub
      → IsCounted ops int max_subscribers w
      → IsCounted ops int max_subscribers (record w { hub = hub })
  SameSubs-IsCounted w hub s c = record {
    counted = c.counted;
    limited = c.limited;
    held = λ k. s.same_subs k ∙ c.held k;
    once = c.once;
    fresh = λ k h. c.fresh k (omega (arith, h, s.same_next));
  }

  attach-IsCounted :
      (hub : Hub S M H) (count : ℕ) (before after : List (Option ℕ)) (q : Request)
      → IsCounted ops int max_subscribers
          (record { hub = hub; count = count; live = before ++ none ∷ after })
      → IsCounted ops int max_subscribers (record {
        hub = (attach ops int q hub).1;
        count = count;
        live = before ++ some (attach ops int q hub).0 ∷ after;
      })
  unfolding attach subscribe holders
  attach-IsCounted hub count before after q c =
      let n = hub.next_sub in
      let stood = λ (k : ℕ). holders-append k before (none ∷ after) in
      let stands = λ (k : ℕ). holders-append k before (some n ∷ after) in
      record {
        counted = omega (
          arith,
          c.counted,
          length-append before (none ∷ after),
          length-append before (some n ∷ after),
        );
        limited = c.limited;
        held = λ k. omega (
          arith,
          entries-snoc k n
              (offer_all new_subscriber
                (replay_for ops hub (valid_cursor hub (cursor_of int q).0 (cursor_of int q).1)))
              hub.subs,
          c.held k,
          stood k,
          stands k,
        );
        once = λ k. ground (arith, c.once k, c.fresh k, stood k, stands k);
        fresh = λ k h. ground (arith, h, c.fresh k, stood k, stands k);
      }

  finish-IsCounted :
      (hub : Hub S M H) (count : ℕ) (before after : List (Option ℕ)) (k : Option ℕ)
      → IsCounted ops int max_subscribers
          (record { hub = hub; count = count; live = before ++ k ∷ after })
      → IsCounted ops int max_subscribers (record {
        hub = (release k (count, hub)).1;
        count = (release k (count, hub)).0;
        live = before ++ after;
      })
  unfolding release unsubscribe holders
  finish-IsCounted hub count before after none c =
      let stood = λ (k : ℕ). holders-append k before (none ∷ after) in
      let stands = λ (k : ℕ). holders-append k before after in
      record {
        counted =
            omega
              (arith, c.counted, length-append before (none ∷ after), length-append before after);
        limited = omega (arith, c.limited);
        held = λ k. omega (arith, c.held k, stood k, stands k);
        once = λ k. omega (arith, c.once k, stood k, stands k);
        fresh = λ k h. omega (arith, c.fresh k h, stood k, stands k);
      }
  finish-IsCounted hub count before after (some j) c =
      let stood = λ (k : ℕ). holders-append k before (some j ∷ after) in
      let stands = λ (k : ℕ). holders-append k before after in
      record {
        counted =
            omega
              (arith, c.counted, length-append before (some j ∷ after), length-append before after);
        limited = omega (arith, c.limited);
        held =
            λ k. ground (arith, entries-remove j k hub.subs, c.held k, c.once k, stood k, stands k);
        once = λ k. omega (arith, c.once k, stood k, stands k);
        fresh = λ k h. omega (arith, c.fresh k h, stood k, stands k);
      }

  enter-IsCounted :
      (w : World S M H) (n : ℕ)
      → reserve max_subscribers w.count ≡ some n
      → IsCounted ops int max_subscribers w
      → IsCounted ops int max_subscribers (record w { count = n; live = none ∷ w.live })
  unfolding reserve holders
  enter-IsCounted w n e c = record {
    counted = ground (arith, e, c.counted);
    limited = ground (arith, e, c.limited);
    held = c.held;
    once = c.once;
    fresh = c.fresh;
  }

  Step-IsCounted :
      {w w' : World S M H}
      → Step ops int max_subscribers w w'
      → IsCounted ops int max_subscribers w
      → IsCounted ops int max_subscribers w'
  Step-IsCounted (refuse w e) c = c
  Step-IsCounted (enter w n e) c = enter-IsCounted w n e c
  Step-IsCounted (start hub count before after q) c = attach-IsCounted hub count before after q c
  Step-IsCounted (finish hub count before after k) c = finish-IsCounted hub count before after k c
  Step-IsCounted (published w msg indices) c =
      SameSubs-IsCounted w (publish ops w.hub msg indices).1
        (publish-SameSubs ops w.hub msg indices) c
  Step-IsCounted (broadcasted w event) c =
      SameSubs-IsCounted w (broadcast event w.hub) (broadcast-SameSubs event w.hub) c
  Step-IsCounted (confirmed w id) c =
      SameSubs-IsCounted w (confirm_delivered w.hub id).1 (confirm_delivered-SameSubs w.hub id) c

  -- Whatever order connections come, are attached and end in, at any point and for any reason, and whatever the hub
  -- does between: the count is the number of the handlers that run and never exceeds the limit, and the hub
  -- has exactly one subscriber for each handler that is attached and no other, so that none is leaked or lost.
  pub Reached-IsCounted :
      {w w' : World S M H}
      → Reached ops int max_subscribers w w'
      → IsCounted ops int max_subscribers w
      → IsCounted ops int max_subscribers w'
  Reached-IsCounted here c = c
  Reached-IsCounted (then_step r s) c = Step-IsCounted s (Reached-IsCounted r c)
