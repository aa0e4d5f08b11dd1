-- ===== src/Api/Streams/Subscribers.antt =====
-- What the methods of the hub leave of its subscribers: all but `subscribe` and `unsubscribe` leave each where
-- it is.
use generic_text_gateway.Common.{
  ◌==◌, if◌then◌else◌, Option-cases, nat_eq, lookup, entries, text_eq, ℕ, ◌+◌, ◌≡◌, refl, ap, ◌∙◌,
  inl, inr, Option, none, some, List, [], ◌∷◌, ◌++◌, map, arith,
}
use generic_text_gateway.Hub.{
  StoreOps, Hub, publish_commit, offer_to, fan_out, broadcast, confirm_delivered, fan_out_if,
  publish,
}
use generic_text_gateway.Hub.Queue.{Published, Event, Subscriber, message}

-- The hub has the same subscribers, whatever became of their queues.
pub record SameSubs {S M H : Type 0} (hub hub' : Hub S M H) : Type 0 where
  pub same_subs : (k : ℕ) → entries k hub'.subs ≡ entries k hub.subs
  pub same_next : hub'.next_sub ≡ hub.next_sub

entries-map :
    {M H : Type 0} (event : Event M H) (k : ℕ) (subs : List (ℕ × Subscriber M H))
    → entries k (map (offer_to event) subs) ≡ entries k subs
unfolding entries
entries-map event k [] = refl
entries-map event k ((j, s) ∷ subs) =
    ap (λ n. (if j == k then 1 else 0) + n) (entries-map event k subs)

pub entries-snoc :
    {V : Type 0} (k j : ℕ) (v : V) (m : List (ℕ × V))
    → entries k (m ++ (j, v) ∷ []) ≡ entries k m + (if j == k then 1 else 0)
unfolding entries
entries-snoc k j v [] = omega arith
entries-snoc k j v ((i, x) ∷ m) = omega (arith, entries-snoc k j v m)

pub fan_out-SameSubs :
    {S M H : Type 0} (event : Event M H) (hub : Hub S M H) → SameSubs hub (fan_out event hub)
unfolding fan_out
fan_out-SameSubs event hub = record {
  same_subs = λ k. entries-map event k hub.subs;
  same_next = refl;
}

pub broadcast-SameSubs :
    {S M H : Type 0} (event : Event M H) (hub : Hub S M H) → SameSubs hub (broadcast event hub)
unfolding broadcast
broadcast-SameSubs event hub = fan_out-SameSubs event hub

module _ {S M H : Type 0} (ops : StoreOps S M) where
  publish_commit-subs :
      (hub : Hub S M H) (msg : M) (indices : List ℕ)
      → ((publish_commit ops hub msg indices).1.subs ≡ hub.subs)
        × ((publish_commit ops hub msg indices).1.next_sub ≡ hub.next_sub)
  unfolding publish_commit
  publish_commit-subs hub msg indices = elim (Option-cases hub.store) [
    | inl e ↦ rw (e, publish_commit) (refl, refl)
    | inr (s, e) ↦
        elim (Option-cases
          (ops.save_inbound s (record { id = hub.next_id; body = msg }) (hub.next_id + 1)).0) [
            | inl raised ↦ rw (e, publish_commit, raised) (refl, refl)
            | inr (u, saved) ↦ rw (e, publish_commit, saved) (refl, refl)
          ]
  ]

  fan_out_if-SameSubs :
      (m : Option (Published M)) (hub : Hub S M H) → SameSubs hub (fan_out_if ops m hub)
  fan_out_if-SameSubs none hub = record { same_subs = λ k. refl; same_next = refl }
  fan_out_if-SameSubs (some m) hub = fan_out-SameSubs (message m) hub

  pub publish-SameSubs :
      (hub : Hub S M H) (msg : M) (indices : List ℕ) → SameSubs hub (publish ops hub msg indices).1
  unfolding publish
  publish-SameSubs hub msg indices =
      let (done, hub') = publish_commit ops hub msg indices in
      let (es, en) = publish_commit-subs hub msg indices in
      let offered =
        fan_out_if-SameSubs (publish_commit ops hub msg indices).0
          (publish_commit ops hub msg indices).1 in
      record {
        same_subs = λ k. offered.same_subs k ∙ ap (entries k) es;
        same_next = offered.same_next ∙ en;
      }

pub confirm_delivered-SameSubs :
    {S M H : Type 0} (hub : Hub S M H) (id : ℕ) → SameSubs hub (confirm_delivered hub id).1
unfolding confirm_delivered
confirm_delivered-SameSubs hub id = elim (Option-cases (lookup id hub.pending)) [
  | inl e ↦ rw (e, confirm_delivered) (record { same_subs = λ k. refl; same_next = refl })
  | inr (entry, e) ↦ rw (e, confirm_delivered) (record { same_subs = λ k. refl; same_next = refl })
]
