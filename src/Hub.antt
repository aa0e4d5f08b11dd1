-- ===== src/Hub.antt =====
-- `Hub` of server/gtg_server/hub.py: each method runs under the lock, but for the offers of `publish`
-- and `broadcast`, which follow it over a snapshot of the subscribers.
pub mod Queue
pub mod Gaps
pub mod Ring
pub mod Ledger
pub mod Replay
mod Tests
use generic_text_gateway.Common.{
  sort_by, count_key, ℤ, pos, ltb, ◌==◌, if◌then◌else◌, length, take_last, keep, nat_eq, lookup,
  insert, remove, Text, text_beq, text_eq, ℕ, ◌+◌, min, false, ◌&&◌, Option, none, some, List, [],
  ◌∷◌, ◌++◌, map, arith,
}
use Queue.{Published, Event, Subscriber, offer, message}

-- What the hub asks of a store: `FileStore` of server/gtg_server/store.py. A write that raises is
-- `none`, beside the state that it leaves.
pub record StoreOps (S M : Type 0) : Type 0 where
  pub save_inbound : S → Published M → ℕ → Option (Unit {0}) × S
  pub replay_after : S → ℕ → ℕ → List (Published M)

-- A subscriber is known by the number that `subscribe` gave it.
pub record Hub (S M H : Type 0) : Type 0 where
  pub ring_size : ℕ
  pub ring : List (Published M)
  pub subs : List (ℕ × Subscriber M H)
  pub next_sub : ℕ
  pub store : Option S
  pub pending : List (ℕ × (M × List ℕ))
  pub stream_id : Text
  pub next_id : ℕ

module _ {M : Type 0} where
  -- `m["id"]`
  abbrev pub id_of : Published M → ℕ
  id_of m = m.id

  -- `deque(maxlen=size).append`
  unfoldable pub ring_append : ℕ → List (Published M) → Published M → List (Published M)
  ring_append size ring m = take_last size (ring ++ m ∷ [])

  -- The messages that nobody has received.
  unfoldable pub pending_messages : List (ℕ × (M × List ℕ)) → List (Published M)
  pending_messages [] = []
  pending_messages ((i, (body, _)) ∷ rest) = record { id = i; body = body } ∷ pending_messages rest

  abbrev pub min_id : ℕ → List (Published M) → ℕ
  min_id n [] = n
  min_id n (x ∷ xs) = min_id (min n x.id) xs

  -- `min(ring_ids) if ring_ids else next_id`
  unfoldable pub oldest : ℕ → List (Published M) → ℕ
  oldest next_id [] = next_id
  oldest next_id (m ∷ ms) = min_id m.id ms

module _ {S M H : Type 0} (ops : StoreOps S M) where
  -- What the lock of `publish` covers: the id, the store or the pending table, and the ring. A
  -- store that raises leaves the id spent and the ring as it was.
  unfoldable pub publish_commit : Hub S M H → M → List ℕ → Option (Published M) × Hub S M H
  publish_commit hub msg modem_indices =
      let m : Published M = record { id = hub.next_id; body = msg } in
      let hub' = record hub { next_id = hub.next_id + 1 } in
      elim hub.store [
        | none ↦ (
          some m,
          record hub' {
            pending = insert hub.next_id (msg, modem_indices) hub.pending;
            ring = ring_append hub.ring_size hub.ring m;
          },
        )
        | some s ↦
            let (saved, s') = ops.save_inbound s m (hub.next_id + 1) in
            elim saved [
              | none ↦ (none, record hub' { store = some s' })
              | some _ ↦ (
                some m,
                record hub' { store = some s'; ring = ring_append hub.ring_size hub.ring m },
              )
            ]
      ]

module _ {M H : Type 0} where
  abbrev pub offer_to : Event M H → ℕ × Subscriber M H → ℕ × Subscriber M H
  offer_to event (k, s) = (k, (offer s event).0)

  -- `for msg in replay: sub.offer(...)`
  unfoldable pub offer_all : Subscriber M H → List (Published M) → Subscriber M H
  offer_all s [] = s
  offer_all s (m ∷ ms) = offer_all (offer s (message m)).0 ms

  -- `Subscriber()`
  abbrev pub new_subscriber : Subscriber M H
  new_subscriber = record { maxsize = 500; queue = []; gapped = false }

module _ {S M H : Type 0} where
  -- `for sub in subs: sub.offer(event)`
  unfoldable pub fan_out : Event M H → Hub S M H → Hub S M H
  fan_out event hub = record hub { subs = map (offer_to event) hub.subs }

  -- `broadcast`
  unfoldable pub broadcast : Event M H → Hub S M H → Hub S M H
  unfolding fan_out
  broadcast event hub = fan_out event hub

  -- The indices that `on_deliverable` is called with, if the message was pending.
  unfoldable pub confirm_delivered : Hub S M H → ℕ → Option (List ℕ) × Hub S M H
  confirm_delivered hub msg_id = elim (lookup msg_id hub.pending) [
    | none ↦ (none, hub)
    | some (_, indices) ↦ (some indices, record hub { pending = remove msg_id hub.pending })
  ]

  unfoldable pub unsubscribe : Hub S M H → ℕ → Hub S M H
  unsubscribe hub k = record hub { subs = remove k hub.subs }

  -- `0 <= after < next_id` on the right stream
  unfoldable pub valid_cursor : Hub S M H → Option ℤ → Option Text → Option ℕ
  valid_cursor hub (some (pos after)) (some stream) =
      if text_beq stream hub.stream_id && ltb after hub.next_id then some after else none
  valid_cursor hub after stream = none

module _ {S M H : Type 0} (ops : StoreOps S M) where
  -- The messages after the cursor: from the files, if the ring does not reach back so far, and from
  -- the ring.
  unfoldable pub cursor_replay : Hub S M H → ℕ → List (Published M)
  unfolding oldest
  cursor_replay hub after =
      let from_ring = keep (λ m. ltb after (id_of m)) hub.ring in
      elim hub.store [
        | none ↦ from_ring
        | some s ↦
            let oldest_ring = oldest hub.next_id hub.ring in
            if ltb (after + 1) oldest_ring
            then ops.replay_after s after oldest_ring ++ from_ring
            else from_ring
      ]

  abbrev pub replay_base : Hub S M H → Option ℕ → List (Published M)
  replay_base hub none = []
  replay_base hub (some after) = cursor_replay hub after

  -- `replay`, sorted: what the cursor asks for, and what nobody has received.
  unfoldable pub replay_for : Hub S M H → Option ℕ → List (Published M)
  unfolding cursor_replay pending_messages sort_by
  replay_for hub cursor =
      let base = replay_base hub cursor in
      let fresh =
        keep (λ m. count_key id_of (id_of m) base == 0)
          (sort_by id_of (pending_messages hub.pending)) in
      sort_by id_of (base ++ fresh)

  unfoldable pub subscribe : Hub S M H → Option ℤ → Option Text → ℕ × Hub S M H
  unfolding valid_cursor replay_for offer_all
  subscribe hub after stream_id =
      let sub = offer_all new_subscriber (replay_for hub (valid_cursor hub after stream_id)) in
      (
        hub.next_sub,
        record hub { subs = hub.subs ++ (hub.next_sub, sub) ∷ []; next_sub = hub.next_sub + 1 },
      )

  abbrev pub fan_out_if : Option (Published M) → Hub S M H → Hub S M H
  fan_out_if none hub = hub
  fan_out_if (some m) hub = fan_out (message m) hub

  -- `none` is the store's exception, after which nobody is offered the message.
  unfoldable pub publish : Hub S M H → M → List ℕ → Option (Published M) × Hub S M H
  unfolding publish_commit fan_out
  publish hub msg modem_indices =
      let (published, hub') = publish_commit ops hub msg modem_indices in
      (published, fan_out_if published hub')

-- `stats`
pub record Stats : Type 0 where
  pub subscribers : ℕ
  pub pending : ℕ
  pub ring : ℕ
  pub stream_id : Text
  pub next_id : ℕ

unfoldable pub stats : {S M H : Type 0} → Hub S M H → Stats
stats hub = record {
  subscribers = length hub.subs;
  pending = length hub.pending;
  ring = length hub.ring;
  stream_id = hub.stream_id;
  next_id = hub.next_id;
}
