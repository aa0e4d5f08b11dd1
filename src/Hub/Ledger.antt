-- ===== src/Hub/Ledger.antt =====
-- Without a store: what becomes of every message that the hub numbers.
use generic_text_gateway.Common.{
  StrictlyAscending, ℤ, ltb, leb, ◌==◌, if◌then◌else◌, Option-cases, length, All, nat_eq, lookup,
  insert, entries, entries_of_some, entries-insert, entries-remove, Text, text_eq, ℕ, ◌+◌, ◌≤◌, ◌<◌,
  ◌≡◌, inl, inr, ◌&&◌, Option, none, some, List, [], ◌∷◌, arith,
}
use generic_text_gateway.Hub.Ring.{
  length-ring_append, ring_append-StrictlyAscending, ring_append-All,
}
use generic_text_gateway.Hub.Queue.{Published, health}
use generic_text_gateway.Hub.{
  StoreOps, Hub, id_of, ring_append, publish_commit, fan_out, broadcast, confirm_delivered,
  unsubscribe, subscribe, publish,
}

-- The calls that the worker and the API make.
pub data Call (M H : Type 0) : Type 0 where
  publish_call : M → List ℕ → Call M H
  confirm_call : ℕ → Call M H
  subscribe_call : Option ℤ → Option Text → Call M H
  unsubscribe_call : ℕ → Call M H
  broadcast_call : H → Call M H

-- The hub beside the ids for which `on_deliverable` was called.
pub record Ledger (S M H : Type 0) : Type 0 where
  pub hub : Hub S M H
  pub delivered : List ℕ

-- How often a number comes.
unfoldable pub count : ℕ → List ℕ → ℕ
count i [] = 0
count i (x ∷ xs) = (if x == i then 1 else 0) + count i xs

abbrev note : ℕ → Option (List ℕ) → List ℕ → List ℕ
note i none ids = ids
note i (some _) ids = i ∷ ids

module _ {S M H : Type 0} (ops : StoreOps S M) where
  unfoldable pub call : Ledger S M H → Call M H → Ledger S M H
  call l (publish_call msg indices) = record l { hub = (publish ops l.hub msg indices).1 }
  call l (confirm_call i) =
      let (indices, hub) = confirm_delivered l.hub i in
      record { hub = hub; delivered = note i indices l.delivered }
  call l (subscribe_call after stream) = record l { hub = (subscribe ops l.hub after stream).1 }
  call l (unsubscribe_call k) = record l { hub = unsubscribe l.hub k }
  call l (broadcast_call h) = record l { hub = broadcast (health h) l.hub }

  unfoldable pub calls : Ledger S M H → List (Call M H) → Ledger S M H
  calls l [] = l
  calls l (c ∷ cs) = calls (call l c) cs

  -- Each id that was handed out is pending, or was delivered, once and not both; no other id is.
  pub record IsBalanced (l : Ledger S M H) : Type 0 where
    pub no_store : l.hub.store ≡ none
    pub numbered : 1 ≤ l.hub.next_id
    pub balance :
        (i : ℕ)
        → entries i l.hub.pending + count i l.delivered
          ≡ (if leb 1 i && ltb i l.hub.next_id then 1 else 0)
    pub ring_bound : length l.hub.ring ≤ l.hub.ring_size
    pub ring_order : StrictlyAscending id_of l.hub.ring
    pub ring_ids : All (λ m. m.id < l.hub.next_id) l.hub.ring

  publish_commit_no_store :
      (hub : Hub S M H) (msg : M) (indices : List ℕ)
      → hub.store ≡ none
      → publish_commit ops hub msg indices ≡ (
        some (record { id = hub.next_id; body = msg }),
        record hub {
          next_id = hub.next_id + 1;
          pending = insert hub.next_id (msg, indices) hub.pending;
          ring = ring_append hub.ring_size hub.ring (record { id = hub.next_id; body = msg });
        },
      )
  unfolding publish_commit
  publish_commit_no_store hub msg indices h = ground arith

  publish-IsBalanced :
      (l : Ledger S M H) (msg : M) (indices : List ℕ)
      → IsBalanced l
      → IsBalanced (call l (publish_call msg indices))
  unfolding call publish fan_out
  publish-IsBalanced l msg indices b =
      let hub = l.hub in
      let m : Published M = record { id = hub.next_id; body = msg } in
      rw (publish_commit_no_store hub msg indices b.no_store) (record {
        no_store = b.no_store;
        numbered = omega arith;
        balance = λ i.
            ground (arith, b.balance i, entries-insert hub.next_id i (msg, indices) hub.pending);
        ring_bound = length-ring_append hub.ring_size hub.ring m;
        ring_order = ring_append-StrictlyAscending hub.ring_size hub.ring m b.ring_order b.ring_ids;
        ring_ids = ring_append-All hub.ring_size hub.ring m b.ring_ids;
      })

  confirm-IsBalanced :
      (l : Ledger S M H) (i : ℕ) → IsBalanced l → IsBalanced (call l (confirm_call i))
  unfolding call confirm_delivered count
  confirm-IsBalanced l i b = elim (Option-cases (lookup i l.hub.pending)) [
    | inl absent ↦ rw (absent, confirm_delivered, call) b
    | inr (entry, found) ↦
        rw (found, confirm_delivered, call)
          (record {
            no_store = b.no_store;
            numbered = b.numbered;
            balance = λ j. ground (
              arith,
              b.balance j,
              entries-remove i j l.hub.pending,
              entries_of_some i l.hub.pending found,
            );
            ring_bound = b.ring_bound;
            ring_order = b.ring_order;
            ring_ids = b.ring_ids;
          })
  ]

  call-IsBalanced : (l : Ledger S M H) (c : Call M H) → IsBalanced l → IsBalanced (call l c)
  unfolding call subscribe unsubscribe broadcast
  call-IsBalanced l (publish_call msg indices) b = publish-IsBalanced l msg indices b
  call-IsBalanced l (confirm_call i) b = confirm-IsBalanced l i b
  call-IsBalanced l (subscribe_call after stream) b = record {
    no_store = b.no_store;
    numbered = b.numbered;
    balance = b.balance;
    ring_bound = b.ring_bound;
    ring_order = b.ring_order;
    ring_ids = b.ring_ids;
  }
  call-IsBalanced l (unsubscribe_call k) b = record {
    no_store = b.no_store;
    numbered = b.numbered;
    balance = b.balance;
    ring_bound = b.ring_bound;
    ring_order = b.ring_order;
    ring_ids = b.ring_ids;
  }
  call-IsBalanced l (broadcast_call h) b = record {
    no_store = b.no_store;
    numbered = b.numbered;
    balance = b.balance;
    ring_bound = b.ring_bound;
    ring_order = b.ring_order;
    ring_ids = b.ring_ids;
  }

  -- Without a store, after any calls of the hub from a balanced one: each id that was handed out
  -- either waits in `pending`, once, or was passed to `on_deliverable`, once, and not both, and no
  -- other id is in either. The ring stays within its size, in ascending order of ids that were
  -- handed out.
  pub calls-IsBalanced :
      (cs : List (Call M H)) (l : Ledger S M H) → IsBalanced l → IsBalanced (calls l cs)
  unfolding calls
  calls-IsBalanced [] l b = b
  calls-IsBalanced (c ∷ cs) l b = calls-IsBalanced cs (call l c) (call-IsBalanced l c b)
