-- ===== src/Hub/Tests.antt =====
-- Runs of the hub: messages and subscribers come and go.
use generic_text_gateway.Common.{
  count_key, Ascending, pos, ltb, leb, if◌then◌else◌, Bool-cases, keep, nat_eq, entries, codes,
  text_beq, text_eq, ℕ, ◌≤◌, ◌≡◌, refl, inl, inr, false, ◌&&◌, ◌||◌, none, some, List, [], ◌∷◌,
  ◌++◌, map, arith,
}
use generic_text_gateway.Hub.Queue.{Published, message}
use generic_text_gateway.Hub.{
  StoreOps, Hub, id_of, pending_messages, valid_cursor, replay_for, subscribe,
}
use generic_text_gateway.Hub.Gaps.{
  Action, live, newborn, IsFair, newborn-IsFair, offer_message, take_event,
}
use generic_text_gateway.Hub.Ledger.{
  Call, Ledger, count, calls, IsBalanced, calls-IsBalanced, publish_call, subscribe_call,
  confirm_call,
}
use generic_text_gateway.Hub.Replay.{asks, has, IsBetween, stored, subscribe-replay}

-- A store that keeps what it is given, and never fails.
abbrev shelf : StoreOps (List (Published ℕ)) ℕ
shelf = record {
  save_inbound = λ s m next. (some tt, s ++ m ∷ []);
  replay_after = λ s after before. keep (λ m. ltb after m.id && ltb m.id before) s;
}

abbrev fresh_hub : Hub (List (Published ℕ)) ℕ ℕ
fresh_hub = record {
  ring_size = 2;
  ring = [];
  subs = [];
  next_sub = 0;
  store = none;
  pending = [];
  stream_id = codes "s";
  next_id = 1;
}

abbrev fresh_ledger : Ledger (List (Published ℕ)) ℕ ℕ
fresh_ledger = record { hub = fresh_hub; delivered = [] }

fresh_balance : (i : ℕ) → ◌≡◌ {A = ℕ} 0 (if leb 1 i && ltb i 1 then 1 else 0)
fresh_balance i = ground arith

fresh_ledger-IsBalanced : IsBalanced shelf fresh_ledger
unfolding entries count
fresh_ledger-IsBalanced = record {
  no_store = refl;
  numbered = omega arith;
  balance = fresh_balance;
  ring_bound = omega arith;
  ring_order = tt;
  ring_ids = tt;
}

abbrev script : List (Call ℕ ℕ)
script =
    publish_call 10 (3 ∷ [])
    ∷ publish_call 20 (4 ∷ [])
    ∷ subscribe_call none none
    ∷ confirm_call 1
    ∷ confirm_call 1
    ∷ publish_call 30 []
    ∷ []

calls-IsBalanced_example : IsBalanced shelf (calls shelf fresh_ledger script)
calls-IsBalanced_example = calls-IsBalanced shelf script fresh_ledger fresh_ledger-IsBalanced

abbrev actions : List (Action ℕ ℕ)
actions = offer_message (record { id = 1; body = 5 }) ∷ take_event ∷ []

newborn-IsFair_example : IsFair (live newborn actions)
newborn-IsFair_example = newborn-IsFair actions

abbrev second : Published ℕ
second = record { id = 2; body = 20 }

abbrev third : Published ℕ
third = record { id = 3; body = 30 }

-- A store that still has the message before the ring's.
abbrev filed_hub : Hub (List (Published ℕ)) ℕ ℕ
filed_hub = record fresh_hub {
  ring = second ∷ third ∷ [];
  store = some (record { id = 1; body = 10 } ∷ second ∷ []);
  next_id = 4;
}

-- What the cursor 0 asks for.
abbrev asked : List (Published ℕ)
asked = replay_for shelf filed_hub (valid_cursor filed_hub (some (pos 0)) (some (codes "s")))

asked_lem : asked ≡ record { id = 1; body = 10 } ∷ second ∷ third ∷ []
unfolding valid_cursor replay_for text_beq count_key
asked_lem = refl

nothing_waits : (i : ℕ) → count_key (id_of {M = ℕ}) i (pending_messages []) ≤ 1
unfolding count_key pending_messages
nothing_waits i = omega arith

shelf-IsBetween : IsBetween shelf filed_hub.store
unfolding count_key
shelf-IsBetween s e a b i =
    let same : record { id = 1; body = 10 } ∷ second ∷ [] ≡ s = ground (arith, e) in
    rw (← same) (elim (Bool-cases (ltb a 1 && ltb 1 b)) [
      | inl p ↦ elim (Bool-cases (ltb a 2 && ltb 2 b)) [
        | inl q ↦ rw (p, q) (ground arith, λ h. ground (arith, h, p, q))
        | inr q ↦ rw (p, q) (ground arith, λ h. ground (arith, h, p, q))
      ]
      | inr p ↦ elim (Bool-cases (ltb a 2 && ltb 2 b)) [
        | inl q ↦ rw (p, q) (ground arith, λ h. ground (arith, h, p, q))
        | inr q ↦ rw (p, q) (ground arith, λ h. ground (arith, h, p, q))
      ]
    ])

subscribe-replay_example :
    ((subscribe {H = ℕ} shelf filed_hub (some (pos 0)) (some (codes "s"))).1.subs
      ≡ (0, record { maxsize = 500; queue = map message asked; gapped = false }) ∷ [])
    × Ascending id_of asked
    × ((i : ℕ)
        → count_key id_of i asked ≡ (
            if asks (some (pos 0)) (some (codes "s")) (codes "s") 4 i
                && (has i (second ∷ third ∷ []) || has i (stored shelf filed_hub (some (pos 0))))
              || has i (pending_messages {M = ℕ} [])
            then 1
            else 0))
subscribe-replay_example =
    subscribe-replay shelf filed_hub (some (pos 0)) (some (codes "s")) shelf-IsBetween
      ((omega arith, tt), (tt, tt)) nothing_waits (rw asked_lem (omega arith))
