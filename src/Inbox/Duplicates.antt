-- ===== src/Inbox/Duplicates.antt =====
-- A message that the modem reports again is published once.
use generic_text_gateway.Common.{
  Bool-cases, Option-cases, length, take_last, nat_eq, Text, text_eq, member, ℕ, ◌+◌, ◌<◌, ◌≡◌,
  refl, ◌⊎◌, inl, inr, true, false, List, [], ◌∷◌, ◌++◌, arith,
}
use generic_text_gateway.Hub.{StoreOps, publish}
use generic_text_gateway.Recent.{IsRecent, take_last-IsRecent, remembered-IsRecent, IsRecent-member}
use generic_text_gateway.Receive.{Inbound}
use generic_text_gateway.Inbox.{
  Received, Deletion, Inbox, has_store, hash_of, received_of, delete_indices, publish_new,
  publish_message, removed, passed_over, port_error,
}

Deletion-cases : (d : Deletion) → (d ≡ removed) ⊎ ((d ≡ passed_over) ⊎ (d ≡ port_error))
Deletion-cases removed = inl refl
Deletion-cases passed_over = inr (inl refl)
Deletion-cases port_error = inr (inr refl)

module _ {S H D : Type 0} (ops : StoreOps S Received) (digest : Text → Text)
    (cmgd : D → ℕ → Deletion × D) where
  delete_indices-seen :
      (indices : List ℕ) (w : Inbox S H D)
      → (delete_indices cmgd indices w).1.seen_hashes ≡ w.seen_hashes
  unfolding delete_indices
  delete_indices-seen [] w = refl
  delete_indices-seen (i ∷ indices) w = elim (Deletion-cases (cmgd w.modem i).0) [
    | inl e ↦
        rw (e, delete_indices)
          (delete_indices-seen indices
            (record w { modem = (cmgd w.modem i).1; deleted = w.deleted ++ i ∷ [] }))
    | inr (inl e) ↦
        rw (e, delete_indices)
          (delete_indices-seen indices (record w { modem = (cmgd w.modem i).1 }))
    | inr (inr e) ↦ rw (e, delete_indices) refl
  ]

  publish_new-seen :
      (now : Text) (msg : Inbound) (indices : List ℕ) (w : Inbox S H D)
      → (publish_new ops digest cmgd now msg indices w).1.seen_hashes
        ≡ take_last 5000 (w.seen_hashes ++ hash_of digest msg ∷ [])
  unfolding publish_new
  publish_new-seen now msg indices w =
      let (published, hub) = publish ops w.hub (received_of digest now msg) indices in
      elim (Option-cases (publish ops w.hub (received_of digest now msg) indices).0) [
        | inl failed ↦ rw (failed, publish_new) refl
        | inr (m, done) ↦
            elim (Bool-cases
              (has_store (publish ops w.hub (received_of digest now msg) indices).1.store)) [
                | inl kept ↦
                    rw (done, publish_new, kept)
                      (delete_indices-seen indices (record w {
                        seen_hashes = take_last 5000 (w.seen_hashes ++ hash_of digest msg ∷ []);
                        hub = (publish ops w.hub (received_of digest now msg) indices).1;
                      }))
                | inr bare ↦ rw (done, publish_new, bare) refl
              ]
      ]

  -- Other messages that are published, with the time and their places in the modem.
  unfoldable pub publishes : List (Text × (Inbound × List ℕ)) → Inbox S H D → Inbox S H D
  publishes [] w = w
  publishes ((now, (msg, indices)) ∷ others) w =
      publishes others (publish_message ops digest cmgd now msg indices w).1

  publish_message-IsRecent :
      (h now : Text) (msg : Inbound) (indices : List ℕ) (n : ℕ) (w : Inbox S H D)
      → n + 1 < 5000
      → IsRecent h n w.seen_hashes
      → IsRecent h (n + 1) (publish_message ops digest cmgd now msg indices w).1.seen_hashes
  unfolding publish_message
  publish_message-IsRecent h now msg indices n w small recent =
      elim (Bool-cases (member (hash_of digest msg) w.seen_hashes)) [
        | inl old ↦
            let (older, newer, e, few) = recent in
            rw (old, publish_message) (older, newer, e, omega (arith, few))
        | inr new ↦
            rw (new, publish_message, publish_new-seen now msg indices w)
              (remembered-IsRecent 5000 h (hash_of digest msg) n w.seen_hashes small recent)
      ]

  publishes-IsRecent :
      (h : Text) (others : List (Text × (Inbound × List ℕ))) (n : ℕ) (w : Inbox S H D)
      → n + length others < 5000
      → IsRecent h n w.seen_hashes
      → IsRecent h (n + length others) (publishes others w).seen_hashes
  unfolding publishes
  publishes-IsRecent h [] n w small recent =
      let (older, newer, e, few) = recent in (older, newer, e, omega (arith, few))
  publishes-IsRecent h ((now, (msg, indices)) ∷ others) n w small recent =
      let (older, newer, e, few) =
        publishes-IsRecent h others (n + 1) (publish_message ops digest cmgd now msg indices w).1
          (omega (arith, small))
          (publish_message-IsRecent h now msg indices n w (omega (arith, small)) recent) in
      (older, newer, e, omega (arith, few))

  -- Publishing a message again raises nothing and changes nothing: it is given to no subscriber and to no store a
  -- second time. This holds after the first publishing of a message whose hash is not remembered, even where that call
  -- raised, and after fewer than 5000 other messages, whatever becomes of them, at any time and from any places in
  -- the modem. So the places that it is read from are not deleted either.
  pub publish_message-again :
      (now later : Text) (msg : Inbound) (indices places : List ℕ)
      (others : List (Text × (Inbound × List ℕ))) (w : Inbox S H D)
      → member (hash_of digest msg) w.seen_hashes ≡ false
      → length others < 5000
      → publish_message ops digest cmgd later msg places
          (publishes others (publish_message ops digest cmgd now msg indices w).1)
        ≡ (true, publishes others (publish_message ops digest cmgd now msg indices w).1)
  unfolding publish_message
  publish_message-again now later msg indices places others w new few =
      let h = hash_of digest msg in
      let first = publish_message ops digest cmgd now msg indices w in
      let start : IsRecent h 0 first.1.seen_hashes =
        rw (new, publish_message, publish_new-seen now msg indices w)
          (take_last-IsRecent 5000 h 0 w.seen_hashes [] (omega arith) (omega arith)) in
      let seen =
        IsRecent-member h (0 + length others) (publishes others first.1).seen_hashes
          (publishes-IsRecent h others 0 first.1 (omega (arith, few)) start) in
      rw seen refl
