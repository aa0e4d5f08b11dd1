-- ===== src/Inbox.antt =====
-- What becomes of a message read from the modem: `_process_pdu` and `_publish` of
-- server/gtg_server/modem/worker.py, and `message_hash` of server/gtg_server/modem/receive.py. The
-- digest, the clock, the store and the modem are parameters.
pub mod Duplicates
mod Tests
use generic_text_gateway.Common.{
  if◌then◌else◌, take_last, nat_eq, Text, codes, text_eq, member, ℕ, ◌+◌, Bool, true, false, Option,
  none, some, List, [], ◌∷◌, ◌++◌, arith,
}
use generic_text_gateway.Codec.Deliver.{Decoded, deliver, status_report, other, decode_deliver}
use generic_text_gateway.Hub.{Hub, StoreOps, publish}
use generic_text_gateway.Receive.{Assembler, Inbound, add}

-- What is published.
pub record Received : Type 0 where
  pub inbound : Inbound
  pub received_at : Text
  pub hash : Text

-- How `AT+CMGD` ends: the message is removed; `ATError` or `ATTimeout`, which are passed over; or an `OSError` of the
-- serial port, which is not.
pub data Deletion : Type 0 where
  removed : Deletion
  passed_over : Deletion
  port_error : Deletion

-- The parts of the worker that inbound messages touch: the modem behind the port, and the indices that it
-- removed.
pub record Inbox (S H D : Type 0) : Type 0 where
  pub seen_hashes : List Text
  pub hub : Hub S Received H
  pub assembler : Assembler
  pub modem : D
  pub deleted : List ℕ

-- `message_hash` of the server
unfoldable pub message_hash : (Text → Text) → Text → Text → Text → Text
message_hash digest sender scts text = digest (sender ++ codes "|" ++ scts ++ codes "|" ++ text)

abbrev index_list : Option ℕ → List ℕ
index_list none = []
index_list (some i) = i ∷ []

abbrev pub has_store : {S : Type 0} → Option S → Bool
has_store none = false
has_store (some s) = true

abbrev pub hash_of : (Text → Text) → Inbound → Text
hash_of digest msg = message_hash digest msg.sender msg.scts msg.text

-- A hash that is new, of which the newest 5000 are kept.
abbrev pub remembered : Text → List Text → List Text
remembered h hashes = take_last 5000 (hashes ++ h ∷ [])

abbrev pub received_of : (Text → Text) → Text → Inbound → Received
received_of digest now msg = record { inbound = msg; received_at = now; hash = hash_of digest msg }

module _ {S H D : Type 0} (cmgd : D → ℕ → Deletion × D) where
  -- `_delete_indices`; `false` is an `OSError`.
  unfoldable pub delete_indices : List ℕ → Inbox S H D → Bool × Inbox S H D
  delete_indices [] w = (true, w)
  delete_indices (i ∷ indices) w =
      let (deletion, modem) = cmgd w.modem i in
      elim deletion [
        | removed ↦
            delete_indices indices (record w { modem = modem; deleted = w.deleted ++ i ∷ [] })
        | passed_over ↦ delete_indices indices (record w { modem = modem })
        | port_error ↦ (false, record w { modem = modem })
      ]

module _ {S H D : Type 0} (ops : StoreOps S Received) (digest : Text → Text)
    (cmgd : D → ℕ → Deletion × D) where
  -- `_publish` of a message that was not seen; `false` is an exception of the hub or of the port.
  unfoldable pub publish_new : Text → Inbound → List ℕ → Inbox S H D → Bool × Inbox S H D
  unfolding delete_indices
  publish_new now msg indices w =
      let hashes = remembered (hash_of digest msg) w.seen_hashes in
      let (published, hub) = publish ops w.hub (received_of digest now msg) indices in
      let w' = record w { seen_hashes = hashes; hub = hub } in
      elim published [
        | none ↦ (false, w')
        | some _ ↦ if has_store hub.store then delete_indices cmgd indices w' else (true, w')
      ]

  -- `_publish`
  unfoldable pub publish_message : Text → Inbound → List ℕ → Inbox S H D → Bool × Inbox S H D
  publish_message now msg indices w =
      if member (hash_of digest msg) w.seen_hashes then (true, w) else publish_new now msg indices w

  abbrev publish_result :
      Text → Option ℕ → Option (Inbound × List ℕ) → Inbox S H D → Bool × Inbox S H D
  publish_result now index none w = (true, w)
  publish_result now index (some (msg, indices)) w =
      let (ok, w') = publish_message now msg indices w in
      if ok then (true, w') else delete_indices cmgd (index_list index) w'

  abbrev process_decoded : ℕ → Text → Option ℕ → Option Decoded → Inbox S H D → Bool × Inbox S H D
  process_decoded seconds now index none w = (true, w)
  process_decoded seconds now index (some (deliver m)) w =
      let (result, assembler) = add seconds m index w.assembler in
      publish_result now index result (record w { assembler = assembler })
  process_decoded seconds now index (some status_report) w =
      delete_indices cmgd (index_list index) w
  process_decoded seconds now index (some other) w = delete_indices cmgd (index_list index) w

  -- `_process_pdu`; `false` is an `OSError` of the port.
  unfoldable pub process_pdu : ℕ → Text → Text → Option ℕ → Inbox S H D → Bool × Inbox S H D
  process_pdu seconds now pdu_hex index w =
      process_decoded seconds now index (decode_deliver pdu_hex) w
