-- ===== src/Api/Submission.antt =====
-- From a request to the modem: `_send_message` of server/gtg_server/api.py and `_do_send` of
-- server/gtg_server/modem/worker.py together.
use generic_text_gateway.Common.{
  ◌>>=◌, ℤ, nat_eq, Text, text_eq, DigitTable, ℕ, ◌≡◌, ◌⊎◌, inr, true, Option, none, some, List, [],
  ◌∷◌, ◌++◌,
}
use generic_text_gateway.Codec.Submit.{Pdu, build_submit_pdus}
use generic_text_gateway.Outbox.{Outbound, get, submitted}
use generic_text_gateway.Outbox.Sending.{
  Reply, Port, do_send, accepted, timed_out, refused, port_error,
}
use generic_text_gateway.Api.{Refusal}
use generic_text_gateway.Api.Sending.{Gate, Wanted, Accepted, SendReply}
use generic_text_gateway.Api.Accepted.{refused as refused_then}

-- A modem that takes each PDU.
unfoldable pub IsWilling : {W : Type 0} → Port W → Type 0
IsWilling port = (w : _) (pdu : Pdu) → (ref : Option ℤ) × ((port.send_pdu w pdu).0 ≡ accepted ref)

-- The PDUs of all recipients, in order.
unfoldable pub all_pdus : DigitTable → (Text → ℕ) → Text → List Text → Option (List Pdu)
all_pdus t ref text [] = some []
all_pdus t ref text (number ∷ to) = do
  pdus ← build_submit_pdus t (ref number) number text
  rest ← all_pdus t ref text to
  some (pdus ++ rest)

abbrev pub reference : Reply → Option ℤ
reference (accepted ref) = ref
reference timed_out = none
reference refused = none
reference port_error = none

-- A modem that is handed PDUs one after the other: its references, and the modem after.
unfoldable pub handed : {W : Type 0} → Port W → W → List Pdu → List (Option ℤ) × W
handed port w [] = ([], w)
handed port w (pdu ∷ pdus) =
    let (reply, w') = port.send_pdu w pdu in
    let (refs, w'') = handed port w' pdus in (reference reply ∷ refs, w'')

module _ {S W : Type 0} (save_outbound : S → Outbound → S) (port : Port W) (t : DigitTable) where
  -- The worker submits a text to recipients: every PDU of every recipient is handed to the modem in order, the record
  -- is submitted, and it holds the references of all.
  unfoldable pub IsSubmitted : Text → Text → (Text → ℕ) → ℕ → List Text → Text → Gate S → W → Type 0
  IsSubmitted now why ref i to text g w =
      (pdus : List Pdu) × (all_pdus t ref text to ≡ some pdus)
      × ((r : Outbound) × (get i (do_send save_outbound port t now why ref true true i g.outbox w).0
            ≡ some r)
          × (r.to ≡ to)
          × (r.text ≡ text)
          × (r.state ≡ submitted)
          × (r.refs ≡ (handed port w pdus).0))
      × ((do_send save_outbound port t now why ref true true i g.outbox w).1
          ≡ (handed port w pdus).1)

  abbrev pub Answered : SendReply × Gate S → Type 0
  Answered (reply, g) = (a : Accepted) × (reply ≡ some (inr a)) × (a.status ≡ 202)

  -- What was asked for is the last job, and the worker submits it.
  unfoldable pub IsCarriedOut :
      Text → Text → (Text → ℕ) → Refusal ⊎ Wanted → Gate S → Gate S → W → Type 0
  IsCarriedOut now why ref read g g' w =
      (asked : Wanted) × (read ≡ inr asked)
      × (g'.jobs ≡ g.jobs ++ g.outbox.next_id ∷ [])
      × IsSubmitted now why ref g.outbox.next_id asked.to asked.text g' w
