-- ===== src/Outbox/Sending.antt =====
-- `_do_send` and `_send_one` of server/gtg_server/modem/worker.py: what the worker does with a record
-- that was queued. The modem's port is a parameter, with a state of its own; the clock, the random
-- reference and the texts of errors are arguments.
use generic_text_gateway.Common.{
  ◌==◌, if◌then◌else◌, nat_eq, Text, text_eq, DigitTable, ℕ, Bool, true, false, not, ◌||◌, Option,
  none, some, List, [], ◌∷◌, ◌++◌, map, ℤ,
}
use generic_text_gateway.Codec.Alphabet.{is_gsm7}
use generic_text_gateway.Codec.Recipient.{is_e164}
use generic_text_gateway.Codec.Submit.{Pdu, build_submit_pdus}
use generic_text_gateway.Outbox.{
  RecordState, Outbound, Outbox, Fields, update, get, queued, sending, submitted, failed,
  submission_unknown,
}

-- What `AT+CMGS` comes to: its reference, `ATTimeout`, `ATError`, or an `OSError` of the serial port.
pub data Reply : Type 0 where
  accepted : Option ℤ → Reply
  timed_out : Reply
  refused : Reply
  port_error : Reply

-- `port.execute` of `AT+CMGS` in PDU mode and in text mode.
pub record Port (W : Type 0) : Type 0 where
  pub send_pdu : W → Pdu → Reply × W
  pub send_text : W → Text → Text → Reply × W

-- What `_send_one` comes to: references, `ATTimeout`, `ATError` and `ValueError`, or `OSError`.
pub data Sent : Type 0 where
  sent : List (Option ℤ) → Sent
  unknown : Sent
  rejected : Sent
  broken : Sent

abbrev with_ref : Option ℤ → Sent → Sent
with_ref ref (sent refs) = sent (ref ∷ refs)
with_ref ref unknown = unknown
with_ref ref rejected = rejected
with_ref ref broken = broken

-- `text.replace("\r", " ").replace("\n", " ")`
abbrev pub one_line : Text → Text
one_line text = map (λ c. if c == 13 || c == 10 then 32 else c) text

module _ {W : Type 0} (port : Port W) where
  -- The PDUs of one recipient, until one is not accepted.
  unfoldable pub send_pdus : W → List Pdu → Sent × W
  send_pdus w [] = (sent [], w)
  send_pdus w (pdu ∷ pdus) =
      let (reply, w') = port.send_pdu w pdu in
      elim reply [
        | accepted ref ↦ let (rest, w'') = send_pdus w' pdus in (with_ref ref rest, w'')
        | timed_out ↦ (unknown, w')
        | refused ↦ (rejected, w')
        | port_error ↦ (broken, w')
      ]

  abbrev of_reply : Reply → Sent
  of_reply (accepted ref) = sent (ref ∷ [])
  of_reply timed_out = unknown
  of_reply refused = rejected
  of_reply port_error = broken

  abbrev send_built : W → Option (List Pdu) → Sent × W
  send_built w none = (rejected, w)
  send_built w (some pdus) = send_pdus w pdus

  unfoldable pub send_one : DigitTable → ℕ → Bool → Text → W → Text → Sent × W
  send_one t ref pdu_mode text w number =
      if not (is_e164 number)
      then (rejected, w)
      else if pdu_mode
      then send_built w (build_submit_pdus t ref number text)
      else if not (is_gsm7 text)
      then (rejected, w)
      else let (reply, w') = port.send_text w number (one_line text) in (of_reply reply, w')

  -- The loop over the recipients, and what `update` is called with at its end; `none` is an `OSError`, which
  -- `_do_send` does not catch. A part that fails loses the references of the parts before it.
  unfoldable pub send_all :
      (W → Text → Sent × W) → Text → List (Option ℤ) → Bool → W → List Text → Option Fields × W
  send_all one why refs sent_any w [] = (
    some (record {
      new_state = if sent_any then submitted else failed;
      new_refs = some refs;
      new_error = none;
    }),
    w,
  )
  send_all one why refs sent_any w (number ∷ numbers) =
      let (outcome, w') = one w number in
      elim outcome [
        | sent more ↦ send_all one why (refs ++ more) true w' numbers
        | unknown ↦ (
          some (record {
            new_state = submission_unknown;
            new_refs = some refs;
            new_error = some (some why);
          }),
          w',
        )
        | rejected ↦ (
          some (record { new_state = failed; new_refs = some refs; new_error = some (some why) }),
          w',
        )
        | broken ↦ (none, w')
      ]

abbrev pub is_queued : RecordState → Bool
is_queued queued = true
is_queued sending = false
is_queued submitted = false
is_queued failed = false
is_queued submission_unknown = false

abbrev pub of_state : RecordState → Fields
of_state s = record { new_state = s; new_refs = none; new_error = none }

module _ {S W : Type 0} (save_outbound : S → Outbound → S) (port : Port W) (t : DigitTable)
    (now why : Text) (ref : Text → ℕ) where
  -- The last `update`; after an `OSError` there is none, and the record stays in the state `sending`.
  abbrev pub finish : ℕ → Outbox S → Option Fields → Outbox S
  finish i b none = b
  finish i b (some fields) = (update save_outbound now i fields b).1

  -- A queued record is sent to each recipient.
  unfoldable pub send_queued : Bool → ℕ → Outbound → Outbox S → W → Outbox S × W
  send_queued pdu_mode i r b w =
      let b' = (update save_outbound now i (of_state sending) b).1 in
      let (fields, w') =
        send_all port (λ v number. send_one port t (ref number) pdu_mode r.text v number) why []
          false w r.to in
      (finish i b' fields, w')

  abbrev pub send_found : Bool → Bool → ℕ → Option Outbound → Outbox S → W → Outbox S × W
  send_found ready pdu_mode i none b w = (b, w)
  send_found ready pdu_mode i (some r) b w =
      if not (is_queued r.state)
      then (b, w)
      else if not ready
      then (
        (update save_outbound now i
            (record { new_state = failed; new_refs = none; new_error = some (some why) }) b).1,
        w,
      )
      else send_queued pdu_mode i r b w

  -- `_do_send`; `ready` is that the SIM is.
  unfoldable pub do_send : Bool → Bool → ℕ → Outbox S → W → Outbox S × W
  do_send ready pdu_mode i b w = send_found ready pdu_mode i (get i b) b w
