-- ===== src/Outbox/Once.antt =====
-- A record is sent at most once.
use generic_text_gateway.Common.{
  ==_refl, Bool-cases, Option-cases, nat_eq, lookup-insert, Text, text_eq, DigitTable, ℕ, ◌≡◌, refl,
  ◌⊎◌, inl, inr, Bool, true, false, Option, none, some, List, [], ◌∷◌, ◌++◌, arith, ℤ,
}
use generic_text_gateway.Outbox.{Outbound, Outbox, Fields, updated, update, get, sending, failed}
use generic_text_gateway.Outbox.Sending.{
  Port, Sent, send_one, send_all, is_queued, of_state, finish, broken, send_queued, do_send, sent,
  unknown, rejected,
}

pub Sent-cases :
    (o : Sent)
    → ((refs : List (Option ℤ)) × (o ≡ sent refs))
      ⊎ ((o ≡ unknown) ⊎ ((o ≡ rejected) ⊎ (o ≡ broken)))
Sent-cases (sent refs) = inl (refs, refl)
Sent-cases unknown = inr (inl refl)
Sent-cases rejected = inr (inr (inl refl))
Sent-cases broken = inr (inr (inr refl))

-- A state that is not `queued`, where there is one.
abbrev IsPast : Option Fields → Type 0
IsPast none = Unit
IsPast (some f) = is_queued f.new_state ≡ false

-- No outcome of the loop is `queued`.
send_all-IsPast :
    {W : Type 0} (port : Port W) (one : W → Text → Sent × W) (why : Text) (to : List Text)
    (refs : List (Option ℤ)) (sent_any : Bool) (w : W)
    → IsPast (send_all port one why refs sent_any w to).0
unfolding send_all
send_all-IsPast port one why [] refs true w = refl
send_all-IsPast port one why [] refs false w = refl
send_all-IsPast port one why (number ∷ to) refs sent_any w = elim (Sent-cases (one w number).0) [
  | inl (more, e) ↦
      rw (e, send_all) (send_all-IsPast port one why to (refs ++ more) true (one w number).1)
  | inr (inl e) ↦ rw (e, send_all) refl
  | inr (inr (inl e)) ↦ rw (e, send_all) refl
  | inr (inr (inr e)) ↦ rw (e, send_all) tt
]

module _ {S : Type 0} (save_outbound : S → Outbound → S) where
  pub update_found :
      (now : Text) (i : ℕ) (f : Fields) (b : Outbox S) {r : Outbound}
      → get i b ≡ some r
      → get i (update save_outbound now i f b).1 ≡ some (updated now f r)
  unfolding update get
  update_found now i f b {r} e =
      let l = lookup-insert i i (updated now f r) b.records in
      rw (e, update) (ground (arith, l, ==_refl i))

module _ {S W : Type 0} (save_outbound : S → Outbound → S) (port : Port W) (t : DigitTable) where
  -- A record that is not queued is left alone.
  do_send-done :
      (now why : Text) (ref : Text → ℕ) (ready pdu_mode : Bool) (i : ℕ) (b : Outbox S) (w : W)
      {r : Outbound}
      → get i b ≡ some r
      → is_queued r.state ≡ false
      → do_send save_outbound port t now why ref ready pdu_mode i b w ≡ (b, w)
  unfolding do_send
  do_send-done now why ref ready pdu_mode i b w e done = rw (e, done) refl

  do_send-absent :
      (now why : Text) (ref : Text → ℕ) (ready pdu_mode : Bool) (i : ℕ) (b : Outbox S) (w : W)
      → get i b ≡ none
      → do_send save_outbound port t now why ref ready pdu_mode i b w ≡ (b, w)
  unfolding do_send
  do_send-absent now why ref ready pdu_mode i b w e = rw e refl

  finish-not_queued :
      (now why : Text) (ref : Text → ℕ) (i : ℕ) (b : Outbox S) (fields : Option Fields)
      {r : Outbound}
      → get i b ≡ some r
      → is_queued r.state ≡ false
      → IsPast fields
      → (r' : Outbound) × (get i (finish save_outbound port t now why ref i b fields) ≡ some r')
        × (is_queued r'.state ≡ false)
  finish-not_queued now why ref i b none {r} e past f = (r, e, past)
  finish-not_queued now why ref i b (some fields) {r} e past f =
      (updated now fields r, update_found save_outbound now i fields b e, f)

  -- A queued record is queued no more.
  send_queued-not_queued :
      (now why : Text) (ref : Text → ℕ) (pdu_mode : Bool) (i : ℕ) (b : Outbox S) (w : W)
      (r : Outbound)
      → get i b ≡ some r
      → (r' : Outbound) × (get i (send_queued save_outbound port t now why ref pdu_mode i r b w).0
          ≡ some r')
        × (is_queued r'.state ≡ false)
  unfolding send_queued
  send_queued-not_queued now why ref pdu_mode i b w r e =
      let one : W → Text → Sent × W =
        λ v number. send_one port t (ref number) pdu_mode r.text v number in
      finish-not_queued now why ref i (update save_outbound now i (of_state sending) b).1
        (send_all port one why [] false w r.to).0
        (update_found save_outbound now i (of_state sending) b e) refl
        (send_all-IsPast port one why r.to [] false w)

  do_send-not_queued :
      (now why : Text) (ref : Text → ℕ) (ready pdu_mode : Bool) (i : ℕ) (b : Outbox S) (w : W)
      {r : Outbound}
      → get i b ≡ some r
      → (r' : Outbound) × (get i (do_send save_outbound port t now why ref ready pdu_mode i b w).0
          ≡ some r')
        × (is_queued r'.state ≡ false)
  unfolding do_send
  do_send-not_queued now why ref ready pdu_mode i b w {r} e =
      elim (Bool-cases (is_queued r.state)) [
        | inr done ↦ rw (e, done) (r, e, done)
        | inl waiting ↦ elim (Bool-cases ready) [
          | inl is_ready ↦
              rw (e, waiting, is_ready) (send_queued-not_queued now why ref pdu_mode i b w r e)
          | inr not_ready ↦
              let f : Fields = record {
                new_state = failed;
                new_refs = none;
                new_error = some (some why);
              } in
              rw (e, waiting, not_ready)
                (updated now f r, update_found save_outbound now i f b e, refl)
        ]
      ]

  -- The worker never sends a record twice: once `_do_send` has been called with an id, a further
  -- call with it, whatever the state of the SIM, the mode and the time, changes neither the outbox
  -- nor the modem, even where the first call ended in an error or a timeout, or was left by an exception.
  pub do_send-again :
      (now now' why why' : Text) (ref ref' : Text → ℕ) (ready ready' pdu_mode pdu_mode' : Bool)
      (i : ℕ) (b : Outbox S) (w : W)
      → do_send save_outbound port t now' why' ref' ready' pdu_mode' i
          (do_send save_outbound port t now why ref ready pdu_mode i b w).0
          (do_send save_outbound port t now why ref ready pdu_mode i b w).1
        ≡ do_send save_outbound port t now why ref ready pdu_mode i b w
  do_send-again now now' why why' ref ref' ready ready' pdu_mode pdu_mode' i b w =
      elim (Option-cases (get i b)) [
        | inl absent ↦
            rw (do_send-absent now why ref ready pdu_mode i b w absent)
              (do_send-absent now' why' ref' ready' pdu_mode' i b w absent)
        | inr (r, found) ↦
            let (r', e, done) = do_send-not_queued now why ref ready pdu_mode i b w found in
            do_send-done now' why' ref' ready' pdu_mode' i
              (do_send save_outbound port t now why ref ready pdu_mode i b w).0
              (do_send save_outbound port t now why ref ready pdu_mode i b w).1 e done
      ]
