-- ===== src/Outbox/Serial.antt =====
-- The port of Outbox/Sending as it is: `AT+CMGS` through `execute`, as `_send_one` of
-- server/gtg_server/modem/worker.py calls it, and `_cmgs_ref` of the same file. `str` of a number and `int` of a text
-- are parameters.
use generic_text_gateway.Common.{
  ℤ, ltb, if◌then◌else◌, nat_eq, Text, Bytes, codes, text_eq, starts_with, strip, ℕ, false, Option,
  none, some, List, [], ◌∷◌, ◌++◌, map,
}
use generic_text_gateway.Receive.{split_at, behind_colon}
use generic_text_gateway.At.{Serial, Answer, answered, at_error, at_timeout, no_fuel, execute}
use generic_text_gateway.Outbox.Sending.{Port, Reply, accepted, timed_out, refused}

abbrev first_part : List Text → Text
first_part [] = []
first_part (p ∷ ps) = p

-- `_cmgs_ref`: the number behind the colon of the first line that has one, none if it is none.
unfoldable pub cmgs_ref : (Text → Option ℤ) → List Text → Option ℤ
cmgs_ref int [] = none
cmgs_ref int (line ∷ lines) =
    let later = cmgs_ref int lines in
    if starts_with line (codes "+CMGS:")
    then int (first_part (split_at 44 (strip (first_part (split_at 58 (behind_colon line))))))
    else later

-- `body.encode("ascii", errors="replace")`
unfoldable pub ascii_replaced : Text → Bytes
ascii_replaced text = map (λ c. if ltb c 128 then c else 63) text

abbrev pub quoted : Text → Text
quoted s = codes "\"" ++ (s ++ codes "\"")

-- What `_send_one` makes of an answer.
abbrev pub reply_of : (Text → Option ℤ) → Answer → Reply
reply_of int (answered lines) = accepted (cmgs_ref int lines)
reply_of int (at_error e) = refused
reply_of int at_timeout = timed_out
reply_of int no_fuel = timed_out

module _ (decode : Bytes → Text) {X : Type 0} (urc_cb : Text → Serial × X → Serial × X)
    (str : ℕ → Text) (int : Text → Option ℤ) (reads payload_reads : ℕ) where
  abbrev pub cmgs : Text → Bytes → Serial × X → Reply × (Serial × X)
  cmgs argument payload v =
      let (a, v') =
        execute decode urc_cb reads payload_reads (codes "AT+CMGS=" ++ argument) (some payload)
          (λ line. false) v in
      (reply_of int a, v')

  -- `port.execute` of `AT+CMGS` in both modes.
  unfoldable pub serial_port : Port (Serial × X)
  serial_port = record {
    send_pdu = λ v pdu. cmgs (str pdu.cmgs_length) pdu.pdu_hex v;
    send_text = λ v number body. cmgs (quoted number) (ascii_replaced body) v;
  }
