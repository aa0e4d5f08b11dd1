-- ===== src/Outbox/Tests.antt =====
-- A message of two recipients, of which the modem takes one.
use generic_text_gateway.Common.{
  pos, ◌==◌, if◌then◌else◌, All, nat_eq, lookup, insert, codes, text_beq, text_eq, starts_with,
  is_space, lstrip, rstrip, strip, is_ascii_digit, ascii_table, ℕ, ◌+◌, ◌≡◌, refl, Bool, true,
  false, none, some, [], ◌∷◌, ◌++◌, arith,
}
use generic_text_gateway.Codec.Alphabet.{is_gsm7, is_gsm7_char, gsm7_map, index_from}
use generic_text_gateway.Codec.Recipient.{is_e164, drop_plus}
use generic_text_gateway.Receive.{split_at, behind_colon}
use generic_text_gateway.Outbox.Serial.{cmgs_ref, ascii_replaced}
use generic_text_gateway.Outbox.Harmless.{recording, IsHarmless, do_send-IsHarmless}
use generic_text_gateway.Outbox.{
  Outbound, Outbox, truthy, evict, Posted, create_new, create, update, get,
}
use generic_text_gateway.Outbox.Replay.{IsValid, create-IsValid}
use generic_text_gateway.Outbox.Sending.{
  Port, send_one, send_all, send_queued, do_send, accepted, timed_out,
}
use generic_text_gateway.Outbox.Once.{do_send-again}

abbrev empty_outbox : Outbox ℕ
empty_outbox = record { records = []; idem = []; next_id = 1; store = none; keep_limit = 2 }

empty_outbox-IsValid : IsValid empty_outbox
unfolding lookup
empty_outbox-IsValid = record {
  indexed = λ k i h. absurd (ground (arith, h));
  below = λ i h. refl;
  bounded = omega arith;
}

abbrev request : Posted
request = record {
  to = codes "+4915112345" ∷ codes "112233" ∷ [];
  text = codes "hi";
  idempotency_key = some (codes "k");
  owner = none;
}

create-IsValid_example :
    ((answer : Outbound × Bool) × ((create (codes "t") request empty_outbox).0 ≡ some answer))
    × IsValid (create (codes "t") request empty_outbox).1
create-IsValid_example = create-IsValid (codes "t") request empty_outbox empty_outbox-IsValid

-- A modem that answers the first command, and counts them.
abbrev flaky : Port ℕ
flaky = record {
  send_pdu = λ w pdu. (if w == 0 then accepted (some (pos 7)) else timed_out, w + 1);
  send_text = λ w number text. (timed_out, w + 1);
}

-- A modem that takes each text.
abbrev willing_port : Port ℕ
willing_port = record {
  send_pdu = λ w pdu. (timed_out, w);
  send_text = λ w number text. (accepted none, w + 1);
}

abbrev one_queued : Outbox ℕ
unfolding create lookup
one_queued = (create (codes "t") request empty_outbox).1

do_send-again_example :
    do_send
      (λ s r. s)
      flaky
      ascii_table
      (codes "u")
      (codes "e")
      (λ n. 0)
      true
      true
      1
      (do_send
        (λ s r. s)
        flaky
        ascii_table
        (codes "t")
        (codes "e")
        (λ n. 0)
        true
        true
        1
        one_queued
        0).0
      (do_send
        (λ s r. s)
        flaky
        ascii_table
        (codes "t")
        (codes "e")
        (λ n. 0)
        true
        true
        1
        one_queued
        0).1
    ≡ do_send (λ s r. s) flaky ascii_table (codes "t") (codes "e") (λ n. 0) true true 1 one_queued 0
do_send-again_example =
    do_send-again (λ s r. s) flaky ascii_table (codes "t") (codes "u") (codes "e") (codes "e")
      (λ n. 0) (λ n. 0) true true true true 1 one_queued 0

-- A text that tries to send another command.
abbrev injecting : Outbox ℕ
unfolding create lookup
injecting =
    (create (codes "t")
      (record {
        to = codes "+4915" ∷ codes "1\"2" ∷ [];
        text = codes "a" ++ 13 ∷ 10 ∷ codes "AT";
        idempotency_key = none;
        owner = none;
      })
      empty_outbox).1

do_send-IsHarmless_example :
    All IsHarmless
      (do_send
        (λ s r. s)
        (recording willing_port)
        ascii_table
        (codes "t")
        (codes "e")
        (λ n. 0)
        true
        false
        1
        injecting
        (0, [])).1.1
do_send-IsHarmless_example =
    do_send-IsHarmless (λ s r. s) willing_port ascii_table (codes "t") (codes "e") (λ n. 0) true 1
      injecting 0

-- The first recipient is sent a line, the second one is refused.
injecting_lem :
    (do_send
      (λ s r. s)
      (recording willing_port)
      ascii_table
      (codes "t")
      (codes "e")
      (λ n. 0)
      true
      false
      1
      injecting
      (0, [])).1.1
    ≡ (codes "+4915", codes "a  AT") ∷ []
unfolding do_send send_queued send_all send_one get update lookup insert is_e164 drop_plus
    is_ascii_digit is_gsm7 is_gsm7_char gsm7_map index_from ascii_replaced injecting truthy
    create_new evict
injecting_lem = refl

cmgs_ref_lem :
    cmgs_ref
      (λ s. if text_beq s (codes "12") then some (pos 12) else none)
      (codes "+CMGS: 12,0" ∷ [])
    ≡ some (pos 12)
unfolding cmgs_ref split_at behind_colon strip lstrip rstrip is_space text_beq starts_with
cmgs_ref_lem = refl
