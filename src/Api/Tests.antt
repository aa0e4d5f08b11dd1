-- ===== src/Api/Tests.antt =====
-- A request to send, a blocked client, two principals, and a stream that comes and goes.
use generic_text_gateway.Common.{
  pos, ltb, ◌==◌, Bool-cases, nat_eq, lookup, insert, remove, codes, text_beq, text_eq, starts_with,
  is_space, lstrip, rstrip, strip, is_ascii_digit, is_digits, ascii_table, ℕ, ◌+◌, ◌≡◌, refl, sym,
  ap, ◌↔◌, inl, inr, true, false, none, some, List, [], ◌∷◌, arith,
}
use generic_text_gateway.Codec.Alphabet.{
  index_from, gsm7_map, gsm7_ext_get, rev_lookup, is_gsm7_char, is_gsm7, septet_len, char_septets,
  to_septets,
}
use generic_text_gateway.Codec.Septets.{pack_septets}
use generic_text_gateway.Codec.Utf16.{utf16_char, utf16_encode}
use generic_text_gateway.Codec.Address.{
  hex_value, bcd_octets, padding, encode_digits, encode_address, hex_digit, upper,
}
use generic_text_gateway.Codec.Split.{split_gsm7, split_ucs2}
use generic_text_gateway.Codec.Recipient.{is_e164, drop_plus}
use generic_text_gateway.Codec.Submit.{
  octets, user_data_header, gsm7_user_data, ucs2_user_data, user_data, submit_tpdu, submit_parts,
  parts_of, build_submit_pdus, hex,
}
use generic_text_gateway.Auth.{
  Principal, Hashes, plain, blocked_for, allow, repeat, partition, check_token, matches_token,
  allows, ok,
}
use generic_text_gateway.Outbox.{
  Outbound, Outbox, create, create_new, evict, get, new_record, queued, truthy, public_record,
}
use generic_text_gateway.Outbox.Sending.{Port, accepted}
use generic_text_gateway.Api.{
  Python, Request, Ident, Guards, read_json, check_kind, check, authorize, any_scope, str, dict,
}
use generic_text_gateway.Api.Messages.{is_owner, get_message}
use generic_text_gateway.Api.Sending.{
  Gate, recipient_allowed, stripped_all, segments, wanted, SendReply, admit, send_message,
}
use generic_text_gateway.Api.Accepted.{posted}
use generic_text_gateway.Api.Routes.{
  do_get, do_post, send_message as send_call, route_path, rstrip_slash,
}
use generic_text_gateway.Api.Guarded.{IsAllowed, Holds, routes-IsAllowed}
use generic_text_gateway.Api.Isolation.{
  Agrees, any_scope-authorize, routes_blocked, get_message_alike,
}

abbrev py : Python
py = record {
  lower = λ s. s;
  int = λ s. some (pos 2);
  loads =
      λ b. dict ((codes "to", str (codes "+4917012345")) ∷ (codes "text", str (codes "hi")) ∷ []);
  b64decode = λ s. none;
}

abbrev hashes : Hashes
hashes = record { hash_token = λ s. s; verify_password = λ p e. false; cache_key = λ n p. n }

abbrev users : List Principal
users = record { name = codes "ha"; scope = codes "send"; kind = plain; secret = codes "k" } ∷ []

abbrev q : Request
q = record {
  client_ip = codes "::1";
  path = codes "/v1/messages/";
  authorization = some (codes "bearer k");
  content_type = some (codes "application/json");
  content_length = some (codes "2");
  last_event_id = none;
  x_stream_id = none;
  rfile = 123 ∷ 125 ∷ [];
}

abbrev free : Guards
free = record { kdf_cache = []; backoff = record { base = 2; cap = 300; state = [] } }

abbrev blocked : Guards
blocked = record {
  kdf_cache = [];
  backoff = record { base = 2; cap = 300; state = (codes "::1", (3, 40)) ∷ [] };
}

abbrev ha : Ident
ha = (codes "ha", codes "send")

-- The slash at the end is dropped, and the token is that of a principal who may send.
post_lem : (do_post py hashes users 7 q free).0 ≡ inr (send_call ha)
unfolding do_post route_path rstrip_slash authorize blocked_for check check_kind lookup partition
    strip lstrip rstrip is_space text_beq check_token matches_token allows ok remove
post_lem = refl

routes-IsAllowed_example : IsAllowed (Holds py hashes users free q) (send_call ha)
routes-IsAllowed_example =
    routes-IsAllowed py hashes users true 7 q free (send_call ha) (inr post_lem)

any_scope-authorize_example :
    Agrees py hashes users
      (any_scope py hashes users 7 q free)
      (authorize py hashes users 7 q (codes "receive") free)
any_scope-authorize_example = any_scope-authorize py hashes users 7 q free

blocked_lem : ltb 0 (blocked_for 7 (codes "::1") (blocked).backoff) ≡ true
unfolding blocked_for lookup text_beq
blocked_lem = refl

routes_blocked_example :
    (do_get py hashes users true 7 (record q { authorization = none }) blocked
      ≡ do_get py hashes users true 7 q blocked)
    × (do_post py hashes users 7 (record q { authorization = none }) blocked
        ≡ do_post py hashes users 7 q blocked)
routes_blocked_example = routes_blocked py hashes users true 7 q blocked none blocked_lem

abbrev old : Outbound
old = record {
  id = 2;
  to = [];
  text = [];
  state = queued;
  refs = [];
  error = none;
  created_at = [];
  updated_at = none;
  idempotency_key = none;
  owner = some (codes "other");
}

abbrev empty : Outbox (Unit {0})
empty = record { records = []; idem = []; next_id = 3; store = none; keep_limit = 5 }

abbrev filled : Outbox (Unit {0})
filled = record empty { records = (2, old) ∷ [] }

foreign : (r : Outbound) → old ≡ r → is_owner ha r.owner ≡ true → ⊥
unfolding text_beq
foreign r e h =
    let other : is_owner ha r.owner ≡ false = ap (λ (x : Outbound). is_owner ha x.owner) (sym e) in
    ground (arith, h, other)

-- The record is another's.
alike :
    (i : ℕ) (r : Outbound)
    → is_owner ha r.owner ≡ true
    → (get i filled ≡ some r) ↔ (get i empty ≡ some r)
unfolding get lookup
alike i r h = elim (Bool-cases (2 == i)) [
  | inl here ↦
      ((λ e. absurd (foreign r (ground (arith, e, here)) h)), (λ e. absurd (ground (arith, e))))
  | inr there ↦ ((λ e. absurd (ground (arith, e, there))), (λ e. absurd (ground (arith, e))))
]

get_message_alike_example :
    get_message (py).int (codes "/v1/messages/2") ha filled
    ≡ get_message (py).int (codes "/v1/messages/2") ha empty
unfolding text_beq
get_message_alike_example =
    get_message_alike (py).int (codes "/v1/messages/2") ha filled empty refl alike

abbrev gate : Gate (Unit {0})
gate = record { outbox = empty; rate = record { n = 9; window = 60; events = [] }; jobs = [] }

abbrev answer : SendReply × Gate (Unit {0})
answer = send_message ascii_table 7 [] py q 20 (codes "now") (codes "ready") ha gate

-- A modem that numbers its answers.
abbrev modem : Port ℕ
modem = record {
  send_pdu = λ w pdu. (accepted (some (pos w)), w + 1);
  send_text = λ w n s. (accepted (some (pos w)), w + 1);
}

-- What a run of `_send_message` computes with.
run : Unit {0}
unfolding lookup insert starts_with strip lstrip rstrip is_space text_beq is_ascii_digit is_digits
    index_from gsm7_map gsm7_ext_get rev_lookup is_gsm7_char is_gsm7 septet_len char_septets
    to_septets pack_septets utf16_char utf16_encode hex_value bcd_octets padding encode_digits
    encode_address split_gsm7 split_ucs2 octets user_data_header gsm7_user_data ucs2_user_data
    user_data hex_digit upper hex submit_tpdu submit_parts parts_of build_submit_pdus is_e164
    drop_plus partition read_json stripped_all recipient_allowed segments wanted admit send_message
    allow repeat create create_new evict truthy public_record get
run = tt

abbrev made : Outbound
made =
    new_record (codes "now")
      (posted ha
        (record { to = codes "+4917012345" ∷ []; text = codes "hi"; idem = none; cost = 1 }))
      3
