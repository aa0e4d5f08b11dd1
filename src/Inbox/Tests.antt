-- ===== src/Inbox/Tests.antt =====
-- A message that comes twice, on a disk that is full.
use generic_text_gateway.Common.{
  ◌==◌, if◌then◌else◌, nat_eq, Text, codes, text_beq, text_eq, is_space, lstrip, rstrip, strip,
  is_ascii_digit, member, ℕ, ◌+◌, ◌≡◌, refl, true, false, none, some, [], ◌∷◌, arith,
}
use generic_text_gateway.Codec.Deliver.{
  decode_deliver, from_hex, unhex, octet_at, decode_tpdu, decode_scts, slice, decode_user_data,
  read_header, alphabet_of, decode_text, element, elements, sw, two_digits,
}
use generic_text_gateway.Codec.Address.{decode_address, hex_digit, nibbles, upper}
use generic_text_gateway.Codec.Alphabet.{from_septets, from_septets_loop, rev_lookup}
use generic_text_gateway.Codec.Septets.{from_bytes, unpack_from, unpack_septets}
use generic_text_gateway.Receive.{add}
use generic_text_gateway.Hub.{StoreOps, publish, publish_commit}
use generic_text_gateway.Receive.{Inbound}
use generic_text_gateway.Inbox.{
  Received, Deletion, Inbox, message_hash, hash_of, delete_indices, publish_new, publish_message,
  process_pdu, removed, passed_over,
}
use generic_text_gateway.Inbox.Duplicates.{publishes, publish_message-again}

-- A store that raises at each write.
abbrev full_disk : StoreOps ℕ Received
full_disk = record { save_inbound = λ s m next. (none, s); replay_after = λ s after before. [] }

-- A modem that removes all but place 8, and counts what it is asked.
abbrev modem : ℕ → ℕ → Deletion × ℕ
modem n i = (if i == 8 then passed_over else removed, n + 1)

abbrev worker : Inbox ℕ ℕ ℕ
worker = record {
  seen_hashes = [];
  hub = record {
    ring_size = 2;
    ring = [];
    subs = [];
    next_sub = 0;
    store = some 0;
    pending = [];
    stream_id = codes "s";
    next_id = 1;
  };
  assembler = record { stale_after = 300; slots = [] };
  modem = 0;
  deleted = [];
}

abbrev greeting : Inbound
greeting = record { sender = codes "+49"; text = codes "hi"; scts = codes "t"; partial = false }

abbrev other_message : Inbound
other_message = record { sender = codes "+1"; text = codes "a"; scts = codes "t"; partial = false }

nothing_seen : (h : Text) → member h [] ≡ false
unfolding member
nothing_seen h = refl

publish_message-again_example :
    publish_message full_disk
      (λ s. s)
      modem
      (codes "u")
      greeting
      (8 ∷ [])
      (publishes full_disk
        (λ s. s)
        modem
        ((codes "t", (other_message, 9 ∷ [])) ∷ [])
        (publish_message full_disk (λ s. s) modem (codes "t") greeting (7 ∷ []) worker).1)
    ≡ (
      true,
      publishes full_disk
          (λ s. s)
          modem
          ((codes "t", (other_message, 9 ∷ [])) ∷ [])
          (publish_message full_disk (λ s. s) modem (codes "t") greeting (7 ∷ []) worker).1,
    )
publish_message-again_example =
    publish_message-again full_disk (λ s. s) modem (codes "t") (codes "u") greeting (7 ∷ [])
      (8 ∷ []) ((codes "t", (other_message, 9 ∷ [])) ∷ []) worker
      (nothing_seen (hash_of (λ s. s) greeting)) (omega arith)

-- `00`, an SMS-DELIVER of `hi` from 1234: the store raises, nobody is offered the message, and it is
-- deleted from the modem all the same.
full_disk_loses :
    (process_pdu full_disk
      (λ s. s)
      modem
      0
      (codes "t")
      (codes "00040481214300004260714103008002E834")
      (some 7)
      worker).1.deleted
    ≡ 7 ∷ []
unfolding process_pdu decode_deliver from_hex unhex octet_at decode_tpdu decode_scts slice
    decode_user_data read_header alphabet_of decode_text element elements sw two_digits
    decode_address hex_digit nibbles upper from_septets from_septets_loop rev_lookup from_bytes
    unpack_from unpack_septets add strip lstrip rstrip is_space is_ascii_digit publish_message
    publish_new delete_indices publish publish_commit member text_beq message_hash
full_disk_loses = refl
