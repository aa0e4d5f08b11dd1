-- ===== src/Outbox/Harmless.antt =====
-- What text mode writes to the serial line: `_do_send` and `_send_one` of server/gtg_server/modem/worker.py.
use generic_text_gateway.Common.{
  ℤ, ltb, leb, ◌==◌, Bool-cases, Option-cases, all, All, All-append, nat_eq, Text, Bytes, text_eq,
  is_ascii_digit, DigitTable, ℕ, suc, ◌≡◌, refl, inl, inr, Bool, true, false, not, ◌&&◌, ◌||◌,
  Option, some, List, [], ◌∷◌, ◌++◌, arith,
}
use generic_text_gateway.Codec.Alphabet.{
  gsm7_basic, index_from, gsm7_map, gsm7_ext_get, is_gsm7_char, is_gsm7,
}
use generic_text_gateway.Codec.Recipient.{is_e164, drop_plus}
use generic_text_gateway.Outbox.{Outbound, Outbox, get}
use generic_text_gateway.Outbox.Sending.{
  one_line, Port, Sent, send_one, send_all, is_queued, send_queued, do_send,
}
use generic_text_gateway.Outbox.Once.{Sent-cases}
use generic_text_gateway.Outbox.Serial.{ascii_replaced}

-- Printable ASCII: no end of a line, no escape, no Ctrl-Z, no DEL.
unfoldable pub is_printable : ℕ → Bool
is_printable c = leb 32 c && ltb c 127

abbrev is_text : ℕ → Bool
is_text c = leb 32 c && not (c == 127) || (c == 10 || c == 13)

abbrev in_table : ℕ → Bool
in_table c = is_text c || c == 27

index_from-is_text :
    (k c : ℕ) (xs : List ℕ) {i : ℕ}
    → all in_table xs ≡ true
    → index_from k c xs ≡ some i
    → is_text c ≡ true
unfolding index_from
index_from-is_text k c [] a h = absurd (ground (arith, h))
index_from-is_text k c (x ∷ xs) {i} a h = elim (Bool-cases (x == c && not (c == 27))) [
  | inl here ↦ ground (arith, here, a)
  | inr later ↦
      index_from-is_text (suc k) c xs {i = i} (ground (arith, a)) (ground (arith, h, later))
]

gsm7_map-is_text : (c : ℕ) {i : ℕ} → gsm7_map c ≡ some i → is_text c ≡ true
unfolding gsm7_map
gsm7_map-is_text c {i} h = index_from-is_text 0 c gsm7_basic {i = i} refl h

gsm7_ext_get-is_text : (c : ℕ) {i : ℕ} → gsm7_ext_get c ≡ some i → is_text c ≡ true
unfolding gsm7_ext_get
gsm7_ext_get-is_text c h = ground (arith, h)

is_gsm7_char-is_text : (c : ℕ) → is_gsm7_char c ≡ true → is_text c ≡ true
unfolding is_gsm7_char
is_gsm7_char-is_text c h = elim (Option-cases (gsm7_map c)) [
  | inr (i, e) ↦ gsm7_map-is_text c {i = i} e
  | inl no_basic ↦ elim (Option-cases (gsm7_ext_get c)) [
    | inr (v, e) ↦ gsm7_ext_get-is_text c {i = v} e
    | inl no_ext ↦ absurd (ground (arith, h, no_basic, no_ext))
  ]
]

payload_printable :
    (text : Text) → is_gsm7 text ≡ true → all is_printable (ascii_replaced (one_line text)) ≡ true
unfolding is_gsm7 ascii_replaced is_printable
payload_printable [] h = refl
payload_printable (c ∷ text) h =
    let fine = is_gsm7_char-is_text c (ground (arith, h)) in
    ground (arith, fine, payload_printable text (ground (arith, h)))

-- A plus or a digit.
abbrev pub is_dial : ℕ → Bool
is_dial c = c == 43 || is_ascii_digit c

digits-is_dial : (s : Text) → all is_ascii_digit s ≡ true → all is_dial s ≡ true
digits-is_dial [] h = refl
digits-is_dial (c ∷ s) h = ground (arith, h, digits-is_dial s)

is_e164-is_dial : (number : Text) → is_e164 number ≡ true → all is_dial number ≡ true
unfolding is_e164 drop_plus
is_e164-is_dial [] h = refl
is_e164-is_dial (c ∷ s) h = elim (Bool-cases (c == 43)) [
  | inl sign ↦ ground (arith, sign, digits-is_dial s (ground (arith, h, sign)))
  | inr digit ↦ digits-is_dial (c ∷ s) (ground (arith, h, digit))
]

-- A port, and what is written to it in text mode: the number, which stands between the quotes of the command, and the
-- payload.
abbrev pub recording : {W : Type 0} → Port W → Port (W × List (Text × Bytes))
recording port = record {
  send_pdu = λ v pdu. ((port.send_pdu v.0 pdu).0, ((port.send_pdu v.0 pdu).1, v.1));
  send_text = λ v number body. (
    (port.send_text v.0 number body).0,
    ((port.send_text v.0 number body).1, v.1 ++ (number, ascii_replaced body) ∷ []),
  );
}

-- A number of digits and plus signs, and a payload of printable ASCII.
abbrev pub IsHarmless : Text × Bytes → Type 0
IsHarmless (number, payload) = (all is_dial number ≡ true) × (all is_printable payload ≡ true)

module _ {W : Type 0} (port : Port W) where
  abbrev Safe : W × List (Text × Bytes) → Type 0
  Safe v = All IsHarmless v.1

  send_one-Safe :
      (t : DigitTable) (ref : ℕ) (text : Text) (v : W × List (Text × Bytes)) (number : Text)
      → Safe v
      → Safe (send_one (recording port) t ref false text v number).1
  unfolding send_one
  send_one-Safe t ref text v number safe = elim (Bool-cases (is_e164 number)) [
    | inr bad ↦ rw (bad, send_one) safe
    | inl good ↦ elim (Bool-cases (is_gsm7 text)) [
      | inr foreign ↦ rw (good, send_one, foreign) safe
      | inl plain ↦
          rw (good, send_one, plain)
            (All-append IsHarmless v.1 ((number, ascii_replaced (one_line text)) ∷ []) safe
              ((is_e164-is_dial number good, payload_printable text plain), tt))
    ]
  ]

  send_all-Safe :
      (one : W × List (Text × Bytes) → Text → Sent × (W × List (Text × Bytes))) (why : Text)
      (refs : List (Option ℤ)) (some_sent : Bool) (v : W × List (Text × Bytes)) (to : List Text)
      → ((u : W × List (Text × Bytes)) (number : Text) → Safe u → Safe (one u number).1)
      → Safe v
      → Safe (send_all (recording port) one why refs some_sent v to).1
  unfolding send_all
  send_all-Safe one why refs some_sent v [] keeps safe = safe
  send_all-Safe one why refs some_sent v (number ∷ to) keeps safe =
      elim (Sent-cases (one v number).0) [
        | inl (more, e) ↦
            rw (e, send_all)
              (send_all-Safe one why (refs ++ more) true (one v number).1 to keeps
                (keeps v number safe))
        | inr (inl e) ↦ rw (e, send_all) (keeps v number safe)
        | inr (inr (inl e)) ↦ rw (e, send_all) (keeps v number safe)
        | inr (inr (inr e)) ↦ rw (e, send_all) (keeps v number safe)
      ]

module _ {S W : Type 0} (save_outbound : S → Outbound → S) (port : Port W) (t : DigitTable) where
  -- Whatever record the worker sends in text mode, its recipients and its text being arbitrary, and whatever the
  -- modem answers: each number that `_do_send` writes to the port is of digits and plus signs alone, and each payload of
  -- printable ASCII alone. So neither can end the command, the quotes or the entry of the text, or cancel it.
  pub do_send-IsHarmless :
      (now why : Text) (ref : Text → ℕ) (ready : Bool) (i : ℕ) (b : Outbox S) (w : W)
      → All IsHarmless
          (do_send save_outbound (recording port) t now why ref ready false i b (w, [])).1.1
  unfolding do_send send_queued
  do_send-IsHarmless now why ref ready i b w = elim (Option-cases (get i b)) [
    | inl absent ↦ rw (absent) tt
    | inr (r, found) ↦ elim (Bool-cases (is_queued r.state)) [
      | inr done ↦ rw (found, done) tt
      | inl waiting ↦ elim (Bool-cases ready) [
        | inr not_ready ↦ rw (found, waiting, not_ready) tt
        | inl is_ready ↦
            rw (found, waiting, is_ready)
              (send_all-Safe port
                (λ v number. send_one (recording port) t (ref number) false r.text v number) why []
                false (w, []) r.to (λ u number. send_one-Safe port t (ref number) r.text u number)
                tt)
      ]
    ]
  ]
