-- ===== src/Api/Accepted.antt =====
-- What a request to `_send_message` comes to, on every path.
use generic_text_gateway.Common.{
  ltb, Bool-cases, Option-cases, length, all, nat_eq, lookup, Text, codes, text_beq, text_eq,
  DigitTable, ℕ, ◌≤◌, ◌≡◌, refl, ◌⊎◌, inl, inr, true, false, Option, none, some, List, [], ◌∷◌,
  ◌++◌, arith,
}
use generic_text_gateway.Codec.Recipient.{is_e164}
use generic_text_gateway.Auth.{RateLimit, allow}
use generic_text_gateway.Outbox.{Outbound, Outbox, truthy, Posted, new_record, get, public_record}
use generic_text_gateway.Outbox.Replay.{IsValid}
use generic_text_gateway.Api.{Value, Refusal, Ident, str, list, other}
use generic_text_gateway.Api.Sending.{
  Gate, recipient_allowed, stripped_all, recipients_of, text_of, idem_of, segments, Wanted, keyed,
  wanted, SendReply, validate_read,
}

-- What each check has left of a request that passed them all.
pub record IsSound (t : DigitTable) (ref : ℕ) (prefixes : List Text) (w : Wanted) : Type 0 where
  pub some_one : ltb 0 (length w.to) ≡ true
  pub numbers : all is_e164 w.to ≡ true
  pub allowed : all (recipient_allowed prefixes) w.to ≡ true
  pub short : length w.text ≤ 5000
  pub encoded : segments t ref w.text w.to ≡ some w.cost

-- Recipients are never an empty list.
stripped_all-some :
    (n : Option Text) (ns : List (Option Text)) {to : List Text}
    → stripped_all (n ∷ ns) ≡ some to
    → ltb 0 (length to) ≡ true
unfolding stripped_all
stripped_all-some none ns h = ground (arith, h)
stripped_all-some (some n) ns h = elim (Option-cases (stripped_all ns)) [
  | inl e ↦ ground (arith, h, e)
  | inr (rest, e) ↦ ground (arith, h, e)
]

recipients_of-some :
    (v : Option Value) {to : List Text} → recipients_of v ≡ some to → ltb 0 (length to) ≡ true
recipients_of-some none h = ground (arith, h)
recipients_of-some (some (str s)) h = stripped_all-some (some s) [] h
recipients_of-some (some (list [])) h = ground (arith, h)
recipients_of-some (some (list (n ∷ ns))) h = stripped_all-some n ns h
recipients_of-some (some (other truth)) h = ground (arith, h)

module _ (t : DigitTable) (ref : ℕ) (prefixes : List Text) where
  keyed-IsSound :
      (to : List Text) (text : Text) (idem : Option (Option Text)) {w : Wanted}
      → ltb 0 (length to) ≡ true
      → length text ≤ 5000
      → all is_e164 to ≡ true
      → all (recipient_allowed prefixes) to ≡ true
      → keyed t ref to text idem ≡ inr w
      → IsSound t ref prefixes w
  keyed-IsSound to text none a b c d h = absurd (ground (arith, h))
  keyed-IsSound to text (some idem) {w} a b c d h = elim (Option-cases (segments t ref text to)) [
    | inl e ↦ absurd (ground (arith, h, e))
    | inr (n, e) ↦
        let same : record { to = to; text = text; idem = idem; cost = n } ≡ w =
          ground (arith, h, e) in
        rw (← same) (record { some_one = a; numbers = c; allowed = d; short = b; encoded = e })
  ]

  wanted-IsSound :
      (to : Option (List Text)) (text : Option Text) (idem : Option Value) {w : Wanted}
      → ((ns : List Text) → to ≡ some ns → ltb 0 (length ns) ≡ true)
      → wanted t ref prefixes to text idem ≡ inr w
      → IsSound t ref prefixes w
  unfolding wanted
  wanted-IsSound none text idem f h = absurd (ground (arith, h))
  wanted-IsSound (some to) none idem f h = absurd (ground (arith, h))
  wanted-IsSound (some to) (some text) idem f h = elim (Bool-cases (ltb 5000 (length text))) [
    | inl long ↦ absurd (ground (arith, h, long))
    | inr short ↦ elim (Bool-cases (all is_e164 to)) [
      | inr c ↦ absurd (ground (arith, h, c, short))
      | inl c ↦ elim (Bool-cases (all (recipient_allowed prefixes) to)) [
        | inr d ↦ absurd (ground (arith, h, c, d, short))
        | inl d ↦
            keyed-IsSound to text (idem_of idem) (f to refl) (ground (arith, short)) c d
              (ground (arith, h, c, d, short))
      ]
    ]
  ]

  pub validate-IsSound :
      (r : Refusal ⊎ List (Text × Value)) {w : Wanted}
      → validate_read t ref prefixes r ≡ inr w
      → IsSound t ref prefixes w
  validate-IsSound (inl e) h = absurd (ground (arith, h))
  validate-IsSound (inr fields) h =
      wanted-IsSound (recipients_of (lookup (codes "to") fields))
        (text_of (lookup (codes "text") fields)) (lookup (codes "idempotency_key") fields)
        (λ ns. recipients_of-some (lookup (codes "to") fields)) h

abbrev pub posted : Ident → Wanted → Posted
posted ident w = record { to = w.to; text = w.text; idempotency_key = w.idem; owner = some ident.0 }

-- Why a request that passed the checks of its body is refused all the same: it would exceed the rate, or the modem
-- is not ready.
pub data Refuses (now : ℕ) (state : Text) (cost : ℕ) (rate : RateLimit) : Refusal → Type 0 where
  over_rate :
      (allow now cost rate).0 ≡ false
      → Refuses now state cost rate
          (record { status = 429; code = codes "rate_limited"; retry_after = some 60 })
  no_modem :
      (allow now cost rate).0 ≡ true
      → text_beq state (codes "ready") ≡ false
      → text_beq state (codes "registering") ≡ false
      → Refuses now state cost rate
          (record { status = 503; code = codes "modem_unavailable"; retry_after = some 30 })

-- The rate limit grants it, and the modem is there.
abbrev pub IsAdmitted : ℕ → Text → ℕ → RateLimit → Type 0
IsAdmitted now state cost rate =
    ((allow now cost rate).0 ≡ true)
    × ((text_beq state (codes "ready") ≡ true) ⊎ (text_beq state (codes "registering") ≡ true))

-- What a request comes to, `read` being the reading of its body.
pub data Result {S : Type 0} (t : DigitTable) (ref : ℕ) (prefixes : List Text) (stamp : Text)
    (ident : Ident) (now : ℕ) (state : Text) (read : Refusal ⊎ Wanted) (g : Gate S)
    : SendReply × Gate S → Type 0 where
  invalid :
      (e : Refusal)
      → read ≡ inl e
      → Result t ref prefixes stamp ident now state read g (some (inl e), g)
  refused :
      (w : Wanted) (e : Refusal)
      → read ≡ inr w
      → IsSound t ref prefixes w
      → Refuses now state w.cost g.rate e
      → Result t ref prefixes stamp ident now state read g
          (some (inl e), record g { rate = (allow now w.cost g.rate).1 })
  known_key :
      (w : Wanted) (k : Text) (i : ℕ) (r : Outbound)
      → read ≡ inr w
      → IsSound t ref prefixes w
      → IsAdmitted now state w.cost g.rate
      → w.idem ≡ some k
      → lookup k g.outbox.idem ≡ some i
      → get i g.outbox ≡ some r
      → Result t ref prefixes stamp ident now state read g (
        some (inr (record { status = 200; body = public_record r })),
        record g { rate = (allow now w.cost g.rate).1 },
      )
  queued_new :
      (w : Wanted) (b : Outbox S)
      → read ≡ inr w
      → IsSound t ref prefixes w
      → IsAdmitted now state w.cost g.rate
      → ((k : Text) (i : ℕ) → truthy w.idem ≡ some k → lookup k g.outbox.idem ≡ some i → ⊥)
      → get g.outbox.next_id b ≡ some (new_record stamp (posted ident w) g.outbox.next_id)
      → IsValid b
      → Result t ref prefixes stamp ident now state read g (
        some (
            inr (record {
              status = 202;
              body = public_record (new_record stamp (posted ident w) g.outbox.next_id);
            })),
        record {
          outbox = b;
          rate = (allow now w.cost g.rate).1;
          jobs = g.jobs ++ g.outbox.next_id ∷ [];
        },
      )
