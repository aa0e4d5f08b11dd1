-- ===== src/Api/Sending.antt =====
-- `_send_message` and `_sim_pin` of server/gtg_server/api.py: what a principal may have done.
use generic_text_gateway.Common.{
  ◌>>=◌, ltb, leb, if◌then◌else◌, length, all, any, nat_eq, lookup, Text, codes, text_beq, text_eq,
  starts_with, strip, DigitTable, is_digits, ℕ, ◌+◌, ◌-◌, ◌⊎◌, inl, inr, Bool, true, false, not,
  ◌&&◌, ◌||◌, Option, none, some, List, [], ◌∷◌, ◌++◌,
}
use generic_text_gateway.Codec.Recipient.{is_e164}
use generic_text_gateway.Codec.Submit.{build_submit_pdus}
use generic_text_gateway.Auth.{RateLimit, allow}
use generic_text_gateway.Outbox.{Outbound, Outbox, Public, create, public_record}
use generic_text_gateway.Api.{
  Value, Python, Request, Refusal, Ident, refusal, is_empty, read_json, str, list, other,
}
use generic_text_gateway.Api.Messages.{WorkerHealth}

abbrev pub max_text_len : ℕ
max_text_len = 5000

-- What `_send_message` changes: the outbox, the rate limit, and the jobs of the worker.
pub record Gate (S : Type 0) : Type 0 where
  pub outbox : Outbox S
  pub rate : RateLimit
  pub jobs : List ℕ

-- `recipient_allowed`, of the configured prefixes
unfoldable pub recipient_allowed : List Text → Text → Bool
recipient_allowed [] number = true
recipient_allowed (p ∷ ps) number = any (λ q. starts_with number q) (p ∷ ps)

-- `all(isinstance(n, str) and n.strip() for n in to)`, and the stripped texts.
unfoldable pub stripped_all : List (Option Text) → Option (List Text)
stripped_all [] = some []
stripped_all (none ∷ ns) = none
stripped_all (some n ∷ ns) = do
  rest ← stripped_all ns
  if is_empty (strip n) then none else some (strip n ∷ rest)

abbrev pub nonempty_list : List (Option Text) → Option (List Text)
nonempty_list [] = none
nonempty_list (n ∷ ns) = stripped_all (n ∷ ns)

-- The recipients of `to`: a text stands for a list of itself.
abbrev pub recipients_of : Option Value → Option (List Text)
recipients_of none = none
recipients_of (some (str s)) = stripped_all (some s ∷ [])
recipients_of (some (list ns)) = nonempty_list ns
recipients_of (some (other truth)) = none

abbrev pub text_of : Option Value → Option Text
text_of none = none
text_of (some (str s)) = if is_empty (strip s) then none else some s
text_of (some (list ns)) = none
text_of (some (other truth)) = none

-- `data.get("idempotency_key") or None`, refused (`none`) unless it is a text or false.
abbrev pub idem_of : Option Value → Option (Option Text)
idem_of none = some none
idem_of (some (str [])) = some none
idem_of (some (str (c ∷ s))) = some (some (c ∷ s))
idem_of (some (list [])) = some none
idem_of (some (list (n ∷ ns))) = none
idem_of (some (other true)) = none
idem_of (some (other false)) = some none

-- `sum(len(build_submit_pdus(n, text)) for n in to)`
unfoldable pub segments : DigitTable → ℕ → Text → List Text → Option ℕ
segments t ref text [] = some 0
segments t ref text (n ∷ ns) = do
  pdus ← build_submit_pdus t ref n text
  rest ← segments t ref text ns
  some (length pdus + rest)

-- What was asked for, once every check of the body has passed.
pub record Wanted : Type 0 where
  pub to : List Text
  pub text : Text
  pub idem : Option Text
  pub cost : ℕ

abbrev pub priced : List Text → Text → Option Text → Option ℕ → Refusal ⊎ Wanted
priced to text idem none = inl (refusal 400 (codes "bad_request"))
priced to text idem (some n) = inr (record { to = to; text = text; idem = idem; cost = n })

abbrev pub keyed : DigitTable → ℕ → List Text → Text → Option (Option Text) → Refusal ⊎ Wanted
keyed t ref to text none = inl (refusal 400 (codes "bad_request"))
keyed t ref to text (some idem) = priced to text idem (segments t ref text to)

-- The checks on recipients and text.
unfoldable pub wanted :
    DigitTable → ℕ → List Text → Option (List Text) → Option Text → Option Value → Refusal ⊎ Wanted
wanted t ref prefixes none text idem = inl (refusal 400 (codes "bad_request"))
wanted t ref prefixes (some to) none idem = inl (refusal 400 (codes "bad_request"))
wanted t ref prefixes (some to) (some text) idem =
    if ltb max_text_len (length text)
    then inl (refusal 400 (codes "bad_request"))
    else if not (all is_e164 to)
    then inl (refusal 400 (codes "bad_request"))
    else if not (all (recipient_allowed prefixes) to)
    then inl (refusal 403 (codes "recipient_not_allowed"))
    else keyed t ref to text (idem_of idem)

-- What `_send_message` makes of the fields of the body.
abbrev pub validate : DigitTable → ℕ → List Text → List (Text × Value) → Refusal ⊎ Wanted
validate t ref prefixes fields =
    wanted t ref prefixes (recipients_of (lookup (codes "to") fields))
      (text_of (lookup (codes "text") fields)) (lookup (codes "idempotency_key") fields)

-- `202` or `200`, with the record.
pub record Accepted : Type 0 where
  pub status : ℕ
  pub body : Public

-- `none` is the `KeyError` of `Outbox.create`, which ends the request without an answer.
abbrev pub SendReply : Type 0
SendReply = Option (Refusal ⊎ Accepted)

abbrev pub validate_read :
    DigitTable → ℕ → List Text → Refusal ⊎ List (Text × Value) → Refusal ⊎ Wanted
validate_read t ref prefixes (inl e) = inl e
validate_read t ref prefixes (inr fields) = validate t ref prefixes fields

module _ {S : Type 0} (t : DigitTable) (ref : ℕ) (prefixes : List Text) where
  abbrev pub created : Gate S → Option (Outbound × Bool) × Outbox S → SendReply × Gate S
  created g (none, b) = (none, record g { outbox = b })
  created g (some (r, true), b) = (
    some (inr (record { status = 202; body = public_record r })),
    record g { outbox = b; jobs = g.jobs ++ r.id ∷ [] },
  )
  created g (some (r, false), b) =
      (some (inr (record { status = 200; body = public_record r })), record g { outbox = b })

  -- What follows the checks of the body; `state` is the modem's, `now` and `stamp` the clocks.
  unfoldable pub admit : ℕ → Text → Text → Ident → Wanted → Gate S → SendReply × Gate S
  admit now stamp state ident w g =
      let (granted, rate) = allow now w.cost g.rate in
      let g' : Gate S = record g { rate = rate } in
      if not granted
      then (
        some (inl (record { status = 429; code = codes "rate_limited"; retry_after = some 60 })),
        g',
      )
      else if not (text_beq state (codes "ready") || text_beq state (codes "registering"))
      then (
        some (
            inl (record { status = 503; code = codes "modem_unavailable"; retry_after = some 30 })),
        g',
      )
      else created g' (
          create stamp
            (record { to = w.to; text = w.text; idempotency_key = w.idem; owner = some ident.0 })
            g'.outbox)

  abbrev pub admit_valid : ℕ → Text → Text → Ident → Gate S → Refusal ⊎ Wanted → SendReply × Gate S
  admit_valid now stamp state ident g (inl e) = (some (inl e), g)
  admit_valid now stamp state ident g (inr w) = admit now stamp state ident w g

  -- `_send_message`
  unfoldable pub send_message :
      Python → Request → ℕ → Text → Text → Ident → Gate S → SendReply × Gate S
  send_message py q now stamp state ident g =
      admit_valid now stamp state ident g (validate_read t ref prefixes (read_json py q))

-- The job that `submit_pin` puts in the queue and the reply that comes within 25 seconds.
pub record PinBody : Type 0 where
  pub status : ℕ
  pub sim : Text
  pub runtime_submissions_left : ℕ

abbrev pub is_pin : DigitTable → Text → Bool
is_pin t pin = is_digits t pin && leb 4 (length pin) && leb (length pin) 8

abbrev pin_of : DigitTable → Option Value → Refusal ⊎ Text
pin_of t none = inl (refusal 400 (codes "bad_pin"))
pin_of t (some (str pin)) = if is_pin t pin then inr pin else inl (refusal 400 (codes "bad_pin"))
pin_of t (some (list ns)) = inl (refusal 400 (codes "bad_pin"))
pin_of t (some (other truth)) = inl (refusal 400 (codes "bad_pin"))

abbrev pin_read : DigitTable → Refusal ⊎ List (Text × Value) → Refusal ⊎ Text
pin_read t (inl e) = inl e
pin_read t (inr fields) = pin_of t (lookup (codes "pin") fields)

-- `_sim_pin` up to its call of `submit_pin`: a refusal, or the PIN that is submitted.
unfoldable pub sim_pin_request :
    DigitTable
    → Python
    → Request
    → (max_tries submissions : ℕ) → Text
    → WorkerHealth
    → Refusal ⊎ Text
sim_pin_request t py q max_tries submissions env_pin w =
    if not (is_empty env_pin)
    then inl (refusal 409 (codes "pin_configured"))
    else if leb (max_tries + 2) submissions
    then inl (refusal 423 (codes "pin_locked"))
    else if not (text_beq w.sim (codes "pin_required"))
    then inl (refusal 409 (codes "pin_not_required"))
    else pin_read t (read_json py q)

-- The answer, once the reply has come or has not.
unfoldable pub sim_pin_answer : (max_tries submissions : ℕ) → Option Text → Refusal ⊎ PinBody
sim_pin_answer max_tries submissions none = inl (refusal 504 (codes "pin_timeout"))
sim_pin_answer max_tries submissions (some result) = inr (record {
  status = if text_beq result (codes "ready") then 200 else 422;
  sim = result;
  runtime_submissions_left = (max_tries + 2) - submissions;
})
