-- ===== src/Api/Messages.antt =====
-- `_health`, `_get_message` and `_history` of server/gtg_server/api.py: what a principal may read.
use generic_text_gateway.Common.{
  ◌>>=◌, ℤ, pos, negsuc, ◌==◌, if◌then◌else◌, nat_eq, lookup, insert, Text, codes, text_beq,
  text_eq, member, ℕ, ◌⊎◌, inl, inr, Bool, true, false, not, ◌&&◌, ◌||◌, Option, none, some, List,
  [], ◌∷◌,
}
use generic_text_gateway.Auth.{partition}
use generic_text_gateway.Outbox.{Outbound, Outbox, Public, get, public_record}
use generic_text_gateway.Api.{Refusal, Ident, refusal, is_empty, or_empty}

-- `ModemWorker.health`, as far as the handlers read it; the rest is one text.
pub record WorkerHealth : Type 0 where
  pub state : Text
  pub sim : Text
  pub modem : Text
  pub port : Text
  pub last_error : Option Text
  pub details : Text

-- The answer of `_health`; a key that was popped is `none`.
pub record HealthBody (St : Type 0) : Type 0 where
  pub state : Text
  pub sim : Text
  pub details : Text
  pub hub : St
  pub store_enabled : Bool
  pub version : Text
  pub status : Text
  pub modem : Option Text
  pub port : Option Text
  pub last_error : Option (Option Text)

unfoldable pub status_of : Text → Text
status_of state =
    if text_beq state (codes "ready")
    then codes "ok"
    else if text_beq state (codes "registering")
        || text_beq state (codes "starting")
        || text_beq state (codes "sim_pin_required")
    then codes "degraded"
    else codes "down"

abbrev pub is_all : Ident → Bool
is_all ident = text_beq ident.1 (codes "all")

-- `_health`
unfoldable pub health_answer :
    {St : Type 0} → St → Bool → Text → Ident → WorkerHealth → HealthBody St
unfolding status_of
health_answer hub store_enabled version ident w =
    let body : HealthBody _ = record {
      state = w.state;
      sim = w.sim;
      details = w.details;
      hub = hub;
      store_enabled = store_enabled;
      version = version;
      status = status_of w.state;
      modem = some w.modem;
      port = some w.port;
      last_error = some w.last_error;
    } in
    if is_all ident then body else record body { modem = none; port = none; last_error = none }

-- What stands behind the last slash.
unfoldable pub last_segment : Text → Text
last_segment [] = []
last_segment (c ∷ s) = if member 47 s then last_segment s else if c == 47 then s else c ∷ s

-- `rec.get("owner") != ident[0]`
abbrev pub is_owner : Ident → Option Text → Bool
is_owner ident none = false
is_owner ident (some owner) = text_beq owner ident.0

abbrev pub not_found : Refusal
not_found = refusal 404 (codes "not_found")

abbrev pub show_record : Ident → Option Outbound → Refusal ⊎ Public
show_record ident none = inl not_found
show_record ident (some r) =
    if not (is_all ident) && not (is_owner ident r.owner)
    then inl not_found
    else inr (public_record r)

abbrev pub message_at : {S : Type 0} → Ident → Outbox S → Option ℤ → Refusal ⊎ Public
message_at ident b none = inl (refusal 400 (codes "bad_request"))
message_at ident b (some (negsuc n)) = inl not_found
message_at ident b (some (pos n)) = show_record ident (get n b)

-- `_get_message`; no record has a negative id.
unfoldable pub get_message :
    {S : Type 0} → (Text → Option ℤ) → Text → Ident → Outbox S → Refusal ⊎ Public
get_message int path ident b = message_at ident b (int (last_segment path))

-- `params[key] = value` for each pair.
unfoldable pub query_pairs : List Text → List (Text × Text) → List (Text × Text)
query_pairs [] params = params
query_pairs (pair ∷ pairs) params =
    let (key, value) = partition 61 pair in
    query_pairs pairs (if is_empty key then params else insert key (or_empty value) params)

abbrev cons_first : ℕ → List Text → List Text
cons_first c [] = (c ∷ []) ∷ []
cons_first c (l ∷ ls) = (c ∷ l) ∷ ls

-- `split(sep)`, never empty
unfoldable pub split : ℕ → Text → List Text
split sep [] = [] ∷ []
split sep (c ∷ s) = elim (c == sep) [ true ↦ [] ∷ split sep s | false ↦ cons_first c (split sep s) ]

abbrev of_query : Option Text → List (Text × Text)
of_query none = []
of_query (some s) = query_pairs (split 38 s) []

-- `_query`
unfoldable pub query : Text → List (Text × Text)
query path = of_query (partition 63 path).1

abbrev pub or_text : Text → Option Text → Text
or_text default none = default
or_text default (some s) = s

-- `int(params["before"])` of a parameter that may be missing.
abbrev pub int_param : (Text → Option ℤ) → Option Text → Option (Option ℤ)
int_param int none = some none
int_param int (some s) = do n ← int s; some (some n)

abbrev or_int : ℤ → Option ℤ → ℤ
or_int default none = default
or_int default (some n) = n

-- The arguments of `store.history`, or the refusal.
pub record Page : Type 0 where
  pub inbox : Bool
  pub before : Option ℤ
  pub limit : ℤ

abbrev page_of : Bool → Option (Option ℤ) → Option (Option ℤ) → Refusal ⊎ Page
page_of inbox none limit = inl (refusal 400 (codes "bad_request"))
page_of inbox (some before) none = inl (refusal 400 (codes "bad_request"))
page_of inbox (some before) (some limit) =
    inr (record { inbox = inbox; before = before; limit = or_int (pos 50) limit })

-- `_history` up to its call of the store.
unfoldable pub history_page : (Text → Option ℤ) → Bool → Text → Refusal ⊎ Page
history_page int has_store path =
    if not has_store
    then inl (refusal 404 (codes "no_store"))
    else let params = query path in
      let box = or_text (codes "inbox") (lookup (codes "box") params) in
      let inbox = text_beq box (codes "inbox") in
      if not inbox && not (text_beq box (codes "outbox"))
      then inl (refusal 400 (codes "bad_request"))
      else page_of inbox (int_param int (lookup (codes "before") params))
          (int_param int (lookup (codes "limit") params))
