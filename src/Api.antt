-- ===== src/Api.antt =====
-- The HTTP interface: server/gtg_server/api.py, from a request to its answer. Sockets and headers of the
-- answers are left out but for what a client must act on. The texts of errors are left out, their codes kept.
pub mod Access
pub mod Credentials
pub mod Messages
pub mod Sending
pub mod Accepted
pub mod Submission
pub mod Streams
pub mod Routes
pub mod Guarded
pub mod Isolation
mod Tests
use generic_text_gateway.Common.{
  ℤ, pos, negsuc, ltb, ◌==◌, if◌then◌else◌, take, nat_eq, Text, Bytes, codes, text_beq, text_eq,
  strip, ℕ, ◌+◌, ◌*◌, ◌/◌, ◌⊎◌, inl, inr, Bool, true, false, not, ◌&&◌, ◌||◌, Option, none, some,
  List, [], ◌∷◌, arith,
}
use generic_text_gateway.Auth.{
  partition, Principal, Hashes, check_token, check_basic, allows, Backoff, blocked_for, fail, ok,
}

-- A value in the JSON object of a body, as far as the handlers tell them apart: a text, a list with its
-- texts, or anything else by its truth.
pub data Value : Type 0 where
  str : Text → Value
  list : List (Option Text) → Value
  other : Bool → Value

-- `json.loads` of a body: no JSON, no object, or an object.
pub data Loaded : Type 0 where
  not_json : Loaded
  not_dict : Loaded
  dict : List (Text × Value) → Loaded

-- What is called of Python's library: `str.lower`, `int` of a text, `json.loads`, and the decoding of
-- Base64 to UTF-8.
pub record Python : Type 0 where
  pub lower : Text → Text
  pub int : Text → Option ℤ
  pub loads : Bytes → Loaded
  pub b64decode : Text → Option Text

-- A request, its headers by their names.
pub record Request : Type 0 where
  pub client_ip : Text
  pub path : Text
  pub authorization : Option Text
  pub content_type : Option Text
  pub content_length : Option Text
  pub last_event_id : Option Text
  pub x_stream_id : Option Text
  pub rfile : Bytes

-- `_error`: status, code, and the seconds of `Retry-After`. The status 0 is that of no answer: the request was ended by
-- an exception.
pub record Refusal : Type 0 where
  pub status : ℕ
  pub code : Text
  pub retry_after : Option ℕ

-- A name and its scope.
abbrev pub Ident : Type 0
Ident = Text × Text

-- The state that the guards of all handlers share.
pub record Guards : Type 0 where
  pub kdf_cache : List Text
  pub backoff : Backoff

abbrev pub refusal : ℕ → Text → Refusal
refusal status code = record { status = status; code = code; retry_after = none }

abbrev pub max_body : ℕ
max_body = 64 * 1024

abbrev pub is_empty : Text → Bool
is_empty [] = true
is_empty (c ∷ s) = false

-- `header or ""`
abbrev pub or_empty : Option Text → Text
or_empty none = []
or_empty (some s) = s

-- The text behind the separator, empty if there is none.
abbrev pub behind : Text × Option Text → Text
behind (front, back) = or_empty back

-- `int(length or 0)`, zero where it raises.
abbrev pub length_of : (Text → Option ℤ) → Text → ℤ
length_of int [] = pos 0
length_of int (c ∷ s) = elim (int (c ∷ s)) [ none ↦ pos 0 | some n ↦ n ]

abbrev pub loaded : Loaded → Refusal ⊎ List (Text × Value)
loaded not_json = inl (refusal 400 (codes "bad_json"))
loaded not_dict = inl (refusal 400 (codes "bad_json"))
loaded (dict fields) = inr fields

abbrev read_length : (Bytes → Loaded) → Bytes → ℤ → Refusal ⊎ List (Text × Value)
read_length loads body (negsuc n) = inl (refusal 400 (codes "bad_request"))
read_length loads body (pos n) =
    if n == 0 || ltb max_body n
    then inl (refusal 400 (codes "bad_request"))
    else loaded (loads (take n body))

-- `_read_json`
unfoldable pub read_json : Python → Request → Refusal ⊎ List (Text × Value)
read_json py q =
    if not (
      text_beq (py.lower (strip (partition 59 (or_empty q.content_type)).0))
        (codes "application/json"))
    then inl (refusal 415 (codes "unsupported_media_type"))
    else read_length py.loads q.rfile (length_of py.int (or_empty q.content_length))

module _ (py : Python) (h : Hashes) (users : List Principal) where
  abbrev pub check_decoded : List Text → Option Text → Option Ident × List Text
  check_decoded cache none = (none, cache)
  check_decoded cache (some pair) =
      let parts = partition 58 pair in check_basic h users cache parts.0 (behind parts)

  -- The credential by its kind.
  unfoldable pub check_kind : List Text → Text → Text → Option Ident × List Text
  check_kind cache kind value =
      if text_beq kind (codes "bearer") && not (is_empty value)
      then (check_token h users value, cache)
      else if text_beq kind (codes "basic") && not (is_empty value)
      then check_decoded cache (py.b64decode value)
      else (none, cache)

  -- `Auth.check`, with the cache of verified passwords.
  unfoldable pub check : List Text → Option Text → Option Ident × List Text
  check cache header =
      if is_empty (or_empty header)
      then (none, cache)
      else let parts = partition 32 (or_empty header) in
        check_kind cache (py.lower (strip parts.0)) (strip (behind parts))

  -- The answer to a credential that nobody has; the exception of `fail` leaves none.
  abbrev pub unknown_credential : List Text → Backoff → Option Backoff → (Refusal ⊎ Ident) × Guards
  unknown_credential cache old none =
      (inl (refusal 0 []), record { kdf_cache = cache; backoff = old })
  unknown_credential cache old (some b) =
      (inl (refusal 401 (codes "unauthorized")), record { kdf_cache = cache; backoff = b })

  abbrev pub with_scope :
      Text → ℕ → Text → Guards → Option Ident × List Text → (Refusal ⊎ Ident) × Guards
  with_scope need now ip g (none, cache) =
      unknown_credential cache g.backoff (fail now ip g.backoff)
  with_scope need now ip g (some ident, cache) =
      let g' : Guards = record { kdf_cache = cache; backoff = ok ip g.backoff } in
      if not (allows ident.1 need)
      then (inl (refusal 403 (codes "forbidden")), g')
      else (inr ident, g')

  -- `_authorize`
  unfoldable pub authorize : ℕ → Request → Text → Guards → (Refusal ⊎ Ident) × Guards
  authorize now q need g =
      let blocked = blocked_for now q.client_ip g.backoff in
      if ltb 0 blocked
      then (
        inl (record {
          status = 429;
          code = codes "too_many_attempts";
          retry_after = some (blocked + 1);
        }),
        g,
      )
      else with_scope need now q.client_ip g (check g.kdf_cache q.authorization)

  abbrev pub any_checked :
      ℕ → Request → Guards → Option Ident × List Text → (Refusal ⊎ Ident) × Guards
  any_checked now q g (none, cache) =
      authorize now q (codes "receive") (record g { kdf_cache = cache })
  any_checked now q g (some ident, cache) =
      (inr ident, record { kdf_cache = cache; backoff = ok q.client_ip g.backoff })

  -- `_any_scope`
  unfoldable pub any_scope : ℕ → Request → Guards → (Refusal ⊎ Ident) × Guards
  any_scope now q g =
      if ltb 0 (blocked_for now q.client_ip g.backoff)
      then authorize now q (codes "receive") g
      else any_checked now q g (check g.kdf_cache q.authorization)
