-- ===== src/Auth.antt =====
-- Who may do what: server/gtg_server/auth.py. The hashes are parameters; the clock is an argument,
-- in whole seconds.
pub mod Limits
mod Tests
use generic_text_gateway.Common.{
  ◌>>=◌, ◌>>◌, ℤ, pos, negsuc, ltb, leb, ◌==◌, if◌then◌else◌, length, drop, all, keep, nat_eq,
  lookup, insert, remove, Text, codes, text_beq, text_eq, starts_with, strip, is_ascii_digit,
  member, set_add, ℕ, zero, suc, ◌+◌, ◌-◌, ◌^◌, min, Bool, true, false, not, ◌&&◌, ◌||◌, Option,
  none, some, List, [], ◌∷◌, ◌++◌, arith,
}

pub data Kind : Type 0 where
  pbkdf2 : Kind
  sha256 : Kind
  plain : Kind

pub record Principal : Type 0 where
  pub name : Text
  pub scope : Text
  pub kind : Kind
  pub secret : Text

-- `hash_token`, `verify_password` and the key of the cache of verified passwords.
pub record Hashes : Type 0 where
  pub hash_token : Text → Text
  pub verify_password : Text → Text → Bool
  pub cache_key : Text → Text → Text

abbrev pub is_scope : Text → Bool
is_scope s = text_beq s (codes "send") || text_beq s (codes "receive") || text_beq s (codes "all")

-- `partition(":")`: what stands before the first colon, and behind it if there is one.
unfoldable pub partition : ℕ → Text → Text × Option Text
partition sep [] = ([], none)
partition sep (c ∷ s) =
    let (front, back) = partition sep s in if c == sep then ([], some s) else (c ∷ front, back)

abbrev pub is_hex_digit : ℕ → Bool
is_hex_digit c = is_ascii_digit c || leb 97 c && leb c 102

abbrev is_empty : Text → Bool
is_empty [] = true
is_empty (c ∷ s) = false

-- A hashed token, of 64 digits.
abbrev hashed : Text → Text → Text → Option Principal
hashed name scope digest =
    if length digest == 64 && all is_hex_digit digest
    then some (record { name = name; scope = scope; kind = sha256; secret = digest })
    else none

-- The credential behind the scope; `lower` is `str.lower`.
unfoldable pub parse_credential : (Text → Text) → Text → Text → Text → Option Principal
parse_credential lower name scope cred =
    if starts_with cred (codes "pbkdf2_sha256$")
    then some (record { name = name; scope = scope; kind = pbkdf2; secret = cred })
    else if starts_with cred (codes "sha256:")
    then hashed name scope (lower (drop 7 cred))
    else some (record { name = name; scope = scope; kind = plain; secret = cred })

abbrev parse_parts : (Text → Text) → Text → Text × Option Text → Option Principal
parse_parts lower name (scope, none) = none
parse_parts lower name (scope, some cred) =
    if not (is_scope scope) || is_empty cred then none else parse_credential lower name scope cred

-- One pair of `parse_users`; `none` is its `ValueError`.
unfoldable pub parse_user : (Text → Text) → Text → Text → Option Principal
parse_user lower name value = parse_parts lower name (partition 58 (strip value))

-- The pairs in the order of their names.
unfoldable pub parse_users : (Text → Text) → List (Text × Text) → Option (List Principal)
parse_users lower [] = some []
parse_users lower ((name, value) ∷ pairs) = do
  p ← parse_user lower name value
  ps ← parse_users lower pairs
  some (p ∷ ps)

-- The cache is cleared when it grows beyond 32 keys.
abbrev cut_cache : List Text → List Text
cut_cache cache = if ltb 32 (length cache) then [] else cache

abbrev pub granted : Principal → Text × Text
granted p = (p.name, p.scope)

module _ (h : Hashes) where
  -- `_check_token`
  unfoldable pub matches_token : Text → Principal → Bool
  matches_token token p = elim p.kind [
    | pbkdf2 ↦ false
    | sha256 ↦ text_beq p.secret (h.hash_token token)
    | plain ↦ text_beq p.secret token
  ]

  unfoldable pub check_token : List Principal → Text → Option (Text × Text)
  check_token [] token = none
  check_token (p ∷ ps) token =
      if matches_token token p then some (granted p) else check_token ps token

  -- `_kdf_verify` with its cache of at most 32 keys.
  unfoldable pub kdf_verify : List Text → Text → Text → Text → Bool × List Text
  kdf_verify cache name password encoded =
      let key = h.cache_key name password in
      if member key cache
      then (true, cache)
      else if h.verify_password password encoded
      then (true, cut_cache (set_add key cache))
      else (false, cache)

  -- A principal of the name that was given.
  unfoldable pub matches_basic : List Text → Text → Principal → Bool × List Text
  matches_basic cache password p = elim p.kind [
    | pbkdf2 ↦ kdf_verify cache p.name password p.secret
    | sha256 ↦ (text_beq p.secret (h.hash_token password), cache)
    | plain ↦ (text_beq p.secret password, cache)
  ]

  -- `_check_basic`
  unfoldable pub check_basic :
      List Principal → List Text → Text → Text → Option (Text × Text) × List Text
  check_basic [] cache user password = (none, cache)
  check_basic (p ∷ ps) cache user password =
      if not (text_beq p.name user)
      then check_basic ps cache user password
      else let (ok, cache') = matches_basic cache password p in
        if ok then (some (granted p), cache') else check_basic ps cache' user password

-- `allows`
unfoldable pub allows : Text → Text → Bool
allows scope need = text_beq scope (codes "all") || text_beq scope need

-- `Backoff` by the address of a client: how often it failed, and until when it is blocked.
pub record Backoff : Type 0 where
  pub base : ℕ
  pub cap : ℕ
  pub state : List (Text × (ℕ × ℕ))

abbrev pub entry_of : Option (ℕ × ℕ) → ℕ × ℕ
entry_of none = (0, 0)
entry_of (some e) = e

unfoldable pub blocked_for : ℕ → Text → Backoff → ℕ
blocked_for now ip b = (entry_of (lookup ip b.state)).1 - now

-- The least power of two that no float reaches.
unfoldable pub float_limit : ℕ
float_limit = 2 ^ 1024

-- `base ** n` of a float; `none` is its `OverflowError`.
unfoldable pub float_power : ℕ → ℕ → Option ℕ
float_power base n = if ltb (base ^ n) float_limit then some (base ^ n) else none

abbrev capped : ℕ → Option ℕ → Option ℕ
capped cap none = none
capped cap (some delay) = some (min delay cap)

-- The delay after a failure.
unfoldable pub delay_of : ℕ → ℕ → ℕ → Option ℕ
unfolding float_power
delay_of base cap count = if ltb count 3 then some 0 else capped cap (float_power base (count - 2))

abbrev delayed : ℕ → Text → ℕ → Backoff → Option ℕ → Option Backoff
delayed now ip count b none = none
delayed now ip count b (some delay) =
    let state = insert ip (count, now + delay) b.state in
    some (record b { state = if ltb 10000 (length state) then [] else state })

-- `fail`; `none` is the `OverflowError`, before which nothing has changed.
unfoldable pub fail : ℕ → Text → Backoff → Option Backoff
unfolding delay_of
fail now ip b =
    let count = (entry_of (lookup ip b.state)).0 + 1 in
    delayed now ip count b (delay_of b.base b.cap count)

unfoldable pub ok : Text → Backoff → Backoff
ok ip b = record b { state = remove ip b.state }

-- `RateLimit` with its time stamps, oldest first.
pub record RateLimit : Type 0 where
  pub n : ℕ
  pub window : ℕ
  pub events : List ℕ

abbrev period : Text → Option ℕ
period s =
    if text_beq s (codes "minute")
    then some 60
    else if text_beq s (codes "hour")
    then some 3600
    else if text_beq s (codes "day")
    then some 86400
    else none

abbrev pub is_off : Text → Bool
is_off s = is_empty s || text_beq s (codes "0") || text_beq s (codes "off")

-- `__init__`; `int` is Python's, of which a negative number disables as zero does.
unfoldable pub rate_limit : (Text → Option ℤ) → Text → Option RateLimit
rate_limit int spec =
    let spec = strip spec in
    if is_off spec then some (record { n = 0; window = 0; events = [] }) else do
      let (number, back) = partition 47 spec
      name ← back
      window ← period name
      n ← int number
      some (record { n = natural n; window = window; events = [] })
  where
    natural : ℤ → ℕ
    natural (pos n) = n
    natural (negsuc n) = 0

unfoldable pub repeat : ℕ → ℕ → List ℕ
repeat zero now = []
repeat (suc count) now = now ∷ repeat count now

-- `allow`
unfoldable pub allow : ℕ → ℕ → RateLimit → Bool × RateLimit
allow now count r =
    if r.n == 0
    then (true, r)
    else let events = keep (λ t. ltb (now - t) r.window) r.events in
      if ltb r.n (length events + count)
      then (false, record r { events = events })
      else (true, record r { events = events ++ repeat count now })
