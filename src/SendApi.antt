-- ===== src/SendApi.antt =====
-- The local interface of the client: client/gtg_client/sendapi.py, and `normalize_targets` of
-- client/gtg_client/config.py. What is called of Python's library is a parameter, and so is the connection.
pub mod Forwarded
mod Tests
use generic_text_gateway.Common.{
  ℤ, pos, negsuc, ltb, ◌==◌, if◌then◌else◌, all, take, keep, nat_eq, Text, Bytes, codes, text_beq,
  text_eq, starts_with, strip, DigitTable, is_digits, ℕ, ◌+◌, ◌*◌, ◌/◌, Bool, true, false, not,
  ◌&&◌, ◌||◌, Option, none, some, List, [], ◌∷◌, ◌++◌, arith,
}
use generic_text_gateway.Auth.{partition}

-- One recipient in a JSON body: `null`, a truth value (an `int` of Python), a number, a text, or anything else by its
-- `str`.
pub data Item : Type 0 where
  null : Item
  boolean : Bool → Item
  number : ℤ → Item
  string : Text → Item
  other : Text → Item

-- The value under `to`: nothing or `null`, one item, several, or what cannot be iterated.
pub data Target : Type 0 where
  missing : Target
  one : Item → Target
  many : List Item → Target
  not_iterable : Target

-- A body: no JSON, `null`, an object by the values that are asked for, or another value, which has no `get`.
-- Of `textMessage`, that it is there but no object is `none`.
pub record Fields : Type 0 where
  pub to : Target
  pub text : Option Text
  pub phone_numbers : Target
  pub message_text : Option (Option Text)

pub data Body : Type 0 where
  not_json : Body
  null_body : Body
  object : Fields → Body
  no_object : Body

-- `str` of a number, `str.lower`, `int` of a text, `json.loads`, and the decoding of Base64 to UTF-8.
pub record Library : Type 0 where
  pub str : ℤ → Text
  pub lower : Text → Text
  pub int : Text → Option ℤ
  pub loads : Bytes → Body
  pub b64decode : Text → Option Text
  pub digits : DigitTable

pub record SendRequest : Type 0 where
  pub path : Text
  pub authorization : Option Text
  pub content_length : Option Text
  pub rfile : Bytes

abbrev pub is_empty : Text → Bool
is_empty [] = true
is_empty (c ∷ s) = false

abbrev pub or_empty : Option Text → Text
or_empty none = []
or_empty (some s) = s

-- `s.strip().replace(" ", "")`
unfoldable pub squeeze : Text → Text
squeeze s = keep (λ c. not (c == 32)) (strip s)

-- A recipient's text, with a plus before bare digits; none if it is empty.
unfoldable pub normalize_text : DigitTable → Text → Option Text
normalize_text t s =
    let s' = squeeze s in
    if is_empty s'
    then none
    else if not (starts_with s' (codes "+")) && is_digits t s'
    then some (codes "+" ++ s')
    else some s'

abbrev pub normalize_item : Library → Item → Option Text
normalize_item py null = none
normalize_item py (boolean true) = some (codes "+True")
normalize_item py (boolean false) = some (codes "+False")
normalize_item py (number n) = some (codes "+" ++ py.str n)
normalize_item py (string s) = normalize_text py.digits s
normalize_item py (other s) = normalize_text py.digits s

abbrev pub cons_some : Option Text → List Text → List Text
cons_some none out = out
cons_some (some s) out = s ∷ out

unfoldable pub normalize_items : Library → List Item → List Text
normalize_items py [] = []
normalize_items py (i ∷ items) = cons_some (normalize_item py i) (normalize_items py items)

-- `normalize_targets`; `none` is its `TypeError`.
unfoldable pub normalize_targets : Library → Target → Option (List Text)
normalize_targets py missing = some []
normalize_targets py (one i) = some (normalize_items py (i ∷ []))
normalize_targets py (many items) = some (normalize_items py items)
normalize_targets py not_iterable = none

-- What `do_POST` comes to: a status, a call of `_forward`, no answer for a body `null`, or an exception.
pub data Outcome : Type 0 where
  status : ℕ → Outcome
  forward : List Text → Text → Outcome
  silent : Outcome
  raised : Outcome

abbrev pub is_ascii : Text → Bool
is_ascii s = all (λ c. ltb c 128) s

-- `hmac.compare_digest` of two texts; `none` is its `TypeError`, for a text beyond ASCII.
unfoldable pub compare_digest : Text → Text → Option Bool
compare_digest a b = if is_ascii a && is_ascii b then some (text_beq a b) else none

-- Python's `and`, of tests that may raise.
abbrev pub and_then : Option Bool → Option Bool → Option Bool
and_then none b = none
and_then (some false) b = some false
and_then (some true) b = b

abbrev pub checked_pair : Text → Text → Option Text → Option Bool
checked_pair user password none = some false
checked_pair user password (some pair) =
    let parts = partition 58 pair in
    and_then (compare_digest parts.0 user) (compare_digest (or_empty parts.1) password)

-- `_check_auth`; `none` is the `TypeError` of `compare_digest`.
unfoldable pub check_auth : Library → Text → Text → Option Text → Option Bool
check_auth py user password header =
    if is_empty user
    then some true
    else let parts = partition 32 (or_empty header) in
      if not (text_beq (py.lower parts.0) (codes "basic"))
      then some false
      else checked_pair user password (py.b64decode (or_empty parts.1))

abbrev length_of : Library → Text → ℤ
length_of py [] = pos 0
length_of py (c ∷ s) = elim (py.int (c ∷ s)) [ none ↦ pos 0 | some n ↦ n ]

-- `_read_json`; `none` is a refused length.
abbrev pub body_of : Library → SendRequest → ℤ → Option Body
body_of py q (negsuc n) = none
body_of py q (pos n) =
    if n == 0 || ltb (64 * 1024) n then none else some (py.loads (take n q.rfile))

unfoldable pub read_body : Library → SendRequest → Option Body
read_body py q = body_of py q (length_of py (or_empty q.content_length))

abbrev rstrip_slash_cons : ℕ → Text → Text
rstrip_slash_cons c [] = if c == 47 then [] else c ∷ []
rstrip_slash_cons c (d ∷ s) = c ∷ d ∷ s

unfoldable pub rstrip_slashes : Text → Text
rstrip_slashes [] = []
rstrip_slashes (c ∷ s) = rstrip_slash_cons c (rstrip_slashes s)

-- The last checks of recipients and text.
abbrev pub checked : Option (List Text) → Option Text → Outcome
checked none text = raised
checked (some []) text = status 400
checked (some (n ∷ ns)) none = status 400
checked (some (n ∷ ns)) (some text) =
    if is_empty (strip text) then status 400 else forward (n ∷ ns) text

abbrev pub compat : Library → Fields → Outcome
compat py f = elim (normalize_targets py f.phone_numbers) [
  | none ↦ raised
  | some to ↦ elim f.message_text [ none ↦ raised | some text ↦ checked (some to) text ]
]

abbrev pub dispatch : Library → Text → Option Body → Outcome
dispatch py path none = status 400
dispatch py path (some not_json) = status 400
dispatch py path (some null_body) = silent
dispatch py path (some no_object) =
    if text_beq path (codes "/v1/send") || text_beq path (codes "/message")
    then raised
    else status 404
dispatch py path (some (object f)) =
    if text_beq path (codes "/v1/send")
    then checked (normalize_targets py f.to) f.text
    else if text_beq path (codes "/message")
    then compat py f
    else status 404

abbrev pub post_checked : Library → SendRequest → Option Bool → Outcome
post_checked py q none = raised
post_checked py q (some false) = status 401
post_checked py q (some true) = dispatch py (rstrip_slashes q.path) (read_body py q)

-- `do_POST`
unfoldable pub do_post : Library → Text → Text → SendRequest → Outcome
do_post py user password q = post_checked py q (check_auth py user password q.authorization)

-- `do_GET`
unfoldable pub do_get : SendRequest → Outcome
do_get q =
    if text_beq (rstrip_slashes q.path) (codes "/health") || text_beq q.path (codes "/healthz")
    then status 200
    else status 404
