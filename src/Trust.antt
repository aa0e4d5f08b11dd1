-- ===== src/Trust.antt =====
-- How the client verifies the server: client/gtg_client/pinned_http.py. The TLS library, the digest and the files are
-- parameters: a peer comes with its fingerprint and with what the trust store makes of its certificate.
pub mod Verified
mod Tests
use generic_text_gateway.Common.{
  ltb, ◌==◌, if◌then◌else◌, length, all, keep, nat_eq, Text, codes, text_beq, text_eq, strip, ℕ,
  ◌+◌, Bool, true, false, not, ◌&&◌, Option, none, some, List, [], ◌∷◌, ◌++◌, arith,
}
use generic_text_gateway.Auth.{is_hex_digit}

pub data Mode : Type 0 where
  pin_mode : Mode
  tofu_mode : Mode
  ca_mode : Mode
  system_mode : Mode

-- `GTC_SERVER_URL` as `urlsplit` has it, and the three ways to verify; a path is there or not.
pub record Settings : Type 0 where
  pub scheme : Text
  pub hostname : Text
  pub url_port : Option ℕ
  pub server_pin : Text
  pub server_ca : Text
  pub ca_exists : Bool
  pub ca_loads : Bool
  pub tofu : Bool

pub record ServerConnection : Type 0 where
  pub host : Text
  pub port : ℕ
  pub pin : Text
  pub tofu : Bool
  pub mode : Mode

abbrev pub is_empty : Text → Bool
is_empty [] = true
is_empty (c ∷ s) = false

-- `replace(":", "")`
unfoldable pub without_colons : Text → Text
without_colons s = keep (λ c. not (c == 58)) s

abbrev pub one_of : Bool → ℕ
one_of true = 1
one_of false = 0

-- How many ways were chosen.
abbrev pub chosen : Text → Settings → ℕ
chosen pin s = one_of (not (is_empty pin)) + one_of s.tofu + one_of (not (is_empty s.server_ca))

abbrev pub mode_of : Text → Settings → Mode
mode_of pin s =
    if not (is_empty pin)
    then pin_mode
    else if s.tofu
    then tofu_mode
    else if not (is_empty s.server_ca)
    then ca_mode
    else system_mode

abbrev pub or_8443 : Option ℕ → ℕ
or_8443 none = 8443
or_8443 (some n) = if n == 0 then 8443 else n

-- `ServerConnection.__init__`; `none` is its `ValueError`, `lower` is `str.lower`.
unfoldable pub server_connection : (Text → Text) → Settings → Option ServerConnection
server_connection lower s =
    let pin = without_colons (lower s.server_pin) in
    let has_pin = not (is_empty pin) in
    let has_ca = not (is_empty s.server_ca) in
    if not (text_beq s.scheme (codes "https"))
    then none
    else if ltb 1 (chosen pin s)
    then none
    else if has_pin && not (length pin == 64 && all is_hex_digit pin)
    then none
    else if has_ca && not (s.ca_exists && s.ca_loads)
    then none
    else some (record {
      host = s.hostname;
      port = or_8443 s.url_port;
      pin = pin;
      tofu = s.tofu;
      mode = mode_of pin s;
    })

-- What shows in the handshake.
pub record Peer : Type 0 where
  pub fingerprint : Text
  pub is_valid : Bool

-- What `connect` comes to: a connection that may be used, or an exception.
pub data Connected : Type 0 where
  connected : Connected
  trust_error : Connected
  pin_error : Connected
  store_error : Connected

abbrev pub with_peer : Connected → Peer → List Peer → List Peer
with_peer connected peer peers = peer ∷ peers
with_peer trust_error peer peers = peers
with_peer pin_error peer peers = peers
with_peer store_error peer peers = peers

-- `self._pin or self._load_tofu()`
abbrev pub expected_of : Text → Text → Text
expected_of [] loaded = loaded
expected_of (c ∷ pin) loaded = c ∷ pin

module _ (lower : Text → Text) where
  -- `_load_tofu`, of the file's text if there is a file
  unfoldable pub load_tofu : Bool → Option Text → Text
  load_tofu false file = []
  load_tofu true none = []
  load_tofu true (some content) = lower (strip content)

  -- `_store_tofu`, whose replacement of the file may fail
  unfoldable pub store_tofu : Bool → Text → Option Text → Connected × Option Text
  store_tofu true fp file = (connected, some (fp ++ 10 ∷ []))
  store_tofu false fp file = (store_error, file)

  -- `connect`, with the file of the first fingerprint
  unfoldable pub connect : ServerConnection → Bool → Peer → Option Text → Connected × Option Text
  connect c store_ok peer file =
      let expected = expected_of c.pin (load_tofu c.tofu file) in
      if is_empty c.pin && not c.tofu
      then (if peer.is_valid then connected else trust_error, file)
      else if not (is_empty expected)
      then (if text_beq peer.fingerprint expected then connected else pin_error, file)
      else store_tofu store_ok peer.fingerprint file

  -- Connections one after the other: the peers that were connected to, and the file.
  unfoldable pub connections :
      ServerConnection → List (Bool × Peer) → Option Text → List Peer × Option Text
  connections c [] file = ([], file)
  connections c ((store_ok, peer) ∷ rest) file =
      let (outcome, file') = connect c store_ok peer file in
      let (peers, last) = connections c rest file' in (with_peer outcome peer peers, last)
