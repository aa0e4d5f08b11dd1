-- ===== src/Config.antt =====
-- The settings: server/gtg_server/config.py and client/gtg_client/config.py. The environment and the section of the file,
-- as `configparser` reads it, are arguments, and so are `str.upper`, `str.lower` and `int`.
pub mod Layers
pub mod Binds
mod Tests
use generic_text_gateway.Common.{
  ◌>>=◌, ◌>>◌, ℤ, ltb, if◌then◌else◌, length, drop, nat_eq, lookup, insert, Text, codes, text_beq,
  text_eq, starts_with, strip, ◌+◌, ◌-◌, ◌/◌, Bool, true, false, ◌&&◌, ◌||◌, Option, none, some,
  List, [], ◌∷◌, ◌++◌, arith,
}
use generic_text_gateway.Receive.{split_at}

-- What is called of Python.
pub record Case : Type 0 where
  pub upper : Text → Text
  pub lower : Text → Text
  pub int : Text → Option ℤ

abbrev pub server_defaults : List (Text × Text)
server_defaults =
    (codes "SERIAL_PORT", codes "auto")
    ∷ (codes "BAUD", codes "115200")
    ∷ (codes "SIM_PIN", codes "")
    ∷ (codes "SIM_PIN_MAX_TRIES", codes "1")
    ∷ (codes "LISTEN", codes "localhost:8443")
    ∷ (codes "TLS", codes "auto")
    ∷ (codes "TLS_CERT", codes "")
    ∷ (codes "TLS_KEY", codes "")
    ∷ (codes "TLS_SANS", codes "")
    ∷ (codes "TLS_INSECURE_OK", codes "false")
    ∷ (codes "ALLOWED_RECIPIENTS", codes "")
    ∷ (codes "DATA_DIR", codes "/var/lib/generic-text-gateway")
    ∷ (codes "STORE_DIR", codes "")
    ∷ (codes "RING_SIZE", codes "100")
    ∷ (codes "WEBUI", codes "true")
    ∷ (codes "POLL_INTERVAL", codes "15")
    ∷ (codes "MAX_SUBSCRIBERS", codes "20")
    ∷ (codes "SEND_RATE", codes "30/hour")
    ∷ (codes "MODESWITCH", codes "true")
    ∷ (codes "LOG_LEVEL", codes "info")
    ∷ (codes "LOG_BODIES", codes "false")
    ∷ (codes "CONFIG", codes "/etc/generic-text-gateway/gateway.conf")
    ∷ []

abbrev pub client_defaults : List (Text × Text)
client_defaults =
    (codes "SERVER_URL", codes "")
    ∷ (codes "SERVER_TOKEN", codes "")
    ∷ (codes "SERVER_SEND_TOKEN", codes "")
    ∷ (codes "SERVER_PIN_SHA256", codes "")
    ∷ (codes "SERVER_PIN_TOFU", codes "false")
    ∷ (codes "SERVER_CA", codes "")
    ∷ (codes "HA_URL", codes "")
    ∷ (codes "HA_TOKEN", codes "")
    ∷ (codes "HA_EVENT", codes "sms_received")
    ∷ (codes "HA_SENSOR", codes "sensor.sms_received")
    ∷ (codes "LISTEN", codes "localhost:8082")
    ∷ (codes "BASIC_USER", codes "")
    ∷ (codes "BASIC_PASS", codes "")
    ∷ (codes "STATE_DIR", codes "/var/lib/generic-text-client")
    ∷ (codes "LOG_LEVEL", codes "info")
    ∷ (codes "LOG_BODIES", codes "false")
    ∷ (codes "CONFIG", codes "/etc/generic-text-client/client.conf")
    ∷ []

-- `has_users` is that of the server, which alone has named principals.
pub record Schema : Type 0 where
  pub prefix : Text
  pub defaults : List (Text × Text)
  pub has_users : Bool

abbrev pub server_schema : Schema
server_schema = record { prefix = codes "GTG_"; defaults = server_defaults; has_users = true }

abbrev pub client_schema : Schema
client_schema = record { prefix = codes "GTC_"; defaults = client_defaults; has_users = false }

pub record Config : Type 0 where
  pub vals : List (Text × Text)
  pub users : List (Text × Text)

abbrev pub is_some : Option Text → Bool
is_some none = false
is_some (some v) = true

abbrev pub or_value : Option Text → Text → Text
or_value none v = v
or_value (some new) v = new

module _ (py : Case) (schema : Schema) where
  abbrev pub is_user : Text → Bool
  is_user key = schema.has_users && starts_with (py.lower key) (codes "user_")

  -- One entry of the file.
  unfoldable pub set_item : Text × Text → Config → Config
  set_item (key, value) c =
      if is_user key
      then record c { users = insert (py.lower (drop 5 key)) value c.users }
      else if is_some (lookup (py.upper key) c.vals)
      then record c { vals = insert (py.upper key) value c.vals }
      else c

  unfoldable pub set_items : List (Text × Text) → Config → Config
  unfolding set_item
  set_items [] c = c
  set_items (item ∷ items) c = set_items items (set_item item c)

  -- `for key in vals`, over the environment.
  unfoldable pub from_env : List (Text × Text) → List (Text × Text) → List (Text × Text)
  from_env env [] = []
  from_env env ((key, value) ∷ vals) =
      (key, or_value (lookup (schema.prefix ++ key) env) value) ∷ from_env env vals

  -- The principals of the environment.
  unfoldable pub env_users : List (Text × Text) → List (Text × Text) → List (Text × Text)
  env_users [] users = users
  env_users ((key, value) ∷ env) users =
      let prefix = schema.prefix ++ codes "USER_" in
      if schema.has_users && starts_with key prefix && ltb (length prefix) (length key)
      then env_users env (insert (py.lower (drop (length prefix) key)) value users)
      else env_users env users

  -- `__init__`, with the entries of the file, none if there is no file or no section.
  unfoldable pub load_config : List (Text × Text) → List (Text × Text) → Config
  load_config env items =
      let c = set_items items (record { vals = schema.defaults; users = [] }) in
      record { vals = from_env env c.vals; users = env_users env c.users }

-- `str`, of a key that is there
unfoldable pub get_str : Text → Config → Option Text
get_str key c = do v ← lookup key c.vals; some (strip v)

unfoldable pub is_true : (Text → Text) → Text → Bool
is_true lower v =
    let s = lower (strip v) in
    text_beq s (codes "1")
    || text_beq s (codes "true")
    || text_beq s (codes "yes")
    || text_beq s (codes "on")

abbrev pub is_blank : Text → Bool
is_blank [] = true
is_blank (c ∷ s) = false

-- The entries of a list that are not blank.
unfoldable pub list_entries : List Text → List Text
list_entries [] = []
list_entries (x ∷ xs) =
    let rest = list_entries xs in if is_blank (strip x) then rest else strip x ∷ rest

-- `list`
unfoldable pub get_list : Text → List Text
get_list v = let raw = strip v in if is_blank raw then [] else list_entries (split_at 44 raw)
