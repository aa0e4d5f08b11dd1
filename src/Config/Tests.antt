-- ===== src/Config/Tests.antt =====
-- One setting in each layer, and addresses to listen at.
use generic_text_gateway.Common.{
  pos, nat_eq, lookup, insert, Text, codes, text_beq, text_eq, starts_with, member, ◌≡◌, refl, some,
  List, [], ◌∷◌,
}
use generic_text_gateway.Auth.{partition}
use generic_text_gateway.Config.{
  Case, server_defaults, server_schema, set_item, set_items, from_env, env_users, load_config,
}
use generic_text_gateway.Config.Layers.{file_value, load_config-lookup}
use generic_text_gateway.Config.Binds.{rpartition, lstrip_colons, host_port}

-- A file in upper case.
abbrev py : Case
py = record { upper = λ s. s; lower = λ s. s; int = λ s. some (pos 8443) }

abbrev env : List (Text × Text)
env = (codes "GTG_TLS", codes "off") ∷ (codes "GTG_USER_ha", codes "send:k") ∷ []

abbrev items : List (Text × Text)
items =
    (codes "TLS", codes "auto")
    ∷ (codes "BAUD", codes "9600")
    ∷ (codes "user_bob", codes "all:p")
    ∷ []

-- What a run computes with.
run : Unit {0}
unfolding load_config set_items set_item from_env env_users file_value lookup insert starts_with
    text_beq
run = tt

baud_default : lookup (codes "BAUD") server_defaults ≡ some (codes "115200")
unfolding run
baud_default = refl

load_config_lem :
    ((load_config py server_schema env items).users
      ≡ (codes "bob", codes "all:p") ∷ (codes "ha", codes "send:k") ∷ [])
    × (lookup (codes "TLS") (load_config py server_schema env items).vals ≡ some (codes "off"))
unfolding run
load_config_lem = (refl, refl)

load_config-lookup_example :
    lookup (codes "BAUD") (load_config py server_schema env items).vals ≡ some (codes "9600")
unfolding run
load_config-lookup_example =
    load_config-lookup py server_schema env items (codes "BAUD") {d = codes "115200"} baud_default

host_port_lem :
    (host_port (codes "[::1]:8443") ≡ (codes "::1", codes "8443"))
    × (host_port (codes "localhost:80") ≡ (codes "localhost", codes "80"))
unfolding host_port rpartition lstrip_colons partition starts_with member
host_port_lem = (refl, refl)
