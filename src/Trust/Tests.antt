-- ===== src/Trust/Tests.antt =====
-- A first fingerprint, and a peer that comes with another.
use generic_text_gateway.Common.{
  All, nat_eq, Text, codes, text_beq, text_eq, is_space, lstrip, rstrip, strip, is_ascii_digit, ℕ,
  zero, suc, ◌≡◌, refl, Bool, true, false, none, some, List, [], ◌∷◌,
}
use generic_text_gateway.Trust.{
  Settings, ServerConnection, without_colons, server_connection, Peer, load_tofu, store_tofu,
  connect, connections, tofu_mode,
}
use generic_text_gateway.Trust.Verified.{connections-IsVerified}

abbrev copies : ℕ → ℕ → Text
copies zero c = []
copies (suc n) c = c ∷ copies n c

abbrev ours : Peer
ours = record { fingerprint = copies 64 97; is_valid = false }

abbrev theirs : Peer
theirs = record { fingerprint = copies 64 98; is_valid = true }

abbrev settings : Settings
settings = record {
  scheme = codes "https";
  hostname = codes "sms";
  url_port = none;
  server_pin = [];
  server_ca = [];
  ca_exists = false;
  ca_loads = false;
  tofu = true;
}

abbrev attempts : List (Bool × Peer)
attempts = (false, theirs) ∷ (true, ours) ∷ (true, theirs) ∷ (true, ours) ∷ []

abbrev server : ServerConnection
server = record { host = codes "sms"; port = 8443; pin = []; tofu = true; mode = tofu_mode }

accepted_lem : server_connection (λ s. s) settings ≡ some server
unfolding server_connection without_colons text_beq
accepted_lem = refl

-- The first could not be stored, the third is another.
attempts_lem : (connections (λ s. s) server attempts none).0 ≡ ours ∷ ours ∷ []
unfolding connections connect load_tofu store_tofu strip lstrip rstrip is_space text_beq
attempts_lem = refl

connections-IsVerified_example :
    (fp : Text) × All (λ p. p.fingerprint ≡ fp) (connections (λ s. s) server attempts none).0
unfolding is_ascii_digit
connections-IsVerified_example =
    connections-IsVerified (λ s. s) (λ fp h. refl) settings server attempts accepted_lem
      ((refl, refl), ((refl, refl), ((refl, refl), ((refl, refl), tt))))
