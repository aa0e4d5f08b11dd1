-- ===== src/Config/Binds.antt =====
-- Where the server listens: `listen_addrs`, `resolve_binds` and `is_loopback` of server/gtg_server/config.py, and
-- `check_plaintext_binds` of server/gtg_server/api.py. `getaddrinfo` is a parameter.
use generic_text_gateway.Common.{
  ◌>>=◌, ℤ, ◌==◌, if◌then◌else◌, drop, all, nat_eq, entries, Text, codes, text_beq, text_eq,
  starts_with, member, ℕ, Bool, true, false, not, ◌&&◌, ◌||◌, Option, none, some, List, [], ◌∷◌,
  ◌++◌,
}
use generic_text_gateway.Auth.{partition}
use generic_text_gateway.Config.{is_blank}

-- `(family, sockaddr)` of the two families that are bound, the address by its host and its port.
pub record Bind : Type 0 where
  pub is_v6 : Bool
  pub host : Text
  pub port : ℕ

abbrev pub bind_beq : Bind → Bind → Bool
bind_beq a b =
    (if a.is_v6 then b.is_v6 else not b.is_v6) && (text_beq a.host b.host && a.port == b.port)

-- Whether the bind is among those that were seen.
unfoldable pub seen_bind : Bind → List Bind → Bool
seen_bind b [] = false
seen_bind b (x ∷ xs) = bind_beq x b || seen_bind b xs

-- The binds that are new, in order.
unfoldable pub add_binds : List Bind → List Bind → List Bind
add_binds binds [] = binds
add_binds binds (b ∷ bs) = add_binds (if seen_bind b binds then binds else binds ++ b ∷ []) bs

-- `resolve_binds`; `none` is a `gaierror`, after which the next entry is tried, and other families are left out.
unfoldable pub resolve_from :
    (Text × ℕ → Option (List Bind)) → List Bind → List (Text × ℕ) → List Bind
resolve_from getaddrinfo binds [] = binds
resolve_from getaddrinfo binds (addr ∷ addrs) = elim (getaddrinfo addr) [
  | none ↦ resolve_from getaddrinfo binds addrs
  | some infos ↦ resolve_from getaddrinfo (add_binds binds infos) addrs
]

unfoldable pub resolve_binds : (Text × ℕ → Option (List Bind)) → List (Text × ℕ) → List Bind
unfolding resolve_from
resolve_binds getaddrinfo addrs = resolve_from getaddrinfo [] addrs

-- `is_loopback`
unfoldable pub is_loopback : Text → Bool
is_loopback host =
    text_beq host (codes "127.0.0.1")
    || text_beq host (codes "::1")
    || starts_with host (codes "127.")

-- `check_plaintext_binds`; `false` is its `RuntimeError`.
unfoldable pub check_plaintext_binds : Text → Bool → List Bind → Bool
check_plaintext_binds tls insecure_ok binds =
    if not (text_beq tls (codes "off")) || insecure_ok
    then true
    else all (λ b. is_loopback b.host) binds

-- `rpartition(":")`: what stands before the last separator, empty if there is none, and behind it.
unfoldable pub rpartition : ℕ → Text → Text × Text
rpartition sep [] = ([], [])
rpartition sep (c ∷ s) =
    let (front, back) = rpartition sep s in
    if member sep s then (c ∷ front, back) else if c == sep then ([], s) else ([], c ∷ s)

-- `lstrip(":")`
unfoldable pub lstrip_colons : Text → Text
lstrip_colons [] = []
lstrip_colons (c ∷ s) = let rest = lstrip_colons s in if c == 58 then rest else c ∷ s

abbrev behind : Option Text → Text
behind none = []
behind (some s) = s

-- An address in brackets.
abbrev pub bracketed : Text × Option Text → Text × Text
bracketed (host, port) = (host, lstrip_colons (behind port))

-- Host and port of an entry, as texts.
unfoldable pub host_port : Text → Text × Text
host_port entry =
    if starts_with entry (codes "[")
    then bracketed (partition 93 (drop 1 entry))
    else rpartition 58 entry

-- `listen_addrs`, over the entries of the list; `none` is its `ValueError`.
unfoldable pub listen_addrs : (Text → Option ℤ) → List Text → Option (List (Text × ℤ))
listen_addrs int [] = some []
listen_addrs int (entry ∷ entries) = do
  let parts = host_port entry
  port ← if is_blank parts.0 || is_blank parts.1 then none else int parts.1
  rest ← listen_addrs int entries
  some ((parts.0, port) ∷ rest)
