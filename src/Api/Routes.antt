-- ===== src/Api/Routes.antt =====
-- `do_GET` and `do_POST` of server/gtg_server/api.py: from a path to the call of a handler, or a refusal.
use generic_text_gateway.Common.{
  ◌==◌, if◌then◌else◌, nat_eq, Text, codes, text_beq, text_eq, starts_with, ℕ, ◌⊎◌, inl, inr, Bool,
  ◌&&◌, ◌||◌, List, [], ◌∷◌,
}
use generic_text_gateway.Auth.{partition, Principal, Hashes}
use generic_text_gateway.Api.{
  Python, Request, Refusal, Ident, Guards, refusal, authorize, any_scope,
}

-- The handlers, with what they are called with.
pub data Call : Type 0 where
  healthz : Call
  webui : Call
  health : Ident → Call
  modem : Call
  subscribe : Call
  history : Call
  get_message : Text → Ident → Call
  send_message : Ident → Call
  sim_pin : Ident → Call

abbrev rstrip_slash_cons : ℕ → Text → Text
rstrip_slash_cons c [] = if c == 47 then [] else c ∷ []
rstrip_slash_cons c (d ∷ s) = c ∷ d ∷ s

-- `rstrip("/")`
unfoldable pub rstrip_slash : Text → Text
rstrip_slash [] = []
rstrip_slash (c ∷ s) = rstrip_slash_cons c (rstrip_slash s)

-- `or "/"`
abbrev pub or_root : Text → Text
or_root [] = codes "/"
or_root (c ∷ s) = c ∷ s

-- The path without its query, and without slashes at its end.
unfoldable pub route_path : Text → Text
unfolding rstrip_slash
route_path path = rstrip_slash (partition 63 path).0

abbrev pub call_with {ℓ} :
    {A : Type ℓ} → (Ident → Call) → (Refusal ⊎ Ident) × A → (Refusal ⊎ Call) × A
call_with f (inl e, g) = (inl e, g)
call_with f (inr ident, g) = (inr (f ident), g)

abbrev pub unknown_endpoint : Refusal
unknown_endpoint = refusal 404 (codes "not_found")

module _ (py : Python) (h : Hashes) (users : List Principal) where
  -- `do_GET`; `webui` is that the page is served.
  unfoldable pub do_get : Bool → ℕ → Request → Guards → (Refusal ⊎ Call) × Guards
  do_get has_webui now q g =
      let path = or_root (route_path q.path) in
      if text_beq path (codes "/healthz")
      then (inr healthz, g)
      else if (text_beq path (codes "/") || text_beq path (codes "/ui")) && has_webui
      then call_with (λ ident. webui) (any_scope py h users now q g)
      else if text_beq path (codes "/v1/health")
      then call_with health (any_scope py h users now q g)
      else if text_beq path (codes "/v1/modem")
      then call_with (λ ident. modem) (authorize py h users now q (codes "all") g)
      else if text_beq path (codes "/v1/subscribe")
      then call_with (λ ident. subscribe) (authorize py h users now q (codes "receive") g)
      else if text_beq path (codes "/v1/history")
      then call_with (λ ident. history) (authorize py h users now q (codes "receive") g)
      else if starts_with path (codes "/v1/messages/")
      then call_with (get_message path) (authorize py h users now q (codes "send") g)
      else (inl unknown_endpoint, g)

  -- `do_POST`
  unfoldable pub do_post : ℕ → Request → Guards → (Refusal ⊎ Call) × Guards
  do_post now q g =
      let path = route_path q.path in
      if text_beq path (codes "/v1/messages")
      then call_with send_message (authorize py h users now q (codes "send") g)
      else if text_beq path (codes "/v1/sim/pin")
      then call_with sim_pin (authorize py h users now q (codes "all") g)
      else (inl unknown_endpoint, g)
