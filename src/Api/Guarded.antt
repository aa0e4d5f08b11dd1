-- ===== src/Api/Guarded.antt =====
-- Which handlers a request can reach, and what the guards remember of it.
use generic_text_gateway.Common.{
  ltb, if◌then◌else◌, Bool-cases, Option-cases, nat_eq, Text, codes, text_beq, text_eq, starts_with,
  ℕ, ◌≡◌, refl, subst, ◌⊎◌, inl, inr, Bool, true, false, ◌&&◌, ◌||◌, Option, none, some, List,
  arith,
}
use generic_text_gateway.Auth.{fail, Principal, Hashes, allows, blocked_for}
use generic_text_gateway.Api.{
  Python, Request, Refusal, Ident, Guards, check, with_scope, authorize, any_checked, any_scope,
}
use generic_text_gateway.Api.Access.{check-none}
use generic_text_gateway.Api.Credentials.{Carries, IsOf, check-IsOf}
use generic_text_gateway.Api.Routes.{
  Call, or_root, route_path, call_with, unknown_endpoint, do_get, do_post, healthz, webui, health,
  modem, subscribe, history, get_message, send_message, sim_pin,
}

-- Someone who is known, with a scope that allows what is needed.
abbrev pub MayDo : (Ident → Type 0) → Text → Ident → Type 0
MayDo known need ident = known ident × (allows ident.1 need ≡ true)

-- Who must stand behind the call of a handler.
abbrev pub IsAllowed : (Ident → Type 0) → Call → Type 0
IsAllowed known healthz = Unit
IsAllowed known webui = (ident : Ident) × known ident
IsAllowed known (health ident) = known ident
IsAllowed known modem = (ident : Ident) × MayDo known (codes "all") ident
IsAllowed known subscribe = (ident : Ident) × MayDo known (codes "receive") ident
IsAllowed known history = (ident : Ident) × MayDo known (codes "receive") ident
IsAllowed known (get_message path ident) = MayDo known (codes "send") ident
IsAllowed known (send_message ident) = MayDo known (codes "send") ident
IsAllowed known (sim_pin ident) = MayDo known (codes "all") ident

-- The principals whose credential a request holds.
abbrev pub Holds : Python → Hashes → List Principal → Guards → Request → Ident → Type 0
Holds py h users g q = IsOf (Carries py h g.kdf_cache q.authorization) users

module _ (py : Python) (h : Hashes) (users : List Principal) where
  with_scope-MayDo :
      (known : Ident → Type 0) (need : Text) (now : ℕ) (ip : Text) (g : Guards)
      (checked : Option Ident × List Text) {ident : Ident}
      → ((i : Ident) → checked.0 ≡ some i → known i)
      → (with_scope py h users need now ip g checked).0 ≡ inr ident
      → MayDo known need ident
  with_scope-MayDo known need now ip g (none, cache) f e =
      elim (Option-cases (fail now ip g.backoff)) [
        | inl raised ↦ absurd (ground (arith, e, raised))
        | inr (b, counted) ↦ absurd (ground (arith, e, counted))
      ]
  with_scope-MayDo known need now ip g (some i, cache) {ident} f e =
      elim (Bool-cases (allows i.1 need)) [
        | inr no' ↦ absurd (ground (arith, e, no'))
        | inl yes' ↦ let same : i ≡ ident = ground (arith, e, yes') in rw (← same) (f i refl, yes')
      ]

  authorize-MayDo :
      (need : Text) (now : ℕ) (q : Request) (g : Guards) {ident : Ident}
      → (authorize py h users now q need g).0 ≡ inr ident
      → MayDo (Holds py h users g q) need ident
  unfolding authorize
  authorize-MayDo need now q g e =
      elim (Bool-cases (ltb 0 (blocked_for now q.client_ip g.backoff))) [
        | inl blocked ↦ absurd (ground (arith, e, blocked))
        | inr free ↦
            with_scope-MayDo (Holds py h users g q) need now q.client_ip g
              (check py h users g.kdf_cache q.authorization)
              (λ i k. check-IsOf py h users g.kdf_cache q.authorization k) (ground (arith, e, free))
      ]

  any_checked-Holds :
      (now : ℕ) (q : Request) (g : Guards) (checked : Option Ident × List Text) {ident : Ident}
      → ((i : Ident) → checked.0 ≡ some i → Holds py h users g q i)
      → (checked.0 ≡ none → checked.1 ≡ g.kdf_cache)
      → (any_checked py h users now q g checked).0 ≡ inr ident
      → Holds py h users g q ident
  any_checked-Holds now q g (none, cache) {ident} f k e =
      subst (λ (c : List Text). IsOf (Carries py h c q.authorization) users ident) (k refl)
        (authorize-MayDo (codes "receive") now q (record g { kdf_cache = cache }) e).0
  any_checked-Holds now q g (some i, cache) {ident} f k e = f ident (ground (arith, e))

  any_scope-Holds :
      (now : ℕ) (q : Request) (g : Guards) {ident : Ident}
      → (any_scope py h users now q g).0 ≡ inr ident
      → Holds py h users g q ident
  unfolding any_scope
  any_scope-Holds now q g e = elim (Bool-cases (ltb 0 (blocked_for now q.client_ip g.backoff))) [
    | inl blocked ↦ (authorize-MayDo (codes "receive") now q g (ground (arith, e, blocked))).0
    | inr free ↦
        any_checked-Holds now q g (check py h users g.kdf_cache q.authorization)
          (λ i k. check-IsOf py h users g.kdf_cache q.authorization k)
          (check-none py h users g.kdf_cache q.authorization) (ground (arith, e, free))
  ]

  call_with-IsAllowed :
      (known : Ident → Type 0) (f : Ident → Call) (a : (Refusal ⊎ Ident) × Guards) {call : Call}
      → ((i : Ident) → a.0 ≡ inr i → IsAllowed known (f i))
      → (call_with f a).0 ≡ inr call
      → IsAllowed known call
  call_with-IsAllowed known f (inl e, g) k eq = absurd (ground (arith, eq))
  call_with-IsAllowed known f (inr i, g) {call} k eq =
      let same : f i ≡ call = ground (arith, eq) in rw (← same) (k i refl)

  -- One test of a path.
  branch-IsAllowed :
      (known : Ident → Type 0) (test : Bool) (then_call else_call : (Refusal ⊎ Call) × Guards)
      → ((call : Call) → then_call.0 ≡ inr call → IsAllowed known call)
      → ((call : Call) → else_call.0 ≡ inr call → IsAllowed known call)
      → (call : Call) → (if test then then_call else else_call).0 ≡ inr call
      → IsAllowed known call
  branch-IsAllowed known true a b p q call e = p call e
  branch-IsAllowed known false a b p q call e = q call e

  via_scope :
      (need : Text) (f : Ident → Call) (now : ℕ) (q : Request) (g : Guards)
      → ((i : Ident) → MayDo (Holds py h users g q) need i → IsAllowed (Holds py h users g q) (f i))
      → (call : Call) → (call_with f (authorize py h users now q need g)).0 ≡ inr call
      → IsAllowed (Holds py h users g q) call
  via_scope need f now q g k call e =
      call_with-IsAllowed (Holds py h users g q) f (authorize py h users now q need g)
        (λ i a. k i (authorize-MayDo need now q g a)) e

  via_any :
      (f : Ident → Call) (now : ℕ) (q : Request) (g : Guards)
      → ((i : Ident) → Holds py h users g q i → IsAllowed (Holds py h users g q) (f i))
      → (call : Call) → (call_with f (any_scope py h users now q g)).0 ≡ inr call
      → IsAllowed (Holds py h users g q) call
  via_any f now q g k call e =
      call_with-IsAllowed (Holds py h users g q) f (any_scope py h users now q g)
        (λ i a. k i (any_scope-Holds now q g a)) e

  refused-IsAllowed :
      (known : Ident → Type 0) (e : Refusal) (g : Guards) (call : Call)
      → ◌≡◌ {A = Refusal ⊎ Call} (inl e) (inr call)
      → IsAllowed known call
  refused-IsAllowed known e g call eq = absurd (ground (arith, eq))

  healthz-IsAllowed :
      (known : Ident → Type 0) (call : Call)
      → ◌≡◌ {A = Refusal ⊎ Call} (inr healthz) (inr call)
      → IsAllowed known call
  healthz-IsAllowed known call e = let same : healthz ≡ call = ground (arith, e) in rw (← same) tt

  do_get-IsAllowed :
      (webui_on : Bool) (now : ℕ) (q : Request) (g : Guards) (call : Call)
      → (do_get py h users webui_on now q g).0 ≡ inr call
      → IsAllowed (Holds py h users g q) call
  unfolding do_get
  do_get-IsAllowed webui_on now q g =
      let known = Holds py h users g q in
      let path = or_root (route_path q.path) in
      branch-IsAllowed known (text_beq path (codes "/healthz")) _ _ (healthz-IsAllowed known) (
        branch-IsAllowed known
          ((text_beq path (codes "/") || text_beq path (codes "/ui")) && webui_on) _ _
          (via_any (λ ident. webui) now q g (λ i a. (i, a)))
          (branch-IsAllowed known (text_beq path (codes "/v1/health")) _ _
            (via_any health now q g (λ i a. a))
            (branch-IsAllowed known (text_beq path (codes "/v1/modem")) _ _
              (via_scope (codes "all") (λ ident. modem) now q g (λ i a. (i, a)))
              (branch-IsAllowed known (text_beq path (codes "/v1/subscribe")) _ _
                (via_scope (codes "receive") (λ ident. subscribe) now q g (λ i a. (i, a)))
                (branch-IsAllowed known (text_beq path (codes "/v1/history")) _ _
                  (via_scope (codes "receive") (λ ident. history) now q g (λ i a. (i, a)))
                  (branch-IsAllowed known (starts_with path (codes "/v1/messages/")) _ _
                    (via_scope (codes "send") (get_message path) now q g (λ i a. a))
                    (refused-IsAllowed known unknown_endpoint g)))))))

  do_post-IsAllowed :
      (now : ℕ) (q : Request) (g : Guards) (call : Call)
      → (do_post py h users now q g).0 ≡ inr call
      → IsAllowed (Holds py h users g q) call
  unfolding do_post
  do_post-IsAllowed now q g =
      let known = Holds py h users g q in
      let path = route_path q.path in
      branch-IsAllowed known (text_beq path (codes "/v1/messages")) _ _
        (via_scope (codes "send") send_message now q g (λ i a. a))
        (branch-IsAllowed known (text_beq path (codes "/v1/sim/pin")) _ _
          (via_scope (codes "all") sim_pin now q g (λ i a. a))
          (refused-IsAllowed known unknown_endpoint g))

  -- Whatever a request holds: each handler that it reaches, by GET or by POST, is one that anyone may call
  -- (`healthz`), or there is a principal of the configuration behind it whose credential the request holds: as a bearer
  -- token (its token, or one of which it has the digest), or in the basic form by its name and its token or its
  -- password, which verifies or is in the cache of those that did. The scope of this principal allows the handler: any
  -- scope for the page and the health, `receive` or `all` for the stream and the history, `send` or `all` for
  -- sending and for a record, `all` for the modem and the PIN; and the name that a handler is called with is this
  -- principal's.
  pub routes-IsAllowed :
      (webui_on : Bool) (now : ℕ) (q : Request) (g : Guards) (call : Call)
      → (do_get py h users webui_on now q g).0 ≡ inr call
        ⊎ (do_post py h users now q g).0 ≡ inr call
      → IsAllowed (Holds py h users g q) call
  routes-IsAllowed webui_on now q g call (inl e) = do_get-IsAllowed webui_on now q g call e
  routes-IsAllowed webui_on now q g call (inr e) = do_post-IsAllowed now q g call e
