-- ===== src/Api/Isolation.antt =====
-- What an answer does not tell: whether a credential is right while its address is blocked, and, of `_get_message`, what others sent.
use generic_text_gateway.Common.{
  ℤ, pos, negsuc, ltb, Bool-cases, any, nat_eq, Text, codes, text_eq, ℕ, ◌+◌, ◌≡◌, refl, sym, ap,
  ◌∙◌, ◌↔◌, ◌⊎◌, inl, inr, Bool, true, false, Option, none, some, List, arith,
}
use generic_text_gateway.Auth.{Principal, Hashes, allows, blocked_for}
use generic_text_gateway.Outbox.{Outbound, Outbox, get}
use generic_text_gateway.Api.{
  Python, Request, Refusal, Ident, Guards, refusal, check, with_scope, authorize, any_checked,
  any_scope,
}
use generic_text_gateway.Api.Access.{IsOneOf, check-IsOneOf, check-none}
use generic_text_gateway.Api.Routes.{do_get, do_post}
use generic_text_gateway.Api.Messages.{
  is_all, is_owner, show_record, message_at, get_message, last_segment,
}

module _ (py : Python) (h : Hashes) (users : List Principal) where
  abbrev too_many : ℕ → Request → Guards → (Refusal ⊎ Ident) × Guards
  too_many now q g = (
    inl (record {
      status = 429;
      code = codes "too_many_attempts";
      retry_after = some (blocked_for now q.client_ip g.backoff + 1);
    }),
    g,
  )

  authorize-blocked :
      (need : Text) (now : ℕ) (q : Request) (g : Guards)
      → ltb 0 (blocked_for now q.client_ip g.backoff) ≡ true
      → authorize py h users now q need g ≡ too_many now q g
  unfolding authorize
  authorize-blocked need now q g b = rw (b) refl

  any_scope-blocked :
      (now : ℕ) (q : Request) (g : Guards)
      → ltb 0 (blocked_for now q.client_ip g.backoff) ≡ true
      → any_scope py h users now q g ≡ too_many now q g
  unfolding any_scope
  any_scope-blocked now q g b = rw (b) (authorize-blocked (codes "receive") now q g b)

  do_get-blocked :
      (webui_on : Bool) (now : ℕ) (q : Request) (g : Guards) (credential : Option Text)
      → ltb 0 (blocked_for now q.client_ip g.backoff) ≡ true
      → do_get py h users webui_on now (record q { authorization = credential }) g
        ≡ do_get py h users webui_on now q g
  unfolding do_get
  do_get-blocked webui_on now q g credential b =
      let q' : Request = record q { authorization = credential } in
      rw
        (
          authorize-blocked (codes "all") now q g b,
          authorize-blocked (codes "receive") now q g b,
          authorize-blocked (codes "send") now q g b,
          any_scope-blocked now q g b,
          authorize-blocked (codes "all") now q' g b,
          authorize-blocked (codes "receive") now q' g b,
          authorize-blocked (codes "send") now q' g b,
          any_scope-blocked now q' g b,
        )
        refl

  do_post-blocked :
      (now : ℕ) (q : Request) (g : Guards) (credential : Option Text)
      → ltb 0 (blocked_for now q.client_ip g.backoff) ≡ true
      → do_post py h users now (record q { authorization = credential }) g
        ≡ do_post py h users now q g
  unfolding do_post
  do_post-blocked now q g credential b =
      let q' : Request = record q { authorization = credential } in
      rw
        (
          authorize-blocked (codes "all") now q g b,
          authorize-blocked (codes "send") now q g b,
          authorize-blocked (codes "all") now q' g b,
          authorize-blocked (codes "send") now q' g b,
        )
        refl

  -- An answer that a scope may forbid, against one that any scope may have.
  unfoldable pub Agrees : (Refusal ⊎ Ident) × Guards → (Refusal ⊎ Ident) × Guards → Type 0
  Agrees (any, g) (scoped, g') =
      (g ≡ g')
      × ((any ≡ scoped)
          ⊎ ((ident : Ident) × IsOneOf users ident
              × (allows ident.1 (codes "receive") ≡ false)
              × (any ≡ inr ident)
              × (scoped ≡ inl (refusal 403 (codes "forbidden")))))

  authorize-free :
      (now : ℕ) (q : Request) (g : Guards)
      → ltb 0 (blocked_for now q.client_ip g.backoff) ≡ false
      → authorize py h users now q (codes "receive") g
        ≡ with_scope py h users
            (codes "receive")
            now
            q.client_ip
            g
            (check py h users g.kdf_cache q.authorization)
  unfolding authorize
  authorize-free now q g free = rw (free) refl

  any_checked-Agrees :
      (now : ℕ) (q : Request) (g : Guards)
      → ltb 0 (blocked_for now q.client_ip g.backoff) ≡ false
      → (checked : Option Ident × List Text)
      → check py h users g.kdf_cache q.authorization ≡ checked
      → ((i : Ident) → checked.0 ≡ some i → IsOneOf users i)
      → (checked.0 ≡ none → checked.1 ≡ g.kdf_cache)
      → Agrees
          (any_checked py h users now q g checked)
          (with_scope py h users (codes "receive") now q.client_ip g checked)
  unfolding Agrees
  any_checked-Agrees now q g free (none, cache) e f k =
      let kept = k refl in
      let again : check py h users g.kdf_cache q.authorization ≡ (none, g.kdf_cache) =
        e ∙ ap (λ (c : List Text). (none, c)) kept in
      let same =
        authorize-free now q g free
        ∙ ap (with_scope py h users (codes "receive") now q.client_ip g) again in
      rw (kept, same) (refl, inl refl)
  any_checked-Agrees now q g free (some ident, cache) e f k =
      elim (Bool-cases (allows ident.1 (codes "receive"))) [
        | inl fine ↦ rw (fine) (refl, inl refl)
        | inr low ↦ rw (low) (refl, inr (ident, f ident refl, low, refl, refl))
      ]

  -- `_any_scope` agrees with `_authorize` for `receive`, whose answers it sends: on every request they leave the same
  -- cache and the same backoff (so one failure is counted once, though the credential is read twice), and they
  -- answer alike, but where a principal of the configuration has no scope to receive: then one lets it in
  -- and the other forbids it.
  pub any_scope-authorize :
      (now : ℕ) (q : Request) (g : Guards)
      → Agrees (any_scope py h users now q g) (authorize py h users now q (codes "receive") g)
  unfolding any_scope Agrees
  any_scope-authorize now q g = elim (Bool-cases (ltb 0 (blocked_for now q.client_ip g.backoff))) [
    | inl blocked ↦ rw (blocked) (refl, inl refl)
    | inr free ↦
        rw (free, authorize-free now q g free)
          (any_checked-Agrees now q g free (check py h users g.kdf_cache q.authorization) refl
            (λ i k. check-IsOneOf py h users g.kdf_cache q.authorization k)
            (check-none py h users g.kdf_cache q.authorization))
  ]

  -- While its address is blocked, what a client is answered, on every path, by GET and by POST, and what the
  -- guards remember of it do not depend on the credential that it sends.
  pub routes_blocked :
      (webui_on : Bool) (now : ℕ) (q : Request) (g : Guards) (credential : Option Text)
      → ltb 0 (blocked_for now q.client_ip g.backoff) ≡ true
      → (do_get py h users webui_on now (record q { authorization = credential }) g
          ≡ do_get py h users webui_on now q g)
        × (do_post py h users now (record q { authorization = credential }) g
            ≡ do_post py h users now q g)
  routes_blocked webui_on now q g credential b =
      (do_get-blocked webui_on now q g credential b, do_post-blocked now q g credential b)

show_record-alike :
    (ident : Ident) (a a' : Option Outbound)
    → is_all ident ≡ false
    → ((r : Outbound) → is_owner ident r.owner ≡ true → (a ≡ some r) ↔ (a' ≡ some r))
    → show_record ident a ≡ show_record ident a'
show_record-alike ident none none low same = refl
show_record-alike ident none (some r) low same = elim (Bool-cases (is_owner ident r.owner)) [
  | inl mine ↦ absurd (ground (arith, (same r mine).1 refl))
  | inr foreign ↦ rw (low, foreign) refl
]
show_record-alike ident (some r) none low same = elim (Bool-cases (is_owner ident r.owner)) [
  | inl mine ↦ absurd (ground (arith, (same r mine).0 refl))
  | inr foreign ↦ rw (low, foreign) refl
]
show_record-alike ident (some r) (some r') low same = elim (Bool-cases (is_owner ident r.owner)) [
  | inl mine ↦ ap (show_record ident) (sym ((same r mine).0 refl))
  | inr foreign ↦ elim (Bool-cases (is_owner ident r'.owner)) [
    | inl mine ↦ ap (show_record ident) ((same r' mine).1 refl)
    | inr foreign' ↦ rw (low, foreign, foreign') refl
  ]
]

message_at-alike :
    {S : Type 0} (ident : Ident) (b b' : Outbox S) (i : Option ℤ)
    → is_all ident ≡ false
    → ((i : ℕ) (r : Outbound)
        → is_owner ident r.owner ≡ true
        → (get i b ≡ some r) ↔ (get i b' ≡ some r))
    → message_at ident b i ≡ message_at ident b' i
message_at-alike ident b b' none low same = refl
message_at-alike ident b b' (some (negsuc n)) low same = refl
message_at-alike ident b b' (some (pos n)) low same =
    show_record-alike ident (get n b) (get n b') low (same n)

-- `GET /v1/messages/<id>` answers a principal without the scope `all` alike of two outboxes that hold the same records
-- under its name, whatever else they hold, for any path: so this handler shows it no other record, and not even
-- that there is one. (Of the other paths this is not said.)
pub get_message_alike :
    {S : Type 0} (int : Text → Option ℤ) (path : Text) (ident : Ident) (b b' : Outbox S)
    → is_all ident ≡ false
    → ((i : ℕ) (r : Outbound)
        → is_owner ident r.owner ≡ true
        → (get i b ≡ some r) ↔ (get i b' ≡ some r))
    → get_message int path ident b ≡ get_message int path ident b'
unfolding get_message
get_message_alike int path ident b b' low same =
    message_at-alike ident b b' (int (last_segment path)) low same
