-- ===== src/Trust/Verified.antt =====
-- Who the client has talked to.
use generic_text_gateway.Common.{
  ltb, ◌==◌, if◌then◌else◌, Bool-cases, length, all, All, nat_eq, Text, codes, text_beq,
  text_beq_iff, text_eq, is_space, rstrip, strip, is_ascii_digit, ℕ, ◌≡◌, refl, sym, ap, subst, ◌∙◌,
  inl, inr, Bool, true, false, not, ◌&&◌, Option, none, some, List, [], ◌∷◌, ◌++◌, arith,
}
use generic_text_gateway.Auth.{is_hex_digit}
use generic_text_gateway.Trust.{
  Mode, Settings, ServerConnection, is_empty, without_colons, chosen, mode_of, or_8443,
  server_connection, Peer, Connected, with_peer, expected_of, load_tofu, store_tofu, connect,
  connections, pin_mode, tofu_mode, ca_mode, system_mode, connected, trust_error, pin_error,
}

-- A SHA-256 digest in hexadecimal.
abbrev pub IsDigest : Text → Type 0
IsDigest fp = (length fp ≡ 64) × (all is_hex_digit fp ≡ true)

hex-no_space : (c : ℕ) → is_hex_digit c ≡ true → is_space c ≡ false
unfolding is_space is_ascii_digit
hex-no_space c h = ground (arith, h)

rstrip-line : (s : Text) → all is_hex_digit s ≡ true → rstrip (s ++ 10 ∷ []) ≡ s
unfolding rstrip is_space
rstrip-line [] h = refl
rstrip-line (c ∷ []) h = rw (hex-no_space c (ground (arith, h))) refl
rstrip-line (c ∷ d ∷ s) h = rw (rstrip-line (d ∷ s) (ground (arith, h))) refl

-- What is read back of the file.
strip-line :
    (s : Text) → all is_hex_digit s ≡ true → ltb 0 (length s) ≡ true → strip (s ++ 10 ∷ []) ≡ s
unfolding strip
strip-line [] h n = absurd (ground (arith, n))
strip-line (c ∷ s) h n =
    let e = hex-no_space c (ground (arith, h)) in rw (e) (rstrip-line (c ∷ s) h)

expected_of-pin : (pin loaded : Text) → is_empty pin ≡ false → expected_of pin loaded ≡ pin
expected_of-pin [] loaded h = absurd (ground (arith, h))
expected_of-pin (c ∷ pin) loaded h = refl

expected_of-loaded : (pin loaded : Text) → is_empty pin ≡ true → expected_of pin loaded ≡ loaded
expected_of-loaded [] loaded h = refl
expected_of-loaded (c ∷ pin) loaded h = absurd (ground (arith, h))

digest-nonempty : (fp : Text) → length fp ≡ 64 → is_empty fp ≡ false
digest-nonempty [] h = absurd (omega (arith, h))
digest-nonempty (c ∷ fp) h = refl

module _ (lower : Text → Text) where
  connect-pin :
      (c : ServerConnection) (store_ok : Bool) (peer : Peer) (file : Option Text)
      → is_empty c.pin ≡ false
      → connect lower c store_ok peer file
        ≡ (if text_beq peer.fingerprint c.pin then connected else pin_error, file)
  unfolding connect
  connect-pin c store_ok peer file h =
      rw (expected_of-pin c.pin (load_tofu lower c.tofu file) h, h) refl

  connect-valid :
      (c : ServerConnection) (store_ok : Bool) (peer : Peer) (file : Option Text)
      → is_empty c.pin ≡ true
      → c.tofu ≡ false
      → connect lower c store_ok peer file
        ≡ (if peer.is_valid then connected else trust_error, file)
  unfolding connect
  connect-valid c store_ok peer file h k = rw (h, k) refl

  -- A first fingerprint is known.
  connect-known :
      (c : ServerConnection) (store_ok : Bool) (peer : Peer) (file : Option Text) (fp : Text)
      → is_empty c.pin ≡ true
      → c.tofu ≡ true
      → load_tofu lower true file ≡ fp
      → is_empty fp ≡ false
      → connect lower c store_ok peer file
        ≡ (if text_beq peer.fingerprint fp then connected else pin_error, file)
  unfolding connect
  connect-known c store_ok peer file fp h k e n =
      let loaded : expected_of c.pin (load_tofu lower c.tofu file) ≡ fp =
        expected_of-loaded c.pin (load_tofu lower c.tofu file) h
        ∙ ap (λ t. load_tofu lower t file) k
        ∙ e in
      rw (loaded, h, k, n) refl

  connect-first :
      (c : ServerConnection) (store_ok : Bool) (peer : Peer)
      → is_empty c.pin ≡ true
      → c.tofu ≡ true
      → connect lower c store_ok peer none ≡ store_tofu lower store_ok peer.fingerprint none
  unfolding connect load_tofu
  connect-first c store_ok peer h k =
      let loaded : expected_of c.pin (load_tofu lower c.tofu none) ≡ [] =
        expected_of-loaded c.pin (load_tofu lower c.tofu none) h
        ∙ ap (λ t. load_tofu lower t none) k in
      rw (loaded, h, k) refl

  -- All peers but those that one test lets through are left out.
  connections-All :
      (P : Peer → Type 0) (test : Peer → Bool) (failed : Connected) (c : ServerConnection)
      (file : Option Text)
      → ((outcome : Peer) (ps : List Peer) → with_peer failed outcome ps ≡ ps)
      → ((store_ok : Bool) (peer : Peer)
          → connect lower c store_ok peer file ≡ (if test peer then connected else failed, file))
      → ((peer : Peer) → test peer ≡ true → P peer)
      → (l : List (Bool × Peer)) → All P (connections lower c l file).0
  unfolding connections
  connections-All P test failed c file skip step sound [] = tt
  connections-All P test failed c file skip step sound ((store_ok, peer) ∷ l) =
      elim (Bool-cases (test peer)) [
        | inl good ↦
            rw (connections, step store_ok peer, good)
              (sound peer good, connections-All P test failed c file skip step sound l)
        | inr bad ↦
            rw (connections, step store_ok peer, bad)
              (rw (skip peer (connections lower c l file).0)
                (connections-All P test failed c file skip step sound l))
      ]

  tofu_connections :
      ((fp : Text) → all is_hex_digit fp ≡ true → lower fp ≡ fp)
      → (c : ServerConnection) (l : List (Bool × Peer)) → is_empty c.pin ≡ true
      → c.tofu ≡ true
      → All (λ (a : Bool × Peer). IsDigest a.1.fingerprint) l
      → (fp : Text) × All (λ p. p.fingerprint ≡ fp) (connections lower c l none).0
  unfolding connections store_tofu load_tofu
  tofu_connections low c [] h k d = ([], tt)
  tofu_connections low c ((false, peer) ∷ l) h k d =
      rw (connections, connect-first c false peer h k) (tofu_connections low c l h k d.1)
  tofu_connections low c ((true, peer) ∷ l) h k d =
      let fp = peer.fingerprint in
      let filled : is_empty fp ≡ false = digest-nonempty fp d.0.0 in
      let back : load_tofu lower true (some (fp ++ 10 ∷ [])) ≡ fp =
        ap lower (strip-line fp d.0.1 (ground (arith, d.0.0))) ∙ low fp d.0.1 in
      let rest =
        connections-All (λ p. p.fingerprint ≡ fp) (λ p. text_beq p.fingerprint fp) pin_error c
          (some (fp ++ 10 ∷ [])) (λ p ps. refl)
          (λ store_ok p. connect-known c store_ok p (some (fp ++ 10 ∷ [])) fp h k back filled)
          (λ p e. (text_beq_iff p.fingerprint fp).0 e) l in
      (fp, rw (connections, connect-first c true peer h k) (refl, rest))

unless-some :
    (b : Bool) (x : Option ServerConnection) {c : ServerConnection}
    → (if b then none else x) ≡ some c
    → x ≡ some c
unless-some true x e = absurd (ground (arith, e))
unless-some false x e = e

-- What the mode says of those that were talked to.
abbrev pub IsVerified : Mode → ServerConnection → List Peer → Type 0
IsVerified pin_mode c peers = All (λ p. p.fingerprint ≡ c.pin) peers
IsVerified tofu_mode c peers = (fp : Text) × All (λ p. p.fingerprint ≡ fp) peers
IsVerified ca_mode c peers = All (λ p. p.is_valid ≡ true) peers
IsVerified system_mode c peers = All (λ p. p.is_valid ≡ true) peers

module _ (lower : Text → Text)
    (low : (fp : Text) → all is_hex_digit fp ≡ true → lower fp ≡ fp) where
  mode_of-IsVerified :
      (s : Settings) (c : ServerConnection) (l : List (Bool × Peer))
      → c.tofu ≡ s.tofu
      → All (λ (a : Bool × Peer). IsDigest a.1.fingerprint) l
      → IsVerified (mode_of c.pin s) c (connections lower c l none).0
  mode_of-IsVerified s c l e d = elim (Bool-cases (is_empty c.pin)) [
    | inr pinned ↦ rw (pinned) (
        connections-All lower (λ p. p.fingerprint ≡ c.pin) (λ p. text_beq p.fingerprint c.pin)
          pin_error c none (λ p ps. refl) (λ store_ok p. connect-pin lower c store_ok p none pinned)
          (λ p k. (text_beq_iff p.fingerprint c.pin).0 k) l)
    | inl unpinned ↦ elim (Bool-cases s.tofu) [
      | inl tofu ↦ rw (unpinned, tofu) (tofu_connections lower low c l unpinned (e ∙ tofu) d)
      | inr no_tofu ↦
          let valid =
            connections-All lower (λ p. p.is_valid ≡ true) (λ p. p.is_valid) trust_error c none
              (λ p ps. refl)
              (λ store_ok p. connect-valid lower c store_ok p none unpinned (e ∙ no_tofu))
              (λ p k. k) l in
          elim (Bool-cases (is_empty s.server_ca)) [
            | inl system ↦ rw (unpinned, no_tofu, system) valid
            | inr ca ↦ rw (unpinned, no_tofu, ca) valid
          ]
    ]
  ]

  server_connection-mode :
      (s : Settings) (c : ServerConnection)
      → server_connection lower s ≡ some c
      → (c.mode ≡ mode_of c.pin s) × (c.tofu ≡ s.tofu)
  unfolding server_connection
  server_connection-mode s c e =
      let pin = without_colons (lower s.server_pin) in
      let made : ServerConnection = record {
        host = s.hostname;
        port = or_8443 s.url_port;
        pin = pin;
        tofu = s.tofu;
        mode = mode_of pin s;
      } in
      let whole : some made ≡ some c =
        unless-some (not (is_empty s.server_ca) && not (s.ca_exists && s.ca_loads)) (some made) (
          unless-some (not (is_empty pin) && not (length pin == 64 && all is_hex_digit pin)) _ (
            unless-some (ltb 1 (chosen pin s)) _
              (unless-some (not (text_beq s.scheme (codes "https"))) _ e))) in
      let same : made ≡ c = ground (arith, whole) in rw (← same) (refl, refl)

  -- Whatever settings the client accepts, and whoever answers on its connections, one after the other, from a state
  -- without a first fingerprint: those that it has talked to all have the pinned fingerprint in the
  -- mode `pin`, all have one and the same fingerprint in the mode `tofu`, whether or not storing it failed in between, and
  -- all have a certificate that the trust store validates in the other modes. Fingerprints are digests, and
  -- `lower` leaves them as they are.
  pub connections-IsVerified :
      (s : Settings) (c : ServerConnection) (l : List (Bool × Peer))
      → server_connection lower s ≡ some c
      → All (λ (a : Bool × Peer). IsDigest a.1.fingerprint) l
      → IsVerified c.mode c (connections lower c l none).0
  connections-IsVerified s c l e d =
      let (m, t) = server_connection-mode s c e in
      subst (λ mode. IsVerified mode c (connections lower c l none).0) (sym m)
        (mode_of-IsVerified s c l t d)
