-- ===== src/Api/Access.antt =====
-- What `Auth.check`, `_authorize` and `_any_scope` let through.
use generic_text_gateway.Common.{
  Bool-cases, nat_eq, Text, codes, text_beq, text_eq, strip, member, ◌≡◌, refl, sym, ap, ◌∙◌, ◌⊎◌,
  inl, inr, false, not, ◌&&◌, Option, none, some, List, [], ◌∷◌, arith,
}
use generic_text_gateway.Auth.{
  Kind, Principal, Hashes, partition, granted, pbkdf2, sha256, plain, matches_token, check_token,
  kdf_verify, matches_basic, check_basic, plain,
}
use generic_text_gateway.Api.{
  Python, Ident, is_empty, or_empty, behind, check_decoded, check_kind, check,
}

pub Kind-cases : (k : Kind) → (k ≡ pbkdf2) ⊎ ((k ≡ sha256) ⊎ (k ≡ plain))
Kind-cases pbkdf2 = inl refl
Kind-cases sha256 = inr (inl refl)
Kind-cases plain = inr (inr refl)

-- A principal of the configuration stands behind a name and its scope.
unfoldable pub IsOneOf : List Principal → Ident → Type 0
IsOneOf [] ident = ⊥
IsOneOf (p ∷ ps) ident = (granted p ≡ ident) ⊎ IsOneOf ps ident

module _ (h : Hashes) where
  check_token-IsOneOf :
      (users : List Principal) (token : Text) {ident : Ident}
      → check_token h users token ≡ some ident
      → IsOneOf users ident
  unfolding check_token IsOneOf
  check_token-IsOneOf [] token e = ground (arith, e)
  check_token-IsOneOf (p ∷ ps) token e = elim (Bool-cases (matches_token h token p)) [
    | inl yes' ↦ inl (ground (arith, e, yes'))
    | inr no' ↦ inr (check_token-IsOneOf ps token (ground (arith, e, no')))
  ]

  -- A credential that does not match leaves the cache alone.
  pub matches_basic-false :
      (cache : List Text) (password : Text) (p : Principal)
      → (matches_basic h cache password p).0 ≡ false
      → (matches_basic h cache password p).1 ≡ cache
  unfolding matches_basic kdf_verify
  matches_basic-false cache password p e = elim (Kind-cases p.kind) [
    | inl hashed_password ↦
        rw (hashed_password) (elim (Bool-cases (member (h.cache_key p.name password) cache)) [
          | inl known_key ↦ rw (known_key) refl
          | inr fresh ↦ elim (Bool-cases (h.verify_password password p.secret)) [
            | inl good ↦ absurd (ground (arith, e, hashed_password, fresh, good))
            | inr bad ↦ rw (fresh, bad) refl
          ]
        ])
    | inr (inl token_hash) ↦ rw (token_hash) refl
    | inr (inr token) ↦ rw (token) refl
  ]

  check_basic-IsOneOf :
      (users : List Principal) (cache : List Text) (user password : Text) {ident : Ident}
      → (check_basic h users cache user password).0 ≡ some ident
      → IsOneOf users ident
  unfolding check_basic IsOneOf
  check_basic-IsOneOf [] cache user password e = ground (arith, e)
  check_basic-IsOneOf (p ∷ ps) cache user password e = elim (Bool-cases (text_beq p.name user)) [
    | inr differs ↦ inr (check_basic-IsOneOf ps cache user password (ground (arith, e, differs)))
    | inl same ↦ elim (Bool-cases (matches_basic h cache password p).0) [
      | inl good ↦ inl (ground (arith, e, same, good))
      | inr bad ↦ inr (
          check_basic-IsOneOf ps (matches_basic h cache password p).1 user password
            (ground (arith, e, same, bad)))
    ]
  ]

  check_basic-none :
      (users : List Principal) (cache : List Text) (user password : Text)
      → (check_basic h users cache user password).0 ≡ none
      → (check_basic h users cache user password).1 ≡ cache
  unfolding check_basic
  check_basic-none [] cache user password e = refl
  check_basic-none (p ∷ ps) cache user password e = elim (Bool-cases (text_beq p.name user)) [
    | inr differs ↦
        rw (differs, check_basic)
          (check_basic-none ps cache user password (ground (arith, e, differs)))
    | inl same ↦ elim (Bool-cases (matches_basic h cache password p).0) [
      | inl good ↦ absurd (ground (arith, e, same, good))
      | inr bad ↦
          let kept = matches_basic-false cache password p bad in
          let rest : (check_basic h ps (matches_basic h cache password p).1 user password).0
              ≡ none =
            ground (arith, e, same, bad) in
          rw (same, check_basic, bad)
            (rw kept (
              check_basic-none ps cache user password
                (ap (λ c. (check_basic h ps c user password).0) (sym kept) ∙ rest)))
    ]
  ]

module _ (py : Python) (h : Hashes) (users : List Principal) where
  check_decoded-IsOneOf :
      (cache : List Text) (pair : Option Text) {ident : Ident}
      → (check_decoded py h users cache pair).0 ≡ some ident
      → IsOneOf users ident
  check_decoded-IsOneOf cache none e = absurd (ground (arith, e))
  check_decoded-IsOneOf cache (some pair) e =
      check_basic-IsOneOf h users cache (partition 58 pair).0 (behind (partition 58 pair)) e

  check_decoded-none :
      (cache : List Text) (pair : Option Text)
      → (check_decoded py h users cache pair).0 ≡ none
      → (check_decoded py h users cache pair).1 ≡ cache
  check_decoded-none cache none e = refl
  check_decoded-none cache (some pair) e =
      check_basic-none h users cache (partition 58 pair).0 (behind (partition 58 pair)) e

  check_kind-IsOneOf :
      (cache : List Text) (kind value : Text) {ident : Ident}
      → (check_kind py h users cache kind value).0 ≡ some ident
      → IsOneOf users ident
  unfolding check_kind
  check_kind-IsOneOf cache kind value e =
      elim (Bool-cases (text_beq kind (codes "bearer") && not (is_empty value))) [
        | inl bearer ↦ check_token-IsOneOf h users value (ground (arith, e, bearer))
        | inr not_bearer ↦
            elim (Bool-cases (text_beq kind (codes "basic") && not (is_empty value))) [
              | inl basic ↦
                  check_decoded-IsOneOf cache (py.b64decode value)
                    (ground (arith, e, not_bearer, basic))
              | inr not_basic ↦ absurd (ground (arith, e, not_bearer, not_basic))
            ]
      ]

  check_kind-none :
      (cache : List Text) (kind value : Text)
      → (check_kind py h users cache kind value).0 ≡ none
      → (check_kind py h users cache kind value).1 ≡ cache
  unfolding check_kind
  check_kind-none cache kind value e =
      elim (Bool-cases (text_beq kind (codes "bearer") && not (is_empty value))) [
        | inl bearer ↦ rw (bearer, check_kind) refl
        | inr not_bearer ↦
            elim (Bool-cases (text_beq kind (codes "basic") && not (is_empty value))) [
              | inl basic ↦
                  rw (not_bearer, basic, check_kind)
                    (check_decoded-none cache (py.b64decode value)
                      (ground (arith, e, not_bearer, basic)))
              | inr not_basic ↦ rw (not_bearer, not_basic, check_kind) refl
            ]
      ]

  -- Whoever is let in is a principal of the configuration, with its own scope.
  pub check-IsOneOf :
      (cache : List Text) (header : Option Text) {ident : Ident}
      → (check py h users cache header).0 ≡ some ident
      → IsOneOf users ident
  unfolding check
  check-IsOneOf cache header e = elim (Bool-cases (is_empty (or_empty header))) [
    | inl empty ↦ absurd (ground (arith, e, empty))
    | inr given ↦
        check_kind-IsOneOf cache (py.lower (strip (partition 32 (or_empty header)).0))
          (strip (behind (partition 32 (or_empty header)))) (ground (arith, e, given))
  ]

  pub check-none :
      (cache : List Text) (header : Option Text)
      → (check py h users cache header).0 ≡ none
      → (check py h users cache header).1 ≡ cache
  unfolding check
  check-none cache header e = elim (Bool-cases (is_empty (or_empty header))) [
    | inl empty ↦ rw (empty) refl
    | inr given ↦
        let kind = py.lower (strip (partition 32 (or_empty header)).0) in
        let value = strip (behind (partition 32 (or_empty header))) in
        let nobody : (check_kind py h users cache kind value).0 ≡ none = ground (arith, e, given) in
        let kept : (check_kind py h users cache kind value).1 ≡ cache =
          check_kind-none cache kind value nobody in
        ground (arith, given, kept)
  ]
