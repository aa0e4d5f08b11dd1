-- ===== src/Api/Credentials.antt =====
-- Whose credential a request holds: what stands behind an answer of `Auth.check`, server/gtg_server/auth.py.
use generic_text_gateway.Common.{
  Bool-cases, Option-cases, nat_eq, Text, codes, text_beq, text_beq_iff, text_eq, strip, member,
  ◌≡◌, sym, ap, ◌∙◌, ◌⊎◌, inl, inr, true, not, ◌&&◌, Option, some, List, [], ◌∷◌, arith,
}
use generic_text_gateway.Auth.{
  Principal, Hashes, pbkdf2, sha256, plain, partition, granted, matches_token, check_token,
  kdf_verify, matches_basic, check_basic,
}
use generic_text_gateway.Api.{Python, Ident, is_empty, or_empty, behind, check_kind, check}
use generic_text_gateway.Api.Access.{Kind-cases, matches_basic-false}

-- A token: it is the principal's own, or its digest is. A password is no token.
abbrev pub IsToken : Hashes → Text → Principal → Type 0
IsToken h token p =
    ((p.kind ≡ plain) × (p.secret ≡ token)) ⊎ ((p.kind ≡ sha256) × (p.secret ≡ h.hash_token token))

-- A password: it verifies against the principal's, or has done so before, as the cache remembers.
abbrev pub IsPassword : Hashes → List Text → Text → Principal → Type 0
IsPassword h cache password p =
    (p.kind ≡ pbkdf2)
    × ((h.verify_password password p.secret ≡ true)
        ⊎ (member (h.cache_key p.name password) cache ≡ true))

-- The parts of an `Authorization` header: its first word in lower case, and the rest.
abbrev pub kind_of : Python → Option Text → Text
kind_of py header = py.lower (strip (partition 32 (or_empty header)).0)

abbrev pub value_of : Option Text → Text
value_of header = strip (behind (partition 32 (or_empty header)))

-- The header holds the principal's credential: as a bearer its token, or in the basic form its name and its
-- token or password.
unfoldable pub Carries : Python → Hashes → List Text → Option Text → Principal → Type 0
Carries py h cache header p =
    ((kind_of py header ≡ codes "bearer") × IsToken h (value_of header) p)
    ⊎ ((kind_of py header ≡ codes "basic")
        × ((pair : Text) × (py.b64decode (value_of header) ≡ some pair)
            × ((partition 58 pair).0 ≡ p.name)
            × (IsToken h (behind (partition 58 pair)) p
                ⊎ IsPassword h cache (behind (partition 58 pair)) p)))

-- One of the principals, with its own name and scope, fits.
unfoldable pub IsOf : (Principal → Type 0) → List Principal → Ident → Type 0
IsOf fits [] ident = ⊥
IsOf fits (p ∷ ps) ident = ((granted p ≡ ident) × fits p) ⊎ IsOf fits ps ident

IsOf-map :
    (fits fits' : Principal → Type 0) (users : List Principal) (ident : Ident)
    → ((p : Principal) → fits p → fits' p)
    → IsOf fits users ident
    → IsOf fits' users ident
unfolding IsOf
IsOf-map fits fits' [] ident f none' = none'
IsOf-map fits fits' (p ∷ ps) ident f (inl (e, x)) = inl (e, f p x)
IsOf-map fits fits' (p ∷ ps) ident f (inr rest) = inr (IsOf-map fits fits' ps ident f rest)

module _ (h : Hashes) where
  matches_token-IsToken :
      (token : Text) (p : Principal) → matches_token h token p ≡ true → IsToken h token p
  unfolding matches_token
  matches_token-IsToken token p e = elim (Kind-cases p.kind) [
    | inl k ↦ absurd (ground (arith, e, k))
    | inr (inl k) ↦ inr (k, (text_beq_iff p.secret (h.hash_token token)).0 (ground (arith, e, k)))
    | inr (inr k) ↦ inl (k, (text_beq_iff p.secret token).0 (ground (arith, e, k)))
  ]

  check_token-IsOf :
      (users : List Principal) (token : Text) {ident : Ident}
      → check_token h users token ≡ some ident
      → IsOf (IsToken h token) users ident
  unfolding check_token IsOf
  check_token-IsOf [] token e = ground (arith, e)
  check_token-IsOf (p ∷ ps) token e = elim (Bool-cases (matches_token h token p)) [
    | inl good ↦ inl (ground (arith, e, good), matches_token-IsToken token p good)
    | inr bad ↦ inr (check_token-IsOf ps token (ground (arith, e, bad)))
  ]

  matches_basic-true :
      (cache : List Text) (password : Text) (p : Principal)
      → (matches_basic h cache password p).0 ≡ true
      → IsToken h password p ⊎ IsPassword h cache password p
  unfolding matches_basic kdf_verify
  matches_basic-true cache password p e = elim (Kind-cases p.kind) [
    | inl k ↦ elim (Bool-cases (member (h.cache_key p.name password) cache)) [
      | inl old ↦ inr (k, inr old)
      | inr fresh ↦ elim (Bool-cases (h.verify_password password p.secret)) [
        | inl good ↦ inr (k, inl good)
        | inr bad ↦ absurd (ground (arith, e, k, fresh, bad))
      ]
    ]
    | inr (inl k) ↦
        inl (inr (k, (text_beq_iff p.secret (h.hash_token password)).0 (ground (arith, e, k))))
    | inr (inr k) ↦ inl (inl (k, (text_beq_iff p.secret password).0 (ground (arith, e, k))))
  ]

  -- A name and a secret.
  abbrev FitsBasic : List Text → Text → Text → Principal → Type 0
  FitsBasic cache user password p =
      (user ≡ p.name) × (IsToken h password p ⊎ IsPassword h cache password p)

  check_basic-IsOf :
      (users : List Principal) (cache : List Text) (user password : Text) {ident : Ident}
      → (check_basic h users cache user password).0 ≡ some ident
      → IsOf (FitsBasic cache user password) users ident
  unfolding check_basic IsOf
  check_basic-IsOf [] cache user password e = ground (arith, e)
  check_basic-IsOf (p ∷ ps) cache user password {ident} e =
      elim (Bool-cases (text_beq p.name user)) [
        | inr differs ↦ inr (check_basic-IsOf ps cache user password (ground (arith, e, differs)))
        | inl same ↦ elim (Bool-cases (matches_basic h cache password p).0) [
          | inl good ↦ inl (
            ground (arith, e, same, good),
            (sym ((text_beq_iff p.name user).0 same), matches_basic-true cache password p good),
          )
          | inr bad ↦
              let kept = matches_basic-false h cache password p bad in
              let rest : (check_basic h ps (matches_basic h cache password p).1 user password).0
                  ≡ some ident =
                ground (arith, e, same, bad) in
              inr (
                check_basic-IsOf ps cache user password
                  (ap (λ c. (check_basic h ps c user password).0) (sym kept) ∙ rest))
        ]
      ]

-- Whoever is let in is a principal of the configuration, and the request holds its credential.
pub check-IsOf :
    (py : Python) (h : Hashes) (users : List Principal) (cache : List Text) (header : Option Text)
    {ident : Ident}
    → (check py h users cache header).0 ≡ some ident
    → IsOf (Carries py h cache header) users ident
unfolding check check_kind Carries
check-IsOf py h users cache header {ident} e =
    let kind = kind_of py header in
    let value = value_of header in
    elim (Bool-cases (is_empty (or_empty header))) [
      | inl empty ↦ absurd (ground (arith, e, empty))
      | inr given ↦ elim (Bool-cases (text_beq kind (codes "bearer") && not (is_empty value))) [
        | inl bearer ↦
            let word : kind ≡ codes "bearer" =
              (text_beq_iff kind (codes "bearer")).0 (ground (arith, bearer)) in
            IsOf-map (IsToken h value) (Carries py h cache header) users ident
              (λ p fits. inl (word, fits))
              (check_token-IsOf h users value (ground (arith, e, given, bearer)))
        | inr other ↦ elim (Bool-cases (text_beq kind (codes "basic") && not (is_empty value))) [
          | inr neither ↦ absurd (ground (arith, e, given, other, neither))
          | inl basic ↦ elim (Option-cases (py.b64decode value)) [
            | inl broken ↦ absurd (ground (arith, e, given, other, basic, broken))
            | inr (pair, decoded) ↦
                let word : kind ≡ codes "basic" =
                  (text_beq_iff kind (codes "basic")).0 (ground (arith, basic)) in
                IsOf-map (FitsBasic h cache (partition 58 pair).0 (behind (partition 58 pair)))
                  (Carries py h cache header) users ident
                  (λ p fits. inr (word, (pair, decoded, fits.0, fits.1)))
                  (check_basic-IsOf h users cache (partition 58 pair).0 (behind (partition 58 pair))
                    (ground (arith, e, given, other, basic, decoded)))
          ]
        ]
      ]
    ]
