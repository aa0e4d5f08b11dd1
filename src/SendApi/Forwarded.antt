-- ===== src/SendApi/Forwarded.antt =====
-- What reaches the server.
use generic_text_gateway.Common.{
  ℤ, ◌⊎◌, sym, ap, text_beq_iff, ◌==◌, Bool-cases, Option-cases, all, keep, All, nat_eq, Text,
  codes, text_beq, text_eq, starts_with, strip, DigitTable, is_digits, ℕ, ◌≡◌, refl, ◌∙◌, inl, inr,
  Bool, true, false, not, ◌&&◌, Option, none, some, List, [], ◌∷◌, ◌++◌, arith,
}
use generic_text_gateway.Auth.{partition}
use generic_text_gateway.SendApi.{
  Item, Target, Fields, Body, Library, SendRequest, is_empty, squeeze, normalize_text,
  normalize_item, cons_some, normalize_items, normalize_targets, or_empty, compare_digest,
  checked_pair, check_auth, read_body, rstrip_slashes, checked, compat, dispatch, do_post, null,
  boolean, number, string, other, missing, one, many, not_iterable, not_json, null_body, object,
  no_object, forward,
}

abbrev pub is_solid : ℕ → Bool
is_solid c = not (c == 32)

-- A recipient without spaces, and not empty.
abbrev pub IsClean : Text → Type 0
IsClean n = (all is_solid n ≡ true) × (is_empty n ≡ false)

all-keep : (s : Text) → all is_solid (keep is_solid s) ≡ true
all-keep [] = refl
all-keep (c ∷ s) = elim (Bool-cases (is_solid c)) [
  | inl solid ↦ rw (solid, solid) (all-keep s)
  | inr space ↦ rw (space) (all-keep s)
]

normalize_text-IsClean :
    (t : DigitTable) (s : Text) {n : Text} → normalize_text t s ≡ some n → IsClean n
unfolding normalize_text squeeze
normalize_text-IsClean t s {n} e =
    let s' = keep is_solid (strip s) in
    let solid = all-keep (strip s) in
    elim (Bool-cases (is_empty s')) [
      | inl empty ↦ absurd (ground (arith, e, empty))
      | inr full ↦ elim (Bool-cases (not (starts_with s' (codes "+")) && is_digits t s')) [
        | inl bare ↦
            let same : codes "+" ++ s' ≡ n = ground (arith, e, full, bare) in
            rw (← same) (solid, refl)
        | inr kept ↦ let same : s' ≡ n = ground (arith, e, full, kept) in rw (← same) (solid, full)
      ]
    ]

abbrev pub has_any : List Text → Bool
has_any [] = false
has_any (n ∷ ns) = true

-- What a call of `_forward` may be made with.
unfoldable pub IsForwarded : List Text → Text → Type 0
IsForwarded to text = (has_any to ≡ true) × (All IsClean to × (is_empty (strip text) ≡ false))

-- A text in two parts at a separator, which is missing only before an empty second part.
abbrev pub Splits : ℕ → Text → Text → Text → Type 0
Splits sep front back whole = (whole ≡ front ++ sep ∷ back) ⊎ ((whole ≡ front) × (back ≡ []))

-- The header of a request (an absent one is empty) holds the credential, or none is asked for.
unfoldable pub Carries : Library → Text → Text → Option Text → Type 0
Carries py user password header =
    (user ≡ [])
    ⊎ ((kind : Text) × (value : Text) × (pair : Text) × Splits 32 kind value (or_empty header)
        × (py.lower kind ≡ codes "basic")
        × (py.b64decode value ≡ some pair)
        × Splits 58 user password pair)

-- What `partition` takes apart.
partition_lem :
    (sep : ℕ) (s : Text)
    → ((back : Text) × ((partition sep s).1 ≡ some back) × (s ≡ (partition sep s).0 ++ sep ∷ back))
      ⊎ (((partition sep s).1 ≡ none) × ((partition sep s).0 ≡ s))
unfolding partition
partition_lem sep [] = inr (refl, refl)
partition_lem sep (c ∷ s) = elim (Bool-cases (c == sep)) [
  | inl here ↦
      let e : c ≡ sep = ground (arith, here) in
      inl (s, rw (here) refl, rw (here) (ap (λ (x : ℕ). x ∷ s) e))
  | inr later ↦ elim (partition_lem sep s) [
    | inl (back, e, f) ↦ inl (back, rw (later) e, rw (later) (ap (λ (x : Text). c ∷ x) f))
    | inr (e, f) ↦ inr (rw (later) e, rw (later) (ap (λ (x : Text). c ∷ x) f))
  ]
]

compare_digest-same : (a b : Text) → compare_digest a b ≡ some true → a ≡ b
unfolding compare_digest
compare_digest-same a b e = (text_beq_iff a b).0 (ground (arith, e))

partition-Splits :
    (sep : ℕ) (s front back : Text)
    → (partition sep s).0 ≡ front
    → or_empty (partition sep s).1 ≡ back
    → Splits sep front back s
partition-Splits sep s front back first second = elim (partition_lem sep s) [
  | inl (rest, b, whole) ↦
      let same : rest ≡ back = ap or_empty (sym b) ∙ second in
      inl (
        whole ∙ ap (λ (x : Text). x ++ sep ∷ rest) first ∙ ap (λ (x : Text). front ++ sep ∷ x) same)
  | inr (b, whole) ↦ inr (sym whole ∙ first, sym second ∙ ap or_empty b)
]

checked_pair-Splits :
    (user password pair : Text)
    → checked_pair user password (some pair) ≡ some true
    → Splits 58 user password pair
checked_pair-Splits user password pair e =
    partition-Splits 58 pair user password
      (compare_digest-same (partition 58 pair).0 user (ground (arith, e)))
      (compare_digest-same (or_empty (partition 58 pair).1) password (ground (arith, e)))

is_empty-nil : (s : Text) → is_empty s ≡ true → s ≡ []
is_empty-nil [] e = refl
is_empty-nil (c ∷ s) e = absurd (ground (arith, e))

check_auth-Carries :
    (py : Library) (user password : Text) (header : Option Text)
    → check_auth py user password header ≡ some true
    → Carries py user password header
unfolding check_auth Carries
check_auth-Carries py user password header e = elim (Bool-cases (is_empty user)) [
  | inl open' ↦ inl (is_empty-nil user open')
  | inr closed ↦
      let kind = (partition 32 (or_empty header)).0 in
      let value = or_empty (partition 32 (or_empty header)).1 in
      elim (Bool-cases (text_beq (py.lower kind) (codes "basic"))) [
        | inr differs ↦ absurd (ground (arith, e, closed, differs))
        | inl basic ↦ elim (Option-cases (py.b64decode value)) [
          | inl broken ↦ absurd (ground (arith, e, closed, basic, broken))
          | inr (pair, decoded) ↦ inr (
            kind,
            value,
            pair,
            partition-Splits 32 (or_empty header) kind value refl refl,
            (text_beq_iff (py.lower kind) (codes "basic")).0 basic,
            decoded,
            checked_pair-Splits user password pair (ground (arith, e, closed, basic, decoded)),
          )
        ]
      ]
]

module _ (py : Library) (str_solid : (n : ℤ) → all is_solid (py.str n) ≡ true) where
  normalize_item-IsClean : (i : Item) {n : Text} → normalize_item py i ≡ some n → IsClean n
  normalize_item-IsClean null e = absurd (ground (arith, e))
  normalize_item-IsClean (boolean true) {n} e =
      let same : codes "+True" ≡ n = ground (arith, e) in rw (← same) (refl, refl)
  normalize_item-IsClean (boolean false) {n} e =
      let same : codes "+False" ≡ n = ground (arith, e) in rw (← same) (refl, refl)
  normalize_item-IsClean (number k) {n} e =
      let same : codes "+" ++ py.str k ≡ n = ground (arith, e) in rw (← same) (str_solid k, refl)
  normalize_item-IsClean (string s) e = normalize_text-IsClean py.digits s e
  normalize_item-IsClean (other s) e = normalize_text-IsClean py.digits s e

  cons_some-IsClean :
      (o : Option Text) (out : List Text)
      → ((n : Text) → o ≡ some n → IsClean n)
      → All IsClean out
      → All IsClean (cons_some o out)
  cons_some-IsClean none out f h = h
  cons_some-IsClean (some n) out f h = (f n refl, h)

  normalize_items-IsClean : (items : List Item) → All IsClean (normalize_items py items)
  unfolding normalize_items
  normalize_items-IsClean [] = tt
  normalize_items-IsClean (i ∷ items) =
      cons_some-IsClean (normalize_item py i) (normalize_items py items)
        (λ n e. normalize_item-IsClean i e) (normalize_items-IsClean items)

  normalize_targets-IsClean :
      (target : Target) {to : List Text} → normalize_targets py target ≡ some to → All IsClean to
  unfolding normalize_targets
  normalize_targets-IsClean missing {to} e =
      let same : [] ≡ to = ground (arith, e) in rw (← same) tt
  normalize_targets-IsClean (one i) {to} e =
      let same : normalize_items py (i ∷ []) ≡ to = ground (arith, e) in
      rw (← same) (normalize_items-IsClean (i ∷ []))
  normalize_targets-IsClean (many items) {to} e =
      let same : normalize_items py items ≡ to = ground (arith, e) in
      rw (← same) (normalize_items-IsClean items)
  normalize_targets-IsClean not_iterable e = absurd (ground (arith, e))

  checked-IsForwarded :
      (target : Option (List Text)) (given : Option Text) {to : List Text} {text : Text}
      → ((ns : List Text) → target ≡ some ns → All IsClean ns)
      → checked target given ≡ forward to text
      → IsForwarded to text
  unfolding IsForwarded
  checked-IsForwarded none given f e = absurd (ground (arith, e))
  checked-IsForwarded (some []) given f e = absurd (ground (arith, e))
  checked-IsForwarded (some (n ∷ ns)) none f e = absurd (ground (arith, e))
  checked-IsForwarded (some (n ∷ ns)) (some t) {to} {text} f e =
      elim (Bool-cases (is_empty (strip t))) [
        | inl blank ↦ absurd (ground (arith, e, blank))
        | inr full ↦
            let same_to : n ∷ ns ≡ to = ground (arith, e, full) in
            let same_text : t ≡ text = ground (arith, e, full) in
            rw (← same_to, ← same_text) (refl, (f (n ∷ ns) refl, full))
      ]

  compat-IsForwarded :
      (f : Fields) {to : List Text} {text : Text}
      → compat py f ≡ forward to text
      → IsForwarded to text
  compat-IsForwarded f e = elim (Option-cases (normalize_targets py f.phone_numbers)) [
    | inl none' ↦ absurd (ground (arith, e, none'))
    | inr (ns, some') ↦ elim (Option-cases f.message_text) [
      | inl none' ↦ absurd (ground (arith, e, none', some'))
      | inr (given, there) ↦
          checked-IsForwarded (some ns) given
            (λ ms k. normalize_targets-IsClean f.phone_numbers (some' ∙ k))
            (ground (arith, e, some', there))
    ]
  ]

  dispatch-IsForwarded :
      (path : Text) (body : Option Body) {to : List Text} {text : Text}
      → dispatch py path body ≡ forward to text
      → IsForwarded to text
  dispatch-IsForwarded path none e = absurd (ground (arith, e))
  dispatch-IsForwarded path (some not_json) e = absurd (ground (arith, e))
  dispatch-IsForwarded path (some null_body) e = absurd (ground (arith, e))
  dispatch-IsForwarded path (some no_object) e = absurd (ground (arith, e))
  dispatch-IsForwarded path (some (object f)) e =
      elim (Bool-cases (text_beq path (codes "/v1/send"))) [
        | inl clean ↦
            checked-IsForwarded (normalize_targets py f.to) f.text
              (λ ns k. normalize_targets-IsClean f.to k) (ground (arith, e, clean))
        | inr not_send ↦ elim (Bool-cases (text_beq path (codes "/message"))) [
          | inl legacy ↦ compat-IsForwarded f (ground (arith, e, not_send, legacy))
          | inr unknown ↦ absurd (ground (arith, e, not_send, unknown))
        ]
      ]

  -- The local interface asks the server to send only for a request with the configured credential, where a user is
  -- configured: an `Authorization` header whose first word is `basic` and whose rest is the coding of the user, a
  -- colon and the password, each exactly as configured (before an empty part the separator may be missing). And only with at
  -- least one recipient, each of them not empty and without spaces, and a text that is not blank. Of `str` it is
  -- used that a number's has no spaces.
  pub do_post-IsForwarded :
      (user password : Text) (q : SendRequest) {to : List Text} {text : Text}
      → do_post py user password q ≡ forward to text
      → Carries py user password q.authorization × IsForwarded to text
  unfolding do_post
  do_post-IsForwarded user password q e =
      elim (Option-cases (check_auth py user password q.authorization)) [
        | inl raised' ↦ absurd (ground (arith, e, raised'))
        | inr (true, right) ↦ (
          check_auth-Carries py user password q.authorization right,
          dispatch-IsForwarded (rstrip_slashes q.path) (read_body py q) (ground (arith, e, right)),
        )
        | inr (false, wrong) ↦ absurd (ground (arith, e, wrong))
      ]
