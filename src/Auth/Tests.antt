-- ===== src/Auth/Tests.antt =====
-- Two messages an hour, and the users of a configuration.
use generic_text_gateway.Common.{
  length, nat_eq, lookup, insert, codes, text_beq, text_eq, starts_with, strip, ℕ, ◌≤◌, ◌≡◌, refl,
  none, some, List, [], ◌∷◌, arith,
}
use generic_text_gateway.Auth.{
  partition, parse_credential, parse_user, float_limit, float_power, delay_of, fail, repeat, allow,
  plain,
}
use generic_text_gateway.Auth.Limits.{Limiter, request, requests, recent, requests-window}

abbrev calls : List (ℕ × ℕ)
calls = (5, 1) ∷ (10, 1) ∷ (10, 1) ∷ (3590, 1) ∷ []

abbrev start : Limiter
start = record { limit = record { n = 2; window = 3600; events = [] }; clock = 0; granted_at = [] }

-- The third call is refused, the fourth finds the first two out of the window.
calls_lem : (requests calls start).granted_at ≡ 5 ∷ 15 ∷ 3615 ∷ []
unfolding requests request allow repeat
calls_lem = refl

requests-window_example : length (recent 3620 3600 (requests calls start).granted_at) ≤ 2
unfolding requests request allow repeat
requests-window_example = requests-window calls 2 3600 0 3620 (omega arith) (omega arith)

user :
    parse_user (λ s. s) (codes "ha") (codes "send:secret")
    ≡ some
        (record { name = codes "ha"; scope = codes "send"; kind = plain; secret = codes "secret" })
unfolding parse_user partition strip text_beq parse_credential starts_with
user = refl

-- The 1026th failure in a row raises; the one before does not.
fail_raises :
    (fail 7 (codes "a") (record { base = 2; cap = 300; state = (codes "a", (1025, 0)) ∷ [] })
      ≡ none)
    × (fail 7 (codes "a") (record { base = 2; cap = 300; state = (codes "a", (1024, 0)) ∷ [] })
        ≡ some (record { base = 2; cap = 300; state = (codes "a", (1025, 307)) ∷ [] }))
unfolding fail delay_of float_power float_limit lookup insert text_beq
fail_raises = (refl, refl)
