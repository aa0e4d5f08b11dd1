-- ===== src/Relay/Attempts.antt =====
-- The attempts of `HAPoster.fire`, client/gtg_client/relay.py, at posting one event. What each
-- attempt meets is an argument; the time between them is in whole seconds.
use generic_text_gateway.Common.{
  Option-cases, length, All, nat_eq, text_eq, ℕ, ◌*◌, ◌≤◌, min, ◌≡◌, refl, ap, inl, inr, Option,
  none, some, List, [], ◌∷◌, ◌++◌, arith,
}
use generic_text_gateway.Relay.{Fire, fired, ambiguous, raised}

-- What a `_post` meets: an answer, `ConnectionRefusedError`, `ConnectionResetError`, a `URLError` whose
-- reason is an `OSError`, an `HTTPError` or another `URLError`, another `OSError`, or any other
-- exception.
pub data Attempt : Type 0 where
  answered : Attempt
  refused : Attempt
  reset : Attempt
  url_os_error : Attempt
  http_error : Attempt
  url_error : Attempt
  os_error : Attempt
  other_error : Attempt

-- How the loop ends after an attempt; `none` is another turn.
unfoldable pub outcome_of : Attempt → Option Fire
outcome_of answered = some fired
outcome_of refused = none
outcome_of reset = none
outcome_of url_os_error = none
outcome_of http_error = some ambiguous
outcome_of url_error = some ambiguous
outcome_of os_error = some ambiguous
outcome_of other_error = some raised

-- The end of the loop and the waits before, for the attempts that are to come; `none` where these
-- are used up.
unfoldable pub fire_loop : ℕ → List Attempt → Option Fire × List ℕ
fire_loop backoff [] = (none, [])
fire_loop backoff (a ∷ attempts) =
    let (end, waits) = fire_loop (min (backoff * 2) 60) attempts in
    elim (outcome_of a) [ some f ↦ (some f, []) | none ↦ (end, backoff ∷ waits) ]

-- `fire`, without the sensor, of which every failure is passed over.
unfoldable pub fire_attempts : List Attempt → Option Fire × List ℕ
fire_attempts attempts = fire_loop 2 attempts

-- What fails below HTTP: a connection that was refused or reset, or another failure of the socket that `urllib` reports.
abbrev pub IsBelowHttp : Attempt → Type 0
IsBelowHttp answered = ⊥
IsBelowHttp refused = Unit
IsBelowHttp reset = Unit
IsBelowHttp url_os_error = Unit
IsBelowHttp http_error = ⊥
IsBelowHttp url_error = ⊥
IsBelowHttp os_error = ⊥
IsBelowHttp other_error = ⊥

-- What a last attempt means for the caller: an answer is a success, what may have arrived is
-- ambiguous, and what nobody foresaw is raised.
pub data Means : Attempt → Fire → Type 0 where
  success : Means answered fired
  error_answer : Means http_error ambiguous
  no_answer : Means url_error ambiguous
  broken_off : Means os_error ambiguous
  unforeseen : Means other_error raised

outcome_of-IsBelowHttp : (a : Attempt) → outcome_of a ≡ none → IsBelowHttp a
unfolding outcome_of
outcome_of-IsBelowHttp answered e = ground (arith, e)
outcome_of-IsBelowHttp refused e = tt
outcome_of-IsBelowHttp reset e = tt
outcome_of-IsBelowHttp url_os_error e = tt
outcome_of-IsBelowHttp http_error e = ground (arith, e)
outcome_of-IsBelowHttp url_error e = ground (arith, e)
outcome_of-IsBelowHttp os_error e = ground (arith, e)
outcome_of-IsBelowHttp other_error e = ground (arith, e)

is_fire :
    {g : Fire} (f : Fire) (a : Attempt)
    → Means a g
    → ◌≡◌ {A = Option Fire} (some g) (some f)
    → Means a f
is_fire {g} f a m e = let same : g ≡ f = ground (arith, e) in rw (← same) m

outcome_of-Means : (a : Attempt) (f : Fire) → outcome_of a ≡ some f → Means a f
unfolding outcome_of
outcome_of-Means answered f e = is_fire f answered success e
outcome_of-Means refused f e = absurd (ground (arith, e))
outcome_of-Means reset f e = absurd (ground (arith, e))
outcome_of-Means url_os_error f e = absurd (ground (arith, e))
outcome_of-Means http_error f e = is_fire f http_error error_answer e
outcome_of-Means url_error f e = is_fire f url_error no_answer e
outcome_of-Means os_error f e = is_fire f os_error broken_off e
outcome_of-Means other_error f e = is_fire f other_error unforeseen e

-- A run of the loop: attempts that failed below HTTP, and the one that ended it.
pub record EndsWith (attempts : List Attempt) (f : Fire) (waits : List ℕ) : Type 0 where
  pub tried : List Attempt
  pub last : Attempt
  pub rest : List Attempt
  pub order : attempts ≡ tried ++ last ∷ rest
  pub again : All IsBelowHttp tried
  pub end : Means last f
  pub waited : length waits ≡ length tried
  pub bounded : All (λ w. w ≤ 60) waits

fire_loop-EndsWith :
    (attempts : List Attempt) (backoff : ℕ) (f : Fire)
    → backoff ≤ 60
    → (fire_loop backoff attempts).0 ≡ some f
    → EndsWith attempts f (fire_loop backoff attempts).1
unfolding fire_loop
fire_loop-EndsWith [] backoff f p h = absurd (ground (arith, h))
fire_loop-EndsWith (a ∷ attempts) backoff f p h = elim (Option-cases (outcome_of a)) [
  | inl again ↦
      let r =
        fire_loop-EndsWith attempts (min (backoff * 2) 60) f (omega arith)
          (ground (arith, h, again)) in
      rw (again, fire_loop)
        (record {
          tried = a ∷ r.tried;
          last = r.last;
          rest = r.rest;
          order = ap (λ as'. a ∷ as') r.order;
          again = (outcome_of-IsBelowHttp a again, r.again);
          end = r.end;
          waited = omega (arith, r.waited);
          bounded = (p, r.bounded);
        })
  | inr (g, e) ↦
      rw (e, fire_loop)
        (record {
          tried = [];
          last = a;
          rest = attempts;
          order = refl;
          again = tt;
          end = outcome_of-Means a f (ground (arith, h, e));
          waited = refl;
          bounded = tt;
        })
]

-- If `fire` comes to an end, it is at the first attempt that did not fail below HTTP: all before it
-- were refused, reset or failed in the socket as `urllib` reports it, there is one wait after each of these, and no
-- wait is longer than a minute. Its end is the one that this attempt means: a success for an answer, ambiguous for an
-- error of HTTP or a connection that broke otherwise. So after an answer, an error of HTTP included, nothing is
-- posted any more.
pub fire_attempts-EndsWith :
    (attempts : List Attempt) {f : Fire}
    → (fire_attempts attempts).0 ≡ some f
    → EndsWith attempts f (fire_attempts attempts).1
unfolding fire_attempts
fire_attempts-EndsWith attempts {f} h = fire_loop-EndsWith attempts 2 f (omega arith) h
