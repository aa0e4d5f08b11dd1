-- ===== src/Auth/Limits.antt =====
-- The sliding window of `RateLimit`.
use generic_text_gateway.Common.{
  ltb, if◌then◌else◌, ltb→le, Bool-cases, length, keep, length-append, nat_eq, text_eq, ℕ, zero,
  suc, ◌+◌, ◌-◌, ◌≤◌, ◌<◌, ◌≡◌, refl, sym, ap, ◌∙◌, inl, inr, true, false, List, [], ◌∷◌, ◌++◌,
  arith,
}
use generic_text_gateway.Auth.{granted, RateLimit, repeat, allow}

-- A limit in use: the clock, and the time stamps of all that it ever granted.
pub record Limiter : Type 0 where
  pub limit : RateLimit
  pub clock : ℕ
  pub granted_at : List ℕ

-- A call of `allow` some seconds later.
unfoldable pub request : ℕ → ℕ → Limiter → Limiter
request seconds count l =
    let now = l.clock + seconds in
    let (granted, limit) = allow now count l.limit in
    record {
      limit = limit;
      clock = now;
      granted_at = if granted then l.granted_at ++ repeat count now else l.granted_at;
    }

unfoldable pub requests : List (ℕ × ℕ) → Limiter → Limiter
requests [] l = l
requests ((seconds, count) ∷ rest) l = requests rest (request seconds count l)

-- What was granted within the window before a time.
abbrev pub recent : ℕ → ℕ → List ℕ → List ℕ
recent now window events = keep (λ t. ltb (now - t) window) events

recent-append :
    (now window : ℕ) (xs ys : List ℕ)
    → recent now window (xs ++ ys) ≡ recent now window xs ++ recent now window ys
recent-append now window [] ys = refl
recent-append now window (x ∷ xs) ys = ground (arith, recent-append now window xs ys)

-- What is recent later was recent before.
recent-recent :
    (now later window : ℕ) (xs : List ℕ)
    → now ≤ later
    → recent later window (recent now window xs) ≡ recent later window xs
recent-recent now later window [] h = refl
recent-recent now later window (x ∷ xs) h = ground (arith, recent-recent now later window xs h, h)

length-recent-le : (now window : ℕ) (xs : List ℕ) → length (recent now window xs) ≤ length xs
length-recent-le now window [] = omega arith
length-recent-le now window (x ∷ xs) = ground (arith, length-recent-le now window xs)

length-repeat : (count now : ℕ) → length (repeat count now) ≡ count
unfolding repeat
length-repeat zero now = refl
length-repeat (suc count) now = omega (arith, length-repeat count now)

-- The time stamps that are kept are the recent ones of all, and few enough.
record IsLimited (l : Limiter) : Type 0 where
  within : length l.limit.events ≤ l.limit.n
  tracks :
      (later : ℕ)
      → l.clock ≤ later
      → recent later l.limit.window l.limit.events ≡ recent later l.limit.window l.granted_at

allow-refused :
    (now count : ℕ) (r : RateLimit)
    → 0 < r.n
    → ltb r.n (length (recent now r.window r.events) + count) ≡ true
    → allow now count r ≡ (false, record r { events = recent now r.window r.events })
unfolding allow
allow-refused now count r p full = ground (arith, p, full)

allow-granted :
    (now count : ℕ) (r : RateLimit)
    → 0 < r.n
    → ltb r.n (length (recent now r.window r.events) + count) ≡ false
    → allow now count r
      ≡ (true, record r { events = recent now r.window r.events ++ repeat count now })
unfolding allow
allow-granted now count r p room = ground (arith, p, room)

request-IsLimited :
    (seconds count : ℕ) (l : Limiter)
    → 0 < l.limit.n
    → IsLimited l
    → IsLimited (request seconds count l)
      × ((request seconds count l).limit.n ≡ l.limit.n)
      × ((request seconds count l).limit.window ≡ l.limit.window)
unfolding request
request-IsLimited seconds count l p v =
    let now = l.clock + seconds in
    let window = l.limit.window in
    let events = recent now window l.limit.events in
    elim (Bool-cases (ltb l.limit.n (length events + count))) [
      | inl full ↦ rw (allow-refused now count l.limit p full) (
        record {
          within = omega (arith, v.within, length-recent-le now window l.limit.events);
          tracks = λ later h.
              recent-recent now later window l.limit.events h ∙ v.tracks later (omega (arith, h));
        },
        refl,
        refl,
      )
      | inr room ↦ rw (allow-granted now count l.limit p room) (
        record {
          within = omega (
            arith,
            length-append events (repeat count now),
            length-repeat count now,
            ltb→le l.limit.n (length events + count) room,
          );
          tracks = λ later h.
              recent-append later window events (repeat count now)
              ∙ ap (λ xs. xs ++ recent later window (repeat count now))
                  (recent-recent now later window l.limit.events h
                    ∙ v.tracks later (omega (arith, h)))
              ∙ sym (recent-append later window l.granted_at (repeat count now));
        },
        refl,
        refl,
      )
    ]

requests-IsLimited :
    (calls : List (ℕ × ℕ)) (l : Limiter)
    → 0 < l.limit.n
    → IsLimited l
    → IsLimited (requests calls l)
      × ((requests calls l).limit.n ≡ l.limit.n)
      × ((requests calls l).limit.window ≡ l.limit.window)
unfolding requests
requests-IsLimited [] l p v = (v, refl, refl)
requests-IsLimited ((seconds, count) ∷ calls) l p v =
    let (v', en, ew) = request-IsLimited seconds count l p v in
    let (v'', en', ew') =
      requests-IsLimited calls (request seconds count l) (omega (arith, en, p)) v' in
    (v'', en' ∙ en, ew' ∙ ew)

-- A limit of at least one that starts with no time stamps: whatever calls of `allow` follow, at any
-- times and for any counts, at the time of the last one or at any later time, at most `n` of all
-- that was granted lies within the window.
pub requests-window :
    (calls : List (ℕ × ℕ)) (n window clock later : ℕ)
    → 0 < n
    → (requests calls (record {
      limit = record { n = n; window = window; events = [] };
      clock = clock;
      granted_at = [];
    })).clock
      ≤ later
    → length (
        recent later window
          (requests calls (record {
            limit = record { n = n; window = window; events = [] };
            clock = clock;
            granted_at = [];
          })).granted_at)
      ≤ n
requests-window calls n window clock later p h =
    let l : Limiter = record {
      limit = record { n = n; window = window; events = [] };
      clock = clock;
      granted_at = [];
    } in
    let (v, en, ew) =
      requests-IsLimited calls l p (record { within = omega arith; tracks = λ later h. refl }) in
    let last = requests calls l in
    let same : recent later window last.limit.events ≡ recent later window last.granted_at =
      rw ew at (v.tracks later h) in
    rw (← same) (omega (arith, length-recent-le later window last.limit.events, v.within, en))
