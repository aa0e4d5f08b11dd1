-- ===== src/Sim/Registration.antt =====
-- `registration` of server/gtg_server/modem/sim.py over the port of server/gtg_server/modem/at.py.
use generic_text_gateway.Common.{
  ℤ, Bool-cases, Option-cases, All, nat_eq, Text, Bytes, codes, text_eq, starts_with, member, ℕ,
  zero, suc, ◌≡◌, refl, inl, inr, Bool, true, false, ◌||◌, Option, none, some, List, [], ◌∷◌, arith,
}
use generic_text_gateway.At.{
  Serial, Answer, is_urc, classify, collect_line, cons_line, collect, execute, readline, answered,
  at_error, at_timeout, no_fuel, content,
}
use generic_text_gateway.At.Execute.{Kind-cases}
use generic_text_gateway.Sim.{
  Modem, registration_lines, registration_commands, lines_or_none, registration_from, registration,
  registered, nothing,
}

abbrev pub no_extra : Text → Bool
no_extra line = false

-- No line of an answer is one that goes to the callback.
abbrev pub HasNoUrc : Answer → Type 0
HasNoUrc (answered lines) = All (λ l. is_urc l ≡ false) lines
HasNoUrc (at_error e) = Unit
HasNoUrc at_timeout = Unit
HasNoUrc no_fuel = Unit

cons_line-HasNoUrc :
    (l : Text) (a : Answer) → is_urc l ≡ false → HasNoUrc a → HasNoUrc (cons_line l a)
cons_line-HasNoUrc l (answered ls) e h = (e, h)
cons_line-HasNoUrc l (at_error t) e h = tt
cons_line-HasNoUrc l at_timeout e h = tt
cons_line-HasNoUrc l no_fuel e h = tt

classify-content : (cmd l : Text) → classify cmd no_extra l ≡ content → is_urc l ≡ false
unfolding classify
classify-content cmd l e = elim (Bool-cases (is_urc l)) [
  | inr plain ↦ plain
  | inl urc ↦ absurd (ground (arith, e, urc))
]

module _ (decode : Bytes → Text) {X : Type 0} (urc_cb : Text → Serial × X → Serial × X) where
  collect_line-HasNoUrc :
      (next : Serial × X → Answer × (Serial × X)) (cmd : Text) (line : Option Text) (v : Serial × X)
      → ((u : Serial × X) → HasNoUrc (next u).0)
      → HasNoUrc (collect_line urc_cb next cmd no_extra line v).0
  unfolding collect_line
  collect_line-HasNoUrc next cmd none v f = tt
  collect_line-HasNoUrc next cmd (some l) v f = elim (Kind-cases (classify cmd no_extra l)) [
    | inl e ↦ rw (e, collect_line) (f v)
    | inr (inl e) ↦ rw (e, collect_line) tt
    | inr (inr (inl e)) ↦ rw (e, collect_line) tt
    | inr (inr (inr (inl e))) ↦ rw (e, collect_line) (f (urc_cb l v))
    | inr (inr (inr (inr e))) ↦
        rw (e, collect_line) (cons_line-HasNoUrc l (next v).0 (classify-content cmd l e) (f v))
  ]

  collect-HasNoUrc :
      (fuel reads : ℕ) (cmd : Text) (v : Serial × X)
      → HasNoUrc (collect decode urc_cb fuel reads cmd no_extra v).0
  unfolding collect
  collect-HasNoUrc zero reads cmd v = tt
  collect-HasNoUrc (suc fuel) reads cmd (s, x) =
      collect_line-HasNoUrc
        (λ v. collect decode urc_cb fuel (readline decode reads s).1.0 cmd no_extra v) cmd
        (readline decode reads s).0 ((readline decode reads s).1.1, x)
        (λ u. collect-HasNoUrc fuel (readline decode reads s).1.0 cmd u)

  -- The port as the SIM's functions use it.
  unfoldable pub port_modem : ℕ → Modem (Serial × X)
  port_modem reads = record {
    execute = λ cmd v. execute decode urc_cb reads reads cmd none no_extra v;
  }

  execute-HasNoUrc :
      (reads : ℕ) (cmd : Text) (v : Serial × X) → HasNoUrc ((port_modem reads).execute cmd v).0
  unfolding port_modem execute
  execute-HasNoUrc reads cmd (s, x) = collect-HasNoUrc _ reads cmd _

-- A line that tells of the registration.
abbrev pub is_registration_line : Text → Bool
is_registration_line l =
    starts_with l (codes "+CREG:")
    || starts_with l (codes "+CEREG:")
    || starts_with l (codes "+CGREG:")

-- As the standard says of these commands: what has a colon is such a line.
abbrev pub IsStandard : Answer → Type 0
IsStandard (answered lines) = All (λ l. member 58 l ≡ true → is_registration_line l ≡ true) lines
IsStandard (at_error e) = Unit
IsStandard at_timeout = Unit
IsStandard no_fuel = Unit

registration_line-is_urc : (l : Text) → is_registration_line l ≡ true → is_urc l ≡ true
unfolding is_urc
registration_line-is_urc l h = ground (arith, h)

registration_lines-unseen :
    (int : Text → Option ℤ) (lines : List Text)
    → All (λ l. is_urc l ≡ false) lines
    → All (λ l. member 58 l ≡ true → is_registration_line l ≡ true) lines
    → registration_lines int lines ≡ nothing
unfolding registration_lines
registration_lines-unseen int [] u s = refl
registration_lines-unseen int (l ∷ lines) u s = elim (Bool-cases (member 58 l)) [
  | inl colon ↦ absurd (ground (arith, u.0, registration_line-is_urc l (s.0 colon)))
  | inr plain ↦ rw (plain) (registration_lines-unseen int lines u.1 s.1)
]

registration_answer-unseen :
    (int : Text → Option ℤ) (a : Answer) (lines : List Text)
    → HasNoUrc a
    → IsStandard a
    → lines_or_none a ≡ some lines
    → registration_lines int lines ≡ nothing
registration_answer-unseen int (answered ls) lines u s e =
    let same : ls ≡ lines = ground (arith, e) in rw (← same) (registration_lines-unseen int ls u s)
registration_answer-unseen int (at_error t) lines u s e = absurd (ground (arith, e))
registration_answer-unseen int at_timeout lines u s e = absurd (ground (arith, e))
registration_answer-unseen int no_fuel lines u s e = absurd (ground (arith, e))

module _ {W : Type 0} (modem : Modem W) where
  -- Each command of a run is answered as the standard says.
  unfoldable pub IsStandardRun : List Text → W → Type 0
  IsStandardRun [] w = Unit
  IsStandardRun (cmd ∷ cmds) w =
      IsStandard (modem.execute cmd w).0 × IsStandardRun cmds (modem.execute cmd w).1

  registration_from-unseen :
      (int : Text → Option ℤ)
      → ((cmd : Text) (w : W) → HasNoUrc (modem.execute cmd w).0)
      → (cmds : List Text) (w : W) → IsStandardRun cmds w
      → (registration_from modem int cmds w).0 ≡ nothing
  unfolding registration_from IsStandardRun
  registration_from-unseen int filtered [] w s = refl
  registration_from-unseen int filtered (cmd ∷ cmds) w s =
      elim (Option-cases (lines_or_none (modem.execute cmd w).0)) [
        | inl e ↦
            rw (e, registration_from)
              (registration_from-unseen int filtered cmds (modem.execute cmd w).1 s.1)
        | inr (lines, e) ↦
            let unseen =
              registration_answer-unseen int (modem.execute cmd w).0 lines (filtered cmd w) s.0 e in
            rw (e, registration_from, unseen)
              (registration_from-unseen int filtered cmds (modem.execute cmd w).1 s.1)
      ]

-- `registration` finds no state, and `registered` is false, on a modem that answers its commands as the standard says:
-- if, among the lines that `execute` returns to it, each line with a colon is one of +CREG, +CEREG and +CGREG, it ends with
-- nothing, since `execute` gives the lines of just these kinds to the callback instead of returning them.
pub registration-unseen :
    (decode : Bytes → Text) {X : Type 0} (urc_cb : Text → Serial × X → Serial × X)
    (int : Text → Option ℤ) (reads : ℕ) (v : Serial × X)
    → IsStandardRun (port_modem decode urc_cb reads) registration_commands v
    → ((registration (port_modem decode urc_cb reads) int v).0 ≡ nothing)
      × (registered (port_modem decode urc_cb reads) int v).0 ≡ some false
unfolding registration registered
registration-unseen decode urc_cb int reads v standard =
    let e =
      registration_from-unseen (port_modem decode urc_cb reads) int
        (execute-HasNoUrc decode urc_cb reads) registration_commands v standard in
    (e, rw (e) refl)
