-- ===== src/Sim/Tests.antt =====
-- A SIM that asks for its PIN, and a modem that answers +CREG.
use generic_text_gateway.Common.{
  pos, if◌then◌else◌, nat_eq, Text, Bytes, codes, text_beq, text_eq, starts_with, is_space, lstrip,
  rstrip, strip, is_ascii_digit, is_digits, ascii_table, ◌≤◌, ◌≡◌, refl, false, none, some, List,
  [], ◌∷◌, ◌++◌,
}
use generic_text_gateway.At.{
  Serial, answered, at_error, is_urc, is_final_error, classify, collect_line, collect, execute,
  readline, read_chunk, pop_from, pop_line, lstrip_returns, rstrip_returns, contains,
}
use generic_text_gateway.Api.{Python, not_json}
use generic_text_gateway.Sim.{
  Modem, cpin_lines, cpin_answer, registration_commands, cpin_state, enter_pin, registration,
  registered, unknown, nothing,
}
use generic_text_gateway.Sim.Pins.{
  PinConfig, Unlocker, needs_pin, enter_and_ask, try_env, unlock_sim,
}
use generic_text_gateway.Sim.Ledger.{Entry, burnt, recorded}
use generic_text_gateway.Sim.Guarded.{connect, jobs, job}
use generic_text_gateway.Sim.Attempts.{jobs-burnt}
use generic_text_gateway.Sim.Registration.{port_modem, IsStandardRun, registration-unseen}

-- A SIM that refuses each PIN.
abbrev stubborn : Modem (Unit {0})
unfolding text_beq
stubborn = record {
  execute = λ cmd w. (
    if text_beq cmd (codes "AT+CPIN?")
        then answered (codes "SIM PIN" ∷ [])
        else at_error (codes "ERROR"),
    w,
  );
}

abbrev config : PinConfig
config = record { env_pin = codes "1234"; max_tries = 1; upper = λ s. s; digits = ascii_table }

abbrev py : Python
py = record { lower = λ s. s; int = λ s. none; loads = λ b. not_json; b64decode = λ s. none }

abbrev start : Unlocker (Unit {0} × List Entry)
start = record {
  world = (tt, []);
  pin_submissions = 0;
  env_pin_tries = 0;
  runtime_pin = none;
  sim = unknown;
  state = codes "starting";
}

-- Two connections, one PIN.
jobs_lem : burnt (jobs stubborn config py (connect ∷ connect ∷ []) start).world.1 ≡ 1
unfolding burnt jobs job unlock_sim try_env enter_and_ask enter_pin cpin_state recorded cpin_lines
    cpin_answer needs_pin contains starts_with is_digits is_ascii_digit text_beq
jobs_lem = refl

jobs-burnt_example :
    (burnt (jobs stubborn config py (connect ∷ connect ∷ []) start).world.1 ≤ 1)
    × ((jobs stubborn config py (connect ∷ connect ∷ []) start).pin_submissions ≤ 0)
unfolding burnt
jobs-burnt_example = jobs-burnt stubborn config py (connect ∷ connect ∷ []) start refl refl refl

abbrev cr_lf : Bytes
cr_lf = 13 ∷ 10 ∷ []

-- The answers to the three commands.
abbrev port : Serial
port = record {
  buf = [];
  input =
      (codes "+CREG: 0,1" ++ cr_lf ++ codes "OK" ++ cr_lf)
      ∷ (codes "+CEREG: 0,1" ++ cr_lf ++ codes "OK" ++ cr_lf)
      ∷ (codes "ERROR" ++ cr_lf)
      ∷ [];
  written = [];
}

abbrev note : Text → Serial × List Text → Serial × List Text
note l (s, ls) = (s, l ∷ ls)

-- What a run of `execute` computes with.
run : Unit {0}
unfolding read_chunk lstrip_returns rstrip_returns is_urc is_final_error pop_from pop_line readline
    classify collect_line collect execute starts_with strip lstrip rstrip is_space text_beq
    port_modem IsStandardRun
run = tt

standard_port : IsStandardRun (port_modem (λ s. s) note 3) registration_commands (port, [])
unfolding run
standard_port = (tt, (tt, (tt, tt)))

registration-unseen_example :
    ((registration (port_modem (λ s. s) note 3) (λ s. some (pos 1)) (port, [])).0 ≡ nothing)
    × (registered (port_modem (λ s. s) note 3) (λ s. some (pos 1)) (port, [])).0 ≡ some false
registration-unseen_example =
    registration-unseen (λ s. s) note (λ s. some (pos 1)) 3 (port, []) standard_port
