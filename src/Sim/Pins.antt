-- ===== src/Sim/Pins.antt =====
-- `_unlock_sim` and `_do_pin` of server/gtg_server/modem/worker.py, the latter up to `_after_sim_ready`, which
-- sends no PIN.
use generic_text_gateway.Common.{
  ltb, leb, if◌then◌else◌, nat_eq, Text, codes, text_eq, DigitTable, ℕ, ◌+◌, Bool, true, false, not,
  ◌&&◌, ◌||◌, Option, none, some,
}
use generic_text_gateway.Sim.{
  Modem, SimState, Entered, cpin_state, enter_pin, ready, pin_required, puk_required, absent,
  unknown, taken, rejected, timed_out,
}
use generic_text_gateway.At.{is_empty}

-- `SIM_PIN`, `SIM_PIN_MAX_TRIES`, and what is used of Python.
pub record PinConfig : Type 0 where
  pub env_pin : Text
  pub max_tries : ℕ
  pub upper : Text → Text
  pub digits : DigitTable

-- The worker's fields that PINs touch, `sim` and `state` being those of its health.
pub record Unlocker (W : Type 0) : Type 0 where
  pub world : W
  pub pin_submissions : ℕ
  pub env_pin_tries : ℕ
  pub runtime_pin : Option Text
  pub sim : SimState
  pub state : Text

unfoldable pub needs_pin : SimState → Bool
needs_pin pin_required = true
needs_pin ready = false
needs_pin puk_required = false
needs_pin absent = false
needs_pin unknown = false

module _ {W : Type 0} (modem : Modem W) (cfg : PinConfig) where
  -- `cpin_state` of the port
  abbrev pub ask : Unlocker W → Option SimState × Unlocker W
  ask v = let (s, w) = cpin_state modem cfg.upper v.world in (s, record v { world = w })

  -- A PIN and the question for the state; `none` is an `ATTimeout` that passes through.
  abbrev pub ask_entered : Entered → Unlocker W → Option SimState × Unlocker W
  ask_entered taken v = ask v
  ask_entered rejected v = ask v
  ask_entered timed_out v = (none, v)

  unfoldable pub enter_and_ask : Text → Unlocker W → Option SimState × Unlocker W
  enter_and_ask pin v =
      let (e, w) = enter_pin modem cfg.digits pin v.world in ask_entered e (record v { world = w })

  -- The configured PIN, if it is wanted and has tries left.
  unfoldable pub try_env : SimState → Unlocker W → Option SimState × Unlocker W
  try_env s v =
      if needs_pin s && not (is_empty cfg.env_pin) && ltb v.env_pin_tries cfg.max_tries
      then enter_and_ask cfg.env_pin (record v { env_pin_tries = v.env_pin_tries + 1 })
      else (some s, v)

  -- What the last state comes to.
  abbrev pub settled : SimState → Unlocker W → Option Bool × Unlocker W
  settled ready v = (some true, record v { sim = ready; env_pin_tries = 0 })
  settled pin_required v =
      (some false, record v { sim = pin_required; state = codes "sim_pin_required" })
  settled puk_required v =
      (some false, record v { sim = puk_required; state = codes "sim_puk_required" })
  settled absent v = (some false, record v { sim = absent; state = codes "down" })
  settled unknown v = (some false, record v { sim = unknown; state = codes "down" })

  abbrev pub settle : Option SimState × Unlocker W → Option Bool × Unlocker W
  settle (none, v) = (none, v)
  settle (some s, v) = settled s v

  abbrev pub then_try : Option SimState × Unlocker W → Option SimState × Unlocker W
  then_try (none, v) = (none, v)
  then_try (some s, v) = try_env s v

  -- `_unlock_sim`
  unfoldable pub unlock_sim : Unlocker W → Option Bool × Unlocker W
  unlock_sim v = settle (then_try (ask v))

  abbrev pub after_pin : Option SimState × Unlocker W → Option SimState × Unlocker W
  after_pin (none, v) = (none, record v { runtime_pin = none })
  after_pin (some puk_required, v) = (
    some puk_required,
    record v { runtime_pin = none; sim = puk_required; state = codes "sim_puk_required" },
  )
  after_pin (some ready, v) = (some ready, record v { runtime_pin = none; sim = ready })
  after_pin (some pin_required, v) =
      (some pin_required, record v { runtime_pin = none; sim = pin_required })
  after_pin (some absent, v) = (some absent, record v { runtime_pin = none; sim = absent })
  after_pin (some unknown, v) = (some unknown, record v { runtime_pin = none; sim = unknown })

  -- `_do_pin` with the state that it replies; `none` is an `ATTimeout`, after which there is no reply.
  unfoldable pub do_pin : Text → Unlocker W → Option SimState × Unlocker W
  do_pin pin v =
      if leb (cfg.max_tries + 2) v.pin_submissions || not (needs_pin v.sim)
      then (some v.sim, v)
      else after_pin (
          enter_and_ask pin
            (record v { pin_submissions = v.pin_submissions + 1; runtime_pin = some pin }))
