-- ===== src/Sim/Attempts.antt =====
-- How many PINs reach the SIM, whatever the order of connections and requests.
use generic_text_gateway.Common.{
  leb, if◌then◌else◌, Bool-cases, nat_eq, Text, text_eq, ℕ, ◌+◌, ◌≤◌, ◌<◌, ◌≡◌, refl, sym, subst,
  ◌⊎◌, inl, inr, true, not, ◌||◌, Option, none, some, List, [], ◌∷◌, arith,
}
use generic_text_gateway.At.{is_empty}
use generic_text_gateway.Api.{Python, Request, Refusal}
use generic_text_gateway.Api.Messages.{WorkerHealth}
use generic_text_gateway.Api.Sending.{sim_pin_request}
use generic_text_gateway.Sim.{Modem, SimState, ready, pin_required, puk_required, absent, unknown}
use generic_text_gateway.Sim.Pins.{PinConfig, Unlocker, needs_pin, enter_and_ask, after_pin, do_pin}
use generic_text_gateway.Sim.Ledger.{Entry, burnt, recorded, enter_and_ask-Moved}
use generic_text_gateway.Sim.Guarded.{
  env_limit, runtime_limit, Job, connect, asked, submitted, job, jobs, IsGuarded,
  unlock_sim-IsGuarded,
}

module _ {W : Type 0} (modem : Modem W) (cfg : PinConfig) (py : Python) where
  after_pin-IsGuarded :
      (r : Option SimState × Unlocker (W × List Entry))
      → IsGuarded modem cfg py r.1
      → IsGuarded modem cfg py (after_pin (recorded cfg.upper modem) cfg r).1
  after_pin-IsGuarded (none, v) g = record {
    covered = g.covered;
    env_bounded = g.env_bounded;
    runtime_bounded = g.runtime_bounded;
  }
  after_pin-IsGuarded (some puk_required, v) g = record {
    covered = g.covered;
    env_bounded = g.env_bounded;
    runtime_bounded = g.runtime_bounded;
  }
  after_pin-IsGuarded (some ready, v) g = record {
    covered = g.covered;
    env_bounded = g.env_bounded;
    runtime_bounded = g.runtime_bounded;
  }
  after_pin-IsGuarded (some pin_required, v) g = record {
    covered = g.covered;
    env_bounded = g.env_bounded;
    runtime_bounded = g.runtime_bounded;
  }
  after_pin-IsGuarded (some absent, v) g = record {
    covered = g.covered;
    env_bounded = g.env_bounded;
    runtime_bounded = g.runtime_bounded;
  }
  after_pin-IsGuarded (some unknown, v) g = record {
    covered = g.covered;
    env_bounded = g.env_bounded;
    runtime_bounded = g.runtime_bounded;
  }

  do_pin-IsGuarded :
      (pin : Text) (v : Unlocker (W × List Entry))
      → is_empty cfg.env_pin ≡ true
      → IsGuarded modem cfg py v
      → IsGuarded modem cfg py (do_pin (recorded cfg.upper modem) cfg pin v).1
  unfolding do_pin
  do_pin-IsGuarded pin v no_env g =
      elim (Bool-cases (leb (cfg.max_tries + 2) v.pin_submissions || not (needs_pin v.sim))) [
        | inl stop ↦ rw (stop) g
        | inr go ↦
            let u : Unlocker (W × List Entry) = record v {
              pin_submissions = v.pin_submissions + 1;
              runtime_pin = some pin;
            } in
            let m = enter_and_ask-Moved modem cfg pin u in
            let left : v.pin_submissions < cfg.max_tries + 2 = ground (arith, go) in
            rw (go) (
              after_pin-IsGuarded (enter_and_ask (recorded cfg.upper modem) cfg pin u) (record {
                covered = omega (arith, m.more, g.covered, m.env_same, m.runtime_same);
                env_bounded = subst (λ n. n ≤ env_limit cfg) (sym m.env_same) g.env_bounded;
                runtime_bounded =
                    subst (λ n. n ≤ runtime_limit cfg) (sym m.runtime_same)
                      (rw (no_env) (omega (arith, left)));
              }))
      ]

  submitted-IsGuarded :
      (r : Refusal ⊎ Text) (v : Unlocker (W × List Entry))
      → ((pin : Text) → r ≡ inr pin → is_empty cfg.env_pin ≡ true)
      → IsGuarded modem cfg py v
      → IsGuarded modem cfg py (submitted modem cfg py r v)
  submitted-IsGuarded (inl e) v f g = g
  submitted-IsGuarded (inr pin) v f g = do_pin-IsGuarded pin v (f pin refl) g

  sim_pin_request-no_env :
      (q : Request) (seen : ℕ) (health : WorkerHealth) {pin : Text}
      → sim_pin_request cfg.digits py q cfg.max_tries seen cfg.env_pin health ≡ inr pin
      → is_empty cfg.env_pin ≡ true
  unfolding sim_pin_request
  sim_pin_request-no_env q seen health e = ground (arith, e)

  job-IsGuarded :
      (j : Job) (v : Unlocker (W × List Entry))
      → IsGuarded modem cfg py v
      → IsGuarded modem cfg py (job modem cfg py j v)
  unfolding job
  job-IsGuarded connect v g = unlock_sim-IsGuarded modem cfg py v g
  job-IsGuarded (asked q seen health) v g =
      submitted-IsGuarded (sim_pin_request cfg.digits py q cfg.max_tries seen cfg.env_pin health) v
        (λ pin e. sim_pin_request-no_env q seen health e) g

  jobs-IsGuarded :
      (js : List Job) (v : Unlocker (W × List Entry))
      → IsGuarded modem cfg py v
      → IsGuarded modem cfg py (jobs modem cfg py js v)
  unfolding jobs
  jobs-IsGuarded [] v g = g
  jobs-IsGuarded (j ∷ js) v g = jobs-IsGuarded js (job modem cfg py j v) (job-IsGuarded j v g)

  -- From the start of the process, in any order of connections and of requests for a PIN, however late a request
  -- is carried out after it was checked, and whatever the modem answers: the PINs that have been sent since
  -- the SIM was last read as ready are at most `SIM_PIN_MAX_TRIES` if a PIN is configured, of which
  -- none came from a request, and at most two more than that if none is, and the requests count towards this
  -- bound for the life of the process.
  pub jobs-burnt :
      (js : List Job) (v : Unlocker (W × List Entry))
      → v.pin_submissions ≡ 0
      → v.env_pin_tries ≡ 0
      → burnt v.world.1 ≡ 0
      → (burnt (jobs modem cfg py js v).world.1
          ≤ (if is_empty cfg.env_pin then cfg.max_tries + 2 else cfg.max_tries))
        × ((jobs modem cfg py js v).pin_submissions
            ≤ (if is_empty cfg.env_pin then cfg.max_tries + 2 else 0))
  jobs-burnt js v a b c =
      let start : IsGuarded modem cfg py v = record {
        covered = omega (arith, c);
        env_bounded = ground (arith, b);
        runtime_bounded = ground (arith, a);
      } in
      let g = jobs-IsGuarded js v start in
      (ground (arith, g.covered, g.env_bounded, g.runtime_bounded), g.runtime_bounded)
