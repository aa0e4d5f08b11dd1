-- ===== src/Sim/Guarded.antt =====
-- What connections and requests for a PIN do, and the bounds that a connection keeps.
use generic_text_gateway.Common.{
  ltb, if◌then◌else◌, Bool-cases, nat_eq, Text, text_eq, ℕ, ◌+◌, ◌≤◌, ◌<◌, ◌≡◌, refl, sym, subst,
  ◌⊎◌, inl, inr, true, false, not, ◌&&◌, Option, none, some, List, [], ◌∷◌, arith,
}
use generic_text_gateway.At.{is_empty}
use generic_text_gateway.Api.{Python, Request, Refusal}
use generic_text_gateway.Api.Messages.{WorkerHealth}
use generic_text_gateway.Api.Sending.{sim_pin_request}
use generic_text_gateway.Sim.{Modem, SimState, ready, pin_required, puk_required, absent, unknown}
use generic_text_gateway.Sim.Pins.{
  PinConfig, Unlocker, needs_pin, ask, try_env, settled, settle, then_try, unlock_sim, do_pin,
}
use generic_text_gateway.Sim.Ledger.{
  Entry, is_ready, burnt, recorded, Moved, ask-Moved, enter_and_ask-Moved,
}

abbrev pub env_limit : PinConfig → ℕ
env_limit cfg = if is_empty cfg.env_pin then 0 else cfg.max_tries

abbrev pub runtime_limit : PinConfig → ℕ
runtime_limit cfg = if is_empty cfg.env_pin then cfg.max_tries + 2 else 0

-- The worker connects, or a client asks for a PIN, whose request was checked at some time before: against the
-- count and the health of that time.
pub data Job : Type 0 where
  connect : Job
  asked : Request → ℕ → WorkerHealth → Job

module _ {W : Type 0} (modem : Modem W) (cfg : PinConfig) (py : Python) where
  abbrev pub submitted : Refusal ⊎ Text → Unlocker (W × List Entry) → Unlocker (W × List Entry)
  submitted (inl e) v = v
  submitted (inr pin) v = (do_pin (recorded cfg.upper modem) cfg pin v).1

  unfoldable pub job : Job → Unlocker (W × List Entry) → Unlocker (W × List Entry)
  job connect v = (unlock_sim (recorded cfg.upper modem) cfg v).1
  job (asked q seen health) v =
      submitted (sim_pin_request cfg.digits py q cfg.max_tries seen cfg.env_pin health) v

  unfoldable pub jobs : List Job → Unlocker (W × List Entry) → Unlocker (W × List Entry)
  unfolding job
  jobs [] v = v
  jobs (j ∷ js) v = jobs js (job j v)

  -- The PINs since the last unlocking are covered by the two counts, which are within their bounds.
  pub record IsGuarded (v : Unlocker (W × List Entry)) : Type 0 where
    pub covered : burnt v.world.1 ≤ v.env_pin_tries + v.pin_submissions
    pub env_bounded : v.env_pin_tries ≤ (if is_empty cfg.env_pin then 0 else cfg.max_tries)
    pub runtime_bounded :
        v.pin_submissions ≤ (if is_empty cfg.env_pin then cfg.max_tries + 2 else 0)

module _ {W : Type 0} (modem : Modem W) (cfg : PinConfig) (py : Python) where
  settled-IsGuarded :
      (s : SimState) (v : Unlocker (W × List Entry))
      → IsGuarded modem cfg py v
      → (is_ready (some s) ≡ true → burnt v.world.1 ≡ 0)
      → IsGuarded modem cfg py (settled (recorded cfg.upper modem) cfg s v).1
  settled-IsGuarded ready v g b = record {
    covered = omega (arith, b refl);
    env_bounded = omega arith;
    runtime_bounded = g.runtime_bounded;
  }
  settled-IsGuarded pin_required v g b = record {
    covered = g.covered;
    env_bounded = g.env_bounded;
    runtime_bounded = g.runtime_bounded;
  }
  settled-IsGuarded puk_required v g b = record {
    covered = g.covered;
    env_bounded = g.env_bounded;
    runtime_bounded = g.runtime_bounded;
  }
  settled-IsGuarded absent v g b = record {
    covered = g.covered;
    env_bounded = g.env_bounded;
    runtime_bounded = g.runtime_bounded;
  }
  settled-IsGuarded unknown v g b = record {
    covered = g.covered;
    env_bounded = g.env_bounded;
    runtime_bounded = g.runtime_bounded;
  }

  settle-IsGuarded :
      (r : Option SimState × Unlocker (W × List Entry))
      → IsGuarded modem cfg py r.1
      → (is_ready r.0 ≡ true → burnt r.1.world.1 ≡ 0)
      → IsGuarded modem cfg py (settle (recorded cfg.upper modem) cfg r).1
  settle-IsGuarded (none, v) g b = g
  settle-IsGuarded (some s, v) g b = settled-IsGuarded s v g b

  -- A question changes nothing that is guarded.
  Moved-IsGuarded :
      {s : Option SimState} {v v' : Unlocker (W × List Entry)}
      → Moved 0 s v v'
      → IsGuarded modem cfg py v
      → IsGuarded modem cfg py v'
  Moved-IsGuarded m g = record {
    covered = omega (arith, m.more, g.covered, m.env_same, m.runtime_same);
    env_bounded = subst (λ n. n ≤ env_limit cfg) (sym m.env_same) g.env_bounded;
    runtime_bounded = subst (λ n. n ≤ runtime_limit cfg) (sym m.runtime_same) g.runtime_bounded;
  }

  -- Guarded, with nothing burnt where the SIM was just read as ready.
  IsAsked : Option SimState × Unlocker (W × List Entry) → Type 0
  IsAsked (s, v) = IsGuarded modem cfg py v × (is_ready s ≡ true → burnt v.world.1 ≡ 0)

  try_env-IsAsked :
      (s : SimState) (v : Unlocker (W × List Entry))
      → IsAsked (some s, v)
      → IsAsked (try_env (recorded cfg.upper modem) cfg s v)
  unfolding try_env IsAsked
  try_env-IsAsked s v (g, b) =
      elim (Bool-cases
        (needs_pin s && not (is_empty cfg.env_pin) && ltb v.env_pin_tries cfg.max_tries)) [
          | inr no' ↦ rw (no') (g, b)
          | inl yes' ↦
              let m =
                enter_and_ask-Moved modem cfg cfg.env_pin
                  (record v { env_pin_tries = v.env_pin_tries + 1 }) in
              let filled : is_empty cfg.env_pin ≡ false = ground (arith, yes') in
              let left : v.env_pin_tries < cfg.max_tries = ground (arith, yes') in
              rw (yes') (
                record {
                  covered = omega (arith, m.more, g.covered, m.env_same, m.runtime_same);
                  env_bounded =
                      subst (λ n. n ≤ env_limit cfg) (sym m.env_same)
                        (rw (filled) (omega (arith, left)));
                  runtime_bounded =
                      subst (λ n. n ≤ runtime_limit cfg) (sym m.runtime_same) g.runtime_bounded;
                },
                m.now_unlocked,
              )
        ]

  then_try-IsAsked :
      (r : Option SimState × Unlocker (W × List Entry))
      → IsAsked r
      → IsAsked (then_try (recorded cfg.upper modem) cfg r)
  unfolding IsAsked
  then_try-IsAsked (none, v) a = a
  then_try-IsAsked (some s, v) a = try_env-IsAsked s v a

  pub unlock_sim-IsGuarded :
      (v : Unlocker (W × List Entry))
      → IsGuarded modem cfg py v
      → IsGuarded modem cfg py (unlock_sim (recorded cfg.upper modem) cfg v).1
  unfolding unlock_sim IsAsked
  unlock_sim-IsGuarded v g =
      let m = ask-Moved modem cfg v in
      let (g', b) =
        then_try-IsAsked (ask (recorded cfg.upper modem) cfg v)
          (Moved-IsGuarded m g, m.now_unlocked) in
      settle-IsGuarded
        (then_try (recorded cfg.upper modem) cfg (ask (recorded cfg.upper modem) cfg v)) g' b
