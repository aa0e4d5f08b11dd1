-- ===== src/Sim/Ledger.antt =====
-- The PINs that are sent to the SIM since it was last read as ready, and what one question or one PIN adds.
use generic_text_gateway.Common.{
  if◌then◌else◌, Bool-cases, nat_eq, Text, codes, text_beq, text_eq, starts_with, ℕ, ◌+◌, ◌≤◌, ◌≡◌,
  refl, ◌∙◌, inl, inr, Bool, true, false, ◌&&◌, Option, none, some, List, [], ◌∷◌, arith,
}
use generic_text_gateway.At.{Answer}
use generic_text_gateway.Sim.{
  Modem, SimState, cpin_answer, Entered, is_pin_text, cpin_state, enter_pin, ready, pin_required,
  puk_required, absent, unknown, taken, rejected, timed_out,
}
use generic_text_gateway.Sim.Pins.{PinConfig, Unlocker, ask, ask_entered, enter_and_ask}

-- What passed the port, newest first: a command, or a state of the SIM that was read as ready.
pub data Entry : Type 0 where
  sent : Text → Entry
  unlocked : Entry

abbrev pub is_ready : Option SimState → Bool
is_ready none = false
is_ready (some ready) = true
is_ready (some pin_required) = false
is_ready (some puk_required) = false
is_ready (some absent) = false
is_ready (some unknown) = false

abbrev is_question : Text → Bool
is_question cmd = text_beq cmd (codes "AT+CPIN?")

abbrev pub is_pin_command : Text → Bool
is_pin_command cmd = starts_with cmd (codes "AT+CPIN=")

-- The PINs that were sent since the SIM was last read as ready.
unfoldable pub burnt : List Entry → ℕ
burnt [] = 0
burnt (unlocked ∷ log) = 0
burnt (sent cmd ∷ log) = (if is_pin_command cmd then 1 else 0) + burnt log

abbrev mark : (Text → Text) → Text → Answer → List Entry → List Entry
mark upper cmd a log =
    if is_question cmd && is_ready (cpin_answer upper a) then unlocked ∷ log else sent cmd ∷ log

-- A modem whose commands are noted.
unfoldable pub recorded : {W : Type 0} → (Text → Text) → Modem W → Modem (W × List Entry)
recorded upper modem = record {
  execute = λ cmd v. let (a, w) = modem.execute cmd v.0 in (a, (w, mark upper cmd a v.1));
}

-- What a question or a PIN has changed: the log alone, by at most `n` PINs, or by an unlocking.
pub record Moved {W : Type 0} (n : ℕ) (s : Option SimState) (v v' : Unlocker (W × List Entry))
    : Type 0 where
  pub env_same : v'.env_pin_tries ≡ v.env_pin_tries
  pub runtime_same : v'.pin_submissions ≡ v.pin_submissions
  pub more : burnt v'.world.1 ≤ burnt v.world.1 + n
  pub now_unlocked : is_ready s ≡ true → burnt v'.world.1 ≡ 0

module _ {W : Type 0} (modem : Modem W) (cfg : PinConfig) where
  pub ask-Moved :
      (v : Unlocker (W × List Entry))
      → Moved 0 (ask (recorded cfg.upper modem) cfg v).0 v (ask (recorded cfg.upper modem) cfg v).1
  unfolding cpin_state recorded burnt text_beq starts_with
  ask-Moved v =
      elim (Bool-cases
        (is_ready (cpin_answer cfg.upper (modem.execute (codes "AT+CPIN?") v.world.0).0))) [
          | inl yes' ↦ rw (yes') (record {
            env_same = refl;
            runtime_same = refl;
            more = omega arith;
            now_unlocked = λ h. refl;
          })
          | inr no' ↦ rw (no') (record {
            env_same = refl;
            runtime_same = refl;
            more = omega arith;
            now_unlocked = λ h. absurd (ground (arith, h, no'));
          })
        ]

  enter_pin-burnt :
      (pin : Text) (world : W × List Entry)
      → burnt (enter_pin (recorded cfg.upper modem) cfg.digits pin world).1.1 ≤ burnt world.1 + 1
  unfolding enter_pin recorded burnt text_beq
  enter_pin-burnt pin world = elim (Bool-cases (is_pin_text cfg.digits pin)) [
    | inr bad ↦ rw (bad) (omega arith)
    | inl good ↦ rw (good) (ground arith)
  ]

  asked_later :
      (v v' : Unlocker (W × List Entry))
      → v'.env_pin_tries ≡ v.env_pin_tries
      → v'.pin_submissions ≡ v.pin_submissions
      → burnt v'.world.1 ≤ burnt v.world.1 + 1
      → Moved 1
          (ask (recorded cfg.upper modem) cfg v').0
          v
          (ask (recorded cfg.upper modem) cfg v').1
  asked_later v v' a b c =
      let m = ask-Moved v' in
      record {
        env_same = m.env_same ∙ a;
        runtime_same = m.runtime_same ∙ b;
        more = omega (arith, m.more, c);
        now_unlocked = m.now_unlocked;
      }

  ask_entered-Moved :
      (e : Entered) (v v' : Unlocker (W × List Entry))
      → v'.env_pin_tries ≡ v.env_pin_tries
      → v'.pin_submissions ≡ v.pin_submissions
      → burnt v'.world.1 ≤ burnt v.world.1 + 1
      → Moved 1
          (ask_entered (recorded cfg.upper modem) cfg e v').0
          v
          (ask_entered (recorded cfg.upper modem) cfg e v').1
  ask_entered-Moved taken v v' a b c = asked_later v v' a b c
  ask_entered-Moved rejected v v' a b c = asked_later v v' a b c
  ask_entered-Moved timed_out v v' a b c = record {
    env_same = a;
    runtime_same = b;
    more = c;
    now_unlocked = λ h. absurd (ground (arith, h));
  }

  pub enter_and_ask-Moved :
      (pin : Text) (v : Unlocker (W × List Entry))
      → Moved 1
          (enter_and_ask (recorded cfg.upper modem) cfg pin v).0
          v
          (enter_and_ask (recorded cfg.upper modem) cfg pin v).1
  unfolding enter_and_ask
  enter_and_ask-Moved pin v =
      ask_entered-Moved (enter_pin (recorded cfg.upper modem) cfg.digits pin v.world).0 v
        (record v { world = (enter_pin (recorded cfg.upper modem) cfg.digits pin v.world).1 }) refl
        refl (enter_pin-burnt pin v.world)
