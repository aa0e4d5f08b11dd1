-- ===== src/Sim.antt =====
-- The SIM: server/gtg_server/modem/sim.py, and the choice of storage and notifications of
-- server/gtg_server/modem/receive.py. All of it speaks to a modem through `execute`.
pub mod Pins
pub mod Guarded
pub mod Attempts
pub mod Registration
pub mod Ledger
mod Tests
use generic_text_gateway.Common.{
  ◌>>=◌, ◌>>◌, ℤ, pos, negsuc, leb, ◌==◌, if◌then◌else◌, length, total, nat_eq, Text, codes,
  text_eq, starts_with, is_space, strip, DigitTable, is_digits, member, ◌+◌, Bool, false, not, ◌&&◌,
  ◌||◌, Option, none, some, List, [], ◌∷◌, ◌++◌, arith,
}
use generic_text_gateway.At.{Answer, answered, at_error, at_timeout, no_fuel, contains}
use generic_text_gateway.Receive.{split_at, behind_colon}

-- A port as its clients see it: one command, with what it answers.
pub record Modem (W : Type 0) : Type 0 where
  pub execute : Text → W → Answer × W

-- `str.upper` and `int` of a text.
pub record Texts : Type 0 where
  pub upper : Text → Text
  pub int : Text → Option ℤ

pub data SimState : Type 0 where
  ready : SimState
  pin_required : SimState
  puk_required : SimState
  absent : SimState
  unknown : SimState

-- The lines of the answer to `AT+CPIN?`.
unfoldable pub cpin_lines : (Text → Text) → List Text → SimState
cpin_lines upper [] = unknown
cpin_lines upper (line ∷ lines) =
    let up = upper line in
    let rest = cpin_lines upper lines in
    if contains (codes "READY") up
    then ready
    else if contains (codes "SIM PUK") up
    then puk_required
    else if contains (codes "SIM PIN") up
    then pin_required
    else rest

-- What becomes of the answer; `none` is an `ATTimeout` that passes through.
unfoldable pub cpin_answer : (Text → Text) → Answer → Option SimState
cpin_answer upper (answered lines) = some (cpin_lines upper lines)
cpin_answer upper (at_error e) =
    let msg = upper e in
    some (
      if contains (codes "SIM NOT INSERTED") msg || contains (codes "10") msg
      then absent
      else unknown)
cpin_answer upper at_timeout = none
cpin_answer upper no_fuel = none

-- What `enter_pin` comes to: done, `ValueError` or `ATError`, or an `ATTimeout`.
pub data Entered : Type 0 where
  taken : Entered
  rejected : Entered
  timed_out : Entered

abbrev entered_of : Answer → Entered
entered_of (answered lines) = taken
entered_of (at_error e) = rejected
entered_of at_timeout = timed_out
entered_of no_fuel = timed_out

-- `f'AT+CPIN="{pin}"'`
abbrev pub pin_command : Text → Text
pin_command pin = codes "AT+CPIN=\"" ++ (pin ++ codes "\"")

abbrev pub is_pin_text : DigitTable → Text → Bool
is_pin_text t pin = is_digits t pin && leb 4 (length pin) && leb (length pin) 8

-- `descriptions.get(state, "unknown")`
unfoldable pub describe : ℤ → Text
describe (negsuc n) = codes "unknown"
describe (pos n) =
    if n == 0
    then codes "not_registered"
    else if n == 1
    then codes "home"
    else if n == 2
    then codes "searching"
    else if n == 3
    then codes "denied"
    else if n == 5
    then codes "roaming"
    else codes "unknown"

-- What a scan of lines comes to; `index_error` is the `IndexError` of a field with no word in it.
pub data Scan : Type 0 where
  found : ℤ → Scan
  nothing : Scan
  index_error : Scan

-- `split()[0]` of a text that begins with no white space
unfoldable pub first_word : Text → Text
first_word [] = []
first_word (c ∷ s) = let rest = first_word s in if is_space c then [] else c ∷ rest

abbrev field_scan : (Text → Option ℤ) → Text → Scan → Scan
field_scan int [] later = index_error
field_scan int (c ∷ s) later = elim (int (first_word (c ∷ s))) [ none ↦ later | some n ↦ found n ]

abbrev parts_scan : (Text → Option ℤ) → List Text → Scan → Scan
parts_scan int [] later = later
parts_scan int (p ∷ []) later = later
parts_scan int (p ∷ field ∷ ps) later = field_scan int (strip field) later

-- The lines of one answer of `registration`.
unfoldable pub registration_lines : (Text → Option ℤ) → List Text → Scan
registration_lines int [] = nothing
registration_lines int (line ∷ lines) =
    let later = registration_lines int lines in
    if member 58 line then parts_scan int (split_at 44 (behind_colon line)) later else later

abbrev pub registration_commands : List Text
registration_commands = codes "AT+CREG?" ∷ codes "AT+CEREG?" ∷ codes "AT+CGREG?" ∷ []

-- The lines of an answer, none where an exception was passed over.
abbrev pub lines_or_none : Answer → Option (List Text)
lines_or_none (answered lines) = some lines
lines_or_none (at_error e) = none
lines_or_none at_timeout = none
lines_or_none no_fuel = none

-- Between the first quotes.
abbrev second : List Text → Option Text
second [] = none
second (a ∷ []) = none
second (a ∷ b ∷ rest) = some b

unfoldable pub operator_lines : List Text → Option Text
operator_lines [] = none
operator_lines (line ∷ lines) =
    let later = operator_lines lines in if member 34 line then second (split_at 34 line) else later

abbrev usage_of : (Text → Option ℤ) → List Text → Option (ℤ × ℤ)
usage_of int [] = none
usage_of int (a ∷ []) = none
usage_of int (a ∷ b ∷ []) = none
usage_of int (a ∷ b ∷ c ∷ rest) = do used ← int b; total ← int c; some (used, total)

-- The lines of `AT+CPMS?`.
unfoldable pub usage_lines : (Text → Option ℤ) → List Text → Option (ℤ × ℤ)
usage_lines int [] = none
usage_lines int (line ∷ lines) =
    let later = usage_lines int lines in
    if starts_with line (codes "+CPMS:")
    then usage_of int (split_at 44 (behind_colon line))
    else later

abbrev usage_answer : (Text → Option ℤ) → Option (List Text) → Option (ℤ × ℤ)
usage_answer int none = none
usage_answer int (some lines) = usage_lines int lines

-- `registered`; `none` is the `IndexError`.
abbrev pub is_registered : Scan → Option Bool
is_registered (found (pos n)) = some (n == 1 || n == 5)
is_registered (found (negsuc n)) = some false
is_registered nothing = some false
is_registered index_error = none

module _ {W : Type 0} (modem : Modem W) where
  -- `cpin_state`
  unfoldable pub cpin_state : (Text → Text) → W → Option SimState × W
  cpin_state upper w = let (a, w') = modem.execute (codes "AT+CPIN?") w in (cpin_answer upper a, w')

  -- `enter_pin`
  unfoldable pub enter_pin : DigitTable → Text → W → Entered × W
  enter_pin t pin w =
      if not (is_pin_text t pin)
      then (rejected, w)
      else let (a, w') = modem.execute (pin_command pin) w in (entered_of a, w')

  -- `registration`; a command that raises is passed over, an `IndexError` is not.
  unfoldable pub registration_from : (Text → Option ℤ) → List Text → W → Scan × W
  registration_from int [] w = (nothing, w)
  registration_from int (cmd ∷ cmds) w =
      let (a, w') = modem.execute cmd w in
      let later = registration_from int cmds w' in
      elim (lines_or_none a) [
        | none ↦ later
        | some lines ↦ elim (registration_lines int lines) [
          | found n ↦ (found n, w')
          | nothing ↦ later
          | index_error ↦ (index_error, w')
        ]
      ]

  unfoldable pub registration : (Text → Option ℤ) → W → Scan × W
  registration int w = registration_from int registration_commands w

  -- `registered`
  unfoldable pub registered : (Text → Option ℤ) → W → Option Bool × W
  unfolding registration
  registered int w = let (s, w') = registration int w in (is_registered s, w')

  -- `operator`
  unfoldable pub operator : W → Option Text × W
  operator w =
      let (a, w') = modem.execute (codes "AT+COPS?") w in
      (elim (lines_or_none a) [ none ↦ none | some lines ↦ operator_lines lines ], w')

  -- `storage_usage`
  unfoldable pub storage_usage : (Text → Option ℤ) → W → Option (ℤ × ℤ) × W
  storage_usage int w =
      let (a, w') = modem.execute (codes "AT+CPMS?") w in (usage_answer int (lines_or_none a), w')

  -- The first command of a list that is answered, with what it stands for.
  unfoldable pub first_accepted {ℓ} : {A : Type ℓ} → List (Text × A) → W → Option A × W
  first_accepted [] w = (none, w)
  first_accepted ((cmd, a) ∷ rest) w =
      let (reply, w') = modem.execute cmd w in
      let later = first_accepted rest w' in
      elim (lines_or_none reply) [ none ↦ later | some lines ↦ (some a, w') ]

  -- `select_cnmi`, over its settings, and `select_storage`
  unfoldable pub select_cnmi : W → Text × W
  select_cnmi w =
      let (strategy, w') =
        first_accepted
          ((codes "AT+CNMI=2,1,0,0,0", codes "cmti")
            ∷ (codes "AT+CNMI=1,1,0,0,0", codes "cmti")
            ∷ (codes "AT+CNMI=2,2,0,0,0", codes "cmt")
            ∷ (codes "AT+CNMI=1,2,0,0,0", codes "cmt")
            ∷ [])
          w in
      (elim strategy [ none ↦ codes "poll" | some s ↦ s ], w')

  unfoldable pub select_storage : W → Option Text × W
  select_storage w =
      first_accepted
        ((codes "AT+CPMS=\"SM\",\"SM\",\"SM\"", codes "SM")
          ∷ (codes "AT+CPMS=\"ME\",\"ME\",\"ME\"", codes "ME")
          ∷ (codes "AT+CPMS=\"MT\",\"MT\",\"MT\"", codes "MT")
          ∷ [])
        w
