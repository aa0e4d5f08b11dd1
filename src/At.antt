-- ===== src/At.antt =====
-- The serial port: `ATPort` of server/gtg_server/modem/at.py. The decoding of UTF-8 with replacement is a
-- parameter, and so is the callback for unsolicited lines. A deadline is the number of reads that it leaves.
pub mod Lines
pub mod Execute
mod Tests
use generic_text_gateway.Common.{
  ◌==◌, if◌then◌else◌, length, total, any, nat_eq, Text, Bytes, codes, text_beq, text_eq,
  starts_with, strip, member, ℕ, zero, suc, ◌+◌, ◌^◌, Bool, true, false, not, ◌&&◌, ◌||◌, Option,
  none, some, List, [], ◌∷◌, ◌++◌, arith,
}

-- The buffer, what `read` is still to return, and what was written.
pub record Serial : Type 0 where
  pub buf : Bytes
  pub input : List Bytes
  pub written : Bytes

-- `_read_chunk`; nothing is read when nothing comes.
unfoldable pub read_chunk : Serial → Serial
read_chunk s = elim s.input [
  | [] ↦ s
  | chunk ∷ rest ↦ record s { buf = s.buf ++ chunk; input = rest }
]

abbrev is_return : ℕ → Bool
is_return c = c == 13

-- `strip(b"\r")`
unfoldable pub lstrip_returns : Bytes → Bytes
lstrip_returns [] = []
lstrip_returns (c ∷ s) = let rest = lstrip_returns s in if is_return c then rest else c ∷ s

abbrev rstrip_return_cons : ℕ → Bytes → Bytes
rstrip_return_cons c [] = if is_return c then [] else c ∷ []
rstrip_return_cons c (d ∷ s) = c ∷ d ∷ s

unfoldable pub rstrip_returns : Bytes → Bytes
rstrip_returns [] = []
rstrip_returns (c ∷ s) = rstrip_return_cons c (rstrip_returns s)

abbrev pub final_ok : Text
final_ok = codes "OK"

abbrev pub final_errors : List Text
final_errors =
    codes "ERROR"
    ∷ codes "+CMS ERROR:"
    ∷ codes "+CME ERROR:"
    ∷ codes "NO CARRIER"
    ∷ codes "BUSY"
    ∷ codes "NO ANSWER"
    ∷ codes "COMMAND NOT SUPPORT"
    ∷ []

abbrev pub urc_prefixes : List Text
urc_prefixes =
    codes "+CMTI:"
    ∷ codes "+CMT:"
    ∷ codes "+CDS:"
    ∷ codes "+CBM:"
    ∷ codes "RING"
    ∷ codes "+CRING"
    ∷ codes "+CREG:"
    ∷ codes "+CGREG:"
    ∷ codes "+CEREG:"
    ∷ codes "+CUSD:"
    ∷ codes "NO CARRIER"
    ∷ codes "^"
    ∷ []

-- `_is_urc`
unfoldable pub is_urc : Text → Bool
is_urc line = any (λ p. starts_with line p) urc_prefixes

unfoldable pub is_final_error : Text → Bool
is_final_error line = any (λ e. starts_with line e) final_errors

-- `part in text`
unfoldable pub contains : Text → Text → Bool
contains part [] = starts_with [] part
contains part (c ∷ s) = starts_with (c ∷ s) part || contains part s

-- What `execute` comes to: its lines, `ATError`, `ATTimeout`; `no_fuel` is the model's own.
pub data Answer : Type 0 where
  answered : List Text → Answer
  at_error : Text → Answer
  at_timeout : Answer
  no_fuel : Answer

abbrev pub is_empty : Text → Bool
is_empty [] = true
is_empty (c ∷ s) = false

abbrev pub cons_line : Text → Answer → Answer
cons_line line (answered lines) = answered (line ∷ lines)
cons_line line (at_error e) = at_error e
cons_line line at_timeout = at_timeout
cons_line line no_fuel = no_fuel

-- `buf[buf.find(b">") + 1:]`
unfoldable pub behind_prompt : Bytes → Bytes
behind_prompt [] = []
behind_prompt (c ∷ s) = if c == 62 then s else behind_prompt s

module _ (decode : Bytes → Text) where
  -- The text of a line.
  abbrev pub clean : Bytes → Text
  clean raw = strip (decode (rstrip_returns (lstrip_returns raw)))

  -- `_pop_line`, with what was seen of the first line: the first line that is not empty, and the buffer behind it.
  unfoldable pub pop_from : Bytes → Bytes → Option Text × Bytes
  pop_from seen [] = (none, seen)
  pop_from seen (c ∷ s) = elim (c == 10) [
    | true ↦ elim (is_empty (clean seen)) [ true ↦ pop_from [] s | false ↦ (some (clean seen), s) ]
    | false ↦ pop_from (seen ++ c ∷ []) s
  ]

  unfoldable pub pop_line : Bytes → Option Text × Bytes
  pop_line buf = pop_from [] buf

  -- `_readline`, with the reads that are left.
  unfoldable pub readline : ℕ → Serial → Option Text × (ℕ × Serial)
  readline zero s = let (line, buf) = pop_line s.buf in (line, (0, record s { buf = buf }))
  readline (suc reads) s =
      let (line, buf) = pop_line s.buf in
      let later = readline reads (read_chunk (record s { buf = buf })) in
      elim line [ none ↦ later | some l ↦ (some l, (suc reads, record s { buf = buf })) ]

-- What the loop of `execute` takes a line for.
pub data Kind : Type 0 where
  echo : Kind
  final : Kind
  failure : Kind
  unsolicited : Kind
  content : Kind

-- The tests in their order; `extra` is `collect_extra`, false where there is none.
unfoldable pub classify : Text → (Text → Bool) → Text → Kind
classify cmd extra line =
    if text_beq line cmd
    then echo
    else if text_beq line final_ok
    then final
    else if is_final_error line
    then failure
    else if is_urc line && not (extra line)
    then unsolicited
    else content

abbrev write : Bytes → Serial → Serial
write bytes s = record s { written = s.written ++ bytes }

-- Enough for each line that may come.
abbrev pub enough : Serial → ℕ
enough s = suc (length s.buf + total length s.input)

module _ (decode : Bytes → Text) where
  -- Errors that come instead of the prompt.
  abbrev has_error : Text → Bool
  has_error probe = any (λ e. contains e probe) final_errors

  -- The wait for the prompt: what is behind it, or the end.
  unfoldable pub await_prompt : ℕ → Serial → Answer × Serial
  await_prompt zero s =
      if member 62 s.buf
      then (answered [], record s { buf = behind_prompt s.buf })
      else (at_timeout, s)
  await_prompt (suc reads) s =
      let s' = read_chunk s in
      let probe = decode s'.buf in
      let later = await_prompt reads s' in
      if member 62 s.buf
      then (answered [], record s { buf = behind_prompt s.buf })
      else if has_error probe
      then (at_error (strip probe), record s' { buf = [] })
      else later

module _ {X : Type 0} (urc_cb : Text → Serial × X → Serial × X) where
  -- What becomes of a line, with what the loop goes on with.
  unfoldable pub collect_line :
      (Serial × X → Answer × (Serial × X))
      → Text
      → (Text → Bool)
      → Option Text
      → Serial × X
      → Answer × (Serial × X)
  collect_line next cmd extra none v = (at_timeout, v)
  collect_line next cmd extra (some l) v = elim (classify cmd extra l) [
    | echo ↦ next v
    | final ↦ (answered [], v)
    | failure ↦ (at_error l, v)
    | unsolicited ↦ next (urc_cb l v)
    | content ↦ let (a, v') = next v in (cons_line l a, v')
  ]

module _ (decode : Bytes → Text) {X : Type 0} (urc_cb : Text → Serial × X → Serial × X) where
  -- The loop of `execute` over the lines of the answer.
  unfoldable pub collect :
      (fuel reads : ℕ) → Text → (Text → Bool) → Serial × X → Answer × (Serial × X)
  unfolding collect_line
  collect zero reads cmd extra v = (no_fuel, v)
  collect (suc fuel) reads cmd extra (s, x) =
      let (line, (reads', s')) = readline decode reads s in
      collect_line urc_cb (λ v. collect fuel reads' cmd extra v) cmd extra line (s', x)

  -- `execute`; `reads` and `payload_reads` are the reads that the deadlines leave.
  unfoldable pub execute :
      (reads payload_reads : ℕ)
      → Text
      → Option Bytes
      → (Text → Bool)
      → Serial × X
      → Answer × (Serial × X)
  execute reads payload_reads cmd none extra (s, x) =
      let s' = write (cmd ++ 13 ∷ []) s in collect (enough s') reads cmd extra (s', x)
  execute reads payload_reads cmd (some payload) extra (s, x) =
      let (prompt, s') = await_prompt decode reads (write (cmd ++ 13 ∷ []) s) in
      elim prompt [
        | answered _ ↦
            let s'' = write (payload ++ 26 ∷ []) s' in
            collect (enough s'') payload_reads cmd extra (s'', x)
        | at_error e ↦ (at_error e, (s', x))
        | at_timeout ↦ (at_timeout, (s', x))
        | no_fuel ↦ (no_fuel, (s', x))
      ]
