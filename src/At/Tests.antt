-- ===== src/At/Tests.antt =====
-- Answers in chunks, and a callback that reads from the port itself.
use generic_text_gateway.Common.{
  nat_eq, Text, Bytes, codes, text_beq, text_eq, starts_with, is_space, lstrip, rstrip, strip, ◌≡◌,
  refl, ◌≢◌, Bool, false, none, some, List, [], ◌∷◌, ◌++◌, arith,
}
use generic_text_gateway.At.{
  Serial, read_chunk, lstrip_returns, rstrip_returns, is_urc, is_final_error, contains, Answer,
  behind_prompt, pop_from, pop_line, readline, classify, await_prompt, collect_line, collect,
  execute, answered, at_error, at_timeout, no_fuel,
}
use generic_text_gateway.At.Lines.{pending}
use generic_text_gateway.At.Execute.{respond, IsQuiet, IsResponse, execute-respond, execute-ends}

abbrev cr_lf : Bytes
cr_lf = 13 ∷ 10 ∷ []

abbrev ascii : Bytes → Text
ascii s = s

abbrev nothing_extra : Text → Bool
nothing_extra line = false

-- An answer in three chunks, with a line that was not asked for.
abbrev port : Serial
port = record {
  buf = [];
  input =
      codes "+CS"
      ∷ (codes "Q: 9,9" ++ cr_lf ++ codes "RI")
      ∷ (codes "NG" ++ cr_lf ++ codes "OK" ++ cr_lf)
      ∷ [];
  written = [];
}

abbrev tell : Text → List Text → List Text
tell l ls = l ∷ ls

abbrev note : Text → Serial × List Text → Serial × List Text
note l (s, ls) = (s, l ∷ ls)

note-IsQuiet : IsQuiet note tell
unfolding IsQuiet
note-IsQuiet l s ls = refl

-- What a run of `execute` computes with.
run : Unit {0}
unfolding read_chunk lstrip_returns rstrip_returns is_urc is_final_error contains pop_from pop_line
    readline classify collect_line collect execute await_prompt behind_prompt starts_with strip
    lstrip rstrip is_space text_beq respond
run = tt

execute_lem : execute ascii note 3 3 (codes "AT+CSQ") none nothing_extra (port, []) ≡ (
  answered (codes "+CSQ: 9,9" ∷ []),
  (record { buf = []; input = []; written = codes "AT+CSQ" ++ 13 ∷ [] }, codes "RING" ∷ []),
)
unfolding run
execute_lem = refl

execute-respond_example :
    IsResponse
      (record port { written = codes "AT+CSQ" ++ 13 ∷ [] })
      (execute ascii note 3 3 (codes "AT+CSQ") none nothing_extra (port, []))
      (respond ascii tell (codes "AT+CSQ") nothing_extra [] (pending port) [])
execute-respond_example =
    execute-respond ascii note tell (codes "AT+CSQ") nothing_extra note-IsQuiet 3 3 port []
      (omega arith)

execute-ends_example :
    (execute ascii note 1 1 (codes "AT+CMGS=9") (some (codes "00")) nothing_extra (port, [])).0
    ≢ no_fuel
execute-ends_example =
    execute-ends ascii note tell (codes "AT+CMGS=9") nothing_extra note-IsQuiet 1 1
      (some (codes "00")) port []

abbrev lines_of : Answer → List Text
lines_of (answered ls) = ls
lines_of (at_error e) = []
lines_of at_timeout = []
lines_of no_fuel = []

-- A callback that asks for a message at once, as `_on_urc` does: it takes the answer to the command that is in
-- flight for its own, and the command gets the lines of the message.
abbrev reader : Text → Serial × List (List Text) → Serial × List (List Text)
unfolding run
reader l (s, seen) =
    let (a, (s', _)) = execute ascii note 9 9 (codes "AT+CMGR=3") none nothing_extra (s, []) in
    (s', lines_of a ∷ seen)

crossed :
    (execute ascii reader 9 9 (codes "AT+CSQ") none nothing_extra (
      record {
        buf = [];
        input =
            (codes "+CMTI: \"SM\",3" ++ cr_lf ++ codes "+CSQ: 9,9" ++ cr_lf ++ codes "OK" ++ cr_lf)
            ∷ (codes "+CMGR: 0" ++ cr_lf ++ codes "07AB" ++ cr_lf ++ codes "OK" ++ cr_lf)
            ∷ [];
        written = [];
      },
      [],
    )).0
    ≡ answered (codes "+CMGR: 0" ∷ codes "07AB" ∷ [])
unfolding run
crossed = refl
