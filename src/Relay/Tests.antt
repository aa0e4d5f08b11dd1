-- ===== src/Relay/Tests.antt =====
-- A message that comes twice, around a restart.
use generic_text_gateway.Common.{
  nat_eq, codes, text_beq, text_eq, member, times, ◌+◌, ◌*◌, ◌≤◌, ◌≡◌, refl, true, false, some,
  List, [], ◌∷◌,
}
use generic_text_gateway.Relay.{
  load, save, on_hello, seen, journaled, mark, advance, Outcome, fire_and_advance, handle_message,
  handle_event, Step, step, run, fresh, fired, ambiguous, hello, incoming_message, handle, restart,
}
use generic_text_gateway.Relay.Attempts.{
  Attempt, outcome_of, fire_loop, fire_attempts, EndsWith, fire_attempts-EndsWith, answered,
  refused, url_os_error,
}
use generic_text_gateway.Relay.AtMostOnce.{messages}
use generic_text_gateway.Relay.Windows.{run-at_most_once_in_window}

abbrev fine : Outcome
fine = record { first_write = true; fire = fired; last_write = true }

abbrev lost : Outcome
lost = record { first_write = true; fire = ambiguous; last_write = false }

abbrev twice : List Step
twice =
    handle fine (hello (some (codes "s")))
    ∷ handle lost (incoming_message (some 1) (codes "a"))
    ∷ restart
    ∷ handle fine (incoming_message (some 1) (codes "a"))
    ∷ handle fine (incoming_message (some 2) (codes "b"))
    ∷ []

twice_lem : (run twice fresh).posted ≡ codes "a" ∷ codes "b" ∷ []
unfolding run step handle_event on_hello save handle_message seen mark journaled load advance
    fire_and_advance member text_beq
twice_lem = refl

run-at_most_once_in_window_example :
    501 * times (codes "a") (run twice (run twice fresh)).posted
    ≤ 501 * times (codes "a") (run twice fresh).posted + messages twice + 500
run-at_most_once_in_window_example = run-at_most_once_in_window twice twice (codes "a")

abbrev outage : List Attempt
outage = refused ∷ url_os_error ∷ answered ∷ []

fire_attempts-EndsWith_example : EndsWith outage fired (2 ∷ 4 ∷ [])
unfolding fire_attempts fire_loop outcome_of
fire_attempts-EndsWith_example = fire_attempts-EndsWith outage refl
