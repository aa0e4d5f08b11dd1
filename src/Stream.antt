-- ===== src/Stream.antt =====
-- The event stream between server and client: `_sse_write` and the loop of `_subscribe` of
-- server/gtg_server/api.py, and `SSEReader` of client/gtg_client/relay.py. Both are over code points:
-- UTF-8 has the octet of a line's end for nothing else. `json.dumps` and `str` are arguments.
pub mod Reading
pub mod Delivery
mod Tests
use generic_text_gateway.Common.{
  ◌==◌, if◌then◌else◌, drop, nat_eq, Text, codes, text_eq, starts_with, lstrip, strip, ℕ, ◌+◌, Bool,
  true, false, ◌||◌, Option, none, some, List, [], ◌∷◌, ◌++◌, arith,
}
use generic_text_gateway.Hub.Queue.{Published, Event, message, gap, health}

abbrev pub newline : ℕ
newline = 10

abbrev pub carriage_return : ℕ
carriage_return = 13

abbrev pub id_line : Option Text → Text
id_line none = []
id_line (some id) = codes "id: " ++ (id ++ (newline ∷ []))

-- `_sse_write`, of the name of an event, its id if it has one, and the JSON text of its data
unfoldable pub sse_chunk : Text → Option Text → Text → Text
sse_chunk event id json =
    codes "event: "
    ++ (event ++ (newline ∷ (id_line id ++ (codes "data: " ++ (json ++ (newline ∷ newline ∷ []))))))

-- What stands between heartbeats: nothing for 15 seconds, or an event, as the queue gives it.
pub data Turn (M H : Type 0) : Type 0 where
  heartbeat : Turn M H
  next : Event M H → Turn M H

-- The JSON texts of messages and snapshots, and the decimal text of an id.
pub record Format (M H : Type 0) : Type 0 where
  pub str : ℕ → Text
  pub message_json : Published M → Text
  pub health_json : H → Text

module _ {M H : Type 0} (f : Format M H) where
  abbrev pub gap_json : Text
  gap_json = codes "{\"reason\": \"subscriber_too_slow\"}"

  unfoldable pub turn_chunk : Turn M H → Text
  unfolding sse_chunk
  turn_chunk heartbeat = codes ": hb" ++ (newline ∷ newline ∷ [])
  turn_chunk (next (message m)) = sse_chunk (codes "message") (some (f.str m.id)) (f.message_json m)
  turn_chunk (next gap) = sse_chunk (codes "gap") none gap_json
  turn_chunk (next (health h)) = sse_chunk (codes "health") none (f.health_json h)

  -- `confirm_delivered` is called for a message alone.
  abbrev pub confirmed_by : Turn M H → List ℕ
  confirmed_by heartbeat = []
  confirmed_by (next (message m)) = m.id ∷ []
  confirmed_by (next gap) = []
  confirmed_by (next (health h)) = []

  -- The loop of `_subscribe`: what was written, and the ids that were confirmed. A write that raises,
  -- `false`, ends it; what of that chunk came through is the second part of the turn.
  unfoldable pub serve_stream : List (Turn M H × (Bool × Text)) → Text × List ℕ
  serve_stream [] = ([], [])
  serve_stream ((turn, (false, part)) ∷ turns) = (part, [])
  serve_stream ((turn, (true, _)) ∷ turns) =
      let (rest, ids) = serve_stream turns in (turn_chunk turn ++ rest, confirmed_by turn ++ ids)

-- What the client's reader yields.
pub record SseEvent : Type 0 where
  pub event : Text
  pub payload : Text
  pub id : Option Text

-- The fields of the event in the making.
pub record Reader : Type 0 where
  pub event : Option Text
  pub lines : List Text
  pub id : Option Text

abbrev pub start_reader : Reader
start_reader = record { event = none; lines = []; id = none }

abbrev cons_line : ℕ → List Text → List Text
cons_line c [] = (c ∷ []) ∷ []
cons_line c (l ∷ ls) = (c ∷ l) ∷ ls

-- The lines of the response, by `readline`; the last may lack its end.
unfoldable pub read_lines : Text → List Text
read_lines [] = []
read_lines (c ∷ s) = elim (c == newline) [
  | true ↦ [] ∷ read_lines s
  | false ↦ cons_line c (read_lines s)
]

abbrev rstrip_cr_cons : ℕ → Text → Text
rstrip_cr_cons c [] = if c == carriage_return || c == newline then [] else c ∷ []
rstrip_cr_cons c (d ∷ s) = c ∷ d ∷ s

-- `rstrip("\r\n")`
unfoldable pub rstrip_ends : Text → Text
rstrip_ends [] = []
rstrip_ends (c ∷ s) = rstrip_cr_cons c (rstrip_ends s)

-- `"\n".join(data)`, of lines in the order of their coming
unfoldable pub join_lines : List Text → Text
join_lines [] = []
join_lines (l ∷ []) = l
join_lines (l ∷ m ∷ ls) = l ++ (newline ∷ join_lines (m ∷ ls))

abbrev is_nonempty : Option Text → Bool
is_nonempty none = false
is_nonempty (some []) = false
is_nonempty (some (c ∷ s)) = true

abbrev has_lines : List Text → Bool
has_lines [] = false
has_lines (l ∷ ls) = true

-- `event or "message"`
abbrev event_or : Option Text → Text
event_or none = codes "message"
event_or (some []) = codes "message"
event_or (some (c ∷ s)) = c ∷ s

-- What an empty line yields.
unfoldable pub dispatch : Reader → List SseEvent
dispatch r =
    if is_nonempty r.event || has_lines r.lines
    then record { event = event_or r.event; payload = join_lines r.lines; id = r.id } ∷ []
    else []

-- One line that is not empty.
unfoldable pub field_line : Text → Reader → Reader
field_line line r =
    if starts_with line (codes ":")
    then r
    else if starts_with line (codes "event:")
    then record r { event = some (strip (drop 6 line)) }
    else if starts_with line (codes "data:")
    then record r { lines = r.lines ++ lstrip (drop 5 line) ∷ [] }
    else if starts_with line (codes "id:")
    then record r { id = some (strip (drop 3 line)) }
    else r

abbrev pub is_blank : Text → Bool
is_blank [] = true
is_blank (c ∷ s) = false

-- `events`, over lines as they were read
unfoldable pub sse_events : Reader → List Text → List SseEvent
sse_events r [] = []
sse_events r (raw ∷ raws) = elim (is_blank (rstrip_ends raw)) [
  | true ↦ dispatch r ++ sse_events start_reader raws
  | false ↦ sse_events (field_line (rstrip_ends raw) r) raws
]
