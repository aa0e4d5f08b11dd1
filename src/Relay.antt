-- ===== src/Relay.antt =====
-- The relay of inbound messages: `State` of client/gtg_client/state.py, and `_handle_event` of
-- client/gtg_client/relay.py.
pub mod History
pub mod Journal
pub mod AtMostOnce
pub mod Lately
pub mod Windows
pub mod Attempts
mod Tests
use generic_text_gateway.Common.{
  ltb, if◌then◌else◌, length, take, take_last, nat_eq, Text, text_beq, text_eq, member, set_add,
  set_discard_all, ℕ, ◌+◌, ◌-◌, Bool, true, false, Option, none, some, List, [], ◌∷◌, ◌++◌, arith,
}

-- `JOURNAL_KEEP`
abbrev pub journal_keep : ℕ
journal_keep = 500

-- What `state.json` holds.
pub record Stored : Type 0 where
  pub stream_id : Option Text
  pub last_id : Option ℕ
  pub journal : List Text

pub record State : Type 0 where
  pub stream_id : Option Text
  pub last_id : Option ℕ
  pub journal : List Text
  pub journal_set : List Text

-- The client, the file of its state, if it can be read, and the hashes of the messages that
-- `ha.fire` was called with, newest last.
pub record Client : Type 0 where
  pub state : State
  pub disk : Option Stored
  pub posted : List Text

-- `__init__` and `_load`; a missing or broken file is passed over.
unfoldable pub load : Option Stored → State
load none = record { stream_id = none; last_id = none; journal = []; journal_set = [] }
load (some d) =
    let journal = take_last journal_keep d.journal in
    record {
      stream_id = d.stream_id;
      last_id = d.last_id;
      journal = journal;
      journal_set = journal;
    }

abbrev pub stored : State → Stored
stored s = record {
  stream_id = s.stream_id;
  last_id = s.last_id;
  journal = take_last journal_keep s.journal;
}

-- `_save`: the file is replaced as a whole, or, where writing raises, not at all.
unfoldable pub save : Bool → Client → Bool × Client
save true c = (true, record c { disk = some (stored c.state) })
save false c = (false, c)

abbrev pub same_stream : Option Text → Option Text → Bool
same_stream none none = true
same_stream none (some b) = false
same_stream (some a) none = false
same_stream (some a) (some b) = text_beq a b

-- A new stream makes the cursor void.
unfoldable pub on_hello : Bool → Option Text → Client → Bool × Client
unfolding save
on_hello ok stream c =
    if same_stream stream c.state.stream_id
    then (true, c)
    else save ok (record c { state = record c.state { stream_id = stream; last_id = none } })

unfoldable pub seen : Text → State → Bool
unfolding member
seen h s = member h s.journal_set

-- The journal with a hash more, cut to the newest.
unfoldable pub journaled : Text → State → State
unfolding set_add set_discard_all
journaled h s =
    let journal = s.journal ++ h ∷ [] in
    let hashes = set_add h s.journal_set in
    if ltb journal_keep (length journal)
    then record s {
      journal = take_last journal_keep journal;
      journal_set = set_discard_all (take (length journal - journal_keep) journal) hashes;
    }
    else record s { journal = journal; journal_set = hashes }

unfoldable pub mark : Bool → Text → Client → Bool × Client
mark ok h c =
    if seen h c.state then (true, c) else save ok (record c { state = journaled h c.state })

unfoldable pub advance : Bool → Option ℕ → Client → Bool × Client
unfolding save
advance ok id c = save ok (record c { state = record c.state { last_id = id } })

-- How a call of `ha.fire` ends: it returns, raises `AmbiguousDelivery` or something else, or the
-- process ends before any request.
pub data Fire : Type 0 where
  fired : Fire
  ambiguous : Fire
  raised : Fire
  stopped : Fire

-- What the file system and Home Assistant do during one event.
pub record Outcome : Type 0 where
  pub first_write : Bool
  pub fire : Fire
  pub last_write : Bool

pub data Incoming : Type 0 where
  hello : Option Text → Incoming
  gap : Incoming
  health : Incoming
  unknown : Incoming
  incoming_message : Option ℕ → Text → Incoming

abbrev pub posting : Text → Client → Client
posting h c = record c { posted = c.posted ++ h ∷ [] }

-- From `ha.fire` to the end.
unfoldable pub fire_and_advance : Fire → Bool → Option ℕ → Text → Client → Bool × Client
unfolding advance
fire_and_advance fired ok id h c = advance ok id (posting h c)
fire_and_advance ambiguous ok id h c = advance ok id (posting h c)
fire_and_advance raised ok id h c = (false, posting h c)
fire_and_advance stopped ok id h c = (false, c)

-- A message with its id and its hash.
unfoldable pub handle_message : Outcome → Option ℕ → Text → Client → Bool × Client
handle_message o id h c =
    if seen h c.state
    then advance o.last_write id c
    else let (ok, c') = mark o.first_write h c in
      if ok then fire_and_advance o.fire o.last_write id h c' else (false, c')

-- `_handle_event`; `false` is an exception, upon which `run_inbound` connects anew. A gap event
-- changes nothing here.
unfoldable pub handle_event : Outcome → Incoming → Client → Bool × Client
handle_event o (hello stream) c = on_hello o.first_write stream c
handle_event o gap c = (true, c)
handle_event o health c = (true, c)
handle_event o unknown c = (true, c)
handle_event o (incoming_message id h) c = handle_message o id h c

-- The client's life: events, and restarts of the process at any moment between them.
pub data Step : Type 0 where
  handle : Outcome → Incoming → Step
  restart : Step

unfoldable pub step : Step → Client → Client
step (handle o e) c = (handle_event o e c).1
step restart c = record c { state = load c.disk }

unfoldable pub run : List Step → Client → Client
run [] c = c
run (s ∷ steps) c = run steps (step s c)

-- The first start: no file, nothing fired.
abbrev pub fresh : Client
fresh = record {
  state = record { stream_id = none; last_id = none; journal = []; journal_set = [] };
  disk = none;
  posted = [];
}
