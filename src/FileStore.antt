-- ===== src/FileStore.antt =====
-- One file for each message: `FileStore` of server/gtg_server/store.py. A write that raises is `false`
-- among the arguments; what `str` makes of a number is an argument of `filename`.
pub mod Bounds
mod Tests
use generic_text_gateway.Common.{
  sort_by, ℤ, pos, negsuc, ltb, leb, ◌==◌, if◌then◌else◌, take, take_last, keep, nat_eq, lookup,
  insert, entries, Text, codes, text_eq, is_ascii_digit, ℕ, ◌+◌, min, max, Bool, true, false, not,
  ◌&&◌, ◌||◌, Option, none, some, List, [], ◌∷◌, ◌++◌, arith,
}

-- Paths with what they hold, the two indices, and the stream in memory and on disk.
pub record FileStore (P : Type 0) : Type 0 where
  pub files : List (Text × P)
  pub inbox_index : List (ℕ × Text)
  pub out_index : List (ℕ × Text)
  pub stream_id : Text
  pub next_id : ℕ
  pub stream_file : Option (Text × ℕ)

-- What `_SAFE` leaves.
unfoldable pub is_safe : ℕ → Bool
is_safe c =
    is_ascii_digit c
    || leb 65 c && leb c 90
    || leb 97 c && leb c 122
    || c == 43
    || c == 46
    || c == 95
    || c == 45

abbrev pub not_colon : ℕ → Bool
not_colon c = not (c == 58)

abbrev pub or_text : Text → Option Text → Text
or_text default none = default
or_text default (some []) = default
or_text default (some (c ∷ s)) = c ∷ s

-- `_filename`, of the time of receipt, the sender or recipients, and the id.
unfoldable pub filename : (ℕ → Text) → Option Text → Option Text → ℕ → Text
filename str received_at who id =
    keep is_safe (keep not_colon (or_text [] received_at))
    ++ codes "_"
    ++ take 24 (keep is_safe (or_text (codes "unknown") who))
    ++ codes "_"
    ++ str id
    ++ codes ".json"

abbrev pub entry_id : ℕ × Text → ℕ
entry_id e = e.0

abbrev pub max_replay : ℕ
max_replay = 500

abbrev pub is_between : ℕ → ℕ → ℕ × Text → Bool
is_between after before e = ltb after (entry_id e) && ltb (entry_id e) before

abbrev pub is_before : Option ℤ → ℕ × Text → Bool
is_before none e = true
is_before (some (pos n)) e = ltb (entry_id e) n
is_before (some (negsuc n)) e = false

-- `max(1, min(int(limit), 200))`
abbrev pub page : ℤ → ℕ
page (pos n) = max 1 (min n 200)
page (negsuc n) = 1

abbrev pub newest_first : List (ℕ × Text) → List (ℕ × Text)
newest_first [] = []
newest_first (e ∷ es) = newest_first es ++ e ∷ []

module _ {P : Type 0} where
  -- `_write`
  unfoldable pub write : Bool → Text → P → FileStore P → Bool × FileStore P
  write true path payload s = (true, record s { files = insert path payload s.files })
  write false path payload s = (false, s)

  -- `_persist_stream`
  unfoldable pub persist_stream : Bool → ℕ → FileStore P → Bool × FileStore P
  persist_stream true next_id s = (true, record s { stream_file = some (s.stream_id, next_id) })
  persist_stream false next_id s = (false, s)

  -- `stream`
  unfoldable pub stream : FileStore P → Text × ℕ
  stream s = (s.stream_id, s.next_id)

  -- `save_inbound`, with the outcomes of its two writes.
  unfoldable pub save_inbound : Bool → Bool → ℕ → Text → P → ℕ → FileStore P → Bool × FileStore P
  save_inbound first second id path msg next_id s =
      let (saved, s') = write first path msg s in
      if saved
      then persist_stream second next_id
          (record s' { inbox_index = s'.inbox_index ++ (id, path) ∷ []; next_id = next_id })
      else (false, s')

  -- `save_outbound`
  unfoldable pub save_outbound : Bool → ℕ → Text → P → FileStore P → Bool × FileStore P
  save_outbound ok id path payload s =
      let (saved, s') = write ok path payload s in
      if saved
      then (
        true,
        record s' {
          out_index =
              sort_by entry_id (keep (λ e. not (entry_id e == id)) s'.out_index ++ (id, path) ∷ []);
        },
      )
      else (false, s')

  abbrev cons_read : Option P → List P → List P
  cons_read none rest = rest
  cons_read (some p) rest = p ∷ rest

  -- The files that can be read.
  unfoldable pub read_all : List (Text × P) → List (ℕ × Text) → List P
  read_all files [] = []
  read_all files ((_, path) ∷ entries) = cons_read (lookup path files) (read_all files entries)

  -- The entries that `replay_after` reads.
  unfoldable pub replay_entries : ℕ → ℕ → FileStore P → List (ℕ × Text)
  replay_entries after before s =
      take_last max_replay (keep (is_between after before) s.inbox_index)

  unfoldable pub replay_after : ℕ → ℕ → FileStore P → List P
  replay_after after before s = read_all s.files (replay_entries after before s)

  -- `history`
  unfoldable pub history : Bool → Option ℤ → ℤ → FileStore P → List P
  history inbox before limit s =
      let index = if inbox then s.inbox_index else s.out_index in
      read_all s.files (newest_first (take_last (page limit) (keep (is_before before) index)))
