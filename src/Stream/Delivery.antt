-- ===== src/Stream/Delivery.antt =====
-- From the queue of a subscriber to the client's reader.
use generic_text_gateway.Common.{
  nat_eq, Text, codes, text_eq, starts_with, is_space, lstrip, rstrip, strip, ℕ, ◌≡◌, refl, sym, ap,
  ◌∙◌, Bool, true, false, none, some, List, [], ◌∷◌, ◌++◌, append_assoc,
}
use generic_text_gateway.Hub.Queue.{message, gap, health}
use generic_text_gateway.Stream.{
  newline, Turn, Format, gap_json, turn_chunk, confirmed_by, serve_stream, SseEvent, Reader,
  start_reader, read_lines, sse_events, heartbeat, next,
}
use generic_text_gateway.Stream.Reading.{
  is_inline, IsPlain, step_line, step_blank, read_chunk, comment_line, dispatch_none,
}

-- The turns whose write came through, up to the first that did not.
unfoldable pub written : {M H : Type 0} → List (Turn M H × (Bool × Text)) → List (Turn M H)
written [] = []
written ((turn, (false, part)) ∷ turns) = []
written ((turn, (true, _)) ∷ turns) = turn ∷ written turns

-- What came through of the write that broke.
unfoldable pub broken : {M H : Type 0} → List (Turn M H × (Bool × Text)) → Text
broken [] = []
broken ((turn, (false, part)) ∷ turns) = part
broken ((turn, (true, _)) ∷ turns) = broken turns

module _ {M H : Type 0} (f : Format M H) where
  -- What the client is meant to read of a turn.
  abbrev pub read_of : Turn M H → List SseEvent
  read_of heartbeat = []
  read_of (next (message m)) =
      record { event = codes "message"; payload = f.message_json m; id = some (f.str m.id) } ∷ []
  read_of (next gap) = record { event = codes "gap"; payload = gap_json f; id = none } ∷ []
  read_of (next (health h)) =
      record { event = codes "health"; payload = f.health_json h; id = none } ∷ []

  unfoldable pub reads : List (Turn M H) → List SseEvent
  reads [] = []
  reads (t ∷ ts) = read_of t ++ reads ts

  -- The text of whole turns.
  unfoldable pub texts : List (Turn M H) → Text
  texts [] = []
  texts (t ∷ ts) = turn_chunk f t ++ texts ts

  unfoldable pub confirmed : List (Turn M H) → List ℕ
  confirmed [] = []
  confirmed (t ∷ ts) = confirmed_by f t ++ confirmed ts

  read_turn :
      (turn : Turn M H) (rest : Text)
      → IsPlain f
      → sse_events start_reader (read_lines (turn_chunk f turn ++ rest))
        ≡ read_of turn ++ sse_events start_reader (read_lines rest)
  unfolding turn_chunk is_inline strip lstrip rstrip is_space starts_with
  read_turn heartbeat rest p =
      step_line (codes ": hb") (newline ∷ rest) start_reader refl refl
      ∙ ap (λ (x : Reader). sse_events x (read_lines (newline ∷ rest))) comment_line
      ∙ step_blank rest start_reader
      ∙ ap (λ es. es ++ sse_events start_reader (read_lines rest)) dispatch_none
  read_turn (next (message m)) rest p =
      read_chunk (codes "message") (some (f.str m.id)) (f.message_json m) rest refl refl refl
        (p.str_digits m.id) (p.message_inline m) (p.message_brace m)
  read_turn (next gap) rest p =
      read_chunk (codes "gap") none (gap_json f) rest refl refl refl tt refl refl
  read_turn (next (health h)) rest p =
      read_chunk (codes "health") none (f.health_json h) rest refl refl refl tt (p.health_inline h)
        (p.health_brace h)

  -- What the client reads when each write came through, whatever follows.
  read_turns :
      (turns : List (Turn M H)) (rest : Text)
      → IsPlain f
      → sse_events start_reader (read_lines (texts turns ++ rest))
        ≡ reads turns ++ sse_events start_reader (read_lines rest)
  unfolding texts reads
  read_turns [] rest p = refl
  read_turns (t ∷ ts) rest p =
      rw
        (
          append_assoc (turn_chunk f t) (texts ts) rest,
          read_turn t (texts ts ++ rest) p,
          read_turns ts rest p,
        )
        (sym (append_assoc (read_of t) (reads ts) (sse_events start_reader (read_lines rest))))

  serve_stream-text :
      (turns : List (Turn M H × (Bool × Text)))
      → (serve_stream f turns).0 ≡ texts (written turns) ++ broken turns
  unfolding serve_stream texts written broken
  serve_stream-text [] = refl
  serve_stream-text ((t, (false, part)) ∷ turns) = refl
  serve_stream-text ((t, (true, part)) ∷ turns) =
      rw (serve_stream-text turns)
        (sym (append_assoc (turn_chunk f t) (texts (written turns)) (broken turns)))

  serve_stream-confirmed :
      (turns : List (Turn M H × (Bool × Text)))
      → (serve_stream f turns).1 ≡ confirmed (written turns)
  unfolding serve_stream confirmed written
  serve_stream-confirmed [] = refl
  serve_stream-confirmed ((t, (false, part)) ∷ turns) = refl
  serve_stream-confirmed ((t, (true, part)) ∷ turns) = rw (serve_stream-confirmed turns) refl

  -- Where numbers are written in digits and the JSON texts are lines that begin with a brace: whatever the
  -- turns of a stream are and whichever write breaks, what the client's reader yields begins with exactly the
  -- events of the turns that came through, heartbeats leaving no trace, each with its name, its data and its
  -- id; the rest is what it makes of the broken part alone. The ids that were confirmed are those of the
  -- messages among these turns, so each confirmed message has been read.
  pub serve_stream-sse_events :
      (turns : List (Turn M H × (Bool × Text)))
      → IsPlain f
      → sse_events start_reader (read_lines (serve_stream f turns).0)
          ≡ reads (written turns) ++ sse_events start_reader (read_lines (broken turns))
        × (serve_stream f turns).1 ≡ confirmed (written turns)
  serve_stream-sse_events turns p = (
    rw (serve_stream-text turns) (read_turns (written turns) (broken turns) p),
    serve_stream-confirmed turns,
  )
