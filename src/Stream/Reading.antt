-- ===== src/Stream/Reading.antt =====
-- What the client reads of one chunk that the server wrote, whatever follows.
use generic_text_gateway.Common.{
  ◌==◌, all, All, nat_eq, Text, codes, text_eq, starts_with, is_space, lstrip, strip,
  is_ascii_digit, strip-no_space, ascii_digit_not_space, ℕ, ◌≡◌, refl, ap, ◌∙◌, Bool, true, false,
  not, ◌&&◌, Option, none, some, [], ◌∷◌, ◌++◌, append_assoc, arith,
}
use generic_text_gateway.Hub.Queue.{Published}
use generic_text_gateway.Stream.{
  newline, carriage_return, id_line, sse_chunk, Format, Reader, start_reader, read_lines,
  rstrip_ends, join_lines, dispatch, field_line, is_blank, sse_events,
}

-- A character that ends no line.
unfoldable pub is_inline : ℕ → Bool
is_inline c = not (c == newline) && not (c == carriage_return)

-- What the documentation says of `str` of a number and of `json.dumps` of a dict: digits, and a text on one
-- line from a brace on.
pub record IsPlain {M H : Type 0} (f : Format M H) : Type 0 where
  pub str_digits : (n : ℕ) → all is_ascii_digit (f.str n) ≡ true
  pub message_inline : (m : Published M) → all is_inline (f.message_json m) ≡ true
  pub message_brace : (m : Published M) → starts_with (f.message_json m) (codes "{") ≡ true
  pub health_inline : (h : H) → all is_inline (f.health_json h) ≡ true
  pub health_brace : (h : H) → starts_with (f.health_json h) (codes "{") ≡ true

read_lines-line :
    (l rest : Text)
    → all is_inline l ≡ true
    → read_lines (l ++ newline ∷ rest) ≡ l ∷ read_lines rest
unfolding read_lines is_inline
read_lines-line [] rest h = refl
read_lines-line (c ∷ l) rest h =
    let e : (c == newline) ≡ false = ground (arith, h) in
    rw (e, read_lines, read_lines-line l rest (ground (arith, h))) refl

rstrip_ends-inline : (l : Text) → all is_inline l ≡ true → rstrip_ends l ≡ l
unfolding rstrip_ends is_inline
rstrip_ends-inline [] h = refl
rstrip_ends-inline (c ∷ []) h = ground (arith, h)
rstrip_ends-inline (c ∷ d ∷ l) h = rw (rstrip_ends-inline (d ∷ l) (ground (arith, h))) refl

digit-inline : (s : Text) → all is_ascii_digit s ≡ true → all is_inline s ≡ true
unfolding is_inline is_ascii_digit
digit-inline [] h = refl
digit-inline (c ∷ s) h = ground (arith, h, digit-inline s)

digits-no_space : (s : Text) → all is_ascii_digit s ≡ true → All (λ c. is_space c ≡ false) s
digits-no_space [] h = tt
digits-no_space (c ∷ s) h =
    (ascii_digit_not_space c (ground (arith, h)), digits-no_space s (ground (arith, h)))

-- A line of a field: one step of the reader.
pub step_line :
    (line rest : Text) (r : Reader)
    → all is_inline line ≡ true
    → is_blank line ≡ false
    → sse_events r (read_lines (line ++ newline ∷ rest))
      ≡ sse_events (field_line line r) (read_lines rest)
unfolding sse_events
step_line line rest r h b =
    rw (read_lines-line line rest h, rstrip_ends-inline line h, b, sse_events)
      (rw (rstrip_ends-inline line h) refl)

-- An empty line.
pub step_blank :
    (rest : Text) (r : Reader)
    → sse_events r (read_lines (newline ∷ rest))
      ≡ dispatch r ++ sse_events start_reader (read_lines rest)
unfolding sse_events read_lines rstrip_ends
step_blank rest r = refl

strip-digits : (s : Text) → all is_ascii_digit s ≡ true → strip (32 ∷ s) ≡ s
unfolding strip lstrip is_space
strip-digits s h = strip-no_space s (digits-no_space s h)

lstrip-brace : (s : Text) → starts_with s (codes "{") ≡ true → lstrip (32 ∷ s) ≡ s
unfolding lstrip starts_with is_space
lstrip-brace [] h = absurd (ground (arith, h))
lstrip-brace (c ∷ s) h = ground (arith, h)

all-append :
    (xs ys : Text)
    → all is_inline xs ≡ true
    → all is_inline ys ≡ true
    → all is_inline (xs ++ ys) ≡ true
all-append [] ys p q = q
all-append (x ∷ xs) ys p q = ground (arith, p, all-append xs ys, q)

-- The fields that a chunk's lines set.
event_field :
    (event : Text) (r : Reader)
    → strip (32 ∷ event) ≡ event
    → field_line (codes "event: " ++ event) r ≡ record r { event = some event }
unfolding field_line starts_with
event_field event r h = rw h refl

id_field :
    (id : Text) (r : Reader)
    → all is_ascii_digit id ≡ true
    → field_line (codes "id: " ++ id) r ≡ record r { id = some id }
unfolding field_line starts_with
id_field id r h = rw (strip-digits id h) refl

data_field :
    (json : Text) (r : Reader)
    → starts_with json (codes "{") ≡ true
    → field_line (codes "data: " ++ json) r ≡ record r { lines = r.lines ++ json ∷ [] }
unfolding field_line starts_with
data_field json r h = rw (lstrip-brace json h) refl

id-inline : (id : Text) → all is_ascii_digit id ≡ true → all is_inline (codes "id: " ++ id) ≡ true
unfolding is_inline
id-inline id h = all-append (codes "id: ") id refl (digit-inline id h)

event-inline :
    (event : Text) → all is_inline event ≡ true → all is_inline (codes "event: " ++ event) ≡ true
unfolding is_inline
event-inline event h = all-append (codes "event: ") event refl h

data-inline :
    (json : Text) → all is_inline json ≡ true → all is_inline (codes "data: " ++ json) ≡ true
unfolding is_inline
data-inline json h = all-append (codes "data: ") json refl h

abbrev pub IsId : Option Text → Type 0
IsId none = Unit
IsId (some id) = all is_ascii_digit id ≡ true

-- The id's line, if there is one.
read_id :
    (id : Option Text) (rest : Text) (r : Reader)
    → r.id ≡ none
    → IsId id
    → sse_events r (read_lines (id_line id ++ rest))
      ≡ sse_events (record r { id = id }) (read_lines rest)
read_id none rest r e h = rw (← e) refl
read_id (some id) rest r e h = rw (append_assoc id (newline ∷ []) rest) (
    step_line (codes "id: " ++ id) rest r (id-inline id h) refl
    ∙ ap (λ (x : Reader). sse_events x (read_lines rest)) (id_field id r h))

-- The empty line behind a chunk.
dispatch_full :
    (event json : Text) (id : Option Text)
    → is_blank event ≡ false
    → dispatch (record { event = some event; lines = json ∷ []; id = id })
      ≡ record { event = event; payload = json; id = id } ∷ []
unfolding dispatch join_lines
dispatch_full [] json id h = absurd (ground (arith, h))
dispatch_full (c ∷ event) json id h = refl

-- A chunk is read as the event that it was written for.
pub read_chunk :
    (event : Text) (id : Option Text) (json rest : Text)
    → all is_inline event ≡ true
    → strip (32 ∷ event) ≡ event
    → is_blank event ≡ false
    → IsId id
    → all is_inline json ≡ true
    → starts_with json (codes "{") ≡ true
    → sse_events start_reader (read_lines (sse_chunk event id json ++ rest))
      ≡ record { event = event; payload = json; id = id }
        ∷ sse_events start_reader (read_lines rest)
unfolding sse_chunk
read_chunk event id json rest he hs hb hi hj hp =
    let tail = newline ∷ newline ∷ [] in
    let payload = codes "data: " ++ (json ++ tail) in
    let named : Reader = record start_reader { event = some event } in
    let known : Reader = record named { id = id } in
    let behind = codes "data: " ++ (json ++ (newline ∷ newline ∷ rest)) in
    rw
      (
        append_assoc event (newline ∷ (id_line id ++ payload)) rest,
        append_assoc (id_line id) payload rest,
        append_assoc json tail rest,
      )
      (step_line (codes "event: " ++ event) (id_line id ++ behind) start_reader
          (event-inline event he) refl
        ∙ ap (λ (x : Reader). sse_events x (read_lines (id_line id ++ behind)))
            (event_field event start_reader hs)
        ∙ read_id id behind named refl hi
        ∙ step_line (codes "data: " ++ json) (newline ∷ rest) known (data-inline json hj) refl
        ∙ ap (λ (x : Reader). sse_events x (read_lines (newline ∷ rest))) (data_field json known hp)
        ∙ step_blank rest (record known { lines = json ∷ [] })
        ∙ ap (λ es. es ++ sse_events start_reader (read_lines rest))
            (dispatch_full event json id hb))

pub comment_line : field_line (codes ": hb") start_reader ≡ start_reader
unfolding field_line starts_with
comment_line = refl

pub dispatch_none : dispatch start_reader ≡ []
unfolding dispatch
dispatch_none = refl
