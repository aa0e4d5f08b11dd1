-- ===== src/Receive.antt =====
-- Inbound messages: server/gtg_server/modem/receive.py. Python's `int` is an argument of the parsers,
-- the clock of the assembler, in whole seconds.
pub mod Complete
mod Tests
use generic_text_gateway.Common.{
  ◌>>=◌, ◌>>◌, sort_by, ℤ, ltb, ◌==◌, if◌then◌else◌, ==_iff, length, concat, keep, Keyed, nat_eq,
  lookup, insert, remove, Text, codes, text_beq, text_beq_iff, text_eq, starts_with, strip, ℕ, ◌+◌,
  ◌-◌, ◌≡◌, ◌↔◌, Bool, true, false, not, ◌&&◌, Option, none, some, List, [], ◌∷◌, map, arith,
}
use generic_text_gateway.Codec.Deliver.{Concat, Message}

-- `split(",")` for one separator
unfoldable pub split_at : ℕ → Text → List Text
split_at sep [] = [] ∷ []
split_at sep (c ∷ s) = cons_field (c == sep) c (split_at sep s)
  where
    cons_field : Bool → ℕ → List Text → List Text
    cons_field true c fields = [] ∷ fields
    cons_field false c [] = (c ∷ []) ∷ []
    cons_field false c (field ∷ fields) = (c ∷ field) ∷ fields

-- `line.split(":", 1)[1]` of a line that has a colon
unfoldable pub behind_colon : Text → Text
behind_colon [] = []
behind_colon (c ∷ s) = if c == 58 then s else behind_colon s

abbrev first_field : List Text → Text
first_field [] = []
first_field (field ∷ fields) = field

abbrev cmgl_index : (Text → Option ℤ) → Text → Option ℤ
cmgl_index int line = int (strip (first_field (split_at 44 (behind_colon line))))

-- `parse_cmgl_pdu`: the index of the last header that no PDU has followed, and the lines to come.
unfoldable pub cmgl_loop : (Text → Option ℤ) → Option ℤ → List Text → List (ℤ × Text)
cmgl_loop int idx [] = []
cmgl_loop int idx (line ∷ lines) =
    if starts_with line (codes "+CMGL:")
    then cmgl_loop int (cmgl_index int line) lines
    else with_index idx (strip line) (cmgl_loop int none lines)
  where
    with_index : Option ℤ → Text → List (ℤ × Text) → List (ℤ × Text)
    with_index none pdu rest = rest
    with_index (some i) pdu rest = (i, pdu) ∷ rest

unfoldable pub parse_cmgl_pdu : (Text → Option ℤ) → List Text → List (ℤ × Text)
parse_cmgl_pdu int lines = cmgl_loop int none lines

unfoldable pub cmgr_loop : Bool → List Text → Option Text
cmgr_loop grab [] = none
cmgr_loop grab (line ∷ lines) =
    if starts_with line (codes "+CMGR:")
    then cmgr_loop true lines
    else if grab
    then some (strip line)
    else cmgr_loop grab lines

unfoldable pub parse_cmgr_pdu : List Text → Option Text
parse_cmgr_pdu lines = cmgr_loop false lines

-- `strip('"')`
abbrev is_quote : ℕ → Bool
is_quote c = c == 34

unfoldable pub lstrip_quotes : Text → Text
lstrip_quotes [] = []
lstrip_quotes (c ∷ s) = if is_quote c then lstrip_quotes s else c ∷ s

unfoldable pub rstrip_quotes : Text → Text
rstrip_quotes [] = []
rstrip_quotes (c ∷ s) = let rest = rstrip_quotes s in keep_quote c rest
  where
    keep_quote : ℕ → Text → Text
    keep_quote c [] = if is_quote c then [] else c ∷ []
    keep_quote c (d ∷ rest) = c ∷ d ∷ rest

abbrev cmti_fields : (Text → Option ℤ) → List Text → Option (Text × ℤ)
cmti_fields int [] = none
cmti_fields int (storage ∷ []) = none
cmti_fields int (storage ∷ index ∷ rest) = do
  i ← int (strip index)
  some (rstrip_quotes (lstrip_quotes (strip storage)), i)

unfoldable pub parse_cmti : (Text → Option ℤ) → Text → Option (Text × ℤ)
parse_cmti int line =
    if starts_with line (codes "+CMTI:")
    then cmti_fields int (split_at 44 (behind_colon line))
    else none

-- The parts of one message: the sender, the reference and the number of parts.
pub record PartKey : Type 0 where
  pub sender : Text
  pub ref : ℕ
  pub parts : ℕ

abbrev pub key_beq : PartKey → PartKey → Bool
key_beq a b = text_beq a.sender b.sender && a.ref == b.ref && a.parts == b.parts

pub key_beq_iff : (a b : PartKey) → (key_beq a b ≡ true) ↔ (a ≡ b)
key_beq_iff a b =
    ground (arith, text_beq_iff a.sender b.sender, ==_iff a.ref b.ref, ==_iff a.parts b.parts)

instance abbrev pub key_eq : Keyed PartKey
key_eq = record { same = key_beq; same_iff = key_beq_iff }

-- A part with the index of its place in the modem, if it has one.
abbrev pub Part : Type 0
Part = Message × Option ℕ

pub record Slot : Type 0 where
  pub since : ℕ
  pub parts : List (ℕ × Part)

pub record Assembler : Type 0 where
  pub stale_after : ℕ
  pub slots : List (PartKey × Slot)

-- A message as it is published.
pub record Inbound : Type 0 where
  pub sender : Text
  pub text : Text
  pub scts : Text
  pub partial : Bool

abbrev pub indices_of : List (ℕ × Part) → List ℕ
indices_of [] = []
indices_of ((_, (_, none)) ∷ parts) = indices_of parts
indices_of ((_, (_, some i)) ∷ parts) = i ∷ indices_of parts

abbrev pub seq_of : ℕ × Part → ℕ
seq_of p = p.0

abbrev pub text_of : ℕ × Part → Text
text_of p = p.1.0.text

-- The message of parts in order; a slot has at least one.
abbrev pub joined : Bool → List (ℕ × Part) → Option (Inbound × List ℕ)
joined partial [] = none
joined partial (p ∷ ps) = some (
  record {
    sender = p.1.0.sender;
    text = concat (map text_of (p ∷ ps));
    scts = p.1.0.scts;
    partial = partial;
  },
  indices_of (p ∷ ps),
)

unfoldable pub assemble : Bool → Slot → Option (Inbound × List ℕ)
assemble partial slot = joined partial (sort_by seq_of slot.parts)

abbrev single_indices : Option ℕ → List ℕ
single_indices none = []
single_indices (some i) = i ∷ []

-- `setdefault`
abbrev pub slot_or_new : ℕ → Option Slot → Slot
slot_or_new now none = record { since = now; parts = [] }
slot_or_new now (some slot) = slot

-- A part of several: the slot with it, which is given out if it is full.
unfoldable pub add_part :
    ℕ → Message → Option ℕ → Concat → Assembler → Option (Inbound × List ℕ) × Assembler
add_part now decoded index c a =
    let key : PartKey = record { sender = decoded.sender; ref = c.ref; parts = c.parts } in
    let slot = slot_or_new now (lookup key a.slots) in
    let slot' = record slot { parts = insert c.seq (decoded, index) slot.parts } in
    if length slot'.parts == c.parts
    then (assemble false slot', record a { slots = remove key a.slots })
    else (none, record a { slots = insert key slot' a.slots })

abbrev pub add_of :
    ℕ → Message → Option ℕ → Option Concat → Assembler → Option (Inbound × List ℕ) × Assembler
add_of now decoded index none a = (
  some (
    record { sender = decoded.sender; text = decoded.text; scts = decoded.scts; partial = false },
    single_indices index,
  ),
  a,
)
add_of now decoded index (some c) a = add_part now decoded index c a

-- `add`
unfoldable pub add : ℕ → Message → Option ℕ → Assembler → Option (Inbound × List ℕ) × Assembler
add now decoded index a = add_of now decoded index decoded.concat a

abbrev is_stale : ℕ → ℕ → PartKey × Slot → Bool
is_stale now stale_after e = ltb stale_after (now - e.1.since)

abbrev flushed : List (PartKey × Slot) → List (Inbound × List ℕ)
flushed [] = []
flushed ((_, slot) ∷ slots) = cons_some (assemble true slot) (flushed slots)
  where
    cons_some : Option (Inbound × List ℕ) → List (Inbound × List ℕ) → List (Inbound × List ℕ)
    cons_some none rest = rest
    cons_some (some m) rest = m ∷ rest

-- `flush_stale`
unfoldable pub flush_stale : ℕ → Assembler → List (Inbound × List ℕ) × Assembler
flush_stale now a = (
  flushed (keep (is_stale now a.stale_after) a.slots),
  record a { slots = keep (λ e. not (is_stale now a.stale_after e)) a.slots },
)
