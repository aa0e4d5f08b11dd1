-- ===== src/Hub/Queue.antt =====
-- `Subscriber` of server/gtg_server/hub.py: the bounded queue of one stream. `M` is the type of
-- messages, `H` that of health snapshots.
use generic_text_gateway.Common.{
  ltb, leb, if◌then◌else◌, length, drop, nat_eq, text_eq, ℕ, Bool, true, false, ◌&&◌, Option, none,
  some, List, [], ◌∷◌, ◌++◌,
}

-- A message under the id that the hub gave it.
pub record Published (M : Type 0) : Type 0 where
  pub id : ℕ
  pub body : M

pub data Event (M H : Type 0) : Type 0 where
  message : Published M → Event M H
  gap : Event M H
  health : H → Event M H

pub record Subscriber (M H : Type 0) : Type 0 where
  pub maxsize : ℕ
  pub queue : List (Event M H)
  pub gapped : Bool

module _ {M H : Type 0} where
  -- `queue.Queue.full`: a size of zero is no bound.
  unfoldable pub is_full : Subscriber M H → Bool
  is_full s = ltb 0 s.maxsize && leb s.maxsize (length s.queue)

  -- `put_nowait`; `none` is `queue.Full`.
  unfoldable pub put_nowait : Subscriber M H → Event M H → Option (Subscriber M H)
  unfolding is_full
  put_nowait s event = if is_full s then none else some (record s { queue = s.queue ++ event ∷ [] })

  -- `get_nowait` with its result dropped; an empty queue is passed over
  unfoldable pub drop_oldest : Subscriber M H → Subscriber M H
  drop_oldest s = record s { queue = drop 1 s.queue }

  abbrev put_or_pass : Subscriber M H → Option (Subscriber M H) → Subscriber M H
  put_or_pass s none = s
  put_or_pass s (some s') = s'

  -- The `except queue.Full` of `offer`.
  unfoldable pub on_full : Subscriber M H → Subscriber M H
  unfolding put_nowait drop_oldest
  on_full s =
      if s.gapped
      then s
      else let s' = drop_oldest (record s { gapped = true }) in put_or_pass s' (put_nowait s' gap)

  unfoldable pub offer : Subscriber M H → Event M H → Subscriber M H × Bool
  unfolding put_nowait on_full
  offer s event = elim (put_nowait s event) [ some s' ↦ (s', true) | none ↦ (on_full s, false) ]
