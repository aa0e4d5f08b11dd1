-- ===== src/Api/Streams.antt =====
-- The streams of `_subscribe`, server/gtg_server/api.py: how many there are, where each begins, and that each
-- gives back what it took.
pub mod Subscribers
pub mod Live
mod Tests
use generic_text_gateway.Common.{
  ℤ, leb, if◌then◌else◌, nat_eq, lookup, Text, codes, text_eq, ℕ, ◌+◌, ◌-◌, Option, none, some, [],
  ◌∷◌, arith,
}
use generic_text_gateway.Hub.{StoreOps, Hub, unsubscribe, subscribe}
use generic_text_gateway.Api.{Request}
use generic_text_gateway.Api.Messages.{query}

-- `header or param`, where the empty text is none.
abbrev pub or_param : Option Text → Option Text → Option Text
or_param none p = p
or_param (some []) p = p
or_param (some (c ∷ s)) p = some (c ∷ s)

-- `int(raw)`, none where it raises.
abbrev pub after_of : (Text → Option ℤ) → Option Text → Option ℤ
after_of int none = none
after_of int (some raw) = int raw

-- The cursor of a request: the last id that was seen, and the stream that it is of.
unfoldable pub cursor_of : (Text → Option ℤ) → Request → Option ℤ × Option Text
cursor_of int q =
    let params = query q.path in
    (
      after_of int (or_param q.last_event_id (lookup (codes "after") params)),
      or_param q.x_stream_id (or_param (lookup (codes "stream") params) none),
    )

-- The count that `sub_lock` covers; `none` is `503`.
unfoldable pub reserve : ℕ → ℕ → Option ℕ
reserve max_subscribers count = if leb max_subscribers count then none else some (count + 1)

module _ {S M H : Type 0} (ops : StoreOps S M) where
  -- What the hub is asked for a request.
  unfoldable pub attach : (Text → Option ℤ) → Request → Hub S M H → ℕ × Hub S M H
  attach int q hub = let (after, stream) = cursor_of int q in subscribe ops hub after stream

-- The `finally` of `_subscribe`; `none` is that it was never attached.
unfoldable pub release : {S M H : Type 0} → Option ℕ → ℕ × Hub S M H → ℕ × Hub S M H
release none (count, hub) = (count - 1, hub)
release (some k) (count, hub) = (count - 1, unsubscribe hub k)
