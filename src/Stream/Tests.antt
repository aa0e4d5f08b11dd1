-- ===== src/Stream/Tests.antt =====
-- Concrete streams: a message, a heartbeat, a gap, and a write that breaks.
use generic_text_gateway.Common.{
  all, nat_eq, Text, codes, text_eq, starts_with, is_ascii_digit, ℕ, zero, suc, ◌≡◌, refl, Bool,
  true, false, List, [], ◌∷◌, ◌++◌,
}
use generic_text_gateway.Hub.Queue.{message, gap, health}
use generic_text_gateway.Stream.{
  Turn, Format, serve_stream, start_reader, read_lines, sse_events, heartbeat, next,
}
use generic_text_gateway.Stream.Reading.{is_inline, IsPlain}
use generic_text_gateway.Stream.Delivery.{
  written, broken, reads, confirmed, serve_stream-sse_events,
}

-- Numbers in ones, bodies that are constant.
abbrev ones : ℕ → Text
ones zero = 49 ∷ []
ones (suc n) = 49 ∷ ones n

abbrev plain : Format ℕ ℕ
plain = record { str = ones; message_json = λ m. codes "{}"; health_json = λ h. codes "{\"a\": 1}" }

ones-digits : (n : ℕ) → all is_ascii_digit (ones n) ≡ true
unfolding is_ascii_digit
ones-digits zero = refl
ones-digits (suc n) = ones-digits n

plain-IsPlain : IsPlain plain
unfolding is_inline starts_with
plain-IsPlain = record {
  str_digits = ones-digits;
  message_inline = λ m. refl;
  message_brace = λ m. refl;
  health_inline = λ h. refl;
  health_brace = λ h. refl;
}

abbrev turns : List (Turn ℕ ℕ × (Bool × Text))
turns =
    (next (message (record { id = 2; body = 5 })), (true, []))
    ∷ (heartbeat, (true, []))
    ∷ (next gap, (true, []))
    ∷ (next (health 1), (false, codes "event: he"))
    ∷ []

turns_confirmed : (serve_stream plain turns).1 ≡ 2 ∷ []
unfolding serve_stream
turns_confirmed = refl

serve_stream-sse_events_example :
    sse_events start_reader (read_lines (serve_stream plain turns).0)
      ≡ reads plain (written turns) ++ sse_events start_reader (read_lines (broken turns))
    × (serve_stream plain turns).1 ≡ confirmed plain (written turns)
serve_stream-sse_events_example = serve_stream-sse_events plain turns plain-IsPlain
