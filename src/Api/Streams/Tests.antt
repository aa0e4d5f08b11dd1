-- ===== src/Api/Streams/Tests.antt =====
-- One stream that is counted, attached, and ends.
use generic_text_gateway.Common.{
  ℤ, nat_eq, entries, Text, codes, text_eq, ℕ, ◌≡◌, refl, Option, none, some, [], ◌∷◌, arith,
}
use generic_text_gateway.Hub.{StoreOps, Hub}
use generic_text_gateway.Api.{Request}
use generic_text_gateway.Api.Streams.{reserve, attach}
use generic_text_gateway.Api.Streams.Live.{
  World, holders, IsCounted, Reached, here, then_step, enter, start, Reached-IsCounted,
}

abbrev no_store : StoreOps ℕ ℕ
no_store = record { save_inbound = λ s m n. (some tt, s); replay_after = λ s a b. [] }

abbrev hub : Hub ℕ ℕ ℕ
hub = record {
  ring_size = 2;
  ring = [];
  subs = [];
  next_sub = 0;
  store = none;
  pending = [];
  stream_id = codes "s";
  next_id = 1;
}

abbrev start_world : World ℕ ℕ ℕ
start_world = record { hub = hub; count = 0; live = [] }

abbrev int : Text → Option ℤ
int s = none

abbrev q : Request
q = record {
  client_ip = codes "::1";
  path = codes "/v1/subscribe";
  authorization = none;
  content_type = none;
  content_length = none;
  last_event_id = none;
  x_stream_id = none;
  rfile = [];
}

start_world-IsCounted : IsCounted no_store int 2 start_world
unfolding entries holders
start_world-IsCounted = record {
  counted = refl;
  limited = omega arith;
  held = λ k. refl;
  once = λ k. omega arith;
  fresh = λ k h. refl;
}

reserved : reserve 2 0 ≡ some 1
unfolding reserve
reserved = refl

abbrev attached : World ℕ ℕ ℕ
attached = record {
  hub = (attach no_store int q hub).1;
  count = 1;
  live = some (attach no_store int q hub).0 ∷ [];
}

run : Reached no_store int 2 start_world attached
run = then_step (then_step here (enter start_world 1 reserved)) (start hub 1 [] [] q)

Reached-IsCounted_example : IsCounted no_store int 2 attached
Reached-IsCounted_example = Reached-IsCounted no_store int 2 run start_world-IsCounted
