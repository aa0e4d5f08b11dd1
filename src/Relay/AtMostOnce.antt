-- ===== src/Relay/AtMostOnce.antt =====
-- The journals follow the logs of all marks through every step of the client.
use generic_text_gateway.Common.{
  Bool-cases, take_last, length-append, take_last_idem, nat_eq, Text, text_eq, member, ℕ, ◌+◌, ◌≡◌,
  refl, inl, inr, Bool, true, false, Option, none, some, List, [], ◌∷◌, ◌++◌, arith,
}
use generic_text_gateway.Relay.{
  Client, stored, save, same_stream, on_hello, seen, journaled, mark, advance, Fire, Outcome,
  posting, fire_and_advance, handle_message, handle_event, Step, step, run, fresh, fired, ambiguous,
  raised, stopped, hello, gap, health, unknown, incoming_message, handle, restart,
}
use generic_text_gateway.Relay.History.{start, marked_fired}
use generic_text_gateway.Relay.Journal.{
  Follows, moved, save-Follows, restart-Follows, seen-absent, journaled_window, journaled-Follows,
}

-- With one step more to come.
weaken : {n : ℕ} (c : Client) → Follows n c → Follows (n + 1) c
weaken c f = record {
  log = f.log;
  disk_log = f.disk_log;
  history = f.history;
  disk_history = f.disk_history;
  journal = f.journal;
  disk_journal = f.disk_journal;
  hashes = f.hashes;
  few = omega (arith, f.few);
  disk_few = omega (arith, f.disk_few);
}

abbrev pub on_disk : Text → Client → Client
on_disk h c = record {
  state = journaled h c.state;
  disk = some (stored (journaled h c.state));
  posted = c.posted;
}

-- A message that was marked on disk, and may then be fired.
on_disk-Follows :
    {n : ℕ} (h : Text) (c : Client)
    → seen h c.state ≡ false
    → Follows n c
    → Follows (n + 1) (on_disk h c) × Follows (n + 1) (posting h (on_disk h c))
on_disk-Follows h c new f =
    let g = journaled-Follows h c new f in
    let absent : member h (take_last 500 f.log) ≡ false = seen-absent h c new f in
    (
      record {
        log = g.log;
        disk_log = g.log;
        history = g.history;
        disk_history = g.history;
        journal = g.journal;
        disk_journal = rw g.journal (take_last_idem 500 g.log);
        hashes = g.hashes;
        few = g.few;
        disk_few = g.few;
      },
      record {
        log = f.log ++ h ∷ [];
        disk_log = f.log ++ h ∷ [];
        history = marked_fired h f.history absent;
        disk_history = marked_fired h f.history absent;
        journal = journaled_window h c f;
        disk_journal = rw (journaled_window h c f) (take_last_idem 500 (f.log ++ h ∷ []));
        hashes = g.hashes;
        few = omega (arith, length-append f.log (h ∷ []), f.few);
        disk_few = omega (arith, length-append f.log (h ∷ []), f.few);
      },
    )

advance-Follows :
    {n : ℕ} (ok : Bool) (id : Option ℕ) (c : Client) → Follows n c → Follows n (advance ok id c).1
unfolding advance
advance-Follows ok id c f =
    save-Follows ok (record c { state = record c.state { last_id = id } })
      (moved c c.state.stream_id id f)

fire_and_advance-Follows :
    {n : ℕ} (fire : Fire) (ok : Bool) (id : Option ℕ) (h : Text) (c : Client)
    → Follows n c
    → Follows n (posting h c)
    → Follows n (fire_and_advance fire ok id h c).1
unfolding fire_and_advance
fire_and_advance-Follows fired ok id h c f g = advance-Follows ok id (posting h c) g
fire_and_advance-Follows ambiguous ok id h c f g = advance-Follows ok id (posting h c) g
fire_and_advance-Follows raised ok id h c f g = g
fire_and_advance-Follows stopped ok id h c f g = f

pub mark_new :
    (ok : Bool) (h : Text) (c : Client)
    → seen h c.state ≡ false
    → mark ok h c ≡ save ok (record c { state = journaled h c.state })
unfolding mark
mark_new ok h c new = rw new refl

pub save_written : (c : Client) → save true c ≡ (true, record c { disk = some (stored c.state) })
unfolding save
save_written c = refl

pub save_broken : (c : Client) → save false c ≡ (false, c)
unfolding save
save_broken c = refl

pub handle_message-Follows :
    {n : ℕ} (o : Outcome) (id : Option ℕ) (h : Text) (c : Client)
    → Follows n c
    → Follows (n + 1) (handle_message o id h c).1
unfolding handle_message
handle_message-Follows o id h c f =
    let c' : Client = record c { state = journaled h c.state } in
    elim (Bool-cases (seen h c.state)) [
      | inl old ↦
          rw (old, handle_message)
            (weaken (advance o.last_write id c).1 (advance-Follows o.last_write id c f))
      | inr new ↦ elim (Bool-cases o.first_write) [
        | inl written ↦
            let (marked_only, posted) = on_disk-Follows h c new f in
            rw (new, handle_message, mark_new o.first_write h c new, written, save_written c')
              (fire_and_advance-Follows o.fire o.last_write id h (on_disk h c) marked_only posted)
        | inr broken ↦
            rw (new, handle_message, mark_new o.first_write h c new, broken, save_broken c')
              (journaled-Follows h c new f)
      ]
    ]

pub on_hello-Follows :
    {n : ℕ} (ok : Bool) (stream : Option Text) (c : Client)
    → Follows n c
    → Follows n (on_hello ok stream c).1
unfolding on_hello
on_hello-Follows ok stream c f = elim (Bool-cases (same_stream stream c.state.stream_id)) [
  | inl same ↦ rw (same, on_hello) f
  | inr new ↦
      rw (new, on_hello)
        (save-Follows ok
          (record c { state = record c.state { stream_id = stream; last_id = none } })
          (moved c stream none f))
]

-- The messages among the steps.
unfoldable pub messages : List Step → ℕ
messages [] = 0
messages (handle o (incoming_message id h) ∷ steps) = 1 + messages steps
messages (_ ∷ steps) = messages steps

pub run-Follows :
    (steps : List Step) (n : ℕ) (c : Client)
    → Follows n c
    → Follows (n + messages steps) (run steps c)
unfolding run step handle_event messages
run-Follows [] n c f = let e : n + 0 ≡ n = omega arith in rw e f
run-Follows (handle o (incoming_message id h) ∷ steps) n c f =
    let e : n + (1 + messages steps) ≡ n + 1 + messages steps = omega arith in
    rw e (run-Follows steps (n + 1) (handle_message o id h c).1 (handle_message-Follows o id h c f))
run-Follows (handle o (hello stream) ∷ steps) n c f =
    run-Follows steps n (on_hello o.first_write stream c).1
      (on_hello-Follows o.first_write stream c f)
run-Follows (handle o gap ∷ steps) n c f = run-Follows steps n c f
run-Follows (handle o health ∷ steps) n c f = run-Follows steps n c f
run-Follows (handle o unknown ∷ steps) n c f = run-Follows steps n c f
run-Follows (restart ∷ steps) n c f = run-Follows steps n (step restart c) (restart-Follows c f)

pub fresh-Follows : Follows 0 fresh
fresh-Follows = record {
  log = [];
  disk_log = [];
  history = start;
  disk_history = start;
  journal = refl;
  disk_journal = refl;
  hashes = λ h. refl;
  few = omega arith;
  disk_few = omega arith;
}
