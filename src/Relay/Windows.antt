-- ===== src/Relay/Windows.antt =====
-- Between any two calls of `ha.fire` for one message there are 500 others, wherever in the client's life.
use generic_text_gateway.Common.{
  Bool-cases, nat_eq, Text, text_beq, text_beq_iff, text_eq, times, times-append, times-one-le, ℕ,
  ◌+◌, ◌*◌, ◌≤◌, ◌≡◌, sym, subst, ◌⊎◌, inl, inr, Bool, true, false, Option, none, List, [], ◌∷◌,
  ◌++◌, arith,
}
use generic_text_gateway.Relay.{
  Client, save, same_stream, on_hello, seen, journaled, advance, Fire, Outcome, posting,
  fire_and_advance, handle_message, handle_event, Step, step, run, fresh, fired, ambiguous, raised,
  stopped, hello, gap, health, unknown, incoming_message, handle, restart,
}
use generic_text_gateway.Relay.History.{times-other}
use generic_text_gateway.Relay.Lately.{
  Lately, Lately-more, Lately-cut, Lately-marked, Lately-fresh, Lately-load, late_enough,
}
use generic_text_gateway.Relay.Journal.{journal_of, Follows, restart-Follows}
use generic_text_gateway.Relay.AtMostOnce.{
  on_disk, mark_new, save_written, save_broken, handle_message-Follows, on_hello-Follows, messages,
  run-Follows, fresh-Follows,
}

-- Of the last `k` messages: a hash was not fired in them, or its last fire was at least `d` marks ago, which the
-- journals in memory and on disk remember.
Apart : Text → ℕ → ℕ → Client → Type 0
Apart h base k c =
    (times h c.posted ≤ base)
    ⊎ ((d : ℕ) × (501 * times h c.posted + d ≤ 501 * base + 500 + k)
        × Lately h d c.state.journal
        × Lately h d (journal_of c.disk))

module _ (h : Text) (base : ℕ) where
  Apart-more : (k : ℕ) (c : Client) → Apart h base k c → Apart h base (k + 1) c
  unfolding Apart
  Apart-more k c (inl few) = inl few
  Apart-more k c (inr (d, p, l, m)) = inr (d, omega (arith, p), l, m)

  save-Apart : (k : ℕ) (ok : Bool) (c : Client) → Apart h base k c → Apart h base k (save ok c).1
  unfolding Apart save
  save-Apart k false c a = a
  save-Apart k true c (inl few) = inl few
  save-Apart k true c (inr (d, p, l, m)) = inr (d, p, l, Lately-cut h d c.state.journal l)

  restart-Apart : (k : ℕ) (c : Client) → Apart h base k c → Apart h base k (step restart c)
  unfolding Apart step
  restart-Apart k c (inl few) = inl few
  restart-Apart k c (inr (d, p, l, m)) = inr (d, p, Lately-load h d c.disk m, m)

  moved-Apart :
      (k : ℕ) (c : Client) (stream : Option Text) (id : Option ℕ)
      → Apart h base k c
      → Apart h base k (record c { state = record c.state { stream_id = stream; last_id = id } })
  unfolding Apart
  moved-Apart k c stream id a = a

  advance-Apart :
      (k : ℕ) (ok : Bool) (id : Option ℕ) (c : Client)
      → Apart h base k c
      → Apart h base k (advance ok id c).1
  unfolding advance
  advance-Apart k ok id c a =
      save-Apart k ok (record c { state = record c.state { last_id = id } })
        (moved-Apart k c c.state.stream_id id a)

  marked-Apart :
      (g : Text) (k : ℕ) (c : Client)
      → Apart h base k c
      → Apart h base (k + 1) (record c { state = journaled g c.state })
  unfolding Apart
  marked-Apart g k c (inl few) = inl few
  marked-Apart g k c (inr (d, p, l, m)) = inr (
    d + 1,
    omega (arith, p),
    Lately-marked h g d c.state l,
    Lately-more h d (journal_of c.disk) m,
  )

  on_disk-Apart :
      (g : Text) (k : ℕ) (c : Client) → Apart h base k c → Apart h base (k + 1) (on_disk g c)
  unfolding Apart
  on_disk-Apart g k c (inl few) = inl few
  on_disk-Apart g k c (inr (d, p, l, m)) =
      let more = Lately-marked h g d c.state l in
      inr (d + 1, omega (arith, p), more, Lately-cut h (d + 1) (journaled g c.state).journal more)

  -- The message itself is fired.
  fired-Apart :
      {n : ℕ} (k : ℕ) (c : Client)
      → Follows n c
      → seen h c.state ≡ false
      → Apart h base k c
      → Apart h base (k + 1) (posting h (on_disk h c))
  unfolding Apart
  fired-Apart k c f new a =
      let now = Lately-fresh h c.state in
      let more = times-append h c.posted (h ∷ []) in
      let one = times-one-le h h in
      let enough : 501 * times h c.posted ≤ 501 * base + k = elim a [
        | inl few ↦ omega (arith, few)
        | inr (d, p, l, m) ↦ omega (arith, p, late_enough h d c f new l)
      ] in
      inr
        (0, omega (arith, more, one, enough), now, Lately-cut h 0 (journaled h c.state).journal now)

  -- Another message is fired.
  other-Apart :
      (g : Text) (k : ℕ) (c : Client)
      → text_beq g h ≡ false
      → Apart h base k c
      → Apart h base k (posting g c)
  unfolding Apart
  other-Apart g k c other a =
      let same : times h (c.posted ++ g ∷ []) ≡ times h c.posted =
        omega (arith, times-append h c.posted (g ∷ []), times-other g h other) in
      rw same a

  posting-Apart :
      {n : ℕ} (g : Text) (k : ℕ) (c : Client)
      → Follows n c
      → seen g c.state ≡ false
      → Apart h base k c
      → Apart h base (k + 1) (posting g (on_disk g c))
  posting-Apart g k c f new a = elim (Bool-cases (text_beq g h)) [
    | inl same ↦
        let e : g ≡ h = (text_beq_iff g h).0 same in
        subst (λ x. Apart h base (k + 1) (posting x (on_disk x c))) (sym e)
          (fired-Apart k c f (subst (λ x. seen x c.state ≡ false) e new) a)
    | inr other ↦ other-Apart g (k + 1) (on_disk g c) other (on_disk-Apart g k c a)
  ]

  fire-Apart :
      (fire : Fire) (k : ℕ) (ok : Bool) (id : Option ℕ) (g : Text) (c : Client)
      → Apart h base k c
      → Apart h base k (posting g c)
      → Apart h base k (fire_and_advance fire ok id g c).1
  unfolding fire_and_advance
  fire-Apart fired k ok id g c a b = advance-Apart k ok id (posting g c) b
  fire-Apart ambiguous k ok id g c a b = advance-Apart k ok id (posting g c) b
  fire-Apart raised k ok id g c a b = b
  fire-Apart stopped k ok id g c a b = a

  handle_message-Apart :
      {n : ℕ} (k : ℕ) (o : Outcome) (id : Option ℕ) (g : Text) (c : Client)
      → Follows n c
      → Apart h base k c
      → Apart h base (k + 1) (handle_message o id g c).1
  unfolding handle_message
  handle_message-Apart k o id g c f a =
      let c' : Client = record c { state = journaled g c.state } in
      elim (Bool-cases (seen g c.state)) [
        | inl old ↦
            rw (old, handle_message) (advance-Apart (k + 1) o.last_write id c (Apart-more k c a))
        | inr new ↦ elim (Bool-cases o.first_write) [
          | inl written ↦
              rw (new, handle_message, mark_new o.first_write g c new, written, save_written c')
                (fire-Apart o.fire (k + 1) o.last_write id g (on_disk g c) (on_disk-Apart g k c a)
                  (posting-Apart g k c f new a))
          | inr broken ↦
              rw (new, handle_message, mark_new o.first_write g c new, broken, save_broken c')
                (marked-Apart g k c a)
        ]
      ]

  on_hello-Apart :
      (k : ℕ) (ok : Bool) (stream : Option Text) (c : Client)
      → Apart h base k c
      → Apart h base k (on_hello ok stream c).1
  unfolding on_hello
  on_hello-Apart k ok stream c a = elim (Bool-cases (same_stream stream c.state.stream_id)) [
    | inl same ↦ rw (same, on_hello) a
    | inr new ↦
        rw (new, on_hello)
          (save-Apart k ok
            (record c { state = record c.state { stream_id = stream; last_id = none } })
            (moved-Apart k c stream none a))
  ]

  run-Apart :
      (steps : List Step) (n k : ℕ) (c : Client)
      → Follows n c
      → Apart h base k c
      → Apart h base (k + messages steps) (run steps c)
  unfolding run step handle_event messages
  run-Apart [] n k c f a = let e : k + 0 ≡ k = omega arith in rw e a
  run-Apart (handle o (incoming_message id g) ∷ steps) n k c f a =
      let e : k + (1 + messages steps) ≡ k + 1 + messages steps = omega arith in
      rw e (
        run-Apart steps (n + 1) (k + 1) (handle_message o id g c).1
          (handle_message-Follows o id g c f) (handle_message-Apart k o id g c f a))
  run-Apart (handle o (hello stream) ∷ steps) n k c f a =
      run-Apart steps n k (on_hello o.first_write stream c).1
        (on_hello-Follows o.first_write stream c f) (on_hello-Apart k o.first_write stream c a)
  run-Apart (handle o gap ∷ steps) n k c f a = run-Apart steps n k c f a
  run-Apart (handle o health ∷ steps) n k c f a = run-Apart steps n k c f a
  run-Apart (handle o unknown ∷ steps) n k c f a = run-Apart steps n k c f a
  run-Apart (restart ∷ steps) n k c f a =
      run-Apart steps n k (step restart c) (restart-Follows c f) (restart-Apart k c a)

-- At any moment of the client's life from its first start on, restarts, broken writes and crashes between the steps of
-- an event included: among the n messages that follow, `ha.fire` is called for one hash at most (n + 500) / 501
-- times, so at most once among any 501 consecutive messages.
pub run-at_most_once_in_window :
    (before steps : List Step) (h : Text)
    → 501 * times h (run steps (run before fresh)).posted
      ≤ 501 * times h (run before fresh).posted + messages steps + 500
unfolding Apart
run-at_most_once_in_window before steps h =
    let c = run before fresh in
    let f : Follows (0 + messages before) c = run-Follows before 0 fresh fresh-Follows in
    elim (run-Apart h (times h c.posted) steps (0 + messages before) 0 c f (inl (omega arith))) [
      | inl few ↦ omega (arith, few)
      | inr (d, p, l, m) ↦ omega (arith, p)
    ]
