-- ===== src/Relay/Journal.antt =====
-- The journal in memory and on disk, against the log of all marks.
use generic_text_gateway.Common.{
  ltb, ltb→le, Bool-cases, length, take, take_last, length-append, take_last_of_length-le,
  take_last_idem, take_last-append, nat_eq, Text, text_beq, text_eq, member, times, set_add,
  member-set_add, member-set_discard_all, member-append, member-drop, ℕ, ◌+◌, ◌-◌, ◌≤◌, ◌≡◌, refl,
  sym, ◌∙◌, inl, inr, Bool, true, false, ◌||◌, Option, none, some, List, [], ◌∷◌, ◌++◌, arith,
}
use generic_text_gateway.Relay.{Stored, State, Client, load, save, seen, journaled, step, restart}
use generic_text_gateway.Relay.History.{History, times-snoc-le, times-window-le, marked}

abbrev pub journal_of : Option Stored → List Text
journal_of none = []
journal_of (some d) = d.journal

-- The journal in memory and the one on disk are what their logs of at most `n` marks leave.
pub record Follows (n : ℕ) (c : Client) : Type 0 where
  pub log : List Text
  pub disk_log : List Text
  pub history : History log c.posted
  pub disk_history : History disk_log c.posted
  pub journal : c.state.journal ≡ take_last 500 log
  pub disk_journal : journal_of c.disk ≡ take_last 500 disk_log
  pub hashes : (h : Text) → member h c.state.journal_set ≡ member h c.state.journal
  pub few : length log ≤ n
  pub disk_few : length disk_log ≤ n

-- A client that differs in the cursor alone.
pub moved :
    {n : ℕ} (c : Client) (stream : Option Text) (id : Option ℕ)
    → Follows n c
    → Follows n (record c { state = record c.state { stream_id = stream; last_id = id } })
moved c stream id f = record {
  log = f.log;
  disk_log = f.disk_log;
  history = f.history;
  disk_history = f.disk_history;
  journal = f.journal;
  disk_journal = f.disk_journal;
  hashes = f.hashes;
  few = f.few;
  disk_few = f.disk_few;
}

pub save-Follows : {n : ℕ} (ok : Bool) (c : Client) → Follows n c → Follows n (save ok c).1
unfolding save
save-Follows false c f = f
save-Follows true c f = record {
  log = f.log;
  disk_log = f.log;
  history = f.history;
  disk_history = f.history;
  journal = f.journal;
  disk_journal = rw f.journal (take_last_idem 500 f.log);
  hashes = f.hashes;
  few = f.few;
  disk_few = f.few;
}

pub load-journal :
    (d : Option Stored) (log : List Text)
    → journal_of d ≡ take_last 500 log
    → (load d).journal ≡ take_last 500 log
unfolding load
load-journal none log e = e
load-journal (some d) log e = rw e (take_last_idem 500 log)

load-hashes :
    (d : Option Stored) (h : Text) → member h (load d).journal_set ≡ member h (load d).journal
unfolding load
load-hashes none h = refl
load-hashes (some d) h = refl

pub restart-Follows : {n : ℕ} (c : Client) → Follows n c → Follows n (step restart c)
unfolding step
restart-Follows c f = record {
  log = f.disk_log;
  disk_log = f.disk_log;
  history = f.disk_history;
  disk_history = f.disk_history;
  journal = load-journal c.disk f.disk_log f.disk_journal;
  disk_journal = f.disk_journal;
  hashes = load-hashes c.disk;
  few = f.disk_few;
  disk_few = f.disk_few;
}

pub journaled-journal :
    (h : Text) (s : State) → (journaled h s).journal ≡ take_last 500 (s.journal ++ h ∷ [])
unfolding journaled
journaled-journal h s =
    let whole = s.journal ++ h ∷ [] in
    elim (Bool-cases (ltb 500 (length whole))) [
      | inl full ↦ rw (full, journaled) refl
      | inr room ↦
          rw (room, journaled)
            (sym (take_last_of_length-le 500 whole (ltb→le 500 (length whole) room)))
    ]

-- The set follows the journal, which holds no hash twice.
journaled-hashes :
    (h : Text) (s : State) (j : Text)
    → member j s.journal_set ≡ member j s.journal
    → times j (s.journal ++ h ∷ []) ≤ 1
    → member j (journaled h s).journal_set ≡ member j (journaled h s).journal
unfolding journaled member
journaled-hashes h s j same once =
    let whole = s.journal ++ h ∷ [] in
    let more = length whole - 500 in
    let grown : (text_beq h j || member j s.journal_set) ≡ member j whole =
      ground (arith, same, member-append j s.journal (h ∷ [])) in
    elim (Bool-cases (ltb 500 (length whole))) [
      | inl full ↦
          rw
            (
              full,
              journaled,
              member-set_discard_all j (take more whole) (set_add h s.journal_set),
              member-set_add j h s.journal_set,
              grown,
            )
            (sym (member-drop j more whole once))
      | inr room ↦ rw (room, journaled, member-set_add j h s.journal_set) grown
    ]

pub seen-absent :
    {n : ℕ} (h : Text) (c : Client)
    → seen h c.state ≡ false
    → (f : Follows n c) → member h (take_last 500 f.log) ≡ false
unfolding seen
seen-absent h c new f = rw (← f.journal) (sym (f.hashes h) ∙ new)

pub journaled_window :
    {n : ℕ} (h : Text) (c : Client) (f : Follows n c)
    → (journaled h c.state).journal ≡ take_last 500 (f.log ++ h ∷ [])
journaled_window h c f =
    journaled-journal h c.state ∙ rw f.journal (take_last-append 500 f.log (h ∷ []))

pub journaled-Follows :
    {n : ℕ} (h : Text) (c : Client)
    → seen h c.state ≡ false
    → Follows n c
    → Follows (n + 1) (record c { state = journaled h c.state })
journaled-Follows h c new f =
    let absent : member h (take_last 500 f.log) ≡ false = seen-absent h c new f in
    record {
      log = f.log ++ h ∷ [];
      disk_log = f.disk_log;
      history = marked h f.history absent;
      disk_history = f.disk_history;
      journal = journaled_window h c f;
      disk_journal = f.disk_journal;
      hashes = λ j. journaled-hashes h c.state j (f.hashes j) (
          rw f.journal
            (times-snoc-le (take_last 500 f.log) h j (times-window-le f.history j) absent));
      few = omega (arith, length-append f.log (h ∷ []), f.few);
      disk_few = omega (arith, f.disk_few);
    }
