-- ===== src/Relay/Lately.antt =====
-- What the client's journal, in memory and on disk, still knows of a hash that was marked lately.
use generic_text_gateway.Common.{
  ltb, Bool-cases, take_last, nat_eq, Text, text_eq, ℕ, ◌+◌, ◌≤◌, ◌<◌, ◌≡◌, inl, inr, false, Option,
  none, some, List, [], arith,
}
use generic_text_gateway.Recent.{IsRecent, take_last-IsRecent, remembered-IsRecent, IsRecent-member}
use generic_text_gateway.Relay.{Stored, State, Client, load, seen, journaled}
use generic_text_gateway.Relay.Journal.{journal_of, Follows, journaled-journal}

-- A hash that at most `d` marks followed, as long as the journal reaches back so far.
abbrev pub Lately : Text → ℕ → List Text → Type 0
Lately h d journal = d < 500 → IsRecent h d journal

IsRecent-mono : (h : Text) (d e : ℕ) (j : List Text) → d ≤ e → IsRecent h d j → IsRecent h e j
IsRecent-mono h d e j p (older, newer, same, few) = (older, newer, same, omega (arith, p, few))

pub Lately-more : (h : Text) (d : ℕ) (j : List Text) → Lately h d j → Lately h (d + 1) j
Lately-more h d j l p = IsRecent-mono h d (d + 1) j (omega arith) (l (omega (arith, p)))

pub Lately-cut : (h : Text) (d : ℕ) (j : List Text) → Lately h d j → Lately h d (take_last 500 j)
Lately-cut h d j l p =
    let (older, newer, same, few) = l p in rw same (take_last-IsRecent 500 h d older newer p few)

pub Lately-marked :
    (h g : Text) (d : ℕ) (s : State)
    → Lately h d s.journal
    → Lately h (d + 1) (journaled g s).journal
Lately-marked h g d s l p =
    rw (journaled-journal g s) (remembered-IsRecent 500 h g d s.journal p (l (omega (arith, p))))

pub Lately-fresh : (h : Text) (s : State) → Lately h 0 (journaled h s).journal
Lately-fresh h s p =
    rw (journaled-journal h s) (take_last-IsRecent 500 h 0 s.journal [] p (omega arith))

pub Lately-load :
    (h : Text) (d : ℕ) (disk : Option Stored)
    → Lately h d (journal_of disk)
    → Lately h d (load disk).journal
unfolding load
Lately-load h d none l = l
Lately-load h d (some f) l = Lately-cut h d f.journal l

-- What a hash that is not seen says of its last fire.
pub late_enough :
    {n : ℕ} (h : Text) (d : ℕ) (c : Client)
    → Follows n c
    → seen h c.state ≡ false
    → Lately h d c.state.journal
    → 500 ≤ d
unfolding seen
late_enough h d c f new l = elim (Bool-cases (ltb d 500)) [
  | inr past ↦ ground (arith, past)
  | inl soon ↦
      let there = IsRecent-member h d c.state.journal (l (ground (arith, soon))) in
      absurd (ground (arith, there, f.hashes h, new))
]
