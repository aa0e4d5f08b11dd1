-- ===== src/Recent.antt =====
-- A list that is cut to its newest items, as the server's `seen_hashes` (server/gtg_server/modem/worker.py) and the
-- client's journal (client/gtg_client/state.py) are: what was added lately is still in it.
use generic_text_gateway.Common.{
  length, drop, take_last, length-append, nat_eq, Text, text_beq_iff, text_eq, member,
  member-append, ℕ, zero, suc, ◌+◌, ◌-◌, ◌≤◌, ◌<◌, ◌≡◌, refl, true, List, [], ◌∷◌, ◌++◌,
  append_assoc, arith,
}

member_head : (h : Text) (hs : List Text) → member h (h ∷ hs) ≡ true
unfolding member
member_head h hs = rw ((text_beq_iff h h).1 refl) refl

drop-append-le : (n : ℕ) (xs ys : List Text) → n ≤ length xs → drop n (xs ++ ys) ≡ drop n xs ++ ys
drop-append-le zero xs ys p = refl
drop-append-le (suc n) [] ys p = absurd (omega (arith, p))
drop-append-le (suc n) (x ∷ xs) ys p = drop-append-le n xs ys (omega (arith, p))

-- A hash that at most `n` others follow.
abbrev pub IsRecent : Text → ℕ → List Text → Type 0
IsRecent h n hashes =
    (older : List Text) × (newer : List Text) × (hashes ≡ older ++ h ∷ newer) × (length newer ≤ n)

pub take_last-IsRecent :
    (limit : ℕ) (h : Text) (n : ℕ) (older newer : List Text)
    → n < limit
    → length newer ≤ n
    → IsRecent h n (take_last limit (older ++ h ∷ newer))
take_last-IsRecent limit h n older newer small few =
    let all' = length-append older (h ∷ newer) in
    (
      drop (length (older ++ h ∷ newer) - limit) older,
      newer,
      drop-append-le (length (older ++ h ∷ newer) - limit) older (h ∷ newer)
          (omega (arith, all', small, few)),
      few,
    )

pub remembered-IsRecent :
    (limit : ℕ) (h k : Text) (n : ℕ) (hashes : List Text)
    → n + 1 < limit
    → IsRecent h n hashes
    → IsRecent h (n + 1) (take_last limit (hashes ++ k ∷ []))
remembered-IsRecent limit h k n hashes small (older, newer, e, few) =
    let moved = append_assoc older (h ∷ newer) (k ∷ []) in
    rw (e, moved)
      (take_last-IsRecent limit h (n + 1) older (newer ++ k ∷ []) small
        (omega (arith, length-append newer (k ∷ []), few)))

pub IsRecent-member :
    (h : Text) (n : ℕ) (hashes : List Text) → IsRecent h n hashes → member h hashes ≡ true
IsRecent-member h n hashes (older, newer, e, few) =
    let here : member h (h ∷ newer) ≡ true = member_head h newer in
    rw (e, member-append h older (h ∷ newer), here) (ground arith)
