-- ===== src/FileStore/Bounds.antt =====
-- What the store gives back, and what it names its files.
use generic_text_gateway.Common.{
  drop-snoc, ℤ, pos, negsuc, if◌then◌else◌, Option-cases, length, take, drop, take_last, all, keep,
  length-append, length-take_last, nat_eq, lookup, insert, lookup-insert, Text, codes, text_beq_iff,
  text_eq, is_ascii_digit, member, ℕ, zero, suc, ◌-◌, ◌≤◌, ◌<◌, ◌≡◌, refl, ap, inl, inr, Bool, true,
  false, ◌&&◌, Option, some, List, [], ◌∷◌, ◌++◌, arith,
}
use generic_text_gateway.FileStore.{
  FileStore, is_safe, not_colon, or_text, filename, is_between, is_before, page, newest_first,
  write, persist_stream, stream, save_inbound, read_all, replay_entries, replay_after, history,
}

abbrev pub slash : ℕ
slash = 47

all-append : (xs ys : Text) → all is_safe (xs ++ ys) ≡ (all is_safe xs && all is_safe ys)
all-append [] ys = refl
all-append (x ∷ xs) ys = ground (arith, all-append xs ys)

safe-append :
    (xs ys : Text) → all is_safe xs ≡ true → all is_safe ys ≡ true → all is_safe (xs ++ ys) ≡ true
safe-append xs ys p q = rw (all-append xs ys, p) q

all-keep : (xs : Text) → all is_safe (keep is_safe xs) ≡ true
all-keep [] = refl
all-keep (x ∷ xs) = ground (arith, all-keep xs)

all-take : (n : ℕ) (xs : Text) → all is_safe xs ≡ true → all is_safe (take n xs) ≡ true
all-take zero xs h = refl
all-take (suc n) [] h = refl
all-take (suc n) (x ∷ xs) h = ground (arith, h, all-take n xs)

all-digits : (xs : Text) → all is_ascii_digit xs ≡ true → all is_safe xs ≡ true
unfolding is_safe
all-digits [] h = refl
all-digits (x ∷ xs) h = ground (arith, h, all-digits xs)

no_slash : (xs : Text) → all is_safe xs ≡ true → member slash xs ≡ false
unfolding member is_safe is_ascii_digit
no_slash [] h = refl
no_slash (x ∷ xs) h = ground (arith, h, no_slash xs)

-- If `str` of the id is of digits, a file's name has only the letters, digits and signs that are
-- allowed, whatever the sender and the time say; it has no slash, and so names no other directory.
pub filename-is_safe :
    (str : ℕ → Text) (received_at who : Option Text) (id : ℕ)
    → all is_ascii_digit (str id) ≡ true
    → (all is_safe (filename str received_at who id) ≡ true)
      × (member slash (filename str received_at who id) ≡ false)
unfolding filename is_safe is_ascii_digit
filename-is_safe str received_at who id h =
    let stamp = keep is_safe (keep not_colon (or_text [] received_at)) in
    let name = take 24 (keep is_safe (or_text (codes "unknown") who)) in
    let p_stamp : all is_safe (stamp ++ codes "_") ≡ true =
      safe-append stamp (codes "_") (all-keep (keep not_colon (or_text [] received_at))) refl in
    let p_name : all is_safe (stamp ++ codes "_" ++ name) ≡ true =
      safe-append (stamp ++ codes "_") name p_stamp (
        all-take 24 (keep is_safe (or_text (codes "unknown") who))
          (all-keep (or_text (codes "unknown") who))) in
    let front = stamp ++ codes "_" ++ name ++ codes "_" in
    let p_front : all is_safe front ≡ true =
      safe-append (stamp ++ codes "_" ++ name) (codes "_") p_name refl in
    let safe : all is_safe (filename str received_at who id) ≡ true =
      safe-append (front ++ str id) (codes ".json")
        (safe-append front (str id) p_front (all-digits (str id) h)) refl in
    (safe, no_slash (filename str received_at who id) safe)

length-newest_first : (es : List (ℕ × Text)) → length (newest_first es) ≡ length es
length-newest_first [] = refl
length-newest_first (e ∷ es) =
    omega (arith, length-newest_first es, length-append (newest_first es) (e ∷ []))

page-le : (limit : ℤ) → page limit ≤ 200
page-le (pos n) = ground arith
page-le (negsuc n) = omega arith

keep-append :
    (p : ℕ × Text → Bool) (xs ys : List (ℕ × Text)) → keep p (xs ++ ys) ≡ keep p xs ++ keep p ys
keep-append p [] ys = refl
keep-append p (x ∷ xs) ys = ground (arith, keep-append p xs ys)

module _ {P : Type 0} where
  length-read_all-le :
      (files : List (Text × P)) (es : List (ℕ × Text)) → length (read_all files es) ≤ length es
  unfolding read_all
  length-read_all-le files [] = omega arith
  length-read_all-le files ((i, path) ∷ es) = ground (arith, length-read_all-le files es)

  -- No client makes the store read more than 500 messages for a replay, or more than 200 for a page
  -- of history, whatever it asks for.
  pub replay-history-length :
      (s : FileStore P) (after before : ℕ) (inbox : Bool) (older : Option ℤ) (limit : ℤ)
      → (length (replay_after after before s) ≤ 500) × (length (history inbox older limit s) ≤ 200)
  unfolding replay_after replay_entries history
  replay-history-length s after before inbox older limit =
      let asked = keep (is_between after before) s.inbox_index in
      let kept = keep (is_before older) (if inbox then s.inbox_index else s.out_index) in
      let newest = take_last (page limit) kept in
      (
        omega (arith, length-read_all-le s.files (take_last 500 asked), length-take_last 500 asked),
        omega (
          arith,
          length-read_all-le s.files (newest_first newest),
          length-newest_first newest,
          length-take_last (page limit) kept,
          page-le limit,
        ),
      )

  read_all-snoc :
      (files : List (Text × P)) (es : List (ℕ × Text)) (i : ℕ) (path : Text) {msg : P}
      → lookup path files ≡ some msg
      → read_all files (es ++ (i, path) ∷ []) ≡ read_all files es ++ msg ∷ []
  unfolding read_all
  read_all-snoc files [] i path h = rw h refl
  read_all-snoc files ((j, other) ∷ es) i path h = elim (Option-cases (lookup other files)) [
    | inl unread ↦ rw unread (read_all-snoc files es i path h)
    | inr (p, read) ↦ rw read (ap (λ ps. p ∷ ps) (read_all-snoc files es i path h))
  ]

  -- A message whose file and stream were written is the last of each replay that asks for its id, and
  -- the next id is known from then on, on disk too.
  pub save_inbound-replay_after :
      (id : ℕ) (path : Text) (msg : P) (next_id : ℕ) (s : FileStore P) (after before : ℕ)
      → after < id
      → id < before
      → ((earlier : List P) × (replay_after after before
              (save_inbound true true id path msg next_id s).1
            ≡ earlier ++ msg ∷ []))
        × (stream (save_inbound true true id path msg next_id s).1 ≡ (s.stream_id, next_id))
        × ((save_inbound true true id path msg next_id s).1.stream_file
            ≡ some (s.stream_id, next_id))
  unfolding replay_after replay_entries save_inbound write persist_stream stream
  save_inbound-replay_after id path msg next_id s after before p q =
      let old = keep (is_between after before) s.inbox_index in
      let files = insert path msg s.files in
      let found : lookup path files ≡ some msg =
        (let l = lookup-insert path path msg s.files in
          rw (l, (text_beq_iff path path).1 refl) refl) in
      let one : keep (is_between after before) ((id, path) ∷ []) ≡ (id, path) ∷ [] =
        ground (arith, p, q) in
      let n = length (old ++ (id, path) ∷ []) - 500 in
      (
        (
          read_all files (drop n old),
          rw (keep-append (is_between after before) s.inbox_index ((id, path) ∷ []), one)
              (rw (drop-snoc n old (id, path) (omega (arith, length-append old ((id, path) ∷ []))))
                (read_all-snoc files (drop n old) id path found)),
        ),
        refl,
        refl,
      )
