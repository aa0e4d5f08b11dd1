-- ===== src/At/Lines.antt =====
-- Lines do not depend on the chunks that they come in.
use generic_text_gateway.Common.{
  ◌==◌, Bool-cases, Option-cases, length, concat, total, all, length-append, nat_eq, Text, Bytes,
  text_eq, ℕ, zero, suc, ◌+◌, ◌≤◌, ◌<◌, ◌≡◌, refl, sym, ap, ◌∙◌, inl, inr, Bool, true, false, not,
  Option, none, some, List, [], ◌∷◌, ◌++◌, append-nil, append_assoc, arith,
}
use generic_text_gateway.At.{Serial, read_chunk, is_empty, clean, pop_from, pop_line, readline}

-- Without the end of a line.
abbrev pub IsOpen : Bytes → Type 0
IsOpen s = all (λ c. not (c == 10)) s ≡ true

all-append :
    (p : ℕ → Bool) (xs ys : Bytes) → all p xs ≡ true → all p ys ≡ true → all p (xs ++ ys) ≡ true
all-append p [] ys a b = b
all-append p (x ∷ xs) ys a b = ground (arith, a, all-append p xs ys, b)

-- What stands before the end of a text goes on with what follows it.
abbrev then_pop : (Bytes → Text) → Option Text × Bytes → Bytes → Option Text × Bytes
then_pop decode (none, r) b = pop_from decode r b
then_pop decode (some l, r) b = (some l, r ++ b)

module _ (decode : Bytes → Text) where
  pop_from-append :
      (seen a b : Bytes)
      → pop_from decode seen (a ++ b) ≡ then_pop decode (pop_from decode seen a) b
  unfolding pop_from
  pop_from-append seen [] b = refl
  pop_from-append seen (c ∷ a) b = elim (Bool-cases (c == 10)) [
    | inr inside ↦ rw (inside, pop_from) (pop_from-append (seen ++ c ∷ []) a b)
    | inl end ↦ elim (Bool-cases (is_empty (clean decode seen))) [
      | inl blank ↦ rw (end, pop_from, blank) (pop_from-append [] a b)
      | inr full ↦ rw (end, pop_from, full) refl
    ]
  ]

  pop_from-IsOpen :
      (seen a : Bytes)
      → IsOpen seen
      → (pop_from decode seen a).0 ≡ none
      → IsOpen (pop_from decode seen a).1
  unfolding pop_from
  pop_from-IsOpen seen [] h e = h
  pop_from-IsOpen seen (c ∷ a) h e = elim (Bool-cases (c == 10)) [
    | inr inside ↦
        rw (inside, pop_from)
          (pop_from-IsOpen (seen ++ c ∷ []) a
            (all-append (λ x. not (x == 10)) seen (c ∷ []) h (ground (arith, inside)))
            (ground (arith, e, inside)))
    | inl end ↦ elim (Bool-cases (is_empty (clean decode seen))) [
      | inl blank ↦
          rw (end, pop_from, blank) (pop_from-IsOpen [] a refl (ground (arith, e, end, blank)))
      | inr full ↦ absurd (ground (arith, e, end, full))
    ]
  ]

  pop_from_open :
      (r seen b : Bytes) → IsOpen r → pop_from decode seen (r ++ b) ≡ pop_from decode (seen ++ r) b
  unfolding pop_from
  pop_from_open [] seen b h = ap (λ s. pop_from decode s b) (sym (append-nil seen))
  pop_from_open (c ∷ r) seen b h =
      let inside : (c == 10) ≡ false = ground (arith, h) in
      rw (inside, pop_from)
        (pop_from_open r (seen ++ c ∷ []) b (ground (arith, h))
          ∙ ap (λ s. pop_from decode s b) (append_assoc seen (c ∷ []) r))

  pub pop_from-length :
      (seen a : Bytes) {l : Text}
      → (pop_from decode seen a).0 ≡ some l
      → length (pop_from decode seen a).1 < length a
  unfolding pop_from
  pop_from-length seen [] e = absurd (ground (arith, e))
  pop_from-length seen (c ∷ a) {l} e = elim (Bool-cases (c == 10)) [
    | inr inside ↦
        rw (inside, pop_from)
          (omega (arith, pop_from-length (seen ++ c ∷ []) a {l = l} (ground (arith, e, inside))))
    | inl end ↦ elim (Bool-cases (is_empty (clean decode seen))) [
      | inl blank ↦
          rw (end, pop_from, blank)
            (omega (arith, pop_from-length [] a {l = l} (ground (arith, e, end, blank))))
      | inr full ↦ rw (end, pop_from, full) (omega arith)
    ]
  ]

  pop_from-length-le : (seen a : Bytes) → length (pop_from decode seen a).1 ≤ length seen + length a
  unfolding pop_from
  pop_from-length-le seen [] = omega arith
  pop_from-length-le seen (c ∷ a) = elim (Bool-cases (c == 10)) [
    | inr inside ↦
        rw (inside, pop_from)
          (omega (arith, pop_from-length-le (seen ++ c ∷ []) a, length-append seen (c ∷ [])))
    | inl end ↦ elim (Bool-cases (is_empty (clean decode seen))) [
      | inl blank ↦ rw (end, pop_from, blank) (omega (arith, pop_from-length-le [] a))
      | inr full ↦ rw (end, pop_from, full) (omega arith)
    ]
  ]

-- All that is still to come.
abbrev pub pending : Serial → Bytes
pending s = s.buf ++ concat s.input

-- How much of it there is.
abbrev pub size : Serial → ℕ
size s = length s.buf + total length s.input

-- A line was read as the whole text has it, or none is in it.
pub record ReadsAs (decode : Bytes → Text) (s : Serial) (line : Option Text) (reads : ℕ)
    (s' : Serial) : Type 0 where
  pub same_line : line ≡ (pop_from decode [] (pending s)).0
  pub same_rest : pending s' ≡ (pop_from decode [] (pending s)).1
  pub in_time : length s'.input ≤ reads
  pub quiet : s'.written ≡ s.written

read_chunk-same :
    (buf : Bytes) (input : List Bytes) (written : Bytes) (n : ℕ)
    → length input ≤ suc n
    → let s : Serial = record { buf = buf; input = input; written = written } in
      (pending (read_chunk s) ≡ pending s)
      × ((size (read_chunk s) ≡ size s)
          × ((length (read_chunk s).input ≤ n) × ((read_chunk s).written ≡ written)))
unfolding read_chunk
read_chunk-same buf [] written n h = (refl, (refl, (omega arith, refl)))
read_chunk-same buf (chunk ∷ input) written n h = (
  append_assoc buf chunk (concat input),
  (omega (arith, length-append buf chunk), (omega (arith, h), refl)),
)

then_pop-some :
    (decode : Bytes → Text) (p : Option Text × Bytes) (b : Bytes) {l : Text}
    → p.0 ≡ some l
    → then_pop decode p b ≡ (some l, p.1 ++ b)
then_pop-some decode (none, r) b e = absurd (ground (arith, e))
then_pop-some decode (some k, r) b {l} e = ap (λ (o : Option Text). (o, r ++ b)) e

then_pop-none :
    (decode : Bytes → Text) (p : Option Text × Bytes) (b : Bytes)
    → p.0 ≡ none
    → then_pop decode p b ≡ pop_from decode p.1 b
then_pop-none decode (none, r) b e = refl
then_pop-none decode (some k, r) b e = absurd (ground (arith, e))

none_left : (buf : Bytes) (input : List Bytes) → length input ≤ 0 → buf ++ concat input ≡ buf
none_left buf [] h = append-nil buf
none_left buf (chunk ∷ input) h = absurd (omega (arith, h))

module _ (decode : Bytes → Text) where
  pub readline-ReadsAs :
      (reads : ℕ) (s : Serial)
      → length s.input ≤ reads
      → ReadsAs decode s
          (readline decode reads s).0
          (readline decode reads s).1.0
          (readline decode reads s).1.1
  unfolding readline pop_line
  readline-ReadsAs zero s h =
      let whole : pending s ≡ s.buf = none_left s.buf s.input h in
      record {
        same_line = ap (λ b. (pop_from decode [] b).0) (sym whole);
        same_rest =
            none_left (pop_from decode [] s.buf).1 s.input h
            ∙ ap (λ b. (pop_from decode [] b).1) (sym whole);
        in_time = h;
        quiet = refl;
      }
  readline-ReadsAs (suc reads) s h = elim (Option-cases (pop_from decode [] s.buf).0) [
    | inr (l, e) ↦
        let all_of = pop_from-append decode [] s.buf (concat s.input) in
        let eq = all_of ∙ then_pop-some decode (pop_from decode [] s.buf) (concat s.input) e in
        rw (e, readline)
          (record {
            same_line = sym (ap (λ (p : Option Text × Bytes). p.0) eq);
            same_rest = sym (ap (λ (p : Option Text × Bytes). p.1) eq);
            in_time = h;
            quiet = refl;
          })
    | inl e ↦
        let v : Serial = record s { buf = (pop_from decode [] s.buf).1 } in
        let rest = concat s.input in
        let (same, (_, (fewer, kept))) = read_chunk-same v.buf v.input v.written reads h in
        let r = readline-ReadsAs reads (read_chunk v) fewer in
        let open_rest = pop_from-IsOpen decode [] s.buf refl e in
        let whole : pop_from decode [] (pending (read_chunk v)) ≡ pop_from decode [] (pending s) =
          ap (λ b. pop_from decode [] b) same
          ∙ pop_from_open decode v.buf [] rest open_rest
          ∙ sym (
              pop_from-append decode [] s.buf rest
              ∙ then_pop-none decode (pop_from decode [] s.buf) rest e) in
        rw (e, readline)
          (record {
            same_line = r.same_line ∙ ap (λ (p : Option Text × Bytes). p.0) whole;
            same_rest = r.same_rest ∙ ap (λ (p : Option Text × Bytes). p.1) whole;
            in_time = r.in_time;
            quiet = r.quiet ∙ kept;
          })
  ]

  pub readline-size :
      (reads : ℕ) (s : Serial) {l : Text}
      → (readline decode reads s).0 ≡ some l
      → size (readline decode reads s).1.1 < size s
  unfolding readline pop_line
  readline-size zero s {l} e = omega (arith, pop_from-length decode [] s.buf {l = l} e)
  readline-size (suc reads) s {l} e = elim (Option-cases (pop_from decode [] s.buf).0) [
    | inr (k, found) ↦
        rw (found, readline) (omega (arith, pop_from-length decode [] s.buf {l = k} found))
    | inl nothing ↦
        let v : Serial = record s { buf = (pop_from decode [] s.buf).1 } in
        let shorter = readline-size reads (read_chunk v) {l = l} (ground (arith, e, nothing)) in
        let (_, (sized, _)) =
          read_chunk-same v.buf v.input v.written (length v.input) (omega arith) in
        rw (nothing, readline) (omega (arith, shorter, sized, pop_from-length-le decode [] s.buf))
  ]
