-- ===== src/At/Execute.antt =====
-- What `execute` answers, from the text of the port alone.
use generic_text_gateway.Common.{
  ◌==◌, Bool-cases, length, nat_eq, Text, Bytes, text_eq, ℕ, zero, suc, ◌≤◌, ◌<◌, ◌≡◌, refl, sym,
  ap, ap₂, ◌∙◌, ◌≢◌, ◌⊎◌, inl, inr, Bool, true, false, Option, none, some, List, [], ◌∷◌, ◌++◌,
  arith,
}
use generic_text_gateway.At.{
  Serial, read_chunk, Answer, is_empty, cons_line, clean, pop_from, readline, Kind, classify,
  enough, await_prompt, collect_line, collect, execute, answered, at_error, at_timeout, no_fuel,
  echo, final, failure, unsolicited, content,
}
use generic_text_gateway.At.Lines.{pending, size, readline-ReadsAs, readline-size}

-- What was answered, the text that is left, and what the callback made of the unsolicited lines.
abbrev pub Response : Type 0 → Type 0
Response X = Answer × (Bytes × X)

abbrev pub cons_response : {X : Type 0} → Text → Response X → Response X
cons_response line (a, rest) = (cons_line line a, rest)

module _ (decode : Bytes → Text) {X : Type 0} (tell : Text → X → X) (cmd : Text)
    (extra : Text → Bool) where
  -- The answer to a command, read from a whole text.
  unfoldable pub respond : Bytes → Bytes → X → Response X
  respond seen [] x = (at_timeout, (seen, x))
  respond seen (c ∷ s) x = elim (c == 10) [
    | false ↦ respond (seen ++ c ∷ []) s x
    | true ↦ elim (is_empty (clean decode seen)) [
      | true ↦ respond [] s x
      | false ↦ elim (classify cmd extra (clean decode seen)) [
        | echo ↦ respond [] s x
        | final ↦ (answered [], (s, x))
        | failure ↦ (at_error (clean decode seen), (s, x))
        | unsolicited ↦ respond [] s (tell (clean decode seen) x)
        | content ↦ cons_response (clean decode seen) (respond [] s x)
      ]
    ]
  ]

  -- One line of it.
  unfoldable pub respond_line : Option Text × Bytes → X → Response X
  respond_line (none, rest) x = (at_timeout, (rest, x))
  respond_line (some l, rest) x = elim (classify cmd extra l) [
    | echo ↦ respond [] rest x
    | final ↦ (answered [], (rest, x))
    | failure ↦ (at_error l, (rest, x))
    | unsolicited ↦ respond [] rest (tell l x)
    | content ↦ cons_response l (respond [] rest x)
  ]

  respond_pop :
      (seen s : Bytes) (x : X) → respond seen s x ≡ respond_line (pop_from decode seen s) x
  unfolding respond respond_line pop_from
  respond_pop seen [] x = refl
  respond_pop seen (c ∷ s) x = elim (Bool-cases (c == 10)) [
    | inr inside ↦ rw (inside, respond, pop_from) (respond_pop (seen ++ c ∷ []) s x)
    | inl end ↦ elim (Bool-cases (is_empty (clean decode seen))) [
      | inl blank ↦ rw (end, respond, pop_from, blank) (respond_pop [] s x)
      | inr full ↦ rw (end, respond, pop_from, full) refl
    ]
  ]

pub Kind-cases :
    (k : Kind) → (k ≡ echo) ⊎ ((k ≡ final) ⊎ ((k ≡ failure) ⊎ ((k ≡ unsolicited) ⊎ (k ≡ content))))
Kind-cases echo = inl refl
Kind-cases final = inr (inl refl)
Kind-cases failure = inr (inr (inl refl))
Kind-cases unsolicited = inr (inr (inr (inl refl)))
Kind-cases content = inr (inr (inr (inr refl)))

Answer-cases :
    (a : Answer)
    → ((ls : List Text) × (a ≡ answered ls))
      ⊎ (((t : Text) × (a ≡ at_error t)) ⊎ ((a ≡ at_timeout) ⊎ (a ≡ no_fuel)))
Answer-cases (answered ls) = inl (ls, refl)
Answer-cases (at_error t) = inr (inl (t, refl))
Answer-cases at_timeout = inr (inr (inl refl))
Answer-cases no_fuel = inr (inr (inr refl))

-- The callback leaves the port alone.
unfoldable pub IsQuiet : {X : Type 0} → (Text → Serial × X → Serial × X) → (Text → X → X) → Type 0
IsQuiet urc_cb tell = (l : Text) (s : Serial) (x : _) → urc_cb l (s, x) ≡ (s, tell l x)

-- The result of the loop, as the whole text gives it.
pub record IsResponse {X : Type 0} (s : Serial) (v : Answer × (Serial × X)) (r : Response X)
    : Type 0 where
  pub same_answer : v.0 ≡ r.0
  pub same_left : pending v.1.0 ≡ r.1.0
  pub same_told : v.1.1 ≡ r.1.1
  pub same_written : v.1.0.written ≡ s.written

cons_line-ends : (l : Text) (a : Answer) → a ≢ no_fuel → cons_line l a ≢ no_fuel
cons_line-ends l (answered ls) h = λ e. ground (arith, e)
cons_line-ends l (at_error t) h = λ e. ground (arith, e)
cons_line-ends l at_timeout h = λ e. ground (arith, e)
cons_line-ends l no_fuel h = h

-- The wait for the prompt ends.
await_prompt-ends :
    (decode : Bytes → Text) (reads : ℕ) (s : Serial) → (await_prompt decode reads s).0 ≢ no_fuel
unfolding await_prompt
await_prompt-ends decode zero s = λ e. ground (arith, e)
await_prompt-ends decode (suc reads) s =
    λ e. ground (arith, e, await_prompt-ends decode reads (read_chunk s))

module _ (decode : Bytes → Text) {X : Type 0} (urc_cb : Text → Serial × X → Serial × X)
    (tell : Text → X → X) (cmd : Text) (extra : Text → Bool) (q : IsQuiet urc_cb tell) where
  collect_line-IsResponse :
      (next : Serial × X → Answer × (Serial × X)) (line : Option Text) (s s' : Serial) (x : X)
      → s'.written ≡ s.written
      → ((l : Text) (y : X)
          → line ≡ some l
          → IsResponse s (next (s', y)) (respond decode tell cmd extra [] (pending s') y))
      → IsResponse s
          (collect_line urc_cb next cmd extra line (s', x))
          (respond_line decode tell cmd extra (line, pending s') x)
  unfolding collect_line respond_line IsQuiet
  collect_line-IsResponse next none s s' x w f = record {
    same_answer = refl;
    same_left = refl;
    same_told = refl;
    same_written = w;
  }
  collect_line-IsResponse next (some l) s s' x w f = elim (Kind-cases (classify cmd extra l)) [
    | inl e ↦ rw (e, collect_line, respond_line) (f l x refl)
    | inr (inl e) ↦
        rw (e, collect_line, respond_line)
          (record { same_answer = refl; same_left = refl; same_told = refl; same_written = w })
    | inr (inr (inl e)) ↦
        rw (e, collect_line, respond_line)
          (record { same_answer = refl; same_left = refl; same_told = refl; same_written = w })
    | inr (inr (inr (inl e))) ↦ rw (e, collect_line, respond_line, q l s' x) (f l (tell l x) refl)
    | inr (inr (inr (inr e))) ↦
        let r = f l x refl in
        rw (e, collect_line, respond_line)
          (record {
            same_answer = ap (cons_line l) r.same_answer;
            same_left = r.same_left;
            same_told = r.same_told;
            same_written = r.same_written;
          })
  ]

  collect-IsResponse :
      (fuel reads : ℕ) (s : Serial) (x : X)
      → length s.input ≤ reads
      → size s < fuel
      → IsResponse s
          (collect decode urc_cb fuel reads cmd extra (s, x))
          (respond decode tell cmd extra [] (pending s) x)
  unfolding collect
  collect-IsResponse zero reads s x h f = absurd (omega (arith, f))
  collect-IsResponse (suc fuel) reads s x h f =
      let r = readline-ReadsAs decode reads s h in
      let s' = (readline decode reads s).1.1 in
      let whole : pop_from decode [] (pending s) ≡ ((readline decode reads s).0, pending s') =
        ap₂ (λ (o : Option Text) (b : Bytes). (o, b)) (sym r.same_line) (sym r.same_rest) in
      rw (respond_pop decode tell cmd extra [] (pending s) x, whole)
        (collect_line-IsResponse
          (λ v. collect decode urc_cb fuel (readline decode reads s).1.0 cmd extra v)
          (readline decode reads s).0 s s' x r.quiet
          (λ l y e.
            let g =
              collect-IsResponse fuel (readline decode reads s).1.0 s' y r.in_time
                (omega (arith, f, readline-size decode reads s {l = l} e)) in
            record {
              same_answer = g.same_answer;
              same_left = g.same_left;
              same_told = g.same_told;
              same_written = g.same_written ∙ r.quiet;
            }))

  -- For a callback that leaves the port alone and deadlines that let the text of the port be read: what `execute`
  -- answers to a command, what is told to the callback and what is left for the next command are those of one pass over
  -- the text of the port, so they do not depend on the chunks that it comes in. Nothing but the command
  -- and its carriage return is written.
  pub execute-respond :
      (reads payload_reads : ℕ) (s : Serial) (x : X)
      → length s.input ≤ reads
      → IsResponse
          (record s { written = s.written ++ (cmd ++ 13 ∷ []) })
          (execute decode urc_cb reads payload_reads cmd none extra (s, x))
          (respond decode tell cmd extra [] (pending s) x)
  unfolding execute
  execute-respond reads payload_reads s x h =
      let s' : Serial = record s { written = s.written ++ (cmd ++ 13 ∷ []) } in
      collect-IsResponse (enough s') reads s' x h (omega arith)

  collect_line-ends :
      (next : Serial × X → Answer × (Serial × X)) (line : Option Text) (s' : Serial) (x : X)
      → ((l : Text) (y : X) → line ≡ some l → (next (s', y)).0 ≢ no_fuel)
      → (collect_line urc_cb next cmd extra line (s', x)).0 ≢ no_fuel
  unfolding collect_line IsQuiet
  collect_line-ends next none s' x f = λ e. ground (arith, e)
  collect_line-ends next (some l) s' x f = elim (Kind-cases (classify cmd extra l)) [
    | inl e ↦ rw (e, collect_line) (f l x refl)
    | inr (inl e) ↦ rw (e, collect_line) (λ e'. ground (arith, e'))
    | inr (inr (inl e)) ↦ rw (e, collect_line) (λ e'. ground (arith, e'))
    | inr (inr (inr (inl e))) ↦ rw (e, collect_line, q l s' x) (f l (tell l x) refl)
    | inr (inr (inr (inr e))) ↦
        rw (e, collect_line) (cons_line-ends l (next (s', x)).0 (f l x refl))
  ]

  collect-ends :
      (fuel reads : ℕ) (s : Serial) (x : X)
      → size s < fuel
      → (collect decode urc_cb fuel reads cmd extra (s, x)).0 ≢ no_fuel
  unfolding collect
  collect-ends zero reads s x f = absurd (omega (arith, f))
  collect-ends (suc fuel) reads s x f =
      collect_line-ends (λ v. collect decode urc_cb fuel (readline decode reads s).1.0 cmd extra v)
        (readline decode reads s).0 (readline decode reads s).1.1 x
        (λ l y e.
          collect-ends fuel (readline decode reads s).1.0 (readline decode reads s).1.1 y
            (omega (arith, f, readline-size decode reads s {l = l} e)))

  -- `execute` always ends with lines, an `ATError` or an `ATTimeout`, with a payload or without, whatever comes from
  -- the port and wherever the deadlines fall, if the callback leaves the port alone: the loop's fuel, one more
  -- than the octets of the port, is never used up.
  pub execute-ends :
      (reads payload_reads : ℕ) (payload : Option Bytes) (s : Serial) (x : X)
      → (execute decode urc_cb reads payload_reads cmd payload extra (s, x)).0 ≢ no_fuel
  unfolding execute
  execute-ends reads payload_reads none s x =
      let s' : Serial = record s { written = s.written ++ (cmd ++ 13 ∷ []) } in
      collect-ends (enough s') reads s' x (omega arith)
  execute-ends reads payload_reads (some payload) s x =
      elim (Answer-cases
        (await_prompt decode reads (record s { written = s.written ++ (cmd ++ 13 ∷ []) })).0) [
          | inl (ls, e) ↦
              let s' =
                (await_prompt decode reads
                  (record s { written = s.written ++ (cmd ++ 13 ∷ []) })).1 in
              let s'' : Serial = record s' { written = s'.written ++ (payload ++ 26 ∷ []) } in
              rw (e, execute) (collect-ends (enough s'') payload_reads s'' x (omega arith))
          | inr (inl (t, e)) ↦ rw (e, execute) (λ e'. ground (arith, e'))
          | inr (inr (inl e)) ↦ rw (e, execute) (λ e'. ground (arith, e'))
          | inr (inr (inr e)) ↦ absurd (
              await_prompt-ends decode reads (record s { written = s.written ++ (cmd ++ 13 ∷ []) })
                e)
        ]
