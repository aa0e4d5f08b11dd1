-- ===== src/Codec/Split/Bounds.antt =====
-- What a split is: the chunks hold the text in order, each fits, and there are few of them.
use generic_text_gateway.Common.{
  ltb, ltb→lt, ltb→le, Bool-cases, length, concat, total, total-append, All, nat_eq, Text, text_eq,
  ℕ, ◌+◌, ◌-◌, ◌*◌, ◌≤◌, ◌≡◌, refl, sym, ap, ◌∙◌, inl, inr, [], ◌∷◌, ◌++◌, append-nil, append_assoc,
  arith,
}
use generic_text_gateway.Codec.Split.{last_chunk, split_loop}

module _ (cost : ℕ → ℕ) (limit : ℕ) where
  concat-last_chunk : (cur : Text) → concat (last_chunk cur) ≡ cur
  concat-last_chunk [] = refl
  concat-last_chunk (c ∷ cur) = append-nil (c ∷ cur)

  -- The chunks of a split hold the characters of the text in order, behind those of the chunk in
  -- the making: none is lost, doubled or moved.
  pub concat-split_loop :
      (text cur : Text) (n : ℕ) → concat (split_loop cost limit cur n text) ≡ cur ++ text
  unfolding split_loop
  concat-split_loop [] cur n = concat-last_chunk cur ∙ sym (append-nil cur)
  concat-split_loop (c ∷ text) cur n = elim (Bool-cases (ltb limit (n + cost c))) [
    | inl full ↦ rw (full, concat) (ap (λ r. cur ++ r) (concat-split_loop text (c ∷ []) (cost c)))
    | inr room ↦
        rw (room, concat)
          (concat-split_loop text (cur ++ c ∷ []) (n + cost c) ∙ append_assoc cur (c ∷ []) text)
  ]

  -- A chunk that may be sent.
  abbrev pub Fits : Text → Type 0
  Fits chunk = total cost chunk ≤ limit

  -- If no character costs more than the limit, and the chunk in the making costs what is counted
  -- and at most the limit, then no chunk of a split costs more than the limit.
  pub split_loop-Fits :
      (text cur : Text) (n : ℕ)
      → total cost cur ≡ n
      → n ≤ limit
      → All (λ c. cost c ≤ limit) text
      → All Fits (split_loop cost limit cur n text)
  unfolding split_loop
  split_loop-Fits [] [] n e p a = tt
  split_loop-Fits [] (d ∷ cur) n e p a = (omega arith, tt)
  split_loop-Fits (c ∷ text) cur n e p a = elim (Bool-cases (ltb limit (n + cost c))) [
    | inl full ↦
        rw (full, All) (omega arith, split_loop-Fits text (c ∷ []) (cost c) (omega arith) a.0 a.1)
    | inr room ↦
        rw (room, All)
          (split_loop-Fits text (cur ++ c ∷ []) (n + cost c)
            (omega (arith, total-append cost cur (c ∷ []))) (ltb→le limit (n + cost c) room) a.1)
  ]

  -- If no character costs more than `big`, the chunks of a split are few: but for the last, each
  -- is filled with at least the limit and one, less `big`.
  pub length-split_loop :
      (big : ℕ) (text cur : Text) (n : ℕ)
      → All (λ c. cost c ≤ big) text
      → length (split_loop cost limit cur n text) * (limit + 1 - big)
        ≤ n + total cost text + (limit + 1 - big)
  unfolding split_loop
  length-split_loop big [] [] n a = omega arith
  length-split_loop big [] (d ∷ cur) n a = omega arith
  length-split_loop big (c ∷ text) cur n a = elim (Bool-cases (ltb limit (n + cost c))) [
    | inl full ↦
        rw (full, length)
          (omega (
            arith,
            ltb→lt limit (n + cost c) full,
            a.0,
            length-split_loop big text (c ∷ []) (cost c) a.1,
          ))
    | inr room ↦
        rw (room, length)
          (omega (arith, length-split_loop big text (cur ++ c ∷ []) (n + cost c) a.1))
  ]
