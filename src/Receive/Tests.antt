-- ===== src/Receive/Tests.antt =====
-- Two parts that come in the wrong order, and the lines of a modem.
use generic_text_gateway.Common.{
  sort_by, Ascending, All, nat_eq, lookup, insert, codes, text_beq, text_eq, ◌≡◌, refl, false, none,
  some, [], ◌∷◌, map,
}
use generic_text_gateway.Receive.{
  PartKey, key_eq, Assembler, seq_of, joined, assemble, add_part, add,
}
use generic_text_gateway.Receive.Complete.{Arrival, part_of, arrive, arrive_all, arrive-joined}

abbrev key : PartKey
key = record { sender = codes "+49151"; ref = 7; parts = 2 }

abbrev second : Arrival
second = record { now = 10; seq = 2; text = codes " world"; scts = codes "b"; index = some 4 }

abbrev first : Arrival
first = record { now = 12; seq = 1; text = codes "hello"; scts = codes "a"; index = some 5 }

abbrev idle : Assembler
idle = record { stale_after = 300; slots = [] }

arrive-joined_example :
    All (λ given. given ≡ none) (arrive_all key (second ∷ []) idle).0
    × ((arrive key first (arrive_all key (second ∷ []) idle).1).0
        ≡ joined false (sort_by seq_of (map (part_of key) (second ∷ first ∷ []))))
    × Ascending seq_of (sort_by seq_of (map (part_of key) (second ∷ first ∷ [])))
    × (lookup key (arrive key first (arrive_all key (second ∷ []) idle).1).1.slots ≡ none)
unfolding lookup
arrive-joined_example = arrive-joined key (second ∷ []) first idle refl (refl, (refl, tt)) refl

hello_world :
    (arrive key first (arrive_all key (second ∷ []) idle).1).0
    ≡ some (
      record {
        sender = codes "+49151";
        text = codes "hello world";
        scts = codes "a";
        partial = false;
      },
      5 ∷ 4 ∷ [],
    )
unfolding arrive_all add add_part assemble lookup insert sort_by text_beq
hello_world = refl
