-- ===== src/Outbox.antt =====
-- The records of outbound messages: `Outbox` of server/gtg_server/outbox.py. The clock is an
-- argument.
pub mod Replay
pub mod Sending
pub mod Serial
pub mod Harmless
pub mod Once
pub mod Kept
mod Tests
use generic_text_gateway.Common.{
  ltb, length, nat_eq, lookup, insert, remove, Text, text_eq, ℕ, ◌+◌, Bool, true, false, Option,
  none, some, List, [], ◌∷◌, arith, ℤ,
}

pub data RecordState : Type 0 where
  queued : RecordState
  sending : RecordState
  submitted : RecordState
  failed : RecordState
  submission_unknown : RecordState

pub record Outbound : Type 0 where
  pub id : ℕ
  pub to : List Text
  pub text : Text
  pub state : RecordState
  pub refs : List (Option ℤ)
  pub error : Option Text
  pub created_at : Text
  pub updated_at : Option Text
  pub idempotency_key : Option Text
  pub owner : Option Text

-- The `store` with its one operation, whose `OSError` is passed over.
pub record Outbox (S : Type 0) : Type 0 where
  pub records : List (ℕ × Outbound)
  pub idem : List (Text × ℕ)
  pub next_id : ℕ
  pub store : Option S
  pub keep_limit : ℕ

-- The fields that `update` is called with.
pub record Fields : Type 0 where
  pub new_state : RecordState
  pub new_refs : Option (List (Option ℤ))
  pub new_error : Option (Option Text)

-- What the API shows of a record.
pub record Public : Type 0 where
  pub id : ℕ
  pub to : List Text
  pub state : RecordState
  pub refs : List (Option ℤ)
  pub error : Option Text
  pub created_at : Text

-- `if idempotency_key`: the empty text is none.
unfoldable pub truthy : Option Text → Option Text
truthy none = none
truthy (some []) = none
truthy (some (c ∷ k)) = some (c ∷ k)

abbrev pub forget : Option Text → List (Text × ℕ) → List (Text × ℕ)
forget none idem = idem
forget (some k) idem = remove k idem

-- `while len(self._records) > self.keep`, from the oldest record on.
unfoldable pub evict :
    ℕ → List (ℕ × Outbound) → List (Text × ℕ) → List (ℕ × Outbound) × List (Text × ℕ)
evict limit [] idem = ([], idem)
evict limit ((i, r) ∷ rs) idem = elim (ltb limit (length rs + 1)) [
  | true ↦ evict limit rs (forget (truthy r.idempotency_key) idem)
  | false ↦ ((i, r) ∷ rs, idem)
]

-- What a client posted.
pub record Posted : Type 0 where
  pub to : List Text
  pub text : Text
  pub idempotency_key : Option Text
  pub owner : Option Text

abbrev pub new_record : Text → Posted → ℕ → Outbound
new_record now p i = record {
  id = i;
  to = p.to;
  text = p.text;
  state = queued;
  refs = [];
  error = none;
  created_at = now;
  updated_at = none;
  idempotency_key = p.idempotency_key;
  owner = p.owner;
}

abbrev pub remember : Option Text → ℕ → List (Text × ℕ) → List (Text × ℕ)
remember none i idem = idem
remember (some k) i idem = insert k i idem

abbrev pub known : Option Text → List (Text × ℕ) → Option ℕ
known none idem = none
known (some k) idem = lookup k idem

abbrev or_old {ℓ} : {A : Type ℓ} → Option A → A → A
or_old none old = old
or_old (some new) old = new

abbrev pub updated : Text → Fields → Outbound → Outbound
updated now f r = record r {
  state = f.new_state;
  refs = or_old f.new_refs r.refs;
  error = or_old f.new_error r.error;
  updated_at = some now;
}

module _ {S : Type 0} where
  -- A record that is not a replay.
  unfoldable pub create_new : Text → Posted → Outbox S → Outbound × Outbox S
  create_new now p b =
      let rec' = new_record now p b.next_id in
      let (records, idem) =
        evict b.keep_limit (insert b.next_id rec' b.records)
          (remember (truthy p.idempotency_key) b.next_id b.idem) in
      (rec', record b { records = records; idem = idem; next_id = b.next_id + 1 })

  abbrev pub replayed : Option Outbound → Outbox S → Option (Outbound × Bool) × Outbox S
  replayed none b = (none, b)
  replayed (some r) b = (some (r, false), b)

  -- `create`; `none` is the `KeyError` of a key whose record is gone.
  unfoldable pub create : Text → Posted → Outbox S → Option (Outbound × Bool) × Outbox S
  create now p b = elim (known (truthy p.idempotency_key) b.idem) [
    | some i ↦ replayed (lookup i b.records) b
    | none ↦ let (r, b') = create_new now p b in (some (r, true), b')
  ]

module _ {S : Type 0} (save_outbound : S → Outbound → S) where
  abbrev saved : Option S → Outbound → Option S
  saved none r = none
  saved (some s) r = some (save_outbound s r)

  unfoldable pub update : Text → ℕ → Fields → Outbox S → Option Outbound × Outbox S
  update now i f b = elim (lookup i b.records) [
    | none ↦ (none, b)
    | some r ↦
        let r' = updated now f r in
        (some r', record b { records = insert i r' b.records; store = saved b.store r' })
  ]

-- `get`
unfoldable pub get : {S : Type 0} → ℕ → Outbox S → Option Outbound
get i b = lookup i b.records

-- `public`
unfoldable pub public_record : Outbound → Public
public_record r = record {
  id = r.id;
  to = r.to;
  state = r.state;
  refs = r.refs;
  error = r.error;
  created_at = r.created_at;
}
