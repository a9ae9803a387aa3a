-- ===== src/ManagedLedger/Position.antt =====
-- rust/storage/managed-ledger/src/position.rs: positions, message ids and stored messages. A byte
-- is a number; `u64` fields are numbers and `i32` fields are integers.
use pulsar_lite.Prelude.{
  ℕ, Bool, true, ◌&&◌, ◌||◌, Option, none, some, List, ◌≡◌, arith, ltb, ◌==◌, ap,
}
use pulsar_lite.Prelude.Int.{ℤ, lt_int, eq_int, eq_int_sound, eq_int_refl}
use pulsar_lite.Prelude.Maps.{MapKey}
use pulsar_lite.ManagedLedger.RangeSet.{Key, succ_u64}

pub record ManagedLedgerPosition : Type 0 where
  pub ledger_id : ℕ
  pub entry_id : ℕ
  pub partition : ℤ

pub record MessageId : Type 0 where
  pub ledger : ℕ
  pub entry : ℕ
  pub partition : ℤ

pub record StoredMessage : Type 0 where
  pub message_id : MessageId
  pub metadata : List ℕ
  pub payload : List ℕ

-- `impl From<&MessageId> for ManagedLedgerPosition`.
abbrev pub from_message_id : MessageId → ManagedLedgerPosition
from_message_id value = record {
  ledger_id = value.ledger;
  entry_id = value.entry;
  partition = value.partition;
}

-- `impl From<&ManagedLedgerPosition> for MessageId`.
abbrev pub from_position : ManagedLedgerPosition → MessageId
from_position value = record {
  ledger = value.ledger_id;
  entry = value.entry_id;
  partition = value.partition;
}

-- The derived order compares the fields in turn.
abbrev pub lt_position : ManagedLedgerPosition → ManagedLedgerPosition → Bool
lt_position a b =
    ltb a.ledger_id b.ledger_id
    || (a.ledger_id == b.ledger_id
        && (ltb a.entry_id b.entry_id
            || (a.entry_id == b.entry_id && lt_int a.partition b.partition)))

abbrev pub eq_position : ManagedLedgerPosition → ManagedLedgerPosition → Bool
eq_position a b =
    a.ledger_id == b.ledger_id && (a.entry_id == b.entry_id && eq_int a.partition b.partition)

abbrev pub le_position : ManagedLedgerPosition → ManagedLedgerPosition → Bool
le_position a b = lt_position a b || eq_position a b

-- `impl Succ for ManagedLedgerPosition`.
abbrev pub succ_position : ManagedLedgerPosition → Option ManagedLedgerPosition
succ_position p = elim (succ_u64 p.entry_id) [
  | none ↦ none
  | some entry_id ↦ some (record p { entry_id = entry_id })
]

instance abbrev pub position_key : Key ManagedLedgerPosition
position_key = record { lt = lt_position; le = le_position; eq = eq_position; succ = succ_position }

abbrev pub lt_id : MessageId → MessageId → Bool
lt_id a b = lt_position (from_message_id a) (from_message_id b)

abbrev pub eq_id : MessageId → MessageId → Bool
eq_id a b = eq_position (from_message_id a) (from_message_id b)

and_parts : (p q : Bool) → (p && q) ≡ true → (p ≡ true) × (q ≡ true)
and_parts p q h = ground arith

eq_numbers : (a b : ℕ) → (a == b) ≡ true → a ≡ b
eq_numbers a b h = ground arith

pub eq_position_sound : (a b : ManagedLedgerPosition) → eq_position a b ≡ true → a ≡ b
eq_position_sound a b h =
    let (l, r) = and_parts (a.ledger_id == b.ledger_id) _ h in
    let (e, p) = and_parts (a.entry_id == b.entry_id) _ r in
    let le = eq_numbers a.ledger_id b.ledger_id l in
    let ee = eq_numbers a.entry_id b.entry_id e in
    let pe = eq_int_sound a.partition b.partition p in
    λ i. record { ledger_id = le i; entry_id = ee i; partition = pe i }

pub eq_id_sound : (a b : MessageId) → eq_id a b ≡ true → a ≡ b
eq_id_sound a b h = ap from_position (eq_position_sound (from_message_id a) (from_message_id b) h)

pub eq_id_refl : (a : MessageId) → eq_id a a ≡ true
eq_id_refl a = ground (arith, eq_int_refl a.partition)

instance abbrev pub id_key : MapKey MessageId
id_key = record { lt = lt_id; eq = eq_id; eq_sound = eq_id_sound; eq_refl = eq_id_refl }
