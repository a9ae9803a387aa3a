-- ===== src/Broker/PendingAcks/Lookups.antt =====
-- Lookups of pending_acks.rs.
use pulsar_lite.Prelude.{
  ℕ, true, false, Option, none, some, List, [], ◌∷◌, ◌≡◌, refl, arith, if◌then◌else◌, Bool-cases,
  inl, inr, ap,
}
use pulsar_lite.Prelude.Maps.{get}
use pulsar_lite.ManagedLedger.Position.{MessageId, id_key, eq_id, eq_id_refl, eq_id_sound}
use pulsar_lite.Broker.PendingAcks.{
  PendingAcksMap, PendingAck, is_present, find_key, find_by_position, at_position,
}

-- What a lookup by position has to give.
abbrev pub Finds : List (MessageId × PendingAck) → ℕ → ℕ → Option MessageId → Type 0
Finds m ledger entry none =
    (id : MessageId) → at_position ledger entry id ≡ true → is_present (get id m) ≡ false
Finds m ledger entry (some id) =
    (at_position ledger entry id ≡ true) × (is_present (get id m) ≡ true)

skip_none :
    (m : List (MessageId × PendingAck)) (k : MessageId) (a : PendingAck) (ledger entry : ℕ)
    → at_position ledger entry k ≡ false
    → Finds m ledger entry none
    → Finds ((k, a) ∷ m) ledger entry none
unfolding get
skip_none m k a ledger entry away all id here = elim (Bool-cases (eq_id k id)) [
  | inl e ↦ absurd (let same = ap (at_position ledger entry) (eq_id_sound k id e) in ground arith)
  | inr e ↦ rw (e, if◌then◌else◌) (all id here)
]

skip_some :
    (m : List (MessageId × PendingAck)) (k : MessageId) (a : PendingAck) (ledger entry : ℕ)
    (o : Option MessageId)
    → at_position ledger entry k ≡ false
    → Finds m ledger entry o
    → Finds ((k, a) ∷ m) ledger entry o
unfolding get
skip_some m k a ledger entry none away all = skip_none m k a ledger entry away all
skip_some m k a ledger entry (some id) away (here, in_rest) = (here, ground arith)

find_key_lem :
    (m : List (MessageId × PendingAck)) (ledger entry : ℕ)
    → Finds m ledger entry (find_key ledger entry m)
unfolding find_key get
find_key_lem [] ledger entry = λ id here. refl
find_key_lem ((k, a) ∷ m) ledger entry = elim (Bool-cases (at_position ledger entry k)) [
  | inl e ↦ rw (e, if◌then◌else◌) ((e, rw (eq_id_refl k) refl))
  | inr e ↦
      rw (e, if◌then◌else◌)
        (skip_some m k a ledger entry (find_key ledger entry m) e (find_key_lem m ledger entry))
]

-- find_by_position gives the id of a pending message at the ledger and the entry, whatever its
-- partition is, and gives none only when no message there is pending.
pub find_by_position_lem :
    (m : PendingAcksMap) (ledger entry : ℕ)
    → Finds m.inner ledger entry (find_by_position m ledger entry)
find_by_position_lem m ledger entry = find_key_lem m.inner ledger entry
