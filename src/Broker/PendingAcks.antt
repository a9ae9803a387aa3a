-- ===== src/Broker/PendingAcks.antt =====
-- rust/src/broker/service/pending_acks.rs: the messages that a consumer has been sent and has not
-- acknowledged. The time of dispatch is a number that the caller gives. `add_pending_ack` loads
-- `closed` twice, before it waits for the lock and while it holds it, so that it is two steps, and
-- calls of other tasks can come between them.
pub mod Closing
pub mod Lookups
use pulsar_lite.Prelude.{
  ℕ, Bool, true, false, ◌&&◌, Option, none, some, List, [], ◌∷◌, ◌==◌, if◌then◌else◌, length,
}
use pulsar_lite.Prelude.Int.{ℤ}
use pulsar_lite.Prelude.Maps.{get, insert_ordered, remove_key}
use pulsar_lite.ManagedLedger.Position.{MessageId, id_key}

pub record PendingAck : Type 0 where
  pub dispatched_at : ℕ
  pub redelivery_count : ℕ
  pub sticky_key_hash : Option ℤ

pub record PendingAcksMap : Type 0 where
  pub inner : List (MessageId × PendingAck)
  pub closed : Bool

abbrev pub new_pending_acks : PendingAcksMap
new_pending_acks = record { inner = []; closed = false }

-- The test before the lock: whether the call goes on to wait for it.
unfoldable pub begin_add : PendingAcksMap → Bool
begin_add m = if m.closed then false else true

-- With the lock: the second test, and the insertion.
unfoldable pub finish_add : PendingAcksMap → MessageId → PendingAck → PendingAcksMap × Bool
finish_add m message_id ack =
    if m.closed
    then (m, false)
    else (record m { inner = insert_ordered message_id ack m.inner }, true)

-- The call where nothing comes between.
unfoldable pub add_pending_ack : PendingAcksMap → MessageId → PendingAck → PendingAcksMap × Bool
add_pending_ack m message_id ack = if begin_add m then finish_add m message_id ack else (m, false)

unfoldable pub remove_pending : PendingAcksMap → MessageId → PendingAcksMap × Option PendingAck
remove_pending m message_id =
    (record m { inner = remove_key message_id m.inner }, get message_id m.inner)

abbrev pub is_present : Option PendingAck → Bool
is_present none = false
is_present (some _) = true

unfoldable pub contains_pending : PendingAcksMap → MessageId → Bool
contains_pending m message_id = is_present (get message_id m.inner)

abbrev pub at_position : ℕ → ℕ → MessageId → Bool
at_position ledger entry id = id.ledger == ledger && id.entry == entry

unfoldable pub find_key : ℕ → ℕ → List (MessageId × PendingAck) → Option MessageId
find_key ledger entry [] = none
find_key ledger entry ((id, _) ∷ rest) =
    if at_position ledger entry id then some id else find_key ledger entry rest

abbrev pub find_by_position : PendingAcksMap → ℕ → ℕ → Option MessageId
find_by_position m ledger entry = find_key ledger entry m.inner

unfoldable pub close : PendingAcksMap → PendingAcksMap
close m = record m { closed = true }

unfoldable pub drain : PendingAcksMap → PendingAcksMap × List (MessageId × PendingAck)
drain m = (record m { inner = [] }, m.inner)

abbrev pub pending_len : PendingAcksMap → ℕ
pending_len m = length m.inner

abbrev pub is_closed : PendingAcksMap → Bool
is_closed m = m.closed
