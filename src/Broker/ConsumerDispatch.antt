-- ===== src/Broker/ConsumerDispatch.antt =====
-- rust/src/broker/service/consumer.rs: the permits of a consumer, and the dispatch of a message to
-- it. The channel to the connection is its queue, its capacity, the slots that are reserved in it
-- and whether its receiver is there. A call that waits for no other task is one step.
pub mod Permits
pub mod Sending
use pulsar_lite.Prelude.{
  ℕ, zero, suc, ◌+◌, ◌-◌, Bool, true, false, ◌&&◌, Option, none, some, List, [], ◌∷◌, ◌++◌, length,
  ltb, if◌then◌else◌,
}
use pulsar_lite.Prelude.Int.{ℤ, pos, lt_int, eq_int, to_i32, wrap_i32, plus_int, minus_int}
use pulsar_lite.ManagedLedger.Position.{MessageId}
use pulsar_lite.Broker.PendingAcks.{
  PendingAck, PendingAcksMap, add_pending_ack, remove_pending, close, drain,
}

-- Without the estimate of its size on the wire.
pub record PendingMessage : Type 0 where
  pub message_id : MessageId
  pub metadata : List ℕ
  pub payload : List ℕ
  pub redelivery_count : ℕ

-- What a dispatch reads and changes of `Consumer`, its pending acknowledgements and its connection.
pub record ConsumerState : Type 0 where
  pub available_permits : ℤ
  pub pending_acks : PendingAcksMap
  pub is_writable : Bool
  pub queue : List PendingMessage
  pub reserved_slots : ℕ
  pub capacity : ℕ
  pub receiver_open : Bool

-- What the exchange loop of `use_permit` and `try_use_permits` comes to: the value it has stored.
pub data Taken : Type 0 where
  taken : ℤ → Taken
  no_permit : Taken
  still_trying : Taken

-- The loop over the values that the exchange finds in the counter.
unfoldable pub permit_loop : ℤ → ℤ → List ℤ → Taken
permit_loop n current [] = if lt_int (pos 0) current then still_trying else no_permit
permit_loop n current (actual ∷ rest) =
    let retried = permit_loop n actual rest in
    if lt_int (pos 0) current
    then (if eq_int actual current then taken (wrap_i32 (minus_int current n)) else retried)
    else no_permit

abbrev pub use_permit_rounds : ℤ → List ℤ → Taken
use_permit_rounds loaded actuals = permit_loop (pos 1) loaded actuals

abbrev pub try_use_permits_rounds : ℤ → ℕ → List ℤ → Taken
try_use_permits_rounds loaded n actuals = permit_loop (to_i32 n) loaded actuals

-- The call where no other task changes the counter.
unfoldable pub try_use_permits : ConsumerState → ℕ → ConsumerState × Bool
try_use_permits s n =
    if lt_int (pos 0) s.available_permits
    then (
      record s { available_permits = wrap_i32 (minus_int s.available_permits (to_i32 n)) },
      true,
    )
    else (s, false)

unfoldable pub add_permits : ConsumerState → ℕ → ConsumerState
add_permits s permits = record s {
  available_permits = wrap_i32 (plus_int s.available_permits (to_i32 permits));
}

abbrev pub has_permits : ConsumerState → Bool
has_permits s = lt_int (pos 0) s.available_permits

-- `try_reserve` and `try_reserve_owned`: a slot, unless the channel is full or closed.
abbrev pub has_slot : ConsumerState → Bool
has_slot s = s.receiver_open && ltb (length s.queue + s.reserved_slots) s.capacity

abbrev pub has_send_capacity : ConsumerState → Bool
has_send_capacity s = s.is_writable && has_slot s

unfoldable pub track_message_dispatched :
    ConsumerState → MessageId → PendingAck → ConsumerState × Bool
track_message_dispatched s id ack =
    let tracked = add_pending_ack s.pending_acks id ack in
    (record s { pending_acks = tracked.0 }, tracked.1)

unfoldable pub remove_pending_ack : ConsumerState → MessageId → ConsumerState
remove_pending_ack s id = record s { pending_acks = (remove_pending s.pending_acks id).0 }

-- `send_message_with_sticky_hash`: `ack` is the record that is tracked for the message.
unfoldable pub send_message_with_sticky_hash :
    ConsumerState → PendingMessage → PendingAck → ConsumerState × Bool
send_message_with_sticky_hash s message ack =
    let tracked = track_message_dispatched s message.message_id ack in
    let s' = tracked.0 in
    if s.is_writable
    then (if tracked.1
        then (if has_slot s'
            then (record s' { queue = s'.queue ++ message ∷ [] }, true)
            else (remove_pending_ack s' message.message_id, false))
        else (s', false))
    else (s, false)

-- `DispatchReservation`, which holds one slot of the channel.
pub record DispatchReservation : Type 0 where
  pub message : PendingMessage
  pub pending_ack_message_id : Option MessageId

abbrev pub give_back : ConsumerState → ℕ → ConsumerState
give_back s permits = add_permits s permits

-- The steps of `try_reserve_dispatch` after the permits are taken.
unfoldable pub reserve_rest :
    ConsumerState → PendingMessage → PendingAck → ℕ → ConsumerState × Option DispatchReservation
reserve_rest s message ack permits =
    let slotted = record s { reserved_slots = s.reserved_slots + 1 } in
    let tracked = track_message_dispatched slotted message.message_id ack in
    let s' = tracked.0 in
    if s.is_writable
    then (if has_slot s
        then (if tracked.1
            then (
              s',
              some (record { message = message; pending_ack_message_id = some message.message_id }),
            )
            else (give_back (record s' { reserved_slots = s'.reserved_slots - 1 }) permits, none))
        else (give_back s permits, none))
    else (give_back s permits, none)

unfoldable pub try_reserve_dispatch :
    ConsumerState → PendingMessage → PendingAck → ℕ → ConsumerState × Option DispatchReservation
try_reserve_dispatch s message ack permits =
    let used = try_use_permits s permits in
    if used.1 then reserve_rest used.0 message ack permits else (used.0, none)

-- `DispatchReservation::send`.
unfoldable pub send_reserved : ConsumerState → DispatchReservation → ConsumerState
send_reserved s r = record s {
  reserved_slots = s.reserved_slots - 1;
  queue = s.queue ++ r.message ∷ [];
}

abbrev pub remove_tracked : ConsumerState → Option MessageId → ConsumerState
remove_tracked s none = s
remove_tracked s (some id) = remove_pending_ack s id

-- The drop of a reservation that was not sent, with the task that it spawns.
unfoldable pub drop_reservation : ConsumerState → DispatchReservation → ConsumerState
drop_reservation s r =
    remove_tracked
      (record s {
        available_permits = wrap_i32 (plus_int s.available_permits (pos 1));
        reserved_slots = s.reserved_slots - 1;
      })
      r.pending_ack_message_id
