-- ===== src/Tests/Dispatch.antt =====
-- Instances for the dispatch to a consumer and for the durable cursor.
use pulsar_lite.Prelude.{◌+◌, true, false, some, none, [], ◌∷◌, ◌≡◌, refl, arith}
use pulsar_lite.Prelude.Int.{negsuc, minus}
use pulsar_lite.Prelude.Maps.{get}
use pulsar_lite.ManagedLedger.RocksCursor.{
  RocksDbManagedCursor, mark_delete_at, is_managed_position_acknowledged, ack_managed_cursor_shared,
}
use pulsar_lite.ManagedLedger.RocksCursor.Regress.{
  at, one_ledger, with_hole, stored_at, ack_managed_cursor_shared_regress,
}
use pulsar_lite.ManagedLedger.RocksCursor.Durable.{Ends, ack_managed_cursor_shared_lem}
use pulsar_lite.Broker.PendingAcks.{PendingAck, add_pending_ack, begin_add, finish_add}
use pulsar_lite.Broker.ConsumerDispatch.{
  PendingMessage, ConsumerState, DispatchReservation, send_message_with_sticky_hash,
  try_reserve_dispatch, drop_reservation, track_message_dispatched,
}
use pulsar_lite.Broker.ConsumerDispatch.Sending.{
  ready, send_message_with_sticky_hash_lem, drop_reservation-try_reserve_dispatch,
}

abbrev message : PendingMessage
message = record {
  message_id = record { ledger = 1; entry = 2; partition = negsuc 0 };
  metadata = [];
  payload = 1 ∷ [];
  redelivery_count = 0;
}

abbrev ack : PendingAck
ack = record { dispatched_at = 5; redelivery_count = 0; sticky_key_hash = none }

-- The channel is full.
send_message_with_sticky_hash_lem_example :
    (send_message_with_sticky_hash (ready 5 [] (message ∷ []) 0 1) message ack).0
    ≡ ready 5 [] (message ∷ []) 0 1
unfolding get send_message_with_sticky_hash track_message_dispatched add_pending_ack begin_add
    finish_add
send_message_with_sticky_hash_lem_example =
    send_message_with_sticky_hash_lem (ready 5 [] (message ∷ []) 0 1) message ack refl refl

drop_reservation-try_reserve_dispatch_example :
    (s : ConsumerState) × (r : DispatchReservation) × (try_reserve_dispatch
        (ready 5 [] [] 0 1)
        message
        ack
        3
      ≡ (s, some r))
    × (drop_reservation s r ≡ record (ready 5 [] [] 0 1) { available_permits = minus (5 + 1) 3 })
unfolding get
drop_reservation-try_reserve_dispatch_example =
    drop_reservation-try_reserve_dispatch 5 3 [] [] 0 1 message ack (omega arith) (omega arith)
      (omega arith) refl (omega arith)

ack_managed_cursor_shared_regress_example :
    (is_managed_position_acknowledged
        (mark_delete_at (with_hole 1 3 none) (at 1 5)).0.state
        (at 1 5)
      ≡ true)
    × (c : RocksDbManagedCursor) × (ack_managed_cursor_shared
          (mark_delete_at (with_hole 1 3 none) (at 1 5)).0
          (at 1 (5 + 1))
          (one_ledger 1 10)
        ≡ some (c, true))
    × (c.state.mark_delete ≡ some (at 1 3))
    × (is_managed_position_acknowledged c.state (at 1 5) ≡ false)
ack_managed_cursor_shared_regress_example =
    ack_managed_cursor_shared_regress 1 3 5 10 none (omega arith) (omega arith) (omega arith)

ack_managed_cursor_shared_lem_example : Ends (
    ack_managed_cursor_shared
      (stored_at (at 1 3) ((at 1 5, at 1 6) ∷ []))
      (at 1 4)
      (one_ledger 1 10))
ack_managed_cursor_shared_lem_example =
    ack_managed_cursor_shared_lem (stored_at (at 1 3) ((at 1 5, at 1 6) ∷ [])) (at 1 4)
      (one_ledger 1 10) (refl, refl)
