-- ===== src/Tests/Broker.antt =====
-- Runs and instances for the limits, the write state, the pending acknowledgements and the
-- redelivery controller.
use pulsar_lite.Prelude.{
  ◌<◌, ◌||◌, ◌&&◌, true, false, none, List, [], ◌∷◌, ◌≡◌, not, refl, arith, inr,
}
use pulsar_lite.Prelude.Int.{negsuc}
use pulsar_lite.Prelude.Maps.{get, nat_key}
use pulsar_lite.ManagedLedger.Position.{MessageId, id_key}
use pulsar_lite.Broker.ConnectionLimiter.{ConnectionLimiterState, try_acquire}
use pulsar_lite.Broker.ConnectionLimiter.Permits.{IsCounted, held_by, keep_permit, try_acquire_lem}
use pulsar_lite.Broker.ConnectionWriteState.{
  ConnectionWriteState, Round, still_looping, try_reserve_channel_bytes,
}
use pulsar_lite.Broker.ConnectionWriteState.Watermarks.{
  observe_all, all_above, is_paused, observe_all-is_paused,
}
use pulsar_lite.Broker.ConnectionWriteState.Channel.{try_reserve_channel_bytes_stale}
use pulsar_lite.Broker.PendingAcks.{PendingAck, new_pending_acks, contains_pending, close, drain}
use pulsar_lite.Broker.PendingAcks.Closing as Closing

abbrev two_per_address : ConnectionLimiterState
two_per_address = record {
  max_connections = 3;
  max_connections_per_ip = 2;
  total_connections = 1;
  connections_per_ip = (7, 1) ∷ [];
}

two_per_address-IsCounted : IsCounted two_per_address (7 ∷ [])
unfolding get held_by
two_per_address-IsCounted = record {
  total = refl;
  per_ip = λ ip. ground arith;
  within = inr (omega arith);
  within_ip = inr (λ ip. ground arith);
}

try_acquire_lem_example :
    IsCounted
      (try_acquire two_per_address 7).0
      (keep_permit (try_acquire two_per_address 7).1 (7 ∷ []))
try_acquire_lem_example = try_acquire_lem two_per_address (7 ∷ []) 7 two_per_address-IsCounted

held_seven : 0 < held_by 7 (7 ∷ [])
unfolding held_by
held_seven = ground arith

abbrev connection : ConnectionWriteState
connection = record {
  pending_bytes = 0;
  writable = true;
  high_watermark_bytes = 64;
  low_watermark_bytes = 32;
  channel_pending_bytes = 10;
  max_channel_bytes = 100;
}

observe_all-is_paused_example :
    (observe_all connection (70 ∷ 40 ∷ [])).writable
    ≡ not (is_paused 64 32 (70 ∷ 40 ∷ []) || (not true && all_above 32 (70 ∷ 40 ∷ [])))
observe_all-is_paused_example = observe_all-is_paused connection (70 ∷ 40 ∷ [])

abbrev changed : List Round
changed = record { spurious = false; actual = 20 } ∷ []

abbrev once : List Round
once = record { spurious = true; actual = 10 } ∷ record { spurious = false; actual = 10 } ∷ []

try_reserve_channel_bytes_stale_example :
    try_reserve_channel_bytes connection 5 changed ≡ still_looping
try_reserve_channel_bytes_stale_example =
    try_reserve_channel_bytes_stale connection 5 changed (omega arith) (omega arith) refl

abbrev message : MessageId
message = record { ledger = 1; entry = 2; partition = negsuc 0 }

abbrev ack : PendingAck
ack = record { dispatched_at = 5; redelivery_count = 0; sticky_key_hash = none }

drain-close_example :
    (Closing.run
      (drain (Closing.run (close new_pending_acks) (Closing.finishes message ack ∷ []))).0
      (Closing.finishes message ack ∷ [])).inner
    ≡ []
drain-close_example =
    Closing.drain-close new_pending_acks (Closing.finishes message ack ∷ [])
      (Closing.finishes message ack ∷ [])

run-outstanding_example :
    contains_pending
      (Closing.run new_pending_acks (Closing.finishes message ack ∷ Closing.closes ∷ []))
      message
    ≡ Closing.outstanding message false
        (contains_pending new_pending_acks message)
        (Closing.finishes message ack ∷ Closing.closes ∷ [])
run-outstanding_example =
    Closing.run-outstanding new_pending_acks (Closing.finishes message ack ∷ Closing.closes ∷ [])
      message
