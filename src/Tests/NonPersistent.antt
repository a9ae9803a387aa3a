-- ===== src/Tests/NonPersistent.antt =====
-- An instance for the dispatchers that store nothing: the channel has one slot, so that the second
-- of two batches is dropped.
use pulsar_lite.Prelude.{◌+◌, ◌%◌, true, some, none, [], ◌∷◌, ◌≡◌}
use pulsar_lite.Prelude.Int.{pos, negsuc}
use pulsar_lite.Broker.ConsumerDispatch.Sending.{ready}
use pulsar_lite.Broker.Failover.{Consumer}
use pulsar_lite.Broker.NonPersistent.Failover.{NonPersistentDispatcherFailover}
use pulsar_lite.Broker.NonPersistent.Failover.{send_to_active}
use pulsar_lite.Broker.NonPersistent.Exclusive.{NonPersistentDispatcherExclusive}
use pulsar_lite.Broker.NonPersistent.Exclusive.{send_to_exclusive}
use pulsar_lite.Broker.NonPersistent.{Counters}
use pulsar_lite.Broker.NonPersistent.Accounts.{settled, send-settled}
use pulsar_lite.Tests.Dispatchers.{stored}

abbrev active : Consumer
active = record {
  consumer_id = 4;
  consumer_name = [];
  priority_level = pos 0;
  active_consumer_id = pos 4;
  is_active_consumer = true;
  state = ready 5 [] [] 0 1;
}

abbrev counters : Counters
counters = record {
  received_messages = 0;
  dropped_messages = 18446744073709551615;
  dispatched_messages = 3;
}

abbrev failover : NonPersistentDispatcherFailover
failover = record {
  topic_name = [];
  partition_index = negsuc 0;
  consumers = active ∷ [];
  active_consumer_id = some 4;
  counters = counters;
}

abbrev exclusive : NonPersistentDispatcherExclusive
exclusive = record { consumer = none; counters = counters }

send-settled_example :
    (settled (λ m. 2) 9 (send_to_active (λ m. 2) 9 (stored 0 ∷ stored 1 ∷ []) failover).counters
        % 18446744073709551616
      ≡ (settled (λ m. 2) 9 counters + 4) % 18446744073709551616)
    × (settled
            (λ m. 2)
            9
            (send_to_exclusive (λ m. 2) 9 (stored 0 ∷ stored 1 ∷ []) exclusive).counters
          % 18446744073709551616
        ≡ (settled (λ m. 2) 9 counters + 4) % 18446744073709551616)
send-settled_example = send-settled (λ m. 2) 9 (stored 0 ∷ stored 1 ∷ []) failover exclusive
