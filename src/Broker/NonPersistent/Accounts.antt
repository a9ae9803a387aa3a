-- ===== src/Broker/NonPersistent/Accounts.antt =====
-- Every message is counted.
use pulsar_lite.Prelude.{ℕ, ◌+◌, ◌%◌, Option, none, some, List, [], ◌∷◌, length, ◌≡◌, arith, ◌∙◌}
use pulsar_lite.ManagedLedger.Position.{StoredMessage}
use pulsar_lite.Broker.ConsumerDispatch.{ConsumerState, DispatchReservation, try_reserve_dispatch}
use pulsar_lite.Broker.SingleActive.{new_ack}
use pulsar_lite.Broker.NonPersistent.Failover.{NonPersistentDispatcherFailover}
use pulsar_lite.Broker.NonPersistent.Failover.{send_to_active}
use pulsar_lite.Broker.NonPersistent.Failover.{state_of}
use pulsar_lite.Broker.NonPersistent.Failover.{active_consumer}
use pulsar_lite.Broker.NonPersistent.Exclusive.{NonPersistentDispatcherExclusive}
use pulsar_lite.Broker.NonPersistent.Exclusive.{send_to_exclusive}
use pulsar_lite.Broker.NonPersistent.{
  Counters, record_drop, record_received, drop_all, message_of_entry, reserved, send_all,
  send_messages,
}

plus_settled :
    (a b n k : ℕ)
    → a % 18446744073709551616 ≡ (b + n) % 18446744073709551616
    → (a + k) % 18446744073709551616 ≡ (b + (n + k)) % 18446744073709551616
plus_settled a b n k h = omega arith

module _ (messages_in_batch : List ℕ → ℕ) (now : ℕ) where
  -- The messages of the entries.
  abbrev pub messages_of : List StoredMessage → ℕ
  messages_of [] = 0
  messages_of (e ∷ rest) = messages_in_batch e.metadata + messages_of rest

  abbrev pub settled : Counters → ℕ
  settled c = c.dispatched_messages + c.dropped_messages

  drop_all-settled :
      (entries : List StoredMessage) (c : Counters)
      → settled (drop_all messages_in_batch now entries c) % 18446744073709551616
        ≡ (settled c + messages_of entries) % 18446744073709551616
  unfolding drop_all
  drop_all-settled [] c = ground arith
  drop_all-settled (e ∷ rest) c =
      drop_all-settled rest (record_drop (messages_in_batch e.metadata) c) ∙ ground arith

  reserved-settled :
      (c : Counters) (n : ℕ) (r : ConsumerState × Option DispatchReservation)
      → settled (reserved messages_in_batch now c n r).1 % 18446744073709551616
        ≡ (settled c + n) % 18446744073709551616
  reserved-settled c n (s, some m) = ground arith
  reserved-settled c n (s, none) = ground arith

  send_all-settled :
      (entries : List StoredMessage) (s : ConsumerState) (c : Counters)
      → settled (send_all messages_in_batch now entries (s, c)).1 % 18446744073709551616
        ≡ (settled c + messages_of entries) % 18446744073709551616
  unfolding send_all
  send_all-settled [] s c = ground arith
  send_all-settled (e ∷ rest) s c =
      let n = messages_in_batch e.metadata in
      let r =
        reserved messages_in_batch now c n
          (try_reserve_dispatch s (message_of_entry messages_in_batch now e) (new_ack now) n) in
      let here =
        reserved-settled c n
          (try_reserve_dispatch s (message_of_entry messages_in_batch now e) (new_ack now) n) in
      send_all-settled rest r.0 r.1
      ∙ plus_settled (settled r.1) (settled c) n (messages_of rest) here

  pub send_messages-settled :
      (entries : List StoredMessage) (c : Counters) (consumer : Option ConsumerState)
      → settled (send_messages messages_in_batch now entries c consumer).1 % 18446744073709551616
        ≡ (settled c + messages_of entries) % 18446744073709551616
  unfolding send_messages
  send_messages-settled entries c none =
      drop_all-settled entries (record_received (length entries) c)
  send_messages-settled entries c (some s) =
      send_all-settled entries s (record_received (length entries) c)

  -- For both dispatchers and whatever the entries: send_messages raises the counters of dispatched
  -- and of dropped messages together by the number of messages of the entries, modulo 2^64, with
  -- or without a consumer.
  pub send-settled :
      (entries : List StoredMessage) (d : NonPersistentDispatcherFailover)
      (x : NonPersistentDispatcherExclusive)
      → (settled (send_to_active messages_in_batch now entries d).counters % 18446744073709551616
          ≡ (settled d.counters + messages_of entries) % 18446744073709551616)
        × (settled (send_to_exclusive messages_in_batch now entries x).counters
              % 18446744073709551616
            ≡ (settled x.counters + messages_of entries) % 18446744073709551616)
  unfolding send_to_active send_to_exclusive
  send-settled entries d x = (
    send_messages-settled entries d.counters (state_of (active_consumer d)),
    send_messages-settled entries x.counters (state_of x.consumer),
  )
