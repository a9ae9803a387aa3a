-- ===== src/Broker/KeyShared/Answers.antt =====
-- What the scan of the redelivery queue of key_shared.rs answers, told entry by entry.
use pulsar_lite.Prelude.{true, false, none, some, List, [], ◌∷◌, ◌≡◌}
use pulsar_lite.Prelude.Maps.{get}
use pulsar_lite.ManagedLedger.Position.{StoredMessage, id_key}
use pulsar_lite.Broker.Redelivery.{RedeliveryEntry, RedeliveryController, has_in_flight_hash}
use pulsar_lite.Broker.Redelivery.Steps.{IsCounted}
use pulsar_lite.Broker.KeyShared.{Assignments, Consumer, Readiness, select_consumer_for_hash}
use pulsar_lite.Broker.KeyShared.Handed.{with_hash}
use pulsar_lite.Broker.KeyShared.Redelivered.{
  Store, Popped, popped, nothing, storage_error, hash_of,
}

-- Why the scan passes over an entry.
pub data Passed (now : Readiness) (a : Assignments) (store : Store) (start : RedeliveryController)
    (q : RedeliveryEntry) : Type 0 where
  acknowledged : store.is_acknowledged q.message_id ≡ some true → Passed now a store start q
  missing : store.get_message_entry_by_id q.message_id ≡ none → Passed now a store start q
  hash_in_flight :
      (stored : StoredMessage)
      → store.get_message_entry_by_id q.message_id ≡ some stored
      → has_in_flight_hash start (hash_of store q stored) ≡ true
      → Passed now a store start q
  no_consumer :
      (stored : StoredMessage)
      → store.get_message_entry_by_id q.message_id ≡ some stored
      → select_consumer_for_hash now a (hash_of store q stored) ≡ none
      → Passed now a store start q

-- What holds of the entry that is handed out, and of the controller then.
pub record IsHandedOut (now : Readiness) (a : Assignments) (store : Store)
    (start : RedeliveryController) (q : RedeliveryEntry) (c : RedeliveryController)
    (entry : RedeliveryEntry) (stored : StoredMessage) (consumer : Consumer) : Type 0 where
  pub unacknowledged : store.is_acknowledged q.message_id ≡ some false
  pub found : store.get_message_entry_by_id q.message_id ≡ some stored
  pub not_in_flight : has_in_flight_hash start (hash_of store q stored) ≡ false
  pub chosen : select_consumer_for_hash now a (hash_of store q stored) ≡ some consumer
  pub same : entry ≡ with_hash q (hash_of store q stored)
  pub out : get q.message_id c.entries ≡ none
  pub flies : get q.message_id c.in_flight_hashes ≡ some (hash_of store q stored)

-- What the scan of a queue answers, with the controller that it leaves.
pub data Answer (now : Readiness) (a : Assignments) (store : Store) (start : RedeliveryController)
    : List RedeliveryEntry → RedeliveryController × Popped → Type 0 where
  nothing_left : (c : RedeliveryController) → Answer now a store start [] (c, nothing)
  handed :
      (q : RedeliveryEntry) (queue : List RedeliveryEntry) (c : RedeliveryController)
      (entry : RedeliveryEntry) (stored : StoredMessage) (consumer : Consumer)
      → IsHandedOut now a store start q c entry stored consumer
      → Answer now a store start (q ∷ queue) (c, popped entry stored consumer)
  failed :
      (q : RedeliveryEntry) (queue : List RedeliveryEntry) (c : RedeliveryController)
      → store.is_acknowledged q.message_id ≡ none
      → Answer now a store start (q ∷ queue) (c, storage_error)
  later :
      (q : RedeliveryEntry) (queue : List RedeliveryEntry) (r : RedeliveryController × Popped)
      → Passed now a store start q
      → Answer now a store start queue r
      → Answer now a store start (q ∷ queue) r

-- The scan keeps the counts, and its answer is right.
abbrev pub IsGood :
    Readiness
    → Assignments
    → Store
    → RedeliveryController
    → List RedeliveryEntry
    → RedeliveryController × Popped
    → Type 0
IsGood now a store start queue r = IsCounted r.0 × Answer now a store start queue r
