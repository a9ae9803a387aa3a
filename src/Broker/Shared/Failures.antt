-- ===== src/Broker/Shared/Failures.antt =====
-- A redelivery while the storage fails.
use pulsar_lite.Prelude.{
  ℕ, suc, ◌-◌, true, false, Option, none, some, List, ◌∷◌, leb, if◌then◌else◌, ◌≡◌, refl, ap, ◌∙◌,
  arith, get_elem?, ◌+◌, length,
}
use pulsar_lite.Prelude.Int.{ℤ, pos, lt_int}
use pulsar_lite.Prelude.Results.{err}
use pulsar_lite.ManagedLedger.Position.{MessageId}
use pulsar_lite.Broker.PendingAcks.{pending_len}
use pulsar_lite.Broker.ReadPosition.{DispatchError}
use pulsar_lite.Broker.Redelivery.{RedeliveryController, RedeliveryEntry, pop_next, decrement_hash}
use pulsar_lite.Broker.Shared.{
  Consumer, SharedDispatcher, ordered_consumers, choose, choose_at, chosen,
  get_next_available_consumer, modulo,
}
use pulsar_lite.Broker.Shared.Turns.{current_of}
use pulsar_lite.Broker.Shared.Batch.{Storage, Batch, batch_loop, max_batch, dispatch_messages_batch}

decrement_hash-entries :
    (c : RedeliveryController) (o : Option ℤ) → (decrement_hash c o).entries ≡ c.entries
unfolding decrement_hash
decrement_hash-entries c none = refl
decrement_hash-entries c (some hash) = ground arith

-- The entry is in no queue, and no consumer has it.
pub record IsLost (d : SharedDispatcher) (rest : List (MessageId × RedeliveryEntry))
    (f : DispatchError) (r : Batch) : Type 0 where
  pub fails : r.1 ≡ err f
  pub queue : r.0.redelivery_controller.entries ≡ rest
  pub consumers : r.0.consumers ≡ d.consumers
  pub read_position : r.0.read_position ≡ d.read_position

chosen-same :
    (d : SharedDispatcher) (l : List Consumer) (o : Option ℕ)
    → (n : ℕ) × ((chosen d l o).0 ≡ record d { round_robin_index = n })
chosen-same d l none = (d.round_robin_index, refl)
chosen-same d l (some i) = (modulo (i + 1) (length l), refl)

choose_at-same :
    (d : SharedDispatcher) (l : List Consumer) (i : ℕ) (o : Option Consumer)
    → (n : ℕ) × ((choose_at d l i o).0 ≡ record d { round_robin_index = n })
choose_at-same d l i none = (d.round_robin_index, refl)
choose_at-same d l i (some c) = chosen-same d l (choose l i c)

-- Choosing a consumer moves the index, and nothing else.
pub get_next-same :
    (d : SharedDispatcher)
    → (n : ℕ) × ((get_next_available_consumer d).0 ≡ record d { round_robin_index = n })
unfolding get_next_available_consumer
get_next-same d =
    choose_at-same d (ordered_consumers d) (current_of d)
      (get_elem? (ordered_consumers d) (current_of d))

pop_next-first :
    (c : RedeliveryController) (id : MessageId) (queued : RedeliveryEntry)
    (rest : List (MessageId × RedeliveryEntry))
    → c.entries ≡ (id, queued) ∷ rest
    → (r : RedeliveryController) × (pop_next c ≡ (r, some queued)) × (r.entries ≡ rest)
unfolding pop_next
pop_next-first c id queued rest h = (
  decrement_hash (record c { entries = rest }) queued.sticky_key_hash,
  ap (λ l. pop_next (record c { entries = l })) h,
  decrement_hash-entries (record c { entries = rest }) queued.sticky_key_hash,
)

module _ (rounds fuel now : ℕ) (storage : Storage) (d : SharedDispatcher) (c : Consumer)
    (id : MessageId) (queued : RedeliveryEntry) (rest : List (MessageId × RedeliveryEntry))
    (f : DispatchError) where
  batch_loop-IsLost :
      (left n : ℕ)
      → get_next_available_consumer d ≡ (record d { round_robin_index = n }, some c)
      → leb d.max_unacked_messages (pending_len c.state.pending_acks) ≡ false
      → d.redelivery_controller.entries ≡ (id, queued) ∷ rest
      → storage.log.is_acknowledged queued.message_id ≡ err f
      → IsLost d rest f (batch_loop rounds fuel now storage (suc left) d 0)
  unfolding batch_loop
  batch_loop-IsLost left n next budget first fails =
      let (r, pops, entries) = pop_next-first d.redelivery_controller id queued rest first in
      rw (next, budget, if◌then◌else◌, pops, fails)
        (record { fails = refl; queue = entries; consumers = refl; read_position = refl })

  -- With permits, a next consumer within its budget, and an entry in front of the redelivery queue
  -- for which the storage fails to say whether it is acknowledged: dispatch_messages_batch returns
  -- the error, and the entry is out of the queue while no consumer and no read position has
  -- changed.
  pub dispatch_messages_batch-IsLost :
      lt_int (pos 0) d.total_available_permits ≡ true
      → (get_next_available_consumer d).1 ≡ some c
      → leb d.max_unacked_messages (pending_len c.state.pending_acks) ≡ false
      → d.redelivery_controller.entries ≡ (id, queued) ∷ rest
      → storage.log.is_acknowledged queued.message_id ≡ err f
      → IsLost d rest f (dispatch_messages_batch rounds fuel now storage d)
  unfolding dispatch_messages_batch
  dispatch_messages_batch-IsLost permits next budget first fails =
      let (n, same) = get_next-same d in
      let size : max_batch d ≡ suc (max_batch d - 1) = ground arith in
      let both : get_next_available_consumer d ≡ (record d { round_robin_index = n }, some c) =
        ap (λ (e : SharedDispatcher). (e, (get_next_available_consumer d).1)) same
        ∙ ap (λ (o : Option Consumer). (record d { round_robin_index = n }, o)) next in
      rw (permits, if◌then◌else◌, size)
        (batch_loop-IsLost (max_batch d - 1) n both budget first fails)
