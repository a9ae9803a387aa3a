-- ===== src/Broker/KeyShared/Underflow.antt =====
-- A round of key_shared.rs that sends two messages while one dispatch remains, and what comes after.
use pulsar_lite.Prelude.{
  ℕ, suc, ◌+◌, true, some, Option, if◌then◌else◌, ◌≡◌, ◌<◌, ◌≤◌, ◌-◌, ◌==◌, zero, false, ap, sym,
  ◌∙◌, arith,
}
use pulsar_lite.Prelude.Results.{ok}
use pulsar_lite.ManagedLedger.Position.{ManagedLedgerPosition, StoredMessage}
use pulsar_lite.Broker.ConsumerDispatch.{ConsumerState, try_use_permits}
use pulsar_lite.Broker.ReadPosition.{ReadCandidate}
use pulsar_lite.Broker.Redelivery.{RedeliveryController, RedeliveryEntry, is_hash_blocked}
use pulsar_lite.Broker.KeyShared.{Consumer, select_consumer_for_hash}
use pulsar_lite.Broker.KeyShared.Redelivered.{
  popped, nothing, hash_of, pop_dispatchable_redelivery_message,
}
use pulsar_lite.Broker.KeyShared.Batch.{
  KeySharedDispatcher, Storage, readiness, put_state, subtract_total_permits, send,
  next_dispatchable_message, state_of, at_position, Again, one_less,
}
use pulsar_lite.Broker.KeyShared.Rounds.{
  batch_loop, second_half, max_batch, dispatch_messages_batch,
}
use pulsar_lite.Broker.KeyShared.Channels.{in_channels, one_sent, state_of-get}
use pulsar_lite.Broker.KeyShared.Growth.{batch_loop-grows}

-- What a round finds that can send a redelivery.
pub record SendsRedelivery (now : ℕ) (storage : Storage) (d e : KeySharedDispatcher) : Type 0 where
  pub controller : RedeliveryController
  pub entry : RedeliveryEntry
  pub stored : StoredMessage
  pub consumer : Consumer
  pub id : ℕ
  pub before : ConsumerState
  pub used : ConsumerState
  pub sent : ConsumerState
  pub pops :
      pop_dispatchable_redelivery_message
        (readiness d)
        d.assignments
        storage.store
        d.redelivery_controller
      ≡ (controller, popped entry stored consumer)
  pub is_there :
      state_of (record d { redelivery_controller = controller }) (some consumer) ≡ some (id, before)
  pub has_permits :
      try_use_permits before (storage.messages_in_batch stored.metadata) ≡ (used, true)
  pub sends :
      send now used stored.message_id stored.metadata stored.payload entry.redelivery_count
        (hash_of storage.store entry stored)
      ≡ (sent, true)
  pub leaves :
      put_state id sent (
        subtract_total_permits
          (storage.messages_in_batch stored.metadata)
          (put_state id used (record d { redelivery_controller = controller })))
      ≡ e

-- What it finds that can send a new message after it.
pub record SendsNew (rounds fuel now : ℕ) (storage : Storage) (d e : KeySharedDispatcher)
    : Type 0 where
  pub position : Option ManagedLedgerPosition
  pub candidate : ReadCandidate
  pub id : ℕ
  pub before : ConsumerState
  pub used : ConsumerState
  pub sent : ConsumerState
  pub reads :
      next_dispatchable_message rounds fuel storage.log d d.read_position
      ≡ (position, ok (some candidate))
  pub is_free :
      is_hash_blocked d.redelivery_controller
        (storage.store.sticky_key_hash_from_metadata candidate.metadata)
      ≡ false
  pub selects :
      state_of
        (record d { read_position = position })
        (select_consumer_for_hash
          (readiness d)
          d.assignments
          (storage.store.sticky_key_hash_from_metadata candidate.metadata))
      ≡ some (id, before)
  pub has_permits :
      try_use_permits before (storage.messages_in_batch candidate.metadata) ≡ (used, true)
  pub sends :
      send now used candidate.message_id candidate.metadata candidate.payload 0
        (storage.store.sticky_key_hash_from_metadata candidate.metadata)
      ≡ (sent, true)
  pub leaves :
      at_position candidate.next_position (
        put_state id sent (
          subtract_total_permits
            (storage.messages_in_batch candidate.metadata)
            (put_state id used (record d { read_position = position }))))
      ≡ e

-- Rounds that find no redelivery and send a new message, as many as the number says.
pub data SendsMore (rounds fuel now : ℕ) (storage : Storage)
    : ℕ → KeySharedDispatcher → Type 0 where
  done : (d : KeySharedDispatcher) → SendsMore rounds fuel now storage 0 d
  then_new :
      (k : ℕ) (d e : KeySharedDispatcher) (controller : RedeliveryController)
      → pop_dispatchable_redelivery_message
          (readiness d)
          d.assignments
          storage.store
          d.redelivery_controller
        ≡ (controller, nothing)
      → SendsNew rounds fuel now storage (record d { redelivery_controller = controller }) e
      → SendsMore rounds fuel now storage k e
      → SendsMore rounds fuel now storage (suc k) d

module _ (turns rounds fuel now : ℕ) (storage : Storage) where
  abbrev again : Again
  again d remaining progress = batch_loop turns rounds fuel now storage d remaining progress

  first_half :
      (d e : KeySharedDispatcher) (progress : ℕ)
      → SendsRedelivery now storage d e
      → batch_loop (suc turns) rounds fuel now storage d 1 progress
        ≡ second_half rounds fuel now storage again e 0 (progress + 1)
  unfolding batch_loop
  first_half d e progress r =
      rw (r.pops, r.is_there, r.has_permits, r.sends)
        (ap (λ x. second_half rounds fuel now storage again x 0 (progress + 1)) r.leaves)

  second_half_sent :
      (e f : KeySharedDispatcher) (remaining progress : ℕ)
      → SendsNew rounds fuel now storage e f
      → second_half rounds fuel now storage again e remaining progress
        ≡ again f (one_less remaining) (progress + 1)
  second_half_sent e f remaining progress n =
      rw (n.reads, n.is_free, if◌then◌else◌, n.selects, n.has_permits, n.sends)
        (ap (λ x. again x (one_less remaining) (progress + 1)) n.leaves)

  batch_loop-sends :
      (d e f : KeySharedDispatcher) (progress : ℕ)
      → SendsRedelivery now storage d e
      → SendsNew rounds fuel now storage e f
      → batch_loop (suc turns) rounds fuel now storage d 1 progress
        ≡ batch_loop turns rounds fuel now storage f 4294967295 (progress + 1 + 1)
  batch_loop-sends d e f progress r n =
      first_half d e progress r ∙ second_half_sent e f 0 (progress + 1) n

module _ (rounds fuel now : ℕ) (storage : Storage) where
  redelivery-channels :
      (d e : KeySharedDispatcher)
      → SendsRedelivery now storage d e
      → in_channels e ≡ in_channels d + 1
  redelivery-channels d e r =
      ap in_channels (sym r.leaves)
      ∙ one_sent r.id (storage.messages_in_batch r.stored.metadata) _ _ r.before r.used r.sent
          d.states
          (state_of-get (record d { redelivery_controller = r.controller }) (some r.consumer) r.id
            r.before r.is_there)
          r.has_permits r.sends

  new-channels :
      (d e : KeySharedDispatcher)
      → SendsNew rounds fuel now storage d e
      → in_channels e ≡ in_channels d + 1
  new-channels d e n =
      ap in_channels (sym n.leaves)
      ∙ one_sent n.id (storage.messages_in_batch n.candidate.metadata) _ _ n.before n.used n.sent
          d.states
          (state_of-get (record d { read_position = n.position })
            (select_consumer_for_hash (readiness d) d.assignments
              (storage.store.sticky_key_hash_from_metadata n.candidate.metadata))
            n.id n.before n.selects)
          n.has_permits n.sends

  -- While dispatches remain, each of these rounds puts a message into a channel.
  more-channels :
      (turns k : ℕ) (d : KeySharedDispatcher) (remaining progress : ℕ)
      → SendsMore rounds fuel now storage k d
      → k ≤ turns
      → k ≤ remaining
      → remaining < 4294967296
      → in_channels d + k
        ≤ in_channels (batch_loop turns rounds fuel now storage d remaining progress).0
  unfolding batch_loop
  more-channels turns zero d remaining progress (done _) h l low =
      omega (arith, batch_loop-grows turns rounds fuel now storage d remaining progress)
  more-channels zero (suc k) d remaining progress m h l low = absurd (omega arith)
  more-channels (suc turns) (suc k) d remaining progress (then_new _ _ e c pops sends more) h l
        low =
      let some_left : (remaining == 0) ≡ false = ground arith in
      let less : one_less remaining ≡ remaining - 1 = omega arith in
      let first = new-channels (record d { redelivery_controller = c }) e sends in
      let rest =
        more-channels turns k e (remaining - 1) (progress + 1) more (omega arith) (omega arith)
          (omega arith) in
      rw
        (
          some_left,
          if◌then◌else◌,
          pops,
          second_half_sent turns rounds fuel now storage (record d { redelivery_controller = c }) e
              remaining progress sends,
          less,
        )
        (omega (arith, first, rest))

  -- Where the limit of a batch is one dispatch, its first round can send a redelivery and then a
  -- new message, and k further rounds, of which k is a u32 and no more than there is fuel, find no
  -- redelivery and can send a new message: dispatch_messages_batch puts at least k + 2 messages
  -- into the channels of the consumers, for every k, as the second subtraction of the first round
  -- wraps around.
  pub batch_loop_underflow :
      (turns k : ℕ) (d e f : KeySharedDispatcher)
      → max_batch d ≡ 1
      → SendsRedelivery now storage d e
      → SendsNew rounds fuel now storage e f
      → SendsMore rounds fuel now storage k f
      → k ≤ turns
      → k < 4294967296
      → in_channels d + 2 + k
        ≤ in_channels (dispatch_messages_batch (suc turns) rounds fuel now storage d).0
  unfolding dispatch_messages_batch
  batch_loop_underflow turns k d e f one r n m h low =
      let more = redelivery-channels d e r in
      let most = new-channels e f n in
      let rest = more-channels turns k f 4294967295 2 m h (omega arith) (omega arith) in
      rw (one, if◌then◌else◌, batch_loop-sends turns rounds fuel now storage d e f 0 r n)
        (omega (arith, more, most, rest))
