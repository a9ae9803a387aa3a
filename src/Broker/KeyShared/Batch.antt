-- ===== src/Broker/KeyShared/Batch.antt =====
-- rust/src/broker/dispatcher/key_shared.rs: the dispatch of a batch, with the whole state. What a
-- consumer's permits, connection and pending messages are stands by its id. Arithmetic on `u32`
-- wraps around, as it does where a release build has no overflow checks.
use pulsar_lite.Prelude.{
  ℕ, zero, suc, ◌+◌, ◌%◌, Bool, true, false, ◌||◌, Option, none, some, List, [], ◌∷◌, if◌then◌else◌,
}
use pulsar_lite.Prelude.Int.{ℤ, plus_int, wrap_i32, to_i32, pos_part, minus_int}
use pulsar_lite.Prelude.Maps.{get, insert_entry, nat_key}
use pulsar_lite.Prelude.Results.{Result, ok, err}
use pulsar_lite.ManagedLedger.Position.{ManagedLedgerPosition, MessageId}
use pulsar_lite.Broker.PendingAcks.{contains_pending}
use pulsar_lite.Broker.ConsumerDispatch.{
  ConsumerState, add_permits, try_use_permits, send_message_with_sticky_hash,
}
use pulsar_lite.Broker.ReadPosition.{
  Log, Read, ReadCandidate, DispatchError, out_of_fuel, next_unacked_candidate,
}
use pulsar_lite.Broker.Redelivery.{
  RedeliveryController, RedeliveryEntry, add, restore, is_hash_blocked,
}
use pulsar_lite.Broker.Shared.Consumers.{saturate}
use pulsar_lite.Broker.KeyShared.{Assignments, Consumer, Readiness, select_consumer_for_hash}
use pulsar_lite.Broker.KeyShared.Redelivered.{Store}

pub record KeySharedDispatcher : Type 0 where
  pub assignments : Assignments
  pub states : List (ℕ × ConsumerState)
  pub total_available_permits : ℤ
  pub read_position : Option ManagedLedgerPosition
  pub redelivery_controller : RedeliveryController

pub record Storage : Type 0 where
  pub log : Log
  pub store : Store
  pub messages_in_batch : List ℕ → ℕ

abbrev pub permits_now : Option ConsumerState → ℕ
permits_now none = 0
permits_now (some s) = pos_part s.available_permits

abbrev pub writable_now : Option ConsumerState → Bool
writable_now none = false
writable_now (some s) = s.is_writable

abbrev pub readiness : KeySharedDispatcher → Readiness
readiness d = record {
  available_permits_now = λ id. permits_now (get id d.states);
  is_writable = λ id. writable_now (get id d.states);
}

abbrev pub put_state : ℕ → ConsumerState → KeySharedDispatcher → KeySharedDispatcher
put_state id s d = record d { states = insert_entry id s d.states }

abbrev pub subtract_total_permits : ℕ → KeySharedDispatcher → KeySharedDispatcher
subtract_total_permits n d = record d {
  total_available_permits = saturate (minus_int d.total_available_permits (to_i32 n));
}

abbrev pub add_total_permits : ℕ → KeySharedDispatcher → KeySharedDispatcher
add_total_permits n d = record d {
  total_available_permits = wrap_i32 (plus_int d.total_available_permits (to_i32 n));
}

abbrev pub restored : RedeliveryEntry → KeySharedDispatcher → KeySharedDispatcher
restored entry d = record d { redelivery_controller = restore d.redelivery_controller entry }

abbrev pub at_position : ManagedLedgerPosition → KeySharedDispatcher → KeySharedDispatcher
at_position p d = record d { read_position = some p }

unfoldable pub any_pending : MessageId → List (ℕ × ConsumerState) → Bool
any_pending id [] = false
any_pending id ((_, s) ∷ rest) = contains_pending s.pending_acks id || any_pending id rest

abbrev pub pass_pending : KeySharedDispatcher → (Option ManagedLedgerPosition → Read) → Read → Read
pass_pending d again (rp, err e) = (rp, err e)
pass_pending d again (rp, ok none) = (rp, ok none)
pass_pending d again (rp, ok (some candidate)) =
    if any_pending candidate.message_id d.states
    then again (some candidate.next_position)
    else (rp, ok (some candidate))

unfoldable pub next_dispatchable_message :
    ℕ → ℕ → Log → KeySharedDispatcher → Option ManagedLedgerPosition → Read
next_dispatchable_message zero fuel log d rp = (rp, err out_of_fuel)
next_dispatchable_message (suc rounds) fuel log d rp =
    pass_pending d (λ p. next_dispatchable_message rounds fuel log d p)
      (next_unacked_candidate fuel log rp)

abbrev pub Batch : Type 0
Batch = KeySharedDispatcher × Result DispatchError ℕ

-- What goes on with the state, the dispatches that remain, and the progress.
abbrev pub Again : Type 0
Again = KeySharedDispatcher → ℕ → ℕ → Batch

-- `remaining_dispatches -= 1`.
abbrev pub one_less : ℕ → ℕ
one_less remaining = (remaining + 4294967295) % 4294967296

-- A message of a consumer: `metadata` and `payload` are the stored ones.
abbrev pub send : ℕ → ConsumerState → MessageId → List ℕ → List ℕ → ℕ → ℤ → ConsumerState × Bool
send now s id metadata payload redelivery_count hash =
    send_message_with_sticky_hash s
      (record {
        message_id = id;
        metadata = metadata;
        payload = payload;
        redelivery_count = redelivery_count;
      })
      (record {
        dispatched_at = now;
        redelivery_count = redelivery_count;
        sticky_key_hash = some hash;
      })

-- The new message is sent, or it goes into the redelivery queue.
abbrev pub sent_new :
    Again → KeySharedDispatcher → ℕ → ReadCandidate → ℤ → ℕ → ℕ → ℕ → ConsumerState × Bool → Batch
sent_new again d id candidate hash batch_count remaining progress (s, true) =
    again (at_position candidate.next_position (put_state id s d)) (one_less remaining)
      (progress + 1)
sent_new again d id candidate hash batch_count remaining progress (s, false) = (
  add_total_permits batch_count (
      at_position candidate.next_position (
        restored
          (record {
            message_id = candidate.message_id;
            redelivery_count = 1;
            sticky_key_hash = some hash;
          })
          (put_state id (add_permits s batch_count) d))),
  ok progress,
)

abbrev pub use_new :
    ℕ
    → Again
    → KeySharedDispatcher
    → ℕ
    → ReadCandidate
    → ℤ
    → ℕ
    → ℕ
    → ℕ
    → ConsumerState × Bool
    → Batch
use_new now again d id candidate hash batch_count remaining progress (s, false) =
    (put_state id s d, ok progress)
use_new now again d id candidate hash batch_count remaining progress (s, true) =
    sent_new again (subtract_total_permits batch_count (put_state id s d)) id candidate hash
      batch_count remaining progress
      (send now s candidate.message_id candidate.metadata candidate.payload 0 hash)

-- The consumer that owns the hash, with its state.
abbrev pub state_of : KeySharedDispatcher → Option Consumer → Option (ℕ × ConsumerState)
state_of d none = none
state_of d (some c) = elim (get c.consumer_id d.states) [
  | none ↦ none
  | some s ↦ some (c.consumer_id, s)
]

abbrev pub send_new :
    ℕ
    → Again
    → KeySharedDispatcher
    → ReadCandidate
    → ℤ
    → ℕ
    → ℕ
    → ℕ
    → Option (ℕ × ConsumerState)
    → Batch
send_new now again d candidate hash batch_count remaining progress none = (d, ok progress)
send_new now again d candidate hash batch_count remaining progress (some (id, s)) =
    use_new now again d id candidate hash batch_count remaining progress
      (try_use_permits s batch_count)

abbrev pub hold_back : KeySharedDispatcher → ReadCandidate → ℤ → KeySharedDispatcher
hold_back d candidate hash = at_position candidate.next_position (record d {
  redelivery_controller = add d.redelivery_controller (record {
    message_id = candidate.message_id;
    redelivery_count = 0;
    sticky_key_hash = some hash;
  });
})

-- The second half of a round.
abbrev pub new_message : ℕ → Storage → Again → KeySharedDispatcher → ℕ → ℕ → Read → Batch
new_message now storage again d remaining progress (rp, err e) =
    (record d { read_position = rp }, err e)
new_message now storage again d remaining progress (rp, ok none) =
    (record d { read_position = rp }, ok progress)
new_message now storage again d remaining progress (rp, ok (some candidate)) =
    let here = record d { read_position = rp } in
    let hash = storage.store.sticky_key_hash_from_metadata candidate.metadata in
    if is_hash_blocked d.redelivery_controller hash
    then again (hold_back here candidate hash) remaining (progress + 1)
    else send_new now again here candidate hash (storage.messages_in_batch candidate.metadata)
        remaining progress
        (state_of here (select_consumer_for_hash (readiness here) here.assignments hash))
