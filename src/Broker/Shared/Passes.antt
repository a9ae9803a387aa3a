-- ===== src/Broker/Shared/Passes.antt =====
-- rust/src/broker/dispatcher/shared.rs: the passes of a dispatch with its two flags, and what an
-- acknowledgement does. Between the passes other calls may set the flags, as `Between` says.
use pulsar_lite.Prelude.{
  ℕ, zero, suc, Bool, true, false, Option, none, some, List, [], ◌∷◌, if◌then◌else◌, ◌≡◌, refl,
  arith, Bool-cases, inl, inr, ◌||◌,
}
use pulsar_lite.Prelude.Int.{pos, eq_int}
use pulsar_lite.Prelude.Results.{Result, ok, err, ◌>>=◌}
use pulsar_lite.ManagedLedger.Position.{ManagedLedgerPosition, MessageId, lt_position}
use pulsar_lite.Broker.ReadPosition.{Log, DispatchError, out_of_fuel}
use pulsar_lite.Broker.Redelivery.{RedeliveryController, remove, queued_message_ids}
use pulsar_lite.Broker.Shared.{SharedDispatcher}
use pulsar_lite.Broker.Shared.Batch.{Storage, Batch, dispatch_messages_batch}

abbrev pub on_message_acknowledged : SharedDispatcher → MessageId → SharedDispatcher
on_message_acknowledged d id = record d {
  redelivery_controller = (remove d.redelivery_controller id).0;
}

-- The queued messages that are acknowledged.
unfoldable pub acked_redeliveries : Log → List MessageId → Result DispatchError (List MessageId)
acked_redeliveries log [] = ok []
acked_redeliveries log (id ∷ rest) = do
  acked ← log.is_acknowledged id
  others ← acked_redeliveries log rest
  ok (if acked then id ∷ others else others)

unfoldable pub remove_all : RedeliveryController → List MessageId → RedeliveryController
remove_all c [] = c
remove_all c (id ∷ rest) = remove_all (remove c id).0 rest

abbrev pub moved_read_position :
    Option ManagedLedgerPosition → Option ManagedLedgerPosition → Option ManagedLedgerPosition
moved_read_position (some current) (some first_unacked) =
    if lt_position current first_unacked then some first_unacked else some current
moved_read_position (some current) none = none
moved_read_position none first_unacked = none

abbrev pub with_acks :
    SharedDispatcher
    → Result DispatchError (List MessageId × Option ManagedLedgerPosition)
    → SharedDispatcher × Result DispatchError (Unit {0})
with_acks d (err e) = (d, err e)
with_acks d (ok (acked, first_unacked)) = (
  record d {
    redelivery_controller = remove_all d.redelivery_controller acked;
    read_position = moved_read_position d.read_position first_unacked;
  },
  ok tt,
)

unfoldable pub on_ack_state_updated :
    Log → SharedDispatcher → SharedDispatcher × Result DispatchError (Unit {0})
on_ack_state_updated log d = with_acks d (do
  acked ← acked_redeliveries log (queued_message_ids d.redelivery_controller)
  first_unacked ← log.first_unacked_position
  ok (acked, first_unacked))

-- What other calls do while a pass runs, and at its end: whether one has asked for one more pass,
-- and whether one takes the guard in the moment in which it is free.
pub record Between : Type 0 where
  pub asked : Bool
  pub taken : Bool

abbrev pub Pass : Type 0
Pass = SharedDispatcher × Result DispatchError (Unit {0})

abbrev pub after_batch : (SharedDispatcher → Pass) → Batch → Pass
after_batch again (d, err e) = (d, err e)
after_batch again (d, ok zero) = (d, ok tt)
after_batch again (d, ok (suc n)) =
    if eq_int d.total_available_permits (pos 0) then (d, ok tt) else again d

-- The inner loop: batches while they send something and permits are left.
unfoldable pub pass_loop : ℕ → ℕ → ℕ → ℕ → Storage → SharedDispatcher → Pass
pass_loop zero rounds fuel now storage d = (d, err out_of_fuel)
pass_loop (suc batches) rounds fuel now storage d =
    after_batch (λ e. pass_loop batches rounds fuel now storage e)
      (dispatch_messages_batch rounds fuel now storage d)

abbrev pub flags : Bool → SharedDispatcher → SharedDispatcher
flags in_progress d = record d { dispatch_in_progress = in_progress; should_reschedule = false }

-- The end of a pass, with one more where a call has asked for it.
abbrev pub after_pass : (SharedDispatcher → Pass) → Between → Pass → Pass
after_pass again between (d, err e) = (d, err e)
after_pass again between (d, ok u) =
    if d.should_reschedule || between.asked
    then (if between.taken then (flags true d, ok tt) else again (flags true d))
    else (flags false d, ok tt)

unfoldable pub passes_loop : ℕ → ℕ → ℕ → ℕ → Storage → List Between → SharedDispatcher → Pass
passes_loop batches rounds fuel now storage [] d = (d, err out_of_fuel)
passes_loop batches rounds fuel now storage (between ∷ rest) d =
    after_pass (λ e. passes_loop batches rounds fuel now storage rest e) between
      (pass_loop batches rounds fuel now storage d)

-- An error leaves the loop with the guard still held.
abbrev pub release_on_error : Pass → Pass
release_on_error (d, err e) = (record d { dispatch_in_progress = false }, err e)
release_on_error (d, ok u) = (d, ok u)

unfoldable pub dispatch_messages : ℕ → ℕ → ℕ → ℕ → Storage → List Between → SharedDispatcher → Pass
dispatch_messages batches rounds fuel now storage betweens d =
    if d.dispatch_in_progress
    then (record d { should_reschedule = true }, ok tt)
    else release_on_error (
        passes_loop batches rounds fuel now storage betweens
          (record d { dispatch_in_progress = true }))

abbrev pub any_taken : List Between → Bool
any_taken [] = false
any_taken (b ∷ rest) = b.taken || any_taken rest

module _ (batches rounds fuel now : ℕ) (storage : Storage) where
  after_pass-released :
      (between : Between) (rest : List Between)
      → ((e : SharedDispatcher)
          → any_taken rest ≡ false
          → (release_on_error
              (passes_loop batches rounds fuel now storage rest e)).0.dispatch_in_progress
            ≡ false)
      → any_taken (between ∷ rest) ≡ false
      → (p : Pass)
      → (release_on_error (
          after_pass
            (λ e. passes_loop batches rounds fuel now storage rest e)
            between
            p)).0.dispatch_in_progress
        ≡ false
  after_pass-released between rest on h (d, err e) = refl
  after_pass-released between rest on h (d, ok u) =
      elim (Bool-cases (d.should_reschedule || between.asked)) [
        | inr n ↦ rw (n, if◌then◌else◌) refl
        | inl y ↦ elim (Bool-cases between.taken) [
          | inl t ↦ absurd (ground arith)
          | inr f ↦ rw (y, f, if◌then◌else◌) (on (flags true d) (ground arith))
        ]
      ]

  passes_loop-released :
      (betweens : List Between) (d : SharedDispatcher)
      → any_taken betweens ≡ false
      → (release_on_error
          (passes_loop batches rounds fuel now storage betweens d)).0.dispatch_in_progress
        ≡ false
  unfolding passes_loop
  passes_loop-released [] d h = refl
  passes_loop-released (between ∷ rest) d h =
      after_pass-released between rest (λ e k. passes_loop-released rest e k) h
        (pass_loop batches rounds fuel now storage d)

  -- Where no dispatch is in progress and no other call takes the guard between two passes,
  -- dispatch_messages leaves the guard free, also when the storage fails in any pass.
  pub dispatch_messages-released :
      (betweens : List Between) (d : SharedDispatcher)
      → d.dispatch_in_progress ≡ false
      → any_taken betweens ≡ false
      → (dispatch_messages batches rounds fuel now storage betweens d).0.dispatch_in_progress
        ≡ false
  unfolding dispatch_messages
  dispatch_messages-released betweens d free h =
      rw (free, if◌then◌else◌)
        (passes_loop-released betweens (record d { dispatch_in_progress = true }) h)
