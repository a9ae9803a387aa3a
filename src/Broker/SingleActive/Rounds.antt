-- ===== src/Broker/SingleActive/Rounds.antt =====
-- The loop over batches ends, and what all batches send is in the order of the log.
use mathlib.Core.List.{append_assoc, append-nil}
use pulsar_lite.Prelude.{
  ℕ, zero, suc, ◌+◌, ◌<◌, some, List, [], ◌∷◌, ◌++◌, length, map, if◌then◌else◌, ◌==◌, ◌≡◌, refl,
  ap, sym, subst, ◌∙◌, arith, length-append, Bool-cases, inl, inr,
}
use pulsar_lite.Prelude.Results.{Result, ok}
use pulsar_lite.ManagedLedger.Position.{ManagedLedgerPosition, StoredMessage}
use pulsar_lite.Broker.ConsumerDispatch.{PendingMessage}
use pulsar_lite.Broker.ReadPosition.{Log, DispatchError}
use pulsar_lite.Broker.ReadPosition.Candidates.{IsLog, unacked}
use pulsar_lite.Broker.SingleActive.{Active, batch_loop, dispatch_loop, batch_size, after_batch}
use pulsar_lite.Broker.SingleActive.Permits.{
  IsInRange, HasSpent, same-HasSpent, more-HasSpent, spent-IsInRange,
}
use pulsar_lite.Broker.SingleActive.Delivery.{Delivered, Stop, no_count, batch_loop-Delivered}
use pulsar_lite.Broker.SingleActive.Sends.{text}

module _ (log : Log) (v : IsLog log) where
  -- The call returns; `sent` went to the channel in the order of the log, and the read position
  -- stands before what is left.
  pub record HasDispatched (a : Active) (messages : List StoredMessage)
      (r : Active × Result DispatchError (Unit {0})) : Type 0 where
    pub final : Active
    pub sent : List PendingMessage
    pub position : ManagedLedgerPosition
    pub left : List StoredMessage
    pub returns : r ≡ (final, ok tt)
    pub queued : final.consumer.queue ≡ a.consumer.queue ++ sent
    pub stands : final.read_position ≡ some position
    pub leaves : v.from position ≡ left
    pub stops : Stop v.acked final left
    pub spends : HasSpent a final (length sent)
    pub in_order : map text (unacked v.acked messages) ≡ sent ++ map text (unacked v.acked left)

  -- The batch is the last one.
  last-HasDispatched :
      (size : ℕ) (a : Active) (messages : List StoredMessage) (r : Active × Result DispatchError ℕ)
      (s : Active × Result DispatchError (Unit {0})) (d : Delivered log v size a messages 0 r)
      → s ≡ (d.final, ok tt)
      → Stop v.acked d.final d.left
      → HasDispatched a messages s
  last-HasDispatched size a messages r s d e why = record {
    final = d.final;
    sent = d.sent;
    position = d.position;
    left = d.left;
    returns = e;
    queued = d.queued;
    stands = d.stands;
    leaves = d.leaves;
    in_order = d.in_order;
    spends = d.spends;
    stops = why;
  }

  -- Other batches come after it.
  more-HasDispatched :
      (size : ℕ) (a : Active) (messages : List StoredMessage) (r : Active × Result DispatchError ℕ)
      (s : Active × Result DispatchError (Unit {0})) (d : Delivered log v size a messages 0 r)
      → HasDispatched d.final d.left s
      → HasDispatched a messages s
  more-HasDispatched size a messages r s d e = record {
    final = e.final;
    sent = d.sent ++ e.sent;
    position = e.position;
    left = e.left;
    returns = e.returns;
    queued =
        e.queued ∙ ap (λ q. q ++ e.sent) d.queued ∙ append_assoc a.consumer.queue d.sent e.sent;
    stands = e.stands;
    leaves = e.leaves;
    stops = e.stops;
    spends =
        subst (HasSpent a e.final) (sym (length-append d.sent e.sent))
          (more-HasSpent a d.final e.final (length d.sent) (length e.sent) d.spends e.spends);
    in_order =
        d.in_order
        ∙ ap (λ l. d.sent ++ l) e.in_order
        ∙ sym (append_assoc d.sent e.sent (map text (unacked v.acked e.left)));
  }

  module _ (fuel now rounds : ℕ)
      (on : (a : Active) (p : ManagedLedgerPosition) (messages : List StoredMessage)
        → a.read_position ≡ some p
        → v.from p ≡ messages
        → length messages < rounds
        → length messages < fuel
        → IsInRange a
        → HasDispatched a messages (dispatch_loop rounds fuel now log a)) where
    after_batch-HasDispatched :
        (size : ℕ) (a : Active) (messages : List StoredMessage)
        (r : Active × Result DispatchError ℕ) (d : Delivered log v size a messages 0 r)
        (sent : List PendingMessage)
        → d.sent ≡ sent
        → 0 < size
        → length messages < suc rounds
        → length messages < fuel
        → IsInRange a
        → HasDispatched a messages (after_batch (λ b. dispatch_loop rounds fuel now log b) r)
    after_batch-HasDispatched size a messages r d [] e big h k ranged =
        let n : 0 + length d.sent ≡ 0 = let z = ap length e in omega arith in
        last-HasDispatched size a messages r
          (after_batch (λ b. dispatch_loop rounds fuel now log b) r) d
          (ap (after_batch (λ b. dispatch_loop rounds fuel now log b))
            (d.returns ∙ ap (λ c. (d.final, ok c)) n))
          (elim d.stops [ inl full ↦ absurd (omega arith) | inr why ↦ why ])
    after_batch-HasDispatched size a messages r d (x ∷ xs) e big h k ranged =
        let n : 0 + length d.sent ≡ suc (length xs) = let z = ap length e in omega arith in
        let less = d.shorter in
        let z = ap length e in
        let r-is = d.returns ∙ ap (λ c. (d.final, ok c)) n in
        elim (Bool-cases (d.final.total_available_permits == 0)) [
          | inl y ↦
              last-HasDispatched size a messages r
                (after_batch (λ b. dispatch_loop rounds fuel now log b) r) d
                (ap (after_batch (λ b. dispatch_loop rounds fuel now log b)) r-is
                  ∙ rw (y, if◌then◌else◌) refl)
                (no_count (ground arith))
          | inr m ↦
              rw (r-is, m, if◌then◌else◌)
                (more-HasDispatched size a messages r _ d (
                  on d.final d.position d.left d.stands d.leaves (omega arith) (omega arith)
                    (spent-IsInRange a d.final (length d.sent) ranged d.spends)))
        ]

  -- On a log, with a read position that is set and fuel above the number of messages from there on,
  -- the loop over batches ends without an error. The messages that it has put into the consumer's
  -- channel, behind those that were there, are the first of the messages from the read position on
  -- that are not acknowledged, in the order of the log and each once, and those that are left are
  -- the messages from the new read position on that are not acknowledged. The consumer and the
  -- count have lost a permit for each message that was sent, and no other.
  pub dispatch_loop-HasDispatched :
      (rounds fuel now : ℕ) (a : Active) (p : ManagedLedgerPosition) (messages : List StoredMessage)
      → a.read_position ≡ some p
      → v.from p ≡ messages
      → length messages < rounds
      → length messages < fuel
      → IsInRange a
      → HasDispatched a messages (dispatch_loop rounds fuel now log a)
  unfolding dispatch_loop
  dispatch_loop-HasDispatched zero fuel now a p messages at h k l ranged = absurd (omega arith)
  dispatch_loop-HasDispatched (suc rounds) fuel now a p messages at h k l ranged =
      elim (Bool-cases (a.total_available_permits == 0)) [
        | inl y ↦
            rw (y, if◌then◌else◌)
              (record {
                final = a;
                sent = [];
                position = p;
                left = messages;
                returns = refl;
                queued = sym (append-nil a.consumer.queue);
                stands = at;
                leaves = h;
                in_order = refl;
                stops = no_count (ground arith);
                spends = same-HasSpent a a refl refl;
              })
        | inr n ↦
            rw (n, if◌then◌else◌)
              (let d =
                  batch_loop-Delivered log v fuel now (batch_size a) a p messages 0 at h l ranged
                    (ground arith) in
                after_batch-HasDispatched fuel now rounds
                  (λ b q ms. dispatch_loop-HasDispatched rounds fuel now b q ms) (batch_size a) a
                  messages (batch_loop fuel now log (batch_size a) a 0) d d.sent refl (ground arith)
                  k l ranged)
      ]
