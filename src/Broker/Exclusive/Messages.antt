-- ===== src/Broker/Exclusive/Messages.antt =====
-- What an exclusive consumer is sent.
use pulsar_lite.Prelude.{ℕ, ◌<◌, some, List, ◌++◌, map, length, ◌≡◌, refl}
use pulsar_lite.Prelude.Results.{ok}
use pulsar_lite.ManagedLedger.Position.{ManagedLedgerPosition, StoredMessage}
use pulsar_lite.Broker.ConsumerDispatch.{PendingMessage}
use pulsar_lite.Broker.ReadPosition.{Log}
use pulsar_lite.Broker.ReadPosition.Candidates.{IsLog, unacked}
use pulsar_lite.Broker.SingleActive.Permits.{IsInRange, HasSpent}
use pulsar_lite.Broker.SingleActive.Delivery.{Stop}
use pulsar_lite.Broker.SingleActive.Sends.{text}
use pulsar_lite.Broker.SingleActive.Rounds.{dispatch_loop-HasDispatched}
use pulsar_lite.Broker.Exclusive.{
  Consumer, ExclusiveDispatcher, dispatch_messages, active_of, with_active,
}
use pulsar_lite.Broker.SingleActive.{Active}

-- The state afterwards, what was sent, and the position and the messages that are left.
pub record Outcome : Type 0 where
  pub final : Active
  pub sent : List PendingMessage
  pub position : ManagedLedgerPosition
  pub left : List StoredMessage

-- What holds of them.
abbrev pub IsOutcome :
    (log : Log) → IsLog log → ExclusiveDispatcher → Consumer → List StoredMessage → Outcome → Type 0
IsOutcome log v d c messages o =
    (o.final.consumer.queue ≡ c.state.queue ++ o.sent)
    × (o.final.read_position ≡ some o.position)
    × (v.from o.position ≡ o.left)
    × (map text (unacked v.acked messages) ≡ o.sent ++ map text (unacked v.acked o.left))
    × HasSpent (active_of d c) o.final (length o.sent)
    × Stop v.acked o.final o.left

-- On a log, with a consumer, a read position that is set, more rounds and fuel than messages from
-- there on, permits of an i32 and a count of a u32: dispatch_messages ends without an error. What
-- it has put into the channel, behind what was there, are the first of the messages from the read
-- position on that are not acknowledged, in the order of the log and each once, and the new read
-- position stands before the others. The permits of the consumer and the count of the dispatcher
-- are lower by exactly the number of messages that were sent. It has stopped because the
-- dispatcher counts no permit, the consumer has none, nothing is left, or there is a first message
-- that is left and the consumer accepts none: its connection cannot write, its channel has no
-- slot, or its pending acknowledgements are closed.
pub dispatch_messages_lem :
    (log : Log) (v : IsLog log) (rounds fuel now : ℕ) (d : ExclusiveDispatcher) (c : Consumer)
    (p : ManagedLedgerPosition)
    → d.consumer ≡ some c
    → d.read_position ≡ some p
    → length (v.from p) < rounds
    → length (v.from p) < fuel
    → IsInRange (active_of d c)
    → (o : Outcome) × (dispatch_messages rounds fuel now log d ≡ (with_active d c o.final, ok tt))
      × IsOutcome log v d c (v.from p) o
unfolding dispatch_messages
dispatch_messages_lem log v rounds fuel now d c p has at k l ranged =
    let h =
      dispatch_loop-HasDispatched log v rounds fuel now (active_of d c) p (v.from p) at refl k l
        ranged in
    (
      record { final = h.final; sent = h.sent; position = h.position; left = h.left },
      rw (has, h.returns) refl,
      (h.queued, h.stands, h.leaves, h.in_order, h.spends, h.stops),
    )
