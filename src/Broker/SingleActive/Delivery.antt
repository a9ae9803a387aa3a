-- ===== src/Broker/SingleActive/Delivery.antt =====
-- The messages come in the order of the log, each once.
use mathlib.Core.List.{append_assoc, append-nil}
use pulsar_lite.Prelude.{
  ℕ, zero, suc, ◌+◌, ◌<◌, ◌≤◌, Bool, true, false, Option, some, List, [], ◌∷◌, ◌++◌, length, map,
  if◌then◌else◌, ◌≡◌, refl, ap, sym, ◌∙◌, arith, Bool-cases, ◌⊎◌, inl, inr,
}
use pulsar_lite.ManagedLedger.Position.{ManagedLedgerPosition, MessageId, StoredMessage}
use pulsar_lite.Broker.ConsumerDispatch.{add_permits, has_permits, ConsumerState, PendingMessage}
use pulsar_lite.Prelude.Results.{ok}
use pulsar_lite.Broker.ReadPosition.{
  Log, candidate_of, or_next, candidate_loop, next_unacked_candidate,
}
use pulsar_lite.Broker.ReadPosition.Candidates.{IsLog, unacked, unacked-cases, candidate_loop_lem}
use pulsar_lite.Broker.SingleActive.Permits.{
  IsInRange, HasSpent, HasTaken, accepts, same-HasSpent, take_permit-HasTaken, give_permit-HasSpent,
  kept-HasSpent, kept-IsInRange,
}
use pulsar_lite.Broker.SingleActive.{
  new_ack, Active, Batch, batch_loop, read_candidate, enqueued, enqueue_message, take_permit,
  give_permit,
}
use pulsar_lite.Broker.SingleActive.Sends.{text, enqueued-queue, enqueued-permits, enqueued-accepts}

-- Why no more was sent: the dispatcher counts no permit, the consumer has none, no message is left
-- that is not acknowledged, or the consumer does not accept the first one.
pub data Stop (acked : MessageId → Bool) (final : Active) (left : List StoredMessage) : Type 0 where
  no_count : final.total_available_permits ≡ 0 → Stop acked final left
  no_permits : has_permits final.consumer ≡ false → Stop acked final left
  all_sent : unacked acked left ≡ [] → Stop acked final left
  refused :
      (e : StoredMessage) (rest : List StoredMessage)
      → unacked acked left ≡ e ∷ rest
      → accepts final.consumer ≡ false
      → Stop acked final left

module _ (log : Log) (v : IsLog log) where
  -- What a batch has done: `sent` went to the channel in the order of the log, and the read
  -- position stands before what is left. Each of them has cost one permit.
  pub record Delivered (rounds : ℕ) (a : Active) (messages : List StoredMessage) (dispatched : ℕ)
      (r : Batch) : Type 0 where
    pub final : Active
    pub sent : List PendingMessage
    pub position : ManagedLedgerPosition
    pub left : List StoredMessage
    pub returns : r ≡ (final, ok (dispatched + length sent))
    pub queued : final.consumer.queue ≡ a.consumer.queue ++ sent
    pub stands : final.read_position ≡ some position
    pub leaves : v.from position ≡ left
    pub in_order : map text (unacked v.acked messages) ≡ sent ++ map text (unacked v.acked left)
    pub stops : (length sent ≡ rounds) ⊎ Stop v.acked final left
    pub spends : HasSpent a final (length sent)
    pub shorter : length left + length sent ≤ length messages

  -- Nothing was sent.
  nothing-Delivered :
      (rounds : ℕ) (a b : Active) (q : ManagedLedgerPosition) (messages : List StoredMessage)
      (dispatched : ℕ)
      → b.consumer.queue ≡ a.consumer.queue
      → b.read_position ≡ some q
      → unacked v.acked messages ≡ unacked v.acked (v.from q)
      → length (v.from q) ≤ length messages
      → (0 ≡ rounds) ⊎ Stop v.acked b (v.from q)
      → HasSpent a b 0
      → Delivered rounds a messages dispatched (b, ok dispatched)
  nothing-Delivered rounds a b q messages dispatched same at order less why spent = record {
    final = b;
    sent = [];
    position = q;
    left = v.from q;
    returns = let n : dispatched ≡ dispatched + 0 = omega arith in ap (λ d. (b, ok d)) n;
    queued = same ∙ sym (append-nil a.consumer.queue);
    stands = at;
    leaves = refl;
    in_order = ap (map text) order;
    stops = why;
    spends = spent;
    shorter = omega arith;
  }

  -- One message was sent before the rest.
  one-Delivered :
      (rounds : ℕ) (a taken b : Active) (e : StoredMessage) (messages rest : List StoredMessage)
      (dispatched : ℕ) (r : Batch)
      → b.consumer.queue ≡ a.consumer.queue ++ text e ∷ []
      → unacked v.acked messages ≡ e ∷ unacked v.acked rest
      → length rest < length messages
      → HasTaken a taken
      → b.consumer.available_permits ≡ taken.consumer.available_permits
      → b.total_available_permits ≡ taken.total_available_permits
      → Delivered rounds b rest (dispatched + 1) r
      → Delivered (suc rounds) a messages dispatched r
  one-Delivered rounds a taken b e messages rest dispatched r queued order less t p n d = record {
    final = d.final;
    sent = text e ∷ d.sent;
    position = d.position;
    left = d.left;
    returns =
        let n : dispatched + 1 + length d.sent ≡ dispatched + suc (length d.sent) = omega arith in
        d.returns ∙ ap (λ k. (d.final, ok k)) n;
    queued =
        d.queued
        ∙ ap (λ q. q ++ d.sent) queued
        ∙ append_assoc a.consumer.queue (text e ∷ []) d.sent;
    stands = d.stands;
    leaves = d.leaves;
    in_order = ap (map text) order ∙ ap (λ l. text e ∷ l) d.in_order;
    stops = elim d.stops [ inl n ↦ inl (ap suc n) | inr why ↦ inr why ];
    spends = kept-HasSpent a taken b d.final (length d.sent) t p n d.spends;
    shorter = let n = d.shorter in omega arith;
  }

  candidate-at :
      (fuel : ℕ) (rp : Option ManagedLedgerPosition) (p : ManagedLedgerPosition)
      → rp ≡ some p
      → next_unacked_candidate fuel log rp ≡ candidate_loop fuel log p
  unfolding next_unacked_candidate
  candidate-at fuel rp p h = rw h refl

  module _ (fuel now rounds : ℕ)
      (on : (a : Active) (p : ManagedLedgerPosition) (messages : List StoredMessage)
          (dispatched : ℕ)
        → a.read_position ≡ some p
        → v.from p ≡ messages
        → length messages < fuel
        → IsInRange a
        → rounds ≤ a.total_available_permits
        → Delivered rounds a messages dispatched
            (batch_loop fuel now log rounds a dispatched)) where
    -- The message was sent or refused.
    enqueued-Delivered :
        (a taken b : Active) (q : ManagedLedgerPosition) (e : StoredMessage)
        (messages rest : List StoredMessage) (dispatched : ℕ) (r : ConsumerState × Bool)
        → IsInRange a
        → suc rounds ≤ a.total_available_permits
        → HasTaken a taken
        → b.consumer.available_permits ≡ taken.consumer.available_permits
        → b.total_available_permits ≡ taken.total_available_permits
        → b.consumer.queue ≡ a.consumer.queue
        → b.read_position ≡ some q
        → v.from q ≡ e ∷ rest
        → unacked v.acked messages ≡ e ∷ unacked v.acked rest
        → v.acked e.message_id ≡ false
        → length rest < length messages
        → length messages < fuel
        → enqueue_message now b.consumer
            (candidate_of e (or_next e.message_id (v.next e.message_id)))
          ≡ r
        → Delivered (suc rounds) a messages dispatched (
            enqueued
              (λ a' d. batch_loop fuel now log rounds a' d)
              b
              (candidate_of e (or_next e.message_id (v.next e.message_id)))
              dispatched
              r)
    unfolding give_permit add_permits
    enqueued-Delivered a taken b q e messages rest dispatched (s, true) ranged enough t p n same at
          from_q order new less k is =
        let before = t.count in
        let c : Active = record b {
          consumer = s;
          read_position = some (or_next e.message_id (v.next e.message_id));
        } in
        let kept = enqueued-permits b.consumer (text e) (new_ack now) (s, true) is ∙ p in
        one-Delivered rounds a taken
          (record b {
            consumer = s;
            read_position = some (or_next e.message_id (v.next e.message_id));
          })
          e messages rest dispatched _
          (enqueued-queue b.consumer (text e) (new_ack now) (s, true) is
            ∙ ap (λ l. l ++ text e ∷ []) same)
          order less t kept n
          (on c (or_next e.message_id (v.next e.message_id)) rest (dispatched + 1) refl
            (v.passes q e rest from_q) (omega arith) (kept-IsInRange a taken c ranged t kept n)
            (omega (arith, n, before, enough)))
    enqueued-Delivered a taken b q e messages rest dispatched (s, false) ranged enough t p n same at
          from_q order new less k is =
        let sent = enqueued-queue b.consumer (text e) (new_ack now) (s, false) is in
        let back : unacked v.acked (v.from q) ≡ e ∷ unacked v.acked rest =
          ap (unacked v.acked) from_q ∙ rw new refl in
        let size = ap length from_q in
        nothing-Delivered (suc rounds) a (give_permit (record b { consumer = s })) q messages
          dispatched (sent ∙ same) at (order ∙ sym back) (omega arith)
          (inr (
            refused e (unacked v.acked rest) back
              (enqueued-accepts b.consumer (text e) (new_ack now) s is)))
          (give_permit-HasSpent a taken t (record b { consumer = s })
            (enqueued-permits b.consumer (text e) (new_ack now) (s, false) is ∙ p) n ranged.count)

    -- A permit is taken, and the candidate is read.
    read-Delivered :
        (a : Active) (p : ManagedLedgerPosition) (messages : List StoredMessage) (dispatched : ℕ)
        → a.read_position ≡ some p
        → v.from p ≡ messages
        → length messages < fuel
        → IsInRange a
        → suc rounds ≤ a.total_available_permits
        → has_permits a.consumer ≡ true
        → Delivered (suc rounds) a messages dispatched (
            read_candidate now
              (λ a' d. batch_loop fuel now log rounds a' d)
              (take_permit a)
              dispatched
              (next_unacked_candidate fuel log (take_permit a).read_position))
    unfolding take_permit give_permit add_permits
    read-Delivered a p messages dispatched at h k ranged enough has =
        let t = take_permit-HasTaken a ranged has (omega arith) in
        let (q, done, from_q) = candidate_loop_lem log v fuel p messages h k in
        let read = candidate-at fuel a.read_position p at ∙ done in
        elim (unacked-cases v.acked messages) [
          | inl (s, u) ↦
              rw (read, u)
                (nothing-Delivered (suc rounds) a
                  (give_permit (record (take_permit a) { read_position = some q })) q messages
                  dispatched refl refl (u ∙ sym (ap (unacked v.acked) (from_q ∙ s)))
                  (let n = ap length (from_q ∙ s) in omega arith)
                  (inr (all_sent (ap (unacked v.acked) (from_q ∙ s))))
                  (give_permit-HasSpent a (take_permit a) t
                    (record (take_permit a) { read_position = some q }) refl refl ranged.count))
          | inr (e, rest, s, u, new, less) ↦
              rw (read, u)
                (enqueued-Delivered a (take_permit a)
                  (record (take_permit a) { read_position = some q }) q e messages rest dispatched
                  (enqueue_message now (take_permit a).consumer
                    (candidate_of e (or_next e.message_id (v.next e.message_id))))
                  ranged enough t refl refl refl refl (from_q ∙ s) u new less k refl)
        ]

  pub batch_loop-Delivered :
      (fuel now rounds : ℕ) (a : Active) (p : ManagedLedgerPosition) (messages : List StoredMessage)
      (dispatched : ℕ)
      → a.read_position ≡ some p
      → v.from p ≡ messages
      → length messages < fuel
      → IsInRange a
      → rounds ≤ a.total_available_permits
      → Delivered rounds a messages dispatched (batch_loop fuel now log rounds a dispatched)
  unfolding batch_loop
  batch_loop-Delivered fuel now zero a p messages dispatched at h k ranged enough =
      nothing-Delivered 0 a a p messages dispatched refl at (ap (unacked v.acked) (sym h))
        (let n = ap length h in omega arith) (inl refl) (same-HasSpent a a refl refl)
  batch_loop-Delivered fuel now (suc rounds) a p messages dispatched at h k ranged enough =
      elim (Bool-cases (has_permits a.consumer)) [
        | inr none_left ↦
            rw (none_left, if◌then◌else◌)
              (nothing-Delivered (suc rounds) a a p messages dispatched refl at
                (ap (unacked v.acked) (sym h)) (let n = ap length h in omega arith)
                (inr (no_permits none_left)) (same-HasSpent a a refl refl))
        | inl y ↦
            rw (y, if◌then◌else◌)
              (read-Delivered fuel now rounds
                (λ b q ms d. batch_loop-Delivered fuel now rounds b q ms d) a p messages dispatched
                at h k ranged enough y)
      ]
