-- ===== src/Broker/KeyShared/Requeued.antt =====
-- What the scan of key_shared.rs hands out, and what it passes over.
use pulsar_lite.Prelude.{
  Bool, true, false, Option, none, some, List, [], ◌∷◌, map, All, some_injective, ◌≡◌, refl, sym,
  subst, ap, ◌∙◌, arith, if◌then◌else◌, Bool-cases, Option-cases, inl, inr,
}
use pulsar_lite.Prelude.Int.{ℤ, eq_int, eq_int_refl}
use pulsar_lite.Prelude.Maps.{get}
use pulsar_lite.ManagedLedger.Position.{MessageId, StoredMessage, id_key, eq_id}
use pulsar_lite.Broker.PendingAcks.{PendingAck}
use pulsar_lite.Broker.Redelivery.{
  RedeliveryEntry, RedeliveryController, add, remove, learned, any_hash, has_in_flight_hash,
  queued_entries, take_for_delivery_with_hash,
}
use pulsar_lite.Broker.Redelivery.Steps.{IsCounted, increment_hash-SameMaps}
use pulsar_lite.Broker.Redelivery.Delivery.{step, step-IsCounted, takes, removes}
use pulsar_lite.Broker.KeyShared.{Assignments, Consumer, Readiness, select_consumer_for_hash}
use pulsar_lite.Broker.KeyShared.Answers.{
  Passed, acknowledged, missing, hash_in_flight, no_consumer, nothing_left, handed, failed, later,
  IsGood,
}
use pulsar_lite.Broker.KeyShared.Handed.{
  AreQueued, AreOthers, AreApart, others-AreQueued, remove-queued, queued-AreQueued,
  queued-AreApart, with_hash, taken-IsHanded,
}
use pulsar_lite.Broker.KeyShared.Redelivered.{
  Store, Popped, nothing, hash_or, hash_of, hand_out, offer, scan_stored, scan_entry, scan_loop,
  pop_dispatchable_redelivery_message, add_redelivery_entries, recovered, requeue_pending,
}

-- `add` leaves the messages that are in flight alone.
add_in_flight :
    (c : RedeliveryController) (e : RedeliveryEntry)
    → (add c e).in_flight_hashes ≡ c.in_flight_hashes
unfolding add
add_in_flight c e = elim (Option-cases (get e.message_id c.entries)) [
  | inl h ↦ rw (add, h) (increment_hash-SameMaps c e.sticky_key_hash).1
  | inr (old, h) ↦
      rw (add, h) (increment_hash-SameMaps _ (learned old.sticky_key_hash e.sticky_key_hash)).1
]

add_entries_in_flight :
    (c : RedeliveryController) (es : List RedeliveryEntry)
    → (add_redelivery_entries c es).in_flight_hashes ≡ c.in_flight_hashes
unfolding add_redelivery_entries
add_entries_in_flight c [] = refl
add_entries_in_flight c (e ∷ es) = add_entries_in_flight (add c e) es ∙ add_in_flight c e

any_hash-get :
    (id : MessageId) (h : ℤ) (m : List (MessageId × ℤ)) → get id m ≡ some h → any_hash h m ≡ true
unfolding get
any_hash-get id h [] e = absurd (ground arith)
any_hash-get id h ((j, x) ∷ m) e = elim (Bool-cases (eq_id j id)) [
  | inl same ↦
      let found = some_injective x h (sym (rw (same, if◌then◌else◌) refl) ∙ e) in
      let here : eq_int x h ≡ true = ap (λ y. eq_int y h) found ∙ eq_int_refl h in rw here refl
  | inr other ↦
      let later = any_hash-get id h m (sym (rw (other, if◌then◌else◌) refl) ∙ e) in ground arith
]

-- A queued message that could be sent: stored and not acknowledged, with its hash known.
abbrev pub IsSendable : Store → ℤ → RedeliveryEntry → Type 0
IsSendable store hash q =
    (q.sticky_key_hash ≡ some hash)
    × (store.is_acknowledged q.message_id ≡ some false)
    × (stored : StoredMessage) × (store.get_message_entry_by_id q.message_id ≡ some stored)

scan_passes :
    (now : Readiness) (a : Assignments) (store : Store) (c : RedeliveryController) (hash : ℤ)
    (queue : List RedeliveryEntry)
    → has_in_flight_hash c hash ≡ true
    → All (IsSendable store hash) queue
    → scan_loop now a store c queue ≡ (c, nothing)
unfolding scan_loop
scan_passes now a store c hash [] flying all = refl
scan_passes now a store c hash (q ∷ queue) flying ((own, unacked, stored, found), all) =
    rw (unacked, scan_entry, found, scan_stored, own, hash_of, hash_or, flying, if◌then◌else◌)
      (scan_passes now a store c hash queue flying all)

requeued_in_flight :
    (c : RedeliveryController) (id : MessageId) (hash : ℤ) (pending : List (MessageId × PendingAck))
    → get id c.in_flight_hashes ≡ some hash
    → has_in_flight_hash (requeue_pending c pending) hash ≡ true
unfolding requeue_pending has_in_flight_hash
requeued_in_flight c id hash pending flying =
    ap (any_hash hash) (add_entries_in_flight c (map recovered pending))
    ∙ any_hash-get id hash c.in_flight_hashes flying

-- Where a message with a hash is in flight, and pending messages are put back when their consumer
-- goes: if every queued message then has that hash, is stored and is not acknowledged, the scan
-- hands out nothing and changes nothing, whatever consumers are ready, also when the message in
-- flight is itself among the queued.
pub pop-requeue_pending :
    (now : Readiness) (a : Assignments) (store : Store) (c : RedeliveryController) (id : MessageId)
    (hash : ℤ) (pending : List (MessageId × PendingAck))
    → get id c.in_flight_hashes ≡ some hash
    → All (IsSendable store hash) (queued_entries (requeue_pending c pending))
    → pop_dispatchable_redelivery_message now a store (requeue_pending c pending)
      ≡ (requeue_pending c pending, nothing)
unfolding pop_dispatchable_redelivery_message
pop-requeue_pending now a store c id hash pending flying all =
    scan_passes now a store (requeue_pending c pending) hash
      (queued_entries (requeue_pending c pending)) (requeued_in_flight c id hash pending flying) all

module _ (now : Readiness) (a : Assignments) (store : Store) (start : RedeliveryController)
    (q : RedeliveryEntry) (queue : List RedeliveryEntry)
    (again : RedeliveryController → RedeliveryController × Popped)
    (on : (c : RedeliveryController)
      → IsCounted c
      → c.in_flight_hashes ≡ start.in_flight_hashes
      → AreQueued c queue
      → IsGood now a store start queue (again c))
    (c : RedeliveryController) (v : IsCounted c)
    (flying : c.in_flight_hashes ≡ start.in_flight_hashes)
    (there : get q.message_id c.entries ≡ some q) (queued : AreQueued c queue)
    (others : AreOthers q.message_id queue) where
  again-IsGood : Passed now a store start q → IsGood now a store start (q ∷ queue) (again c)
  again-IsGood why = let (w, rest) = on c v flying queued in (w, later q queue (again c) why rest)

  removed-IsGood :
      Passed now a store start q
      → IsGood now a store start (q ∷ queue) (again (remove c q.message_id).0)
  removed-IsGood why =
      let (less, same) = remove-queued c q v there in
      let c' = (remove c q.message_id).0 in
      let (w, rest) =
        on c' (unfold step in ((step-IsCounted c (removes q.message_id) v tt).0)) (same ∙ flying)
          (others-AreQueued c c' q.message_id queue less others queued) in
      (w, later q queue (again c') why rest)

  hand_out-IsGood :
      (stored : StoredMessage) (consumer : Consumer)
      → store.is_acknowledged q.message_id ≡ some false
      → store.get_message_entry_by_id q.message_id ≡ some stored
      → has_in_flight_hash start (hash_of store q stored) ≡ false
      → select_consumer_for_hash now a (hash_of store q stored) ≡ some consumer
      → IsGood now a store start (q ∷ queue) (
          hand_out again stored consumer
            (take_for_delivery_with_hash c q.message_id (some (hash_of store q stored))))
  hand_out-IsGood stored consumer unacked found free chosen =
      let hash = hash_of store q stored in
      let taken = take_for_delivery_with_hash c q.message_id (some hash) in
      let h = taken-IsHanded c q (store.sticky_key_hash_from_metadata stored.metadata) v there in
      let counted : IsCounted taken.0 =
        unfold step in ((step-IsCounted c (takes q.message_id (some hash)) v tt).0) in
      subst (λ t. IsGood now a store start (q ∷ queue) (hand_out again stored consumer t))
        (sym h.returns)
        (
          subst (λ (t : RedeliveryController × Option RedeliveryEntry). IsCounted t.0) h.returns
              counted,
          handed q queue h.after (with_hash q hash) stored consumer (record {
            unacknowledged = unacked;
            found = found;
            not_in_flight = free;
            chosen = chosen;
            same = refl;
            out = h.out;
            flies = h.flies;
          }),
        )

  offer-IsGood :
      (stored : StoredMessage) (o : Option Consumer)
      → store.is_acknowledged q.message_id ≡ some false
      → store.get_message_entry_by_id q.message_id ≡ some stored
      → has_in_flight_hash start (hash_of store q stored) ≡ false
      → select_consumer_for_hash now a (hash_of store q stored) ≡ o
      → IsGood now a store start (q ∷ queue) (offer again c q stored (hash_of store q stored) o)
  offer-IsGood stored none unacked found free chosen =
      again-IsGood (no_consumer stored found chosen)
  offer-IsGood stored (some consumer) unacked found free chosen =
      hand_out-IsGood stored consumer unacked found free chosen

  scan_stored-IsGood :
      (o : Option StoredMessage)
      → store.is_acknowledged q.message_id ≡ some false
      → store.get_message_entry_by_id q.message_id ≡ o
      → IsGood now a store start (q ∷ queue) (scan_stored now a store again c q o)
  scan_stored-IsGood none unacked found = removed-IsGood (missing found)
  scan_stored-IsGood (some stored) unacked found =
      let hash = hash_of store q stored in
      let same : has_in_flight_hash c hash ≡ has_in_flight_hash start hash =
        unfold has_in_flight_hash in ap (any_hash hash) flying in
      elim (Bool-cases (has_in_flight_hash c hash)) [
        | inl e ↦ rw (e, if◌then◌else◌) (again-IsGood (hash_in_flight stored found (sym same ∙ e)))
        | inr e ↦
            rw (e, if◌then◌else◌)
              (offer-IsGood stored (select_consumer_for_hash now a hash) unacked found
                (sym same ∙ e) refl)
      ]

  scan_entry-IsGood :
      (o : Option Bool)
      → store.is_acknowledged q.message_id ≡ o
      → IsGood now a store start (q ∷ queue) (scan_entry now a store again c q o)
  scan_entry-IsGood none acked = (v, failed q queue c acked)
  scan_entry-IsGood (some true) acked = removed-IsGood (acknowledged acked)
  scan_entry-IsGood (some false) acked =
      scan_stored-IsGood (store.get_message_entry_by_id q.message_id) acked refl

scan_loop-IsGood :
    (now : Readiness) (a : Assignments) (store : Store) (start c : RedeliveryController)
    (queue : List RedeliveryEntry)
    → IsCounted c
    → c.in_flight_hashes ≡ start.in_flight_hashes
    → AreQueued c queue
    → AreApart queue
    → IsGood now a store start queue (scan_loop now a store c queue)
unfolding scan_loop
scan_loop-IsGood now a store start c [] v flying queued apart = (v, nothing_left c)
scan_loop-IsGood now a store start c (q ∷ queue) v flying (there, queued) (others, apart) =
    scan_entry-IsGood now a store start q queue (λ c'. scan_loop now a store c' queue)
      (λ c' w same still. scan_loop-IsGood now a store start c' queue w same still apart) c v flying
      there queued others (store.is_acknowledged q.message_id) refl

-- From a controller that blocks hashes and counts them, the scan of the redelivery queue leaves
-- one. It passes over an entry only where its message is acknowledged or not stored, or the hash
-- that it goes by is in flight as the scan begins or has no consumer selected; it answers nothing
-- only where it passes over all. The first other entry it hands out as it was queued, with its id
-- and redelivery count, and with the hash that it had or else that of the stored message, to the
-- consumer selected for that hash, unless the storage fails to say whether it is acknowledged,
-- which ends the scan with the error; its message is stored and not acknowledged, and afterwards
-- it is not queued any more and its hash is held for it in flight.
pub pop_dispatchable_redelivery_message_lem :
    (now : Readiness) (a : Assignments) (store : Store) (c : RedeliveryController)
    → IsCounted c
    → IsGood now a store c (queued_entries c) (pop_dispatchable_redelivery_message now a store c)
unfolding pop_dispatchable_redelivery_message
pop_dispatchable_redelivery_message_lem now a store c v =
    scan_loop-IsGood now a store c c (queued_entries c) v refl (queued-AreQueued c v)
      (queued-AreApart c v)
