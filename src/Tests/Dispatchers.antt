-- ===== src/Tests/Dispatchers.antt =====
-- Instances for the dispatchers of exclusive and failover subscriptions, over a log of two messages
-- of which the first is acknowledged.
use pulsar_lite.Prelude.{
  ℕ, zero, suc, ◌+◌, ◌-◌, min, false, none, some, List, [], ◌∷◌, ◌==◌, ◌≡◌, refl, ap, sym, ◌∙◌,
  arith,
}
use pulsar_lite.Prelude.Int.{ℤ, pos, negsuc}
use pulsar_lite.Prelude.Results.{ok, err}
use pulsar_lite.ManagedLedger.Position.{MessageId, StoredMessage, from_message_id}
use pulsar_lite.Broker.ConsumerDispatch.Sending.{ready}
use pulsar_lite.Broker.ReadPosition.{Log, storage_error}
use pulsar_lite.Broker.ReadPosition.Candidates.{IsLog, head}
use pulsar_lite.Broker.Exclusive.{ExclusiveDispatcher, dispatch_messages, with_active}
use pulsar_lite.Broker.Exclusive.Failures.{
  dispatch_times, times, left_with, dispatch_messages_failed,
}
use pulsar_lite.Broker.Exclusive.Messages.{Outcome, IsOutcome, dispatch_messages_lem}
use pulsar_lite.Broker.Failover.{
  Consumer, new_failover, find_consumer, add_consumer, remove_consumer, put_in,
  pick_and_schedule_active_consumer, consumer_flow, remove_consumer_with_recovery, remove_first,
}
use pulsar_lite.Broker.KeyShared.{sort_by, insert_sorted}
use pulsar_lite.Broker.Failover.Order.{IsActiveOf}
use pulsar_lite.Broker.Failover.Calls.{Call, adds, flows, recovers, run, run-IsActiveOf}

abbrev pub id_at : ℕ → MessageId
id_at n = record { ledger = 1; entry = n; partition = negsuc 0 }

abbrev pub stored : ℕ → StoredMessage
stored n = record { message_id = id_at n; metadata = []; payload = n ∷ [] }

abbrev entries_from : ℕ → List StoredMessage
entries_from zero = stored 0 ∷ stored 1 ∷ []
entries_from (suc zero) = stored 1 ∷ []
entries_from (suc (suc n)) = []

abbrev pub two_messages : Log
two_messages = record {
  is_acknowledged = λ id. ok (id.entry == 0);
  first_unacked_position = ok none;
  read_entry_from = λ p. ok (head (entries_from p.entry_id));
  get_next_position = λ p. ok none;
}

abbrev tail : List StoredMessage → List StoredMessage
tail [] = []
tail (e ∷ rest) = rest

abbrev entry_of : List StoredMessage → ℕ
entry_of [] = 0
entry_of (e ∷ rest) = e.message_id.entry

entries-pass :
    (n : ℕ) (e : StoredMessage) (rest : List StoredMessage)
    → entries_from n ≡ e ∷ rest
    → entries_from (e.message_id.entry + 1) ≡ rest
entries-pass zero e rest h = ap (λ l. entries_from (entry_of l + 1)) (sym h) ∙ ap tail h
entries-pass (suc zero) e rest h = ap (λ l. entries_from (entry_of l + 1)) (sym h) ∙ ap tail h
entries-pass (suc (suc n)) e rest h = absurd (cc)

abbrev two_messages-IsLog : IsLog two_messages
two_messages-IsLog = record {
  from = λ p. entries_from p.entry_id;
  acked = λ id. id.entry == 0;
  reads = λ p. refl;
  next = λ id. none;
  gives_next = λ id. refl;
  passes = λ p e rest h. entries-pass p.entry_id e rest h;
  knows = λ id. refl;
}

abbrev exclusive : ExclusiveDispatcher
exclusive = record {
  consumer = some (record { consumer_id = 4; state = ready 5 [] [] 0 3 });
  total_available_permits = 5;
  read_position = some (from_message_id (id_at 0));
}

dispatch_messages_lem_example :
    (o : Outcome) × (dispatch_messages 3 3 9 two_messages exclusive ≡ (
      with_active exclusive (record { consumer_id = 4; state = ready 5 [] [] 0 3 }) o.final,
      ok tt,
    ))
    × IsOutcome two_messages two_messages-IsLog exclusive
        (record { consumer_id = 4; state = ready 5 [] [] 0 3 })
        (stored 0 ∷ stored 1 ∷ [])
        o
dispatch_messages_lem_example =
    dispatch_messages_lem two_messages two_messages-IsLog 3 3 9 exclusive
      (record { consumer_id = 4; state = ready 5 [] [] 0 3 }) (from_message_id (id_at 0)) refl refl
      (omega arith) (omega arith) (record { permits = refl; count = omega arith })

abbrev waiting : ℕ → ℤ → Consumer
waiting id level = record {
  consumer_id = id;
  consumer_name = [];
  priority_level = level;
  active_consumer_id = negsuc 0;
  is_active_consumer = false;
  state = ready 5 [] [] 0 3;
}

-- The second one has the higher level; it is removed with recovery, and the first one is active again.
abbrev calls : List Call
calls =
    adds (waiting 4 (pos 1)) ∷ adds (waiting 7 (pos 2)) ∷ flows 7 3 ∷ recovers two_messages 7 ∷ []

run-IsActiveOf_example : (a : Consumer) × IsActiveOf (run new_failover calls) a
unfolding find_consumer put_in pick_and_schedule_active_consumer sort_by insert_sorted add_consumer
    remove_consumer consumer_flow remove_consumer_with_recovery remove_first
run-IsActiveOf_example = run-IsActiveOf calls 4 _ refl

abbrev pub failing : Log
failing = record two_messages { read_entry_from = λ p. err storage_error }

-- Three of its five permits are lost, and then the other two.
dispatch_messages_failed_example :
    (dispatch_times 3 1 1 9 failing exclusive ≡ (
      left_with exclusive (record { consumer_id = 4; state = ready 5 [] [] 0 3 }) (5 - 3) (5 - 3),
      times 3 storage_error,
    ))
    × (dispatch_messages 3 3 12 two_messages (dispatch_times (min 5 5) 1 1 9 failing exclusive).0
        ≡ ((dispatch_times (min 5 5) 1 1 9 failing exclusive).0, ok tt))
dispatch_messages_failed_example =
    dispatch_messages_failed failing two_messages storage_error 0 0 9 3 5 5 2 3 12 exclusive
      (record { consumer_id = 4; state = ready 5 [] [] 0 3 }) (from_message_id (id_at 0)) refl refl
      refl refl (omega arith) (omega arith) (omega arith) refl
