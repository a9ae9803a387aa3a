-- ===== src/Broker/Failover/Calls.antt =====
-- Any calls on the dispatcher of a failover subscription, from a new one on.
use pulsar_lite.Prelude.{
  ℕ, Bool, true, false, Option, none, some, List, [], ◌∷◌, map, All, ◌⊎◌, inl, inr, ◌==◌,
  if◌then◌else◌, ◌≡◌, refl, sym, ◌∙◌, Bool-cases, Option-cases,
}
use pulsar_lite.ManagedLedger.Position.{ManagedLedgerPosition}
use pulsar_lite.Broker.ConsumerDispatch.{ConsumerState}
use pulsar_lite.Broker.PendingAcks.{close, drain}
use pulsar_lite.Broker.ReadPosition.{Log}
use pulsar_lite.Broker.Failover.{
  Consumer, FailoverDispatcher, new_failover, precedes, sort_consumers, find_consumer, same_id,
  add_consumer, remove_consumer, rewound, sort_and_pick, remove_consumer_with_recovery,
  init_read_position, consumer_flow, dispatch_messages, get_active_consumer,
  pick_and_schedule_active_consumer,
}
use pulsar_lite.Broker.Failover.Elected.{
  Knows, All-map, All-sort_by, or_state, pick-IsElected, select-map,
}
use pulsar_lite.Broker.Failover.Order.{
  IsLed, IsActiveOf, Leads-map, Leads-sort_consumers, pick-Leads, add_consumer-IsLed,
  remove_consumer-IsLed, get_active_consumer-IsLed,
}

-- The state of a consumer changes, and nothing that the order or the election reads.
abbrev pub with_state : (Consumer → Bool) → (Consumer → ConsumerState) → Consumer → Consumer
with_state p f c = if p c then record c { state = f c } else c

precedes-with_state :
    (p q : Bool) (s t : ConsumerState) (a b : Consumer)
    → precedes (if p then record a { state = s } else a) (if q then record b { state = t } else b)
      ≡ precedes a b
precedes-with_state true true s t a b = refl
precedes-with_state true false s t a b = refl
precedes-with_state false true s t a b = refl
precedes-with_state false false s t a b = refl

id-with_state :
    (p : Bool) (s : ConsumerState) (c : Consumer)
    → (if p then record c { state = s } else c).consumer_id ≡ c.consumer_id
id-with_state true s c = refl
id-with_state false s c = refl

Knows-with_state :
    (active : Option ℕ) (p : Bool) (s : ConsumerState) (c : Consumer)
    → Knows active c
    → Knows active (if p then record c { state = s } else c)
Knows-with_state active true s c k = k
Knows-with_state active false s c k = k

states-IsLed :
    (p : Consumer → Bool) (f : Consumer → ConsumerState) (d : FailoverDispatcher) (total : ℕ)
    (at : Option ManagedLedgerPosition)
    → IsLed d
    → IsLed (record d {
      consumers = map (with_state p f) d.consumers;
      total_available_permits = total;
      read_position = at;
    })
states-IsLed p f d total at v = record {
  elected = record {
    is_first =
        v.elected.is_first
        ∙ sym (select-map (with_state p f) d.consumers (λ c. id-with_state (p c) (f c) c));
    known =
        All-map (Knows d.active_consumer_id) (Knows d.active_consumer_id) (with_state p f)
          d.consumers (λ c k. Knows-with_state d.active_consumer_id (p c) (f c) c k)
          v.elected.known;
  };
  leads =
      Leads-map (with_state p f) d.consumers
        (λ a b. precedes-with_state (p a) (p b) (f a) (f b) a b) v.leads;
}

pick-IsLed :
    (d : FailoverDispatcher)
    → All (Knows d.active_consumer_id) d.consumers
    → IsLed
        (pick_and_schedule_active_consumer (record d { consumers = sort_consumers d.consumers })).0
pick-IsLed d v = record {
  elected =
      pick-IsElected (record d { consumers = sort_consumers d.consumers })
        (All-sort_by (Knows d.active_consumer_id) precedes d.consumers v);
  leads =
      pick-Leads (record d { consumers = sort_consumers d.consumers })
        (Leads-sort_consumers d.consumers);
}

sort_and_pick-IsLed :
    (r : FailoverDispatcher × Option Consumer) → IsLed r.0 → IsLed (sort_and_pick r).0
sort_and_pick-IsLed (d, none) v = v
sort_and_pick-IsLed (d, some c) v = pick-IsLed d v.elected.known

-- The permits and the read position change.
counts-IsLed :
    (d : FailoverDispatcher) (total : ℕ) (at : Option ManagedLedgerPosition)
    → IsLed d
    → IsLed (record d { total_available_permits = total; read_position = at })
counts-IsLed d total at v = record {
  elected = record { is_first = v.elected.is_first; known = v.elected.known };
  leads = v.leads;
}

rewound-IsLed : (log : Log) (d : FailoverDispatcher) (id : ℕ) → IsLed d → IsLed (rewound log d id)
rewound-IsLed log d id v = elim (Option-cases (find_consumer id d.consumers)) [
  | inl gone ↦ rw (rewound, gone) (counts-IsLed d _ _ v)
  | inr (c, there) ↦
      rw (rewound, there)
        (states-IsLed (λ b. b.consumer_id == id)
          (λ b. record b.state { pending_acks = (drain (close b.state.pending_acks)).0 }) d _ _ v)
]

remove_consumer_with_recovery-IsLed :
    (log : Log) (d : FailoverDispatcher) (id : ℕ)
    → IsLed d
    → IsLed (remove_consumer_with_recovery log d id).0
unfolding remove_consumer_with_recovery
remove_consumer_with_recovery-IsLed log d id v = sort_and_pick-IsLed _ (
    remove_consumer-IsLed _ id (elim (Bool-cases (same_id d.active_consumer_id (some id))) [
      | inl y ↦ rw (y, if◌then◌else◌) (rewound-IsLed log d id v)
      | inr n ↦ rw (n, if◌then◌else◌) v
    ]))

-- The calls of the dispatcher; one that is refused changes nothing.
pub data Call : Type 0 where
  adds : Consumer → Call
  removes : ℕ → Call
  recovers : Log → ℕ → Call
  inits : Option ManagedLedgerPosition → Call
  flows : ℕ → ℕ → Call
  dispatches : ℕ → ℕ → ℕ → Log → Call

abbrev pub step : FailoverDispatcher → Call → FailoverDispatcher
step d (adds c) = or_state d (add_consumer d c)
step d (removes id) = (remove_consumer d id).0
step d (recovers log id) = (remove_consumer_with_recovery log d id).0
step d (inits p) = init_read_position d p
step d (flows id permits) = consumer_flow d id permits
step d (dispatches rounds fuel now log) = (dispatch_messages rounds fuel now log d).0

abbrev pub run : FailoverDispatcher → List Call → FailoverDispatcher
run d [] = d
run d (call ∷ calls) = run (step d call) calls

adds-IsLed :
    (d : FailoverDispatcher) (c : Consumer) (r : FailoverDispatcher ⊎ _)
    → add_consumer d c ≡ r
    → IsLed d
    → IsLed (or_state d r)
adds-IsLed d c (inl e) h v = add_consumer-IsLed d e c v h
adds-IsLed d c (inr e) h v = v

dispatch_messages-IsLed :
    (rounds fuel now : ℕ) (log : Log) (d : FailoverDispatcher)
    → IsLed d
    → IsLed (dispatch_messages rounds fuel now log d).0
unfolding dispatch_messages
dispatch_messages-IsLed rounds fuel now log d v = elim (Option-cases (get_active_consumer d)) [
  | inl nobody ↦ rw (dispatch_messages, nobody) v
  | inr (c, there) ↦
      rw (dispatch_messages, there) (states-IsLed (λ b. b.consumer_id == c.consumer_id) _ d _ _ v)
]

consumer_flow-IsLed :
    (d : FailoverDispatcher) (id permits : ℕ) → IsLed d → IsLed (consumer_flow d id permits)
unfolding consumer_flow
consumer_flow-IsLed d id permits v = elim (Bool-cases (same_id d.active_consumer_id (some id))) [
  | inl y ↦ rw (y, if◌then◌else◌) (counts-IsLed d _ _ v)
  | inr n ↦ rw (n, if◌then◌else◌) v
]

step-IsLed : (d : FailoverDispatcher) (call : Call) → IsLed d → IsLed (step d call)
step-IsLed d (adds c) v = adds-IsLed d c (add_consumer d c) refl v
step-IsLed d (removes id) v = remove_consumer-IsLed d id v
step-IsLed d (recovers log id) v = remove_consumer_with_recovery-IsLed log d id v
step-IsLed d (inits p) v = counts-IsLed d _ _ v
step-IsLed d (flows id permits) v = consumer_flow-IsLed d id permits v
step-IsLed d (dispatches rounds fuel now log) v = dispatch_messages-IsLed rounds fuel now log d v

run-IsLed : (d : FailoverDispatcher) (calls : List Call) → IsLed d → IsLed (run d calls)
run-IsLed d [] v = v
run-IsLed d (call ∷ calls) v = run-IsLed (step d call) calls (step-IsLed d call v)

new_failover-IsLed : IsLed new_failover
new_failover-IsLed = record { elected = record { is_first = refl; known = tt }; leads = tt }

-- After any calls on a new dispatcher (adding, removing, removing with recovery, setting the read
-- position, flow and dispatch), one that has a consumer has an active one, which knows that it is,
-- and which no consumer precedes in priority level, name and id.
pub run-IsActiveOf :
    (calls : List Call) (id : ℕ) (c : Consumer)
    → find_consumer id (run new_failover calls).consumers ≡ some c
    → (a : Consumer) × IsActiveOf (run new_failover calls) a
run-IsActiveOf calls id c h =
    get_active_consumer-IsLed (run new_failover calls) id c
      (run-IsLed new_failover calls new_failover-IsLed) h
