-- ===== src/Broker/Shared/Calls.antt =====
-- Any calls on the dispatcher of a shared subscription, and then the next consumer.
use pulsar_lite.Prelude.{
  ℕ, zero, suc, ◌<◌, Option, none, some, List, [], ◌∷◌, length, get_elem?, All, ◌≡◌, refl, ap,
  arith,
}
use native.Mathlib.Nat.{mod-lt, zero-lt-suc}
use pulsar_lite.ManagedLedger.Position.{ManagedLedgerPosition}
use pulsar_lite.Broker.Shared.{
  Consumer, SharedDispatcher, consumers_in_order, ordered_consumers, new_shared, modulo, chosen,
  get_next_available_consumer,
}
use pulsar_lite.Broker.Shared.Consumers.{
  add_consumer, remove_consumer, remove_consumer_with_recovery, requeue, consumer_flow,
  init_read_position, reset_after_seek,
}
use pulsar_lite.Broker.Shared.Selection.{Placed}
use pulsar_lite.Broker.Shared.Turns.{
  IsUnsigned, current_of, turn_of, get_next_available_consumer-turn_of,
}
use pulsar_lite.Broker.Shared.Failures.{get_next-same}
use pulsar_lite.Broker.Shared.Sorted.{IsOrdered}
use pulsar_lite.Broker.Shared.Lifecycle.{
  or_state, good-IsOrdered, added-IsOrdered, remove_consumer-IsOrdered,
}

pub data Call : Type 0 where
  adds : Consumer → Call
  removes : ℕ → Call
  recovers : ℕ → Call
  flows : ℕ → ℕ → Call
  inits : Option ManagedLedgerPosition → Call
  seeks : Option ManagedLedgerPosition → Call
  selects : Call

abbrev pub step : SharedDispatcher → Call → SharedDispatcher
step d (adds c) = or_state d (add_consumer d c)
step d (removes id) = (remove_consumer d id).0
step d (recovers id) = (remove_consumer_with_recovery d id).0
step d (flows id permits) = consumer_flow d id permits
step d (inits p) = init_read_position d p
step d (seeks p) = reset_after_seek d p
step d selects = (get_next_available_consumer d).0

abbrev pub run : SharedDispatcher → List Call → SharedDispatcher
run d [] = d
run d (call ∷ calls) = run (step d call) calls

-- The consumers and their order are the same.
same-IsOrdered :
    (d e : SharedDispatcher)
    → e.consumers ≡ d.consumers
    → e.consumer_order ≡ d.consumer_order
    → IsOrdered d
    → IsOrdered e
same-IsOrdered d e h k v =
    good-IsOrdered e d.consumers d.consumer_order h k (v.there, v.once, v.sorted)

requeue-IsOrdered :
    (r : SharedDispatcher × Option Consumer) → IsOrdered r.0 → IsOrdered (requeue r).0
requeue-IsOrdered (d, none) v = v
requeue-IsOrdered (d, some c) v = same-IsOrdered d _ refl refl v

step-IsOrdered : (d : SharedDispatcher) (call : Call) → IsOrdered d → IsOrdered (step d call)
unfolding remove_consumer_with_recovery consumer_flow
step-IsOrdered d (adds c) v = added-IsOrdered d c v
step-IsOrdered d (removes id) v = remove_consumer-IsOrdered d id v
step-IsOrdered d (recovers id) v =
    requeue-IsOrdered (remove_consumer d id) (remove_consumer-IsOrdered d id v)
step-IsOrdered d (flows id permits) v = same-IsOrdered d _ refl refl v
step-IsOrdered d (inits p) v = same-IsOrdered d _ refl refl v
step-IsOrdered d (seeks p) v = same-IsOrdered d _ refl refl v
step-IsOrdered d selects v =
    let (n, same) = get_next-same d in
    same-IsOrdered d _ (ap (λ (e : SharedDispatcher). e.consumers) same)
      (ap (λ (e : SharedDispatcher). e.consumer_order) same) v

run-IsOrdered : (d : SharedDispatcher) (calls : List Call) → IsOrdered d → IsOrdered (run d calls)
run-IsOrdered d [] v = v
run-IsOrdered d (call ∷ calls) v = run-IsOrdered (step d call) calls (step-IsOrdered d call v)

new_shared-IsOrdered : IsOrdered new_shared
unfolding consumers_in_order
new_shared-IsOrdered = record { there = tt; once = tt; sorted = tt }

elem-below : (l : List Consumer) (i : ℕ) → i < length l → (c : Consumer) × (get_elem? l i ≡ some c)
elem-below [] i h = absurd (omega arith)
elem-below (c ∷ l) zero h = (c, refl)
elem-below (c ∷ l) (suc i) h = elem-below l i (omega arith)

modulo_below :
    (n : ℕ) (l : List Consumer) (a : Consumer) (rest : List Consumer)
    → l ≡ a ∷ rest
    → modulo n (length l) < length l
modulo_below n [] a rest h = absurd (cc)
modulo_below n (b ∷ l) a rest h = mod-lt n (zero-lt-suc (length l))

-- After any calls on a new dispatcher (adding, removing, removing with recovery, flow, seeks and
-- choices), where it has consumers and no priority level is below zero:
-- get_next_available_consumer gives the first one with permits of the higher priorities, then of
-- its own from the current index on and round to it, then of the lower ones; it stores the index
-- behind it, and gives none only if none has permits.
pub run-turn_of :
    (calls : List Call) (a : Consumer) (rest : List Consumer)
    → ordered_consumers (run new_shared calls) ≡ a ∷ rest
    → All IsUnsigned (ordered_consumers (run new_shared calls))
    → (c : Consumer) × (p : Placed
        (ordered_consumers (run new_shared calls))
        (current_of (run new_shared calls))
        c)
      × (get_next_available_consumer (run new_shared calls)
          ≡ chosen (run new_shared calls) (ordered_consumers (run new_shared calls)) (turn_of p))
run-turn_of calls a rest h unsigned =
    let d = run new_shared calls in
    let (c, at) =
      elem-below (ordered_consumers d) (current_of d)
        (modulo_below d.round_robin_index (ordered_consumers d) a rest h) in
    let v = run-IsOrdered new_shared calls new_shared-IsOrdered in
    let (p, is) = get_next_available_consumer-turn_of d c v.sorted unsigned at in (c, p, is)
