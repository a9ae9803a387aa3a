-- ===== src/Broker/Redelivery/Delivery.antt =====
-- The deliveries of redelivery_controller.rs keep its counts, and so does every run of calls.
use pulsar_lite.Prelude.{
  ◌+◌, true, Option, none, some, ◌≡◌, refl, sym, ap, ◌∙◌, arith, ◌==◌, Option-cases, inl, inr,
  subst, not,
}
use pulsar_lite.Prelude.Int.{ℤ, eq_int}
use pulsar_lite.Prelude.Maps.{
  int_key, get, remove_key, weight, count_values, count-remove_key, count-insert_entry,
}
use pulsar_lite.ManagedLedger.Position.{MessageId, id_key}
use pulsar_lite.Broker.Redelivery.{
  RedeliveryController, RedeliveryEntry, new_controller, decrement_hash, release_in_flight_hash,
  add, pop_next, track_in_flight, take_for_delivery_with_hash, restore, remove, is_hash_blocked,
  clear,
}
use pulsar_lite.Broker.Redelivery.Balance.{
  hash_is, queued, flying, blocked-increment_hash, increment_hash-IsPositive,
  is_hash_blocked-blocked,
}
use pulsar_lite.Broker.Redelivery.Shape.{remove-IsApart, fly-IsApart}
use pulsar_lite.Broker.Redelivery.Steps.{
  own, IsCounted, increment_hash-SameMaps, decrement_hash-IsCounted, add-IsCounted,
  pop_next-IsCounted, release-IsCounted,
}

-- `restore` keeps the counts, also when the message is in flight.
pub restore-IsCounted :
    (c : RedeliveryController) (e : RedeliveryEntry) → IsCounted c → IsCounted (restore c e)
unfolding restore
restore-IsCounted c e v =
    let (w, landed) = release-IsCounted c e.message_id v in
    add-IsCounted (release_in_flight_hash c e.message_id) e w landed

dequeue-IsCounted :
    (c : RedeliveryController) (id : MessageId) (e : RedeliveryEntry)
    → IsCounted c
    → get id c.entries ≡ some e
    → IsCounted (decrement_hash (record c { entries = remove_key id c.entries }) e.sticky_key_hash)
dequeue-IsCounted c id e v present =
    decrement_hash-IsCounted _ e.sticky_key_hash v.blocking v.positive
      (remove-IsApart own v.apart id)
      (λ h. omega (
        arith,
        v.balance h,
        count-remove_key (λ (x : RedeliveryEntry). hash_is h x.sticky_key_hash) id e c.entries
            v.apart.entries_distinct present,
      ))

pub remove-IsCounted :
    (c : RedeliveryController) (id : MessageId) → IsCounted c → IsCounted (remove c id).0
unfolding remove
remove-IsCounted c id v =
    let c' = release_in_flight_hash c id in
    let (w, landed) = release-IsCounted c id v in
    elim (Option-cases (get id c'.entries)) [
      | inl absent ↦ rw (absent, remove) w
      | inr (e, present) ↦ rw (present, remove) (dequeue-IsCounted c' id e w present)
    ]

-- The queue without an entry.
queued_without :
    (c : RedeliveryController) (id : MessageId) (e : RedeliveryEntry) (hash : Option ℤ) (h : ℤ)
    → IsCounted c
    → get id c.entries ≡ some e
    → e.sticky_key_hash ≡ hash
    → queued c h
      ≡ weight (hash_is h hash)
        + count_values
            (λ (y : RedeliveryEntry). hash_is h y.sticky_key_hash)
            (remove_key id c.entries)
queued_without c id e hash h v present at = omega (
  arith,
  count-remove_key (λ (y : RedeliveryEntry). hash_is h y.sticky_key_hash) id e c.entries
      v.apart.entries_distinct present,
  ap (λ t. weight (hash_is h t)) at,
)

-- The hash of the message that leaves the queue counts for it in flight.
fly-IsCounted :
    (c : RedeliveryController) (id : MessageId) (e : RedeliveryEntry) (hash supplied : Option ℤ)
    → IsCounted c
    → get id c.entries ≡ some e
    → e.sticky_key_hash ≡ hash
    → IsCounted (track_in_flight (record c { entries = remove_key id c.entries }) id hash supplied)
unfolding track_in_flight
fly-IsCounted c id e (some x) supplied v present at = rw v.blocking (record {
  blocking = refl;
  positive = v.positive;
  apart = fly-IsApart own v.apart id x;
  balance = λ h. omega (
    arith,
    v.balance h,
    queued_without c id e (some x) h v present at,
    count-insert_entry (λ y. eq_int y h) id x c.in_flight_hashes (v.apart.apart id e present),
  );
})
fly-IsCounted c id e none none v present at = rw v.blocking (record {
  blocking = refl;
  positive = v.positive;
  apart = remove-IsApart own v.apart id;
  balance = λ h. omega (arith, v.balance h, queued_without c id e none h v present at);
})
fly-IsCounted c id e none (some x) v present at =
    let c0 : RedeliveryController = record c {
      entries = remove_key id c.entries;
      block_hashes = true;
    } in
    let (es, fs, bs) = increment_hash-SameMaps c0 (some x) in
    rw v.blocking (record {
      blocking = bs;
      positive = increment_hash-IsPositive c0 (some x) v.positive;
      apart = rw (es, fs) (fly-IsApart own v.apart id x);
      balance = λ h.
          rw (es, fs)
            (omega (
              arith,
              v.balance h,
              blocked-increment_hash c0 (some x) h refl,
              queued_without c id e none h v present at,
              count-insert_entry (λ y. eq_int y h) id x c.in_flight_hashes
                  (v.apart.apart id e present),
            ));
    })

pub take_for_delivery_with_hash-IsCounted :
    (c : RedeliveryController) (id : MessageId) (supplied : Option ℤ)
    → IsCounted c
    → IsCounted (take_for_delivery_with_hash c id supplied).0
unfolding take_for_delivery_with_hash
take_for_delivery_with_hash-IsCounted c id supplied v = elim (Option-cases (get id c.entries)) [
  | inl absent ↦ rw (absent, take_for_delivery_with_hash) v
  | inr (e, present) ↦
      rw (present, take_for_delivery_with_hash)
        (subst
          (λ t. IsCounted (
            track_in_flight (record c { entries = remove_key id c.entries }) t e.sticky_key_hash
              supplied))
          (sym (v.apart.keyed id e present))
          (fly-IsCounted c id e e.sticky_key_hash supplied v present refl))
]

pub new-IsCounted : IsCounted (new_controller true)
new-IsCounted = record {
  blocking = refl;
  positive = λ h. unfold get in (λ e. cc);
  apart = record {
    entries_distinct = tt;
    flight_distinct = tt;
    keyed = λ id e. unfold get in (λ h. absurd (cc));
    apart = λ id e. unfold get in (λ h. absurd (cc));
  };
  balance = λ h. unfold get count_values in omega arith;
}

clear-IsCounted : (c : RedeliveryController) → IsCounted c → IsCounted (clear c)
clear-IsCounted c v = record {
  blocking = v.blocking;
  positive = new-IsCounted.positive;
  apart = new-IsCounted.apart;
  balance = new-IsCounted.balance;
}

-- The calls that the dispatchers make on the controller.
pub data Call : Type 0 where
  adds restores : RedeliveryEntry → Call
  pops : Call
  takes : MessageId → Option ℤ → Call
  removes : MessageId → Call
  clears : Call

unfoldable pub step : RedeliveryController → Call → RedeliveryController
step c (adds e) = add c e
step c (restores e) = restore c e
step c pops = (pop_next c).0
step c (takes id hash) = (take_for_delivery_with_hash c id hash).0
step c (removes id) = (remove c id).0
step c clears = clear c

-- The one call with a condition: `add` of a message that is in flight.
abbrev pub IsLanded : RedeliveryController → Call → Type 0
IsLanded c (adds e) = get e.message_id c.in_flight_hashes ≡ none
IsLanded c (restores e) = Unit
IsLanded c pops = Unit
IsLanded c (takes id hash) = Unit
IsLanded c (removes id) = Unit
IsLanded c clears = Unit

kept :
    (c : RedeliveryController) (call : Call)
    → IsCounted c
    → IsLanded c call
    → IsCounted (step c call)
unfolding step
kept c (adds e) v ok = add-IsCounted c e v ok
kept c (restores e) v ok = restore-IsCounted c e v
kept c pops v ok = pop_next-IsCounted c v
kept c (takes id hash) v ok = take_for_delivery_with_hash-IsCounted c id hash v
kept c (removes id) v ok = remove-IsCounted c id v
kept c clears v ok = clear-IsCounted c v

-- Where the controller blocks hashes and counts them, it does so after each of its calls, where
-- add needs a message that is not in flight; and is_hash_blocked holds of a hash exactly when a
-- message with the hash is queued or in flight.
pub step-IsCounted :
    (c : RedeliveryController) (call : Call)
    → IsCounted c
    → IsLanded c call
    → IsCounted (step c call)
      × ((h : ℤ)
          → is_hash_blocked (step c call) h
            ≡ not ((queued (step c call) h + flying (step c call) h) == 0))
step-IsCounted c call v ok =
    let w = kept c call v ok in
    (
      w,
      λ h.
          is_hash_blocked-blocked (step c call) h w.positive ∙ ap (λ t. not (t == 0)) (w.balance h),
    )
