-- ===== src/Broker/Redelivery/Steps.antt =====
-- The operations of redelivery_controller.rs keep a count of the messages behind each blocked hash.
use pulsar_lite.Prelude.{
  ◌+◌, true, Option, none, some, List, [], ◌∷◌, ◌≡◌, refl, ap, ◌∙◌, arith, Option-cases, inl, inr,
  subst, max,
}
use pulsar_lite.Prelude.Int.{ℤ, eq_int}
use pulsar_lite.Prelude.Maps.{
  int_key, get, insert_entry, insert_ordered, remove_key, weight, count_values, count-remove_key,
  count-insert_ordered, count-insert_entry_present, get-remove_self,
}
use pulsar_lite.ManagedLedger.Position.{MessageId, id_key}
use pulsar_lite.Broker.Redelivery.{
  RedeliveryController, RedeliveryEntry, increment_hash, decrement_hash, release_in_flight_hash,
  or_hash, learned, add, pop_first, pop_next,
}
use pulsar_lite.Broker.Redelivery.Balance.{
  blocked, hash_is, queued, flying, blocked-increment_hash, blocked-decrement_hash, IsPositive,
  increment_hash-IsPositive, decrement_hash-IsPositive,
}
use pulsar_lite.Broker.Redelivery.Shape.{
  IsApart, insert_new-IsApart, update-IsApart, release-IsApart, tail-IsApart,
}

abbrev pub own : RedeliveryEntry → MessageId
own e = e.message_id

-- With `block_hashes`: each hash is counted once for each message that has it and is queued or in
-- flight, and no message is both.
pub record IsCounted (c : RedeliveryController) : Type 0 where
  pub blocking : c.block_hashes ≡ true
  pub positive : IsPositive c
  pub apart : IsApart own c.entries c.in_flight_hashes
  pub balance : (h : ℤ) → blocked c h ≡ queued c h + flying c h

-- The updates of a count leave the rest of the controller alone.
abbrev pub SameMaps : RedeliveryController → RedeliveryController → Type 0
SameMaps c d =
    (d.entries ≡ c.entries)
    × (d.in_flight_hashes ≡ c.in_flight_hashes)
    × (d.block_hashes ≡ c.block_hashes)

pub increment_hash-SameMaps :
    (c : RedeliveryController) (o : Option ℤ) → SameMaps c (increment_hash c o)
unfolding increment_hash
increment_hash-SameMaps c none = (refl, refl, refl)
increment_hash-SameMaps c (some x) = ground arith

pub decrement_hash-SameMaps :
    (c : RedeliveryController) (o : Option ℤ) → SameMaps c (decrement_hash c o)
unfolding decrement_hash
decrement_hash-SameMaps c none = (refl, refl, refl)
decrement_hash-SameMaps c (some x) = ground arith

-- A message that was not known, with its hash counted.
pub add_new-IsCounted :
    (c : RedeliveryController) (e : RedeliveryEntry)
    → IsCounted c
    → get e.message_id c.entries ≡ none
    → get e.message_id c.in_flight_hashes ≡ none
    → let c' = increment_hash c e.sticky_key_hash in
      IsCounted (record c' { entries = insert_ordered e.message_id e c'.entries })
add_new-IsCounted c e v new landed =
    let (es, fs, bs) = increment_hash-SameMaps c e.sticky_key_hash in
    record {
      blocking = bs ∙ v.blocking;
      positive = increment_hash-IsPositive c e.sticky_key_hash v.positive;
      apart = rw (es, fs) (insert_new-IsApart own v.apart e.message_id e refl new landed);
      balance = λ h.
          rw (es, fs)
            (omega (
              arith,
              blocked-increment_hash c e.sticky_key_hash h v.blocking,
              v.balance h,
              count-insert_ordered (λ (x : RedeliveryEntry). hash_is h x.sticky_key_hash)
                  e.message_id e c.entries new,
            ));
    }

-- A hash that is owed to a message is counted.
pub increment_hash-IsCounted :
    (c : RedeliveryController) (o : Option ℤ)
    → c.block_hashes ≡ true
    → IsPositive c
    → IsApart own c.entries c.in_flight_hashes
    → ((h : ℤ) → blocked c h + weight (hash_is h o) ≡ queued c h + flying c h)
    → IsCounted (increment_hash c o)
increment_hash-IsCounted c o b p a owed =
    let (es, fs, bs) = increment_hash-SameMaps c o in
    record {
      blocking = bs ∙ b;
      positive = increment_hash-IsPositive c o p;
      apart = rw (es, fs) a;
      balance = λ h. rw (es, fs) (omega (arith, blocked-increment_hash c o h b, owed h));
    }

-- A hash whose message has left is counted once less.
pub decrement_hash-IsCounted :
    (c : RedeliveryController) (o : Option ℤ)
    → c.block_hashes ≡ true
    → IsPositive c
    → IsApart own c.entries c.in_flight_hashes
    → ((h : ℤ) → blocked c h ≡ weight (hash_is h o) + (queued c h + flying c h))
    → IsCounted (decrement_hash c o)
decrement_hash-IsCounted c o b p a over =
    let (es, fs, bs) = decrement_hash-SameMaps c o in
    record {
      blocking = bs ∙ b;
      positive = decrement_hash-IsPositive c o p;
      apart = rw (es, fs) a;
      balance = λ h. rw (es, fs) (omega (arith, blocked-decrement_hash c o h b, over h));
    }

weight-learned :
    (h : ℤ) (old new : Option ℤ)
    → weight (hash_is h (or_hash old new))
      ≡ weight (hash_is h old) + weight (hash_is h (learned old new))
weight-learned h none new = omega arith
weight-learned h (some x) new = omega arith

merge : RedeliveryEntry → RedeliveryEntry → RedeliveryEntry
merge existing entry = record existing {
  redelivery_count = max existing.redelivery_count entry.redelivery_count;
  sticky_key_hash = or_hash existing.sticky_key_hash entry.sticky_key_hash;
}

add_known-IsCounted :
    (c : RedeliveryController) (e old : RedeliveryEntry)
    → IsCounted c
    → get e.message_id c.entries ≡ some old
    → IsCounted (
        increment_hash
          (record c { entries = insert_entry e.message_id (merge old e) c.entries })
          (learned old.sticky_key_hash e.sticky_key_hash))
unfolding merge
add_known-IsCounted c e old v known =
    increment_hash-IsCounted _ (learned old.sticky_key_hash e.sticky_key_hash) v.blocking v.positive
      (update-IsApart own v.apart e.message_id (merge old e) old
        (v.apart.keyed e.message_id old known) known)
      (λ h. omega (
        arith,
        v.balance h,
        weight-learned h old.sticky_key_hash e.sticky_key_hash,
        count-insert_entry_present (λ (x : RedeliveryEntry). hash_is h x.sticky_key_hash)
            e.message_id (merge old e) old c.entries known,
      ))

-- `add` keeps the counts when the message is not in flight.
pub add-IsCounted :
    (c : RedeliveryController) (e : RedeliveryEntry)
    → IsCounted c
    → get e.message_id c.in_flight_hashes ≡ none
    → IsCounted (add c e)
unfolding add merge
add-IsCounted c e v landed = elim (Option-cases (get e.message_id c.entries)) [
  | inl new ↦ rw (new, add) (add_new-IsCounted c e v new landed)
  | inr (old, known) ↦ rw (known, add) (add_known-IsCounted c e old v known)
]

pop_first-IsCounted :
    (c : RedeliveryController) (l : List (MessageId × RedeliveryEntry))
    → IsCounted c
    → c.entries ≡ l
    → IsCounted (pop_first c l).0
pop_first-IsCounted c [] v at = v
pop_first-IsCounted c ((k, e) ∷ rest) v at =
    decrement_hash-IsCounted (record c { entries = rest }) e.sticky_key_hash v.blocking v.positive
      (tail-IsApart own (subst (λ t. IsApart own t c.in_flight_hashes) at v.apart))
      (λ h.
        unfold count_values in
        omega (
          arith,
          v.balance h,
          ap (count_values (λ (x : RedeliveryEntry). hash_is h x.sticky_key_hash)) at,
        ))

pub pop_next-IsCounted : (c : RedeliveryController) → IsCounted c → IsCounted (pop_next c).0
unfolding pop_next
pop_next-IsCounted c v = pop_first-IsCounted c c.entries v refl

-- Afterwards the message is not in flight.
pub release-IsCounted :
    (c : RedeliveryController) (id : MessageId)
    → IsCounted c
    → IsCounted (release_in_flight_hash c id)
      × (get id (release_in_flight_hash c id).in_flight_hashes ≡ none)
unfolding release_in_flight_hash
release-IsCounted c id v = elim (Option-cases (get id c.in_flight_hashes)) [
  | inl absent ↦ rw (absent, release_in_flight_hash) (v, absent)
  | inr (x, present) ↦
      let gone =
        decrement_hash-SameMaps (record c { in_flight_hashes = remove_key id c.in_flight_hashes })
          (some x) in
      rw (present, release_in_flight_hash)
        (
          decrement_hash-IsCounted _ (some x) v.blocking v.positive (release-IsApart own v.apart id)
              (λ h. omega (
                arith,
                v.balance h,
                count-remove_key (λ y. eq_int y h) id x c.in_flight_hashes v.apart.flight_distinct
                    present,
              )),
          ap (get id) gone.1 ∙ get-remove_self id c.in_flight_hashes,
        )
]
