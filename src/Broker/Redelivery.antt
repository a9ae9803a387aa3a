-- ===== src/Broker/Redelivery.antt =====
-- rust/src/broker/dispatcher/redelivery_controller.rs: the messages queued for redelivery, and the
-- sticky-key hashes that are blocked while one of their messages is queued or in flight.
pub mod Balance
pub mod Shape
pub mod Steps
pub mod Delivery
use pulsar_lite.Prelude.{
  ℕ, ◌+◌, ◌-◌, Bool, true, false, ◌||◌, ◌&&◌, Option, none, some, List, [], ◌∷◌, map, length, max,
  ◌==◌, if◌then◌else◌,
}
use pulsar_lite.Prelude.Int.{ℤ, eq_int}
use pulsar_lite.Prelude.Maps.{int_key, get, insert_ordered, insert_entry, remove_key}
use pulsar_lite.ManagedLedger.Position.{MessageId, id_key}

pub record RedeliveryEntry : Type 0 where
  pub message_id : MessageId
  pub redelivery_count : ℕ
  pub sticky_key_hash : Option ℤ

pub record RedeliveryController : Type 0 where
  pub entries : List (MessageId × RedeliveryEntry)
  pub in_flight_hashes : List (MessageId × ℤ)
  pub blocked_hashes : List (ℤ × ℕ)
  pub block_hashes : Bool

abbrev pub new_controller : Bool → RedeliveryController
new_controller block = record {
  entries = [];
  in_flight_hashes = [];
  blocked_hashes = [];
  block_hashes = block;
}

-- `*entry(hash).or_insert(0) += 1`.
abbrev pub or_zero : Option ℕ → ℕ
or_zero none = 0
or_zero (some n) = n

unfoldable pub increment_hash : RedeliveryController → Option ℤ → RedeliveryController
increment_hash c none = c
increment_hash c (some hash) =
    if c.block_hashes
    then record c {
      blocked_hashes = insert_entry hash (or_zero (get hash c.blocked_hashes) + 1) c.blocked_hashes;
    }
    else c

-- `*count = count.saturating_sub(1)`, and the entry goes when it reaches 0.
abbrev pub lower_count : ℤ → Option ℕ → List (ℤ × ℕ) → List (ℤ × ℕ)
lower_count hash none blocked = blocked
lower_count hash (some count) blocked =
    if (count - 1) == 0 then remove_key hash blocked else insert_entry hash (count - 1) blocked

unfoldable pub decrement_hash : RedeliveryController → Option ℤ → RedeliveryController
decrement_hash c none = c
decrement_hash c (some hash) =
    if c.block_hashes
    then record c { blocked_hashes = lower_count hash (get hash c.blocked_hashes) c.blocked_hashes }
    else c

unfoldable pub release_in_flight_hash : RedeliveryController → MessageId → RedeliveryController
release_in_flight_hash c message_id = elim (get message_id c.in_flight_hashes) [
  | none ↦ c
  | some hash ↦
      decrement_hash (record c { in_flight_hashes = remove_key message_id c.in_flight_hashes })
        (some hash)
]

-- `existing.sticky_key_hash.is_none()`: the hash is taken from the new entry.
abbrev pub or_hash : Option ℤ → Option ℤ → Option ℤ
or_hash none new = new
or_hash (some hash) new = some hash

-- What `add` increments beside an existing entry.
abbrev pub learned : Option ℤ → Option ℤ → Option ℤ
learned none new = new
learned (some hash) new = none

-- An existing entry is changed where it stands.
unfoldable pub add : RedeliveryController → RedeliveryEntry → RedeliveryController
add c entry = elim (get entry.message_id c.entries) [
  | none ↦
      let c' = increment_hash c entry.sticky_key_hash in
      record c' { entries = insert_ordered entry.message_id entry c'.entries }
  | some existing ↦
      let merged : RedeliveryEntry = record existing {
        redelivery_count = max existing.redelivery_count entry.redelivery_count;
        sticky_key_hash = or_hash existing.sticky_key_hash entry.sticky_key_hash;
      } in
      increment_hash (record c { entries = insert_entry entry.message_id merged c.entries })
        (learned existing.sticky_key_hash entry.sticky_key_hash)
]

abbrev pop_first :
    RedeliveryController
    → List (MessageId × RedeliveryEntry)
    → RedeliveryController × Option RedeliveryEntry
pop_first c [] = (c, none)
pop_first c ((_, entry) ∷ rest) =
    (decrement_hash (record c { entries = rest }) entry.sticky_key_hash, some entry)

unfoldable pub pop_next : RedeliveryController → RedeliveryController × Option RedeliveryEntry
pop_next c = pop_first c c.entries

-- The hash of the entry that is handed out, once it is out of the queue.
unfoldable pub track_in_flight :
    RedeliveryController → MessageId → Option ℤ → Option ℤ → RedeliveryController
track_in_flight c id (some own) supplied =
    if c.block_hashes
    then record c { in_flight_hashes = insert_entry id own c.in_flight_hashes }
    else decrement_hash c (some own)
track_in_flight c id none none = if c.block_hashes then c else decrement_hash c none
track_in_flight c id none (some hash) =
    if c.block_hashes
    then (let c' = increment_hash c (some hash) in
        record c' { in_flight_hashes = insert_entry id hash c'.in_flight_hashes })
    else decrement_hash c (some hash)

unfoldable pub take_for_delivery_with_hash :
    RedeliveryController → MessageId → Option ℤ → RedeliveryController × Option RedeliveryEntry
take_for_delivery_with_hash c message_id supplied = elim (get message_id c.entries) [
  | none ↦ (c, none)
  | some entry ↦ (
    track_in_flight (record c { entries = remove_key message_id c.entries }) entry.message_id
        entry.sticky_key_hash supplied,
    some (record entry { sticky_key_hash = or_hash entry.sticky_key_hash supplied }),
  )
]

abbrev pub take_for_delivery :
    RedeliveryController → MessageId → RedeliveryController × Option RedeliveryEntry
take_for_delivery c message_id = take_for_delivery_with_hash c message_id none

unfoldable pub restore : RedeliveryController → RedeliveryEntry → RedeliveryController
restore c entry = add (release_in_flight_hash c entry.message_id) entry

unfoldable pub remove :
    RedeliveryController → MessageId → RedeliveryController × Option RedeliveryEntry
remove c message_id =
    let c' = release_in_flight_hash c message_id in
    elim (get message_id c'.entries) [
      | none ↦ (c', none)
      | some removed ↦ (
        decrement_hash (record c' { entries = remove_key message_id c'.entries })
            removed.sticky_key_hash,
        some removed,
      )
    ]

unfoldable pub is_hash_blocked : RedeliveryController → ℤ → Bool
is_hash_blocked c hash = elim (get hash c.blocked_hashes) [ none ↦ false | some _ ↦ true ]

abbrev pub any_hash : ℤ → List (MessageId × ℤ) → Bool
any_hash hash [] = false
any_hash hash ((_, h) ∷ rest) = eq_int h hash || any_hash hash rest

unfoldable pub has_in_flight_hash : RedeliveryController → ℤ → Bool
has_in_flight_hash c hash = any_hash hash c.in_flight_hashes

abbrev pub queued_entries : RedeliveryController → List RedeliveryEntry
queued_entries c = map (λ e. e.1) c.entries

abbrev pub queued_message_ids : RedeliveryController → List MessageId
queued_message_ids c = map (λ e. e.0) c.entries

abbrev pub clear : RedeliveryController → RedeliveryController
clear c = record c { entries = []; in_flight_hashes = []; blocked_hashes = [] }
