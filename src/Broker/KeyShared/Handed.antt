-- ===== src/Broker/KeyShared/Handed.antt =====
-- What the scan of key_shared.rs takes out of the redelivery queue: the entries that were there at
-- the start, while it removes others.
use pulsar_lite.Prelude.{
  true, false, Option, none, some, List, [], ◌∷◌, map, All, inl, inr, ◌≡◌, refl, ap, sym, subst,
  ◌∙◌, if◌then◌else◌, Bool-cases,
}
use pulsar_lite.Prelude.Int.{ℤ}
use pulsar_lite.Prelude.Maps.{
  get, remove_key, get-remove_key, get-insert_entry, get_tail, Distinct, eq_sym,
}
use pulsar_lite.ManagedLedger.Position.{MessageId, id_key, eq_id}
use pulsar_lite.Broker.Redelivery.{
  RedeliveryEntry, RedeliveryController, queued_entries, or_hash, remove, release_in_flight_hash,
  track_in_flight, take_for_delivery_with_hash,
}
use pulsar_lite.Broker.Redelivery.Steps.{
  IsCounted, increment_hash-SameMaps, decrement_hash-SameMaps,
}
use pulsar_lite.Broker.KeyShared.Redelivered.{hash_or}

release-landed :
    (c : RedeliveryController) (id : MessageId)
    → get id c.in_flight_hashes ≡ none
    → release_in_flight_hash c id ≡ c
unfolding release_in_flight_hash
release-landed c id landed = rw (landed, release_in_flight_hash) refl

-- What is queued is not in flight, so that removing it takes it out of the queue, and nothing else.
pub remove-queued :
    (c : RedeliveryController) (q : RedeliveryEntry)
    → IsCounted c
    → get q.message_id c.entries ≡ some q
    → ((remove c q.message_id).0.entries ≡ remove_key q.message_id c.entries)
      × ((remove c q.message_id).0.in_flight_hashes ≡ c.in_flight_hashes)
unfolding remove
remove-queued c q v present =
    let landed = v.apart.apart q.message_id q present in
    let same = release-landed c q.message_id landed in
    let c' = release_in_flight_hash c q.message_id in
    let there = ap (λ (x : RedeliveryController). get q.message_id x.entries) same ∙ present in
    let less : RedeliveryController = record c' { entries = remove_key q.message_id c'.entries } in
    let (es, fs, bs) = decrement_hash-SameMaps less q.sticky_key_hash in
    rw (there, remove)
      (
        es ∙ ap (λ (x : RedeliveryController). remove_key q.message_id x.entries) same,
        fs ∙ ap (λ (x : RedeliveryController). x.in_flight_hashes) same,
      )

-- The entries are in the queue of the controller.
abbrev pub AreQueued : RedeliveryController → List RedeliveryEntry → Type 0
AreQueued c queue = All (λ (q : RedeliveryEntry). get q.message_id c.entries ≡ some q) queue

abbrev pub AreOthers : MessageId → List RedeliveryEntry → Type 0
AreOthers id queue = All (λ (q : RedeliveryEntry). eq_id id q.message_id ≡ false) queue

-- No id stands twice.
abbrev pub AreApart : List RedeliveryEntry → Type 0
AreApart [] = Unit
AreApart (q ∷ queue) = AreOthers q.message_id queue × AreApart queue

pub others-AreQueued :
    (c d : RedeliveryController) (id : MessageId) (queue : List RedeliveryEntry)
    → d.entries ≡ remove_key id c.entries
    → AreOthers id queue
    → AreQueued c queue
    → AreQueued d queue
others-AreQueued c d id [] less others queued = tt
others-AreQueued c d id (q ∷ queue) less (other, others) (there, queued) = (
  ap (get q.message_id) less
      ∙ get-remove_key id q.message_id c.entries
      ∙ rw (other, if◌then◌else◌) there,
  others-AreQueued c d id queue less others queued,
)

others_from :
    (m l : List (MessageId × RedeliveryEntry)) (id : MessageId)
    → ((i : MessageId) (e : RedeliveryEntry) → get i l ≡ some e → get i m ≡ some e)
    → ((i : MessageId) (e : RedeliveryEntry) → get i m ≡ some e → e.message_id ≡ i)
    → Distinct l
    → get id l ≡ none
    → AreOthers id (map (λ e. e.1) l)
unfolding get
others_from m [] id into keyed d absent = tt
others_from m ((k, q) ∷ l) id into keyed d absent =
    let same = id_key.eq_refl k in
    let own = keyed k q (into k q (rw (same, if◌then◌else◌) refl)) in
    elim (Bool-cases (eq_id k id)) [
      | inl e ↦
          let here : get id ((k, q) ∷ l) ≡ some q = rw (e, if◌then◌else◌) refl in
          absurd (cc (here, absent))
      | inr n ↦
          let next : get id ((k, q) ∷ l) ≡ get id l = rw (n, if◌then◌else◌) refl in
          (
            subst (λ (i : MessageId). eq_id id i ≡ false) (sym own) (eq_sym id k ∙ n),
            others_from m l id (λ i e h. into i e (get_tail k i q e l d h)) keyed d.1
                (sym next ∙ absent),
          )
    ]

apart_from :
    (m l : List (MessageId × RedeliveryEntry))
    → ((i : MessageId) (e : RedeliveryEntry) → get i l ≡ some e → get i m ≡ some e)
    → ((i : MessageId) (e : RedeliveryEntry) → get i m ≡ some e → e.message_id ≡ i)
    → Distinct l
    → AreApart (map (λ e. e.1) l)
unfolding get
apart_from m [] into keyed d = tt
apart_from m ((k, q) ∷ l) into keyed d =
    let same = id_key.eq_refl k in
    let own = keyed k q (into k q (rw (same, if◌then◌else◌) refl)) in
    let later = λ (i : MessageId) (e : RedeliveryEntry) (h : get i l ≡ some e).
      into i e (get_tail k i q e l d h) in
    (
      subst (λ (i : MessageId). AreOthers i (map (λ e. e.1) l)) (sym own)
          (others_from m l k later keyed d.1 d.0),
      apart_from m l later keyed d.1,
    )

pub queued-AreApart : (c : RedeliveryController) → IsCounted c → AreApart (queued_entries c)
queued-AreApart c v =
    apart_from c.entries c.entries (λ id e h. h) v.apart.keyed v.apart.entries_distinct

-- Each entry of the queue is the one under its id.
known_from :
    (m l : List (MessageId × RedeliveryEntry))
    → ((id : MessageId) (e : RedeliveryEntry) → get id l ≡ some e → get id m ≡ some e)
    → ((id : MessageId) (e : RedeliveryEntry) → get id m ≡ some e → e.message_id ≡ id)
    → Distinct l
    → All (λ (q : RedeliveryEntry). get q.message_id m ≡ some q) (map (λ e. e.1) l)
unfolding get
known_from m [] into keyed d = tt
known_from m ((k, q) ∷ l) into keyed d =
    let same = id_key.eq_refl k in
    let there = into k q (rw (same, if◌then◌else◌) refl) in
    (
      subst (λ (i : MessageId). get i m ≡ some q) (sym (keyed k q there)) there,
      known_from m l (λ id e h. into id e (get_tail k id q e l d h)) keyed d.1,
    )

pub queued-AreQueued :
    (c : RedeliveryController)
    → IsCounted c
    → All (λ (q : RedeliveryEntry). get q.message_id c.entries ≡ some q) (queued_entries c)
queued-AreQueued c v =
    known_from c.entries c.entries (λ id e h. h) v.apart.keyed v.apart.entries_distinct

-- The hash that a message goes out with is held for it while it is in flight.
flown :
    (c : RedeliveryController) (id : MessageId) (own : Option ℤ) (hash : ℤ)
    → c.block_hashes ≡ true
    → (get id (track_in_flight c id own (some (hash_or own hash))).in_flight_hashes
        ≡ some (hash_or own hash))
      × ((track_in_flight c id own (some (hash_or own hash))).entries ≡ c.entries)
unfolding track_in_flight
flown c id (some own) hash blocking =
    let same = id_key.eq_refl id in
    rw blocking
      (get-insert_entry id id own c.in_flight_hashes ∙ rw (same, if◌then◌else◌) refl, refl)
flown c id none hash blocking =
    let same = id_key.eq_refl id in
    rw blocking (
      get-insert_entry id id hash _ ∙ rw (same, if◌then◌else◌) refl,
      (increment_hash-SameMaps _ (some hash)).0,
    )

-- The queued entry, with the hash that it is sent by.
abbrev pub with_hash : RedeliveryEntry → ℤ → RedeliveryEntry
with_hash q hash = record q { sticky_key_hash = some hash }

or_hash-hash_or :
    (own : Option ℤ) (hash : ℤ) → or_hash own (some (hash_or own hash)) ≡ some (hash_or own hash)
or_hash-hash_or none hash = refl
or_hash-hash_or (some own) hash = refl

-- The message is handed out: it is not queued any more, and its hash is held while it is in flight.
pub record IsHanded (q : RedeliveryEntry) (hash : ℤ)
    (r : RedeliveryController × Option RedeliveryEntry) : Type 0 where
  pub after : RedeliveryController
  pub returns : r ≡ (after, some (with_hash q hash))
  pub out : get q.message_id after.entries ≡ none
  pub flies : get q.message_id after.in_flight_hashes ≡ some hash

pub taken-IsHanded :
    (c : RedeliveryController) (q : RedeliveryEntry) (hash : ℤ)
    → IsCounted c
    → get q.message_id c.entries ≡ some q
    → IsHanded q
        (hash_or q.sticky_key_hash hash)
        (take_for_delivery_with_hash c q.message_id (some (hash_or q.sticky_key_hash hash)))
unfolding take_for_delivery_with_hash
taken-IsHanded c q hash v present =
    let own = q.sticky_key_hash in
    let less : RedeliveryController = record c { entries = remove_key q.message_id c.entries } in
    let (flies, rest) = flown less q.message_id own hash v.blocking in
    let same = id_key.eq_refl q.message_id in
    record {
      after = track_in_flight less q.message_id own (some (hash_or own hash));
      returns =
          rw (present, take_for_delivery_with_hash)
            (λ i. (
              track_in_flight less q.message_id own (some (hash_or own hash)),
              some (record q { sticky_key_hash = or_hash-hash_or own hash i }),
            ));
      out =
          ap (get q.message_id) rest
          ∙ get-remove_key q.message_id q.message_id c.entries
          ∙ rw (same, if◌then◌else◌) refl;
      flies = flies;
    }
