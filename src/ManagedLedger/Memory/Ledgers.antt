-- ===== src/ManagedLedger/Memory/Ledgers.antt =====
-- Appending to the ledgers of memory.rs, and finding what was appended.
use pulsar_lite.Prelude.{
  ℕ, suc, ◌+◌, false, Option, none, some, List, [], ◌∷◌, ◌++◌, length, get_elem?,
  get_elem?-append_last, some_injective, ◌≡◌, refl, sym, ap, ◌∙◌, subst, arith, Bool-cases,
  Option-cases, inl, inr,
}
use pulsar_lite.Prelude.Int.{ℤ}
use pulsar_lite.Prelude.Maps.{
  bytes_key, get, get-insert_entry, eq_bytes, eq_bytes_refl, eq_bytes_sound,
}
use pulsar_lite.ManagedLedger.Position.{MessageId, id_key, eq_id_refl}
use pulsar_lite.ManagedLedger.CursorRead.{Message}
use pulsar_lite.ManagedLedger.Memory.{
  InMemoryManagedLedger, InMemoryManagedLedgerFactory, Storage, add_entry_in_place, or_new_ledger,
  ensure_ledger, append_entry, append_message, messages, entries_of, at_index, get_message_by_id,
}

-- The messages stand at the index that their entry id names.
abbrev pub IsIndexed : ℕ → ℕ → List Message → Type 0
IsIndexed ledger index [] = Unit
IsIndexed ledger index ((id, payload) ∷ rest) =
    (id.ledger ≡ ledger) × (id.entry ≡ index) × IsIndexed ledger (suc index) rest

pub append-IsIndexed :
    (ledger index : ℕ) (ms : List Message) (id : MessageId) (payload : List ℕ)
    → IsIndexed ledger index ms
    → id.ledger ≡ ledger
    → id.entry ≡ index + length ms
    → IsIndexed ledger index (ms ++ (id, payload) ∷ [])
append-IsIndexed ledger index [] id payload v e f = (e, omega arith, tt)
append-IsIndexed ledger index ((i, p) ∷ rest) id payload (a, b, v) e f =
    (a, b, append-IsIndexed ledger (suc index) rest id payload v e (omega arith))

-- The ledger of a topic after `ensure_ledger`.
abbrev pub opened : InMemoryManagedLedgerFactory → List ℕ → InMemoryManagedLedger
opened f topic = (ensure_ledger f topic).1

-- What the topic holds after an append.
append_entry-get :
    (f : InMemoryManagedLedgerFactory) (topic : List ℕ) (partition : ℤ) (payload : List ℕ)
    → get topic (append_entry f topic partition payload).0.ledgers
      ≡ some (add_entry_in_place (opened f topic) partition payload).0
unfolding append_entry
append_entry-get f topic partition payload =
    get-insert_entry topic topic (add_entry_in_place (opened f topic) partition payload).0
      (ensure_ledger f topic).0.ledgers
    ∙ rw (eq_bytes_refl topic) refl

get_message_by_id-ledger :
    (s : Storage) (topic : List ℕ) (ledger : InMemoryManagedLedger) (id : MessageId)
    → get topic s.factory.ledgers ≡ some ledger
    → get_message_by_id s topic id ≡ at_index id ledger.entries (get_elem? ledger.entries id.entry)
unfolding get_message_by_id
get_message_by_id-ledger s topic ledger id e = rw (get_message_by_id, e) refl

at_last :
    (id : MessageId) (payload : List ℕ) (old : List Message)
    → id.entry ≡ length old
    → at_index id (old ++ (id, payload) ∷ []) (get_elem? (old ++ (id, payload) ∷ []) id.entry)
      ≡ some (id, payload)
at_last id payload old e =
    ap (λ n. at_index id (old ++ (id, payload) ∷ []) (get_elem? (old ++ (id, payload) ∷ []) n)) e
    ∙ ap (at_index id (old ++ (id, payload) ∷ [])) (get_elem?-append_last old (id, payload))
    ∙ rw (eq_id_refl id) refl

-- get_message_by_id finds an appended message with its payload under the id that append_message
-- returned.
pub get_message_by_id-append_message :
    (s : Storage) (topic : List ℕ) (partition : ℤ) (payload : List ℕ)
    → get_message_by_id
        (append_message s topic partition payload).0
        topic
        (append_message s topic partition payload).1
      ≡ some ((append_message s topic partition payload).1, payload)
unfolding append_entry
get_message_by_id-append_message s topic partition payload =
    get_message_by_id-ledger (append_message s topic partition payload).0 topic
      (add_entry_in_place (opened s.factory topic) partition payload).0
      (append_message s topic partition payload).1
      (append_entry-get s.factory topic partition payload)
    ∙ at_last (append_message s topic partition payload).1 payload (opened s.factory topic).entries
        refl

or_new_ledger-entries :
    (f : InMemoryManagedLedgerFactory) (topic : List ℕ) (o : Option InMemoryManagedLedger)
    → (or_new_ledger f topic o).1.entries ≡ entries_of o
or_new_ledger-entries f topic none = refl
or_new_ledger-entries f topic (some ledger) = refl

opened-entries :
    (f : InMemoryManagedLedgerFactory) (topic : List ℕ)
    → (opened f topic).entries ≡ entries_of (get topic f.ledgers)
unfolding ensure_ledger
opened-entries f topic = or_new_ledger-entries f topic (get topic f.ledgers)

-- After append_message the messages of the topic are those that it had, with the new one behind
-- them, also for a new topic.
pub append_message-messages :
    (s : Storage) (topic : List ℕ) (partition : ℤ) (payload : List ℕ)
    → messages (append_message s topic partition payload).0 topic
      ≡ messages s topic ++ ((append_message s topic partition payload).1, payload) ∷ []
unfolding append_entry
append_message-messages s topic partition payload =
    ap entries_of (append_entry-get s.factory topic partition payload)
    ∙ ap (λ old. old ++ ((append_message s topic partition payload).1, payload) ∷ [])
        (opened-entries s.factory topic)

or_new_ledger-other :
    (f : InMemoryManagedLedgerFactory) (topic other : List ℕ) (o : Option InMemoryManagedLedger)
    → eq_bytes topic other ≡ false
    → get other (or_new_ledger f topic o).0.ledgers ≡ get other f.ledgers
or_new_ledger-other f topic other (some ledger) h = refl
or_new_ledger-other f topic other none h = get-insert_entry topic other _ f.ledgers ∙ rw h refl

append_entry-other :
    (f : InMemoryManagedLedgerFactory) (topic other : List ℕ) (partition : ℤ) (payload : List ℕ)
    → eq_bytes topic other ≡ false
    → get other (append_entry f topic partition payload).0.ledgers ≡ get other f.ledgers
unfolding append_entry ensure_ledger
append_entry-other f topic other partition payload h =
    get-insert_entry topic other (add_entry_in_place (opened f topic) partition payload).0
      (ensure_ledger f topic).0.ledgers
    ∙ rw h (or_new_ledger-other f topic other (get topic f.ledgers) h)

-- Every ledger has its messages at the indices that their entry ids name, under its own id.
abbrev pub IsStored : Storage → Type 0
IsStored s =
    (topic : List ℕ) (ledger : InMemoryManagedLedger)
    → get topic s.factory.ledgers ≡ some ledger
    → IsIndexed ledger.ledger_id 0 ledger.entries

opened-IsIndexed :
    (s : Storage) (topic : List ℕ)
    → IsStored s
    → IsIndexed (opened s.factory topic).ledger_id 0 (opened s.factory topic).entries
unfolding ensure_ledger
opened-IsIndexed s topic v = elim (Option-cases (get topic s.factory.ledgers)) [
  | inl e ↦
      subst
        (λ o.
          IsIndexed (or_new_ledger s.factory topic o).1.ledger_id 0
            (or_new_ledger s.factory topic o).1.entries)
        (sym e) tt
  | inr (ledger, e) ↦
      subst
        (λ o.
          IsIndexed (or_new_ledger s.factory topic o).1.ledger_id 0
            (or_new_ledger s.factory topic o).1.entries)
        (sym e) (v topic ledger e)
]

-- Where every ledger has its messages at the indices that their entry ids name and under its own
-- ledger id, that is so after append_message, for a new topic as well.
pub append_message-IsStored :
    (s : Storage) (topic : List ℕ) (partition : ℤ) (payload : List ℕ)
    → IsStored s
    → IsStored (append_message s topic partition payload).0
append_message-IsStored s topic partition payload v other ledger at =
    elim (Bool-cases (eq_bytes topic other)) [
      | inl e ↦
          let new = append_entry-get s.factory topic partition payload in
          let at_topic =
            subst
              (λ t.
                get t (append_message s topic partition payload).0.factory.ledgers ≡ some ledger)
              (sym (eq_bytes_sound topic other e)) at in
          subst (λ l. IsIndexed l.ledger_id 0 l.entries)
            (some_injective (add_entry_in_place (opened s.factory topic) partition payload).0 ledger
              (sym new ∙ at_topic))
            (append-IsIndexed (opened s.factory topic).ledger_id 0 (opened s.factory topic).entries
              (add_entry_in_place (opened s.factory topic) partition payload).1 payload
              (opened-IsIndexed s topic v) refl (omega arith))
      | inr e ↦
          v other ledger (sym (append_entry-other s.factory topic other partition payload e) ∙ at)
    ]
