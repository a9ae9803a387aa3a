-- ===== src/ManagedLedger/Memory/Seek.antt =====
-- Seeking in memory.rs.
use pulsar_lite.Prelude.{
  ℕ, suc, ◌-◌, Bool, true, false, Option, none, some, List, [], ◌∷◌, get_elem?, get_elem?-head,
  get_elem?-tail, some_injective, ◌≡◌, refl, sym, ap, ◌∙◌, subst, arith, if◌then◌else◌, Bool-cases,
  inl, inr, ◌<◌, ◌≤◌, ltb, ◌==◌,
}
use pulsar_lite.Prelude.Maps.{
  bytes_key, get, insert_entry, remove_key, get-insert_entry, get-remove_key, eq_bytes_refl,
}
use pulsar_lite.ManagedLedger.RangeSet.{u64_max, contains, last_le, first_ge}
use pulsar_lite.ManagedLedger.Cursor.{SubscriptionCursor, is_message_acknowledged}
use pulsar_lite.ManagedLedger.Position.{
  ManagedLedgerPosition, MessageId, from_message_id, lt_position,
}
use pulsar_lite.ManagedLedger.CursorRead.{
  Message, first_unacked_from_messages, cursor_subscription_key,
}
use pulsar_lite.ManagedLedger.Memory.{
  Storage, messages, is_acknowledged, first_unacked_position, within_mark,
}
use pulsar_lite.ManagedLedger.Memory.Cursors.{last_before, seek_cursor, entry_of, mark_or_max}
use pulsar_lite.ManagedLedger.Memory.Ledgers.{IsIndexed}

-- The message at an index, and the messages after it.
module _ (id : MessageId) (p : List ℕ) (rest : List Message) (m : Message) where
  at_head : (n : ℕ) → n ≡ 0 → get_elem? ((id, p) ∷ rest) n ≡ some m → m ≡ (id, p)
  at_head n e at = some_injective m (id, p) (sym at ∙ get_elem?-head (id, p) rest n e)

  at_tail :
      (n k : ℕ) → n ≡ suc k → get_elem? ((id, p) ∷ rest) n ≡ some m → get_elem? rest k ≡ some m
  at_tail n k e at = sym (get_elem?-tail (id, p) rest n k e) ∙ at

lt_position_irrefl : (p : ManagedLedgerPosition) → lt_position p p ≡ false
lt_position_irrefl p = ground arith

lt_position_entry :
    (p q : ManagedLedgerPosition)
    → p.ledger_id ≡ q.ledger_id
    → p.entry_id < q.entry_id
    → lt_position p q ≡ true
lt_position_entry p q e h = ground arith

-- The first message from the index on that is not below the target.
first_unacked-below :
    (acked : MessageId → Bool) (target ledger index : ℕ) (ms : List Message)
    → IsIndexed ledger index ms
    → ((id : MessageId) → acked id ≡ ltb id.entry target)
    → index ≤ target
    → (m : Message) → get_elem? ms (target - index) ≡ some m
    → first_unacked_from_messages acked ms ≡ some (from_message_id m.0)
unfolding first_unacked_from_messages
first_unacked-below acked target ledger index [] v h le m at = absurd (ground arith)
first_unacked-below acked target ledger index ((id, p) ∷ rest) (a, b, v) h le m at =
    elim (Bool-cases (target == index)) [
      | inl e ↦
          let same = at_head id p rest m (target - index) (ground arith) at in
          let unacked : acked id ≡ false = h id ∙ ground arith in
          rw (unacked, if◌then◌else◌) (ap (λ n. some (from_message_id n.0)) (sym same))
      | inr e ↦
          let later = at_tail id p rest m (target - index) (target - suc index) (ground arith) at in
          let below : acked id ≡ true = h id ∙ ground arith in
          rw (below, if◌then◌else◌)
            (first_unacked-below acked target ledger (suc index) rest v h (ground arith) m later)
    ]

agree : (t k i : ℕ) → i ≡ k → (if t == suc k then some i else some (t - 1)) ≡ some (t - 1)
agree t k i e = ground arith

-- The last position below a message of the list has the entry before it.
last_before-entry :
    (m : Message) (before : Option ManagedLedgerPosition) (index : ℕ) (ms : List Message)
    → IsIndexed m.0.ledger index ms
    → index ≤ m.0.entry
    → get_elem? ms (m.0.entry - index) ≡ some m
    → entry_of (last_before (from_message_id m.0) before ms)
      ≡ (if m.0.entry == index then entry_of before else some (m.0.entry - 1))
unfolding last_before
last_before-entry m before index [] v le at = absurd (ground arith)
last_before-entry m before index ((id, p) ∷ rest) (a, b, v) le at =
    elim (Bool-cases (m.0.entry == index)) [
      | inl e ↦
          let same = at_head id p rest m (m.0.entry - index) (ground arith) at in
          let stop : lt_position (from_message_id id) (from_message_id m.0) ≡ false =
            subst (λ n. lt_position (from_message_id id) (from_message_id n.0) ≡ false) (sym same)
              (lt_position_irrefl (from_message_id id)) in
          rw (stop, if◌then◌else◌) (rw (e, if◌then◌else◌) refl)
      | inr e ↦
          let later =
            at_tail id p rest m (m.0.entry - index) (m.0.entry - suc index) (ground arith) at in
          let on : lt_position (from_message_id id) (from_message_id m.0) ≡ true =
            lt_position_entry (from_message_id id) (from_message_id m.0) a (ground arith) in
          let all =
            last_before-entry m (some (from_message_id id)) (suc index) rest v (ground arith)
              later in
          rw (on, if◌then◌else◌) (rw (e, if◌then◌else◌) (all ∙ agree m.0.entry index id.entry b))
    ]

at_entry :
    (ms : List Message) (m : Message)
    → get_elem? ms m.0.entry ≡ some m
    → get_elem? ms (m.0.entry - 0) ≡ some m
at_entry ms m at =
    let e : m.0.entry ≡ m.0.entry - 0 = omega arith in subst (λ n. get_elem? ms n ≡ some m) e at

shared_below :
    (o : Option ℕ) (target e : ℕ)
    → o ≡ (if target == 0 then none else some (target - 1))
    → is_message_acknowledged (some (record { mark_delete = o; acked_holes = [] })) e ≡ ltb e target
unfolding is_message_acknowledged contains last_le first_ge
shared_below none target e h = ground arith
shared_below (some x) target e h = ground arith

exclusive_below :
    (o : Option ManagedLedgerPosition) (target e : ℕ)
    → target ≤ u64_max
    → entry_of o ≡ (if target == 0 then none else some (target - 1))
    → within_mark (some (mark_or_max o)) e ≡ ltb e target
exclusive_below none target e small h = ground arith
exclusive_below (some x) target e small h = ground arith

module _ (s : Storage) (topic subscription : List ℕ) where
  abbrev key : List ℕ
  key = cursor_subscription_key topic subscription

  shared-is_acknowledged :
      (c : SubscriptionCursor) (id : MessageId)
      → is_acknowledged
          (record s {
            cursors = remove_key key s.cursors;
            subscription_cursors = insert_entry key c s.subscription_cursors;
          })
          topic
          subscription
          id
        ≡ is_message_acknowledged (some c) id.entry
  unfolding is_acknowledged is_message_acknowledged
  shared-is_acknowledged c id =
      let at : get key (insert_entry key c s.subscription_cursors) ≡ some c =
        get-insert_entry key key c s.subscription_cursors ∙ rw (eq_bytes_refl key) refl in
      rw (is_acknowledged, at) refl

  exclusive-is_acknowledged :
      (mark : ℕ) (id : MessageId)
      → is_acknowledged
          (record s {
            subscription_cursors = remove_key key s.subscription_cursors;
            cursors = insert_entry key mark s.cursors;
          })
          topic
          subscription
          id
        ≡ within_mark (some mark) id.entry
  unfolding is_acknowledged
  exclusive-is_acknowledged mark id =
      let gone : get key (remove_key key s.subscription_cursors) ≡ none =
        get-remove_key key key s.subscription_cursors ∙ rw (eq_bytes_refl key) refl in
      let at : get key (insert_entry key mark s.cursors) ≡ some mark =
        get-insert_entry key key mark s.cursors ∙ rw (eq_bytes_refl key) refl in
      rw (is_acknowledged, gone, at) refl

  seek_acked :
      (m : Message) (shared : Bool)
      → IsIndexed m.0.ledger 0 (messages s topic)
      → get_elem? (messages s topic) m.0.entry ≡ some m
      → m.0.entry ≤ u64_max
      → (id : MessageId)
      → is_acknowledged (seek_cursor s topic subscription m.0 shared) topic subscription id
        ≡ ltb id.entry m.0.entry
  unfolding seek_cursor
  seek_acked m true v at small id =
      let mark =
        last_before-entry m none 0 (messages s topic) v (omega arith)
          (at_entry (messages s topic) m at) in
      shared-is_acknowledged
        (record {
          mark_delete = entry_of (last_before (from_message_id m.0) none (messages s topic));
          acked_holes = [];
        })
        id
      ∙ shared_below (entry_of (last_before (from_message_id m.0) none (messages s topic)))
          m.0.entry id.entry mark
  seek_acked m false v at small id =
      let mark =
        last_before-entry m none 0 (messages s topic) v (omega arith)
          (at_entry (messages s topic) m at) in
      exclusive-is_acknowledged
        (mark_or_max (last_before (from_message_id m.0) none (messages s topic))) id
      ∙ exclusive_below (last_before (from_message_id m.0) none (messages s topic)) m.0.entry
          id.entry small mark

  seek-messages :
      (id : MessageId) (shared : Bool)
      → messages (seek_cursor s topic subscription id shared) topic ≡ messages s topic
  unfolding seek_cursor
  seek-messages id true = refl
  seek-messages id false = refl

-- For a topic with its messages at the indices that their entry ids name: after a seek to a stored
-- message, by a shared subscription or not, is_acknowledged holds of the ids with a smaller entry
-- and no others, and the first unacknowledged position is the message's.
pub first_unacked_position-seek_cursor :
    (s : Storage) (topic subscription : List ℕ) (m : Message) (shared : Bool)
    → IsIndexed m.0.ledger 0 (messages s topic)
    → get_elem? (messages s topic) m.0.entry ≡ some m
    → m.0.entry ≤ u64_max
    → ((id : MessageId)
        → is_acknowledged (seek_cursor s topic subscription m.0 shared) topic subscription id
          ≡ ltb id.entry m.0.entry)
      × (first_unacked_position (seek_cursor s topic subscription m.0 shared) topic subscription
          ≡ some (from_message_id m.0))
unfolding first_unacked_position
first_unacked_position-seek_cursor s topic subscription m shared v at small =
    let acked = seek_acked s topic subscription m shared v at small in
    let same = seek-messages s topic subscription m.0 shared in
    (
      acked,
      ap
            (first_unacked_from_messages
              (is_acknowledged (seek_cursor s topic subscription m.0 shared) topic subscription))
            same
          ∙ first_unacked-below
              (is_acknowledged (seek_cursor s topic subscription m.0 shared) topic subscription)
              m.0.entry m.0.ledger 0 (messages s topic) v acked (omega arith) m
              (at_entry (messages s topic) m at),
    )
