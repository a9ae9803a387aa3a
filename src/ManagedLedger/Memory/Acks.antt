-- ===== src/ManagedLedger/Memory/Acks.antt =====
-- Shared acknowledgements in memory.rs.
use pulsar_lite.Prelude.{
  ℕ, false, ◌||◌, none, some, List, ◌≡◌, refl, sym, ap, ◌∙◌, arith, ◌<◌, ◌≤◌, ◌==◌, leb,
}
use pulsar_lite.Prelude.Maps.{bytes_key, get, insert_entry, get-insert_entry, eq_bytes_refl}
use pulsar_lite.ManagedLedger.RangeSet.{u64_max, contains, last_le, first_ge}
use pulsar_lite.ManagedLedger.Cursor.{
  SubscriptionCursor, default_cursor, is_message_acknowledged, ack_shared, report,
}
use pulsar_lite.ManagedLedger.Cursor.Frontier.{IsCompact}
use pulsar_lite.ManagedLedger.Cursor.Ack.{ack_shared_lem}
use pulsar_lite.ManagedLedger.Position.{MessageId}
use pulsar_lite.ManagedLedger.CursorRead.{cursor_subscription_key}
use pulsar_lite.ManagedLedger.Memory.{Storage, is_acknowledged, within_mark}
use pulsar_lite.ManagedLedger.Memory.Cursors.{ack_message, ack_message_shared, or_default_cursor}

module _ (s : Storage) (topic subscription : List ℕ) where
  abbrev key : List ℕ
  key = cursor_subscription_key topic subscription

  with_cursor : SubscriptionCursor → Storage
  with_cursor c = record s { subscription_cursors = insert_entry key c s.subscription_cursors }

  -- What is read through a key after its cursor was stored.
  is_acknowledged-stored :
      (c : SubscriptionCursor) (j : MessageId)
      → is_acknowledged (with_cursor c) topic subscription j
        ≡ is_message_acknowledged (some c) j.entry
  unfolding is_acknowledged is_message_acknowledged with_cursor
  is_acknowledged-stored c j =
      let at : get key (insert_entry key c s.subscription_cursors) ≡ some c =
        get-insert_entry key key c s.subscription_cursors ∙ rw (eq_bytes_refl key) refl in
      rw (is_acknowledged, at) refl

  is_acknowledged-shared :
      (c : SubscriptionCursor) (j : MessageId)
      → get key s.subscription_cursors ≡ some c
      → is_acknowledged s topic subscription j ≡ is_message_acknowledged (some c) j.entry
  unfolding is_acknowledged is_message_acknowledged
  is_acknowledged-shared c j at = rw (is_acknowledged, at) refl

  is_acknowledged-exclusive :
      (mark : ℕ) (j : MessageId)
      → get key s.subscription_cursors ≡ none
      → get key s.cursors ≡ some mark
      → is_acknowledged s topic subscription j ≡ within_mark (some mark) j.entry
  unfolding is_acknowledged
  is_acknowledged-exclusive mark j gone at = rw (is_acknowledged, gone, at) refl

  ack_message_shared-stored :
      (c c' : SubscriptionCursor) (id : MessageId)
      → or_default_cursor (get key s.subscription_cursors) ≡ c
      → ack_shared c id.entry ≡ some (report c')
      → ack_message_shared s topic subscription id ≡ some (with_cursor c')
  unfolding ack_message_shared with_cursor
  ack_message_shared-stored c c' id e done = rw (ack_message_shared, e, done) refl

-- Where the subscription has a shared cursor and it is compact, ack_message_shared returns for an
-- entry up to 2^64 - 1, and is_acknowledged holds afterwards of the ids with that entry and of
-- those for which it held before.
pub ack_message_shared_lem :
    (s : Storage) (topic subscription : List ℕ) (id : MessageId) (c : SubscriptionCursor)
    → get (cursor_subscription_key topic subscription) s.subscription_cursors ≡ some c
    → IsCompact c
    → id.entry ≤ u64_max
    → (s' : Storage) × (ack_message_shared s topic subscription id ≡ some s')
      × ((j : MessageId)
          → is_acknowledged s' topic subscription j
            ≡ ((j.entry == id.entry) || is_acknowledged s topic subscription j))
ack_message_shared_lem s topic subscription id c at v small =
    let (c', done, (compact, adds)) = ack_shared_lem c id.entry v small in
    (
      with_cursor s topic subscription c',
      ack_message_shared-stored s topic subscription c c' id (ap or_default_cursor at) done,
      λ j.
          is_acknowledged-stored s topic subscription c' j
          ∙ adds j.entry
          ∙ ap (λ b. (j.entry == id.entry) || b)
              (sym (is_acknowledged-shared s topic subscription c j at)),
    )

default-IsCompact : IsCompact default_cursor
default-IsCompact = record { in_range = omega arith; beyond = tt }

default_none : (x : ℕ) → is_message_acknowledged (some default_cursor) x ≡ false
unfolding is_message_acknowledged contains last_le first_ge
default_none x = refl

-- Where the subscription has a mark below 2^64 - 1 and no shared cursor, is_acknowledged holds
-- exactly up to the mark; ack_message_shared of an entry up to 2^64 - 1 returns, and then
-- is_acknowledged holds of the ids with that entry only.
pub ack_message_shared_forgets :
    (s : Storage) (topic subscription : List ℕ) (id : MessageId) (mark : ℕ)
    → get (cursor_subscription_key topic subscription) s.subscription_cursors ≡ none
    → get (cursor_subscription_key topic subscription) s.cursors ≡ some mark
    → id.entry ≤ u64_max
    → mark < u64_max
    → ((j : MessageId) → is_acknowledged s topic subscription j ≡ leb j.entry mark)
      × (s' : Storage) × (ack_message_shared s topic subscription id ≡ some s')
      × ((j : MessageId) → is_acknowledged s' topic subscription j ≡ (j.entry == id.entry))
ack_message_shared_forgets s topic subscription id mark gone at small below =
    let (c', done, (compact, adds)) =
      ack_shared_lem default_cursor id.entry default-IsCompact small in
    (
      (λ j. is_acknowledged-exclusive s topic subscription mark j gone at ∙ ground arith),
      with_cursor s topic subscription c',
      ack_message_shared-stored s topic subscription default_cursor c' id
          (ap or_default_cursor gone) done,
      λ j.
          is_acknowledged-stored s topic subscription c' j
          ∙ adds j.entry
          ∙ ap (λ b. (j.entry == id.entry) || b) (default_none j.entry)
          ∙ ground arith,
    )

-- Where the subscription has a shared cursor, ack_message does not change is_acknowledged of any
-- message.
pub is_acknowledged-ack_message :
    (s : Storage) (topic subscription : List ℕ) (id j : MessageId) (c : SubscriptionCursor)
    → get (cursor_subscription_key topic subscription) s.subscription_cursors ≡ some c
    → is_acknowledged (ack_message s topic subscription id) topic subscription j
      ≡ is_acknowledged s topic subscription j
unfolding ack_message
is_acknowledged-ack_message s topic subscription id j c at =
    is_acknowledged-shared (ack_message s topic subscription id) topic subscription c j at
    ∙ sym (is_acknowledged-shared s topic subscription c j at)
