-- ===== src/ManagedLedger/Cursor/History.antt =====
-- Histories of `ack_shared` calls of cursor.rs: their order, and entries acknowledged twice.
use pulsar_lite.Prelude.{
  ℕ, ◌≤◌, Bool, false, ◌||◌, Option, none, some, List, [], ◌∷◌, ◌≡◌, refl, sym, ap, ◌∙◌, arith,
  ◌==◌, All,
}
use pulsar_lite.ManagedLedger.RangeSet.{u64_max}
use pulsar_lite.ManagedLedger.Cursor.{SubscriptionCursor, is_message_acknowledged, ack_shared}
use pulsar_lite.ManagedLedger.Cursor.Frontier.{IsCompact}
use pulsar_lite.ManagedLedger.Cursor.Ack.{ack_shared_lem, IsCompact-canonical}

-- One `ack_shared` for each entry, in order.
unfoldable pub ack_all : SubscriptionCursor → List ℕ → Option SubscriptionCursor
ack_all c [] = some c
ack_all c (entry ∷ rest) = elim (ack_shared c entry) [
  | none ↦ none
  | some (c', _) ↦ ack_all c' rest
]

abbrev pub elem : ℕ → List ℕ → Bool
elem x [] = false
elem x (y ∷ ys) = x == y || elem x ys

or_rotate : (p q r : Bool) → (q || (p || r)) ≡ ((p || q) || r)
or_rotate p q r = ground arith

-- After any history the cursor acknowledges the entries of the history, and what it did before.
pub ack_all_lem :
    (c : SubscriptionCursor) (entries : List ℕ)
    → IsCompact c
    → All (λ e. e ≤ u64_max) entries
    → (c' : SubscriptionCursor) × (ack_all c entries ≡ some c')
      × IsCompact c'
      × ((x : ℕ)
          → is_message_acknowledged (some c') x
            ≡ (elem x entries || is_message_acknowledged (some c) x))
unfolding ack_all
ack_all_lem c [] v small = (c, refl, v, λ x. refl)
ack_all_lem c (entry ∷ rest) v small =
    let (c', done, (v', adds)) = ack_shared_lem c entry v small.0 in
    let (d, run, w, holds) = ack_all_lem c' rest v' small.1 in
    (
      d,
      rw (done, ack_all) run,
      w,
      λ x.
          holds x
          ∙ ap (λ t. elem x rest || t) (adds x)
          ∙ or_rotate (x == entry) (elem x rest) (is_message_acknowledged (some c) x),
    )

-- From a compact cursor, two histories of ack_shared calls over the same set of entries up to 2^64
-- - 1 end in the same cursor: neither their order nor an entry that is acknowledged twice changes
-- it.
pub ack_all-order :
    (c : SubscriptionCursor) (es fs : List ℕ)
    → IsCompact c
    → All (λ e. e ≤ u64_max) es
    → All (λ e. e ≤ u64_max) fs
    → ((x : ℕ) → elem x es ≡ elem x fs)
    → ack_all c es ≡ ack_all c fs
ack_all-order c es fs v small small' same =
    let (d, run, w, holds) = ack_all_lem c es v small in
    let (d', run', w', holds') = ack_all_lem c fs v small' in
    run
    ∙ ap some (
        IsCompact-canonical d d' w w' (λ x.
          holds x ∙ ap (λ t. t || is_message_acknowledged (some c) x) (same x) ∙ sym (holds' x)))
    ∙ sym run'
