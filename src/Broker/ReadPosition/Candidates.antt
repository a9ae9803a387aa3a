-- ===== src/Broker/ReadPosition/Candidates.antt =====
-- The candidate is the first message from the read position on that is not acknowledged.
use pulsar_lite.Prelude.{
  ℕ, zero, suc, ◌<◌, Bool, false, Option, none, some, List, [], ◌∷◌, length, if◌then◌else◌, ◌≡◌,
  refl, arith, Bool-cases, ◌⊎◌, inl, inr,
}
use pulsar_lite.Prelude.Results.{ok}
use pulsar_lite.ManagedLedger.Position.{
  ManagedLedgerPosition, MessageId, StoredMessage, from_message_id,
}
use pulsar_lite.Broker.ReadPosition.{
  Log, ReadCandidate, candidate_of, or_next, look_at, candidate_loop,
}

abbrev pub head : List StoredMessage → Option StoredMessage
head [] = none
head (e ∷ rest) = some e

-- The storage holds messages in an order: `from p` are those at a position or after it. Reading
-- gives the first of them, and the position after an entry has those behind it.
pub record IsLog (log : Log) : Type 0 where
  pub from : ManagedLedgerPosition → List StoredMessage
  pub acked : MessageId → Bool
  pub reads : (p : ManagedLedgerPosition) → log.read_entry_from p ≡ ok (head (from p))
  pub next : MessageId → Option ManagedLedgerPosition
  pub gives_next : (id : MessageId) → log.get_next_position (from_message_id id) ≡ ok (next id)
  pub passes :
      (p : ManagedLedgerPosition) (e : StoredMessage) (rest : List StoredMessage)
      → from p ≡ e ∷ rest
      → from (or_next e.message_id (next e.message_id)) ≡ rest
  pub knows : (id : MessageId) → log.is_acknowledged id ≡ ok (acked id)

-- The messages that are not acknowledged, and those from the first of them on.
abbrev pub unacked : (MessageId → Bool) → List StoredMessage → List StoredMessage
unacked acked [] = []
unacked acked (e ∷ rest) = if acked e.message_id then unacked acked rest else e ∷ unacked acked rest

abbrev pub from_unacked : (MessageId → Bool) → List StoredMessage → List StoredMessage
from_unacked acked [] = []
from_unacked acked (e ∷ rest) = if acked e.message_id then from_unacked acked rest else e ∷ rest

module _ (log : Log) (v : IsLog log) where
  abbrev pub found : Option StoredMessage → Option ReadCandidate
  found none = none
  found (some e) = some (candidate_of e (or_next e.message_id (v.next e.message_id)))

  look_at-nothing : (p : ManagedLedgerPosition) → v.from p ≡ [] → look_at log p ≡ ok none
  unfolding look_at
  look_at-nothing p h = rw (v.reads p, h) refl

  look_at-entry :
      (p : ManagedLedgerPosition) (e : StoredMessage) (rest : List StoredMessage)
      → v.from p ≡ e ∷ rest
      → look_at log p
        ≡ ok (some (e, or_next e.message_id (v.next e.message_id), v.acked e.message_id))
  unfolding look_at
  look_at-entry p e rest h = rw (v.reads p, h, v.gives_next e.message_id, v.knows e.message_id) refl

  -- With a round for every message from the position on and one more, the loop gives the first
  -- message there that is not acknowledged, with the position behind it, or none if there is none;
  -- the read position afterwards has the messages from that one on.
  pub candidate_loop_lem :
      (fuel : ℕ) (p : ManagedLedgerPosition) (messages : List StoredMessage)
      → v.from p ≡ messages
      → length messages < fuel
      → (q : ManagedLedgerPosition) × (candidate_loop fuel log p
          ≡ (some q, ok (found (head (unacked v.acked messages)))))
        × (v.from q ≡ from_unacked v.acked messages)
  unfolding candidate_loop
  candidate_loop_lem zero p messages h k = absurd (omega arith)
  candidate_loop_lem (suc fuel) p [] h k = (p, rw (look_at-nothing p h) refl, h)
  candidate_loop_lem (suc fuel) p (e ∷ rest) h k = elim (Bool-cases (v.acked e.message_id)) [
    | inl y ↦
        let (q, done, from_q) =
          candidate_loop_lem fuel (or_next e.message_id (v.next e.message_id)) rest
            (v.passes p e rest h) (omega arith) in
        rw y (q, rw (look_at-entry p e rest h, y) done, from_q)
    | inr n ↦ rw n (p, rw (look_at-entry p e rest h, n) refl, h)
  ]

-- Either all are acknowledged, or there is a first one that is not.
pub unacked-cases :
    (acked : MessageId → Bool) (messages : List StoredMessage)
    → ((from_unacked acked messages ≡ []) × (unacked acked messages ≡ []))
      ⊎ ((e : StoredMessage) × (rest : List StoredMessage) × (from_unacked acked messages
            ≡ e ∷ rest)
          × (unacked acked messages ≡ e ∷ unacked acked rest)
          × (acked e.message_id ≡ false)
          × (length rest < length messages))
unacked-cases acked [] = inl (refl, refl)
unacked-cases acked (e ∷ rest) = elim (Bool-cases (acked e.message_id)) [
  | inr n ↦ rw n (inr (e, rest, refl, refl, n, omega arith))
  | inl y ↦ rw y (elim (unacked-cases acked rest) [
    | inl nothing ↦ inl nothing
    | inr (f, tail, s, u, n, l) ↦ inr (f, tail, s, u, n, omega arith)
  ])
]
