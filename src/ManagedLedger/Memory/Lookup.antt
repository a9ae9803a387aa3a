-- ===== src/ManagedLedger/Memory/Lookup.antt =====
-- Finding what was appended: get_message_by_id of memory.rs against a scan.
use pulsar_lite.Prelude.{
  ℕ, suc, true, false, Option, none, some, List, [], ◌∷◌, ◌++◌, get_elem?, get_elem?-head,
  get_elem?-tail, ◌-◌, ◌==◌, some_injective, ◌≡◌, ◌≢◌, refl, sym, ap, ◌∙◌, subst, arith,
  if◌then◌else◌, Bool-cases, Option-cases, inl, inr, ◌≤◌,
}
use pulsar_lite.Prelude.Int.{ℤ}
use pulsar_lite.Prelude.Maps.{bytes_key, get}
use pulsar_lite.ManagedLedger.Position.{MessageId, id_key, eq_id}
use pulsar_lite.ManagedLedger.CursorRead.{Message}
use pulsar_lite.ManagedLedger.Memory.{
  Storage, append_message, messages, find_message, at_index, get_message_by_id,
}
use pulsar_lite.ManagedLedger.Memory.Ledgers.{
  IsIndexed, IsStored, append_message-IsStored, append_message-messages,
}

find_message-append :
    (id : MessageId) (ms : List Message) (m n : Message)
    → find_message id ms ≡ some m
    → find_message id (ms ++ n ∷ []) ≡ some m
unfolding find_message
find_message-append id [] m n h = absurd (ground arith)
find_message-append id (x ∷ ms) m n h = elim (Bool-cases (eq_id x.0 id)) [
  | inl e ↦ rw (e, if◌then◌else◌) (rw (e, if◌then◌else◌) at h)
  | inr e ↦ rw (e, if◌then◌else◌) (find_message-append id ms m n (rw (e, if◌then◌else◌) at h))
]

eq_id_entry : (a b : MessageId) → a.entry ≢ b.entry → eq_id a b ≡ false
eq_id_entry a b h = ground arith

indexed_find :
    (id : MessageId) (ledger index : ℕ) (ms : List Message) (m : Message)
    → IsIndexed ledger index ms
    → index ≤ id.entry
    → get_elem? ms (id.entry - index) ≡ some m
    → eq_id m.0 id ≡ true
    → find_message id ms ≡ some m
unfolding find_message
indexed_find id ledger index [] m v le at same = absurd (ground arith)
indexed_find id ledger index ((i, p) ∷ rest) m (a, b, v) le at same =
    elim (Bool-cases (id.entry == index)) [
      | inl e ↦
          let head =
            some_injective m (i, p)
              (sym at ∙ get_elem?-head (i, p) rest (id.entry - index) (ground arith)) in
          rw (subst (λ n. eq_id n.0 id ≡ true) head same, if◌then◌else◌) (ap some (sym head))
      | inr e ↦
          let later =
            sym
              (get_elem?-tail (i, p) rest (id.entry - index) (id.entry - suc index) (ground arith))
            ∙ at in
          let other : eq_id i id ≡ false = eq_id_entry i id (ground arith) in
          rw (other, if◌then◌else◌)
            (indexed_find id ledger (suc index) rest m v (ground arith) later same)
    ]

at_index-find_message :
    (id : MessageId) (ledger : ℕ) (ms : List Message) (o : Option Message)
    → IsIndexed ledger 0 ms
    → get_elem? ms (id.entry - 0) ≡ o
    → at_index id ms o ≡ find_message id ms
at_index-find_message id ledger ms none v e = refl
at_index-find_message id ledger ms (some m) v e = elim (Bool-cases (eq_id m.0 id)) [
  | inl same ↦ rw (same, if◌then◌else◌) (sym (indexed_find id ledger 0 ms m v (omega arith) e same))
  | inr other ↦ rw (other, if◌then◌else◌) refl
]

entry_less_zero : (ms : List Message) (n : ℕ) → get_elem? ms (n - 0) ≡ get_elem? ms n
entry_less_zero ms n = let e : n - 0 ≡ n = omega arith in ap (get_elem? ms) e

-- With every message at its index, get_message_by_id, which looks at the index first, gives what a
-- scan of the messages of the topic gives.
pub get_message_by_id-find_message :
    (s : Storage) (topic : List ℕ) (id : MessageId)
    → IsStored s
    → get_message_by_id s topic id ≡ find_message id (messages s topic)
unfolding get_message_by_id
get_message_by_id-find_message s topic id v = elim (Option-cases (get topic s.factory.ledgers)) [
  | inl e ↦ rw (get_message_by_id, e) (unfold find_message in refl)
  | inr (ledger, e) ↦
      rw (get_message_by_id, e)
        (at_index-find_message id ledger.ledger_id ledger.entries
          (get_elem? ledger.entries id.entry) (v topic ledger e)
          (entry_less_zero ledger.entries id.entry))
]

-- With every message at its index, a message that get_message_by_id finds is found with its
-- payload after any append to its topic.
pub get_message_by_id_stays :
    (s : Storage) (topic : List ℕ) (partition : ℤ) (payload : List ℕ) (id : MessageId) (m : Message)
    → IsStored s
    → get_message_by_id s topic id ≡ some m
    → get_message_by_id (append_message s topic partition payload).0 topic id ≡ some m
get_message_by_id_stays s topic partition payload id m v h =
    let after = (append_message s topic partition payload).0 in
    get_message_by_id-find_message after topic id
      (append_message-IsStored s topic partition payload v)
    ∙ ap (find_message id) (append_message-messages s topic partition payload)
    ∙ find_message-append id (messages s topic) m _
        (sym (get_message_by_id-find_message s topic id v) ∙ h)
