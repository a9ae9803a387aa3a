-- ===== src/Broker/PendingAcks/Closing.antt =====
-- Closing of pending_acks.rs, with calls that were under way: `finishes` is the step of a call of
-- `add_pending_ack` that has the lock, whenever it began.
use pulsar_lite.Prelude.{
  Bool, true, false, ◌&&◌, ◌||◌, not, Option, none, some, List, [], ◌∷◌, ◌≡◌, refl, ap, ◌∙◌, arith,
  if◌then◌else◌, Bool-cases, inl, inr,
}
use pulsar_lite.Prelude.Maps.{get, remove_key, get-insert_ordered, get-remove_key}
use pulsar_lite.ManagedLedger.Position.{MessageId, id_key, eq_id}
use pulsar_lite.Broker.PendingAcks.{
  PendingAcksMap, PendingAck, finish_add, remove_pending, contains_pending, is_present, close,
  drain,
}

pub data Call : Type 0 where
  begins : MessageId → Call
  finishes : MessageId → PendingAck → Call
  removes : MessageId → Call
  closes : Call
  drains : Call

abbrev pub step : PendingAcksMap → Call → PendingAcksMap
step m (begins id) = m
step m (finishes id ack) = (finish_add m id ack).0
step m (removes id) = (remove_pending m id).0
step m closes = close m
step m drains = (drain m).0

abbrev pub run : PendingAcksMap → List Call → PendingAcksMap
run m [] = m
run m (call ∷ calls) = run (step m call) calls

-- Whether a message is outstanding after the calls, from whether it was before and whether the map
-- was closed.
unfoldable pub outstanding : MessageId → Bool → Bool → List Call → Bool
outstanding id closed before [] = before
outstanding id closed before (begins j ∷ calls) = outstanding id closed before calls
outstanding id closed before (finishes j ack ∷ calls) =
    outstanding id closed (before || (not closed && eq_id j id)) calls
outstanding id closed before (removes j ∷ calls) =
    outstanding id closed (before && not (eq_id j id)) calls
outstanding id closed before (closes ∷ calls) = outstanding id true before calls
outstanding id closed before (drains ∷ calls) = outstanding id closed false calls

added :
    (c : Bool) (ack : PendingAck) (o : Option PendingAck)
    → is_present (if c then some ack else o) ≡ (is_present o || c)
added c ack o = ground arith

taken :
    (c : Bool) (o : Option PendingAck)
    → is_present (if c then none else o) ≡ (is_present o && not c)
taken c o = ground arith

or_false : (b : Bool) → b ≡ (b || false)
or_false b = ground arith

finish_add-contains :
    (m : PendingAcksMap) (id j : MessageId) (ack : PendingAck)
    → contains_pending (finish_add m j ack).0 id
      ≡ (contains_pending m id || (not m.closed && eq_id j id))
unfolding contains_pending finish_add
finish_add-contains m id j ack = elim (Bool-cases m.closed) [
  | inl e ↦ rw (e, if◌then◌else◌) (or_false (contains_pending m id))
  | inr e ↦
      rw (e, if◌then◌else◌)
        (ap is_present (get-insert_ordered j id ack m.inner)
          ∙ added (eq_id j id) ack (get id m.inner))
]

remove-contains :
    (m : PendingAcksMap) (id j : MessageId)
    → contains_pending (remove_pending m j).0 id ≡ (contains_pending m id && not (eq_id j id))
unfolding contains_pending remove_pending
remove-contains m id j =
    ap is_present (get-remove_key j id m.inner) ∙ taken (eq_id j id) (get id m.inner)

finish_add-closed :
    (m : PendingAcksMap) (j : MessageId) (ack : PendingAck)
    → (finish_add m j ack).0.closed ≡ m.closed
unfolding finish_add
finish_add-closed m j ack = ground arith

remove-closed : (m : PendingAcksMap) (j : MessageId) → (remove_pending m j).0.closed ≡ m.closed
unfolding remove_pending
remove-closed m j = refl

outstanding_at :
    (id : MessageId) (calls : List Call) {c d p q : Bool}
    → c ≡ d
    → p ≡ q
    → outstanding id c p calls ≡ outstanding id d q calls
outstanding_at id calls {c} {d} {p} {q} e f =
    ap (λ x. outstanding id x p calls) e ∙ ap (λ x. outstanding id d x calls) f

-- After any sequence of calls a message is pending exactly when it was added while the map was not
-- closed, or was pending before, and no remove of it and no drain came after.
pub run-outstanding :
    (m : PendingAcksMap) (calls : List Call) (id : MessageId)
    → contains_pending (run m calls) id ≡ outstanding id m.closed (contains_pending m id) calls
unfolding outstanding close drain contains_pending get
run-outstanding m [] id = refl
run-outstanding m (begins j ∷ calls) id = run-outstanding m calls id
run-outstanding m (finishes j ack ∷ calls) id =
    run-outstanding (finish_add m j ack).0 calls id
    ∙ outstanding_at id calls (finish_add-closed m j ack) (finish_add-contains m id j ack)
run-outstanding m (removes j ∷ calls) id =
    run-outstanding (remove_pending m j).0 calls id
    ∙ outstanding_at id calls (remove-closed m j) (remove-contains m id j)
run-outstanding m (closes ∷ calls) id = run-outstanding (close m) calls id
run-outstanding m (drains ∷ calls) id = run-outstanding (drain m).0 calls id

kept_empty :
    (m : PendingAcksMap) (call : Call)
    → m.closed ≡ true
    → m.inner ≡ []
    → ((step m call).closed ≡ true) × ((step m call).inner ≡ [])
unfolding finish_add remove_pending close drain remove_key
kept_empty m (begins id) c e = (c, e)
kept_empty m (finishes id ack) c e = (ground arith, ground arith)
kept_empty m (removes id) c e = (c, ap (remove_key id) e)
kept_empty m closes c e = (refl, e)
kept_empty m drains c e = (c, refl)

stays_empty :
    (m : PendingAcksMap) (calls : List Call)
    → m.closed ≡ true
    → m.inner ≡ []
    → (run m calls).inner ≡ []
stays_empty m [] c e = e
stays_empty m (call ∷ calls) c e =
    let (c', e') = kept_empty m call c e in stays_empty (step m call) calls c' e'

still_closed : (m : PendingAcksMap) (call : Call) → m.closed ≡ true → (step m call).closed ≡ true
unfolding finish_add remove_pending close drain
still_closed m (begins id) c = c
still_closed m (finishes id ack) c = ground arith
still_closed m (removes id) c = c
still_closed m closes c = refl
still_closed m drains c = c

stays_closed :
    (m : PendingAcksMap) (calls : List Call) → m.closed ≡ true → (run m calls).closed ≡ true
stays_closed m [] c = c
stays_closed m (call ∷ calls) c = stays_closed (step m call) calls (still_closed m call c)

-- After close and a later drain, with any calls between them, the map is empty and stays empty
-- whatever calls come later, those included that had passed the first test of closed before it was
-- set.
pub drain-close :
    (m : PendingAcksMap) (between later : List Call)
    → (run (drain (run (close m) between)).0 later).inner ≡ []
unfolding drain close
drain-close m between later =
    stays_empty (drain (run (close m) between)).0 later (stays_closed (close m) between refl) refl
