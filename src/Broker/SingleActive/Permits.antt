-- ===== src/Broker/SingleActive/Permits.antt =====
-- The permits of a consumer and the count of its dispatcher, for the loops of exclusive.rs.
use pulsar_lite.Prelude.{
  ℕ, zero, suc, ◌+◌, ◌%◌, ◌<◌, Bool, true, false, ◌&&◌, not, ◌≡◌, refl, ap, sym, ◌∙◌, arith,
}
use pulsar_lite.Prelude.Int.{ℤ, pos, negsuc, lt_int, minus_int, plus_int, wrap_i32, to_i32}
use pulsar_lite.Broker.PendingAcks.{
  PendingAck, add_pending_ack, begin_add, finish_add, remove_pending,
}
use pulsar_lite.Broker.ConsumerDispatch.{
  ConsumerState, PendingMessage, add_permits, has_permits, has_send_capacity,
  send_message_with_sticky_hash, track_message_dispatched, remove_pending_ack,
}
use pulsar_lite.Broker.SingleActive.{Active, take_permit, give_permit}

-- The permits are an `i32`, and the count is a `u32`.
pub record IsInRange (a : Active) : Type 0 where
  pub permits : lt_int a.consumer.available_permits (pos 2147483648) ≡ true
  pub count : a.total_available_permits < 4294967296

-- From `a` to `b` the consumer and the count have lost `sent` permits each.
pub record HasSpent (a b : Active) (sent : ℕ) : Type 0 where
  pub permits : b.consumer.available_permits ≡ minus_int a.consumer.available_permits (pos sent)
  pub count : b.total_available_permits + sent ≡ a.total_available_permits

less_none : (p : ℤ) → p ≡ minus_int p (pos 0)
less_none (pos n) = ground arith
less_none (negsuc n) = ground arith

small_i32 : (n : ℕ) → n < 2147483648 → to_i32 n ≡ pos n
small_i32 n h = let low : n % 4294967296 ≡ n = omega arith in rw low (ground arith)

pub less_by_one : (n : ℕ) → n < 2147483647 → wrap_i32 (minus_int (pos (suc n)) (pos 1)) ≡ pos n
less_by_one n h =
    let less : minus_int (pos (suc n)) (pos 1) ≡ pos n = ground arith in
    ap wrap_i32 less ∙ small_i32 n (omega arith)

one_more : (n : ℕ) → n < 2147483647 → wrap_i32 (plus_int (pos n) (to_i32 1)) ≡ pos (suc n)
one_more n h =
    let one = small_i32 1 (omega arith) in
    let more : plus_int (pos n) (pos 1) ≡ pos (suc n) = ground arith in
    ap (λ o. wrap_i32 (plus_int (pos n) o)) one ∙ ap wrap_i32 more ∙ small_i32 (suc n) (omega arith)

-- A consumer with a permit has a number of them.
has_permits-pos :
    (p : ℤ)
    → lt_int (pos 0) p ≡ true
    → lt_int p (pos 2147483648) ≡ true
    → (n : ℕ) × (p ≡ pos (suc n)) × (n < 2147483647)
has_permits-pos (pos zero) h k = absurd (ground arith)
has_permits-pos (pos (suc n)) h k = (n, refl, ground arith)
has_permits-pos (negsuc n) h k = absurd (ground arith)

pub same-HasSpent :
    (a b : Active)
    → b.consumer.available_permits ≡ a.consumer.available_permits
    → b.total_available_permits ≡ a.total_available_permits
    → HasSpent a b 0
same-HasSpent a b p t = record {
  permits = p ∙ less_none a.consumer.available_permits;
  count = omega (arith, t);
}

less_more :
    (p : ℤ) (n k : ℕ) → p ≡ pos (suc n) → minus_int (pos n) (pos k) ≡ minus_int p (pos (suc k))
less_more p n k h =
    let more : minus_int (pos n) (pos k) ≡ minus_int (pos (suc n)) (pos (suc k)) = ground arith in
    more ∙ ap (λ x. minus_int x (pos (suc k))) (sym h)

-- A permit that is taken where there is one, and the same one given back.
pub record HasTaken (a b : Active) : Type 0 where
  pub rest : ℕ
  pub before : a.consumer.available_permits ≡ pos (suc rest)
  pub after : b.consumer.available_permits ≡ pos rest
  pub small : rest < 2147483647
  pub count : b.total_available_permits + 1 ≡ a.total_available_permits

pub take_permit-HasTaken :
    (a : Active)
    → IsInRange a
    → has_permits a.consumer ≡ true
    → 0 < a.total_available_permits
    → HasTaken a (take_permit a)
unfolding take_permit
take_permit-HasTaken a v h t =
    let (n, at, small) = has_permits-pos a.consumer.available_permits h v.permits in
    let high = v.count in
    record {
      rest = n;
      before = at;
      after = ap (λ p. wrap_i32 (minus_int p (pos 1))) at ∙ less_by_one n small;
      small = small;
      count = omega arith;
    }

-- The state before the permit goes back has what the one after `take_permit` has.
pub give_permit-HasSpent :
    (a b : Active) (t : HasTaken a b) (c : Active)
    → c.consumer.available_permits ≡ b.consumer.available_permits
    → c.total_available_permits ≡ b.total_available_permits
    → a.total_available_permits < 4294967296
    → HasSpent a (give_permit c) 0
unfolding give_permit add_permits
give_permit-HasSpent a b t c p n high =
    let before = t.count in
    same-HasSpent a (give_permit c)
      (ap (λ x. wrap_i32 (plus_int x (to_i32 1))) (p ∙ t.after)
        ∙ one_more t.rest t.small
        ∙ sym t.before)
      (omega (arith, n, before))

-- What is spent after the permit was kept.
pub kept-HasSpent :
    (a b c d : Active) (sent : ℕ)
    → HasTaken a b
    → c.consumer.available_permits ≡ b.consumer.available_permits
    → c.total_available_permits ≡ b.total_available_permits
    → HasSpent c d sent
    → HasSpent a d (suc sent)
kept-HasSpent a b c d sent t p n s =
    let before = t.count in
    let last = s.count in
    record {
      permits =
          s.permits
          ∙ ap (λ x. minus_int x (pos sent)) (p ∙ t.after)
          ∙ less_more a.consumer.available_permits t.rest sent t.before;
      count = omega (arith, n, before, last);
    }

pub kept-IsInRange :
    (a b c : Active)
    → IsInRange a
    → HasTaken a b
    → c.consumer.available_permits ≡ b.consumer.available_permits
    → c.total_available_permits ≡ b.total_available_permits
    → IsInRange c
kept-IsInRange a b c v t p n =
    let before = t.count in
    let small = t.small in
    let high = v.count in
    record {
      permits =
          let low : lt_int (pos t.rest) (pos 2147483648) ≡ true = ground arith in
          ap (λ x. lt_int x (pos 2147483648)) (p ∙ t.after) ∙ low;
      count = omega (arith, n, before, high);
    }

minus_lt :
    (p : ℤ) (k : ℕ)
    → lt_int p (pos 2147483648) ≡ true
    → lt_int (minus_int p (pos k)) (pos 2147483648) ≡ true
minus_lt (pos n) k h = ground arith
minus_lt (negsuc n) k h = ground arith

pub spent-IsInRange : (a b : Active) (sent : ℕ) → IsInRange a → HasSpent a b sent → IsInRange b
spent-IsInRange a b sent v s =
    let high = v.count in
    let less = s.count in
    record {
      permits =
          ap (λ x. lt_int x (pos 2147483648)) s.permits
          ∙ minus_lt a.consumer.available_permits sent v.permits;
      count = omega arith;
    }

minus-minus :
    (p : ℤ) (j k : ℕ) → minus_int (minus_int p (pos j)) (pos k) ≡ minus_int p (pos (j + k))
minus-minus (pos n) j k = ground arith
minus-minus (negsuc n) j k = ground arith

pub more-HasSpent :
    (a b c : Active) (j k : ℕ) → HasSpent a b j → HasSpent b c k → HasSpent a c (j + k)
more-HasSpent a b c j k s t =
    let first = s.count in
    let second = t.count in
    record {
      permits =
          t.permits
          ∙ ap (λ x. minus_int x (pos k)) s.permits
          ∙ minus-minus a.consumer.available_permits j k;
      count = omega arith;
    }

-- Sending does not touch the permits.
pub sent-permits :
    (s : ConsumerState) (m : PendingMessage) (ack : PendingAck)
    → (send_message_with_sticky_hash s m ack).0.available_permits ≡ s.available_permits
unfolding send_message_with_sticky_hash track_message_dispatched remove_pending_ack
sent-permits s m ack = ground arith

-- Nothing can be sent: the connection cannot write, its channel has no slot, or the pending
-- acknowledgements are closed.
abbrev pub accepts : ConsumerState → Bool
accepts s = has_send_capacity s && not s.pending_acks.closed

-- A consumer that has refused a message refuses every other one.
pub refused-accepts :
    (s : ConsumerState) (m : PendingMessage) (ack : PendingAck)
    → (send_message_with_sticky_hash s m ack).1 ≡ false
    → accepts (send_message_with_sticky_hash s m ack).0 ≡ false
unfolding send_message_with_sticky_hash track_message_dispatched remove_pending_ack add_pending_ack
    begin_add finish_add remove_pending
refused-accepts s m ack h = ground arith
