-- ===== src/Broker/Exclusive/Failures.antt =====
-- Dispatch to an exclusive consumer while the storage fails.
use pulsar_lite.Prelude.{
  ℕ, zero, suc, ◌+◌, ◌-◌, ◌%◌, ◌<◌, ◌≤◌, min, true, false, ap, sym, ◌∙◌, some, List, [], ◌∷◌, ◌==◌,
  if◌then◌else◌, ◌≡◌, refl, arith, Bool-cases, inl, inr,
}
use pulsar_lite.Prelude.Int.{pos}
use pulsar_lite.Prelude.Results.{Result, ok, err}
use pulsar_lite.ManagedLedger.Position.{ManagedLedgerPosition}
use pulsar_lite.Broker.ConsumerDispatch.{has_permits}
use pulsar_lite.Broker.ReadPosition.{
  Log, DispatchError, look_at, candidate_loop, next_unacked_candidate,
}
use pulsar_lite.Broker.SingleActive.Permits.{less_by_one}
use pulsar_lite.Broker.SingleActive.{Active, take_permit, batch_loop, batch_size, dispatch_loop}
use pulsar_lite.Broker.Exclusive.{
  Consumer, ExclusiveDispatcher, active_of, with_active, dispatch_messages,
}

module _ (log : Log) (e : DispatchError) where
  batch_loop-failed :
      (fuel now left : ℕ) (a : Active) (p : ManagedLedgerPosition)
      → has_permits a.consumer ≡ true
      → log.read_entry_from p ≡ err e
      → batch_loop (suc fuel) now log (suc left) (record a { read_position = some p }) 0
        ≡ (take_permit (record a { read_position = some p }), err e)
  unfolding batch_loop take_permit next_unacked_candidate candidate_loop look_at
  batch_loop-failed fuel now left a p h f = rw (h, if◌then◌else◌, f) refl

  dispatch_loop-failed :
      (rounds fuel now n : ℕ) (a : Active) (p : ManagedLedgerPosition)
      → has_permits a.consumer ≡ true
      → a.total_available_permits ≡ suc n
      → log.read_entry_from p ≡ err e
      → dispatch_loop (suc rounds) (suc fuel) now log (record a { read_position = some p })
        ≡ (take_permit (record a { read_position = some p }), err e)
  unfolding dispatch_loop
  dispatch_loop-failed rounds fuel now n a p h t f =
      let size : batch_size a ≡ suc (batch_size a - 1) = ground arith in
      let some_left : (a.total_available_permits == 0) ≡ false = ground arith in
      rw (some_left, if◌then◌else◌, size, batch_loop-failed fuel now (batch_size a - 1) a p h f)
        refl

-- Calls of dispatch_messages one after the other, and what they return.
unfoldable pub dispatch_times :
    ℕ
    → ℕ
    → ℕ
    → ℕ
    → Log
    → ExclusiveDispatcher
    → ExclusiveDispatcher × List (Result DispatchError (Unit {0}))
dispatch_times zero rounds fuel now log d = (d, [])
dispatch_times (suc k) rounds fuel now log d =
    let first = dispatch_messages rounds fuel now log d in
    let rest = dispatch_times k rounds fuel now log first.0 in (rest.0, first.1 ∷ rest.1)

abbrev pub times : ℕ → DispatchError → List (Result DispatchError (Unit {0}))
times zero e = []
times (suc k) e = err e ∷ times k e

-- The dispatcher with other permits of its consumer and another count, and nothing else changed.
abbrev pub left_with : ExclusiveDispatcher → Consumer → ℕ → ℕ → ExclusiveDispatcher
left_with d c permits count = record d {
  consumer = some (record c { state = record c.state { available_permits = pos permits } });
  total_available_permits = count;
}

module _ (log : Log) (e : DispatchError) (rounds fuel now : ℕ) (d : ExclusiveDispatcher)
    (c : Consumer) (p : ManagedLedgerPosition) (at : d.read_position ≡ some p)
    (fails : log.read_entry_from p ≡ err e) where
  one_failed :
      (n t : ℕ)
      → n < 2147483647
      → t < 4294967295
      → dispatch_messages (suc rounds) (suc fuel) now log (left_with d c (suc n) (suc t))
        ≡ (left_with d c n t, err e)
  unfolding dispatch_messages take_permit
  one_failed n t small low =
      let before : ExclusiveDispatcher = left_with d c (suc n) (suc t) in
      let holder : Consumer = record c {
        state = record c.state { available_permits = pos (suc n) };
      } in
      let a : Active = active_of before holder in
      let there : record a { read_position = some p } ≡ a =
        ap (λ r. record a { read_position = r }) (sym at) in
      let has : has_permits a.consumer ≡ true = ground arith in
      let loop = dispatch_loop-failed log e rounds fuel now t a p has refl fails in
      let less : (suc t + 4294967295) % 4294967296 ≡ t = omega arith in
      let taken : take_permit a ≡ record a {
        consumer = record c.state { available_permits = pos n };
        total_available_permits = t;
      } =
        λ i. record a {
          consumer = record c.state { available_permits = less_by_one n small i };
          total_available_permits = less i;
        } in
      let whole : dispatch_loop (suc rounds) (suc fuel) now log a ≡ (take_permit a, err e) =
        ap (dispatch_loop (suc rounds) (suc fuel) now log) (sym there)
        ∙ loop
        ∙ ap (λ x. (take_permit x, err e)) there in
      ap (λ (r : Active × Result DispatchError (Unit {0})). (with_active before holder r.0, r.1))
        (whole ∙ ap (λ x. (x, err e)) taken)

  many_failed :
      (k n t : ℕ)
      → k ≤ n
      → k ≤ t
      → n < 2147483648
      → t < 4294967296
      → dispatch_times k (suc rounds) (suc fuel) now log (left_with d c n t)
        ≡ (left_with d c (n - k) (t - k), times k e)
  unfolding dispatch_times
  many_failed zero n t h l small low =
      let permits : n ≡ n - 0 = omega arith in
      let count : t ≡ t - 0 = omega arith in λ i. (left_with d c (permits i) (count i), [])
  many_failed (suc k) (suc n) (suc t) h l small low =
      let first = one_failed n t (omega arith) (omega arith) in
      let rest = many_failed k n t (omega arith) (omega arith) (omega arith) (omega arith) in
      rw (first, rest) (ground arith)
  many_failed (suc k) zero t h l small low = absurd (omega arith)
  many_failed (suc k) (suc n) zero h l small low = absurd (omega arith)

module _ (log : Log) (fuel now : ℕ) (a : Active) (none_left : has_permits a.consumer ≡ false) where
  batch_loop-idle : (left : ℕ) → batch_loop fuel now log (suc left) a 0 ≡ (a, ok 0)
  unfolding batch_loop
  batch_loop-idle left = rw (none_left, if◌then◌else◌) refl

  dispatch_loop-idle : (rounds : ℕ) → dispatch_loop (suc rounds) fuel now log a ≡ (a, ok tt)
  unfolding dispatch_loop
  dispatch_loop-idle rounds = elim (Bool-cases (a.total_available_permits == 0)) [
    | inl y ↦ rw (y, if◌then◌else◌) refl
    | inr y ↦
        let size : batch_size a ≡ suc (batch_size a - 1) = ground arith in
        rw (y, if◌then◌else◌, size, batch_loop-idle (batch_size a - 1)) refl
  ]

-- Nothing is sent to a consumer without permits, or where none are counted.
dispatch_messages-idle :
    (log : Log) (rounds fuel now : ℕ) (d : ExclusiveDispatcher) (c : Consumer) (n t : ℕ)
    → min n t ≡ 0
    → dispatch_messages (suc rounds) fuel now log (left_with d c n t) ≡ (left_with d c n t, ok tt)
unfolding dispatch_messages dispatch_loop
dispatch_messages-idle log rounds fuel now d c n zero h = refl
dispatch_messages-idle log rounds fuel now d c zero (suc t) h =
    let before : ExclusiveDispatcher = left_with d c zero (suc t) in
    let holder : Consumer = record c { state = record c.state { available_permits = pos 0 } } in
    ap (λ (r : Active × Result DispatchError (Unit {0})). (with_active before holder r.0, r.1))
      (dispatch_loop-idle log fuel now (active_of before holder) refl rounds)
dispatch_messages-idle log rounds fuel now d c (suc n) (suc t) h = absurd (omega arith)

left_with-same :
    (d : ExclusiveDispatcher) (c : Consumer) (n t : ℕ)
    → d.consumer ≡ some c
    → c.state.available_permits ≡ pos n
    → d.total_available_permits ≡ t
    → d ≡ left_with d c n t
left_with-same d c n t has permits count =
    let same : c ≡ record c { state = record c.state { available_permits = pos n } } =
      λ i. record c { state = record c.state { available_permits = permits i } } in
    let held = has ∙ ap some same in
    λ i. record d { consumer = held i; total_available_permits = count i }

-- With a consumer that has n permits, of an i32, a count of t, of a u32, a read position, and a
-- storage that gives an error there: k calls of dispatch_messages, for k up to both n and t, each
-- return the error, and leave the consumer with n - k permits and the count at t - k, with all
-- else as it was, so that no message was sent. After as many calls as the smaller of n and t, a
-- further call returns without an error and changes nothing, whatever log it reads.
pub dispatch_messages_failed :
    (log repaired : Log) (e : DispatchError) (rounds fuel now k n t : ℕ) (rounds' fuel' now' : ℕ)
    (d : ExclusiveDispatcher) (c : Consumer) (p : ManagedLedgerPosition)
    → d.consumer ≡ some c
    → d.read_position ≡ some p
    → c.state.available_permits ≡ pos n
    → d.total_available_permits ≡ t
    → n < 2147483648
    → t < 4294967296
    → k ≤ min n t
    → log.read_entry_from p ≡ err e
    → (dispatch_times k (suc rounds) (suc fuel) now log d
        ≡ (left_with d c (n - k) (t - k), times k e))
      × (let after = (dispatch_times (min n t) (suc rounds) (suc fuel) now log d).0 in
          dispatch_messages (suc rounds') fuel' now' repaired after ≡ (after, ok tt))
dispatch_messages_failed log repaired e rounds fuel now k n t rounds' fuel' now' d c p has at
      permits count small low h fails =
    let same = left_with-same d c n t has permits count in
    let many = many_failed log e rounds fuel now d c p at fails in
    let start = λ (j : ℕ). ap (dispatch_times j (suc rounds) (suc fuel) now log) same in
    let last = start (min n t) ∙ many (min n t) n t (omega arith) (omega arith) small low in
    (
      start k ∙ many k n t (omega arith) (omega arith) small low,
      rw last (
          dispatch_messages-idle repaired rounds' fuel' now' d c (n - min n t) (t - min n t)
            (omega arith)),
    )
