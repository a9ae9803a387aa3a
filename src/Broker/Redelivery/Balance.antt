-- ===== src/Broker/Redelivery/Balance.antt =====
-- How the updates of redelivery_controller.rs change the count of each blocked hash.
use pulsar_lite.Prelude.{
  ℕ, ◌+◌, ◌-◌, Bool, true, false, Option, none, some, List, ◌≡◌, ◌≢◌, ap, arith, ◌==◌,
  if◌then◌else◌, Option-cases, Bool-cases, inl, inr, subst, not,
}
use pulsar_lite.Prelude.Int.{ℤ, eq_int, eq_int_sound}
use pulsar_lite.Prelude.Maps.{
  int_key, get, insert_entry, remove_key, get-insert_entry, get-remove_key, weight, count_values,
}
use pulsar_lite.ManagedLedger.Position.{id_key}
use pulsar_lite.Broker.Redelivery.{
  RedeliveryController, RedeliveryEntry, or_zero, increment_hash, decrement_hash, lower_count,
  is_hash_blocked,
}

-- The number that is stored for a hash.
abbrev pub blocked : RedeliveryController → ℤ → ℕ
blocked c h = or_zero (get h c.blocked_hashes)

abbrev pub hash_is : ℤ → Option ℤ → Bool
hash_is h none = false
hash_is h (some x) = eq_int x h

-- The messages with the hash that are queued, and that are in flight.
abbrev pub queued : RedeliveryController → ℤ → ℕ
queued c h = count_values (λ (e : RedeliveryEntry). hash_is h e.sticky_key_hash) c.entries

abbrev pub flying : RedeliveryController → ℤ → ℕ
flying c h = count_values (λ x. eq_int x h) c.in_flight_hashes

-- At another hash nothing changes; at the hash itself the count is the new one.
blocked-insert :
    (x h : ℤ) (n : ℕ) (m : List (ℤ × ℕ))
    → or_zero (get h (insert_entry x n m)) ≡ (if eq_int x h then n else or_zero (get h m))
blocked-insert x h n m = rw (get-insert_entry x h n m) (ground arith)

blocked-remove :
    (x h : ℤ) (m : List (ℤ × ℕ))
    → or_zero (get h (remove_key x m)) ≡ (if eq_int x h then 0 else or_zero (get h m))
blocked-remove x h m = rw (get-remove_key x h m) (ground arith)

pub blocked-increment_hash :
    (c : RedeliveryController) (o : Option ℤ) (h : ℤ)
    → c.block_hashes ≡ true
    → blocked (increment_hash c o) h ≡ blocked c h + weight (hash_is h o)
unfolding increment_hash
blocked-increment_hash c none h b = omega arith
blocked-increment_hash c (some x) h b = elim (Bool-cases (eq_int x h)) [
  | inl same ↦
      rw (b, blocked-insert x h (or_zero (get x c.blocked_hashes) + 1) c.blocked_hashes, same)
        (ap (λ t. or_zero (get t c.blocked_hashes) + 1) (eq_int_sound x h same))
  | inr other ↦
      rw (b, blocked-insert x h (or_zero (get x c.blocked_hashes) + 1) c.blocked_hashes, other)
        (omega arith)
]

lower_count-blocked :
    (x h : ℤ) (m : List (ℤ × ℕ))
    → or_zero (get h (lower_count x (get x m) m)) ≡ or_zero (get h m) - weight (eq_int x h)
lower_count-blocked x h m = elim (Option-cases (get x m)) [
  | inl e ↦ elim (Bool-cases (eq_int x h)) [
    | inl same ↦
        let e' : get h m ≡ none = subst (λ t. get t m ≡ none) (eq_int_sound x h same) e in
        rw (e, e', same) (omega arith)
    | inr other ↦ rw (e, other) (omega arith)
  ]
  | inr (n, e) ↦ elim (Bool-cases (eq_int x h)) [
    | inl same ↦
        let e' : get h m ≡ some n = subst (λ t. get t m ≡ some n) (eq_int_sound x h same) e in
        rw (e, lower_count)
          (ground (arith, e', same, blocked-insert x h (n - 1) m, blocked-remove x h m))
    | inr other ↦
        rw (e, lower_count)
          (ground (arith, other, blocked-insert x h (n - 1) m, blocked-remove x h m))
  ]
]

pub blocked-decrement_hash :
    (c : RedeliveryController) (o : Option ℤ) (h : ℤ)
    → c.block_hashes ≡ true
    → blocked (decrement_hash c o) h ≡ blocked c h - weight (hash_is h o)
unfolding decrement_hash
blocked-decrement_hash c none h b = omega arith
blocked-decrement_hash c (some x) h b = rw b (lower_count-blocked x h c.blocked_hashes)

-- No count of zero is stored.
abbrev pub IsPositive : RedeliveryController → Type 0
IsPositive c = (h : ℤ) → get h c.blocked_hashes ≢ some 0

pub increment_hash-IsPositive :
    (c : RedeliveryController) (o : Option ℤ) → IsPositive c → IsPositive (increment_hash c o)
unfolding increment_hash
increment_hash-IsPositive c none p h = p h
increment_hash-IsPositive c (some x) p h =
    ground
      (arith, p h, get-insert_entry x h (or_zero (get x c.blocked_hashes) + 1) c.blocked_hashes)

pub decrement_hash-IsPositive :
    (c : RedeliveryController) (o : Option ℤ) → IsPositive c → IsPositive (decrement_hash c o)
unfolding decrement_hash
decrement_hash-IsPositive c none p h = p h
decrement_hash-IsPositive c (some x) p h = elim (Option-cases (get x c.blocked_hashes)) [
  | inl e ↦ ground (arith, p h)
  | inr (n, e) ↦ ground (
    arith,
    p h,
    get-insert_entry x h (n - 1) c.blocked_hashes,
    get-remove_key x h c.blocked_hashes,
  )
]

-- A hash is reported blocked exactly when its count is not zero.
pub is_hash_blocked-blocked :
    (c : RedeliveryController) (h : ℤ) → IsPositive c → is_hash_blocked c h ≡ not (blocked c h == 0)
unfolding is_hash_blocked
is_hash_blocked-blocked c h p = ground (arith, p h)
