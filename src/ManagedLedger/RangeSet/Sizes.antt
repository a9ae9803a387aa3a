-- ===== src/ManagedLedger/RangeSet/Sizes.antt =====
-- `take_covering`, `merge_right` and `insert` take out a range that is there, so that the list gets
-- shorter: rust/storage/managed-ledger/src/range_set.rs.
use pulsar_lite.Prelude.{
  ℕ, zero, suc, ◌<◌, true, Option, none, some, List, [], ◌∷◌, length, ◌≡◌, refl, ap, ◌∙◌, subst,
  arith, if◌then◌else◌, Bool-cases, Option-cases, inl, inr, some_injective,
}
use pulsar_lite.Prelude.Int.{eq_int_refl}
use pulsar_lite.ManagedLedger.RangeSet.{
  take_covering, last_le, first_ge, remove_pair, pair_eq, pair_le, take_starting, merge_right,
  keep_within, or_self, insert, insert_range, contains, merge_left,
}
use pulsar_lite.ManagedLedger.Position.{
  ManagedLedgerPosition, lt_position, le_position, eq_position, position_key, succ_position,
}

abbrev pub Ranges : Type 0
Ranges = List (ManagedLedgerPosition × ManagedLedgerPosition)

eq_position_refl : (p : ManagedLedgerPosition) → eq_position p p ≡ true
eq_position_refl p = ground (arith, eq_int_refl p.partition)

-- The range is there to be taken out.
abbrev IsFound : ManagedLedgerPosition × ManagedLedgerPosition → Ranges → Type 0
IsFound r rs = suc (length (remove_pair r rs)) ≡ length rs

head-IsFound :
    (r : ManagedLedgerPosition × ManagedLedgerPosition) (rs : Ranges) → IsFound r (r ∷ rs)
unfolding remove_pair
head-IsFound (s, e) rs = let a = eq_position_refl s in let b = eq_position_refl e in rw (a, b) refl

tail-IsFound :
    (x r : ManagedLedgerPosition × ManagedLedgerPosition) (rs : Ranges)
    → IsFound r rs
    → IsFound r (x ∷ rs)
unfolding remove_pair
tail-IsFound x r rs v = elim (Bool-cases (pair_eq x r)) [
  | inl e ↦ rw (e, if◌then◌else◌) refl
  | inr e ↦ rw (e, if◌then◌else◌) (ap suc v)
]

last_le-IsFound :
    (p r : ManagedLedgerPosition × ManagedLedgerPosition) (rs : Ranges)
    → last_le p rs ≡ some r
    → IsFound r rs
unfolding last_le
last_le-IsFound p r [] h = absurd (ground arith)
last_le-IsFound p r (x ∷ rs) h = elim (Bool-cases (pair_le x p)) [
  | inr e ↦ absurd (let gone = rw (e, if◌then◌else◌) at h in ground arith)
  | inl e ↦ elim (Option-cases (last_le p rs)) [
    | inl n ↦
        subst (λ y. IsFound y (x ∷ rs)) (some_injective x r (rw (e, n, if◌then◌else◌) at h))
          (head-IsFound x rs)
    | inr (y, s) ↦
        tail-IsFound x r rs (last_le-IsFound p r rs (s ∙ (rw (e, s, if◌then◌else◌) at h)))
  ]
]

first_ge-IsFound :
    (p r : ManagedLedgerPosition × ManagedLedgerPosition) (rs : Ranges)
    → first_ge p rs ≡ some r
    → IsFound r rs
unfolding first_ge
first_ge-IsFound p r [] h = absurd (ground arith)
first_ge-IsFound p r (x ∷ rs) h = elim (Bool-cases (pair_le p x)) [
  | inl e ↦
      subst (λ y. IsFound y (x ∷ rs)) (some_injective x r (rw (e, if◌then◌else◌) at h))
        (head-IsFound x rs)
  | inr e ↦ tail-IsFound x r rs (first_ge-IsFound p r rs (rw (e, if◌then◌else◌) at h))
]

-- A range is taken out, or nothing changes.
abbrev pub IsTaken : Ranges → Option ManagedLedgerPosition × Ranges → Type 0
IsTaken rs (none, rest) = rest ≡ rs
IsTaken rs (some end, rest) = suc (length rest) ≡ length rs

take_starting-IsTaken :
    (p : ManagedLedgerPosition) (o : Option (ManagedLedgerPosition × ManagedLedgerPosition))
    (rs : Ranges)
    → first_ge (p, p) rs ≡ o
    → IsTaken rs (take_starting p o rs)
take_starting-IsTaken p none rs h = refl
take_starting-IsTaken p (some (s, e)) rs h = elim (Bool-cases (eq_position s p)) [
  | inl same ↦ rw (same, if◌then◌else◌) (first_ge-IsFound (p, p) (s, e) rs h)
  | inr other ↦ rw (other, if◌then◌else◌) refl
]

pub take_covering-IsTaken :
    (p : ManagedLedgerPosition) (rs : Ranges)
    (o : Option (ManagedLedgerPosition × ManagedLedgerPosition))
    → last_le (p, p) rs ≡ o
    → IsTaken rs (take_covering p rs)
unfolding take_covering
take_covering-IsTaken p rs none h =
    rw (take_covering, h) (take_starting-IsTaken p (first_ge (p, p) rs) rs refl)
take_covering-IsTaken p rs (some (s, e)) h = elim (Bool-cases (le_position s p)) [
  | inl below ↦ rw (take_covering, h, below, if◌then◌else◌) (last_le-IsFound (p, p) (s, e) rs h)
  | inr above ↦
      rw (take_covering, h, above, if◌then◌else◌)
        (take_starting-IsTaken p (first_ge (p, p) rs) rs refl)
]

kept :
    (limit : ManagedLedgerPosition) (o : Option (ManagedLedgerPosition × ManagedLedgerPosition))
    (r : ManagedLedgerPosition × ManagedLedgerPosition)
    → keep_within limit o ≡ some r
    → o ≡ some r
kept limit none r h = absurd (ground arith)
kept limit (some (s, e)) r h = elim (Bool-cases (le_position s limit)) [
  | inl y ↦ rw (y, if◌then◌else◌) at h
  | inr n ↦ absurd (let gone = rw (n, if◌then◌else◌) at h in ground arith)
]

-- `insert` returns for positions.
merge_right-returns :
    (fuel : ℕ) (start end : ManagedLedgerPosition) (rs : Ranges)
    → length rs < fuel
    → (r : ManagedLedgerPosition × ManagedLedgerPosition × Ranges) × (merge_right fuel start end rs
        ≡ some r)
unfolding merge_right
merge_right-returns zero start end rs h = absurd (omega arith)
merge_right-returns (suc fuel) start end rs h =
    elim (Option-cases
      (keep_within (or_self end (succ_position end)) (first_ge (start, start) rs))) [
        | inl n ↦ ((start, end, rs), rw (merge_right, n) refl)
        | inr (r, k) ↦
            let found =
              first_ge-IsFound (start, start) r rs (kept _ (first_ge (start, start) rs) r k) in
            let (out, done) =
              merge_right-returns fuel (if lt_position r.0 start then r.0 else start)
                (if lt_position end r.1 then r.1 else end) (remove_pair r rs) (omega arith) in
            (out, rw (merge_right, k) done)
      ]

pub insert-returns :
    (p : ManagedLedgerPosition) (rs : Ranges) → (out : Ranges) × (insert p rs ≡ some out)
unfolding insert insert_range
insert-returns p rs = elim (Bool-cases (contains rs p)) [
  | inl y ↦ (rs, rw (insert, y, if◌then◌else◌) refl)
  | inr n ↦ elim (Bool-cases (lt_position p p)) [
    | inl y ↦ (rs, rw (insert, n, insert_range, y, if◌then◌else◌) refl)
    | inr m ↦
        let (out, done) = merge_right-returns (suc (length rs)) p p rs (omega arith) in
        (merge_left out.0 out.1 out.2, rw (insert, n, insert_range, m, done, if◌then◌else◌) refl)
  ]
]
