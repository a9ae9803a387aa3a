-- ===== src/Broker/KeyShared.antt =====
-- rust/src/broker/dispatcher/key_shared.rs: which consumer owns a sticky-key hash. A consumer's
-- permits and its writability change behind the shared `Arc`, so that a selection reads them by id
-- at its moment. There are fewer than 2^31 consumers.
pub mod Split
pub mod Redelivered
pub mod Handed
pub mod Answers
pub mod Requeued
pub mod Batch
pub mod Rounds
pub mod Channels
pub mod Growth
pub mod Underflow
use pulsar_lite.Prelude.{
  ℕ, zero, suc, ◌+◌, ◌*◌, ◌/◌, Bool, true, false, ◌&&◌, ◌||◌, not, Option, none, some, List, [],
  ◌∷◌, ◌++◌, map, length, ◌⊎◌, inl, inr, ltb, leb, ◌==◌, if◌then◌else◌,
}
use pulsar_lite.Prelude.Int.{ℤ, pos, negsuc, le_int, lt_int, eq_int, to_i32, div_int, pred_int}
use pulsar_lite.Prelude.Maps.{nat_key, get, insert_entry, remove_key}

pub data KeySharedMode : Type 0 where
  auto_split : KeySharedMode
  sticky : KeySharedMode

pub record KeySharedHashRange : Type 0 where
  pub start : ℤ
  pub end : ℤ

pub record KeySharedPolicy : Type 0 where
  pub mode : KeySharedMode
  pub ranges : List KeySharedHashRange
  pub allow_out_of_order_delivery : Bool

-- The fields of `Consumer` that the assignments read.
pub record Consumer : Type 0 where
  pub consumer_id : ℕ
  pub key_shared_policy : Option KeySharedPolicy

-- What a selection reads of the consumers.
pub record Readiness : Type 0 where
  pub available_permits_now : ℕ → ℕ
  pub is_writable : ℕ → Bool

-- The fields of `KeySharedDispatcher` that say who owns a hash.
pub record Assignments : Type 0 where
  pub consumers_by_id : List (ℕ × Consumer)
  pub auto_split_assignments : List (KeySharedHashRange × Consumer)
  pub sticky_assignments : List (KeySharedHashRange × Consumer)
  pub key_shared_policy : KeySharedPolicy

-- The fields of `KeySharedDispatcher::new` that are not the redelivery controller's.
abbrev pub new_assignments : Option KeySharedPolicy → Assignments
new_assignments policy = record {
  consumers_by_id = [];
  auto_split_assignments = [];
  sticky_assignments = [];
  key_shared_policy = elim policy [
    | none ↦ record { mode = auto_split; ranges = []; allow_out_of_order_delivery = false }
    | some p ↦ p
  ];
}

abbrev pub same_mode : KeySharedMode → KeySharedMode → Bool
same_mode auto_split auto_split = true
same_mode sticky sticky = true
same_mode auto_split sticky = false
same_mode sticky auto_split = false

abbrev pub has_same_key_shared_policy : Assignments → Option KeySharedPolicy → Bool
has_same_key_shared_policy a none = same_mode a.key_shared_policy.mode auto_split
has_same_key_shared_policy a (some policy) = same_mode policy.mode a.key_shared_policy.mode

abbrev pub active_assignments : Assignments → List (KeySharedHashRange × Consumer)
active_assignments a = elim a.key_shared_policy.mode [
  | auto_split ↦ a.auto_split_assignments
  | sticky ↦ a.sticky_assignments
]

abbrev pub sticky_ranges_for_consumer : Consumer → List KeySharedHashRange
sticky_ranges_for_consumer c = elim c.key_shared_policy [ none ↦ [] | some policy ↦ policy.ranges ]

-- `sort_by_key` is stable: the elements are put in from the last to the first, and one goes before
-- those whose key is not smaller.
unfoldable pub insert_sorted {ℓ} : {A : Type ℓ} → (A → A → Bool) → A → List A → List A
insert_sorted lt a [] = a ∷ []
insert_sorted lt a (b ∷ bs) = if lt b a then b ∷ insert_sorted lt a bs else a ∷ b ∷ bs

unfoldable pub sort_by {ℓ} : {A : Type ℓ} → (A → A → Bool) → List A → List A
sort_by lt [] = []
sort_by lt (a ∷ rest) = insert_sorted lt a (sort_by lt rest)

abbrev pub by_id : Consumer → Consumer → Bool
by_id a b = ltb a.consumer_id b.consumer_id

-- `(index * (RANGE_SIZE + 1)) / total` on `i32`.
abbrev pub boundary : ℕ → ℕ → ℤ
boundary index total = div_int (to_i32 (index * 65536)) total

abbrev pub split_range : ℕ → ℕ → KeySharedHashRange
split_range index total = record {
  start = boundary index total;
  end = pred_int (boundary (index + 1) total);
}

unfoldable pub assign_ranges : ℕ → ℕ → List Consumer → List (KeySharedHashRange × Consumer)
assign_ranges index total [] = []
assign_ranges index total (c ∷ cs) =
    (split_range index total, c) ∷ assign_ranges (index + 1) total cs

abbrev pub consumers_of : Assignments → List Consumer
consumers_of a = map (λ e. e.1) a.consumers_by_id

unfoldable pub rebuild_auto_split_assignments : Assignments → Assignments
rebuild_auto_split_assignments a =
    let consumers = sort_by by_id (consumers_of a) in
    record a { auto_split_assignments = assign_ranges 0 (length consumers) consumers }

-- The key of the sort is (start, end, consumer_id).
abbrev pub by_range : KeySharedHashRange × Consumer → KeySharedHashRange × Consumer → Bool
by_range (r, c) (s, d) =
    lt_int r.start s.start
    || (eq_int r.start s.start
        && (lt_int r.end s.end || (eq_int r.end s.end && ltb c.consumer_id d.consumer_id)))

unfoldable pub sticky_pairs : List Consumer → List (KeySharedHashRange × Consumer)
sticky_pairs [] = []
sticky_pairs (c ∷ cs) = map (λ range. (range, c)) (sticky_ranges_for_consumer c) ++ sticky_pairs cs

unfoldable pub rebuild_sticky_assignments : Assignments → Assignments
rebuild_sticky_assignments a = record a {
  sticky_assignments = sort_by by_range (sticky_pairs (consumers_of a));
}

unfoldable pub rebuild_assignments : Assignments → Assignments
rebuild_assignments a = rebuild_sticky_assignments (rebuild_auto_split_assignments a)

abbrev pub holds_hash : KeySharedHashRange → ℤ → Bool
holds_hash range hash = le_int range.start hash && le_int hash range.end

abbrev pub is_ready : Readiness → Consumer → Bool
is_ready now c = ltb 0 (now.available_permits_now c.consumer_id) && now.is_writable c.consumer_id

unfoldable pub first_ready : Readiness → ℤ → List (KeySharedHashRange × Consumer) → Option Consumer
first_ready now hash [] = none
first_ready now hash ((range, c) ∷ rest) =
    if holds_hash range hash && is_ready now c then some c else first_ready now hash rest

unfoldable pub select_consumer_for_hash : Readiness → Assignments → ℤ → Option Consumer
select_consumer_for_hash now a hash = first_ready now hash (active_assignments a)

pub data AddError : Type 0 where
  already_exists : ℕ → AddError
  incompatible_policy : AddError

unfoldable pub add_consumer : Assignments → Consumer → Assignments ⊎ AddError
add_consumer a c = elim (get c.consumer_id a.consumers_by_id) [
  | some _ ↦ inr (already_exists c.consumer_id)
  | none ↦
      if has_same_key_shared_policy a c.key_shared_policy
      then inl (
          rebuild_assignments
            (record a { consumers_by_id = insert_entry c.consumer_id c a.consumers_by_id }))
      else inr incompatible_policy
]

-- The assignments' part of `remove_consumer` and of `remove_consumer_with_recovery`.
unfoldable pub remove_consumer : Assignments → ℕ → Assignments × Option Consumer
remove_consumer a consumer_id = (
  rebuild_assignments (record a { consumers_by_id = remove_key consumer_id a.consumers_by_id }),
  get consumer_id a.consumers_by_id,
)
