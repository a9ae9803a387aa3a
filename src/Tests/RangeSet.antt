-- ===== src/Tests/RangeSet.antt =====
-- Runs of range_set.rs, and instances of its theorems.
use pulsar_lite.Prelude.{ℕ, ◌≡◌, ◌||◌, ◌&&◌, refl, true, some, List, [], ◌∷◌, arith, leb}
use pulsar_lite.ManagedLedger.RangeSet.{
  u64_key, contains, insert_range, insert, take_covering, last_le, first_ge, remove_pair,
  insert_pair, merge_right, merge_left,
}
use pulsar_lite.ManagedLedger.RangeSet.Separated.{Above, covers}
use pulsar_lite.ManagedLedger.RangeSet.Insert.{add_range}
use pulsar_lite.ManagedLedger.RangeSet.Place.{insert_range-add_range}
use pulsar_lite.ManagedLedger.RangeSet.Laws.{insert_range_lem}
use pulsar_lite.ManagedLedger.RangeSet.Covering.{take_covering_past}

program : Unit {0}
unfolding contains insert_range insert take_covering last_le first_ge remove_pair insert_pair
    merge_right merge_left covers
program = tt

abbrev gaps : List (ℕ × ℕ)
gaps = (2, 3) ∷ (5, 5) ∷ (9, 12) ∷ []

gaps-Above : Above 2 gaps
gaps-Above = omega arith

-- A position between two ranges joins them.
insert_joins : insert 4 gaps ≡ some ((2, 5) ∷ (9, 12) ∷ [])
unfolding program
insert_joins = refl

insert_range_joins : insert_range 6 8 gaps ≡ some ((2, 3) ∷ (5, 12) ∷ [])
unfolding program
insert_range_joins = refl

take_covering_inside : take_covering 5 gaps ≡ (some 5, (2, 3) ∷ (9, 12) ∷ [])
unfolding program
take_covering_inside = refl

insert_range-add_range_example : insert_range 6 20 gaps ≡ some (add_range 6 20 gaps)
unfolding program
insert_range-add_range_example =
    insert_range-add_range 2 6 20 gaps gaps-Above refl (omega arith) (omega arith)

insert_range_lem_example :
    (out : List (ℕ × ℕ)) × (insert_range 6 8 gaps ≡ some out)
    × Above 2 out
    × ((x : ℕ) → contains out x ≡ ((leb 6 x && leb x 8) || contains gaps x))
unfolding program
insert_range_lem_example =
    insert_range_lem 2 6 8 gaps gaps-Above refl (omega arith) (omega arith) (omega arith)

take_covering_past_example :
    (contains {K = ℕ} ((2, 3) ∷ (9, 12) ∷ []) 9 ≡ true)
    × (take_covering {K = ℕ} 9 ((2, 3) ∷ (9, 12) ∷ []) ≡ (some 3, (9, 12) ∷ []))
take_covering_past_example = take_covering_past 2 3 9 12 [] (omega arith) (omega arith)
