-- ===== src/ManagedLedger/RangeSet/Covering.antt =====
-- `take_covering` of range_set.rs at the positions where the cursors call it.
use pulsar_lite.Prelude.{ℕ, ◌+◌, ◌<◌, true, List, [], ◌∷◌, ◌≡◌, refl, arith, none, some, ◌∙◌}
use pulsar_lite.ManagedLedger.RangeSet.{
  contains, u64_key, last_le, first_ge, remove_pair, take_covering,
}
use pulsar_lite.ManagedLedger.RangeSet.Separated.{
  Above, covers, last_le_before, first_ge_head, contains-covers,
}

-- Below every range there is nothing to take.
pub take_covering_before :
    (lo p : ℕ) (rs : List (ℕ × ℕ)) → Above lo rs → p < lo → take_covering p rs ≡ (none, rs)
unfolding take_covering
take_covering_before lo p [] w h = unfold last_le first_ge in refl
take_covering_before lo p ((s, e) ∷ r) w h =
    rw
      (last_le_before lo p ((s, e) ∷ r) w h, take_covering, first_ge_head p s e r (omega arith) w.1)
      (ground arith)

-- At the start of the first range the whole range is taken out.
pub take_covering_first :
    (p e : ℕ) (r : List (ℕ × ℕ)) → Above p ((p, e) ∷ r) → take_covering p ((p, e) ∷ r) ≡ (some e, r)
unfolding take_covering last_le first_ge remove_pair
take_covering_first p e r w = ground (arith, last_le_before (e + 2) p r w.3)

-- Where an earlier range ends below the position and a range of more than one position starts at
-- it, contains gives true, and take_covering takes the earlier range out, returns its end, which
-- is below the position, and leaves the range that holds the position.
pub take_covering_past :
    (s e p f : ℕ) (r : List (ℕ × ℕ))
    → Above s ((s, e) ∷ (p, f) ∷ r)
    → p < f
    → (contains ((s, e) ∷ (p, f) ∷ r) p ≡ true)
      × (take_covering p ((s, e) ∷ (p, f) ∷ r) ≡ (some e, (p, f) ∷ r))
unfolding take_covering last_le remove_pair
take_covering_past s e p f r w h = (
  contains-covers s p ((s, e) ∷ (p, f) ∷ r) w ∙ unfold covers in ground arith,
  ground (arith, last_le_before (f + 2) p r w.3.3),
)
