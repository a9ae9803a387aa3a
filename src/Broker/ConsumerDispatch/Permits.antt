-- ===== src/Broker/ConsumerDispatch/Permits.antt =====
-- The exchange loop over the permits of consumer.rs.
use pulsar_lite.Prelude.{Bool, true, false, List, [], ◌∷◌, ◌++◌, ◌≡◌, arith}
use pulsar_lite.Prelude.Int.{ℤ, eq_int_refl}
use pulsar_lite.Broker.ConsumerDispatch.{Taken, taken, no_permit, still_trying, permit_loop}

-- The loop has answered.
abbrev pub has_ended : Taken → Bool
has_ended (taken v) = true
has_ended no_permit = true
has_ended still_trying = false

-- Whatever values the exchange of the permit loop found before, the loop has ended once it finds
-- the same value in two rounds running.
pub permit_loop-has_ended :
    (n current : ℤ) (before : List ℤ) (last : ℤ)
    → has_ended (permit_loop n current (before ++ last ∷ last ∷ [])) ≡ true
unfolding permit_loop
permit_loop-has_ended n current [] last = let same = eq_int_refl last in ground arith
permit_loop-has_ended n current (b ∷ before) last =
    let rest = permit_loop-has_ended n b before last in ground arith
