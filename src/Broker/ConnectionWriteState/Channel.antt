-- ===== src/Broker/ConnectionWriteState/Channel.antt =====
-- The byte budget of connection_write_state.rs.
use pulsar_lite.Prelude.{
  ℕ, ◌+◌, ◌-◌, ◌%◌, subst, sym, ◌≤◌, ◌<◌, Bool, true, false, ◌&&◌, ◌||◌, not, List, [], ◌∷◌, ◌≡◌,
  refl, arith, leb, ◌==◌, if◌then◌else◌,
}
use pulsar_lite.Broker.ConnectionWriteState.{
  ConnectionWriteState, Round, reserved, over_cap, still_looping, reserve_loop,
  try_reserve_channel_bytes, reserve_result, release_channel_bytes,
}

-- Some round finds the value that was loaded, and does not fail.
abbrev pub any_exchange : ℕ → List Round → Bool
any_exchange current [] = false
any_exchange current (r ∷ rs) = (not r.spurious && r.actual == current) || any_exchange current rs

reserve_loop_lem :
    (most current bytes : ℕ) (rounds : List Round)
    → most < 18446744073709551615
    → reserve_loop most current bytes rounds ≡ (
        if leb (current + bytes) most
        then (if any_exchange current rounds then reserved (current + bytes) else still_looping)
        else over_cap)
unfolding reserve_loop
reserve_loop_lem most current bytes [] h = ground arith
reserve_loop_lem most current bytes (r ∷ rs) h =
    let rest = reserve_loop_lem most current bytes rs h in ground arith

-- With a cap below the largest usize, try_reserve_channel_bytes refuses exactly when the bytes do
-- not fit beside those that were loaded; when they fit it stores their sum once a round of the
-- exchange finds the loaded value, and until then it loops.
pub try_reserve_channel_bytes_lem :
    (s : ConnectionWriteState) (bytes : ℕ) (rounds : List Round)
    → s.max_channel_bytes < 18446744073709551615
    → try_reserve_channel_bytes s bytes rounds ≡ (
        if leb (s.channel_pending_bytes + bytes) s.max_channel_bytes
        then (if any_exchange s.channel_pending_bytes rounds
            then reserved (s.channel_pending_bytes + bytes)
            else still_looping)
        else over_cap)
unfolding try_reserve_channel_bytes
try_reserve_channel_bytes_lem s bytes rounds h =
    reserve_loop_lem s.max_channel_bytes s.channel_pending_bytes bytes rounds h

abbrev pub all_other : ℕ → List Round → Bool
all_other current [] = true
all_other current (r ∷ rs) = not (r.actual == current) && all_other current rs

none_exchanged :
    (current : ℕ) (rounds : List Round)
    → all_other current rounds ≡ true
    → any_exchange current rounds ≡ false
none_exchanged current [] h = refl
none_exchanged current (r ∷ rs) h = let rest = none_exchanged current rs in ground arith

-- With a cap below the largest usize and bytes that fit beside those that were loaded,
-- try_reserve_channel_bytes loops for every number of rounds in which the counter has other values
-- than the one that was loaded.
pub try_reserve_channel_bytes_stale :
    (s : ConnectionWriteState) (bytes : ℕ) (rounds : List Round)
    → s.max_channel_bytes < 18446744073709551615
    → s.channel_pending_bytes + bytes ≤ s.max_channel_bytes
    → all_other s.channel_pending_bytes rounds ≡ true
    → try_reserve_channel_bytes s bytes rounds ≡ still_looping
try_reserve_channel_bytes_stale s bytes rounds h fits others =
    let run = try_reserve_channel_bytes_lem s bytes rounds h in
    let never = none_exchanged s.channel_pending_bytes rounds others in ground arith

unwrapped :
    (current bytes : ℕ)
    → current + bytes < 18446744073709551615
    → ((current + bytes) + 18446744073709551616 - (bytes % 18446744073709551616))
        % 18446744073709551616
      ≡ current
unwrapped current bytes h = omega arith

-- With a cap below the largest usize, bytes that fit, and a round in which the exchange finds the
-- loaded value, release_channel_bytes takes back what try_reserve_channel_bytes has reserved: the
-- state is what it was.
pub release_channel_bytes-try_reserve_channel_bytes :
    (s : ConnectionWriteState) (bytes : ℕ) (rounds : List Round)
    → s.max_channel_bytes < 18446744073709551615
    → any_exchange s.channel_pending_bytes rounds ≡ true
    → s.channel_pending_bytes + bytes ≤ s.max_channel_bytes
    → release_channel_bytes (reserve_result s (try_reserve_channel_bytes s bytes rounds)).0 bytes
      ≡ s
unfolding release_channel_bytes
release_channel_bytes-try_reserve_channel_bytes s bytes rounds h once fits =
    let run : try_reserve_channel_bytes s bytes rounds
        ≡ reserved (s.channel_pending_bytes + bytes) =
      (let all = try_reserve_channel_bytes_lem s bytes rounds h in ground arith) in
    subst (λ r. release_channel_bytes (reserve_result s r).0 bytes ≡ s) (sym run)
      (let back = unwrapped s.channel_pending_bytes bytes (omega arith) in
        λ i. record s { channel_pending_bytes = back i })
