-- ===== src/Broker/ConnectionWriteState.antt =====
-- rust/src/broker/service/connection_write_state.rs: when a connection takes more output. A store and
-- a load of an atomic is one step; `new`'s limit is 64 MiB.
pub mod Watermarks
pub mod Channel
use pulsar_lite.Prelude.{
  ℕ, zero, suc, ◌+◌, ◌-◌, ◌%◌, Bool, true, false, Option, none, some, List, [], ◌∷◌, ltb, leb, ◌==◌,
  if◌then◌else◌, min,
}

pub record ConnectionWriteState : Type 0 where
  pub pending_bytes : ℕ
  pub writable : Bool
  pub high_watermark_bytes : ℕ
  pub low_watermark_bytes : ℕ
  pub channel_pending_bytes : ℕ
  pub max_channel_bytes : ℕ

-- The two assertions of `new`; `none` is their panic.
unfoldable pub new_write_state : ℕ → ℕ → Option ConnectionWriteState
new_write_state high low =
    if ltb 0 high
    then (if leb low high
        then some (record {
          pending_bytes = 0;
          writable = true;
          high_watermark_bytes = high;
          low_watermark_bytes = low;
          channel_pending_bytes = 0;
          max_channel_bytes = 67108864;
        })
        else none)
    else none

unfoldable pub observe_buffered_bytes : ConnectionWriteState → ℕ → ConnectionWriteState
observe_buffered_bytes s bytes = record s {
  pending_bytes = bytes;
  writable =
      if leb s.high_watermark_bytes bytes
      then false
      else if leb bytes s.low_watermark_bytes
      then true
      else s.writable;
}

abbrev usize_max : ℕ
usize_max = 18446744073709551615

abbrev pub saturating_add : ℕ → ℕ → ℕ
saturating_add a b = min (a + b) usize_max

-- What a round of the loop is given: whether the weak exchange fails without a reason, and the
-- value that the other threads have left in the counter by then.
pub record Round : Type 0 where
  pub spurious : Bool
  pub actual : ℕ

pub data Reserved : Type 0 where
  reserved : ℕ → Reserved
  over_cap : Reserved
  still_looping : Reserved

-- The loop of `try_reserve_channel_bytes`, from the value that was loaded before it, over the
-- rounds that are given. The `let current = actual` of the failing arm ends with the arm, so that
-- the next round has the same `current`. `reserved` carries what the exchange has stored.
unfoldable pub reserve_loop : ℕ → ℕ → ℕ → List Round → Reserved
reserve_loop most current bytes [] =
    if ltb most (saturating_add current bytes) then over_cap else still_looping
reserve_loop most current bytes (r ∷ rs) =
    let next = saturating_add current bytes in
    let rest = reserve_loop most current bytes rs in
    if ltb most next
    then over_cap
    else if r.spurious
    then rest
    else if r.actual == current
    then reserved next
    else rest

unfoldable pub try_reserve_channel_bytes : ConnectionWriteState → ℕ → List Round → Reserved
try_reserve_channel_bytes s bytes rounds =
    reserve_loop s.max_channel_bytes s.channel_pending_bytes bytes rounds

-- The state and the answer of a call that no other thread meets.
abbrev pub reserve_result : ConnectionWriteState → Reserved → ConnectionWriteState × Option Bool
reserve_result s (reserved next) = (record s { channel_pending_bytes = next }, some true)
reserve_result s over_cap = (s, some false)
reserve_result s still_looping = (s, none)

-- `fetch_sub` wraps on 64 bits.
unfoldable pub release_channel_bytes : ConnectionWriteState → ℕ → ConnectionWriteState
release_channel_bytes s bytes = record s {
  channel_pending_bytes =
      (s.channel_pending_bytes + 18446744073709551616 - (bytes % 18446744073709551616))
      % 18446744073709551616;
}

unfoldable pub release_bytes : ConnectionWriteState → ℕ → ConnectionWriteState
release_bytes s bytes =
    let next = s.pending_bytes - bytes in
    record s {
      pending_bytes = next;
      writable = if leb next s.low_watermark_bytes then true else s.writable;
    }
