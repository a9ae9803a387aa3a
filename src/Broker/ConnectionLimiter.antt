-- ===== src/Broker/ConnectionLimiter.antt =====
-- rust/src/broker/connection_limiter.rs: the limits on connections, in all and for each address.
-- A call holds the mutex, so that it is one step; a `ConnectionPermit` is released once, when it is
-- dropped. An address is a number. The counters are `usize`, and bounded by the open connections.
pub mod Permits
use pulsar_lite.Prelude.{
  ℕ, ◌+◌, ◌-◌, ◌<◌, ◌≤◌, Bool, true, false, ◌&&◌, Option, none, some, List, [], ◌∷◌, ltb, leb, ◌==◌,
  if◌then◌else◌,
}
use pulsar_lite.Prelude.Maps.{nat_key, get, insert_entry, remove_key}

pub record ConnectionLimiterState : Type 0 where
  pub max_connections : ℕ
  pub max_connections_per_ip : ℕ
  pub total_connections : ℕ
  pub connections_per_ip : List (ℕ × ℕ)

pub data LimitError : Type 0 where
  max_broker_connections : LimitError
  max_connections_for_address : ℕ → LimitError

pub data Acquired : Type 0 where
  permit : ℕ → Acquired
  refused : LimitError → Acquired

abbrev pub new_limiter : ℕ → ℕ → ConnectionLimiterState
new_limiter most most_per_ip = record {
  max_connections = most;
  max_connections_per_ip = most_per_ip;
  total_connections = 0;
  connections_per_ip = [];
}

-- `.get(&ip).copied().unwrap_or_default()`.
abbrev pub or_default : Option ℕ → ℕ
or_default none = 0
or_default (some n) = n

-- A limit of 0 is no limit.
abbrev pub is_reached : ℕ → ℕ → Bool
is_reached limit count = ltb 0 limit && leb limit count

unfoldable pub try_acquire : ConnectionLimiterState → ℕ → ConnectionLimiterState × Acquired
try_acquire state ip =
    let per_ip = or_default (get ip state.connections_per_ip) in
    if is_reached state.max_connections state.total_connections
    then (state, refused max_broker_connections)
    else if is_reached state.max_connections_per_ip per_ip
    then (state, refused (max_connections_for_address ip))
    else (
      record state {
        total_connections = state.total_connections + 1;
        connections_per_ip = insert_entry ip (per_ip + 1) state.connections_per_ip;
      },
      permit ip,
    )

abbrev pub active_connections : ConnectionLimiterState → ℕ
active_connections state = state.total_connections

-- The count of the address is lowered, and its entry goes at 0.
abbrev pub lower_ip : ℕ → Option ℕ → List (ℕ × ℕ) → List (ℕ × ℕ)
lower_ip ip none m = m
lower_ip ip (some count) m =
    if (count - 1) == 0 then remove_key ip m else insert_entry ip (count - 1) m

-- `drop` of a permit.
unfoldable pub release : ConnectionLimiterState → ℕ → ConnectionLimiterState
release state ip = record state {
  total_connections = state.total_connections - 1;
  connections_per_ip = lower_ip ip (get ip state.connections_per_ip) state.connections_per_ip;
}
