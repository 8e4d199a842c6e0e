-- ===== src/Metrics.antt =====
-- src/pool.rs, `State`, `Statistics` and `Metrics`: the per-thread counters of the `metrics`
-- feature and the snapshots that are read from them. Counters wrap as the atomics do.
pub mod Laws
use compio_pool.Prelude.{
  ℕ, ◌+◌, ◌/◌, Option, none, some, if◌then◌else◌, ◌==◌, add_u32, add_u64, as_u32, saturating_sub,
}
use compio_pool.Config.{Duration, from_micros}

-- `struct State`.
pub record State : Type 0 where
  pub connections : ℕ
  pub idle_connections : ℕ
  pub pending_waiters : ℕ

-- `State::default`.
abbrev pub no_state : State
no_state = record { connections = 0; idle_connections = 0; pending_waiters = 0 }

-- `State::add`.
unfoldable pub add_state : State → State → State
add_state s other = record {
  connections = add_u32 s.connections other.connections;
  idle_connections = add_u32 s.idle_connections other.idle_connections;
  pending_waiters = add_u32 s.pending_waiters other.pending_waiters;
}

-- `struct Statistics`.
pub record Statistics : Type 0 where
  pub get_direct : ℕ
  pub get_waited : ℕ
  pub get_timed_out : ℕ
  pub connections_created : ℕ
  pub connections_closed_broken : ℕ
  pub connections_closed_idle_timeout : ℕ
  pub connections_closed_max_lifetime : ℕ
  pub connections_closed_manual : ℕ
  pub total_wait_time : Duration

-- `Duration::checked_div` by a `u32`, then `unwrap_or_default`.
abbrev div_or_zero : Duration → ℕ → Duration
div_or_zero d n = if n == 0 then 0 else d / n

-- `Statistics::average_wait_time`. The count is cast to `u32` first.
unfoldable pub average_wait_time : Statistics → Duration
average_wait_time s = div_or_zero s.total_wait_time (as_u32 s.get_waited)

-- `Statistics::add`.
unfoldable pub add_statistics : Statistics → Statistics → Statistics
add_statistics s other = record {
  get_direct = add_u64 s.get_direct other.get_direct;
  get_waited = add_u64 s.get_waited other.get_waited;
  get_timed_out = add_u64 s.get_timed_out other.get_timed_out;
  connections_created = add_u64 s.connections_created other.connections_created;
  connections_closed_broken = add_u64 s.connections_closed_broken other.connections_closed_broken;
  connections_closed_idle_timeout =
      add_u64 s.connections_closed_idle_timeout other.connections_closed_idle_timeout;
  connections_closed_max_lifetime =
      add_u64 s.connections_closed_max_lifetime other.connections_closed_max_lifetime;
  connections_closed_manual = add_u64 s.connections_closed_manual other.connections_closed_manual;
  total_wait_time = s.total_wait_time + other.total_wait_time;
}

-- `struct Metrics`: three live gauges, then the cumulative counters.
pub record Metrics : Type 0 where
  pub connections : ℕ
  pub idle : ℕ
  pub waiters : ℕ
  pub get_direct : ℕ
  pub get_waited : ℕ
  pub get_timed_out : ℕ
  pub connections_created : ℕ
  pub connections_closed_broken : ℕ
  pub connections_closed_idle_timeout : ℕ
  pub connections_closed_max_lifetime : ℕ
  pub connections_closed_manual : ℕ
  pub wait_micros : ℕ

-- `Metrics::default`.
abbrev pub no_metrics : Metrics
no_metrics = record {
  connections = 0;
  idle = 0;
  waiters = 0;
  get_direct = 0;
  get_waited = 0;
  get_timed_out = 0;
  connections_created = 0;
  connections_closed_broken = 0;
  connections_closed_idle_timeout = 0;
  connections_closed_max_lifetime = 0;
  connections_closed_manual = 0;
  wait_micros = 0;
}

-- `enum Expiry`.
pub data Expiry : Type 0 where
  idle_timeout max_lifetime : Expiry

-- `Metrics::inc_conn`.
unfoldable pub inc_conn : Metrics → Metrics
inc_conn m = record m { connections = add_u32 m.connections 1 }

-- `Metrics::dec_conn`.
unfoldable pub dec_conn : Metrics → ℕ → Metrics
dec_conn m n = record m { connections = saturating_sub m.connections n }

-- `Metrics::inc_idle`.
unfoldable pub inc_idle : Metrics → Metrics
inc_idle m = record m { idle = add_u32 m.idle 1 }

-- `Metrics::dec_idle`.
unfoldable pub dec_idle : Metrics → ℕ → Metrics
dec_idle m n = record m { idle = saturating_sub m.idle n }

-- `Metrics::note_expired`.
unfoldable pub note_expired : Metrics → Expiry → Metrics
note_expired m idle_timeout = record m {
  connections_closed_idle_timeout = add_u64 m.connections_closed_idle_timeout 1;
}
note_expired m max_lifetime = record m {
  connections_closed_max_lifetime = add_u64 m.connections_closed_max_lifetime 1;
}

-- `Metrics::snapshot_state`.
unfoldable pub snapshot_state : Metrics → State
snapshot_state m = record {
  connections = m.connections;
  idle_connections = m.idle;
  pending_waiters = m.waiters;
}

-- `Metrics::snapshot_statistics`.
unfoldable pub snapshot_statistics : Metrics → Statistics
snapshot_statistics m = record {
  get_direct = m.get_direct;
  get_waited = m.get_waited;
  get_timed_out = m.get_timed_out;
  connections_created = m.connections_created;
  connections_closed_broken = m.connections_closed_broken;
  connections_closed_idle_timeout = m.connections_closed_idle_timeout;
  connections_closed_max_lifetime = m.connections_closed_max_lifetime;
  connections_closed_manual = m.connections_closed_manual;
  total_wait_time = from_micros m.wait_micros;
}

-- `Metrics::retire_into`: the block with its cumulative counters at zero, and `into` with each of
-- them added.
unfoldable pub retire_into : Metrics → Metrics → Metrics × Metrics
retire_into m into = (
  record no_metrics { connections = m.connections; idle = m.idle; waiters = m.waiters },
  record into {
    get_direct = add_u64 into.get_direct m.get_direct;
    get_waited = add_u64 into.get_waited m.get_waited;
    get_timed_out = add_u64 into.get_timed_out m.get_timed_out;
    connections_created = add_u64 into.connections_created m.connections_created;
    connections_closed_broken = add_u64 into.connections_closed_broken m.connections_closed_broken;
    connections_closed_idle_timeout =
        add_u64 into.connections_closed_idle_timeout m.connections_closed_idle_timeout;
    connections_closed_max_lifetime =
        add_u64 into.connections_closed_max_lifetime m.connections_closed_max_lifetime;
    connections_closed_manual = add_u64 into.connections_closed_manual m.connections_closed_manual;
    wait_micros = add_u64 into.wait_micros m.wait_micros;
  },
)
