-- ===== src/Conn.antt =====
-- src/pool.rs, `Conn` and `expiry`: a pooled connection, and when it is retired.
use compio_pool.Prelude.{ℕ, ◌-◌, Bool, false, Option, none, some, leb, if◌then◌else◌}
use compio_pool.Config.{Duration, PoolConfig}
use compio_pool.Metrics.{Expiry, idle_timeout, max_lifetime}

-- An `Instant` is a number of nanoseconds.
abbrev pub Instant : Type 0
Instant = ℕ

-- `Instant::duration_since`, which is zero for a later instant.
abbrev pub duration_since : Instant → Instant → Duration
duration_since now earlier = now - earlier

-- `struct Conn`.
pub record Conn (C : Type 0) : Type 0 where
  pub raw : C
  pub created_at : Instant
  pub last_used : Instant

-- Whether a limit is set and the time since an instant has reached it.
abbrev pub past : Option Duration → Instant → Instant → Bool
past none now since = false
past (some limit) now since = leb limit (duration_since now since)

-- `expiry`.
unfoldable pub expiry : {C : Type 0} → Conn C → Instant → PoolConfig → Option Expiry
expiry c now cfg =
    if past cfg.max_lifetime now c.created_at
    then some max_lifetime
    else if past cfg.idle_timeout now c.last_used
    then some idle_timeout
    else none
