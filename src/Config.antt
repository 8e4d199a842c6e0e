-- ===== src/Config.antt =====
-- src/builder.rs: the configuration that every thread's pool reads, and why a build is refused.
use Prim.Native.String.{String}
use compio_pool.Prelude.{ℕ, ◌*◌, ◌^◌, Bool, true, false, Option, some}

-- A `Duration` is its number of nanoseconds.
abbrev pub Duration : Type 0
Duration = ℕ

-- `Duration::from_secs`.
abbrev pub from_secs : ℕ → Duration
from_secs s = s * 10 ^ 9

-- `Duration::from_micros`.
abbrev pub from_micros : ℕ → Duration
from_micros us = us * 1000

-- `Duration::from_millis`.
abbrev pub from_millis : ℕ → Duration
from_millis ms = ms * 10 ^ 6

-- `enum BuildError`.
pub data BuildError : Type 0 where
  zero_max_size : BuildError

-- `impl Display for BuildError`.
unfoldable pub fmt : BuildError → String
fmt zero_max_size = "max_size must be at least 1"

-- `struct PoolConfig`.
pub record PoolConfig : Type 0 where
  pub max_size : ℕ
  pub min_idle : ℕ
  pub connection_timeout : Duration
  pub idle_timeout : Option Duration
  pub max_lifetime : Option Duration
  pub test_on_check_out : Bool
  pub retry_connection : Bool

-- `PoolConfig::default`.
abbrev pub default : PoolConfig
default = record {
  max_size = 10;
  min_idle = 0;
  connection_timeout = from_secs 30;
  idle_timeout = some (from_secs (10 * 60));
  max_lifetime = some (from_secs (30 * 60));
  test_on_check_out = true;
  retry_connection = false;
}
