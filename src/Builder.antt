-- ===== src/Builder.antt =====
-- src/builder.rs, `Builder`: the settings, and the check that makes a pool of them.
pub mod Laws
use compio_pool.Prelude.{ℕ, Bool, Option, ◌⊎◌, inl, inr, if◌then◌else◌, ◌==◌, min}
use compio_pool.Config.{Duration, BuildError, zero_max_size, PoolConfig, default}
use compio_pool.Pool.{Pool}
use compio_pool.Pool

-- `struct Builder`.
pub record Builder : Type 0 where
  pub config : PoolConfig

-- `Builder::new` and `Builder::default`.
unfoldable pub new : Builder
new = record { config = default }

module _ (b : Builder) where
  c : PoolConfig
  c = b.config

  unfoldable pub max_size : ℕ → Builder
  unfolding c
  max_size n = record { config = record c { max_size = n } }

  unfoldable pub min_idle : ℕ → Builder
  unfolding c
  min_idle n = record { config = record c { min_idle = n } }

  unfoldable pub connection_timeout : Duration → Builder
  unfolding c
  connection_timeout d = record { config = record c { connection_timeout = d } }

  unfoldable pub idle_timeout : Option Duration → Builder
  unfolding c
  idle_timeout d = record { config = record c { idle_timeout = d } }

  unfoldable pub max_lifetime : Option Duration → Builder
  unfolding c
  max_lifetime d = record { config = record c { max_lifetime = d } }

  unfoldable pub test_on_check_out : Bool → Builder
  unfolding c
  test_on_check_out yes' = record { config = record c { test_on_check_out = yes' } }

  unfoldable pub retry_connection : Bool → Builder
  unfolding c
  retry_connection yes' = record { config = record c { retry_connection = yes' } }

  -- `Builder::build`.
  unfoldable pub build : {M : Type 0} → M → BuildError ⊎ Pool M
  unfolding c
  build manager =
      if c.max_size == 0
      then inl zero_max_size
      else inr (Pool.new manager (record c { min_idle = min c.min_idle c.max_size }))
