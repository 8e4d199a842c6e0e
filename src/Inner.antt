-- ===== src/Inner.antt =====
-- src/pool.rs, `Inner`: the state of one thread's pool and its primitive operations.
--
-- The head of `idle` is the back of the source's `Vec`, where connections are pushed and popped.
-- `config` and `closed` are the pool's shared ones. The thread's metrics block is the one that its
-- `Waiters` holds.
use compio_pool.Prelude.{
  ℕ, Bool, Option, none, some, List, [], ◌∷◌, length, if◌then◌else◌, add_u32, add_u64, as_u32,
  saturating_sub,
}
use compio_pool.Config.{PoolConfig}
use compio_pool.Metrics.{
  Metrics, no_metrics, State, Statistics, Expiry, inc_conn, dec_conn, inc_idle, dec_idle,
  snapshot_statistics,
}
use compio_pool.Metrics
use compio_pool.Waiters.{Waiters}
use compio_pool.Waiters
use compio_pool.Conn.{Conn}

-- `struct Inner`.
pub record Inner (C : Type 0) : Type 0 where
  pub config : PoolConfig
  pub closed : Bool
  pub idle : List (Conn C)
  pub slots : ℕ
  pub waiters : Waiters

-- `LocalPool::new` on a fresh metrics block.
unfoldable pub new : {C : Type 0} → PoolConfig → Bool → Inner C
unfolding Waiters.new
new config closed = record {
  config = config;
  closed = closed;
  idle = [];
  slots = 0;
  waiters = Waiters.new no_metrics;
}

module _ {C : Type 0} where
  -- A write to the thread's metrics block.
  unfoldable pub on_metrics : (Metrics → Metrics) → Inner C → Inner C
  on_metrics f p = record p { waiters = record w { metrics = f w.metrics } }
    where
      w : Waiters
      w = p.waiters

  -- `Inner::idle_len`.
  unfoldable pub idle_len : Inner C → ℕ
  idle_len p = as_u32 (length p.idle)

  -- `Inner::take_slot`.
  unfoldable pub take_slot : Inner C → Inner C
  unfolding on_metrics inc_conn
  take_slot p = on_metrics inc_conn (record p { slots = add_u32 p.slots 1 })

  -- `Inner::release_slots`.
  unfoldable pub release_slots : Inner C → ℕ → Inner C
  unfolding on_metrics dec_conn
  release_slots p n = on_metrics (λ m. dec_conn m n) (record p { slots = saturating_sub p.slots n })

  -- `Inner::notify`.
  unfoldable pub notify : Inner C → ℕ → Inner C
  notify p n = record p {
    waiters = if p.closed then Waiters.wake_all p.waiters else Waiters.wake p.waiters n;
  }

  -- `Inner::release_slot`.
  unfoldable pub release_slot : Inner C → Inner C
  release_slot p = notify (release_slots p 1) 1

  -- `Inner::push_idle`.
  unfoldable pub push_idle : Inner C → Conn C → Inner C
  unfolding on_metrics inc_idle
  push_idle p conn = on_metrics inc_idle (record p { idle = conn ∷ p.idle })

  -- `Inner::pop_idle`, for the idle list given apart.
  unfoldable pub pop_idle : Inner C → List (Conn C) → Inner C × Option (Conn C)
  unfolding on_metrics dec_idle
  pop_idle p [] = (p, none)
  pop_idle p (conn ∷ rest) = (on_metrics (λ m. dec_idle m 1) (record p { idle = rest }), some conn)

  -- `Inner::note_expired`, `note_created`, `note_broken` and `note_closed_manual`.
  unfoldable pub note_expired : Inner C → Expiry → Inner C
  unfolding on_metrics
  note_expired p reason = on_metrics (λ m. Metrics.note_expired m reason) p

  unfoldable pub note_created : Inner C → Inner C
  unfolding on_metrics
  note_created = on_metrics λ m. record m { connections_created = add_u64 m.connections_created 1 }

  unfoldable pub note_broken : Inner C → Inner C
  unfolding on_metrics
  note_broken =
      on_metrics λ m. record m { connections_closed_broken = add_u64 m.connections_closed_broken 1 }

  unfoldable pub note_closed_manual : Inner C → ℕ → Inner C
  unfolding on_metrics
  note_closed_manual p n =
      on_metrics
        (λ m. record m { connections_closed_manual = add_u64 m.connections_closed_manual n }) p
