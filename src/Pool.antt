-- ===== src/Pool.antt =====
-- src/pool.rs, `Pool` and `Shared`: the blueprint that all threads share, with the registry through
-- which the metrics of every thread are summed.
--
-- `blocks` is the store of the metrics blocks: a block is there as long as the `LocalPool` that owns
-- it lives. The registry holds weak references, which are block numbers; upgrading one looks it up.
pub mod Registry
pub mod Totals
use compio_pool.Prelude.{
  ℕ, zero, suc, ◌+◌, Bool, true, false, Option, none, some, List, [], ◌∷◌, ◌++◌, if◌then◌else◌,
  ◌==◌,
}
use compio_pool.Config.{PoolConfig}
use compio_pool.Metrics.{
  Metrics, no_metrics, State, no_state, add_state, Statistics, add_statistics, snapshot_state,
  snapshot_statistics, retire_into,
}

pub record Pool (M : Type 0) : Type 0 where
  pub manager : M
  pub config : PoolConfig
  pub closed : Bool
  pub metrics : List ℕ
  pub retired : Metrics
  pub blocks : ℕ → Option Metrics
  pub next_block : ℕ

-- The store with one block written or freed.
unfoldable pub store : (ℕ → Option Metrics) → ℕ → Option Metrics → ℕ → Option Metrics
store blocks id block j = if j == id then block else blocks j

-- `retain` on the registry: dead references fall out.
unfoldable pub prune : (ℕ → Option Metrics) → List ℕ → List ℕ
prune blocks [] = []
prune blocks (id ∷ ids) = elim (blocks id) [
  | some block ↦ id ∷ prune blocks ids
  | none ↦ prune blocks ids
]

-- The visits of `for_each_live_block`, in the order of the registry.
unfoldable pub visit : {S : Type 0} → (S → Metrics → S) → S → (ℕ → Option Metrics) → List ℕ → S
visit f acc blocks [] = acc
visit f acc blocks (id ∷ ids) = elim (blocks id) [
  | some block ↦ visit f (f acc block) blocks ids
  | none ↦ visit f acc blocks ids
]

-- `Pool::new`.
unfoldable pub new : {M : Type 0} → M → PoolConfig → Pool M
new manager config = record {
  manager = manager;
  config = config;
  closed = false;
  metrics = [];
  retired = no_metrics;
  blocks = λ id. none;
  next_block = 0;
}

module _ {M : Type 0} where
  -- `Pool::max_size`.
  pub max_size : Pool M → ℕ
  max_size p = p.config.max_size

  -- `Pool::close` and `Pool::is_closed`.
  pub close : Pool M → Pool M
  close p = record p { closed = true }

  pub is_closed : Pool M → Bool
  is_closed p = p.closed

  -- The part of `LocalPool::new` that registers a metrics block, with the block's number.
  unfoldable pub local : Pool M → Pool M × ℕ
  unfolding store prune
  local p = (
    record p {
      metrics = prune p.blocks p.metrics ++ p.next_block ∷ [];
      blocks = store p.blocks p.next_block (some no_metrics);
      next_block = suc p.next_block;
    },
    p.next_block,
  )

  -- The owning thread writes its block.
  unfoldable pub write : Pool M → ℕ → Metrics → Pool M
  unfolding store
  write p id block = record p { blocks = store p.blocks id (some block) }

  -- `Drop for Inner`, with the block that its owner leaves: the gauges are zeroed, the counters go
  -- over to the retired block, and the block itself is freed.
  unfoldable pub drop_local : Pool M → ℕ → Metrics → Pool M
  unfolding store retire_into
  drop_local p id block =
      let zeroed = record block { connections = 0; idle = 0; waiters = 0 } in
      let (left, retired) = retire_into zeroed p.retired in
      record p { retired = retired; blocks = store p.blocks id none }

  -- `Pool::state`; reading prunes the registry.
  unfoldable pub state : Pool M → Pool M × State
  state p = (
    record p { metrics = prune p.blocks p.metrics },
    visit (λ s m. add_state s (snapshot_state m)) no_state p.blocks p.metrics,
  )

  -- `Pool::statistics`.
  unfoldable pub statistics : Pool M → Pool M × Statistics
  statistics p = (
    record p { metrics = prune p.blocks p.metrics },
    visit (λ s m. add_statistics s (snapshot_statistics m)) (snapshot_statistics p.retired) p.blocks
        p.metrics,
  )
