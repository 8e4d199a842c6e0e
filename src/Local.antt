-- ===== src/Local.antt =====
-- src/pool.rs, `LocalPool` and the guards `Held` and `PooledConnection`: the synchronous operations
-- of one thread's pool.
--
-- A guard is not part of the state: an operation on it takes the pool with what the guard carries,
-- and `IsLocal` counts the guards that are out.
pub mod Slots
pub mod Guards
pub mod Maintenance
pub mod Closing
pub mod Freshness
pub mod Counters
use compio_pool.Prelude.{
  ℕ, ◌+◌, Bool, true, false, not, ◌||◌, Option, none, some, List, [], ◌∷◌, length, ltb,
  if◌then◌else◌, ◌%◌, u64_mod, add_u32, add_u64, as_u32, saturating_sub, ◌-◌, ◌<◌, ◌==◌,
}
use compio_pool.Config.{PoolConfig, Duration}
use compio_pool.Manage.{ManageConnection}
use compio_pool.Metrics.{
  Metrics, no_metrics, State, Statistics, Expiry, inc_conn, dec_conn, inc_idle, dec_idle,
  snapshot_statistics,
}
use compio_pool.Metrics
use compio_pool.Waiters.{Waiters}
use compio_pool.Waiters
use compio_pool.Conn.{Instant, Conn, expiry}
use compio_pool.Inner.{
  Inner, on_metrics, idle_len, take_slot, release_slots, notify, release_slot, push_idle, pop_idle,
  note_expired, note_broken, note_closed_manual,
}

module _ {C : Type 0} where
  -- `LocalPool::state`.
  pub state : Inner C → State
  state p = record {
    connections = p.slots;
    idle_connections = idle_len p;
    pending_waiters = Waiters.len p.waiters;
  }

  -- `LocalPool::statistics`.
  pub statistics : Inner C → Statistics
  statistics p = snapshot_statistics p.waiters.metrics

  -- `LocalPool::record_acquire`. `elapsed` is the time since the call began, in microseconds.
  unfoldable pub record_acquire : Inner C → Bool → ℕ → Inner C
  unfolding on_metrics
  record_acquire p waited elapsed =
      on_metrics
        (λ m.
          if waited
          then record m {
            get_waited = add_u64 m.get_waited 1;
            wait_micros = add_u64 m.wait_micros (elapsed % u64_mod);
          }
          else record m { get_direct = add_u64 m.get_direct 1 })
        p

  -- `LocalPool::try_reserve`; `true` stands for the guard of the reserved slot.
  unfoldable pub try_reserve : Inner C → Inner C × Bool
  try_reserve p = if ltb p.slots p.config.max_size then (take_slot p, true) else (p, false)

  -- The loop of `LocalPool::pop_fresh_idle` on the idle connections that are left.
  unfoldable pub pop_fresh_from : List (Conn C) → Inner C → Instant → Inner C × Option (Conn C)
  pop_fresh_from [] p now = pop_idle p []
  pop_fresh_from (conn ∷ rest) p now =
      let popped = (pop_idle p (conn ∷ rest)).0 in
      elim (expiry conn now p.config) [
        | none ↦ (popped, some conn)
        | some reason ↦ pop_fresh_from rest (release_slot (note_expired popped reason)) now
      ]

  -- `LocalPool::pop_fresh_idle`.
  unfoldable pub pop_fresh_idle : Inner C → Instant → Inner C × Option (Conn C)
  unfolding pop_fresh_from
  pop_fresh_idle p now = pop_fresh_from p.idle p now

  -- `LocalPool::ready_now`.
  unfoldable pub ready_now : Inner C → Bool
  ready_now p = p.closed || not (length p.idle == 0) || ltb p.slots p.config.max_size

  -- The loop of `LocalPool::reap` over the idle connections: the counters with the expired ones
  -- noted, the connections that are kept, and the number of the others.
  unfoldable pub sort_out :
      List (Conn C) → Instant → PoolConfig → Inner C → List (Conn C) × ℕ × Inner C
  sort_out [] now cfg p = ([], 0, p)
  sort_out (conn ∷ rest) now cfg p =
      let (kept, n, q) = sort_out rest now cfg p in
      elim (expiry conn now cfg) [
        | none ↦ (conn ∷ kept, n, q)
        | some reason ↦ (kept, n + 1, note_expired q reason)
      ]

  -- The common end of `reap` and `clear`: `n` idle connections are gone.
  unfoldable pub forget_idle : Inner C → ℕ → Inner C
  unfolding on_metrics dec_idle
  forget_idle p n = release_slots (on_metrics (λ m. dec_idle m n) p) n

  -- The end of `reap`: the idle connections are those kept, and the others give their slots back.
  unfoldable pub sweep : Inner C → List (Conn C) → ℕ → Inner C
  unfolding forget_idle
  sweep p kept reaped =
      let swept = record p { idle = kept } in
      if reaped == 0 then swept else notify (forget_idle swept reaped) reaped

  -- `LocalPool::reap`.
  unfoldable pub reap : Inner C → Instant → Inner C × ℕ
  unfolding sort_out sweep
  reap p now =
      let (kept, n, q) = sort_out p.idle now p.config p in (sweep q kept (as_u32 n), as_u32 n)

  -- `LocalPool::clear`.
  unfoldable pub clear : Inner C → Inner C × ℕ
  unfolding forget_idle
  clear p =
      let n = idle_len p in
      let emptied = record p { idle = [] } in
      let freed = if n == 0 then emptied else forget_idle (note_closed_manual emptied n) n in
      (notify freed n, n)

  -- `Drop for Held`, of a guard that was not released.
  unfoldable pub drop_held : Inner C → Inner C
  drop_held p = release_slot p

  -- `Held::into_idle`, of a guard with its connection.
  unfoldable pub into_idle : Inner C → Conn C → Instant → Inner C
  into_idle p conn now = notify (push_idle p (record conn { last_used = now })) 1

  -- `PooledConnection::take`.
  unfoldable pub take : Inner C → Conn C → Inner C × C
  take p conn = (release_slot p, conn.raw)

  -- The end of `Drop for PooledConnection`, on a connection that is not broken.
  unfoldable pub recycle : Inner C → Conn C → Instant → Instant → Inner C
  recycle p conn now later = elim (expiry conn now p.config) [
    | some reason ↦ release_slot (note_expired p reason)
    | none ↦ notify (push_idle p (record conn { last_used = later })) 1
  ]

  -- `Drop for PooledConnection`. The clock is read for the expiry, and again to stamp the return.
  unfoldable pub drop_pooled : ManageConnection C → Inner C → Conn C → Instant → Instant → Inner C
  unfolding recycle
  drop_pooled manager p conn now later =
      if p.closed
      then release_slot (note_closed_manual p 1)
      else (let (raw, broken) = manager.has_broken conn.raw in
          if broken
          then release_slot (note_broken p)
          else recycle p (record conn { raw = raw }) now later)
