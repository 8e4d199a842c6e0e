-- ===== src/Tests/Histories.antt =====
-- Whole histories of one thread at concrete inputs.
use compio_pool.Prelude.{
  ℕ, ◌≡◌, ◌+◌, ◌-◌, ◌≤◌, inl, refl, List, [], ◌∷◌, arith, true, false, length,
}
use compio_pool.Config.{PoolConfig, default}
use compio_pool.Manage.{ManageConnection}
use compio_pool.Conn.{Instant}
use compio_pool.Futures.{opened}
use compio_pool.World.{World, Event, gets, resumes, returns, dialed, fresh_world, step, run}
use compio_pool.World.Progress.{no_lost_wake, woken_proceeds, Woken, roused}
use compio_pool.Wait.{poll}
use compio_pool.World
use compio_pool.Futures
use compio_pool.Inner
use compio_pool.Local
use compio_pool.Conn
use compio_pool.Metrics
use compio_pool.Waiters

abbrev two : PoolConfig
two = record default { max_size = 2; test_on_check_out = false }

abbrev manager : ManageConnection ℕ
manager = record { has_broken = λ raw. (raw, false) }

-- Two calls take both slots and two more are parked; then one connection comes back.
abbrev busy : List (Instant × Event ℕ ℕ)
busy =
    (10, gets 1)
    ∷ (11, gets 2)
    ∷ (12, gets 3)
    ∷ (13, gets 4)
    ∷ (20, resumes 3 1 (dialed (opened 7)))
    ∷ (30, returns 0 7 30)
    ∷ []

-- Then one task is still parked, the other has been woken, and the connection is idle.
busy_ends :
    let w = run manager (fresh_world two) busy in
    (w.inner.closed ≡ false)
    × (w.inner.waiters.entries ≡ (2, 4) ∷ [])
    × (w.inner.waiters.woken_upto ≡ 1)
    × (w.inner.idle ≡ record { raw = 7; created_at = 20; last_used = 30 } ∷ [])
unfolding run step World.return_at World.resume_at World.resume World.commit Futures.get Inner.new
    Futures.take_fast Local.pop_fresh_idle Inner.pop_idle Futures.get_loop poll Local.ready_now
    Futures.after_wait Futures.take_or_open Local.try_reserve Inner.take_slot Conn.expiry
    Futures.resume_dialing Inner.notify Inner.note_created Inner.push_idle Local.drop_pooled
    Local.recycle Local.pop_fresh_from Local.record_acquire Metrics.inc_conn Metrics.inc_idle
    Waiters.enqueue Waiters.mirror Waiters.new Waiters.register Waiters.wake Waiters.wake_front
    Inner.on_metrics
busy_ends = (refl, refl, refl, refl)

no_lost_wake_example :
    let w = run manager (fresh_world two) busy in
    length w.inner.idle + (2 - w.inner.slots) ≤ roused w.inner.waiters.scheduled w.calls
no_lost_wake_example =
    no_lost_wake manager two busy (omega arith) (omega arith) busy_ends.0 (λ e. cc (busy_ends.1))

woken_proceeds_example :
    let w = run manager (fresh_world two) busy in
    (x : Woken w.inner.waiters.scheduled w.calls) × ((poll w.inner x.wait x.waker).2 ≡ true)
woken_proceeds_example =
    woken_proceeds manager two busy (omega arith) (omega arith) busy_ends.0 (λ e. cc (busy_ends.1))
      (inl (λ e. cc (busy_ends.3)))
