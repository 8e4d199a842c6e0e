-- ===== src/Tests/Threads.antt =====
-- One thread's pool at concrete inputs. A connection is a number, broken if it is zero.
use compio_pool.Prelude.{
  ℕ, ◌≡◌, ◌≢◌, ◌+◌, ◌*◌, ◌≤◌, ◌⊎◌, refl, none, some, List, [], ◌∷◌, arith, true, false, length,
  total, ◌==◌, keep_if, u32_mod, u64_mod, ◌%◌,
}
use compio_pool.Config.{PoolConfig, default}
use compio_pool.Manage.{ManageConnection}
use compio_pool.Metrics.{no_metrics, Statistics, average_wait_time}
use compio_pool.Conn.{Conn, Instant, expiry}
use compio_pool.Inner.{Inner}
use compio_pool.Local.{drop_pooled, drop_held, take, reap, clear, pop_fresh_idle}
use compio_pool.Local.Slots.{IsLocal}
use compio_pool.Local.Guards.{drop_pooled-idle}
use compio_pool.Local.Maintenance.{is_fresh, reap_lem}
use compio_pool.Futures.{get_dialing, get, cancel, opened}
use compio_pool.Futures.Accounts.{held_by, Settles, get-Settles}
use compio_pool.Futures.Endings.{cancel-IsLocal}
use compio_pool.Local.Closing.{IsDrained, closed-drains}
use compio_pool.Local.Counters.{aged, reap_counted}
use compio_pool.Local.Freshness.{first_fresh, pop_fresh_idle_lem}
use compio_pool.World.{Event, gets, resumes, returns, dialed, fresh_world, run}
use compio_pool.World.Slots.{run-slots}
use compio_pool.Metrics.Laws.{average_wait_time_truncated}

abbrev manager : ManageConnection ℕ
manager = record { has_broken = λ raw. (raw, raw == 0) }

abbrev small : PoolConfig
small = record default {
  max_size = 2;
  max_lifetime = some 100;
  idle_timeout = some 50;
  test_on_check_out = false;
}

abbrev conn : ℕ → Instant → Instant → Conn ℕ
conn raw created used = record { raw = raw; created_at = created; last_used = used }

-- One connection idle and one checked out; at time 60 the idle one has expired.
abbrev one_out : Inner ℕ
one_out = record {
  config = small;
  closed = false;
  idle = conn 7 0 5 ∷ [];
  slots = 2;
  waiters = record {
    metrics = record no_metrics { connections = 2; idle = 1 };
    next_id = 1;
    woken_upto = 0;
    entries = [];
    scheduled = [];
  };
}

one_out-IsLocal : IsLocal small false 1 1 one_out
one_out-IsLocal = ground arith

-- The same with both connections checked out, and one with a call that holds a slot.
abbrev both_out : Inner ℕ
both_out = record one_out {
  idle = [];
  waiters = record {
    metrics = record no_metrics { connections = 2 };
    next_id = 1;
    woken_upto = 0;
    entries = [];
    scheduled = [];
  };
}

both_out-IsLocal : IsLocal small false 1 2 both_out
both_out-IsLocal = ground arith

drop_pooled-idle_example :
    let back = conn 9 0 0 in
    ((one_out.closed ≡ false)
      × ((manager.has_broken 9).1 ≡ false)
      × (expiry back 40 small ≡ none)
      × ((drop_pooled manager one_out back 40 41).idle ≡ conn 9 0 41 ∷ one_out.idle))
    ⊎ ((((one_out.closed ≡ true) ⊎ ((manager.has_broken 9).1 ≡ true))
          ⊎ (expiry back 40 small ≢ none))
        × ((drop_pooled manager one_out back 40 41).idle ≡ one_out.idle))
drop_pooled-idle_example = drop_pooled-idle manager one_out (conn 9 0 0) 40 41

reap_lem_example :
    let (q, reaped) = reap one_out 60 in
    (IsLocal small false 1 1 q)
    × (q.idle ≡ keep_if (is_fresh small 60) one_out.idle)
    × (reaped + length q.idle ≡ 1)
    × (q.slots + reaped ≡ 2)
reap_lem_example = reap_lem one_out 60 one_out-IsLocal

get-Settles_example : Settles {E = ℕ} small false 2 2 (get both_out 5 20)
get-Settles_example = get-Settles 1 (omega arith) both_out 5 20 both_out-IsLocal

cancel-IsLocal_example : IsLocal small false 1 1 (cancel both_out (get_dialing 0 false))
cancel-IsLocal_example = cancel-IsLocal both_out (get_dialing 0 false) both_out-IsLocal

-- A call opens a connection, which is then returned; a second call takes it.
abbrev history : List (Instant × Event ℕ ℕ)
history =
    (10, gets 1) ∷ (20, resumes 0 1 (dialed (opened 7))) ∷ (30, returns 0 7 30) ∷ (40, gets 2) ∷ []

run-slots_example :
    let w = run manager (fresh_world small) history in
    (w.inner.slots ≡ length w.inner.idle + (total (λ c. held_by c.1) w.calls + length w.leased))
    × (w.inner.slots ≤ 2)
    × (w.inner.waiters.metrics.connections ≡ w.inner.slots)
    × (w.inner.waiters.metrics.idle ≡ length w.inner.idle)
run-slots_example = run-slots manager small history (omega arith) (omega arith)

abbrev waits : ℕ → Statistics
waits n = record {
  get_direct = 0;
  get_waited = n;
  get_timed_out = 0;
  connections_created = 0;
  connections_closed_broken = 0;
  connections_closed_idle_timeout = 0;
  connections_closed_max_lifetime = 0;
  connections_closed_manual = 0;
  total_wait_time = 7000;
}

average_wait_time_truncated_example : average_wait_time (waits (3 * u32_mod)) ≡ 0
average_wait_time_truncated_example = average_wait_time_truncated (waits (3 * u32_mod)) 3 refl

-- The pool is closed while two tasks are parked.
abbrev shut : Inner ℕ
shut = record both_out {
  closed = true;
  waiters = record both_out.waiters { next_id = 3; entries = (1, 6) ∷ (2, 8) ∷ [] };
}

closed-drains_example :
    IsDrained shut (drop_pooled manager shut (conn 9 0 0) 40 41)
    × IsDrained shut (drop_held shut)
    × IsDrained shut (take shut (conn 9 0 0)).0
    × IsDrained shut (clear shut).0
closed-drains_example = closed-drains manager shut (conn 9 0 0) 40 41 refl (omega arith)

-- The newest of three idle connections has expired at time 60.
abbrev three_idle : Inner ℕ
three_idle = record one_out { idle = conn 7 0 5 ∷ conn 8 0 20 ∷ conn 9 0 30 ∷ [] }

pop_fresh_idle_lem_example :
    let (q, found) = pop_fresh_idle three_idle 60 in
    (found, q.idle) ≡ first_fresh small 60 (conn 7 0 5 ∷ conn 8 0 20 ∷ conn 9 0 30 ∷ [])
pop_fresh_idle_lem_example = pop_fresh_idle_lem three_idle 60

reap_counted_example :
    let (q, reaped) = reap one_out 60 in
    let (r, cleared) = clear one_out in
    (aged q.waiters.metrics % u64_mod ≡ (aged one_out.waiters.metrics + reaped) % u64_mod)
    × (reaped + length q.idle ≡ 1)
    × (r.waiters.metrics.connections_closed_manual % u64_mod
        ≡ (one_out.waiters.metrics.connections_closed_manual + 1) % u64_mod)
reap_counted_example = reap_counted one_out 60 one_out-IsLocal
