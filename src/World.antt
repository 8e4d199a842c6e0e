-- ===== src/World.antt =====
-- One thread's pool with everything that uses it: the calls that are suspended, each with the waker
-- of its task, and the connections that are checked out. An event is what the executor, the
-- manager's futures, the timers and the application may do next; one that does not apply is ignored.
--
-- The events between two suspensions of one call are not interrupted by another call of the thread.
-- `close` may come from any thread: it is taken to fall between two events.
pub mod Slots
pub mod Wakes
pub mod Fairness
pub mod Progress
use compio_pool.Prelude.{
  ℕ, Bool, true, false, Option, none, some, List, [], ◌∷◌, get_elem?, remove_at, leb, if◌then◌else◌,
}
use compio_pool.Config.{PoolConfig}
use compio_pool.Manage.{ManageConnection}
use compio_pool.Conn.{Instant, Conn}
use compio_pool.Inner.{Inner}
use compio_pool.Inner
use compio_pool.Local.{drop_pooled, take, reap, clear}
use compio_pool.Futures.{
  Task, get_waiting, get_validating, get_dialing, get_sleeping, try_validating, try_dialing,
  warm_dialing, Outcome, pending, got, nothing, made, failed, spinning, Dialed, loop_rounds,
  get_loop, get, resume_waiting, resume_validating, resume_dialing, try_get, resume_try_validating,
  resume_try_dialing, warm, resume_warm, maintain, cancel, time_out,
}

pub record World (C : Type 0) : Type 0 where
  pub inner : Inner C
  pub calls : List (ℕ × Task C)
  pub leased : List (Conn C)

-- Why a suspended call runs again: its waker was called, `is_valid` or `connect` has answered, its
-- pause is over, or `connection_timeout` has run out.
pub data Answer (C E : Type 0) : Type 0 where
  woken : Answer C E
  validated : C → Bool → Answer C E
  dialed : Dialed C E → Answer C E
  slept : Answer C E
  overdue : Answer C E

-- What happens next. A number picks a suspended call or a connection that is checked out. A call
-- starts, and runs again, in a poll by a task whose waker is given: a call may move between tasks. A
-- connection comes back as its user leaves it.
pub data Event (C E : Type 0) : Type 0 where
  gets : ℕ → Event C E
  tries : ℕ → Event C E
  warms : ℕ → Event C E
  maintains : ℕ → Event C E
  resumes : ℕ → ℕ → Answer C E → Event C E
  cancels : ℕ → Event C E
  returns : ℕ → C → Instant → Event C E
  takes : ℕ → Event C E
  reaps : Event C E
  clears : Event C E
  closes : Event C E

-- A new thread's pool, which nobody uses yet.
abbrev pub fresh_world : {C : Type 0} → PoolConfig → World C
fresh_world cfg = record { inner = Inner.new cfg false; calls = []; leased = [] }

module _ {C : Type 0} where
  -- `Pool::close`, as the thread sees it.
  unfoldable pub close : Inner C → Inner C
  close p = record p { closed = true }

  unfoldable pub cancel_at : World C → ℕ → World C
  cancel_at w k = elim (get_elem? w.calls k) [
    | none ↦ w
    | some (waker, task) ↦ record w { inner = cancel w.inner task; calls = remove_at w.calls k }
  ]

  unfoldable pub return_at : ManageConnection C → World C → ℕ → C → Instant → Instant → World C
  return_at m w k raw now later = elim (get_elem? w.leased k) [
    | none ↦ w
    | some conn ↦ record w {
      inner = drop_pooled m w.inner (record conn { raw = raw }) now later;
      leased = remove_at w.leased k;
    }
  ]

  unfoldable pub take_at : World C → ℕ → World C
  take_at w k = elim (get_elem? w.leased k) [
    | none ↦ w
    | some conn ↦ record w { inner = (take w.inner conn).0; leased = remove_at w.leased k }
  ]

module _ {C E : Type 0} where
  -- The run of a suspended call, for each reason that it may have.
  unfoldable pub resume :
      Inner C → ℕ → Task C → Answer C E → Instant → Option (Inner C × Outcome C E)
  resume p waker task overdue now = some (time_out p task)
  resume p waker (get_waiting start waited wait) woken now =
      some (resume_waiting p start waited wait waker now)
  resume p waker (get_validating start waited conn) (validated raw valid) now =
      some (resume_validating p start waited conn raw valid waker now)
  resume p waker (get_dialing start waited) (dialed answer) now =
      some (resume_dialing p start waited answer now)
  resume p waker (get_sleeping start waited until) slept now =
      if leb until now then some (get_loop loop_rounds p start waited waker now) else none
  resume p waker (try_validating conn) (validated raw valid) now =
      some (resume_try_validating p conn raw valid now)
  resume p waker try_dialing (dialed answer) now = some (resume_try_dialing p answer now)
  resume p waker (warm_dialing n) (dialed answer) now = some (resume_warm p n answer now)
  resume p waker _ _ now = none

  -- The world after a run of the call of `waker`.
  unfoldable pub commit : World C → ℕ → Inner C × Outcome C E → World C
  commit w waker (p, pending task) = record w { inner = p; calls = (waker, task) ∷ w.calls }
  commit w waker (p, got conn) = record w { inner = p; leased = conn ∷ w.leased }
  commit w waker (p, nothing) = record w { inner = p }
  commit w waker (p, made n) = record w { inner = p }
  commit w waker (p, failed e) = record w { inner = p }
  commit w waker (p, spinning) = record w { inner = p }

  unfoldable pub resume_at : World C → ℕ → ℕ → Answer C E → Instant → World C
  resume_at w k waker answer now = elim (get_elem? w.calls k) [
    | none ↦ w
    | some (old, task) ↦ elim (resume w.inner waker task answer now) [
      | none ↦ w
      | some r ↦ commit (record w { calls = remove_at w.calls k }) waker r
    ]
  ]

  -- One event at the instant `now`.
  unfoldable pub step : ManageConnection C → World C → Instant → Event C E → World C
  step m w now (gets waker) = commit w waker (get w.inner waker now)
  step m w now (tries waker) = commit w waker (try_get w.inner now)
  step m w now (warms waker) = commit w waker (warm w.inner)
  step m w now (maintains waker) = commit w waker (maintain w.inner now)
  step m w now (resumes k waker answer) = resume_at w k waker answer now
  step m w now (cancels k) = cancel_at w k
  step m w now (returns k raw later) = return_at m w k raw now later
  step m w now (takes k) = take_at w k
  step m w now reaps = record w { inner = (reap w.inner now).0 }
  step m w now clears = record w { inner = (clear w.inner).0 }
  step m w now closes = record w { inner = close w.inner }

  -- A history of events, each with its instant.
  unfoldable pub run : ManageConnection C → World C → List (Instant × Event C E) → World C
  run m w [] = w
  run m w ((now, e) ∷ es) = run m (step m w now e) es
