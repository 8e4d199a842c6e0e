-- ===== src/Futures.antt =====
-- src/pool.rs, the asynchronous operations of `LocalPool`: `get`, `try_get`, `warm`, `maintain`.
--
-- A future is modelled by the point at which it is suspended. What runs between two suspensions is
-- one function of the pool, which ends in an `Outcome`. It reads the clock once, `now`. What the
-- manager's futures answer is an argument of the function that resumes after them.
pub mod Accounts
pub mod Attempts
pub mod Endings
pub mod Runs
pub mod Limits
pub mod Parking
pub mod Tickets
pub mod Wakes
pub mod Balance
pub mod Turns
pub mod Unqueued
use compio_pool.Prelude.{
  ℕ, zero, suc, ◌+◌, ◌-◌, ◌/◌, Bool, true, false, not, ◌&&◌, ◌||◌, Option, none, some, ltb,
  if◌then◌else◌, add_u32, add_u64,
}
use compio_pool.Manage.{RunError, user, timed_out, closed}
use compio_pool.Config.{Duration, from_millis}
use compio_pool.Conn.{Instant, Conn, duration_since}
use compio_pool.Inner.{Inner, on_metrics, idle_len, note_created, note_broken}
use compio_pool.Local.{record_acquire, try_reserve, pop_fresh_idle, reap, drop_held, into_idle}
use compio_pool.Wait.{WaitReady, wait_ready, poll}
use compio_pool.Wait

-- Where a call is suspended: in `get`, parked for a slot, validating an idle connection, opening
-- one, or pausing after a failure until an instant; in `try_get`; or in `warm`, with the number opened so far.
pub data Task (C : Type 0) : Type 0 where
  get_waiting : Instant → Bool → WaitReady → Task C
  get_validating : Instant → Bool → Conn C → Task C
  get_dialing : Instant → Bool → Task C
  get_sleeping : Instant → Bool → Instant → Task C
  try_validating : Conn C → Task C
  try_dialing : Task C
  warm_dialing : ℕ → Task C

-- What a run up to the next suspension ends in. `nothing` is `try_get`'s `Ok(None)`, `made` the
-- result of `warm`, and `spinning` a loop that has used up the rounds given to it.
pub data Outcome (C E : Type 0) : Type 0 where
  pending : Task C → Outcome C E
  got : Conn C → Outcome C E
  nothing : Outcome C E
  made : ℕ → Outcome C E
  failed : RunError E → Outcome C E
  spinning : Outcome C E

-- `CONNECT_RETRY_BACKOFF`.
abbrev pub connect_retry_backoff : Duration
connect_retry_backoff = from_millis 50

-- The rounds that a loop of `get_inner` is given between two suspensions.
abbrev pub loop_rounds : ℕ
loop_rounds = 1

-- What `connect` answers.
pub data Dialed (C E : Type 0) : Type 0 where
  opened : C → Dialed C E
  refused : E → Dialed C E

-- `start.elapsed().as_micros()`.
abbrev pub elapsed : Instant → Instant → ℕ
elapsed start now = duration_since now start / 1000

-- A connection opened at `now`.
abbrev pub fresh_conn : {C : Type 0} → C → Instant → Conn C
fresh_conn raw now = record { raw = raw; created_at = now; last_used = now }

module _ {C : Type 0} where
  -- A suspended call is dropped: what it holds is dropped with it.
  unfoldable pub cancel : Inner C → Task C → Inner C
  cancel p (get_waiting start waited wait) = Wait.drop p wait
  cancel p (get_validating start waited conn) = drop_held p
  cancel p (get_dialing start waited) = drop_held p
  cancel p (get_sleeping start waited until) = p
  cancel p (try_validating conn) = drop_held p
  cancel p try_dialing = drop_held p
  cancel p (warm_dialing n) = drop_held p

module _ {C E : Type 0} where
  -- `get_inner` after `pop_fresh_idle`: use the idle connection, or else open one if there is room,
  -- or else loop.
  unfoldable pub take_or_open :
      (Inner C → Inner C × Outcome C E)
      → Inner C × Option (Conn C)
      → Instant
      → Bool
      → Instant
      → Inner C × Outcome C E
  take_or_open again (q, some conn) start waited now =
      if q.config.test_on_check_out
      then (q, pending (get_validating start waited conn))
      else (record_acquire q waited (elapsed start now), got conn)
  take_or_open again (q, none) start waited now =
      let (r, reserved) = try_reserve q in
      if reserved then (r, pending (get_dialing start waited)) else again r

  -- `get_inner` after the wait.
  unfoldable pub after_wait :
      (Inner C → Inner C × Outcome C E) → Inner C → Instant → Bool → Instant → Inner C × Outcome C E
  after_wait again p start waited now =
      if p.closed
      then (p, failed closed)
      else take_or_open again (pop_fresh_idle p now) start waited now

  -- The loop of `get_inner`, from its head, for so many rounds without a suspension.
  unfoldable pub get_loop : ℕ → Inner C → Instant → Bool → ℕ → Instant → Inner C × Outcome C E
  get_loop zero p start waited waker now = (p, spinning)
  get_loop (suc rounds) p start waited waker now =
      let again = λ (r : Inner C). get_loop rounds r start waited waker now in
      if p.closed
      then (p, failed closed)
      else (let (q, wait, ready) = poll p wait_ready waker in
          if ready
          then after_wait again q start (waited || wait.parked) now
          else (q, pending (get_waiting start waited wait)))

  -- The part of `get` that `connection_timeout` bounds, `get_inner`, up to its first suspension.
  abbrev pub get_inner : Inner C → ℕ → Instant → Inner C × Outcome C E
  get_inner p waker now = get_loop loop_rounds p now false waker now

  -- The fast path of `get` after `pop_fresh_idle`, and the way on where it finds nothing.
  unfoldable pub take_fast : Inner C × Option (Conn C) → ℕ → Instant → Inner C × Outcome C E
  take_fast (q, some conn) waker now = (record_acquire q false 0, got conn)
  take_fast (q, none) waker now = get_inner q waker now

  -- `LocalPool::get` up to its first suspension.
  unfoldable pub get : Inner C → ℕ → Instant → Inner C × Outcome C E
  get p waker now =
      if p.closed
      then (p, failed closed)
      else if p.config.test_on_check_out
      then get_inner p waker now
      else take_fast (pop_fresh_idle p now) waker now

  -- A poll of a `get` that is parked for a slot.
  unfoldable pub resume_waiting :
      Inner C → Instant → Bool → WaitReady → ℕ → Instant → Inner C × Outcome C E
  resume_waiting p start waited wait waker now =
      let (q, wait', ready) = poll p wait waker in
      if ready
      then after_wait (λ r. get_loop loop_rounds r start (waited || wait'.parked) waker now) q start
          (waited || wait'.parked) now
      else (q, pending (get_waiting start waited wait'))

  -- `get_inner` when `is_valid` answers, with the connection that it leaves.
  unfoldable pub resume_validating :
      Inner C → Instant → Bool → Conn C → C → Bool → ℕ → Instant → Inner C × Outcome C E
  resume_validating p start waited conn raw valid waker now =
      if valid
      then (record_acquire p waited (elapsed start now), got (record conn { raw = raw }))
      else get_loop loop_rounds (drop_held (note_broken p)) start waited waker now

  -- `get_inner` when `connect` answers.
  unfoldable pub resume_dialing :
      Inner C → Instant → Bool → Dialed C E → Instant → Inner C × Outcome C E
  resume_dialing p start waited (opened raw) now =
      (record_acquire (note_created p) waited (elapsed start now), got (fresh_conn raw now))
  resume_dialing p start waited (refused e) now =
      if p.config.retry_connection && not p.closed
      then (drop_held p, pending (get_sleeping start waited (now + connect_retry_backoff)))
      else (drop_held p, failed (user e))

  -- The loop of `try_get` after `pop_fresh_idle`.
  unfoldable pub try_take : Inner C × Option (Conn C) → Inner C × Outcome C E
  try_take (q, some conn) =
      if q.config.test_on_check_out
      then (q, pending (try_validating conn))
      else (record_acquire q false 0, got conn)
  try_take (q, none) =
      let (r, reserved) = try_reserve q in
      if reserved then (r, pending try_dialing) else (r, nothing)

  -- The loop of `try_get`, from its head.
  unfoldable pub try_next : Inner C → Instant → Inner C × Outcome C E
  try_next p now = try_take (pop_fresh_idle p now)

  -- `LocalPool::try_get` up to its first suspension.
  unfoldable pub try_get : Inner C → Instant → Inner C × Outcome C E
  try_get p now = if p.closed then (p, failed closed) else try_next p now

  -- `try_get` when `is_valid` answers.
  unfoldable pub resume_try_validating :
      Inner C → Conn C → C → Bool → Instant → Inner C × Outcome C E
  resume_try_validating p conn raw valid now =
      if valid
      then (record_acquire p false 0, got (record conn { raw = raw }))
      else try_next (drop_held (note_broken p)) now

  -- `try_get` when `connect` answers.
  unfoldable pub resume_try_dialing : Inner C → Dialed C E → Instant → Inner C × Outcome C E
  resume_try_dialing p (opened raw) now =
      (record_acquire (note_created p) false 0, got (fresh_conn raw now))
  resume_try_dialing p (refused e) now = (drop_held p, failed (user e))

  -- The loop of `warm`, from its head, with `n` connections opened.
  unfoldable pub warm_next : Inner C → ℕ → Inner C × Outcome C E
  warm_next p n =
      if ltb (idle_len p) p.config.min_idle
      then (let (q, reserved) = try_reserve p in
          if reserved then (q, pending (warm_dialing n)) else (q, made n))
      else (p, made n)

  -- `LocalPool::warm` up to its first suspension.
  unfoldable pub warm : Inner C → Inner C × Outcome C E
  warm p = if p.closed then (p, made 0) else warm_next p 0

  -- `warm` when `connect` answers.
  unfoldable pub resume_warm : Inner C → ℕ → Dialed C E → Instant → Inner C × Outcome C E
  resume_warm p n (opened raw) now =
      warm_next (into_idle (note_created p) (fresh_conn raw now) now) (add_u32 n 1)
  resume_warm p n (refused e) now = (drop_held p, failed (user e))

  -- `LocalPool::maintain` up to its first suspension.
  unfoldable pub maintain : Inner C → Instant → Inner C × Outcome C E
  maintain p now = warm (reap p now).0

  -- `connection_timeout` runs out on a suspended call; it bounds `get` and each dial of `warm`.
  unfoldable pub time_out : Inner C → Task C → Inner C × Outcome C E
  unfolding cancel on_metrics
  time_out p (try_validating conn) = (p, pending (try_validating conn))
  time_out p try_dialing = (p, pending try_dialing)
  time_out p (warm_dialing n) = (cancel p (warm_dialing n), failed timed_out)
  time_out p task = (
    on_metrics (λ m. record m { get_timed_out = add_u64 m.get_timed_out 1 }) (cancel p task),
    failed timed_out,
  )
