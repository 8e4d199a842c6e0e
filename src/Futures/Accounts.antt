-- ===== src/Futures/Accounts.antt =====
-- Every run of `get` keeps the accounts, whatever it ends in, and none spins.
use compio_pool.Prelude.{
  ℕ, suc, ◌+◌, ◌<◌, ◌≡◌, ◌≢◌, refl, ap, ◌⊎◌, inl, inr, Bool, true, false, ◌||◌, ◌&&◌, not,
  Bool-cases, Option, none, some, length, arith, u64_mod, if◌then◌else◌,
}
use compio_pool.Config.{PoolConfig}
use compio_pool.Manage.{closed}
use compio_pool.Conn.{Instant, Conn}
use compio_pool.Inner.{Inner}
use compio_pool.Local.{record_acquire, try_reserve, pop_fresh_idle}
use compio_pool.Local.Slots.{
  IsLocal, Popped, pop_fresh_idle-Popped, try_reserve-IsLocal, record_acquire-IsLocal,
  note_broken-IsLocal, note_created-IsLocal,
}
use compio_pool.Local.Guards.{drop_held-IsLocal}
use compio_pool.Wait.{WaitReady, wait_ready, poll}
use compio_pool.Wait.Laws.{poll-IsLocal, poll_ready}
use compio_pool.Futures.{
  Task, get_waiting, get_validating, get_dialing, get_sleeping, try_validating, try_dialing,
  warm_dialing, Outcome, pending, got, nothing, made, failed, spinning, Dialed, opened, refused,
  loop_rounds, elapsed, take_or_open, take_fast, after_wait, get_loop, get, resume_waiting,
  resume_validating, resume_dialing,
}

-- The guards that a suspended call holds.
abbrev pub held_by : {C : Type 0} → Task C → ℕ
held_by (get_waiting start waited wait) = 0
held_by (get_validating start waited conn) = 1
held_by (get_dialing start waited) = 1
held_by (get_sleeping start waited until) = 0
held_by (try_validating conn) = 1
held_by try_dialing = 1
held_by (warm_dialing n) = 1

-- The guards that come out of a run: those of the suspended call, or the one of the connection that
-- is handed to the caller.
abbrev pub held_after : {C E : Type 0} → Outcome C E → ℕ
held_after (pending task) = held_by task
held_after (got conn) = 1
held_after nothing = 0
held_after (made n) = 0
held_after (failed e) = 0
held_after spinning = 0

-- A run ends in something other than a loop without suspension, and the accounts hold with the
-- guards that come out of it.
abbrev pub Settles : {C E : Type 0} → PoolConfig → Bool → ℕ → ℕ → Inner C × Outcome C E → Type 0
Settles cfg cl ids h (p, o) = (o ≢ spinning) × IsLocal cfg cl ids (h + held_after o) p

module _ {C : Type 0} {cfg : PoolConfig} {cl : Bool} {ids : ℕ} where
  pub recount : {h k : ℕ} (p : Inner C) → h ≡ k → IsLocal cfg cl ids h p → IsLocal cfg cl ids k p
  recount p e v = rw (← e) v

  pub weaken : {h : ℕ} (p : Inner C) → IsLocal cfg cl ids h p → IsLocal cfg cl (ids + 1) h p
  weaken p v = ground arith

module _ {C E : Type 0} {cfg : PoolConfig} {cl : Bool} {ids : ℕ} where
  -- A run that ends with no guard, or with one.
  pub settle_none :
      {h : ℕ} (p : Inner C) (o : Outcome C E)
      → o ≢ spinning
      → held_after o ≡ 0
      → IsLocal cfg cl ids h p
      → Settles cfg cl ids h (p, o)
  settle_none {h} p o n e v = (n, recount {h = h} {k = h + held_after o} p (omega arith) v)

  pub settle_one :
      {h : ℕ} (p : Inner C) (o : Outcome C E)
      → o ≢ spinning
      → held_after o ≡ 1
      → IsLocal cfg cl ids (suc h) p
      → Settles cfg cl ids h (p, o)
  settle_one {h} p o n e v = (n, recount {h = suc h} {k = h + held_after o} p (omega arith) v)

  -- An idle connection was found, and is validated or handed out.
  pub found_lem :
      {h : ℕ} (q : Inner C) (waited : Bool) (t : ℕ) (task : Task C) (conn : Conn C)
      → held_by task ≡ 1
      → IsLocal cfg cl ids (suc h) q
      → Settles {E = E} cfg cl ids h (
          if q.config.test_on_check_out
          then (q, pending task)
          else (record_acquire q waited t, got conn))
  found_lem q waited t task conn e v = elim (Bool-cases q.config.test_on_check_out) [
    | inl test ↦ simp test (settle_one q (pending task) (λ x. cc) e v)
    | inr trust ↦
        simp trust (settle_one _ (got conn) (λ x. cc) refl (record_acquire-IsLocal q waited t v))
  ]

  reserved_lem :
      {h : ℕ} (q : Inner C) (task : Task C) (else' : Inner C × Outcome C E)
      → held_by task ≡ 1
      → IsLocal cfg cl ids h q
      → ((q.slots ≡ cfg.max_size) → Settles cfg cl ids h else')
      → Settles cfg cl ids h
          (if (try_reserve q).1 then ((try_reserve q).0, pending task) else else')
  reserved_lem q task else' e v f = elim (try_reserve-IsLocal q v) [
    | inl (room, yes', w) ↦ rw yes' (settle_one _ (pending task) (λ x. cc) e w)
    | inr (full, same) ↦ rw same (f full)
  ]

  take_or_open_lem :
      {h : ℕ} (again : Inner C → Inner C × Outcome C E) (r : Inner C × Option (Conn C))
      (start : Instant) (waited : Bool) (now : Instant)
      → h < cfg.max_size
      → Popped cfg cl ids h now r
      → Settles cfg cl ids h (take_or_open again r start waited now)
  unfolding take_or_open
  take_or_open_lem again (q, some conn) start waited now l (x, v) =
      found_lem q waited (elapsed start now) (get_validating start waited conn) conn refl v
  take_or_open_lem again (q, none) start waited now l (x, v) =
      reserved_lem q (get_dialing start waited) (again (try_reserve q).0) refl v
        (λ full. absurd (omega (arith, ap length x, v.shared_out)))

  after_wait_lem :
      {h : ℕ} (again : Inner C → Inner C × Outcome C E) (p : Inner C) (start : Instant)
      (waited : Bool) (now : Instant)
      → (cl ≡ true) ⊎ (h < cfg.max_size)
      → IsLocal cfg cl ids h p
      → Settles cfg cl ids h (after_wait again p start waited now)
  unfolding after_wait
  after_wait_lem again p start waited now room v = elim (Bool-cases p.closed) [
    | inl shut ↦ simp shut (settle_none p (failed closed) (λ x. cc) refl v)
    | inr not_shut ↦ simp not_shut (
        take_or_open_lem again (pop_fresh_idle p now) start waited now (ground (arith, v.flagged))
          (pop_fresh_idle-Popped p now v))
  ]

module _ {C E : Type 0} {cfg : PoolConfig} {cl : Bool} (ids : ℕ) (few : ids + 1 < u64_mod) where
  after_poll_lem :
      {h : ℕ} (again : Inner C → Inner C × Outcome C E) (p : Inner C) (wait : WaitReady) (waker : ℕ)
      (start : Instant) (waited : Bool) (now : Instant) (task : Task C)
      → held_by task ≡ 0
      → IsLocal cfg cl ids h p
      → let (q, wait', ready) = poll p wait waker in
        Settles cfg cl
          (ids + 1)
          h
          (if ready then after_wait again q start waited now else (q, pending task))
  after_poll_lem again p wait waker start waited now task e v =
      elim (Bool-cases (poll p wait waker).2) [
        | inl ready ↦ rw ready (
            after_wait_lem again _ start waited now (poll_ready p wait waker ready v)
              (poll-IsLocal p wait waker few v))
        | inr full ↦
            rw full (settle_none _ (pending task) (λ x. cc) e (poll-IsLocal p wait waker few v))
      ]

  -- One round is enough for the loop of `get_inner`: it suspends, or it ends.
  get_loop_lem :
      {h : ℕ} (rounds : ℕ) (p : Inner C) (start : Instant) (waited : Bool) (waker : ℕ)
      (now : Instant)
      → IsLocal cfg cl ids h p
      → Settles {E = E} cfg cl (ids + 1) h (get_loop (suc rounds) p start waited waker now)
  unfolding get_loop
  get_loop_lem rounds p start waited waker now v = elim (Bool-cases p.closed) [
    | inl shut ↦ simp shut (settle_none p (failed closed) (λ x. cc) refl (weaken p v))
    | inr not_shut ↦ simp not_shut (
        after_poll_lem (λ r. get_loop rounds r start waited waker now) p wait_ready waker start
          (waited || (poll p wait_ready waker).1.parked) now
          (get_waiting start waited (poll p wait_ready waker).1) refl v)
  ]

  take_fast_lem :
      (h : ℕ) (r : Inner C × Option (Conn C)) (waker : ℕ) (now : Instant)
      → Popped cfg cl ids h now r
      → Settles {E = E} cfg cl (ids + 1) h (take_fast r waker now)
  unfolding take_fast
  take_fast_lem h (q, some conn) waker now (e, v) =
      settle_one _ (got conn) (λ x. cc) refl (record_acquire-IsLocal _ false 0 (weaken q v))
  take_fast_lem h (q, none) waker now (e, v) = get_loop_lem 0 q now false waker now v

  -- On a pool whose accounts hold, while waiter ids last, `get` runs up to its first suspension
  -- without spinning, and accounts for every slot that it takes or frees on the way.
  pub get-Settles :
      {h : ℕ} (p : Inner C) (waker : ℕ) (now : Instant)
      → IsLocal cfg cl ids h p
      → Settles {E = E} cfg cl (ids + 1) h (get p waker now)
  unfolding get
  get-Settles {h} p waker now v = elim (Bool-cases p.closed) [
    | inl shut ↦ simp shut (settle_none p (failed closed) (λ x. cc) refl (weaken p v))
    | inr not_shut ↦ elim (Bool-cases p.config.test_on_check_out) [
      | inl test ↦ simp (not_shut, test) (get_loop_lem 0 p now false waker now v)
      | inr trust ↦
          simp (not_shut, trust)
            (take_fast_lem h (pop_fresh_idle p now) waker now (pop_fresh_idle-Popped p now v))
    ]
  ]

  pub resume_waiting-Settles :
      {h : ℕ} (p : Inner C) (start : Instant) (waited : Bool) (wait : WaitReady) (waker : ℕ)
      (now : Instant)
      → IsLocal cfg cl ids h p
      → Settles {E = E} cfg cl (ids + 1) h (resume_waiting p start waited wait waker now)
  unfolding resume_waiting
  resume_waiting-Settles p start waited wait waker now v =
      let waited' = waited || (poll p wait waker).1.parked in
      after_poll_lem (λ r. get_loop loop_rounds r start waited' waker now) p wait waker start
        waited' now (get_waiting start waited (poll p wait waker).1) refl v

  pub resume_validating-Settles :
      {h : ℕ} (p : Inner C) (start : Instant) (waited : Bool) (conn : Conn C) (raw : C)
      (valid : Bool) (waker : ℕ) (now : Instant)
      → IsLocal cfg cl ids (suc h) p
      → Settles {E = E} cfg cl
          (ids + 1)
          h
          (resume_validating p start waited conn raw valid waker now)
  unfolding resume_validating
  resume_validating-Settles p start waited conn raw true waker now v =
      settle_one _ (got _) (λ x. cc) refl (record_acquire-IsLocal p waited _ (weaken p v))
  resume_validating-Settles p start waited conn raw false waker now v =
      get_loop_lem 0 _ start waited waker now (drop_held-IsLocal _ (note_broken-IsLocal p v))

  pub resume_sleeping-Settles :
      {h : ℕ} (p : Inner C) (start : Instant) (waited : Bool) (waker : ℕ) (now : Instant)
      → IsLocal cfg cl ids h p
      → Settles {E = E} cfg cl (ids + 1) h (get_loop loop_rounds p start waited waker now)
  resume_sleeping-Settles p start waited waker now v = get_loop_lem 0 p start waited waker now v

module _ {C E : Type 0} {cfg : PoolConfig} {cl : Bool} {ids : ℕ} where
  pub resume_dialing-Settles :
      {h : ℕ} (p : Inner C) (start : Instant) (waited : Bool) (answer : Dialed C E) (now : Instant)
      → IsLocal cfg cl ids (suc h) p
      → Settles cfg cl ids h (resume_dialing p start waited answer now)
  unfolding resume_dialing
  resume_dialing-Settles p start waited (opened raw) now v =
      settle_one _ (got _) (λ x. cc) refl
        (record_acquire-IsLocal _ waited _ (note_created-IsLocal p v))
  resume_dialing-Settles p start waited (refused e) now v =
      elim (Bool-cases (p.config.retry_connection && not p.closed)) [
        | inl again ↦ simp again (settle_none _ (pending _) (λ x. cc) refl (drop_held-IsLocal p v))
        | inr stop ↦ simp stop (settle_none _ (failed _) (λ x. cc) refl (drop_held-IsLocal p v))
      ]
