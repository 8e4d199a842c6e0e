-- ===== src/World/Slots.antt =====
-- In every history of one thread's pool the slots are those of the idle connections, of the
-- connections checked out and of the calls that hold one, and never more than `max_size`.
use compio_pool.Prelude.{
  ℕ, suc, ◌+◌, ◌≤◌, ◌<◌, ◌≡◌, sym, inl, inr, Bool, false, Bool-cases, Option-cases, some, List, [],
  ◌∷◌, length, arith, u32_mod, u64_mod, leb, total, total-remove_at, length-remove_at, remove_at,
  get_elem?,
}
use mathlib.Core.Path.{subst}
use mathlib.Core.Option.{some-injective}
use compio_pool.Config.{PoolConfig}
use compio_pool.Manage.{ManageConnection}
use compio_pool.Conn.{Instant, Conn}
use compio_pool.Inner.{Inner}
use compio_pool.Inner
use compio_pool.Local.Slots.{IsLocal, new-IsLocal}
use compio_pool.Local.Guards.{drop_pooled-IsLocal, take-IsLocal}
use compio_pool.Local.Maintenance.{reap_lem, clear_lem}
use compio_pool.Futures.{
  Task, get_waiting, get_validating, get_dialing, get_sleeping, try_validating, try_dialing,
  warm_dialing, Outcome, pending, got, nothing, made, failed, spinning,
}
use compio_pool.Futures.Accounts.{
  held_by, Settles, get-Settles, resume_waiting-Settles, resume_validating-Settles,
  resume_sleeping-Settles, resume_dialing-Settles, weaken, recount,
}
use compio_pool.Futures.Attempts.{
  try_get-Settles, resume_try_validating-Settles, resume_try_dialing-Settles, warm-Settles,
  resume_warm-Settles, maintain-Settles,
}
use compio_pool.Futures.Endings.{cancel-IsLocal, time_out-Settles}
use compio_pool.World.{
  World, Answer, woken, validated, dialed, slept, overdue, Event, gets, tries, warms, maintains,
  resumes, cancels, returns, takes, reaps, clears, closes, fresh_world, resume, commit, resume_at,
  cancel_at, return_at, take_at, close, step, run,
}

-- The slots held outside the idle list.
abbrev pub held : {C : Type 0} → World C → ℕ
held w = total (λ c. held_by c.1) w.calls + length w.leased

abbrev pub IsWorld : {C : Type 0} → PoolConfig → ℕ → World C → Type 0
IsWorld cfg ids w = IsLocal cfg w.inner.closed ids (held w) w.inner

module _ {C E : Type 0} {cfg : PoolConfig} where
  -- The accounts of a run become those of the world.
  commit-IsWorld :
      (cl : Bool) (ids : ℕ) (w : World C) (waker : ℕ) (r : Inner C × Outcome C E)
      → Settles cfg cl ids (held w) r
      → IsWorld cfg ids (commit w waker r)
  unfolding commit
  commit-IsWorld cl ids w waker (p, pending task) (n, v) = ground arith
  commit-IsWorld cl ids w waker (p, got conn) (n, v) = ground arith
  commit-IsWorld cl ids w waker (p, nothing) (n, v) = ground arith
  commit-IsWorld cl ids w waker (p, made k) (n, v) = ground arith
  commit-IsWorld cl ids w waker (p, failed e) (n, v) = ground arith
  commit-IsWorld cl ids w waker (p, spinning) (n, v) = ground arith

  pub weaken-Settles :
      (cl : Bool) (ids h : ℕ) (r : Inner C × Outcome C E)
      → Settles cfg cl ids h r
      → Settles cfg cl (ids + 1) h r
  weaken-Settles cl ids h (p, o) (n, v) = (n, weaken p v)

  settled :
      (cl : Bool) (ids h : ℕ) {q r : Inner C × Outcome C E}
      → some q ≡ some r
      → Settles cfg cl ids h q
      → Settles cfg cl ids h r
  settled cl ids h e s = subst (Settles cfg cl ids h) (some-injective _ _ e) s

  -- Whatever makes a suspended call run again, its run settles.
  pub resume-Settles :
      (cl : Bool) (ids h : ℕ) (p : Inner C) (waker : ℕ) (task : Task C) (answer : Answer C E)
      (now : Instant) (r : Inner C × Outcome C E)
      → ids + 1 < u64_mod
      → resume p waker task answer now ≡ some r
      → IsLocal cfg cl ids (held_by task + h) p
      → Settles cfg cl (ids + 1) h r
  unfolding resume
  resume-Settles cl ids h p waker task overdue now r few e v =
      settled cl (ids + 1) h e (weaken-Settles cl ids h _ (time_out-Settles h p task v))
  resume-Settles cl ids h p waker (get_waiting start waited wait) woken now r few e v =
      settled cl (ids + 1) h e
        (resume_waiting-Settles ids few p start waited wait waker now (recount p (omega arith) v))
  resume-Settles cl ids h p waker (get_validating start waited conn) (validated raw ok) now r few e
        v =
      settled cl (ids + 1) h e (
        resume_validating-Settles ids few p start waited conn raw ok waker now
          (recount p (omega arith) v))
  resume-Settles cl ids h p waker (get_dialing start waited) (dialed answer) now r few e v =
      settled cl (ids + 1) h e (
        weaken-Settles cl ids h _
          (resume_dialing-Settles p start waited answer now (recount p (omega arith) v)))
  resume-Settles cl ids h p waker (get_sleeping start waited until) slept now r few e v =
      elim (Bool-cases (leb until now)) [
        | inl due ↦
            settled cl (ids + 1) h (simp due at e)
              (resume_sleeping-Settles ids few p start waited waker now (recount p (omega arith) v))
        | inr early ↦ cc (simp early at e)
      ]
  resume-Settles cl ids h p waker (try_validating conn) (validated raw ok) now r few e v =
      settled cl (ids + 1) h e (
        weaken-Settles cl ids h _
          (resume_try_validating-Settles p conn raw ok now (recount p (omega arith) v)))
  resume-Settles cl ids h p waker try_dialing (dialed answer) now r few e v =
      settled cl (ids + 1) h e (
        weaken-Settles cl ids h _
          (resume_try_dialing-Settles p answer now (recount p (omega arith) v)))
  resume-Settles cl ids h p waker (warm_dialing n) (dialed answer) now r few e v =
      settled cl (ids + 1) h e
        (weaken-Settles cl ids h _ (resume_warm-Settles p n answer now (recount p (omega arith) v)))
  resume-Settles cl ids h p waker _ _ now r few e v = cc

  resume_at-IsWorld :
      {ids : ℕ} (w : World C) (k waker : ℕ) (answer : Answer C E) (now : Instant)
      → ids + 1 < u64_mod
      → IsWorld cfg ids w
      → IsWorld cfg (ids + 1) (resume_at w k waker answer now)
  unfolding resume_at
  resume_at-IsWorld {ids} w k waker answer now few v = elim (Option-cases (get_elem? w.calls k)) [
    | inl none' ↦ rw (none', resume_at) (weaken w.inner v)
    | inr ((old, task), e) ↦
        let w' = record w { calls = remove_at w.calls k } in
        let split : held_by task + held w' ≡ held w =
          omega (arith, total-remove_at (λ (c : ℕ × Task C). held_by c.1) w.calls k e) in
        elim (Option-cases (resume w.inner waker task answer now)) [
          | inl idle ↦ rw (e, idle, resume_at) (weaken w.inner v)
          | inr (r, f) ↦
              rw (e, f, resume_at)
                (commit-IsWorld w.inner.closed (ids + 1) w' waker r (
                  resume-Settles w.inner.closed ids (held w') w.inner waker task answer now r few f
                    (recount w.inner (sym split) v)))
        ]
  ]

module _ {C : Type 0} where
  pub split_calls :
      (w : World C) (k waker : ℕ) (task : Task C)
      → get_elem? w.calls k ≡ some (waker, task)
      → held w ≡ held_by task + (total (λ c. held_by c.1) (remove_at w.calls k) + length w.leased)
  split_calls w k waker task e =
      omega (arith, total-remove_at (λ (c : ℕ × Task C). held_by c.1) w.calls k e)

  pub split_leased :
      (w : World C) (k : ℕ) (conn : Conn C)
      → get_elem? w.leased k ≡ some conn
      → held w ≡ suc (total (λ c. held_by c.1) w.calls + length (remove_at w.leased k))
  split_leased w k conn e = omega (arith, length-remove_at w.leased k e)

module _ {C : Type 0} {cfg : PoolConfig} where
  own :
      {cl : Bool} {ids h : ℕ} (p : Inner C) → IsLocal cfg cl ids h p → IsLocal cfg p.closed ids h p
  own p v = ground arith

  cancel_at-IsWorld :
      {ids : ℕ} (w : World C) (k : ℕ) → IsWorld cfg ids w → IsWorld cfg ids (cancel_at w k)
  unfolding cancel_at
  cancel_at-IsWorld w k v = elim (Option-cases (get_elem? w.calls k)) [
    | inl none' ↦ rw (none', cancel_at) v
    | inr ((waker, task), e) ↦
        rw (e, cancel_at)
          (own _ (cancel-IsLocal w.inner task (recount w.inner (split_calls w k waker task e) v)))
  ]

  return_at-IsWorld :
      {ids : ℕ} (m : ManageConnection C) (w : World C) (k : ℕ) (raw : C) (now later : Instant)
      → IsWorld cfg ids w
      → IsWorld cfg ids (return_at m w k raw now later)
  unfolding return_at
  return_at-IsWorld m w k raw now later v = elim (Option-cases (get_elem? w.leased k)) [
    | inl none' ↦ rw (none', return_at) v
    | inr (conn, e) ↦
        rw (e, return_at)
          (own _ (
            drop_pooled-IsLocal m w.inner _ now later
              (recount w.inner (split_leased w k conn e) v)))
  ]

  take_at-IsWorld :
      {ids : ℕ} (w : World C) (k : ℕ) → IsWorld cfg ids w → IsWorld cfg ids (take_at w k)
  unfolding take_at
  take_at-IsWorld w k v = elim (Option-cases (get_elem? w.leased k)) [
    | inl none' ↦ rw (none', take_at) v
    | inr (conn, e) ↦
        rw (e, take_at)
          (own _ (take-IsLocal w.inner conn (recount w.inner (split_leased w k conn e) v)))
  ]

module _ {C E : Type 0} {cfg : PoolConfig} where
  -- Every event keeps the accounts of a thread: its slots are those of the idle connections, the
  -- connections checked out and the suspended calls that hold one, within `max_size`, with true
  -- gauges and a sorted waiter queue. It gives out at most one waiter id, which must fit a `u64`.
  pub step-IsWorld :
      {ids : ℕ} (m : ManageConnection C) (w : World C) (now : Instant) (e : Event C E)
      → ids + 1 < u64_mod
      → IsWorld cfg ids w
      → IsWorld cfg (ids + 1) (step m w now e)
  unfolding step
  step-IsWorld {ids} m w now (gets waker) few v =
      commit-IsWorld w.inner.closed (ids + 1) w waker _
        (get-Settles {E = E} ids few w.inner waker now v)
  step-IsWorld {ids} m w now (tries waker) few v =
      commit-IsWorld w.inner.closed (ids + 1) w waker _
        (weaken-Settles w.inner.closed ids (held w) _ (try_get-Settles {E = E} w.inner now v))
  step-IsWorld {ids} m w now (warms waker) few v =
      commit-IsWorld w.inner.closed (ids + 1) w waker _
        (weaken-Settles w.inner.closed ids (held w) _ (warm-Settles {E = E} w.inner v))
  step-IsWorld {ids} m w now (maintains waker) few v =
      commit-IsWorld w.inner.closed (ids + 1) w waker _
        (weaken-Settles w.inner.closed ids (held w) _ (maintain-Settles {E = E} w.inner now v))
  step-IsWorld m w now (resumes k waker answer) few v = resume_at-IsWorld w k waker answer now few v
  step-IsWorld m w now (cancels k) few v = weaken _ (cancel_at-IsWorld w k v)
  step-IsWorld m w now (returns k raw later) few v =
      weaken _ (return_at-IsWorld m w k raw now later v)
  step-IsWorld m w now (takes k) few v = weaken _ (take_at-IsWorld w k v)
  step-IsWorld m w now reaps few v = weaken _ (own _ (reap_lem w.inner now v).0)
  step-IsWorld m w now clears few v = weaken _ (own _ (clear_lem w.inner v).0)
  step-IsWorld m w now closes few v = unfold close in ground arith

  pub run-IsWorld :
      {ids : ℕ} (m : ManageConnection C) (w : World C) (es : List (Instant × Event C E))
      → ids + length es < u64_mod
      → IsWorld cfg ids w
      → IsWorld cfg (ids + length es) (run m w es)
  unfolding run
  run-IsWorld {ids} m w [] few v = subst (λ n. IsWorld cfg n w) (omega arith) v
  run-IsWorld {ids} m w ((now, e) ∷ es) few v =
      subst (λ n. IsWorld cfg n (run m (step m w now e) es)) (omega arith)
        (run-IsWorld {ids = ids + 1} m (step m w now e) es (omega arith)
          (step-IsWorld m w now e (omega arith) v))

pub fresh-IsWorld :
    {C : Type 0} (cfg : PoolConfig)
    → cfg.max_size < u32_mod
    → IsWorld {C = C} cfg 1 (fresh_world cfg)
fresh-IsWorld cfg small = own (Inner.new cfg false) (new-IsLocal cfg false small)

-- In every history of a thread's pool that starts with an empty pool, whose `max_size` is a `u32`,
-- and that is shorter than 2^64 - 1 events: the slots taken are those of the idle connections, of the connections checked out and of
-- the suspended calls that hold one; they never exceed `max_size`; and the gauges of open and of
-- idle connections show the true numbers.
pub run-slots :
    {C E : Type 0} (m : ManageConnection C) (cfg : PoolConfig) (es : List (Instant × Event C E))
    → cfg.max_size < u32_mod
    → 1 + length es < u64_mod
    → let w = run m (fresh_world cfg) es in
      (w.inner.slots ≡ length w.inner.idle + (total (λ c. held_by c.1) w.calls + length w.leased))
      × (w.inner.slots ≤ cfg.max_size)
      × (w.inner.waiters.metrics.connections ≡ w.inner.slots)
      × (w.inner.waiters.metrics.idle ≡ length w.inner.idle)
run-slots m cfg es small few =
    let v =
      run-IsWorld {cfg = cfg} {ids = 1} m (fresh_world cfg) es few (fresh-IsWorld cfg small) in
    (v.shared_out, v.capped, v.connections_gauge, v.idle_gauge)
