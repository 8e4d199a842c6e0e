-- ===== src/Futures/Turns.antt =====
-- Every run of `get` keeps the balance of held slots and woken calls: a call that is woken takes
-- the slot that it was woken for, or finds all slots held.
use compio_pool.Prelude.{
  ℕ, suc, ◌+◌, ◌<◌, ◌≡◌, refl, ap, inl, inr, Bool, true, false, ◌||◌, Bool-cases, Option, none,
  some, List, ◌∷◌, length, arith, if◌then◌else◌, u64_mod,
}
use compio_pool.Config.{PoolConfig}
use compio_pool.Waiters.{Waiters}
use compio_pool.Waiters
use compio_pool.Conn.{Instant, Conn}
use compio_pool.Inner.{Inner, note_broken}
use compio_pool.Local.{pop_fresh_idle, ready_now, drop_held}
use compio_pool.Local.Slots.{IsLocal, Popped, pop_fresh_idle-Popped, note_broken-IsLocal}
use compio_pool.Local.Guards.{drop_held-IsLocal}
use compio_pool.Wait.{WaitReady, wait_ready, withdraw, poll}
use compio_pool.Wait.Laws.{poll-IsLocal, poll_ready, withdraw_lem}
use compio_pool.Futures.{
  Task, get_waiting, Outcome, pending, loop_rounds, after_wait, get_loop, take_fast, get,
  resume_waiting, resume_validating,
}
use compio_pool.Futures.Parking.{ready_now-false}
use compio_pool.Futures.Tickets.{ticket, Fair, Fair-le, Fair-same, wake_all-Fair, register-Fair}
use compio_pool.Futures.Wakes.{Balanced, pop_fresh_idle-Balanced, release_slot-Balanced}
use compio_pool.Futures.Balance.{
  Rations, Fair-cons, withdraw-Fair, record_acquire-Balanced, after_wait-Rations,
}

module _ {C : Type 0} (cfg : PoolConfig) {cl : Bool} {ids : ℕ} (waker : ℕ)
    (calls : List (ℕ × Task C)) where
  leave-Balanced :
      {h : ℕ} (old : ℕ) (p : Inner C) (wait : WaitReady) (task : Task C)
      → ticket task ≡ wait.id
      → IsLocal cfg cl ids h p
      → Balanced cfg cl ((old, task) ∷ calls) h p
      → Fair cfg.max_size cl calls (suc h) (
          if p.closed
          then Waiters.wake_all (withdraw p.waiters wait.id)
          else withdraw p.waiters wait.id)
  leave-Balanced {h} old p wait task e v f =
      let left = withdraw-Fair cfg.max_size cl calls h p.waiters old task wait.id v.queue e f in
      elim (Bool-cases p.closed) [
        | inl shut ↦ simp shut (
            wake_all-Fair cfg.max_size cl calls (suc h) _ (withdraw_lem p.waiters wait.id v.queue).0
              left)
        | inr open' ↦ simp open' left
      ]

  poll_ready-Balanced :
      {h : ℕ} (old : ℕ) (p : Inner C) (wait : WaitReady) (task : Task C)
      → (poll p wait waker).2 ≡ true
      → ticket task ≡ wait.id
      → IsLocal cfg cl ids h p
      → Balanced cfg cl ((old, task) ∷ calls) h p
      → Balanced cfg cl calls (suc h) (poll p wait waker).0
  unfolding poll
  poll_ready-Balanced old p wait task r e v f = elim (Bool-cases (ready_now p)) [
    | inl ready ↦ rw ready (leave-Balanced old p wait task e v f)
    | inr full ↦ absurd (cc (rw full at r))
  ]

  poll_full-Balanced :
      {h : ℕ} (old : ℕ) (p : Inner C) (wait : WaitReady) (task : Task C) (start : Instant)
      (before : Bool)
      → (poll p wait waker).2 ≡ false
      → ticket task ≡ wait.id
      → IsLocal cfg cl ids h p
      → Balanced cfg cl ((old, task) ∷ calls) h p
      → Balanced cfg cl
          ((waker, get_waiting start before (poll p wait waker).1) ∷ calls)
          h
          (poll p wait waker).0
  unfolding poll
  poll_full-Balanced {h} old p wait task start before r e v f = elim (Bool-cases (ready_now p)) [
    | inl ready ↦ absurd (cc (rw ready at r))
    | inr full ↦
        let (none', all') = ready_now-false p full v in
        rw full (
          register-Fair cfg.max_size cl calls h p.waiters old waker wait.id task
            (get_waiting start before
              (record { id = (Waiters.register p.waiters wait.id waker).1; parked = true }))
            v.queue (omega (arith, ap length none', v.shared_out)) e refl f)
  ]

module _ {C : Type 0} (E : Type 0) (cfg : PoolConfig) {cl : Bool} (ids : ℕ)
    (few : ids + 1 < u64_mod) (waker : ℕ) (calls : List (ℕ × Task C)) where
  -- A poll of the future of a call that is taken out of the suspended ones.
  poll-Rations :
      {h : ℕ} (old : ℕ) (again : Inner C → Inner C × Outcome C E) (p : Inner C) (wait : WaitReady)
      (start : Instant) (before waited : Bool) (now : Instant) (task : Task C)
      → ticket task ≡ wait.id
      → IsLocal cfg cl ids h p
      → Balanced cfg cl ((old, task) ∷ calls) h p
      → let (q, wait', ready) = poll p wait waker in
        Rations cfg cl waker calls h (
          if ready
          then after_wait again q start waited now
          else (q, pending (get_waiting start before wait')))
  poll-Rations {h} old again p wait start before waited now task e v f =
      elim (Bool-cases (poll p wait waker).2) [
        | inl ready ↦ rw ready (
            after_wait-Rations cfg (ids + 1) waker calls again (poll p wait waker).0 start waited
              now (poll_ready p wait waker ready v) (poll-IsLocal p wait waker few v)
              (poll_ready-Balanced cfg waker calls old p wait task ready e v f))
        | inr full ↦ rw full (
            Fair-le cfg.max_size cl _ h (h + 0) _ (omega arith)
              (poll_full-Balanced cfg waker calls old p wait task start before full e v f))
      ]

  -- One round is enough here too.
  pub get_loop-Rations :
      {h : ℕ} (rounds : ℕ) (p : Inner C) (start : Instant) (waited : Bool) (now : Instant)
      → IsLocal cfg cl ids h p
      → Balanced cfg cl calls h p
      → Rations {E = E} cfg cl waker calls h (get_loop (suc rounds) p start waited waker now)
  unfolding get_loop
  get_loop-Rations {h} rounds p start waited now v f = elim (Bool-cases p.closed) [
    | inl shut ↦ simp shut (Fair-le cfg.max_size cl calls h (h + 0) p.waiters (omega arith) f)
    | inr not_shut ↦ simp not_shut (
        poll-Rations waker (λ r. get_loop rounds r start waited waker now) p wait_ready start waited
          (waited || (poll p wait_ready waker).1.parked) now (get_waiting start waited wait_ready)
          refl v
          (Fair-cons cfg.max_size cl calls h p.waiters waker (get_waiting start waited wait_ready)
            refl f))
  ]

  take_fast-Rations :
      {h : ℕ} (r : Inner C × Option (Conn C)) (now : Instant)
      → Popped cfg cl ids h now r
      → Balanced cfg cl calls h r.0
      → Rations {E = E} cfg cl waker calls h (take_fast r waker now)
  unfolding take_fast
  take_fast-Rations {h} (q, some conn) now (e, v) f =
      Fair-le cfg.max_size cl calls h (h + 1) _ (omega arith)
        (record_acquire-Balanced cfg calls h q false 0 f)
  take_fast-Rations (q, none) now (e, v) f = get_loop-Rations 0 q now false now v f

  pub get-Rations :
      {h : ℕ} (p : Inner C) (now : Instant)
      → IsLocal cfg cl ids h p
      → Balanced cfg cl calls h p
      → Rations {E = E} cfg cl waker calls h (get p waker now)
  unfolding get
  get-Rations {h} p now v f = elim (Bool-cases p.closed) [
    | inl shut ↦ simp shut (Fair-le cfg.max_size cl calls h (h + 0) p.waiters (omega arith) f)
    | inr not_shut ↦ elim (Bool-cases p.config.test_on_check_out) [
      | inl test ↦ simp (not_shut, test) (get_loop-Rations 0 p now false now v f)
      | inr trust ↦
          simp (not_shut, trust)
            (take_fast-Rations (pop_fresh_idle p now) now (pop_fresh_idle-Popped p now v)
              (pop_fresh_idle-Balanced cfg calls h p now v f))
    ]
  ]

  pub resume_waiting-Rations :
      {h : ℕ} (old : ℕ) (p : Inner C) (start : Instant) (waited : Bool) (wait : WaitReady)
      (now : Instant)
      → IsLocal cfg cl ids h p
      → Balanced cfg cl ((old, get_waiting start waited wait) ∷ calls) h p
      → Rations {E = E} cfg cl waker calls h (resume_waiting p start waited wait waker now)
  unfolding resume_waiting
  resume_waiting-Rations old p start waited wait now v f =
      poll-Rations old
        (λ r. get_loop loop_rounds r start (waited || (poll p wait waker).1.parked) waker now) p
        wait start waited (waited || (poll p wait waker).1.parked) now
        (get_waiting start waited wait) refl v f

  pub resume_validating-Rations :
      {h : ℕ} (p : Inner C) (start : Instant) (waited : Bool) (conn : Conn C) (raw : C)
      (valid : Bool) (now : Instant)
      → IsLocal cfg cl ids (suc h) p
      → Balanced cfg cl calls (suc h) p
      → Rations {E = E} cfg cl waker calls h
          (resume_validating p start waited conn raw valid waker now)
  unfolding resume_validating
  resume_validating-Rations {h} p start waited conn raw true now v f =
      Fair-le cfg.max_size cl calls (suc h) (h + 1) _ (omega arith)
        (record_acquire-Balanced cfg calls (suc h) p waited _ f)
  resume_validating-Rations {h} p start waited conn raw false now v f =
      get_loop-Rations 0 _ start waited now (drop_held-IsLocal _ (note_broken-IsLocal p v)) (
        unfold drop_held note_broken in
        release_slot-Balanced cfg calls h (note_broken p) (note_broken-IsLocal p v)
          (Fair-same cfg.max_size cl calls (suc h) p.waiters _ refl refl refl f))
