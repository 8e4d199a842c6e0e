-- ===== src/Futures/Unqueued.antt =====
-- The runs that wait for no slot, and the calls that are given up, keep the balance too.
use compio_pool.Prelude.{
  ℕ, suc, ◌+◌, ◌≡◌, refl, ◌∙◌, inl, inr, Bool, true, false, ◌&&◌, not, Bool-cases, Option,
  Option-cases, none, some, List, ◌∷◌, arith, ltb,
}
use compio_pool.Config.{PoolConfig}
use compio_pool.Waiters.{Waiters}
use compio_pool.Waiters
use compio_pool.Waiters.Queue.{unregister-IsQueue}
use compio_pool.Conn.{Instant, Conn}
use compio_pool.Inner.{Inner, note_broken}
use compio_pool.Local.{try_reserve, pop_fresh_idle, drop_held}
use compio_pool.Local.Slots.{IsLocal, note_broken-IsLocal}
use compio_pool.Local.Guards.{drop_held-IsLocal}
use compio_pool.Wait.{WaitReady, wait_ready, withdraw, hand_on, poll}
use compio_pool.Wait
use compio_pool.Futures.{
  Task, get_waiting, get_validating, get_dialing, get_sleeping, Dialed, opened, refused,
}
use compio_pool.Futures.Accounts.{held_by, recount}
use compio_pool.Futures.Tickets.{ticket, Fair-le, Fair-same, unregister-Fair}
use compio_pool.Futures.Wakes.{
  Balanced, pop_fresh_idle-Balanced, try_reserve-Balanced, release_slot-Balanced,
}
use compio_pool.Local.Slots.{note_created-IsLocal}
use compio_pool.Inner.{note_created, idle_len, on_metrics}
use compio_pool.Futures.{
  try_validating, try_dialing, warm_dialing, resume_dialing, try_take, try_next, try_get,
  resume_try_validating, resume_try_dialing, warm_next, warm, resume_warm, maintain, cancel,
  time_out,
}
use compio_pool.Futures.Wakes.{into_idle-Balanced, reap-Balanced}
use compio_pool.Futures.Balance.{
  Rations, Fair-cons, Fair-uncons, hand_on-Fair, record_acquire-Balanced, keep_one, found-Rations,
}

module _ {C : Type 0} (cfg : PoolConfig) {cl : Bool} (calls : List (ℕ × Task C)) where
  note_created-Balanced :
      (k : ℕ) (p : Inner C) → Balanced cfg cl calls k p → Balanced cfg cl calls k (note_created p)
  unfolding note_created
  note_created-Balanced k p f = Fair-same cfg.max_size cl calls k p.waiters _ refl refl refl f

  -- A call that queues under no id stays suspended.
  still :
      (waker h : ℕ) (p : Inner C) (old : ℕ) (task : Task C)
      → ticket task ≡ none
      → Balanced cfg cl ((old, task) ∷ calls) (1 + h) p
      → Balanced cfg cl ((waker, task) ∷ calls) (h + 1) p
  still waker h p old task e f = Fair-cons cfg.max_size cl calls (h + 1) p.waiters waker task e (
      Fair-uncons cfg.max_size cl calls (h + 1) p.waiters old task e
        (Fair-le cfg.max_size cl _ (1 + h) (h + 1) p.waiters (omega arith) f))

  note_broken-Balanced :
      (k : ℕ) (p : Inner C) → Balanced cfg cl calls k p → Balanced cfg cl calls k (note_broken p)
  unfolding note_broken
  note_broken-Balanced k p f = Fair-same cfg.max_size cl calls k p.waiters _ refl refl refl f

module _ {C : Type 0} (cfg : PoolConfig) {cl : Bool} {ids : ℕ} (calls : List (ℕ × Task C)) where
  drop_held-Balanced :
      {h : ℕ} (k : ℕ) (p : Inner C)
      → IsLocal cfg cl ids (suc h) p
      → Balanced cfg cl calls (suc k) p
      → Balanced cfg cl calls k (drop_held p)
  unfolding drop_held
  drop_held-Balanced k p v f = release_slot-Balanced cfg calls k p v f

  give_back :
      {h : ℕ} (p : Inner C) (waker : ℕ) (task : Task C)
      → ticket task ≡ none
      → IsLocal cfg cl ids (1 + h) p
      → Balanced cfg cl ((waker, task) ∷ calls) (1 + h) p
      → Balanced cfg cl calls h (drop_held p)
  give_back {h} p waker task e v f = drop_held-Balanced {h = h} h p (recount p (omega arith) v) (
      Fair-uncons cfg.max_size cl calls (suc h) p.waiters waker task e
        (Fair-le cfg.max_size cl _ (1 + h) (suc h) p.waiters (omega arith) f))

  drop-Balanced :
      {h : ℕ} (k : ℕ) (p : Inner C) (waker : ℕ) (task : Task C) (wait : WaitReady)
      → ticket task ≡ wait.id
      → IsLocal cfg cl ids h p
      → Balanced cfg cl ((waker, task) ∷ calls) k p
      → Balanced cfg cl calls k (Wait.drop p wait)
  unfolding Wait.drop
  drop-Balanced k p waker task wait e v f = elim (Option-cases wait.id) [
    | inl n ↦ rw (n, Wait.drop) (Fair-uncons cfg.max_size cl calls k p.waiters waker task (e ∙ n) f)
    | inr (id, n) ↦
        let (w, b) = Waiters.unregister p.waiters id in
        rw (n, Wait.drop)
          (hand_on-Fair cfg.max_size cl calls k w b (unregister-IsQueue p.waiters id v.queue)
            (unregister-Fair cfg.max_size cl calls k p.waiters waker id task v.queue (e ∙ n) f))
  ]

  -- A call that is dropped gives back its slot, or hands on the wake that it did not use.
  pub cancel-Balanced :
      {h : ℕ} (p : Inner C) (waker : ℕ) (task : Task C)
      → IsLocal cfg cl ids (held_by task + h) p
      → Balanced cfg cl ((waker, task) ∷ calls) (held_by task + h) p
      → Balanced cfg cl calls h (cancel p task)
  unfolding cancel
  cancel-Balanced {h} p waker (get_waiting start waited wait) v f =
      drop-Balanced h p waker (get_waiting start waited wait) wait refl v
        (Fair-le cfg.max_size cl _ (0 + h) h p.waiters (omega arith) f)
  cancel-Balanced p waker (get_validating start waited conn) v f = give_back p waker _ refl v f
  cancel-Balanced p waker (get_dialing start waited) v f = give_back p waker _ refl v f
  cancel-Balanced {h} p waker (get_sleeping start waited until) v f =
      Fair-uncons cfg.max_size cl calls h p.waiters waker (get_sleeping start waited until) refl
        (Fair-le cfg.max_size cl _ (0 + h) h p.waiters (omega arith) f)
  cancel-Balanced p waker (try_validating conn) v f = give_back p waker _ refl v f
  cancel-Balanced p waker try_dialing v f = give_back p waker _ refl v f
  cancel-Balanced p waker (warm_dialing n) v f = give_back p waker _ refl v f

module _ {C : Type 0} (E : Type 0) (cfg : PoolConfig) {cl : Bool} (waker : ℕ)
    (calls : List (ℕ × Task C)) where
  try_take-Rations :
      (h : ℕ) (r : Inner C × Option (Conn C))
      → Balanced cfg cl calls h r.0
      → Rations {E = E} cfg cl waker calls h (try_take r)
  unfolding try_take
  try_take-Rations h (q, some conn) f =
      found-Rations E cfg waker calls h q false 0 (try_validating conn) conn refl refl
        (Fair-le cfg.max_size cl calls h (suc h) q.waiters (omega arith) f)
  try_take-Rations h (q, none) f =
      let g = try_reserve-Balanced cfg calls h q f in
      elim (Bool-cases (try_reserve q).1) [
        | inl yes' ↦ rw yes' (
            keep_one E cfg waker calls h (try_reserve q).0 try_dialing refl refl
              (Fair-le cfg.max_size cl calls h (suc h) _ (omega arith) g))
        | inr full ↦ rw full (Fair-le cfg.max_size cl calls h (h + 0) _ (omega arith) g)
      ]

  warm_next-Rations :
      (h : ℕ) (p : Inner C) (n : ℕ)
      → Balanced cfg cl calls h p
      → Rations {E = E} cfg cl waker calls h (warm_next p n)
  unfolding warm_next
  warm_next-Rations h p n f =
      let g = try_reserve-Balanced cfg calls h p f in
      elim (Bool-cases (ltb (idle_len p) p.config.min_idle)) [
        | inl low ↦ simp low (elim (Bool-cases (try_reserve p).1) [
          | inl yes' ↦ rw yes' (
              keep_one E cfg waker calls h (try_reserve p).0 (warm_dialing n) refl refl
                (Fair-le cfg.max_size cl calls h (suc h) _ (omega arith) g))
          | inr full ↦ rw full (Fair-le cfg.max_size cl calls h (h + 0) _ (omega arith) g)
        ])
        | inr enough ↦ simp enough (Fair-le cfg.max_size cl calls h (h + 0) _ (omega arith) f)
      ]

  pub warm-Rations :
      (h : ℕ) (p : Inner C)
      → Balanced cfg cl calls h p
      → Rations {E = E} cfg cl waker calls h (warm p)
  unfolding warm
  warm-Rations h p f = elim (Bool-cases p.closed) [
    | inl shut ↦ simp shut (Fair-le cfg.max_size cl calls h (h + 0) _ (omega arith) f)
    | inr not_shut ↦ simp not_shut (warm_next-Rations h p 0 f)
  ]

module _ {C : Type 0} (E : Type 0) (cfg : PoolConfig) {cl : Bool} {ids : ℕ} (waker : ℕ)
    (calls : List (ℕ × Task C)) where
  pub resume_dialing-Rations :
      {h : ℕ} (p : Inner C) (start : Instant) (waited : Bool) (answer : Dialed C E) (now : Instant)
      → IsLocal cfg cl ids (suc h) p
      → Balanced cfg cl calls (suc h) p
      → Rations cfg cl waker calls h (resume_dialing p start waited answer now)
  unfolding resume_dialing
  resume_dialing-Rations {h} p start waited (opened raw) now v f =
      Fair-le cfg.max_size cl calls (suc h) (h + 1) _ (omega arith) (
        record_acquire-Balanced cfg calls (suc h) _ waited _
          (note_created-Balanced cfg calls (suc h) p f))
  resume_dialing-Rations {h} p start waited (refused e) now v f =
      let g = drop_held-Balanced cfg calls h p v f in
      elim (Bool-cases (p.config.retry_connection && not p.closed)) [
        | inl again ↦ simp again (
            Fair-cons cfg.max_size cl calls (h + 0) _ waker _ refl
              (Fair-le cfg.max_size cl calls h (h + 0) _ (omega arith) g))
        | inr stop ↦ simp stop (Fair-le cfg.max_size cl calls h (h + 0) _ (omega arith) g)
      ]

  try_next-Rations :
      {h : ℕ} (p : Inner C) (now : Instant)
      → IsLocal cfg cl ids h p
      → Balanced cfg cl calls h p
      → Rations {E = E} cfg cl waker calls h (try_next p now)
  unfolding try_next
  try_next-Rations {h} p now v f =
      try_take-Rations E cfg waker calls h (pop_fresh_idle p now)
        (pop_fresh_idle-Balanced cfg calls h p now v f)

  pub try_get-Rations :
      {h : ℕ} (p : Inner C) (now : Instant)
      → IsLocal cfg cl ids h p
      → Balanced cfg cl calls h p
      → Rations {E = E} cfg cl waker calls h (try_get p now)
  unfolding try_get
  try_get-Rations {h} p now v f = elim (Bool-cases p.closed) [
    | inl shut ↦ simp shut (Fair-le cfg.max_size cl calls h (h + 0) _ (omega arith) f)
    | inr not_shut ↦ simp not_shut (try_next-Rations p now v f)
  ]

  pub resume_try_validating-Rations :
      {h : ℕ} (p : Inner C) (conn : Conn C) (raw : C) (valid : Bool) (now : Instant)
      → IsLocal cfg cl ids (suc h) p
      → Balanced cfg cl calls (suc h) p
      → Rations {E = E} cfg cl waker calls h (resume_try_validating p conn raw valid now)
  unfolding resume_try_validating
  resume_try_validating-Rations {h} p conn raw true now v f =
      Fair-le cfg.max_size cl calls (suc h) (h + 1) _ (omega arith)
        (record_acquire-Balanced cfg calls (suc h) p false 0 f)
  resume_try_validating-Rations {h} p conn raw false now v f =
      try_next-Rations _ now (drop_held-IsLocal _ (note_broken-IsLocal p v)) (
        drop_held-Balanced cfg calls h _ (note_broken-IsLocal p v)
          (note_broken-Balanced cfg calls (suc h) p f))

  pub resume_try_dialing-Rations :
      {h : ℕ} (p : Inner C) (answer : Dialed C E) (now : Instant)
      → IsLocal cfg cl ids (suc h) p
      → Balanced cfg cl calls (suc h) p
      → Rations cfg cl waker calls h (resume_try_dialing p answer now)
  unfolding resume_try_dialing
  resume_try_dialing-Rations {h} p (opened raw) now v f =
      Fair-le cfg.max_size cl calls (suc h) (h + 1) _ (omega arith) (
        record_acquire-Balanced cfg calls (suc h) _ false 0
          (note_created-Balanced cfg calls (suc h) p f))
  resume_try_dialing-Rations {h} p (refused e) now v f =
      Fair-le cfg.max_size cl calls h (h + 0) _ (omega arith) (drop_held-Balanced cfg calls h p v f)

  pub resume_warm-Rations :
      {h : ℕ} (p : Inner C) (n : ℕ) (answer : Dialed C E) (now : Instant)
      → IsLocal cfg cl ids (suc h) p
      → Balanced cfg cl calls (suc h) p
      → Rations cfg cl waker calls h (resume_warm p n answer now)
  unfolding resume_warm
  resume_warm-Rations {h} p n (opened raw) now v f = warm_next-Rations E cfg waker calls h _ _ (
      into_idle-Balanced cfg calls h _ _ now (note_created-IsLocal p v)
        (note_created-Balanced cfg calls (suc h) p f))
  resume_warm-Rations {h} p n (refused e) now v f =
      Fair-le cfg.max_size cl calls h (h + 0) _ (omega arith) (drop_held-Balanced cfg calls h p v f)

  pub maintain-Rations :
      {h : ℕ} (p : Inner C) (now : Instant)
      → IsLocal cfg cl ids h p
      → Balanced cfg cl calls h p
      → Rations {E = E} cfg cl waker calls h (maintain p now)
  unfolding maintain
  maintain-Rations {h} p now v f =
      warm-Rations E cfg waker calls h _ (reap-Balanced cfg calls h p now v f)

  pub time_out-Rations :
      (old h : ℕ) (p : Inner C) (task : Task C)
      → IsLocal cfg cl ids (held_by task + h) p
      → Balanced cfg cl ((old, task) ∷ calls) (held_by task + h) p
      → Rations {E = E} cfg cl waker calls h (time_out p task)
  unfolding time_out on_metrics
  time_out-Rations old h p (try_validating conn) v f =
      still cfg calls waker h p old (try_validating conn) refl f
  time_out-Rations old h p try_dialing v f = still cfg calls waker h p old try_dialing refl f
  time_out-Rations old h p (warm_dialing n) v f =
      Fair-le cfg.max_size cl calls h (h + 0) _ (omega arith)
        (cancel-Balanced cfg calls p old _ v f)
  time_out-Rations old h p task v f = Fair-le cfg.max_size cl calls h (h + 0) _ (omega arith) (
      Fair-same cfg.max_size cl calls h _ _ refl refl refl
        (cancel-Balanced cfg calls p old task v f))
