-- ===== src/Wait/Laws.antt =====
-- What a poll of `WaitReady` and its drop do to the accounts, and when a poll is ready.
use compio_pool.Prelude.{
  ℕ, ◌+◌, ◌≤◌, ◌<◌, ◌≡◌, refl, ap, ◌∙◌, ◌⊎◌, inl, inr, Bool, true, false, Bool-cases, Option-cases,
  Option, none, some, arith, u64_mod, if◌then◌else◌,
}
use compio_pool.Metrics.{Metrics}
use compio_pool.Config.{PoolConfig}
use compio_pool.Waiters.{Waiters, mirror, enqueue}
use compio_pool.Waiters
use compio_pool.Waiters.Queue.{
  IsQueue, register_queued, unregister_lem, register-IsQueue, unregister-IsQueue,
}
use compio_pool.Waiters.Wake.{
  others, wake-others, wake_all-others, wake-next_id, wake_all-next_id, wake-IsQueue,
  wake_all-IsQueue,
}
use compio_pool.Inner.{Inner}
use compio_pool.Local.{ready_now}
use compio_pool.Local.Slots.{IsLocal}
use compio_pool.Wait.{WaitReady, withdraw, hand_on, poll, drop}

-- Two queues over one thread's pool that agree in all but the queue: the gauges of slots and idle
-- connections, every counter and the next id.
abbrev pub SameBut : Waiters → Waiters → Type 0
SameBut w v = (others v.metrics ≡ others w.metrics) × (v.next_id ≡ w.next_id)

unregister-SameBut : (w : Waiters) (id : ℕ) → IsQueue w → SameBut w (Waiters.unregister w id).0
unfolding mirror
unregister-SameBut w id v = ground (arith, unregister_lem w id v)

pub withdraw_lem :
    (w : Waiters) (o : Option ℕ) → IsQueue w → IsQueue (withdraw w o) × SameBut w (withdraw w o)
withdraw_lem w none v = (v, (refl, refl))
withdraw_lem w (some id) v = (unregister-IsQueue w id v, unregister-SameBut w id v)

enqueue_lem :
    (w : Waiters) (waker : ℕ)
    → w.next_id + 1 < u64_mod
    → (others (enqueue w waker).0.metrics ≡ others w.metrics)
      × ((enqueue w waker).0.next_id ≡ w.next_id + 1)
unfolding enqueue
enqueue_lem w waker h = ground arith

register_keeps :
    (w : Waiters) (o : Option ℕ) (waker : ℕ)
    → w.next_id + 1 < u64_mod
    → IsQueue w
    → (others (Waiters.register w o waker).0.metrics ≡ others w.metrics)
      × ((Waiters.register w o waker).0.next_id ≤ w.next_id + 1)
register_keeps w none waker h v = unfold Waiters.register in ground (arith, enqueue_lem w waker h)
register_keeps w (some id) waker h v =
    ground (arith, register_queued w id waker v, enqueue_lem w waker h)

-- The queue after a poll that is ready.
leave : Bool → Waiters → Option ℕ → Waiters
leave shut w o = if shut then Waiters.wake_all (withdraw w o) else withdraw w o

leave_lem :
    (shut : Bool) (w : Waiters) (o : Option ℕ)
    → IsQueue w
    → IsQueue (leave shut w o) × SameBut w (leave shut w o)
unfolding leave
leave_lem false w o v = withdraw_lem w o v
leave_lem true w o v =
    let (q, (e, f)) = withdraw_lem w o v in
    (wake_all-IsQueue _ q, (wake_all-others _ ∙ e, wake_all-next_id _ ∙ f))

hand_on_lem :
    (w : Waiters) (b : Bool) → IsQueue w → IsQueue (hand_on (w, b)) × SameBut w (hand_on (w, b))
hand_on_lem w true v = (v, (refl, refl))
hand_on_lem w false v = (wake-IsQueue w 1 v, (wake-others w 1, wake-next_id w 1))

module _ {C : Type 0} {cfg : PoolConfig} {cl : Bool} {ids : ℕ} where
  -- A change of the queue alone keeps the accounts.
  pub requeue-IsLocal :
      {h n : ℕ} (p : Inner C) (w : Waiters)
      → IsLocal cfg cl ids h p
      → IsQueue w
      → others w.metrics ≡ others p.waiters.metrics
      → w.next_id ≤ n
      → IsLocal cfg cl n h (record p { waiters = w })
  requeue-IsLocal p w v q e l =
      let f = ap (λ (m : Metrics). m.connections) e in
      let g = ap (λ (m : Metrics). m.idle) e in ground arith

  -- A poll keeps the accounts; it hands out at most one waiter id.
  pub poll-IsLocal :
      {h : ℕ} (p : Inner C) (this : WaitReady) (waker : ℕ)
      → ids + 1 < u64_mod
      → IsLocal cfg cl ids h p
      → IsLocal cfg cl (ids + 1) h (poll p this waker).0
  unfolding poll leave
  poll-IsLocal p this waker l v = elim (Bool-cases (ready_now p)) [
    | inl ready ↦
        let (q, (e, f)) = leave_lem p.closed p.waiters this.id v.queue in
        rw ready (requeue-IsLocal p _ v q e (omega (arith, f, v.given)))
    | inr full ↦
        let fits : p.waiters.next_id + 1 < u64_mod = omega (arith, v.given) in
        let (e, f) = register_keeps p.waiters this.id waker fits v.queue in
        rw full (
          requeue-IsLocal p _ v (register-IsQueue p.waiters this.id waker fits v.queue) e
            (omega (arith, v.given)))
  ]

  -- A future that reports ready has found the pool closed, or room for one more guard.
  pub poll_ready :
      {h : ℕ} (p : Inner C) (this : WaitReady) (waker : ℕ)
      → (poll p this waker).2 ≡ true
      → IsLocal cfg cl ids h p
      → (cl ≡ true) ⊎ (h < cfg.max_size)
  unfolding poll ready_now
  poll_ready p this waker e v = ground arith

  -- Dropping the future keeps the accounts.
  pub drop-IsLocal :
      {h : ℕ} (p : Inner C) (this : WaitReady)
      → IsLocal cfg cl ids h p
      → IsLocal cfg cl ids h (drop p this)
  unfolding drop
  drop-IsLocal p this v = elim (Option-cases this.id) [
    | inl e ↦ rw (e, drop) v
    | inr (id, e) ↦
        let (w, b) = Waiters.unregister p.waiters id in
        let (q, (f, g)) = hand_on_lem w b (unregister-IsQueue p.waiters id v.queue) in
        let (f', g') = unregister-SameBut p.waiters id v.queue in
        rw (e, drop) (requeue-IsLocal p _ v q (f ∙ f') (omega (arith, g, g', v.given)))
  ]
