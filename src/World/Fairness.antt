-- ===== src/World/Fairness.antt =====
-- Every event keeps the balance of held slots and woken calls, and so does every history.
use compio_pool.Prelude.{
  ℕ, suc, ◌+◌, ◌<◌, ◌≡◌, refl, inl, inr, Option-cases, List, [], ◌∷◌, length, get_elem?, remove_at,
  total, arith, u64_mod,
}
use compio_pool.Waiters.{Waiters}
use compio_pool.Config.{PoolConfig}
use compio_pool.Manage.{ManageConnection}
use compio_pool.Conn.{Instant}
use compio_pool.Inner.{Inner, release_slot}
use compio_pool.Local.{take, drop_pooled, reap, clear}
use compio_pool.Local.Slots.{release_slot-IsLocal}
use compio_pool.Local.Guards.{drop_pooled-IsLocal}
use compio_pool.Local.Maintenance.{reap_lem, clear_lem}
use compio_pool.Futures.Endings.{cancel-IsLocal}
use compio_pool.Waiters
use compio_pool.Inner
use compio_pool.Futures.{Task, cancel}
use compio_pool.Futures.Accounts.{held_by, recount}
use compio_pool.Futures.Tickets.{Fair-le}
use compio_pool.Futures.Wakes.{
  release_slot-Balanced, drop_pooled-Balanced, reap-Balanced, clear-Balanced,
}
use compio_pool.Futures.Turns.{get-Rations}
use compio_pool.Futures.Unqueued.{try_get-Rations, warm-Rations, maintain-Rations, cancel-Balanced}
use compio_pool.World.{
  World, Answer, Event, gets, tries, warms, maintains, resumes, cancels, returns, takes, reaps,
  clears, closes, fresh_world, resume, resume_at, cancel_at, return_at, take_at, close, step, run,
}
use compio_pool.World.Slots.{held, IsWorld, step-IsWorld, split_calls, split_leased}
use compio_pool.Futures.Accounts.{get-Settles}
use compio_pool.Futures.Attempts.{try_get-Settles, warm-Settles, maintain-Settles}
use compio_pool.World.Slots.{resume-Settles}
use compio_pool.World.Wakes.{IsFair, Fair-pick, reflag, commit-IsFair, resume-Rations}

module _ {C E : Type 0} (cfg : PoolConfig) where
  resume_at-IsFair :
      {ids : ℕ} (w : World C) (k waker : ℕ) (answer : Answer C E) (now : Instant)
      → ids + 1 < u64_mod
      → IsWorld cfg ids w
      → IsFair cfg w
      → IsFair cfg (resume_at w k waker answer now)
  unfolding resume_at
  resume_at-IsFair {ids} w k waker answer now few v f = elim (Option-cases (get_elem? w.calls k)) [
    | inl none' ↦ rw (none', resume_at) f
    | inr ((old, task), e) ↦
        let cl = w.inner.closed in
        let w' = record w { calls = remove_at w.calls k } in
        let split : held w ≡ held_by task + held w' = split_calls w k old task e in
        let v' = recount w.inner split v in
        let f' =
          Fair-le cfg.max_size cl _ (held w) (held_by task + held w') w.inner.waiters (omega arith)
            (Fair-pick cfg.max_size cl (held w) k old w.calls task w.inner.waiters e f) in
        elim (Option-cases (resume w.inner waker task answer now)) [
          | inl idle ↦ rw (e, idle, resume_at) f
          | inr (r, g) ↦
              rw (e, g, resume_at)
                (commit-IsFair cfg cl (ids + 1) w' waker r
                  (resume-Settles cl ids (held w') w.inner waker task answer now r few g v')
                  (resume-Rations cfg cl ids (held w') w'.calls w.inner old waker task answer now r
                    few g v' f'))
        ]
  ]

module _ {C : Type 0} (cfg : PoolConfig) where
  cancel_at-IsFair :
      {ids : ℕ} (w : World C) (k : ℕ)
      → IsWorld cfg ids w
      → IsFair cfg w
      → IsFair cfg (cancel_at w k)
  unfolding cancel_at
  cancel_at-IsFair w k v f = elim (Option-cases (get_elem? w.calls k)) [
    | inl none' ↦ rw (none', cancel_at) f
    | inr ((waker, task), e) ↦
        let cl = w.inner.closed in
        let w' = record w { calls = remove_at w.calls k } in
        let split : held w ≡ held_by task + held w' = split_calls w k waker task e in
        let v' = recount w.inner split v in
        let f' =
          Fair-le cfg.max_size cl _ (held w) (held_by task + held w') w.inner.waiters (omega arith)
            (Fair-pick cfg.max_size cl (held w) k waker w.calls task w.inner.waiters e f) in
        rw (e, cancel_at)
          (reflag cfg cl w'.calls (held w') (held w') (cancel w.inner task)
            (cancel-IsLocal w.inner task v').flagged (omega arith)
            (cancel-Balanced cfg w'.calls w.inner waker task v' f'))
  ]

  return_at-IsFair :
      {ids : ℕ} (m : ManageConnection C) (w : World C) (k : ℕ) (raw : C) (now later : Instant)
      → IsWorld cfg ids w
      → IsFair cfg w
      → IsFair cfg (return_at m w k raw now later)
  unfolding return_at
  return_at-IsFair m w k raw now later v f = elim (Option-cases (get_elem? w.leased k)) [
    | inl none' ↦ rw (none', return_at) f
    | inr (conn, e) ↦
        let cl = w.inner.closed in
        let h = total (λ (c : ℕ × Task C). held_by c.1) w.calls + length (remove_at w.leased k) in
        let split = split_leased w k conn e in
        let v' = recount w.inner split v in
        rw (e, return_at)
          (reflag cfg cl w.calls h h (drop_pooled m w.inner (record conn { raw = raw }) now later)
            (drop_pooled-IsLocal m w.inner (record conn { raw = raw }) now later v').flagged
            (omega arith)
            (drop_pooled-Balanced cfg w.calls h m w.inner _ now later v'
              (Fair-le cfg.max_size cl w.calls (held w) (suc h) w.inner.waiters (omega arith) f)))
  ]

  take_at-IsFair :
      {ids : ℕ} (w : World C) (k : ℕ) → IsWorld cfg ids w → IsFair cfg w → IsFair cfg (take_at w k)
  unfolding take_at take
  take_at-IsFair w k v f = elim (Option-cases (get_elem? w.leased k)) [
    | inl none' ↦ rw (none', take_at) f
    | inr (conn, e) ↦
        let cl = w.inner.closed in
        let h = total (λ (c : ℕ × Task C). held_by c.1) w.calls + length (remove_at w.leased k) in
        let split = split_leased w k conn e in
        let v' = recount w.inner split v in
        rw (e, take_at)
          (reflag cfg cl w.calls h h (release_slot w.inner)
            (release_slot-IsLocal w.inner v').flagged (omega arith)
            (release_slot-Balanced cfg w.calls h w.inner v'
              (Fair-le cfg.max_size cl w.calls (held w) (suc h) w.inner.waiters (omega arith) f)))
  ]

module _ {C E : Type 0} (cfg : PoolConfig) where
  step-IsFair :
      {ids : ℕ} (m : ManageConnection C) (w : World C) (now : Instant) (e : Event C E)
      → ids + 1 < u64_mod
      → IsWorld cfg ids w
      → IsFair cfg w
      → IsFair cfg (step m w now e)
  unfolding step
  step-IsFair {ids} m w now (gets waker) few v f =
      commit-IsFair cfg w.inner.closed (ids + 1) w waker _
        (get-Settles {E = E} ids few w.inner waker now v)
        (get-Rations E cfg ids few waker w.calls w.inner now v f)
  step-IsFair {ids} m w now (tries waker) few v f =
      commit-IsFair cfg w.inner.closed ids w waker _ (try_get-Settles {E = E} w.inner now v)
        (try_get-Rations E cfg waker w.calls w.inner now v f)
  step-IsFair {ids} m w now (warms waker) few v f =
      commit-IsFair cfg w.inner.closed ids w waker _ (warm-Settles {E = E} w.inner v)
        (warm-Rations E cfg waker w.calls (held w) w.inner f)
  step-IsFair {ids} m w now (maintains waker) few v f =
      commit-IsFair cfg w.inner.closed ids w waker _ (maintain-Settles {E = E} w.inner now v)
        (maintain-Rations E cfg waker w.calls w.inner now v f)
  step-IsFair m w now (resumes k waker answer) few v f =
      resume_at-IsFair cfg w k waker answer now few v f
  step-IsFair m w now (cancels k) few v f = cancel_at-IsFair cfg w k v f
  step-IsFair m w now (returns k raw later) few v f = return_at-IsFair cfg m w k raw now later v f
  step-IsFair m w now (takes k) few v f = take_at-IsFair cfg w k v f
  step-IsFair m w now reaps few v f =
      reflag cfg w.inner.closed w.calls (held w) (held w) (reap w.inner now).0
        (reap_lem w.inner now v).0.flagged (omega arith)
        (reap-Balanced cfg w.calls (held w) w.inner now v f)
  step-IsFair m w now clears few v f =
      reflag cfg w.inner.closed w.calls (held w) (held w) (clear w.inner).0
        (clear_lem w.inner v).0.flagged (omega arith)
        (clear-Balanced cfg w.calls (held w) w.inner v f)
  step-IsFair m w now closes few v f =
      unfold close in record { owned = f.owned; owed = inl refl; told = f.told }

  pub run-IsFair :
      {ids : ℕ} (m : ManageConnection C) (w : World C) (es : List (Instant × Event C E))
      → ids + length es < u64_mod
      → IsWorld cfg ids w
      → IsFair cfg w
      → IsFair cfg (run m w es)
  unfolding run
  run-IsFair m w [] few v f = f
  run-IsFair {ids} m w ((now, e) ∷ es) few v f =
      run-IsFair {ids = ids + 1} m (step m w now e) es (omega arith)
        (step-IsWorld m w now e (omega arith) v) (step-IsFair m w now e (omega arith) v f)

pub fresh-IsFair : {C : Type 0} (cfg : PoolConfig) → IsFair {C = C} cfg (fresh_world cfg)
fresh-IsFair cfg =
    unfold Inner.new Waiters.new in
    record { owned = λ i l. refl; owed = inr (inl refl); told = λ i n. omega arith }
