-- ===== src/World/Wakes.antt =====
-- A run of a suspended call, and what the world makes of it, keep the balance of held slots and
-- woken calls.
use compio_pool.Prelude.{
  ℕ, suc, ◌+◌, ◌≤◌, ◌<◌, ◌≡◌, refl, sym, subst, inl, inr, Bool, Bool-cases, none, some, List, ◌∷◌,
  get_elem?, remove_at, total-remove_at, arith, leb, u64_mod,
}
use mathlib.Core.Option.{some-injective}
use compio_pool.Waiters.{Waiters}
use compio_pool.Config.{PoolConfig}
use compio_pool.Conn.{Instant}
use compio_pool.Inner.{Inner}
use compio_pool.Local.Slots.{IsLocal}
use compio_pool.Futures.{
  Task, get_waiting, get_validating, get_dialing, get_sleeping, try_validating, try_dialing,
  warm_dialing, Outcome, pending, got, nothing, made, failed, spinning,
}
use compio_pool.Futures.Accounts.{held_by, Settles, recount}
use compio_pool.Futures.Tickets.{ticket, Fair, Fair-le, is_ticket, is_served, is_parked}
use compio_pool.Futures.Wakes.{Balanced}
use compio_pool.Futures.Balance.{Rations, Fair-uncons}
use compio_pool.Futures.Turns.{get_loop-Rations, resume_waiting-Rations, resume_validating-Rations}
use compio_pool.Futures.Unqueued.{
  resume_dialing-Rations, resume_try_validating-Rations, resume_try_dialing-Rations,
  resume_warm-Rations, time_out-Rations,
}
use compio_pool.World.{World, Answer, woken, validated, dialed, slept, overdue, resume, commit}
use compio_pool.World.Slots.{held}

module _ {C : Type 0} (max : ℕ) (cl : Bool) (k : ℕ) where
  -- The order of the calls does not matter.
  pub Fair-pick :
      (n waker : ℕ) (calls : List (ℕ × Task C)) (task : Task C) (w : Waiters)
      → get_elem? calls n ≡ some (waker, task)
      → Fair max cl calls k w
      → Fair max cl ((waker, task) ∷ remove_at calls n) k w
  Fair-pick n waker calls task w e f = record {
    owned = λ i l. omega (
      arith,
      f.owned i l,
      total-remove_at (λ (c : ℕ × Task C). is_ticket i (ticket c.1)) calls n e,
    );
    owed = ground (
      arith,
      f.owed,
      total-remove_at (λ (c : ℕ × Task C). is_served w.woken_upto (ticket c.1)) calls n e,
    );
    told = λ i m. omega (
      arith,
      f.told i m,
      total-remove_at (λ (c : ℕ × Task C). is_parked i m c.0 (ticket c.1)) calls n e,
    );
  }

-- Every slot of an open thread's pool, while anyone is queued, is held or on its way to a call that
-- has been woken; and the calls that wait unwoken are those in the queue.
abbrev pub IsFair : {C : Type 0} → PoolConfig → World C → Type 0
IsFair cfg w = Balanced cfg w.inner.closed w.calls (held w) w.inner

module _ {C : Type 0} (cfg : PoolConfig) where
  pub reflag :
      (cl : Bool) (calls : List (ℕ × Task C)) (k n : ℕ) (p : Inner C)
      → p.closed ≡ cl
      → k ≤ n
      → Balanced cfg cl calls k p
      → Balanced cfg p.closed calls n p
  reflag cl calls k n p e l f =
      subst (λ b. Balanced cfg b calls n p) (sym e)
        (Fair-le cfg.max_size cl calls k n p.waiters l f)

  -- A call that holds a guard and does not queue, taken out of the suspended ones.
  hold :
      (cl : Bool) (calls : List (ℕ × Task C)) (h : ℕ) (p : Inner C) (waker : ℕ) (task : Task C)
      → held_by task ≡ 1
      → ticket task ≡ none
      → Balanced cfg cl ((waker, task) ∷ calls) (held_by task + h) p
      → Balanced cfg cl calls (suc h) p
  hold cl calls h p waker task e t f =
      Fair-uncons cfg.max_size cl calls (suc h) p.waiters waker task t
        (Fair-le cfg.max_size cl _ (held_by task + h) (suc h) p.waiters (omega arith) f)

module _ {C E : Type 0} (cfg : PoolConfig) where
  pub commit-IsFair :
      (cl : Bool) (ids : ℕ) (w : World C) (waker : ℕ) (r : Inner C × Outcome C E)
      → Settles cfg cl ids (held w) r
      → Rations cfg cl waker w.calls (held w) r
      → IsFair cfg (commit w waker r)
  unfolding commit
  commit-IsFair cl ids w waker (p, pending task) (n, v) f =
      reflag cfg cl _ _ _ p v.flagged (omega arith) f
  commit-IsFair cl ids w waker (p, got conn) (n, v) f =
      reflag cfg cl _ _ _ p v.flagged (omega arith) f
  commit-IsFair cl ids w waker (p, nothing) (n, v) f =
      reflag cfg cl _ _ _ p v.flagged (omega arith) f
  commit-IsFair cl ids w waker (p, made k) (n, v) f =
      reflag cfg cl _ _ _ p v.flagged (omega arith) f
  commit-IsFair cl ids w waker (p, failed e) (n, v) f =
      reflag cfg cl _ _ _ p v.flagged (omega arith) f
  commit-IsFair cl ids w waker (p, spinning) (n, v) f =
      reflag cfg cl _ _ _ p v.flagged (omega arith) f

  rationed :
      (cl : Bool) (waker : ℕ) (calls : List (ℕ × Task C)) (h : ℕ) {q r : Inner C × Outcome C E}
      → some q ≡ some r
      → Rations cfg cl waker calls h q
      → Rations cfg cl waker calls h r
  rationed cl waker calls h e s = subst (Rations cfg cl waker calls h) (some-injective _ _ e) s

  -- Whatever makes a suspended call run again, its run keeps the balance.
  pub resume-Rations :
      (cl : Bool) (ids h : ℕ) (calls : List (ℕ × Task C)) (p : Inner C) (old waker : ℕ)
      (task : Task C) (answer : Answer C E) (now : Instant) (r : Inner C × Outcome C E)
      → ids + 1 < u64_mod
      → resume p waker task answer now ≡ some r
      → IsLocal cfg cl ids (held_by task + h) p
      → Balanced cfg cl ((old, task) ∷ calls) (held_by task + h) p
      → Rations cfg cl waker calls h r
  unfolding resume
  resume-Rations cl ids h calls p old waker task overdue now r few e v f =
      rationed cl waker calls h e (time_out-Rations E cfg {ids = ids} waker calls old h p task v f)
  resume-Rations cl ids h calls p old waker (get_waiting start waited wait) woken now r few e v f =
      rationed cl waker calls h e (
        resume_waiting-Rations E cfg ids few waker calls old p start waited wait now
          (recount p (omega arith) v)
          (Fair-le cfg.max_size cl _ (0 + h) h p.waiters (omega arith) f))
  resume-Rations cl ids h calls p old waker (get_validating start waited conn) (validated raw ok)
        now r few e v f =
      rationed cl waker calls h e (
        resume_validating-Rations E cfg ids few waker calls p start waited conn raw ok now
          (recount p (omega arith) v)
          (hold cfg cl calls h p old (get_validating start waited conn) refl refl f))
  resume-Rations cl ids h calls p old waker (get_dialing start waited) (dialed answer) now r few e v
        f =
      rationed cl waker calls h e (
        resume_dialing-Rations E cfg {ids = ids} waker calls p start waited answer now
          (recount p (omega arith) v)
          (hold cfg cl calls h p old (get_dialing start waited) refl refl f))
  resume-Rations cl ids h calls p old waker (get_sleeping start waited until) slept now r few e v
        f =
      elim (Bool-cases (leb until now)) [
        | inl due ↦ rationed cl waker calls h (simp due at e) (
            get_loop-Rations E cfg ids few waker calls 0 p start waited now
              (recount p (omega arith) v)
              (Fair-uncons cfg.max_size cl calls h p.waiters old (get_sleeping start waited until)
                refl (Fair-le cfg.max_size cl _ (0 + h) h p.waiters (omega arith) f)))
        | inr early ↦ cc (simp early at e)
      ]
  resume-Rations cl ids h calls p old waker (try_validating conn) (validated raw ok) now r few e v
        f =
      rationed cl waker calls h e (
        resume_try_validating-Rations E cfg {ids = ids} waker calls p conn raw ok now
          (recount p (omega arith) v) (hold cfg cl calls h p old (try_validating conn) refl refl f))
  resume-Rations cl ids h calls p old waker try_dialing (dialed answer) now r few e v f =
      rationed cl waker calls h e (
        resume_try_dialing-Rations E cfg {ids = ids} waker calls p answer now
          (recount p (omega arith) v) (hold cfg cl calls h p old try_dialing refl refl f))
  resume-Rations cl ids h calls p old waker (warm_dialing n) (dialed answer) now r few e v f =
      rationed cl waker calls h e (
        resume_warm-Rations E cfg {ids = ids} waker calls p n answer now (recount p (omega arith) v)
          (hold cfg cl calls h p old (warm_dialing n) refl refl f))
  resume-Rations cl ids h calls p old waker _ _ now r few e v f = cc
