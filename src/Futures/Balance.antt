-- ===== src/Futures/Balance.antt =====
-- The balance of held slots and woken calls, and what a call does to it that may take a slot.
use compio_pool.Prelude.{
  ℕ, suc, ◌+◌, ◌<◌, ◌≡◌, refl, sym, ap, ◌∙◌, ◌⊎◌, inl, inr, Bool, true, false, Bool-cases, Option,
  none, some, List, ◌∷◌, length, arith, if◌then◌else◌,
}
use compio_pool.Config.{PoolConfig}
use compio_pool.Waiters.{Waiters}
use compio_pool.Waiters.Queue.{IsQueue}
use compio_pool.Conn.{Instant, Conn}
use compio_pool.Inner.{Inner}
use compio_pool.Local.{record_acquire, try_reserve, pop_fresh_idle}
use compio_pool.Local.Slots.{IsLocal, Popped, pop_fresh_idle-Popped, try_reserve-IsLocal}
use compio_pool.Wait.{withdraw, hand_on}
use compio_pool.Futures.{
  Task, get_validating, get_dialing, Outcome, pending, got, nothing, made, failed, spinning,
  elapsed, take_or_open, after_wait,
}
use compio_pool.Futures.Accounts.{held_by, held_after}
use compio_pool.Futures.Tickets.{
  ticket, Fair, Fair-le, Fair-closed, Fair-same, wake-Fair, unregister-Fair,
}
use compio_pool.Futures.Wakes.{Balanced, pop_fresh_idle-Balanced, try_reserve-Balanced}

-- The suspended calls after a run of the call of `waker`.
abbrev pub join : {C E : Type 0} → ℕ → List (ℕ × Task C) → Outcome C E → List (ℕ × Task C)
join waker calls (pending task) = (waker, task) ∷ calls
join waker calls (got conn) = calls
join waker calls nothing = calls
join waker calls (made n) = calls
join waker calls (failed e) = calls
join waker calls spinning = calls

-- A run ends in balance, with the guard that may come out of it.
abbrev pub Rations :
    {C E : Type 0} → PoolConfig → Bool → ℕ → List (ℕ × Task C) → ℕ → Inner C × Outcome C E → Type 0
Rations cfg cl waker calls h (p, o) = Balanced cfg cl (join waker calls o) (h + held_after o) p

module _ {C : Type 0} (max : ℕ) (cl : Bool) (calls : List (ℕ × Task C)) where
  -- A call that waits for no slot does not count.
  pub Fair-cons :
      (k : ℕ) (w : Waiters) (waker : ℕ) (task : Task C)
      → ticket task ≡ none
      → Fair max cl calls k w
      → Fair max cl ((waker, task) ∷ calls) k w
  Fair-cons k w waker task e f = record {
    owned = λ i l. ground (arith, f.owned i l, e);
    owed = ground (arith, f.owed, e);
    told = λ i n. ground (arith, f.told i n, e);
  }

  pub Fair-uncons :
      (k : ℕ) (w : Waiters) (waker : ℕ) (task : Task C)
      → ticket task ≡ none
      → Fair max cl ((waker, task) ∷ calls) k w
      → Fair max cl calls k w
  Fair-uncons k w waker task e f = record {
    owned = λ i l. ground (arith, f.owned i l, e);
    owed = ground (arith, f.owed, e);
    told = λ i n. ground (arith, f.told i n, e);
  }

  -- Leaving the queue on a poll that is ready.
  pub withdraw-Fair :
      (k : ℕ) (w : Waiters) (waker : ℕ) (task : Task C) (o : Option ℕ)
      → IsQueue w
      → ticket task ≡ o
      → Fair max cl ((waker, task) ∷ calls) k w
      → Fair max cl calls (suc k) (withdraw w o)
  withdraw-Fair k w waker task none q e f =
      Fair-le max cl calls k (suc k) w (omega arith) (Fair-uncons k w waker task e f)
  withdraw-Fair k w waker task (some id) q e f =
      Fair-le max cl calls _ (suc k) _ (ground arith)
        (unregister-Fair max cl calls k w waker id task q e f)

  pub hand_on-Fair :
      (k : ℕ) (w : Waiters) (b : Bool)
      → IsQueue w
      → Fair max cl calls (k + (if b then 0 else 1)) w
      → Fair max cl calls k (hand_on (w, b))
  hand_on-Fair k w true q f = Fair-le max cl calls (k + 0) k w (omega arith) f
  hand_on-Fair k w false q f = wake-Fair max cl calls k 1 w q f

module _ {C : Type 0} (cfg : PoolConfig) {cl : Bool} (calls : List (ℕ × Task C)) where
  pub record_acquire-Balanced :
      (k : ℕ) (p : Inner C) (waited : Bool) (t : ℕ)
      → Balanced cfg cl calls k p
      → Balanced cfg cl calls k (record_acquire p waited t)
  unfolding record_acquire
  record_acquire-Balanced k p waited t f =
      Fair-same cfg.max_size cl calls k p.waiters _ refl refl refl f

module _ {C : Type 0} (E : Type 0) (cfg : PoolConfig) {cl : Bool} (waker : ℕ)
    (calls : List (ℕ × Task C)) where
  -- A guard comes out of the run, in a suspended call or with the caller.
  pub keep_one :
      (h : ℕ) (p : Inner C) (task : Task C)
      → held_by task ≡ 1
      → ticket task ≡ none
      → Balanced cfg cl calls (suc h) p
      → Rations {E = E} cfg cl waker calls h (p, pending task)
  keep_one h p task e t f =
      Fair-cons cfg.max_size cl calls _ p.waiters waker task t
        (Fair-le cfg.max_size cl calls (suc h) _ p.waiters (omega arith) f)

  pub found-Rations :
      (h : ℕ) (q : Inner C) (waited : Bool) (t : ℕ) (task : Task C) (conn : Conn C)
      → held_by task ≡ 1
      → ticket task ≡ none
      → Balanced cfg cl calls (suc h) q
      → Rations {E = E} cfg cl waker calls h (
          if q.config.test_on_check_out
          then (q, pending task)
          else (record_acquire q waited t, got conn))
  found-Rations h q waited t task conn e n f = elim (Bool-cases q.config.test_on_check_out) [
    | inl test ↦ simp test (keep_one h q task e n f)
    | inr trust ↦ simp trust (
        Fair-le cfg.max_size cl calls (suc h) (h + 1) _ (omega arith)
          (record_acquire-Balanced cfg calls (suc h) q waited t f))
  ]

module _ {C E : Type 0} (cfg : PoolConfig) {cl : Bool} (ids waker : ℕ)
    (calls : List (ℕ × Task C)) where
  take_or_open-Rations :
      {h : ℕ} (again : Inner C → Inner C × Outcome C E) (r : Inner C × Option (Conn C))
      (start : Instant) (waited : Bool) (now : Instant)
      → h < cfg.max_size
      → Popped cfg cl ids h now r
      → Balanced cfg cl calls (suc h) r.0
      → Rations cfg cl waker calls h (take_or_open again r start waited now)
  unfolding take_or_open
  take_or_open-Rations {h} again (q, some conn) start waited now l (x, v) f =
      found-Rations E cfg waker calls h q waited (elapsed start now)
        (get_validating start waited conn) conn refl refl f
  take_or_open-Rations {h} again (q, none) start waited now l (x, v) f =
      elim (try_reserve-IsLocal q v) [
        | inl (room, yes', w) ↦ rw yes' (
            keep_one E cfg waker calls h (try_reserve q).0 (get_dialing start waited) refl refl
              (try_reserve-Balanced cfg calls (suc h) q f))
        | inr (full, same) ↦ absurd (omega (arith, ap length x, v.shared_out))
      ]

  pub after_wait-Rations :
      {h : ℕ} (again : Inner C → Inner C × Outcome C E) (p : Inner C) (start : Instant)
      (waited : Bool) (now : Instant)
      → (cl ≡ true) ⊎ (h < cfg.max_size)
      → IsLocal cfg cl ids h p
      → Balanced cfg cl calls (suc h) p
      → Rations cfg cl waker calls h (after_wait again p start waited now)
  unfolding after_wait
  after_wait-Rations {h} again p start waited now room v f = elim (Bool-cases p.closed) [
    | inl shut ↦
        simp shut (Fair-closed cfg.max_size cl calls (suc h) _ p.waiters (sym v.flagged ∙ shut) f)
    | inr not_shut ↦ simp not_shut (
        take_or_open-Rations again (pop_fresh_idle p now) start waited now
          (ground (arith, v.flagged)) (pop_fresh_idle-Popped p now v)
          (pop_fresh_idle-Balanced cfg calls (suc h) p now v f))
  ]
