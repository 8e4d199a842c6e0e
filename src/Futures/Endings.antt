-- ===== src/Futures/Endings.antt =====
-- What a call that is dropped or timed out where it is suspended gives back.
use compio_pool.Prelude.{ℕ, ◌+◌, refl, Bool, arith, add_u64}
use compio_pool.Config.{PoolConfig}
use compio_pool.Inner.{Inner, on_metrics}
use compio_pool.Local.Slots.{IsLocal}
use compio_pool.Local.Guards.{drop_held-IsLocal}
use compio_pool.Wait.Laws.{drop-IsLocal}
use compio_pool.Futures.{
  Task, get_waiting, get_validating, get_dialing, get_sleeping, try_validating, try_dialing,
  warm_dialing, pending, failed, cancel, time_out,
}
use compio_pool.Futures.Accounts.{held_by, Settles, recount, settle_none, settle_one}

module _ {C : Type 0} {cfg : PoolConfig} {cl : Bool} {ids : ℕ} where
  note_timeout :
      {h : ℕ} (p : Inner C)
      → IsLocal cfg cl ids h p
      → IsLocal cfg cl ids h
          (on_metrics (λ m. record m { get_timed_out = add_u64 m.get_timed_out 1 }) p)
  unfolding on_metrics
  note_timeout p v = ground arith

  -- A call that is dropped where it is suspended, on a pool whose accounts hold, gives back what it
  -- holds: the accounts hold without it.
  pub cancel-IsLocal :
      {h : ℕ} (p : Inner C) (task : Task C)
      → IsLocal cfg cl ids (held_by task + h) p
      → IsLocal cfg cl ids h (cancel p task)
  unfolding cancel
  cancel-IsLocal p (get_waiting start waited wait) v =
      drop-IsLocal p wait (recount p (omega arith) v)
  cancel-IsLocal p (get_validating start waited conn) v =
      drop_held-IsLocal p (recount p (omega arith) v)
  cancel-IsLocal p (get_dialing start waited) v = drop_held-IsLocal p (recount p (omega arith) v)
  cancel-IsLocal p (get_sleeping start waited until) v = recount p (omega arith) v
  cancel-IsLocal p (try_validating conn) v = drop_held-IsLocal p (recount p (omega arith) v)
  cancel-IsLocal p try_dialing v = drop_held-IsLocal p (recount p (omega arith) v)
  cancel-IsLocal p (warm_dialing n) v = drop_held-IsLocal p (recount p (omega arith) v)

module _ {C E : Type 0} {cfg : PoolConfig} {cl : Bool} {ids : ℕ} where
  pub time_out-Settles :
      (h : ℕ) (p : Inner C) (task : Task C)
      → IsLocal cfg cl ids (held_by task + h) p
      → Settles {E = E} cfg cl ids h (time_out p task)
  unfolding time_out
  time_out-Settles h p (try_validating conn) v =
      settle_one p (pending _) (λ x. cc) refl (recount p (omega arith) v)
  time_out-Settles h p try_dialing v =
      settle_one p (pending _) (λ x. cc) refl (recount p (omega arith) v)
  time_out-Settles h p (warm_dialing n) v =
      settle_none _ (failed _) (λ x. cc) refl (cancel-IsLocal p (warm_dialing n) v)
  time_out-Settles h p task v =
      settle_none _ (failed _) (λ x. cc) refl (note_timeout _ (cancel-IsLocal p task v))
