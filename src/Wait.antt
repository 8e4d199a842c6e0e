-- ===== src/Wait.antt =====
-- src/pool.rs, `WaitReady`: the future on which `get` waits for an idle connection, a free slot or
-- the closing of the pool.
pub mod Laws
use compio_pool.Prelude.{ℕ, Bool, true, false, Option, none, some, if◌then◌else◌}
use compio_pool.Waiters.{Waiters}
use compio_pool.Waiters
use compio_pool.Inner.{Inner}
use compio_pool.Local.{ready_now}

-- `struct WaitReady`, without the pool that it borrows.
pub record WaitReady : Type 0 where
  pub id : Option ℕ
  pub parked : Bool

-- `LocalPool::wait_ready`.
abbrev pub wait_ready : WaitReady
wait_ready = record { id = none; parked = false }

-- The first step of a poll that finds the pool ready.
abbrev pub withdraw : Waiters → Option ℕ → Waiters
withdraw w none = w
withdraw w (some id) = (Waiters.unregister w id).0

-- The wake of a dropped waiter that was no longer queued is handed on.
abbrev pub hand_on : Waiters × Bool → Waiters
hand_on (w, true) = w
hand_on (w, false) = Waiters.wake w 1

module _ {C : Type 0} where
  -- `WaitReady::poll` from the task `waker`; the last component says whether the future is ready.
  unfoldable pub poll : Inner C → WaitReady → ℕ → Inner C × WaitReady × Bool
  poll p this waker =
      if ready_now p
      then (let left = withdraw p.waiters this.id in
          (
            record p { waiters = if p.closed then Waiters.wake_all left else left },
            record this { id = none },
            true,
          ))
      else (let (waiting, id) = Waiters.register p.waiters this.id waker in
          (record p { waiters = waiting }, record { id = id; parked = true }, false))

  -- `Drop for WaitReady`.
  unfoldable pub drop : Inner C → WaitReady → Inner C
  drop p this = elim this.id [
    | none ↦ p
    | some id ↦ record p { waiters = hand_on (Waiters.unregister p.waiters id) }
  ]
