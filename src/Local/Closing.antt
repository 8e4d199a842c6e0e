-- ===== src/Local/Closing.antt =====
-- A closed pool hands the news on: whatever gives capacity back wakes every waiter.
use compio_pool.Prelude.{
  ℕ, ◌<◌, ◌≡◌, refl, ◌++◌, inl, inr, true, Bool-cases, [], length, u32_mod, ◌==◌,
}
use compio_pool.Manage.{ManageConnection}
use mathlib.Core.List.{reverse}
use compio_pool.Waiters.Wake.{wake_all-entries, wake_all-scheduled}
use compio_pool.Conn.{Instant, Conn}
use compio_pool.Inner.{Inner, idle_len, release_slots, release_slot, notify, note_closed_manual}
use compio_pool.Local.{forget_idle, clear, drop_held, take, drop_pooled}

-- The queue of `p` is emptied into the run queue: each of its wakers has been called, oldest first.
abbrev pub IsDrained : {C : Type 0} → Inner C → Inner C → Type 0
IsDrained p q =
    (q.waiters.entries ≡ [])
    × (q.waiters.scheduled ≡ reverse p.waiters.entries ++ p.waiters.scheduled)

module _ {C : Type 0} where
  notify-closed :
      (p : Inner C) (n : ℕ)
      → p.closed ≡ true
      → length p.waiters.entries < u32_mod
      → IsDrained p (notify p n)
  unfolding notify
  notify-closed p n shut few =
      simp shut (wake_all-entries p.waiters few, wake_all-scheduled p.waiters few)

  release_slot-closed :
      (p : Inner C)
      → p.closed ≡ true
      → length p.waiters.entries < u32_mod
      → IsDrained p (release_slot p)
  unfolding release_slot release_slots
  release_slot-closed p shut few = notify-closed _ 1 shut few

  drop_pooled-closed :
      (m : ManageConnection C) (p : Inner C) (conn : Conn C) (now later : Instant)
      → p.closed ≡ true
      → length p.waiters.entries < u32_mod
      → IsDrained p (drop_pooled m p conn now later)
  unfolding drop_pooled note_closed_manual
  drop_pooled-closed m p conn now later shut few = simp shut (release_slot-closed _ refl few)

  clear-closed :
      (p : Inner C) → p.closed ≡ true → length p.waiters.entries < u32_mod → IsDrained p (clear p).0
  unfolding clear forget_idle release_slots note_closed_manual
  clear-closed p shut few = elim (Bool-cases (idle_len p == 0)) [
    | inl none' ↦ rw none' (notify-closed _ (idle_len p) shut few)
    | inr some' ↦ rw some' (notify-closed _ (idle_len p) shut few)
  ]

  -- On a closed pool, whose queue is no longer than a `u32` can say, no task is left parked after a
  -- connection comes back, a reserved slot is given up, a connection is taken out for good, or the
  -- pool is cleared: each of these takes the whole queue off, and has called the waker of each task
  -- that was in it, oldest first.
  pub closed-drains :
      (m : ManageConnection C) (p : Inner C) (conn : Conn C) (now later : Instant)
      → p.closed ≡ true
      → length p.waiters.entries < u32_mod
      → (IsDrained p (drop_pooled m p conn now later))
        × IsDrained p (drop_held p)
        × IsDrained p (take p conn).0
        × (IsDrained p (clear p).0)
  closed-drains m p conn now later shut few = (
    drop_pooled-closed m p conn now later shut few,
    unfold drop_held in release_slot-closed p shut few,
    unfold take in release_slot-closed p shut few,
    clear-closed p shut few,
  )
