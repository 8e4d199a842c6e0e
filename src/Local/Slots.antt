-- ===== src/Local/Slots.antt =====
-- The slot accounting of one thread's pool: a slot for every idle connection and for every guard
-- that is out, within `max_size`, with the gauges and the waiter queue in step.
use compio_pool.Prelude.{
  ℕ, suc, ◌+◌, ◌≤◌, ◌<◌, ◌≡◌, refl, ap, ◌∙◌, ◌⊎◌, inl, inr, Bool, true, false, Bool-cases,
  Option-cases, Option, none, some, List, [], ◌∷◌, length, arith, u32_mod,
}
use compio_pool.Config.{PoolConfig}
use compio_pool.Metrics.{Metrics, Expiry, inc_conn, dec_conn, inc_idle, dec_idle, no_metrics}
use compio_pool.Metrics
use compio_pool.Waiters.Queue.{IsQueue}
use compio_pool.Waiters.Wake.{
  others, wake-others, wake_all-others, wake-next_id, wake_all-next_id, wake-IsQueue,
  wake_all-IsQueue,
}
use compio_pool.Conn.{Instant, Conn, expiry}
use compio_pool.Inner.{
  Inner, new, take_slot, release_slots, notify, release_slot, pop_idle, note_expired, note_broken,
  note_created, note_closed_manual,
}
use compio_pool.Local.{try_reserve, record_acquire, pop_fresh_from, pop_fresh_idle}

-- `held` guards are out: connections checked out, and slots reserved for a connection that is being
-- opened or validated. The configuration and the closed flag are those given, and no waiter id
-- beyond `ids` is the next to be handed out.
pub record IsLocal {C : Type 0} (cfg : PoolConfig) (closed : Bool) (ids held : ℕ) (p : Inner C)
    : Type 0 where
  pub configured : p.config ≡ cfg
  pub flagged : p.closed ≡ closed
  pub shared_out : p.slots ≡ length p.idle + held
  pub capped : p.slots ≤ cfg.max_size
  pub sized : cfg.max_size < u32_mod
  pub connections_gauge : p.waiters.metrics.connections ≡ p.slots
  pub idle_gauge : p.waiters.metrics.idle ≡ length p.idle
  pub given : p.waiters.next_id ≤ ids
  pub queue : IsQueue p.waiters

-- A new thread's pool is empty, with no guard out.
pub new-IsLocal :
    {C : Type 0} (cfg : PoolConfig) (cl : Bool)
    → cfg.max_size < u32_mod
    → IsLocal {C = C} cfg cl 1 0 (new cfg cl)
unfolding new
new-IsLocal cfg cl h = ground arith

module _ {C : Type 0} where
  -- A wake-up changes neither the pool's own state nor the gauges of slots and idle connections.
  pub notify_keeps :
      (p : Inner C) (n : ℕ)
      → let q = notify p n in
        (q.config ≡ p.config)
        × (q.closed ≡ p.closed)
        × (q.idle ≡ p.idle)
        × (q.slots ≡ p.slots)
        × (others q.waiters.metrics ≡ others p.waiters.metrics)
        × (q.waiters.next_id ≡ p.waiters.next_id)
  unfolding notify
  notify_keeps p n = ground (
    arith,
    wake-others p.waiters n,
    wake_all-others p.waiters,
    wake-next_id p.waiters n,
    wake_all-next_id p.waiters,
  )

  pub notify-IsQueue : (p : Inner C) (n : ℕ) → IsQueue p.waiters → IsQueue (notify p n).waiters
  unfolding notify
  notify-IsQueue p n v = elim (Bool-cases p.closed) [
    | inl e ↦ rw e (wake_all-IsQueue p.waiters v)
    | inr e ↦ rw e (wake-IsQueue p.waiters n v)
  ]

  pub release_slot-idle : (p : Inner C) → (release_slot p).idle ≡ p.idle
  unfolding release_slot release_slots
  release_slot-idle p = (notify_keeps _ 1).2

-- What `pop_fresh_idle` returns: a guard for a connection that has not expired, or nothing, and then
-- no idle connection is left.
abbrev pub Popped :
    {C : Type 0} → PoolConfig → Bool → ℕ → ℕ → Instant → Inner C × Option (Conn C) → Type 0
Popped cfg cl ids h now (p, some conn) = (expiry conn now cfg ≡ none) × IsLocal cfg cl ids (suc h) p
Popped cfg cl ids h now (p, none) = (p.idle ≡ []) × IsLocal cfg cl ids h p

module _ {C : Type 0} {cfg : PoolConfig} {cl : Bool} {ids : ℕ} where
  pub notify-IsLocal :
      {h : ℕ} (p : Inner C) (n : ℕ) → IsLocal cfg cl ids h p → IsLocal cfg cl ids h (notify p n)
  notify-IsLocal p n v =
      let (a, b, c, d, e, f') = notify_keeps p n in
      let f = ap (λ (m : Metrics). m.connections) e in
      let g = ap (λ (m : Metrics). m.idle) e in
      record {
        configured = ground arith;
        flagged = ground arith;
        shared_out = ground arith;
        capped = ground arith;
        sized = ground arith;
        connections_gauge = ground arith;
        idle_gauge = ground arith;
        given = ground arith;
        queue = notify-IsQueue p n v.queue;
      }

  -- Giving a guard's slot back accounts for one guard less.
  pub release_slot-IsLocal :
      {h : ℕ} (p : Inner C) → IsLocal cfg cl ids (suc h) p → IsLocal cfg cl ids h (release_slot p)
  unfolding release_slot release_slots
  release_slot-IsLocal p v = notify-IsLocal _ 1 (ground arith)

  pub note_expired-IsLocal :
      {h : ℕ} (p : Inner C) (r : Expiry)
      → IsLocal cfg cl ids h p
      → IsLocal cfg cl ids h (note_expired p r)
  unfolding note_expired Metrics.note_expired
  note_expired-IsLocal p Expiry.idle_timeout v = ground arith
  note_expired-IsLocal p Expiry.max_lifetime v = ground arith

  pub note_created-IsLocal :
      {h : ℕ} (p : Inner C) → IsLocal cfg cl ids h p → IsLocal cfg cl ids h (note_created p)
  unfolding note_created
  note_created-IsLocal p v = ground arith

  pub note_broken-IsLocal :
      {h : ℕ} (p : Inner C) → IsLocal cfg cl ids h p → IsLocal cfg cl ids h (note_broken p)
  unfolding note_broken
  note_broken-IsLocal p v = ground arith

  pub note_closed_manual-IsLocal :
      {h : ℕ} (p : Inner C) (n : ℕ)
      → IsLocal cfg cl ids h p
      → IsLocal cfg cl ids h (note_closed_manual p n)
  unfolding note_closed_manual
  note_closed_manual-IsLocal p n v = ground arith

  pub record_acquire-IsLocal :
      {h : ℕ} (p : Inner C) (waited : Bool) (elapsed : ℕ)
      → IsLocal cfg cl ids h p
      → IsLocal cfg cl ids h (record_acquire p waited elapsed)
  unfolding record_acquire
  record_acquire-IsLocal p true elapsed v = ground arith
  record_acquire-IsLocal p false elapsed v = ground arith

  -- A slot is reserved exactly when there is room below `max_size`; it counts as a guard.
  pub try_reserve-IsLocal :
      {h : ℕ} (p : Inner C)
      → IsLocal cfg cl ids h p
      → ((p.slots < cfg.max_size)
          × ((try_reserve p).1 ≡ true)
          × IsLocal cfg cl ids (suc h) (try_reserve p).0)
        ⊎ ((p.slots ≡ cfg.max_size) × (try_reserve p ≡ (p, false)))
  unfolding try_reserve take_slot
  try_reserve-IsLocal p v = ground arith

  -- Taking the connection at the front of the idle list turns its slot into a guard's.
  pub pop_idle-IsLocal :
      {h : ℕ} (p : Inner C) (conn : Conn C) (rest : List (Conn C))
      → p.idle ≡ conn ∷ rest
      → IsLocal cfg cl ids h p
      → IsLocal cfg cl ids (suc h) (pop_idle p (conn ∷ rest)).0
  unfolding pop_idle
  pop_idle-IsLocal p conn rest e v = ground arith

  -- An expired connection is discarded: its slot is given back.
  pub discard-IsLocal :
      {h : ℕ} (p : Inner C) (conn : Conn C) (rest : List (Conn C)) (reason : Expiry)
      → p.idle ≡ conn ∷ rest
      → IsLocal cfg cl ids h p
      → let q = release_slot (note_expired (pop_idle p (conn ∷ rest)).0 reason) in
        (q.idle ≡ rest) × IsLocal cfg cl ids h q
  discard-IsLocal p conn rest reason e v = (
    release_slot-idle _ ∙ unfold pop_idle note_expired in refl,
    release_slot-IsLocal _ (note_expired-IsLocal _ reason (pop_idle-IsLocal p conn rest e v)),
  )

  pop_fresh_from-Popped :
      {h : ℕ} (cs : List (Conn C)) (p : Inner C) (now : Instant)
      → p.idle ≡ cs
      → IsLocal cfg cl ids h p
      → Popped cfg cl ids h now (pop_fresh_from cs p now)
  unfolding pop_fresh_from
  pop_fresh_from-Popped [] p now e v = unfold pop_idle in (e, v)
  pop_fresh_from-Popped (conn ∷ rest) p now e v = elim (Option-cases (expiry conn now p.config)) [
    | inl fresh ↦
        rw (fresh, pop_fresh_from) (rw (← v.configured) fresh, pop_idle-IsLocal p conn rest e v)
    | inr (reason, stale) ↦
        let (d, w) = discard-IsLocal p conn rest reason e v in
        rw (stale, pop_fresh_from) (pop_fresh_from-Popped rest _ now d w)
  ]

  -- On a pool whose accounts hold, `pop_fresh_idle` finds a connection that has not expired, for
  -- which a guard is then out, or it leaves the idle list empty. Either way the accounts hold.
  pub pop_fresh_idle-Popped :
      {h : ℕ} (p : Inner C) (now : Instant)
      → IsLocal cfg cl ids h p
      → Popped cfg cl ids h now (pop_fresh_idle p now)
  unfolding pop_fresh_idle
  pop_fresh_idle-Popped p now v = pop_fresh_from-Popped p.idle p now refl v
