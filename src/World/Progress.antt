-- ===== src/World/Progress.antt =====
-- No wake is lost: in every history, whatever is free while tasks are parked is on its way to one.
use compio_pool.Prelude.{
  ℕ, suc, ◌+◌, ◌-◌, ◌≤◌, ◌<◌, ◌≡◌, ◌≢◌, refl, ap, ◌⊎◌, inl, inr, Bool, true, false, Bool-cases,
  Option, none, some, List, [], ◌∷◌, length, get_elem?, arith, leb, ltb, total, if◌then◌else◌,
  u32_mod, u64_mod,
}
use compio_pool.Config.{PoolConfig}
use compio_pool.Manage.{ManageConnection}
use compio_pool.Conn.{Instant}
use compio_pool.Inner.{Inner}
use compio_pool.Local.{ready_now}
use compio_pool.Wait.{WaitReady, poll}
use compio_pool.Futures.{
  Task, get_waiting, get_validating, get_dialing, get_sleeping, try_validating, try_dialing,
  warm_dialing,
}
use compio_pool.Futures.Tickets.{ticket, served, is_served, parked, is_parked}
use compio_pool.Waiters.Search.{Entry}
use compio_pool.Waiters.Count.{times, times-le, queued-above}
use compio_pool.World.{Event, fresh_world, run}
use compio_pool.World.Slots.{fresh-IsWorld}
use compio_pool.World.Slots.{run-slots, run-IsWorld}
use compio_pool.Futures.Parking.{none_idle}
use compio_pool.World.Fairness.{run-IsFair, fresh-IsFair}

-- Whether a call's waker has been called under the id that it still queues under. A call that runs
-- after that leaves or queues anew under another id: it has not run since.
abbrev pub is_roused : List Entry → ℕ → Option ℕ → ℕ
is_roused scheduled waker none = 0
is_roused scheduled waker (some id) = if ltb 0 (times id waker scheduled) then 1 else 0

-- How many calls are in that state.
abbrev pub roused : {C : Type 0} → List Entry → List (ℕ × Task C) → ℕ
roused scheduled calls = total (λ c. is_roused scheduled c.0 (ticket c.1)) calls

module _ (entries scheduled : List Entry) (u : ℕ)
    (gone : (i n : ℕ) → i ≤ u → times i n entries ≡ 0) where
  roused_one :
      (waker : ℕ) (o : Option ℕ)
      → ((i n : ℕ) → is_parked i n waker o ≤ times i n entries + times i n scheduled)
      → is_served u o ≤ is_roused scheduled waker o
  roused_one waker none h = omega arith
  roused_one waker (some id) h = elim (Bool-cases (leb id u)) [
    | inl past ↦ ground (arith, past, h id waker, gone id waker)
    | inr later ↦ ground (arith, later)
  ]

  served-le :
      {C : Type 0} (calls : List (ℕ × Task C))
      → ((i n : ℕ) → parked i n calls ≤ times i n entries + times i n scheduled)
      → served u calls ≤ roused scheduled calls
  served-le [] h = omega arith
  served-le ((waker, task) ∷ calls) h = omega (
    arith,
    roused_one waker (ticket task) (λ i n. omega (arith, h i n)),
    served-le calls (λ i n. omega (arith, h i n)),
  )

-- In every history of a thread's pool that starts with an empty pool, whose `max_size` is a `u32`,
-- and that is shorter than 2^64 - 1 events: while the pool is open and tasks are parked, there are
-- at least as many calls whose waker, the one of their last poll, has been called since they queued,
-- and which have not run since, as there are idle connections and free slots together. No unit of
-- capacity is left to wait for somebody to ask for it.
pub no_lost_wake :
    {C E : Type 0} (m : ManageConnection C) (cfg : PoolConfig) (es : List (Instant × Event C E))
    → cfg.max_size < u32_mod
    → 1 + length es < u64_mod
    → (run m (fresh_world cfg) es).inner.closed ≡ false
    → (run m (fresh_world cfg) es).inner.waiters.entries ≢ []
    → let w = run m (fresh_world cfg) es in
      length w.inner.idle + (cfg.max_size - w.inner.slots)
      ≤ roused w.inner.waiters.scheduled w.calls
no_lost_wake m cfg es small few open' parked =
    let v = run-slots m cfg es small few in
    let f =
      run-IsFair cfg {ids = 1} m (fresh_world cfg) es few (fresh-IsWorld cfg small)
        (fresh-IsFair cfg) in
    let q = (run-IsWorld {ids = 1} m (fresh_world cfg) es few (fresh-IsWorld cfg small)).queue in
    let w = (run m (fresh_world cfg) es).inner.waiters in
    let enough =
      served-le w.entries w.scheduled w.woken_upto
        (λ i n l. omega (
          arith,
          times-le i n w.entries,
          queued-above w.woken_upto w.entries w.next_id i q.ordered l,
        ))
        (run m (fresh_world cfg) es).calls f.told in
    ground (arith, f.owed, v.0, v.1, enough)

-- A call that is parked for a slot and whose waker has been called under the id that it queues under,
-- by its place among the suspended calls.
pub record Woken {C : Type 0} (scheduled : List Entry) (calls : List (ℕ × Task C)) : Type 0 where
  pub place : ℕ
  pub waker : ℕ
  pub start : Instant
  pub waited : Bool
  pub wait : WaitReady
  pub found : get_elem? calls place ≡ some (waker, get_waiting start waited wait)
  pub id : ℕ
  pub queued_as : wait.id ≡ some id
  pub called : 0 < times id waker scheduled

is_roused-or :
    (scheduled : List Entry) (waker : ℕ) (o : Option ℕ)
    → ((id : ℕ) × (o ≡ some id) × (0 < times id waker scheduled))
      ⊎ (is_roused scheduled waker o ≡ 0)
is_roused-or scheduled waker none = inr refl
is_roused-or scheduled waker (some id) = elim (Bool-cases (ltb 0 (times id waker scheduled))) [
  | inl yes' ↦ inl (id, refl, ground (arith, yes'))
  | inr no' ↦ inr (rw no' refl)
]

module _ {C : Type 0} (u : List Entry) where
  later : (c : ℕ × Task C) (calls : List (ℕ × Task C)) → Woken u calls → Woken u (c ∷ calls)
  later c calls x = record {
    place = suc x.place;
    waker = x.waker;
    start = x.start;
    waited = x.waited;
    wait = x.wait;
    found = x.found;
    id = x.id;
    queued_as = x.queued_as;
    called = x.called;
  }

  some_roused : (calls : List (ℕ × Task C)) → 0 < roused u calls → Woken u calls
  some_roused [] h = absurd (omega arith)
  some_roused ((waker, get_waiting start waited wait) ∷ calls) h =
      elim (is_roused-or u waker wait.id) [
        | inl (id, e, c) ↦ record {
          place = 0;
          waker = waker;
          start = start;
          waited = waited;
          wait = wait;
          found = refl;
          id = id;
          queued_as = e;
          called = c;
        }
        | inr no' ↦ later _ calls (some_roused calls (omega arith))
      ]
  some_roused ((waker, get_validating start waited conn) ∷ calls) h =
      later _ calls (some_roused calls (omega arith))
  some_roused ((waker, get_dialing start waited) ∷ calls) h =
      later _ calls (some_roused calls (omega arith))
  some_roused ((waker, get_sleeping start waited until) ∷ calls) h =
      later _ calls (some_roused calls (omega arith))
  some_roused ((waker, try_validating conn) ∷ calls) h =
      later _ calls (some_roused calls (omega arith))
  some_roused ((waker, try_dialing) ∷ calls) h = later _ calls (some_roused calls (omega arith))
  some_roused ((waker, warm_dialing n) ∷ calls) h = later _ calls (some_roused calls (omega arith))

free_ready :
    {C : Type 0} (p : Inner C) (max : ℕ)
    → p.config.max_size ≡ max
    → (p.idle ≢ []) ⊎ (p.slots < max)
    → ready_now p ≡ true
unfolding ready_now
free_ready p max e (inl some') =
    let n : length p.idle ≢ 0 = λ z. some' (none_idle p.idle z) in ground (arith, n)
free_ready p max e (inr room) = ground arith

poll_free :
    {C : Type 0} (p : Inner C) (wait : WaitReady) (waker max : ℕ)
    → p.config.max_size ≡ max
    → (p.idle ≢ []) ⊎ (p.slots < max)
    → (poll p wait waker).2 ≡ true
unfolding poll
poll_free p wait waker max e h = rw (free_ready p max e h) refl

some_capacity :
    {A : Type 0} (xs : List A) (slots max n : ℕ)
    → (xs ≢ []) ⊎ (slots < max)
    → length xs + (max - slots) ≤ n
    → 0 < n
some_capacity [] slots max n (inl h) l = absurd (h refl)
some_capacity (x ∷ xs) slots max n (inl h) l = omega arith
some_capacity xs slots max n (inr h) l = omega arith

-- In every history of a thread's pool that starts with an empty pool, whose `max_size` is a `u32`,
-- and that is shorter than 2^64 - 1 events: while the pool is open and tasks are parked, and a
-- connection is idle or a slot is free, there is a parked call whose waker has been called since it
-- queued, and that finds the pool ready when it is polled. So the executor has a task to run, which
-- can proceed.
pub woken_proceeds :
    {C E : Type 0} (m : ManageConnection C) (cfg : PoolConfig) (es : List (Instant × Event C E))
    → cfg.max_size < u32_mod
    → 1 + length es < u64_mod
    → (run m (fresh_world cfg) es).inner.closed ≡ false
    → (run m (fresh_world cfg) es).inner.waiters.entries ≢ []
    → ((run m (fresh_world cfg) es).inner.idle ≢ [])
      ⊎ ((run m (fresh_world cfg) es).inner.slots < cfg.max_size)
    → let w = run m (fresh_world cfg) es in
      (x : Woken w.inner.waiters.scheduled w.calls) × ((poll w.inner x.wait x.waker).2 ≡ true)
woken_proceeds m cfg es small few open' parked free =
    let w = run m (fresh_world cfg) es in
    let enough = no_lost_wake m cfg es small few open' parked in
    let x =
      some_roused w.inner.waiters.scheduled w.calls
        (some_capacity w.inner.idle w.inner.slots cfg.max_size _ free enough) in
    let v = run-IsWorld {ids = 1} m (fresh_world cfg) es few (fresh-IsWorld cfg small) in
    (
      x,
      poll_free w.inner x.wait x.waker cfg.max_size
          (ap (λ (c : PoolConfig). c.max_size) v.configured) free,
    )
