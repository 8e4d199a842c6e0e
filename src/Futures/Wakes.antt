-- ===== src/Futures/Wakes.antt =====
-- What the synchronous operations do to the balance of held slots and woken calls.
use compio_pool.Prelude.{
  ℕ, suc, ◌+◌, ◌≡◌, refl, sym, ◌∙◌, inl, inr, Bool, Bool-cases, Option-cases, List, [], ◌∷◌, arith,
  ◌==◌, ltb,
}
use compio_pool.Config.{PoolConfig}
use compio_pool.Manage.{ManageConnection}
use compio_pool.Conn.{Instant, Conn, expiry}
use compio_pool.Inner.{
  Inner, idle_len, release_slots, notify, release_slot, take_slot, push_idle, pop_idle,
  note_expired, note_broken, note_closed_manual,
}
use compio_pool.Local.{
  try_reserve, pop_fresh_from, pop_fresh_idle, into_idle, recycle, drop_pooled, reap, clear,
  sort_out, sweep, forget_idle,
}
use compio_pool.Local.Slots.{
  IsLocal, discard-IsLocal, pop_idle-IsLocal, note_expired-IsLocal, note_broken-IsLocal,
  note_closed_manual-IsLocal,
}
use compio_pool.Local.Maintenance.{sort_out-IsLocal}
use compio_pool.Waiters.Queue.{IsQueue}
use compio_pool.Futures.{Task}
use compio_pool.Futures.Tickets.{Fair, Fair-le, Fair-closed, Fair-same, wake-Fair, wake_all-Fair}

-- The slots are among `k` that are held, or on their way to woken calls.
abbrev pub Balanced : {C : Type 0} → PoolConfig → Bool → List (ℕ × Task C) → ℕ → Inner C → Type 0
Balanced cfg cl calls k p = Fair cfg.max_size cl calls k p.waiters

module _ {C : Type 0} where
  sort_out_queue :
      (cs : List (Conn C)) (now : Instant) (c : PoolConfig) (p : Inner C)
      → let q = (sort_out cs now c p).2 in
        (q.waiters.entries ≡ p.waiters.entries)
        × (q.waiters.woken_upto ≡ p.waiters.woken_upto)
        × (q.waiters.scheduled ≡ p.waiters.scheduled)
  unfolding sort_out note_expired
  sort_out_queue [] now c p = (refl, refl, refl)
  sort_out_queue (conn ∷ rest) now c p = elim (Option-cases (expiry conn now c)) [
    | inl fresh ↦ rw (fresh, sort_out) (sort_out_queue rest now c p)
    | inr (reason, stale) ↦ rw (stale, sort_out) (sort_out_queue rest now c p)
  ]

module _ {C : Type 0} (cfg : PoolConfig) {cl : Bool} (calls : List (ℕ × Task C)) where
  notify-Balanced :
      (k n : ℕ) (p : Inner C)
      → p.closed ≡ cl
      → IsQueue p.waiters
      → Balanced cfg cl calls (k + n) p
      → Balanced cfg cl calls k (notify p n)
  unfolding notify
  notify-Balanced k n p flag q f = elim (Bool-cases p.closed) [
    | inl shut ↦ rw shut (
        wake_all-Fair cfg.max_size cl calls k p.waiters q
          (Fair-closed cfg.max_size cl calls (k + n) k p.waiters (sym flag ∙ shut) f))
    | inr open' ↦ rw open' (wake-Fair cfg.max_size cl calls k n p.waiters q f)
  ]

  pub try_reserve-Balanced :
      (k : ℕ) (p : Inner C) → Balanced cfg cl calls k p → Balanced cfg cl calls k (try_reserve p).0
  unfolding try_reserve take_slot
  try_reserve-Balanced k p f = elim (Bool-cases (ltb p.slots p.config.max_size)) [
    | inl room ↦ rw room (Fair-same cfg.max_size cl calls k p.waiters _ refl refl refl f)
    | inr full ↦ rw full f
  ]

module _ {C : Type 0} (cfg : PoolConfig) {cl : Bool} {ids : ℕ} (calls : List (ℕ × Task C)) where
  -- Giving a slot back hands it to a waiter.
  pub release_slot-Balanced :
      {h : ℕ} (k : ℕ) (p : Inner C)
      → IsLocal cfg cl ids (suc h) p
      → Balanced cfg cl calls (suc k) p
      → Balanced cfg cl calls k (release_slot p)
  unfolding release_slot release_slots
  release_slot-Balanced {h} k p v f =
      notify-Balanced cfg calls k 1 (release_slots p 1) v.flagged
        (record { ordered = v.queue.ordered; mirrored = v.queue.mirrored })
        (Fair-same cfg.max_size cl calls (k + 1) p.waiters (release_slots p 1).waiters refl refl
          refl (Fair-le cfg.max_size cl calls (suc k) (k + 1) p.waiters (omega arith) f))

  pop_fresh_from-Balanced :
      {h : ℕ} (k : ℕ) (cs : List (Conn C)) (p : Inner C) (now : Instant)
      → p.idle ≡ cs
      → IsLocal cfg cl ids h p
      → Balanced cfg cl calls k p
      → Balanced cfg cl calls k (pop_fresh_from cs p now).0
  unfolding pop_fresh_from
  pop_fresh_from-Balanced k [] p now e v f = unfold pop_idle in f
  pop_fresh_from-Balanced k (conn ∷ rest) p now e v f =
      elim (Option-cases (expiry conn now p.config)) [
        | inl fresh ↦
            rw (fresh, pop_fresh_from)
              (unfold pop_idle in Fair-same cfg.max_size cl calls k p.waiters _ refl refl refl f)
        | inr (reason, stale) ↦
            let (d, w) = discard-IsLocal p conn rest reason e v in
            rw (stale, pop_fresh_from)
              (pop_fresh_from-Balanced k rest _ now d w (
                release_slot-Balanced k _
                  (note_expired-IsLocal _ reason (pop_idle-IsLocal p conn rest e v))
                  (unfold pop_idle note_expired in
                    Fair-same cfg.max_size cl calls (suc k) p.waiters _ refl refl refl
                      (Fair-le cfg.max_size cl calls k (suc k) p.waiters (omega arith) f))))
      ]

  pub pop_fresh_idle-Balanced :
      {h : ℕ} (k : ℕ) (p : Inner C) (now : Instant)
      → IsLocal cfg cl ids h p
      → Balanced cfg cl calls k p
      → Balanced cfg cl calls k (pop_fresh_idle p now).0
  unfolding pop_fresh_idle
  pop_fresh_idle-Balanced k p now v f = pop_fresh_from-Balanced k p.idle p now refl v f

  -- A connection that comes back is idle; its slot is no longer held, but a waiter is woken for it.
  park-Balanced :
      {h : ℕ} (k : ℕ) (p : Inner C) (conn : Conn C)
      → IsLocal cfg cl ids h p
      → Balanced cfg cl calls (suc k) p
      → Balanced cfg cl calls k (notify (push_idle p conn) 1)
  unfolding push_idle
  park-Balanced k p conn v f =
      notify-Balanced cfg calls k 1 (push_idle p conn) v.flagged
        (record { ordered = v.queue.ordered; mirrored = v.queue.mirrored })
        (Fair-same cfg.max_size cl calls (k + 1) p.waiters (push_idle p conn).waiters refl refl refl
          (Fair-le cfg.max_size cl calls (suc k) (k + 1) p.waiters (omega arith) f))

  pub into_idle-Balanced :
      {h : ℕ} (k : ℕ) (p : Inner C) (conn : Conn C) (now : Instant)
      → IsLocal cfg cl ids h p
      → Balanced cfg cl calls (suc k) p
      → Balanced cfg cl calls k (into_idle p conn now)
  unfolding into_idle
  into_idle-Balanced k p conn now v f = park-Balanced k p _ v f

  recycle-Balanced :
      {h : ℕ} (k : ℕ) (p : Inner C) (conn : Conn C) (now later : Instant)
      → IsLocal cfg cl ids (suc h) p
      → Balanced cfg cl calls (suc k) p
      → Balanced cfg cl calls k (recycle p conn now later)
  unfolding recycle
  recycle-Balanced k p conn now later v f = elim (Option-cases (expiry conn now p.config)) [
    | inl fresh ↦ rw (fresh, recycle) (park-Balanced k p _ v f)
    | inr (reason, stale) ↦
        rw (stale, recycle)
          (release_slot-Balanced k _ (note_expired-IsLocal p reason v) (
            unfold note_expired in
            Fair-same cfg.max_size cl calls (suc k) p.waiters _ refl refl refl f))
  ]

  pub drop_pooled-Balanced :
      {h : ℕ} (k : ℕ) (m : ManageConnection C) (p : Inner C) (conn : Conn C) (now later : Instant)
      → IsLocal cfg cl ids (suc h) p
      → Balanced cfg cl calls (suc k) p
      → Balanced cfg cl calls k (drop_pooled m p conn now later)
  unfolding drop_pooled
  drop_pooled-Balanced k m p conn now later v f = elim (Bool-cases p.closed) [
    | inl shut ↦ simp shut (
        release_slot-Balanced k _ (note_closed_manual-IsLocal p 1 v) (
          unfold note_closed_manual in
          Fair-same cfg.max_size cl calls (suc k) p.waiters _ refl refl refl f))
    | inr open' ↦ elim (Bool-cases (m.has_broken conn.raw).1) [
      | inl broken ↦
          simp (open', broken)
            (release_slot-Balanced k _ (note_broken-IsLocal p v) (
              unfold note_broken in
              Fair-same cfg.max_size cl calls (suc k) p.waiters _ refl refl refl f))
      | inr sound ↦ simp (open', sound) (recycle-Balanced k p _ now later v f)
    ]
  ]

  sweep-Balanced :
      {h : ℕ} (k n : ℕ) (p : Inner C) (kept : List (Conn C))
      → IsLocal cfg cl ids h p
      → Balanced cfg cl calls k p
      → Balanced cfg cl calls k (sweep p kept n)
  unfolding sweep forget_idle release_slots
  sweep-Balanced k n p kept v f = elim (Bool-cases (n == 0)) [
    | inl none' ↦ rw none' f
    | inr some' ↦ rw some' (
        notify-Balanced cfg calls k n _ v.flagged
          (record { ordered = v.queue.ordered; mirrored = v.queue.mirrored })
          (Fair-same cfg.max_size cl calls (k + n) p.waiters _ refl refl refl
            (Fair-le cfg.max_size cl calls k (k + n) p.waiters (omega arith) f)))
  ]

  pub reap-Balanced :
      {h : ℕ} (k : ℕ) (p : Inner C) (now : Instant)
      → IsLocal cfg cl ids h p
      → Balanced cfg cl calls k p
      → Balanced cfg cl calls k (reap p now).0
  unfolding reap
  reap-Balanced k p now v f =
      let (a, b, s) = sort_out_queue p.idle now p.config p in
      sweep-Balanced k _ _ _ (sort_out-IsLocal p.idle now p.config p v).0
        (Fair-same cfg.max_size cl calls k p.waiters _ (sym a) (sym b) (sym s) f)

  pub clear-Balanced :
      {h : ℕ} (k : ℕ) (p : Inner C)
      → IsLocal cfg cl ids h p
      → Balanced cfg cl calls k p
      → Balanced cfg cl calls k (clear p).0
  unfolding clear forget_idle release_slots note_closed_manual
  clear-Balanced k p v f = elim (Bool-cases (idle_len p == 0)) [
    | inl none' ↦ rw none' (
        notify-Balanced cfg calls k (idle_len p) _ v.flagged v.queue
          (Fair-le cfg.max_size cl calls k _ p.waiters (omega arith) f))
    | inr some' ↦ rw some' (
        notify-Balanced cfg calls k (idle_len p) _ v.flagged
          (record { ordered = v.queue.ordered; mirrored = v.queue.mirrored })
          (Fair-same cfg.max_size cl calls (k + idle_len p) p.waiters _ refl refl refl
            (Fair-le cfg.max_size cl calls k _ p.waiters (omega arith) f)))
  ]
