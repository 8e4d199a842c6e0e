-- ===== src/Local/Guards.antt =====
-- The guards `Held` and `PooledConnection`: every way in which one ends keeps the accounts.
use compio_pool.Prelude.{
  ℕ, suc, ◌≡◌, ◌≢◌, ◌⊎◌, inl, inr, Bool, true, false, Bool-cases, Option-cases, none, ◌∷◌, arith,
}
use compio_pool.Config.{PoolConfig}
use compio_pool.Manage.{ManageConnection}
use compio_pool.Conn.{Instant, Conn, expiry}
use compio_pool.Inner.{Inner, note_expired, note_broken, note_closed_manual, push_idle}
use compio_pool.Local.{drop_held, into_idle, take, recycle, drop_pooled}
use compio_pool.Local.Slots.{
  IsLocal, notify_keeps, notify-IsLocal, release_slot-IsLocal, release_slot-idle,
  note_expired-IsLocal, note_broken-IsLocal, note_closed_manual-IsLocal,
}

module _ {C : Type 0} {cfg : PoolConfig} {cl : Bool} {ids : ℕ} where
  pub drop_held-IsLocal :
      {h : ℕ} (p : Inner C) → IsLocal cfg cl ids (suc h) p → IsLocal cfg cl ids h (drop_held p)
  unfolding drop_held
  drop_held-IsLocal p v = release_slot-IsLocal p v

  push_idle-IsLocal :
      {h : ℕ} (p : Inner C) (conn : Conn C)
      → IsLocal cfg cl ids (suc h) p
      → IsLocal cfg cl ids h (push_idle p conn)
  unfolding push_idle
  push_idle-IsLocal p conn v = ground arith

  pub into_idle-IsLocal :
      {h : ℕ} (p : Inner C) (conn : Conn C) (now : Instant)
      → IsLocal cfg cl ids (suc h) p
      → IsLocal cfg cl ids h (into_idle p conn now)
  unfolding into_idle
  into_idle-IsLocal p conn now v = notify-IsLocal _ 1 (push_idle-IsLocal p _ v)

  pub take-IsLocal :
      {h : ℕ} (p : Inner C) (conn : Conn C)
      → IsLocal cfg cl ids (suc h) p
      → IsLocal cfg cl ids h (take p conn).0
  unfolding take
  take-IsLocal p conn v = release_slot-IsLocal p v

  recycle-IsLocal :
      {h : ℕ} (p : Inner C) (conn : Conn C) (now later : Instant)
      → IsLocal cfg cl ids (suc h) p
      → IsLocal cfg cl ids h (recycle p conn now later)
  unfolding recycle
  recycle-IsLocal p conn now later v = elim (Option-cases (expiry conn now p.config)) [
    | inl fresh ↦ rw (fresh, recycle) (notify-IsLocal _ 1 (push_idle-IsLocal p _ v))
    | inr (reason, stale) ↦
        rw (stale, recycle) (release_slot-IsLocal _ (note_expired-IsLocal p reason v))
  ]

  -- On a pool whose accounts hold, however a checked-out connection comes back, its guard's slot is given back or taken over by
  -- the idle list.
  pub drop_pooled-IsLocal :
      {h : ℕ} (m : ManageConnection C) (p : Inner C) (conn : Conn C) (now later : Instant)
      → IsLocal cfg cl ids (suc h) p
      → IsLocal cfg cl ids h (drop_pooled m p conn now later)
  unfolding drop_pooled
  drop_pooled-IsLocal m p conn now later v = elim (Bool-cases p.closed) [
    | inl shut ↦ simp shut (release_slot-IsLocal _ (note_closed_manual-IsLocal p 1 v))
    | inr open' ↦ elim (Bool-cases (m.has_broken conn.raw).1) [
      | inl broken ↦ simp (open', broken) (release_slot-IsLocal _ (note_broken-IsLocal p v))
      | inr sound ↦ simp (open', sound) (recycle-IsLocal p _ now later v)
    ]
  ]

recycle-idle :
    {C : Type 0} (p : Inner C) (conn : Conn C) (now later : Instant)
    → ((expiry conn now p.config ≡ none)
        × ((recycle p conn now later).idle ≡ record conn { last_used = later } ∷ p.idle))
      ⊎ ((expiry conn now p.config ≢ none) × ((recycle p conn now later).idle ≡ p.idle))
unfolding recycle note_expired push_idle
recycle-idle p conn now later = elim (Option-cases (expiry conn now p.config)) [
  | inl fresh ↦ inl (fresh, rw (fresh, recycle) ((notify_keeps _ 1).2))
  | inr (reason, stale) ↦ inr ((λ e. cc), rw (stale, recycle) (release_slot-idle _))
]

module _ {C : Type 0} (m : ManageConnection C) where
  -- A connection goes back on the idle list, in front, exactly when the pool is open, the manager
  -- does not find it broken and it has not expired; it is stamped with the time of its return.
  -- Otherwise the idle list is left as it was.
  pub drop_pooled-idle :
      (p : Inner C) (conn : Conn C) (now later : Instant)
      → let (raw, broken) = m.has_broken conn.raw in
        let back = record conn { raw = raw } in
        ((p.closed ≡ false)
          × (broken ≡ false)
          × (expiry back now p.config ≡ none)
          × ((drop_pooled m p conn now later).idle ≡ record back { last_used = later } ∷ p.idle))
        ⊎ ((((p.closed ≡ true) ⊎ (broken ≡ true)) ⊎ (expiry back now p.config ≢ none))
            × ((drop_pooled m p conn now later).idle ≡ p.idle))
  unfolding drop_pooled note_closed_manual note_broken
  drop_pooled-idle p conn now later =
      let back = record conn { raw = (m.has_broken conn.raw).0 } in
      ground (
        arith,
        release_slot-idle (note_closed_manual p 1),
        release_slot-idle (note_broken p),
        recycle-idle p back now later,
      )
