-- ===== src/Futures/Attempts.antt =====
-- Every run of `try_get`, `warm` and `maintain` keeps the accounts.
use compio_pool.Prelude.{
  ℕ, suc, refl, inl, inr, Bool, true, false, Bool-cases, Option, none, some, ltb, add_u32,
}
use compio_pool.Config.{PoolConfig}
use compio_pool.Manage.{closed}
use compio_pool.Conn.{Instant, Conn}
use compio_pool.Inner.{Inner, idle_len}
use compio_pool.Local.{pop_fresh_idle}
use compio_pool.Local.Slots.{
  IsLocal, Popped, pop_fresh_idle-Popped, try_reserve-IsLocal, record_acquire-IsLocal,
  note_broken-IsLocal, note_created-IsLocal,
}
use compio_pool.Local.Guards.{drop_held-IsLocal, into_idle-IsLocal}
use compio_pool.Local.Maintenance.{reap_lem}
use compio_pool.Futures.{
  try_validating, try_dialing, warm_dialing, pending, got, nothing, made, failed, Dialed, opened,
  refused, try_take, try_next, try_get, resume_try_validating, resume_try_dialing, warm_next, warm,
  resume_warm, maintain,
}
use compio_pool.Futures.Accounts.{Settles, settle_none, settle_one, found_lem}

module _ {C E : Type 0} {cfg : PoolConfig} {cl : Bool} {ids : ℕ} where
  try_take_lem :
      (h : ℕ) (r : Inner C × Option (Conn C)) (now : Instant)
      → Popped cfg cl ids h now r
      → Settles {E = E} cfg cl ids h (try_take r)
  unfolding try_take
  try_take_lem h (q, some conn) now (e, v) = found_lem q false 0 (try_validating conn) conn refl v
  try_take_lem h (q, none) now (e, v) = elim (try_reserve-IsLocal q v) [
    | inl (room, yes', w) ↦ rw yes' (settle_one _ (pending try_dialing) (λ x. cc) refl w)
    | inr (full, same) ↦ rw same (settle_none q nothing (λ x. cc) refl v)
  ]

  try_next-Settles :
      {h : ℕ} (p : Inner C) (now : Instant)
      → IsLocal cfg cl ids h p
      → Settles {E = E} cfg cl ids h (try_next p now)
  unfolding try_next
  try_next-Settles {h} p now v =
      try_take_lem h (pop_fresh_idle p now) now (pop_fresh_idle-Popped p now v)

  pub try_get-Settles :
      {h : ℕ} (p : Inner C) (now : Instant)
      → IsLocal cfg cl ids h p
      → Settles {E = E} cfg cl ids h (try_get p now)
  unfolding try_get
  try_get-Settles p now v = elim (Bool-cases p.closed) [
    | inl shut ↦ simp shut (settle_none p (failed closed) (λ x. cc) refl v)
    | inr not_shut ↦ simp not_shut (try_next-Settles p now v)
  ]

  pub resume_try_validating-Settles :
      {h : ℕ} (p : Inner C) (conn : Conn C) (raw : C) (valid : Bool) (now : Instant)
      → IsLocal cfg cl ids (suc h) p
      → Settles {E = E} cfg cl ids h (resume_try_validating p conn raw valid now)
  unfolding resume_try_validating
  resume_try_validating-Settles p conn raw true now v =
      settle_one _ (got _) (λ x. cc) refl (record_acquire-IsLocal p false 0 v)
  resume_try_validating-Settles p conn raw false now v =
      try_next-Settles _ now (drop_held-IsLocal _ (note_broken-IsLocal p v))

  pub resume_try_dialing-Settles :
      {h : ℕ} (p : Inner C) (answer : Dialed C E) (now : Instant)
      → IsLocal cfg cl ids (suc h) p
      → Settles cfg cl ids h (resume_try_dialing p answer now)
  unfolding resume_try_dialing
  resume_try_dialing-Settles p (opened raw) now v =
      settle_one _ (got _) (λ x. cc) refl
        (record_acquire-IsLocal _ false 0 (note_created-IsLocal p v))
  resume_try_dialing-Settles p (refused e) now v =
      settle_none _ (failed _) (λ x. cc) refl (drop_held-IsLocal p v)

  warm_next-Settles :
      {h : ℕ} (p : Inner C) (n : ℕ)
      → IsLocal cfg cl ids h p
      → Settles {E = E} cfg cl ids h (warm_next p n)
  unfolding warm_next
  warm_next-Settles p n v = elim (Bool-cases (ltb (idle_len p) p.config.min_idle)) [
    | inl low ↦ simp low (elim (try_reserve-IsLocal p v) [
      | inl (room, yes', w) ↦ rw yes' (settle_one _ (pending (warm_dialing n)) (λ x. cc) refl w)
      | inr (full, same) ↦ rw same (settle_none p (made n) (λ x. cc) refl v)
    ])
    | inr enough ↦ simp enough (settle_none p (made n) (λ x. cc) refl v)
  ]

  pub warm-Settles :
      {h : ℕ} (p : Inner C) → IsLocal cfg cl ids h p → Settles {E = E} cfg cl ids h (warm p)
  unfolding warm
  warm-Settles p v = elim (Bool-cases p.closed) [
    | inl shut ↦ simp shut (settle_none p (made 0) (λ x. cc) refl v)
    | inr not_shut ↦ simp not_shut (warm_next-Settles p 0 v)
  ]

  pub resume_warm-Settles :
      {h : ℕ} (p : Inner C) (n : ℕ) (answer : Dialed C E) (now : Instant)
      → IsLocal cfg cl ids (suc h) p
      → Settles cfg cl ids h (resume_warm p n answer now)
  unfolding resume_warm
  resume_warm-Settles p n (opened raw) now v =
      warm_next-Settles _ (add_u32 n 1) (into_idle-IsLocal _ _ now (note_created-IsLocal p v))
  resume_warm-Settles p n (refused e) now v =
      settle_none _ (failed _) (λ x. cc) refl (drop_held-IsLocal p v)

  pub maintain-Settles :
      {h : ℕ} (p : Inner C) (now : Instant)
      → IsLocal cfg cl ids h p
      → Settles {E = E} cfg cl ids h (maintain p now)
  unfolding maintain
  maintain-Settles p now v = warm-Settles _ (reap_lem p now v).0
