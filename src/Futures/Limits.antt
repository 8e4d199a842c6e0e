-- ===== src/Futures/Limits.antt =====
-- When a call gives up, parks or stops opening connections: only at the limits of the pool.
use compio_pool.Prelude.{
  ℕ, ◌≡◌, refl, sym, ap, ◌∙◌, ◌+◌, suc, add_u32, inl, inr, Bool, Bool-cases, Option, none, arith,
  ltb,
}
use compio_pool.Config.{PoolConfig}
use compio_pool.Conn.{Instant, Conn}
use compio_pool.Inner.{Inner, idle_len, take_slot}
use compio_pool.Local.{try_reserve}
use compio_pool.Local.Slots.{IsLocal, try_reserve-IsLocal}
use compio_pool.Local.Guards.{into_idle-IsLocal}
use compio_pool.Local.Slots.{note_created-IsLocal}
use compio_pool.Futures.Accounts.{recount}
use compio_pool.Local.Maintenance.{idle_len_lem}
use compio_pool.Futures.{Outcome, warm_next, warm, resume_warm}
use compio_pool.Futures.Runs.{cannot_open, WarmRun, starts, opens_another, Warmed}

pub try_reserve-idle : {C : Type 0} (p : Inner C) → (try_reserve p).0.idle ≡ p.idle
unfolding try_reserve take_slot
try_reserve-idle p = ground arith

module _ {C : Type 0} (E : Type 0) {cfg : PoolConfig} {cl : Bool} {ids : ℕ} where
  warm_next-Warmed :
      {h : ℕ} (p : Inner C) (n : ℕ)
      → IsLocal cfg cl ids h p
      → Warmed {E = E} cfg cl n none (warm_next p n)
  unfolding warm_next
  warm_next-Warmed p n v =
      let idle = idle_len_lem p v in
      let set = ap (λ (c : PoolConfig). c.min_idle) v.configured in
      elim (Bool-cases (ltb (idle_len p) p.config.min_idle)) [
        | inl low ↦ simp low (elim (try_reserve-IsLocal p v) [
          | inl (room, yes', w) ↦ rw yes' (refl, ground (arith, try_reserve-idle p), w.capped)
          | inr (full, same) ↦ rw same (refl, inr (inr full))
        ])
        | inr enough ↦ simp enough (refl, inr (inl (ground arith)))
      ]

  pub warm-Warmed :
      (h : ℕ) (p : Inner C) (now : Instant) {held n : ℕ} {o : Option E} {r : Inner C × Outcome C E}
      → WarmRun now p held n o r
      → IsLocal cfg cl ids (held + h) p
      → Warmed cfg cl n o r
  unfolding warm resume_warm
  warm-Warmed h p now starts v = elim (Bool-cases p.closed) [
    | inl shut ↦ simp shut (refl, inl (sym v.flagged ∙ shut, refl))
    | inr not_shut ↦ simp not_shut (warm_next-Warmed p 0 v)
  ]
  warm-Warmed h p now (opens_another n raw) v =
      let v' : IsLocal cfg cl ids (suc h) p = recount p (omega arith) v in
      warm_next-Warmed _ (add_u32 n 1) (into_idle-IsLocal _ _ now (note_created-IsLocal p v'))
  warm-Warmed h p now (cannot_open n e) v = refl
