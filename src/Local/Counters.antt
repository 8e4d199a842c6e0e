-- ===== src/Local/Counters.antt =====
-- Every connection that `reap` or `clear` closes is counted once.
use compio_pool.Prelude.{
  ℕ, ◌+◌, ◌%◌, ◌≤◌, ◌≡◌, refl, sym, ap, ◌∙◌, inl, inr, Bool, Bool-cases, Option-cases, List, [],
  ◌∷◌, arith, u64_mod, ◌==◌, as_u32, length,
}
use native.Mathlib.Nat.{mod-eq_of_lt}
use compio_pool.Config.{PoolConfig}
use compio_pool.Metrics.{Metrics, Expiry, dec_conn, dec_idle}
use compio_pool.Metrics
use compio_pool.Conn.{Instant, Conn, expiry}
use compio_pool.Inner.{Inner, release_slots, note_expired, note_closed_manual, idle_len}
use compio_pool.Local.{clear, sort_out, sweep, forget_idle, reap}
use compio_pool.Local.Slots.{IsLocal, notify_keeps}
use compio_pool.Local.Maintenance.{reap_lem, clear_lem}

-- The connections closed for their age, for either reason.
abbrev pub aged : Metrics → ℕ
aged m = m.connections_closed_idle_timeout + m.connections_closed_max_lifetime

one_more :
    (x y z n : ℕ)
    → x % u64_mod ≡ (z + n) % u64_mod
    → y % u64_mod ≡ (x + 1) % u64_mod
    → y % u64_mod ≡ (z + (n + 1)) % u64_mod
one_more x y z n a b = omega arith

module _ {C : Type 0} where
  aged-note_expired :
      (p : Inner C) (reason : Expiry)
      → aged (note_expired p reason).waiters.metrics % u64_mod
        ≡ (aged p.waiters.metrics + 1) % u64_mod
  unfolding note_expired Metrics.note_expired
  aged-note_expired p Expiry.idle_timeout = omega arith
  aged-note_expired p Expiry.max_lifetime = omega arith

  aged-sort_out :
      (cs : List (Conn C)) (now : Instant) (cfg : PoolConfig) (p : Inner C)
      → let (kept, n, q) = sort_out cs now cfg p in
        aged q.waiters.metrics % u64_mod ≡ (aged p.waiters.metrics + n) % u64_mod
  unfolding sort_out
  aged-sort_out [] now cfg p = omega arith
  aged-sort_out (conn ∷ rest) now cfg p = elim (Option-cases (expiry conn now cfg)) [
    | inl fresh ↦ rw (fresh, sort_out) (aged-sort_out rest now cfg p)
    | inr (reason, stale) ↦
        let q = (sort_out rest now cfg p).2 in
        let n = (sort_out rest now cfg p).1 in
        let a = aged-sort_out rest now cfg p in
        let b = aged-note_expired q reason in
        rw (stale, sort_out) (one_more _ _ (aged p.waiters.metrics) n a b)
  ]

  length-sort_out_le :
      (cs : List (Conn C)) (now : Instant) (cfg : PoolConfig) (p : Inner C)
      → (sort_out cs now cfg p).1 ≤ length cs
  unfolding sort_out
  length-sort_out_le [] now cfg p = omega arith
  length-sort_out_le (conn ∷ rest) now cfg p = ground (arith, length-sort_out_le rest now cfg p)

  aged-sweep :
      (p : Inner C) (kept : List (Conn C)) (n : ℕ)
      → aged (sweep p kept n).waiters.metrics ≡ aged p.waiters.metrics
  unfolding sweep forget_idle release_slots
  aged-sweep p kept n = elim (Bool-cases (n == 0)) [
    | inl none' ↦ rw none' refl
    | inr yes' ↦
        let (a, b, c, d, e, f) = notify_keeps (forget_idle (record p { idle = kept }) n) n in
        rw yes' (ap aged e)
  ]

  clear_manual :
      (p : Inner C)
      → let (q, n) = clear p in
        q.waiters.metrics.connections_closed_manual % u64_mod
        ≡ (p.waiters.metrics.connections_closed_manual + n) % u64_mod
  unfolding clear forget_idle release_slots note_closed_manual
  clear_manual p = elim (Bool-cases (idle_len p == 0)) [
    | inl none' ↦
        let (a, b, c, d, e, f) = notify_keeps (record p { idle = [] }) (idle_len p) in
        rw none' (ground (arith, ap (λ (m : Metrics). m.connections_closed_manual) e))
    | inr some' ↦
        let (a, b, c, d, e, f) =
          notify_keeps
            (forget_idle (note_closed_manual (record p { idle = [] }) (idle_len p)) (idle_len p))
            (idle_len p) in
        rw some' (
          ap (λ n. n % u64_mod) (ap (λ (m : Metrics). m.connections_closed_manual) e) ∙ omega arith)
  ]

module _ {C : Type 0} {cfg : PoolConfig} {cl : Bool} {ids : ℕ} where
  aged-reap :
      {h : ℕ} (p : Inner C) (now : Instant)
      → IsLocal cfg cl ids h p
      → let (q, reaped) = reap p now in
        aged q.waiters.metrics % u64_mod ≡ (aged p.waiters.metrics + reaped) % u64_mod
  unfolding reap
  aged-reap p now v =
      let (kept, n, q) = sort_out p.idle now p.config p in
      let few = length-sort_out_le p.idle now p.config p in
      let whole : as_u32 n ≡ n =
        mod-eq_of_lt (omega (arith, few, v.shared_out, v.capped, v.sized)) in
      ap (λ k. k % u64_mod) (aged-sweep q kept (as_u32 n))
      ∙ aged-sort_out p.idle now p.config p
      ∙ ap (λ k. (aged p.waiters.metrics + k) % u64_mod) (sym whole)

  -- On a pool whose accounts hold, each connection that `reap` closes is counted once, for one of
  -- the two reasons of age, and each that `clear` closes is counted once as closed by hand. The
  -- counters are read as `u64`s, which wrap.
  pub reap_counted :
      {h : ℕ} (p : Inner C) (now : Instant)
      → IsLocal cfg cl ids h p
      → let (q, reaped) = reap p now in
        let (r, cleared) = clear p in
        (aged q.waiters.metrics % u64_mod ≡ (aged p.waiters.metrics + reaped) % u64_mod)
        × (reaped + length q.idle ≡ length p.idle)
        × (r.waiters.metrics.connections_closed_manual % u64_mod
            ≡ (p.waiters.metrics.connections_closed_manual + length p.idle) % u64_mod)
  reap_counted p now v = (
    aged-reap p now v,
    (reap_lem p now v).2,
    clear_manual p
        ∙ ap (λ n. (p.waiters.metrics.connections_closed_manual + n) % u64_mod) (clear_lem p v).2,
  )
