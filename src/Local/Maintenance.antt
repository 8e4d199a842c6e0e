-- ===== src/Local/Maintenance.antt =====
-- `reap` and `clear`: what they drop, and that the dropped connections give their slots back.
use compio_pool.Prelude.{
  ℕ, ◌+◌, ◌≡◌, refl, ap, ◌∙◌, inl, inr, Bool, true, false, Bool-cases, Option-cases, none, some,
  List, [], ◌∷◌, length, arith, keep_if, as_u32, if◌then◌else◌, ◌==◌,
}
use native.Mathlib.Nat.{mod-eq_of_lt}
use compio_pool.Config.{PoolConfig}
use compio_pool.Metrics.{Expiry}
use compio_pool.Conn.{Instant, Conn, expiry}
use compio_pool.Inner.{Inner, idle_len, release_slots, note_expired, note_closed_manual}
use compio_pool.Local.{sort_out, forget_idle, sweep, reap, clear}
use compio_pool.Local.Slots.{
  IsLocal, notify_keeps, notify-IsLocal, note_expired-IsLocal, note_closed_manual-IsLocal,
}

-- Whether a connection has not expired.
abbrev pub is_fresh : {C : Type 0} → PoolConfig → Instant → Conn C → Bool
is_fresh cfg now conn = elim (expiry conn now cfg) [ none ↦ true | some reason ↦ false ]

module _ {C : Type 0} where
  -- The loop of `reap` keeps the connections that have not expired, in order, and counts the others.
  sort_out_lem :
      (cs : List (Conn C)) (now : Instant) (cfg : PoolConfig) (p : Inner C)
      → ((sort_out cs now cfg p).0 ≡ keep_if (is_fresh cfg now) cs)
        × ((sort_out cs now cfg p).1 + length (keep_if (is_fresh cfg now) cs) ≡ length cs)
  unfolding sort_out
  sort_out_lem [] now cfg p = (refl, omega arith)
  sort_out_lem (conn ∷ rest) now cfg p = ground (arith, sort_out_lem rest now cfg p)

  note_expired-idle : (p : Inner C) (reason : Expiry) → (note_expired p reason).idle ≡ p.idle
  unfolding note_expired
  note_expired-idle p reason = refl

  forget_idle_lem : (p : Inner C) (n : ℕ) → (forget_idle p n).idle ≡ p.idle
  unfolding forget_idle release_slots
  forget_idle_lem p n = refl

module _ {C : Type 0} {cfg : PoolConfig} {cl : Bool} {ids : ℕ} where
  pub sort_out-IsLocal :
      {h : ℕ} (cs : List (Conn C)) (now : Instant) (c : PoolConfig) (p : Inner C)
      → IsLocal cfg cl ids h p
      → (IsLocal cfg cl ids h (sort_out cs now c p).2) × ((sort_out cs now c p).2.idle ≡ p.idle)
  unfolding sort_out
  sort_out-IsLocal [] now c p v = (v, refl)
  sort_out-IsLocal (conn ∷ rest) now c p v =
      let (w, e) = sort_out-IsLocal rest now c p v in
      elim (Option-cases (expiry conn now c)) [
        | inl fresh ↦ rw (fresh, sort_out) (w, e)
        | inr (reason, stale) ↦
            rw (stale, sort_out) (note_expired-IsLocal _ reason w, note_expired-idle _ reason ∙ e)
      ]

  forget_idle-IsLocal :
      {h : ℕ} (p : Inner C) (rest : List (Conn C)) (n : ℕ)
      → length p.idle ≡ length rest + n
      → IsLocal cfg cl ids h p
      → IsLocal cfg cl ids h (forget_idle (record p { idle = rest }) n)
  unfolding forget_idle release_slots
  forget_idle-IsLocal p rest n e v = ground arith

  sweep_lem :
      {h : ℕ} (p : Inner C) (rest : List (Conn C)) (n : ℕ)
      → length p.idle ≡ length rest + n
      → IsLocal cfg cl ids h p
      → (IsLocal cfg cl ids h (sweep p rest n)) × ((sweep p rest n).idle ≡ rest)
  unfolding sweep
  sweep_lem p rest n e v = elim (Bool-cases (n == 0)) [
    | inl none' ↦ rw none' (ground arith, refl)
    | inr some' ↦ rw some' (
      notify-IsLocal _ n (forget_idle-IsLocal p rest n e v),
      (notify_keeps (forget_idle (record p { idle = rest }) n) n).2 ∙ forget_idle_lem _ n,
    )
  ]

  -- The number of idle connections is not cut off by the cast to `u32`.
  pub idle_len_lem : {h : ℕ} (p : Inner C) → IsLocal cfg cl ids h p → idle_len p ≡ length p.idle
  unfolding idle_len
  idle_len_lem p v = mod-eq_of_lt (omega arith)

  -- On a pool whose accounts hold, `reap` keeps them so. It leaves exactly the idle connections that have not expired, in order, gives back a slot for
  -- each of the others, and returns their number.
  pub reap_lem :
      {h : ℕ} (p : Inner C) (now : Instant)
      → IsLocal cfg cl ids h p
      → let (q, reaped) = reap p now in
        (IsLocal cfg cl ids h q)
        × (q.idle ≡ keep_if (is_fresh cfg now) p.idle)
        × (reaped + length q.idle ≡ length p.idle)
        × (q.slots + reaped ≡ p.slots)
  unfolding reap
  reap_lem p now v =
      let (a, b) = sort_out_lem p.idle now p.config p in
      let (w, e) = sort_out-IsLocal p.idle now p.config p v in
      let n : as_u32 (sort_out p.idle now p.config p).1 ≡ (sort_out p.idle now p.config p).1 =
        mod-eq_of_lt (omega arith) in
      let (x, y) =
        sweep_lem _ (sort_out p.idle now p.config p).0 (as_u32 (sort_out p.idle now p.config p).1)
          (ground (arith)) w in
      let idle = y ∙ a ∙ ap (λ c. keep_if (is_fresh c now) p.idle) v.configured in
      let count : as_u32 (sort_out p.idle now p.config p).1 + length (reap p now).0.idle
          ≡ length p.idle =
        omega (arith, ap length y, ap length a) in
      (x, idle, count, omega (arith, x.shared_out, v.shared_out))

  emptied_lem :
      {h : ℕ} (p : Inner C) (n : ℕ)
      → n ≡ length p.idle
      → IsLocal cfg cl ids h p
      → let emptied = record p { idle = [] } in
        let q = if n == 0 then emptied else forget_idle (note_closed_manual emptied n) n in
        (IsLocal cfg cl ids h q) × (q.idle ≡ [])
  unfolding note_closed_manual
  emptied_lem p n e v = elim (Bool-cases (n == 0)) [
    | inl none' ↦ rw none' (ground arith, refl)
    | inr some' ↦ rw some' (
      forget_idle-IsLocal (note_closed_manual p n) [] n (omega arith)
          (note_closed_manual-IsLocal p n v),
      forget_idle_lem _ n,
    )
  ]

  -- On a pool whose accounts hold, `clear` keeps them so. It drops every idle connection, gives back a slot for each and returns their number.
  pub clear_lem :
      {h : ℕ} (p : Inner C)
      → IsLocal cfg cl ids h p
      → let (q, n) = clear p in
        (IsLocal cfg cl ids h q) × (q.idle ≡ []) × (n ≡ length p.idle) × (q.slots + n ≡ p.slots)
  unfolding clear
  clear_lem p v =
      let n = idle_len_lem p v in
      let (w, e) = emptied_lem p (idle_len p) n v in
      let x = notify-IsLocal _ (idle_len p) w in
      let y = (notify_keeps _ (idle_len p)).2 ∙ e in
      (x, y, n, omega (arith, ap length y, x.shared_out, v.shared_out))
