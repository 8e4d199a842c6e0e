-- ===== src/Local/Freshness.antt =====
-- Which idle connection `pop_fresh_idle` finds.
use compio_pool.Prelude.{
  ◌≡◌, refl, ap, ◌∙◌, inl, inr, Option, Option-cases, none, some, List, [], ◌∷◌,
}
use compio_pool.Config.{PoolConfig}
use compio_pool.Metrics.{Expiry}
use compio_pool.Conn.{Instant, Conn, expiry}
use compio_pool.Inner.{Inner, release_slots, release_slot, pop_idle, note_expired}
use compio_pool.Local.{pop_fresh_from, pop_fresh_idle}
use compio_pool.Local.Slots.{notify_keeps}

-- The first connection of a list that has not expired, with what follows it.
abbrev pub first_fresh :
    {C : Type 0} → PoolConfig → Instant → List (Conn C) → Option (Conn C) × List (Conn C)
first_fresh cfg now [] = (none, [])
first_fresh cfg now (conn ∷ rest) = elim (expiry conn now cfg) [
  | none ↦ (some conn, rest)
  | some reason ↦ first_fresh cfg now rest
]

module _ {C : Type 0} where
  -- Discarding an expired connection leaves the rest of the idle list and the configuration.
  discard_keeps :
      (p : Inner C) (conn : Conn C) (rest : List (Conn C)) (reason : Expiry)
      → let q = release_slot (note_expired (pop_idle p (conn ∷ rest)).0 reason) in
        (q.config ≡ p.config) × (q.idle ≡ rest)
  unfolding release_slot release_slots note_expired pop_idle
  discard_keeps p conn rest reason =
      let (a, b, c, d, e, f) =
        notify_keeps (release_slots (note_expired (pop_idle p (conn ∷ rest)).0 reason) 1) 1 in
      (a, c)

  pop_fresh_from_lem :
      (cs : List (Conn C)) (p : Inner C) (now : Instant)
      → p.idle ≡ cs
      → let (q, found) = pop_fresh_from cs p now in (found, q.idle) ≡ first_fresh p.config now cs
  unfolding pop_fresh_from
  pop_fresh_from_lem [] p now e = unfold pop_idle in ap (λ cs. (none, cs)) e
  pop_fresh_from_lem (conn ∷ rest) p now e = elim (Option-cases (expiry conn now p.config)) [
    | inl fresh ↦ rw (fresh, pop_fresh_from, first_fresh) (unfold pop_idle in refl)
    | inr (reason, stale) ↦
        let (a, b) = discard_keeps p conn rest reason in
        rw (stale, pop_fresh_from, first_fresh)
          (pop_fresh_from_lem rest _ now b ∙ ap (λ c. first_fresh c now rest) a)
  ]

  -- `pop_fresh_idle` takes the connection that came back last among those that have not expired,
  -- and leaves idle just those that came back before it; it finds none only if all have expired.
  pub pop_fresh_idle_lem :
      (p : Inner C) (now : Instant)
      → let (q, found) = pop_fresh_idle p now in (found, q.idle) ≡ first_fresh p.config now p.idle
  unfolding pop_fresh_idle
  pop_fresh_idle_lem p now = pop_fresh_from_lem p.idle p now refl
