-- ===== src/Builder/Laws.antt =====
-- When a build is refused, and what the pool that it makes is like.
use compio_pool.Prelude.{
  ◌≤◌, ◌<◌, ◌≡◌, refl, ◌⊎◌, inl, inr, false, [], arith, Bool-cases, ◌==◌, min, ltb, ℕ,
}
use compio_pool.Config.{zero_max_size}
use compio_pool.Pool.{Pool}
use compio_pool.Pool
use compio_pool.Builder.{Builder, build}

-- The smaller of two numbers, by which it is.
cut : (a b : ℕ) → ((a ≤ b) × (min a b ≡ a)) ⊎ ((b < a) × (min a b ≡ b))
cut a b = elim (Bool-cases (ltb b a)) [
  | inl less ↦ inr (ground arith, ground arith)
  | inr more ↦ inl (ground arith, ground arith)
]

-- A build is refused, as `ZeroMaxSize`, exactly for a `max_size` of zero. Otherwise the pool is open
-- and has no thread registered; its configuration is the builder's, but that a
-- `min_idle` beyond `max_size` becomes `max_size`; one within it stays.
pub build_lem :
    {M : Type 0} (b : Builder) (manager : M)
    → ((b.config.max_size ≡ 0) × (build b manager ≡ inl zero_max_size))
      ⊎ ((0 < b.config.max_size)
          × ((p : Pool M) × (build b manager ≡ inr p)
              × (p.manager ≡ manager)
              × (p.closed ≡ false)
              × (p.metrics ≡ [])
              × (record p.config { min_idle = 0 } ≡ record b.config { min_idle = 0 })
              × (((b.config.min_idle ≤ b.config.max_size) × (p.config.min_idle ≡ b.config.min_idle))
                  ⊎ ((b.config.max_size < b.config.min_idle)
                      × (p.config.min_idle ≡ b.config.max_size)))))
unfolding build Pool.new
build_lem b manager = elim (Bool-cases (b.config.max_size == 0)) [
  | inl zero' ↦ inl (ground arith, rw zero')
  | inr some' ↦ inr (
    ground arith,
    (
      Pool.new manager (record b.config { min_idle = min b.config.min_idle b.config.max_size }),
      rw some',
      refl,
      refl,
      refl,
      refl,
      cut b.config.min_idle b.config.max_size,
    ),
  )
]
