-- ===== src/Pool/Registry.antt =====
-- The registry: each live metrics block is registered exactly once, so no thread's numbers are
-- counted twice or missed, and a scrape forgets only blocks that are gone.
use compio_pool.Prelude.{
  ℕ, ◌≤◌, ◌≡◌, refl, ap, ◌∙◌, inl, inr, Option, some, List, [], ◌∷◌, arith, Bool-cases,
  Option-cases, ◌==◌, if◌then◌else◌, total, total-append,
}
use compio_pool.Config.{PoolConfig}
use compio_pool.Metrics.{Metrics}
use compio_pool.Pool.{Pool, new, store, prune, local, write, drop_local, state, statistics}

-- How often a block is registered.
abbrev pub count : ℕ → List ℕ → ℕ
count id = total λ j. if j == id then 1 else 0

-- Every live block is registered once, and every number in use was given out.
pub record IsRegistry {M : Type 0} (p : Pool M) : Type 0 where
  pub once : (id : ℕ) (m : Metrics) → p.blocks id ≡ some m → count id p.metrics ≡ 1
  pub old : (id : ℕ) → p.next_block ≤ id → count id p.metrics ≡ 0

pub count-prune :
    (blocks : ℕ → Option Metrics) (ids : List ℕ) (id : ℕ) (m : Metrics)
    → blocks id ≡ some m
    → count id (prune blocks ids) ≡ count id ids
unfolding prune
count-prune blocks [] id m h = refl
count-prune blocks (j ∷ ids) id m h = elim (Option-cases (blocks j)) [
  | inl gone ↦
      rw (gone, prune)
        (ground
          (arith, count-prune blocks ids id m h, ap {B = Option Metrics} (λ (k : ℕ). blocks k)))
  | inr (b, live) ↦ rw (live, prune) (ground (arith, count-prune blocks ids id m h))
]

pub count-prune-le :
    (blocks : ℕ → Option Metrics) (ids : List ℕ) (id : ℕ)
    → count id (prune blocks ids) ≤ count id ids
unfolding prune
count-prune-le blocks [] id = omega arith
count-prune-le blocks (j ∷ ids) id = ground (arith, count-prune-le blocks ids id)

pub new-IsRegistry : {M : Type 0} (m : M) (c : PoolConfig) → IsRegistry (new m c)
unfolding new
new-IsRegistry m c = record { once = λ id b e. cc; old = λ id h. refl }

module _ {M : Type 0} where
  -- In a sound registry, a new thread's block is registered once, beside the others.
  pub local-IsRegistry : (p : Pool M) → IsRegistry p → IsRegistry (local p).0
  unfolding local store
  local-IsRegistry p v = record {
    once = λ id m e.
        let a =
          total-append (λ j. if j == id then 1 else 0) (prune p.blocks p.metrics)
            (p.next_block ∷ []) in
        elim (Bool-cases (id == p.next_block)) [
          | inl same ↦ ground (arith, a, count-prune-le p.blocks p.metrics id, v.old id)
          | inr other ↦ ground (arith, a, count-prune p.blocks p.metrics id m, v.once id m)
        ];
    old = λ id h.
        let a =
          total-append (λ j. if j == id then 1 else 0) (prune p.blocks p.metrics)
            (p.next_block ∷ []) in
        ground (arith, a, count-prune-le p.blocks p.metrics id, v.old id);
  }

  pub write-IsRegistry :
      (p : Pool M) (id : ℕ) (old new : Metrics)
      → p.blocks id ≡ some old
      → IsRegistry p
      → IsRegistry (write p id new)
  unfolding write store
  write-IsRegistry p id o n e v = record {
    once = λ j m f. ground (arith, v.once j m, v.once id o);
    old = v.old;
  }

  pub drop_local-IsRegistry :
      (p : Pool M) (id : ℕ) (block : Metrics) → IsRegistry p → IsRegistry (drop_local p id block)
  unfolding drop_local store
  drop_local-IsRegistry p id block v = record {
    once = λ j m f. ground (arith, v.once j m);
    old = v.old;
  }

  pub scrape-IsRegistry :
      (p : Pool M) → IsRegistry p → (IsRegistry (state p).0) × (IsRegistry (statistics p).0)
  unfolding state statistics
  scrape-IsRegistry p v = (
    record {
      once = λ id m e. count-prune p.blocks p.metrics id m e ∙ v.once id m e;
      old = λ id h. omega (arith, count-prune-le p.blocks p.metrics id, v.old id h);
    },
    record {
      once = λ id m e. count-prune p.blocks p.metrics id m e ∙ v.once id m e;
      old = λ id h. omega (arith, count-prune-le p.blocks p.metrics id, v.old id h);
    },
  )
