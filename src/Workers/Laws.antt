-- ===== src/Workers/Laws.antt =====
-- `spawn_each`: one worker for each core, in order, or an error.
use compio_pool.Prelude.{
  ℕ, zero, suc, ◌+◌, ◌≡◌, ◌≢◌, refl, ap, subst, ◌∙◌, ◌↔◌, inl, inr, none, some, List, [], ◌∷◌,
  arith, Option-cases, get_elem?, length,
}
use native.Mathlib.Nat.{zero-add}
use compio_pool.Workers.{PerCore, Worker, Host, spawn_from, spawn_all, spawn_each}

-- Whether the threads of so many cores, from an index on, can all be spawned.
abbrev pub SpawnsAll : {E : Type 0} → Host E → ℕ → List ℕ → Type 0
SpawnsAll host index [] = Unit {0}
SpawnsAll host index (core ∷ cores) = (host.spawn index ≡ none) × SpawnsAll host (suc index) cores

module _ {E : Type 0} (host : Host E) (prefix : List ℕ) where
  spawn_from-ctx :
      (index : ℕ) (cores : List ℕ) (k : ℕ) (w : Worker)
      → get_elem? (spawn_from host prefix index cores).0 k ≡ some w
      → (w.thread ≡ (prefix, index + k))
        × (w.ctx.index ≡ index + k)
        × (get_elem? cores k ≡ some w.ctx.core)
        × (w.ctx.pinned ≡ host.pin_current w.ctx.core)
  unfolding spawn_from
  spawn_from-ctx index [] k w h = cc
  spawn_from-ctx index (core ∷ cores) zero w h = ground arith
  spawn_from-ctx index (core ∷ cores) (suc k) w h = elim (Option-cases (host.spawn index)) [
    | inr (e, bad) ↦ cc (rw (bad, spawn_from) at h)
    | inl fine ↦
        let shift : suc index + k ≡ index + suc k = omega arith in
        subst
          (λ n.
            (w.thread ≡ (prefix, n))
            × (w.ctx.index ≡ n)
            × (get_elem? cores k ≡ some w.ctx.core)
            × (w.ctx.pinned ≡ host.pin_current w.ctx.core))
          shift (spawn_from-ctx (suc index) cores k w (rw (fine, spawn_from) at h))
  ]

  spawn_from-all :
      (index : ℕ) (cores : List ℕ)
      → ((spawn_from host prefix index cores).1 ≡ none) ↔ SpawnsAll host index cores
  unfolding spawn_from
  spawn_from-all index [] = ground arith
  spawn_from-all index (core ∷ cores) = ground (arith, spawn_from-all (suc index) cores)

  length-spawn_from :
      (index : ℕ) (cores : List ℕ)
      → (spawn_from host prefix index cores).1 ≡ none
      → length (spawn_from host prefix index cores).0 ≡ length cores
  unfolding spawn_from
  length-spawn_from index [] h = refl
  length-spawn_from index (core ∷ cores) h = ground (arith, length-spawn_from (suc index) cores)

  spawn_all_iff :
      (cores : List ℕ)
      → ((spawn_all host prefix cores).1 ≡ none) ↔ ((cores ≢ []) × SpawnsAll host 0 cores)
  unfolding spawn_all
  spawn_all_iff [] = ((λ e. cc), (λ e. absurd (e.0 refl)))
  spawn_all_iff (core ∷ cores) = (
    (λ e. ((λ x. cc), (spawn_from-all 0 (core ∷ cores)).0 e)),
    (λ e. (spawn_from-all 0 (core ∷ cores)).1 e.1),
  )

  spawn_all_lem :
      (cores : List ℕ) (k : ℕ) (w : Worker)
      → (spawn_all host prefix cores).1 ≡ none
      → get_elem? (spawn_all host prefix cores).0 k ≡ some w
      → (length (spawn_all host prefix cores).0 ≡ length cores)
        × (w.thread ≡ (prefix, k))
        × (w.ctx.index ≡ k)
        × (get_elem? cores k ≡ some w.ctx.core)
        × (w.ctx.pinned ≡ host.pin_current w.ctx.core)
  unfolding spawn_all
  spawn_all_lem [] k w ok h = cc
  spawn_all_lem (core ∷ cores) k w ok h =
      let (a, b, c, d) = spawn_from-ctx 0 (core ∷ cores) k w h in
      (
        length-spawn_from 0 (core ∷ cores) ok,
        a ∙ ap (λ (n : ℕ). (prefix, n)) (zero-add k),
        b ∙ zero-add k,
        c,
        d,
      )

-- `spawn_each` succeeds exactly when there is a core and every thread can be spawned.
pub spawn_each_iff :
    {E P : Type 0} (host : Host E) (p : PerCore P)
    → ((spawn_each host p).1 ≡ none) ↔ ((p.cores ≢ []) × SpawnsAll host 0 p.cores)
unfolding spawn_each
spawn_each_iff host p = spawn_all_iff host p.name p.cores

-- When it succeeds there is one worker for each core: worker `k` has the index `k` and runs for the
-- core at place `k`, on the thread of that name, told whether its pin was accepted.
pub spawn_each_lem :
    {E P : Type 0} (host : Host E) (p : PerCore P) (k : ℕ) (w : Worker)
    → (spawn_each host p).1 ≡ none
    → get_elem? (spawn_each host p).0 k ≡ some w
    → (length (spawn_each host p).0 ≡ length p.cores)
      × (w.thread ≡ (p.name, k))
      × (w.ctx.index ≡ k)
      × (get_elem? p.cores k ≡ some w.ctx.core)
      × (w.ctx.pinned ≡ host.pin_current w.ctx.core)
unfolding spawn_each
spawn_each_lem host p k w ok h = spawn_all_lem host p.name p.cores k w ok h
