-- ===== src/Pool/Totals.antt =====
-- What `Pool::statistics` and `Pool::state` add up to, and what is left of a thread that exits.
use compio_pool.Prelude.{
  ℕ, ◌+◌, ◌*◌, ◌%◌, ◌<◌, ◌≡◌, refl, sym, ap, ◌∙◌, inl, inr, Option, none, some, List, [], ◌∷◌,
  arith, Bool-cases, Option-cases, ◌==◌, ==_iff, total, add_u32, add_u64, u64_mod, u32_mod,
}
use native.Mathlib.Nat.{mod-eq_of_lt, mod-add-mod, mod-lt}
use compio_pool.Metrics.{
  Metrics, Statistics, State, no_state, add_statistics, add_state, snapshot_statistics,
  snapshot_state,
}
use compio_pool.Pool.{Pool, store, visit, drop_local, statistics, state}
use compio_pool.Pool.Registry.{count, IsRegistry}

-- The cumulative counters but for the waiting time.
pub data Counter : Type 0 where
  direct waited timed_out created broken idle_timeout max_lifetime manual : Counter

abbrev pub read : Counter → Statistics → ℕ
read direct s = s.get_direct
read waited s = s.get_waited
read timed_out s = s.get_timed_out
read created s = s.connections_created
read broken s = s.connections_closed_broken
read idle_timeout s = s.connections_closed_idle_timeout
read max_lifetime s = s.connections_closed_max_lifetime
read manual s = s.connections_closed_manual

-- What a registered block adds to a sum: nothing, if it is gone.
abbrev pub worth_of : (Metrics → ℕ) → Option Metrics → ℕ
worth_of sel none = 0
worth_of sel (some m) = sel m

abbrev pub worth : (Metrics → ℕ) → (ℕ → Option Metrics) → ℕ → ℕ
worth sel blocks id = worth_of sel (blocks id)

read-add :
    (c : Counter) (s t : Statistics) → read c (add_statistics s t) ≡ add_u64 (read c s) (read c t)
unfolding add_statistics
read-add direct s t = refl
read-add waited s t = refl
read-add timed_out s t = refl
read-add created s t = refl
read-add broken s t = refl
read-add idle_timeout s t = refl
read-add max_lifetime s t = refl
read-add manual s t = refl

abbrev pub of_block : Counter → Metrics → ℕ
of_block c m = read c (snapshot_statistics m)

-- The sum over the registry, modulo the width of a counter.
read-visit :
    (c : Counter) (s : Statistics) (blocks : ℕ → Option Metrics) (ids : List ℕ)
    → read c s < u64_mod
    → read c (visit (λ t m. add_statistics t (snapshot_statistics m)) s blocks ids)
      ≡ (read c s + total (worth (of_block c) blocks) ids) % u64_mod
unfolding visit
read-visit c s blocks [] h = sym (mod-eq_of_lt (omega arith)) ∙ ap (λ n. n % u64_mod) (omega arith)
read-visit c s blocks (id ∷ ids) h = elim (Option-cases (blocks id)) [
  | inl gone ↦ rw (gone, visit) (read-visit c s blocks ids h ∙ ap (λ n. n % u64_mod) (omega arith))
  | inr (m, live) ↦
      let s' = add_statistics s (snapshot_statistics m) in
      let e = read-add c s (snapshot_statistics m) in
      rw (live, visit)
        (read-visit c s' blocks ids (rw e (mod-lt _ (omega arith)))
          ∙ ap (λ n. (n + total (worth (of_block c) blocks) ids) % u64_mod) e
          ∙ mod-add-mod _ u64_mod _
          ∙ ap (λ n. n % u64_mod) (omega arith))
]

-- Freeing a block takes its worth off the sum once for each time that it is registered.
total-store :
    (sel : Metrics → ℕ) (blocks : ℕ → Option Metrics) (id : ℕ) (m : Metrics) (ids : List ℕ)
    → blocks id ≡ some m
    → total (worth sel (store blocks id none)) ids + count id ids * sel m
      ≡ total (worth sel blocks) ids
unfolding store
total-store sel blocks id m [] h = omega arith
total-store sel blocks id m (j ∷ ids) h = elim (Bool-cases (j == id)) [
  | inl same ↦
      let here : blocks j ≡ some m = rw ((==_iff j id).0 same) h in
      rw (same, here) (omega (arith, total-store sel blocks id m ids h))
  | inr other ↦ rw other (omega (arith, total-store sel blocks id m ids h))
]

-- The live gauges.
pub data Gauge : Type 0 where
  open' idle' parked : Gauge

abbrev pub show : Gauge → State → ℕ
show open' s = s.connections
show idle' s = s.idle_connections
show parked s = s.pending_waiters

abbrev pub of_gauge : Gauge → Metrics → ℕ
of_gauge g m = show g (snapshot_state m)

show-add : (g : Gauge) (s t : State) → show g (add_state s t) ≡ add_u32 (show g s) (show g t)
unfolding add_state
show-add open' s t = refl
show-add idle' s t = refl
show-add parked s t = refl

show-visit :
    (g : Gauge) (s : State) (blocks : ℕ → Option Metrics) (ids : List ℕ)
    → show g s < u32_mod
    → show g (visit (λ t m. add_state t (snapshot_state m)) s blocks ids)
      ≡ (show g s + total (worth (of_gauge g) blocks) ids) % u32_mod
unfolding visit
show-visit g s blocks [] h = sym (mod-eq_of_lt (omega arith)) ∙ ap (λ n. n % u32_mod) (omega arith)
show-visit g s blocks (id ∷ ids) h = elim (Option-cases (blocks id)) [
  | inl gone ↦ rw (gone, visit) (show-visit g s blocks ids h ∙ ap (λ n. n % u32_mod) (omega arith))
  | inr (m, live) ↦
      let s' = add_state s (snapshot_state m) in
      let e = show-add g s (snapshot_state m) in
      rw (live, visit)
        (show-visit g s' blocks ids (rw e (mod-lt _ (omega arith)))
          ∙ ap (λ n. (n + total (worth (of_gauge g) blocks) ids) % u32_mod) e
          ∙ mod-add-mod _ u32_mod _
          ∙ ap (λ n. n % u32_mod) (omega arith))
]

show-no_state : (g : Gauge) → show g no_state ≡ 0
show-no_state open' = refl
show-no_state idle' = refl
show-no_state parked = refl

module _ {M : Type 0} (p : Pool M) (id : ℕ) (block : Metrics) where
  retired-drop_local :
      (c : Counter)
      → of_block c (drop_local p id block).retired
        ≡ add_u64 (of_block c p.retired) (of_block c block)
  unfolding drop_local snapshot_statistics
  retired-drop_local direct = refl
  retired-drop_local waited = refl
  retired-drop_local timed_out = refl
  retired-drop_local created = refl
  retired-drop_local broken = refl
  retired-drop_local idle_timeout = refl
  retired-drop_local max_lifetime = refl
  retired-drop_local manual = refl

  drop_local_lem :
      (sel : Metrics → ℕ)
      → IsRegistry p
      → p.blocks id ≡ some block
      → total (worth sel (drop_local p id block).blocks) (drop_local p id block).metrics + sel block
        ≡ total (worth sel p.blocks) p.metrics
  unfolding drop_local
  drop_local_lem sel v live =
      let a = total-store sel p.blocks id block p.metrics live in
      let b = ap (λ n. n * sel block) (v.once id block live) in omega (arith, a, b)

  -- When a live thread of a sound registry exits, what its block had counted moves to the retired block: each cumulative
  -- counter of the process (the waiting time aside) reads the same after its pool is dropped as
  -- before. The retired counter is taken to be a `u64`.
  pub statistics-drop_local :
      (c : Counter)
      → IsRegistry p
      → p.blocks id ≡ some block
      → of_block c p.retired < u64_mod
      → read c (statistics (drop_local p id block)).1 ≡ read c (statistics p).1
  unfolding statistics
  statistics-drop_local c v live fits =
      let q = drop_local p id block in
      let e = retired-drop_local c in
      read-visit c (snapshot_statistics q.retired) q.blocks q.metrics
        (rw e (mod-lt _ (omega arith)))
      ∙ ap (λ n. (n + total (worth (of_block c) q.blocks) q.metrics) % u64_mod) e
      ∙ mod-add-mod _ u64_mod _
      ∙ ap (λ n. n % u64_mod) (omega (arith, drop_local_lem (of_block c) v live))
      ∙ sym (read-visit c (snapshot_statistics p.retired) p.blocks p.metrics fits)

  -- When a live thread of a sound registry exits, its connections, idle connections and waiters leave the sums of the live
  -- gauges, which wrap as `u32`s do.
  pub state-drop_local :
      (g : Gauge)
      → IsRegistry p
      → p.blocks id ≡ some block
      → (show g (state (drop_local p id block)).1 + of_gauge g block) % u32_mod ≡ show g (state p).1
  unfolding state
  state-drop_local g v live =
      let q = drop_local p id block in
      let z = show-no_state g in
      ap (λ n. (n + of_gauge g block) % u32_mod)
        (show-visit g no_state q.blocks q.metrics (rw z (omega arith)))
      ∙ mod-add-mod _ u32_mod _
      ∙ ap (λ n. n % u32_mod) (omega (arith, drop_local_lem (of_gauge g) v live))
      ∙ sym (show-visit g no_state p.blocks p.metrics (rw z (omega arith)))
