-- ===== src/Tests/Host.antt =====
-- The shared blueprint, the cores, the listener and the workers at concrete inputs.
use compio_pool.Prelude.{
  ℕ, ◌≡◌, ◌≢◌, ◌↔◌, ◌^◌, ◌≤◌, ◌<◌, ◌⊎◌, inl, inr, refl, Bool, Option, none, some, [], ◌∷◌, arith,
  true, false, if◌then◌else◌, length, total, ◌==◌, min, get_elem?,
}
use compio_pool.Config.{default, zero_max_size}
use compio_pool.Metrics.{Metrics, no_metrics, snapshot_statistics}
use compio_pool.Builder.{Builder, build}
use compio_pool.Builder.Laws.{build_lem}
use compio_pool.Pool.{Pool, new, local, drop_local, statistics}
use compio_pool.Pool.Registry.{IsRegistry, new-IsRegistry, local-IsRegistry}
use compio_pool.Pool.Totals.{created, read, statistics-drop_local}
use compio_pool.Cpu.{cores, affinity_mask, mask_words, hex_word, hex_digit, separate}
use compio_pool.Cpu.Cores.{Ascends, cores_lem}
use compio_pool.Cpu.Cores
use compio_pool.Cpu.Mask.{read_hex, affinity_mask_lem}
use compio_pool.CoreSet.{CoreInfo, CoreSet, physical_only, spread}
use compio_pool.CoreSet.Physical.{count, first, physical_only_lem}
use compio_pool.CoreSet.Order.{total-spread}
use compio_pool.Listener.{
  Op, socket, reuse_address, reuse_port, incoming_cpu, bind, listen, bind_reuseport,
}
use compio_pool.Listener.Laws.{bind_reuseport_iff}
use compio_pool.Workers.{WorkerCtx, PerCore, Host, Worker, spawn_each}
use compio_pool.Workers
use compio_pool.Workers.Laws.{SpawnsAll, spawn_each_iff, spawn_each_lem}

abbrev ten : Builder
ten = record { config = record default { min_idle = 30 } }

build_lem_example :
    ((ten.config.max_size ≡ 0) × (build ten true ≡ inl zero_max_size))
    ⊎ ((0 < ten.config.max_size)
        × ((p : Pool Bool) × (build ten true ≡ inr p)
            × (p.manager ≡ true)
            × (p.closed ≡ false)
            × (p.metrics ≡ [])
            × (record p.config { min_idle = 0 } ≡ record ten.config { min_idle = 0 })
            × (((ten.config.min_idle ≤ ten.config.max_size)
                  × (p.config.min_idle ≡ ten.config.min_idle))
                ⊎ ((ten.config.max_size < ten.config.min_idle)
                    × (p.config.min_idle ≡ ten.config.max_size)))))
build_lem_example = build_lem ten true

abbrev empty_pool : Pool Bool
empty_pool = new true default

local-IsRegistry_example : IsRegistry (local empty_pool).0
local-IsRegistry_example = local-IsRegistry empty_pool (new-IsRegistry true default)

-- A pool with one live thread, that has opened three connections.
abbrev block : Metrics
block = record no_metrics { connections = 3; idle = 1; connections_created = 3 }

abbrev threaded : Pool Bool
threaded = record {
  manager = true;
  config = default;
  closed = false;
  metrics = 0 ∷ [];
  retired = no_metrics;
  blocks = λ id. if id == 0 then some block else none;
  next_block = 1;
}

threaded-IsRegistry : IsRegistry threaded
threaded-IsRegistry = record { once = λ id m e. ground arith; old = λ id h. ground arith }

statistics-drop_local_example :
    read created (statistics (drop_local threaded 0 block)).1 ≡ read created (statistics threaded).1
unfolding snapshot_statistics
statistics-drop_local_example =
    statistics-drop_local threaded 0 block created threaded-IsRegistry refl (omega arith)

affinity_mask_lem_example : read_hex 0 (affinity_mask 35) ≡ 2 ^ 35
affinity_mask_lem_example = affinity_mask_lem 35

affinity_mask_35 :
    affinity_mask 35
    ≡ b'0' ∷ b'0' ∷ b'0' ∷ b'0' ∷ b'0' ∷ b'0' ∷ b'0' ∷ b'8' ∷ b',' ∷ b'0' ∷ b'0' ∷ b'0' ∷ b'0'
      ∷ b'0' ∷ b'0' ∷ b'0' ∷ b'0' ∷ []
unfolding affinity_mask mask_words hex_word hex_digit separate
affinity_mask_35 = refl

cores_lem_example :
    Ascends (cores (some (3 ∷ 1 ∷ 3 ∷ [])))
    × (Cores.count 3 (cores (some (3 ∷ 1 ∷ 3 ∷ []))) ≡ min 1 (Cores.count 3 (3 ∷ 1 ∷ 3 ∷ [])))
cores_lem_example = cores_lem (3 ∷ 1 ∷ 3 ∷ []) 3

abbrev cpu : ℕ → ℕ → ℕ → CoreInfo
cpu id core pkg = record { id = id; core = core; package_id = pkg; numa_node = 0 }

-- Two packages with one core of two threads each.
abbrev machine : CoreSet
machine = cpu 0 0 0 ∷ cpu 1 0 1 ∷ cpu 2 0 0 ∷ cpu 3 0 1 ∷ []

physical_only_lem_example :
    (count (cpu 2 0 0) (physical_only machine) ≡ 1)
    × (first (cpu 2 0 0) (physical_only machine) ≡ first (cpu 2 0 0) machine)
physical_only_lem_example = physical_only_lem machine (cpu 2 0 0)

total-spread_example : total (λ c. c.id) (spread machine) ≡ 6
total-spread_example = total-spread (λ c. c.id) machine

-- A kernel that knows nothing of the cpu hint, and accepts all else.
abbrev no_hint : Op → Option ℕ
no_hint (incoming_cpu n) = some 92
no_hint op = none

bind_reuseport_iff_example : ((bind_reuseport no_hint 128 (some 3)).1 ≡ none) ↔ (
    (no_hint socket ≡ none)
    × (no_hint reuse_address ≡ none)
    × (no_hint reuse_port ≡ none)
    × (no_hint bind ≡ none)
    × (no_hint (listen 128) ≡ none))
bind_reuseport_iff_example = bind_reuseport_iff no_hint 128 (some 3)

abbrev willing : Host ℕ
willing = record { spawn = λ index. none; pin_current = λ core. core == 4 }

abbrev pair : PerCore ℕ
pair = record { cores = 4 ∷ 6 ∷ []; name = b'e' ∷ []; proactor = none }

spawn_each_iff_example :
    ((spawn_each willing pair).1 ≡ none) ↔ ((pair.cores ≢ []) × SpawnsAll willing 0 pair.cores)
spawn_each_iff_example = spawn_each_iff willing pair

abbrev second : Worker
second = record { thread = (pair.name, 1); ctx = record { index = 1; core = 6; pinned = false } }

spawn_each_lem_example :
    let w = second in
    (length (spawn_each willing pair).0 ≡ 2)
    × (w.thread ≡ (pair.name, 1))
    × (w.ctx.index ≡ 1)
    × (get_elem? pair.cores 1 ≡ some w.ctx.core)
    × (w.ctx.pinned ≡ willing.pin_current w.ctx.core)
unfolding spawn_each Workers.spawn_all Workers.spawn_from
spawn_each_lem_example = spawn_each_lem willing pair 1 second refl refl
