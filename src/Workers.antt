-- ===== src/Workers.antt =====
-- src/workers.rs: one pinned worker for each core.
--
-- Threads are not modelled: whether the operating system spawns the thread of an index is an
-- argument, and so is whether it accepts a pin. A thread's name is kept as its two parts, the prefix
-- and the index. The body and the runtime builder are the caller's and only passed on.
pub mod Laws
use compio_pool.Prelude.{
  ℕ, suc, Bool, Option, none, some, List, [], ◌∷◌, length as list_length, map,
}

-- `struct WorkerCtx`.
pub record WorkerCtx : Type 0 where
  pub index : ℕ
  pub core : ℕ
  pub pinned : Bool

-- `struct PerCore`, for a proactor configuration `P`.
pub record PerCore (P : Type 0) : Type 0 where
  pub cores : List ℕ
  pub name : List ℕ
  pub proactor : Option P

-- `PerCore::new`; `"worker"` is the default prefix.
unfoldable pub new : {P : Type 0} → List ℕ → PerCore P
new cores = record {
  cores = cores;
  name = b'w' ∷ b'o' ∷ b'r' ∷ b'k' ∷ b'e' ∷ b'r' ∷ [];
  proactor = none;
}

-- `PerCore::name` and `PerCore::proactor`.
pub name : {P : Type 0} → PerCore P → List ℕ → PerCore P
name p prefix = record p { name = prefix }

pub proactor : {P : Type 0} → PerCore P → P → PerCore P
proactor p builder = record p { proactor = some builder }

-- `io::ErrorKind::Unsupported`, or the error of a thread that failed to spawn.
pub data SpawnError (E : Type 0) : Type 0 where
  unsupported : SpawnError E
  os : E → SpawnError E

-- A worker that was started: its name and what its body is told.
pub record Worker : Type 0 where
  pub thread : List ℕ × ℕ
  pub ctx : WorkerCtx

-- What the operating system does: the error of the thread of an index, and the answer to a pin.
pub record Host (E : Type 0) : Type 0 where
  pub spawn : ℕ → Option E
  pub pin_current : ℕ → Bool

module _ {E : Type 0} (host : Host E) where
  -- The loop of `spawn_each` from an index on: the workers started and the error that ended it. A
  -- worker that was started before an error runs on, detached.
  unfoldable pub spawn_from : List ℕ → ℕ → List ℕ → List Worker × Option (SpawnError E)
  spawn_from prefix index [] = ([], none)
  spawn_from prefix index (core ∷ cores) = elim (host.spawn index) [
    | some e ↦ ([], some (os e))
    | none ↦
        let worker : Worker = record {
          thread = (prefix, index);
          ctx = record { index = index; core = core; pinned = host.pin_current core };
        } in
        let (started, result) = spawn_from prefix (suc index) cores in (worker ∷ started, result)
  ]

  -- `spawn_each` for a name prefix and the list of cores.
  unfoldable pub spawn_all : List ℕ → List ℕ → List Worker × Option (SpawnError E)
  spawn_all prefix [] = ([], some unsupported)
  spawn_all prefix (core ∷ cores) = spawn_from prefix 0 (core ∷ cores)

  -- `PerCore::spawn_each`.
  unfoldable pub spawn_each : {P : Type 0} → PerCore P → List Worker × Option (SpawnError E)
  spawn_each p = spawn_all p.name p.cores

-- `Workers::len`, for the handles of the workers.
pub length : List Worker → ℕ
length handles = list_length handles
