-- ===== src/Lib.antt =====
-- compio-pool: a thread-per-core connection pool, with the cores, listeners and workers around it.
--
-- The program. `Pool` is a blueprint that every thread shares: the manager, the settings, a closed
-- flag and a registry of metrics blocks. `Pool::local` stamps out one `LocalPool` on each thread. That
-- pool counts slots (a connection that is idle, checked out, being opened or being validated takes one)
-- against `max_size`, keeps a stack of idle connections, and parks the tasks that find neither in a
-- FIFO of wakers. A slot that is freed or a connection that comes back wakes one waiter. Two guards
-- carry a slot outside the pool: `Held` inside the futures and `PooledConnection` in the user's hands;
-- dropping either gives the slot back or passes it to the idle stack.
--
-- The files, each with the source it models:
--   Prelude     numbers of 32 and 64 bits, lists, options, ASCII texts, a stable sort
--   Manage      src/manage.rs   `ManageConnection`, `RunError`
--   Config      src/builder.rs  `PoolConfig`, `BuildError`
--   Builder     src/builder.rs  `Builder` and `build`
--   Metrics     src/pool.rs     `State`, `Statistics`, `Metrics`, `Expiry`
--   Waiters     src/pool.rs     `Waiters`, with its binary search
--   Conn        src/pool.rs     `Conn`, `expiry`
--   Inner       src/pool.rs     `Inner`: slots, idle stack, notification
--   Local       src/pool.rs     the synchronous operations of `LocalPool`, `Held`, `PooledConnection`
--   Wait        src/pool.rs     `WaitReady`: its `poll` and its `Drop`
--   Futures     src/pool.rs     `get`, `try_get`, `warm`, `maintain` from one suspension to the next
--   World       src/pool.rs     one thread's pool with all its calls and users: a step for each event
--   Pool        src/pool.rs     `Pool`, `Shared`: the registry and the sums over the threads
--   Cpu         src/cpu.rs      `cores`, `affinity_mask`
--   CoreSet     src/cpu.rs      `CoreSet` and the topology it reads
--   Listener    src/listener.rs `bind_reuseport`
--   Workers     src/workers.rs  `PerCore::spawn_each`
--   Net         examples/http_proxy.rs and examples/scatter_gather.rs: a buffered connection
--   Http        examples/http_proxy.rs: framing (`Head`, `Framed`), the proxy's exchange (`Proxy`), the
--               built-in origin (`Origin`)
--   Scatter     examples/scatter_gather.rs: `Line`, `query_shard`, `handle_client`, `shard_conn`
--   Wal         examples/wal.rs: `Wal` and `serve`
--   Files       examples/file_server.rs: `serve`, `reply_err`
--   Redis       crates/deadpool-baseline/examples/redis_proxy.rs: `run`, `handle`
--   Kvload      examples/kvload.rs: `parse`, `Conn::round`, `run_conn`, and `run_conn` against `Redis`
--   Tests       runs at concrete inputs
--
-- How the model corresponds to the code. A method with `&self` is a function from the state to the
-- state and its result. The `metrics` feature is on, and a thread's one metrics block is reached
-- through its `Waiters`. The head of the list `idle` is the back of the source's `Vec`. Durations and
-- instants are nanoseconds. Counters and ids wrap at their width, the plain additions of the source as
-- in a release build: the theorems that count on distinct waiter ids assume fewer than 2^64 events. A
-- waker is the number of the task it wakes, and waking puts that number on a run queue, beside the id
-- under which the task had queued; nothing is taken off there. A connection is
-- a value of any type; what its own `Drop` does is not modelled.
--
-- A future is the point where it is suspended (`Task`) and a function for each way on from there. It
-- reads the clock once in each run. The answers of `connect` and `is_valid`, the timers and the clock
-- are part of the event that resumes it, as is the waker of the task that polls it, which may be another
-- each time. All orders of events are runs of `World.step`, so that calls
-- of one thread interleave at their suspensions as on a single-threaded executor. `close` comes from
-- any thread and falls between two events: a run that a `close` from another thread would split is not
-- modelled. The loop of `get_inner` is given one round between two suspensions (`loop_rounds`); that
-- is enough, since a pool that is ready has an idle connection, a free slot or a closed flag.
--
-- In the servers a byte is a number. What a socket's reads and writes will answer is part of a
-- connection's state, as lists, and what `local.get()` answers is a list of leases. The reading loops
-- run on fuel, one more than the reads to come, of which each round takes one; more fuel changes
-- nothing. The loop of `origin_conn` needs no more fuel than its stream has bytes, and one; that of the file
-- server, no more than the file has bytes, and one, since each round that goes on has read a byte.
-- `String::from_utf8_lossy` is an argument, as are the files of the file server, the answers of Redis, and
-- the server that kvload reaches, for which its theorem puts `Redis`.
--
-- Outside the model: `core_affinity`, sysfs, the socket library and the threads of the operating
-- system, whose answers are arguments; the memory order of the relaxed atomics, of which the
-- counters are written by their owner alone; formatting for debugging, references and clones;
-- the runtime that `block_on_each` wraps around a body, and the joining of threads; the
-- percentiles that kvload prints, which are floating-point numbers; the programs under examples that have
-- no file here, and the rest of the baseline crate. White space and letter case are those of
-- ASCII.
pub mod Prelude
pub mod Manage
pub mod Config
pub mod Metrics
pub mod Waiters
pub mod Conn
pub mod Inner
pub mod Local
pub mod Wait
pub mod Futures
pub mod World
pub mod Pool
pub mod Builder
pub mod Cpu
pub mod CoreSet
pub mod Listener
pub mod Workers
pub mod Net
pub mod Http
pub mod Scatter
pub mod Wal
pub mod Redis
pub mod Kvload
pub mod Files
mod Tests
