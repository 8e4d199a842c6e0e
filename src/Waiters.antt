-- ===== src/Waiters.antt =====
-- src/pool.rs, `Waiters`: the FIFO of tasks parked in `get`.
--
-- A waker is the number of the task that it wakes; `will_wake` compares those. Calling a waker puts
-- its task on the executor's run queue and polls nothing by itself: `scheduled` holds the wakers that
-- have been called, the latest first, each beside the id under which its task had queued.
-- `metrics` is the thread's one block: the pool reaches it through here.
pub mod Search
pub mod Queue
pub mod Wake
pub mod Count
pub use Search.{Entry, key_at, binary_search_by_key}
use compio_pool.Prelude.{
  ℕ, zero, suc, ◌+◌, ◌-◌, ◌^◌, Bool, true, false, Option, none, some, List, [], ◌∷◌, ◌++◌, length,
  set, remove_at, get_elem?, ltb, leb, if◌then◌else◌, ◌==◌, as_u32, u32_mod, add_u64,
}
use compio_pool.Metrics.{Metrics}

pub record Waiters : Type 0 where
  pub metrics : Metrics
  pub next_id : ℕ
  pub woken_upto : ℕ
  pub entries : List Entry
  pub scheduled : List Entry

-- `Waiters::new`.
unfoldable pub new : Metrics → Waiters
new m = record { metrics = m; next_id = 1; woken_upto = 0; entries = []; scheduled = [] }

-- `Waiters::len`.
unfoldable pub len : Waiters → ℕ
len w = as_u32 (length w.entries)

-- `Waiters::mirror`.
unfoldable pub mirror : Waiters → ℕ → Waiters
mirror w n = record w { metrics = record m { waiters = as_u32 n } }
  where
    m : Metrics
    m = w.metrics

-- The last part of `register`: a fresh id at the back of the queue.
unfoldable pub enqueue : Waiters → ℕ → Waiters × Option ℕ
unfolding mirror
enqueue w waker = (mirror queued (length queued.entries), some w.next_id)
  where
    queued : Waiters
    queued = record w {
      next_id = add_u64 w.next_id 1;
      entries = w.entries ++ (w.next_id, waker) ∷ [];
    }

-- The entry found at `pos` with its waker replaced, unless that would wake the same task.
refreshed : List Entry → ℕ → ℕ → Option Entry → List Entry
refreshed es waker pos none = es
refreshed es waker pos (some (i, old)) = if old == waker then es else set es pos (i, waker)

-- `Waiters::register`. The result holds what `*id` is afterwards.
unfoldable pub register : Waiters → Option ℕ → ℕ → Waiters × Option ℕ
unfolding enqueue refreshed
register w none waker = enqueue w waker
register w (some id) waker =
    if ltb w.woken_upto id
    then elim (binary_search_by_key w.entries id) [
      | some pos ↦
          (record w { entries = refreshed w.entries waker pos (get_elem? w.entries pos) }, some id)
      | none ↦ enqueue w waker
    ]
    else enqueue w waker

-- `Waiters::unregister`.
unfoldable pub unregister : Waiters → ℕ → Waiters × Bool
unfolding mirror
unregister w id =
    if leb id w.woken_upto then (w, false) else elim (binary_search_by_key w.entries id) [
      | some pos ↦
          let rest = remove_at w.entries pos in
          (mirror (record w { entries = rest }) (length rest), true)
      | none ↦ (w, false)
    ]

-- The front entry taken off, its id noted and its waker called.
unfoldable pub wake_front : Waiters → Entry → List Entry → Waiters
unfolding mirror
wake_front w (id, waker) rest = record mirrored {
  woken_upto = id;
  scheduled = (id, waker) ∷ w.scheduled;
}
  where
    mirrored : Waiters
    mirrored = mirror (record w { entries = rest }) (length rest)

-- `Waiters::wake`. The loop stops at an empty queue, where further rounds change nothing.
unfoldable pub wake : Waiters → ℕ → Waiters
unfolding wake_front
wake w zero = w
wake w (suc n) = elim w.entries [ [] ↦ w | e ∷ rest ↦ wake (wake_front w e rest) n ]

-- `Waiters::wake_all`. `u32::try_from(queued).unwrap_or(u32::MAX)`.
unfoldable pub wake_all : Waiters → Waiters
wake_all w = wake w (if ltb (length w.entries) u32_mod then length w.entries else u32_mod - 1)
