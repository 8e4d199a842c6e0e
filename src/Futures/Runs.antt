-- ===== src/Futures/Runs.antt =====
-- The runs of `get`, `try_get` and `warm`, from one suspension to the next, and what may be said of how
-- each ends.
use compio_pool.Prelude.{
  Bool, List, Option, [], add_u32, false, length, none, some, true, ℕ, ◌++◌, ◌<◌, ◌∷◌, ◌≡◌, ◌≤◌,
  ◌⊎◌,
}
use compio_pool.Config.{PoolConfig}
use compio_pool.Conn.{Conn, Instant}
use compio_pool.Inner.{Inner}
use compio_pool.Manage.{closed, user}
use compio_pool.Futures.{
  Outcome, failed, get, get_dialing, get_loop, get_sleeping, get_validating, get_waiting, got,
  loop_rounds, made, nothing, opened, pending, refused, resume_dialing, resume_try_dialing,
  resume_try_validating, resume_validating, resume_waiting, resume_warm, try_dialing, try_get,
  try_validating, warm, warm_dialing,
}
use compio_pool.Waiters.{Entry, Waiters}
use compio_pool.Wait.{WaitReady}
use compio_pool.Waiters.Queue.{has, place}

-- A pool that can neither hand out an idle connection nor open one.
abbrev pub IsFull : {C : Type 0} → PoolConfig → Inner C → Type 0
IsFull cfg p = (p.idle ≡ []) × (p.slots ≡ cfg.max_size)

-- What a run of a call starts from: it looks for a connection; `is_valid` or `connect` has given it
-- one; or `connect` has refused.
pub data Verdict (C E : Type 0) : Type 0 where
  searches : Verdict C E
  gives : C → Verdict C E
  refuses : E → Verdict C E

-- The runs of a `try_get` on a pool: the first one, and those after an answer of `is_valid` or of
-- `connect`. The number is that of the slots that the call holds before.
pub data TryRun {C E : Type 0} (now : Instant) (p : Inner C)
    : ℕ → Verdict C E → Inner C × Outcome C E → Type 0 where
  tries : TryRun now p 0 searches (try_get p now)
  finds_invalid :
      (conn : Conn C) (raw : C)
      → TryRun now p 1 searches (resume_try_validating p conn raw false now)
  finds_valid :
      (conn : Conn C) (raw : C)
      → TryRun now p 1 (gives raw) (resume_try_validating p conn raw true now)
  opens : (raw : C) → TryRun now p 1 (gives raw) (resume_try_dialing p (opened raw) now)
  cannot_open : (e : E) → TryRun now p 1 (refuses e) (resume_try_dialing p (refused e) now)

-- The runs of a `warm`, with the number of connections that it has opened by then.
pub data WarmRun {C E : Type 0} (now : Instant) (p : Inner C)
    : ℕ → ℕ → Option E → Inner C × Outcome C E → Type 0 where
  starts : WarmRun now p 0 0 none (warm p)
  opens_another :
      (n : ℕ) (raw : C) → WarmRun now p 1 (add_u32 n 1) none (resume_warm p n (opened raw) now)
  cannot_open : (n : ℕ) (e : E) → WarmRun now p 1 n (some e) (resume_warm p n (refused e) now)

-- Why a run of `warm` that has opened `n` connections ends as it does.
abbrev pub Warmed :
    {C E : Type 0} → PoolConfig → Bool → ℕ → Option E → Inner C × Outcome C E → Type 0
Warmed cfg cl n none (q, pending (warm_dialing k)) =
    (k ≡ n) × (length q.idle < cfg.min_idle) × (q.slots ≤ cfg.max_size)
Warmed cfg cl n none (q, made k) =
    (k ≡ n)
    × (((cl ≡ true) × (n ≡ 0)) ⊎ ((cfg.min_idle ≤ length q.idle) ⊎ (q.slots ≡ cfg.max_size)))
Warmed cfg cl n (some e) (q, failed f) = f ≡ user e
Warmed cfg cl n o r = ⊥

-- Why a run of `try_get` ends as it does.
abbrev pub Tried : {C E : Type 0} → PoolConfig → Bool → Verdict C E → Inner C × Outcome C E → Type 0
Tried cfg cl searches (q, pending (try_validating conn)) = cfg.test_on_check_out ≡ true
Tried cfg cl searches (q, pending try_dialing) = (q.idle ≡ []) × (q.slots ≤ cfg.max_size)
Tried cfg cl searches (q, got conn) = cfg.test_on_check_out ≡ false
Tried cfg cl searches (q, nothing) = IsFull cfg q
Tried cfg cl searches (q, failed closed) = cl ≡ true
Tried cfg cl (gives raw) (q, got conn) = conn.raw ≡ raw
Tried cfg cl (refuses e) (q, failed f) = f ≡ user e
Tried cfg cl verdict r = ⊥

-- The task `waker` is queued under the id, behind all others.
abbrev pub IsLast : ℕ → Option ℕ → Waiters → Type 0
IsLast waker id w =
    (es : List Entry) × (i : ℕ) × (id ≡ some i) × (w.entries ≡ es ++ (i, waker) ∷ [])

-- A task that queued under an id on `w`, or under none, is parked on `v`: where it still has its place
-- it keeps that and the id, with its own waker; otherwise it is the last.
abbrev pub Parks : ℕ → Option ℕ → Waiters → Option ℕ → Waiters → Type 0
Parks waker none w id v = IsLast waker id v
Parks waker (some i) w id v =
    ((has i w.entries ≡ true) × (id ≡ some i) × (v.entries ≡ place i waker w.entries))
    ⊎ ((has i w.entries ≡ false) × IsLast waker id v)

-- The runs of a `get` on a pool, in a poll by the task `waker`: the first one; those of a parked call,
-- with the id that it queued under; those after a pause; and those after an answer of `is_valid` or of
-- `connect`. The number is that of the slots that the call holds before.
pub data GetRun {C E : Type 0} (waker : ℕ) (now : Instant) (p : Inner C)
    : ℕ → Option ℕ → Verdict C E → Inner C × Outcome C E → Type 0 where
  starts : GetRun waker now p 0 none searches (get p waker now)
  polls :
      (start : Instant) (waited : Bool) (wait : WaitReady)
      → GetRun waker now p 0 wait.id searches (resume_waiting p start waited wait waker now)
  goes_on :
      (start : Instant) (waited : Bool)
      → GetRun waker now p 0 none searches (get_loop loop_rounds p start waited waker now)
  finds_invalid :
      (start : Instant) (waited : Bool) (conn : Conn C) (raw : C)
      → GetRun waker now p 1 none searches
          (resume_validating p start waited conn raw false waker now)
  finds_valid :
      (start : Instant) (waited : Bool) (conn : Conn C) (raw : C)
      → GetRun waker now p 1 none
          (gives raw)
          (resume_validating p start waited conn raw true waker now)
  opens :
      (start : Instant) (waited : Bool) (raw : C)
      → GetRun waker now p 1 none (gives raw) (resume_dialing p start waited (opened raw) now)
  cannot_open :
      (start : Instant) (waited : Bool) (e : E)
      → GetRun waker now p 1 none (refuses e) (resume_dialing p start waited (refused e) now)

-- Why a run of a `get` ends as it does.
abbrev pub Asked :
    {C E : Type 0}
    → PoolConfig
    → Bool
    → ℕ
    → Option ℕ
    → Waiters
    → Verdict C E
    → Inner C × Outcome C E
    → Type 0
Asked cfg cl waker id w searches (q, pending (get_waiting start waited wait)) =
    IsFull cfg q × Parks waker id w wait.id q.waiters
Asked cfg cl waker id w searches (q, pending (get_validating start waited conn)) =
    cfg.test_on_check_out ≡ true
Asked cfg cl waker id w searches (q, pending (get_dialing start waited)) =
    (q.idle ≡ []) × (q.slots ≤ cfg.max_size)
Asked cfg cl waker id w searches (q, got conn) = cfg.test_on_check_out ≡ false
Asked cfg cl waker id w searches (q, failed closed) = cl ≡ true
Asked cfg cl waker id w (gives raw) (q, got conn) = conn.raw ≡ raw
Asked cfg cl waker id w (refuses e) (q, pending (get_sleeping start waited until)) =
    (cfg.retry_connection ≡ true) × (cl ≡ false)
Asked cfg cl waker id w (refuses e) (q, failed f) =
    (f ≡ user e) × ((cfg.retry_connection ≡ false) ⊎ (cl ≡ true))
Asked cfg cl waker id w verdict r = ⊥
