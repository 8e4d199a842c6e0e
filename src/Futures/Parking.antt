-- ===== src/Futures/Parking.antt =====
-- When `get` parks its task: only on a full pool, and then at the back of the queue.
use compio_pool.Prelude.{ℕ, ◌≡◌, refl, Bool, false, List, [], ◌∷◌, length, arith}
use compio_pool.Config.{PoolConfig}
use compio_pool.Conn.{Conn}
use compio_pool.Waiters.{Waiters, Entry}
use compio_pool.Waiters
use compio_pool.Inner.{Inner}
use compio_pool.Local.{ready_now}
use compio_pool.Local.Slots.{IsLocal}
use compio_pool.Futures.Runs.{IsFull}

pub none_idle : {C : Type 0} (cs : List (Conn C)) → length cs ≡ 0 → cs ≡ []
none_idle [] e = refl
none_idle (c ∷ cs) e = ground arith

module _ {C : Type 0} where
  pub ready_now-false :
      {h ids : ℕ} {cfg : PoolConfig} {cl : Bool} (p : Inner C)
      → ready_now p ≡ false
      → IsLocal cfg cl ids h p
      → IsFull cfg p
  unfolding ready_now
  ready_now-false p e v = (none_idle p.idle (ground arith), ground arith)
