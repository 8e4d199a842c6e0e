-- ===== src/Manage.antt =====
-- src/manage.rs: what a manager supplies to the pool, and how a checkout fails.
--
-- `connect` and `is_valid` run asynchronously in the application's code, so their results enter the
-- model as arguments of the steps that resume a task. `has_broken` is synchronous and is a field.
use Prim.Native.String.{String}
use compio_pool.Prelude.{Bool, Option, none, some}

-- `trait ManageConnection`. `has_broken` takes `&mut`, so it returns the connection it leaves.
pub record ManageConnection (C : Type 0) : Type 0 where
  pub has_broken : C → C × Bool

-- `enum RunError<E>`.
pub data RunError (E : Type 0) : Type 0 where
  user : E → RunError E
  timed_out : RunError E
  closed : RunError E

-- `impl Display for RunError<E>`, for an `E` that displays itself by `show`.
unfoldable pub fmt : {E : Type 0} → (E → String) → RunError E → String
fmt show (user e) = show e
fmt show timed_out = "timed out waiting for a pooled connection"
fmt show closed = "the connection pool is closed"

-- `Error::source`.
unfoldable pub source : {E : Type 0} → RunError E → Option E
source (user e) = some e
source timed_out = none
source closed = none
