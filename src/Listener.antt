-- ===== src/Listener.antt =====
-- src/listener.rs: the socket options of a shared listener and the order in which they are set.
--
-- The socket library is not modelled: each call that `bind_reuseport` makes on it is an `Op`, and
-- `answer` says with which error it fails, if it does. The result is the calls made, in order, and
-- the error that stopped the sequence.
pub mod Laws
use compio_pool.Prelude.{ℕ, Option, none, some, List, [], ◌∷◌, ◌++◌}

pub data Op : Type 0 where
  socket : Op
  reuse_address : Op
  reuse_port : Op
  incoming_cpu : ℕ → Op
  bind : Op
  listen : ℕ → Op

module _ {E : Type 0} (answer : Op → Option E) where
  -- Calls made one after another, each with `?`.
  unfoldable pub all_of : List Op → List Op × Option E
  all_of [] = ([], none)
  all_of (op ∷ ops) = elim (answer op) [
    | some e ↦ (op ∷ [], some e)
    | none ↦ let (made, result) = all_of ops in (op ∷ made, result)
  ]

  -- What follows a sequence that went well.
  unfoldable pub and_then : List Op × Option E → List Op × Option E → List Op × Option E
  and_then (made, some e) rest = (made, some e)
  and_then (made, none) (more, result) = (made ++ more, result)

  -- `set_incoming_cpu`: a failure is ignored.
  unfoldable pub set_incoming_cpu : Option ℕ → List Op × Option E
  set_incoming_cpu none = ([], none)
  set_incoming_cpu (some cpu) = (incoming_cpu cpu ∷ [], none)

  -- `bind_reuseport`.
  unfoldable pub bind_reuseport : ℕ → Option ℕ → List Op × Option E
  bind_reuseport backlog cpu =
      and_then (all_of (socket ∷ reuse_address ∷ reuse_port ∷ []))
        (and_then (set_incoming_cpu cpu) (all_of (bind ∷ listen backlog ∷ [])))
