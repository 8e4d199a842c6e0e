-- ===== src/Redis.antt =====
-- crates/deadpool-baseline/examples/redis_proxy.rs: a server that turns each line of a client into one
-- command on a pooled Redis connection, and its answer into one line.
--
-- The Redis connection is an argument: a state, and what each command answers on it. So is the escaped
-- print of an unknown command (`{:?}`). What `read_line` gives is a list of lines, at whose end the
-- client has closed.
use compio_pool.Prelude.{
  ℕ, Bool, true, false, Option, none, some, ◌⊎◌, inl, inr, ◌||◌, List, [], ◌∷◌, ◌++◌, if◌then◌else◌,
  map, concat,
}
use compio_pool.Prelude.Text.{
  codes, same_text, next_word, to_ascii_uppercase, trim_end_newline, decimal, split_lines,
}

-- `RedisError`, as far as the server looks.
pub record RedisError : Type 0 where
  pub is_io_error : Bool
  pub is_connection_dropped : Bool
  pub is_connection_refusal : Bool
  pub text : List ℕ

-- An `i64`: whether it is negative, and its absolute value.
abbrev pub I64 : Type 0
I64 = Bool × ℕ

-- `i64::to_string`.
unfoldable pub print : I64 → List ℕ
print (negative, n) = if negative then b'-' ∷ decimal n else decimal n

-- The commands on a connection of state `S`.
pub record Redis (S : Type 0) : Type 0 where
  pub ping : S → (RedisError ⊎ List ℕ) × S
  pub get : List ℕ → S → (RedisError ⊎ Option (List ℕ)) × S
  pub set : List ℕ → List ℕ → S → Option RedisError × S
  pub incr : List ℕ → S → (RedisError ⊎ I64) × S
  pub del : List ℕ → S → (RedisError ⊎ I64) × S

-- The end of `run`: the reply line, and whether the error is fatal for the connection.
unfoldable pub settle : RedisError ⊎ List ℕ → List ℕ × Bool
settle (inr reply) = (reply ++ (10 ∷ []), false)
settle (inl e) = (
  codes "ERR " ++ (e.text ++ (10 ∷ [])),
  e.is_io_error || (e.is_connection_dropped || e.is_connection_refusal),
)

abbrev pub or_nil : RedisError ⊎ Option (List ℕ) → RedisError ⊎ List ℕ
or_nil (inl e) = inl e
or_nil (inr none) = inr (codes "(nil)")
or_nil (inr (some value)) = inr value

abbrev printed : RedisError ⊎ I64 → RedisError ⊎ List ℕ
printed (inl e) = inl e
printed (inr n) = inr (print n)

abbrev pub done : Option RedisError → RedisError ⊎ List ℕ
done none = inr (codes "OK")
done (some e) = inl e

module _ {S : Type 0} (redis : Redis S) where
  unfoldable pub run_get : Option (List ℕ) → S → (RedisError ⊎ List ℕ) × S
  run_get none s = (inr (codes "ERR GET needs a key"), s)
  run_get (some key) s = let (answer, s1) = redis.get key s in (or_nil answer, s1)

  unfoldable pub run_set : Option (List ℕ) → Option (List ℕ) → S → (RedisError ⊎ List ℕ) × S
  run_set (some key) (some value) s = let (answer, s1) = redis.set key value s in (done answer, s1)
  run_set none value s = (inr (codes "ERR SET needs a key and a value"), s)
  run_set (some key) none s = (inr (codes "ERR SET needs a key and a value"), s)

  unfoldable pub run_incr : Option (List ℕ) → S → (RedisError ⊎ List ℕ) × S
  run_incr none s = (inr (codes "ERR INCR needs a key"), s)
  run_incr (some key) s = let (answer, s1) = redis.incr key s in (printed answer, s1)

  unfoldable pub run_del : Option (List ℕ) → S → (RedisError ⊎ List ℕ) × S
  run_del none s = (inr (codes "ERR DEL needs a key"), s)
  run_del (some key) s = let (answer, s1) = redis.del key s in (printed answer, s1)

  abbrev pub ends : (RedisError ⊎ List ℕ) × S → (List ℕ × Bool) × S
  ends (answer, s) = (settle answer, s)

  -- `run` on a command and the text after it.
  unfoldable pub dispatch : (List ℕ → List ℕ) → List ℕ → List ℕ → S → (List ℕ × Bool) × S
  dispatch debug command rest s =
      let upper = to_ascii_uppercase command in
      let (first, rest1) = next_word rest in
      let (second, rest2) = next_word rest1 in
      if same_text upper (codes "PING")
      then ends (redis.ping s)
      else if same_text upper (codes "GET")
      then ends (run_get first s)
      else if same_text upper (codes "SET")
      then ends (run_set first second s)
      else if same_text upper (codes "INCR")
      then ends (run_incr first s)
      else if same_text upper (codes "DEL")
      then ends (run_del first s)
      else if same_text upper (codes "QUIT")
      then ((codes "BYE" ++ (10 ∷ []), true), s)
      else ends (inr (codes "ERR unknown command " ++ debug upper), s)

  abbrev run_parts : (List ℕ → List ℕ) → Option (List ℕ) × List ℕ → S → (List ℕ × Bool) × S
  run_parts debug (none, rest) s = ((codes "ERR empty command" ++ (10 ∷ []), false), s)
  run_parts debug (some command, rest) s = dispatch debug command rest s

  -- `run`: the reply line, whether the connection ends, and the Redis connection after it.
  unfoldable pub run : (List ℕ → List ℕ) → List ℕ → S → (List ℕ × Bool) × S
  run debug line s = run_parts debug (next_word line) s

  -- `handle` once a connection is leased, on the lines that come and whether each reply can be
  -- written: the replies that were written, in order.
  unfoldable pub handle : (List ℕ → List ℕ) → List (List ℕ × Bool) → S → List (List ℕ) × S
  handle debug [] s = ([], s)
  handle debug ((line, written) ∷ lines) s =
      let ((reply, fatal), s1) = run debug (trim_end_newline line) s in
      let rest = handle debug lines s1 in
      if written
      then (reply ∷ (if fatal then [] else rest.0), if fatal then s1 else rest.1)
      else ([], s1)

-- The server as its client sees it: the lines that answer a batch, while every reply can be written.
unfoldable pub proxy :
    {S : Type 0} → Redis S → (List ℕ → List ℕ) → List ℕ → S → Option (List (List ℕ)) × S
proxy redis debug batch s =
    let (replies, s1) = handle redis debug (map (λ line. (line, true)) (split_lines batch)) s in
    (some (split_lines (concat replies)), s1)
