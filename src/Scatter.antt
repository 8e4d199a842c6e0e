-- ===== src/Scatter.antt =====
-- examples/scatter_gather.rs: each query line of a client is sent to every shard over a pooled
-- connection, and the replies are merged into one line, in the order of the shards.
--
-- What each shard's `local.get()` answers is an argument: for each query one list, a connection or
-- none for each shard. The tasks of one query run side by side, each on its own connection, so that
-- each is a function of that connection. `String::from_utf8_lossy`, and the printed milliseconds that
-- a query took, are arguments too.
pub mod Lines
pub mod Shards
pub mod Gather
use compio_pool.Prelude.{
  ℕ, zero, suc, Bool, true, false, not, Option, none, some, ◌⊎◌, inl, inr, ◌+◌, ◌*◌, ◌%◌, ◌&&◌,
  ◌==◌, List, [], ◌∷◌, ◌++◌, length, take, drop, total, leb, if◌then◌else◌, u64_mod, map,
}
use compio_pool.Prelude.Text.{is_empty, codes, position, decimal}
use compio_pool.Net.{Failure, invalid_data, other_kind, Read, Framed, new, await, write_all_bytes}

-- `struct Line`.
abbrev pub Line : Type 0
Line = Framed

-- `const MAX_LINE`.
abbrev pub max_line : ℕ
max_line = 64 * 1024

-- `str::trim_end_matches('\r')`.
unfoldable pub trim_end_cr : List ℕ → List ℕ
trim_end_cr [] = []
trim_end_cr (c ∷ cs) =
    let rest = trim_end_cr cs in if is_empty rest && c == 13 then [] else c ∷ rest

-- The tests of `read_line`'s loop: the position of the newline.
unfoldable pub line_end : List ℕ → Failure ⊎ Option ℕ
line_end buf = elim (position 10 buf) [
  | some pos ↦ inr (some pos)
  | none ↦
      if leb max_line (length buf) then inl (invalid_data (codes "line too long")) else inr none
]

-- The end of `read_line`.
unfoldable pub take_line :
    (List ℕ → List ℕ) → (Failure ⊎ Option ℕ) × Line → (Failure ⊎ Option (List ℕ)) × Line
take_line lossy (inl why, conn) = (inl why, conn)
take_line lossy (inr none, conn) = (inr none, conn)
take_line lossy (inr (some pos), conn) = (
  inr (some (trim_end_cr (lossy (take pos conn.buf)))),
  record conn { buf = drop (suc pos) conn.buf },
)

-- `Line::read_line`.
unfoldable pub read_line : (List ℕ → List ℕ) → Line → (Failure ⊎ Option (List ℕ)) × Line
read_line lossy conn = take_line lossy (await line_end (suc (length conn.reads)) conn)

-- `Line::write_line`.
unfoldable pub write_line : List ℕ → Line → Bool × Line
write_line text conn = write_all_bytes (text ++ (10 ∷ [])) conn

-- `Shard::connect`, where the socket connects; what `set_nodelay` answers is an argument.
unfoldable pub connect : Option (List Read × List Bool) → Bool → Failure ⊎ Line
connect none nodelay = inl other_kind
connect (some (reads, writes)) nodelay = if nodelay then inr (new reads writes) else inl other_kind

-- `Shard::is_valid`.
unfoldable pub is_valid : Line → Failure ⊎ Unit {0}
is_valid conn = if conn.healthy then inr tt else inl other_kind

-- `Shard::has_broken`.
unfoldable pub has_broken : Line → Bool
has_broken conn = not conn.healthy

-- The end of `query_shard`: a connection without a reply is marked dead.
unfoldable pub answer : (Failure ⊎ Option (List ℕ)) × Line → Option (List ℕ) × Line
answer (inl why, conn) = (none, record conn { healthy = false })
answer (inr none, conn) = (none, record conn { healthy = false })
answer (inr (some reply), conn) = (some reply, conn)

-- `query_shard` once a connection is leased.
unfoldable pub ask : (List ℕ → List ℕ) → List ℕ → Line → Option (List ℕ) × Line
ask lossy query conn =
    let (written, conn1) = write_line query conn in
    answer (if written then read_line lossy conn1 else (inl other_kind, conn1))

-- `query_shard`: the reply, and the connection that goes back to the pool.
unfoldable pub query_shard :
    (List ℕ → List ℕ) → List ℕ → Option Line → Option (List ℕ) × Option Line
query_shard lossy query none = (none, none)
query_shard lossy query (some conn) =
    let (reply, conn1) = ask lossy query conn in (reply, some conn1)

-- The parts that are gathered, from shard `id` on.
unfoldable pub gather : ℕ → List (Option (List ℕ)) → List (List ℕ)
gather id [] = []
gather id (none ∷ replies) =
    (codes "shard" ++ (decimal id ++ codes "=ERR")) ∷ gather (suc id) replies
gather id (some reply ∷ replies) = reply ∷ gather (suc id) replies

-- `[..].join(" ")`.
unfoldable pub join : List (List ℕ) → List ℕ
join [] = []
join (part ∷ []) = part
join (part ∷ next ∷ parts) = part ++ (32 ∷ join (next ∷ parts))

-- The line that `handle_client` answers.
unfoldable pub merged : List (List ℕ) → List ℕ → List ℕ
merged parts elapsed =
    join parts
    ++ (codes " | " ++ (decimal (length parts) ++ (codes " shards in " ++ (elapsed ++ codes "ms"))))

-- What one query meets: what each shard's pool answers, and the printed milliseconds.
pub record Round : Type 0 where
  pub leases : List (Option Line)
  pub elapsed : List ℕ

-- The answer to one query.
unfoldable pub reply_to : (List ℕ → List ℕ) → List ℕ → Round → List ℕ
reply_to lossy query round =
    merged (gather 0 (map (λ lease. (query_shard lossy query lease).0) round.leases)) round.elapsed

-- `handle_client` after a read, with the next turn for another round and for the same.
unfoldable pub serve :
    (List ℕ → List ℕ)
    → (List Round → Line → Option Line)
    → List Round
    → (Failure ⊎ Option (List ℕ)) × Line
    → Option Line
serve lossy next rounds (inl why, client) = some client
serve lossy next rounds (inr none, client) = some client
serve lossy next rounds (inr (some []), client) = next rounds client
serve lossy next [] (inr (some (c ∷ query)), client) = some client
serve lossy next (round ∷ rounds) (inr (some (c ∷ query)), client) =
    let (written, client1) = write_line (reply_to lossy (c ∷ query) round) client in
    let rest = next rounds client1 in if written then rest else some client1

-- `handle_client`, on fuel: a turn for each line, and one for the end. It stops as well where no
-- lease answers any more.
unfoldable pub handle_client : (List ℕ → List ℕ) → ℕ → List Round → Line → Option Line
handle_client lossy zero rounds client = none
handle_client lossy (suc fuel) rounds client =
    serve lossy (handle_client lossy fuel) rounds (read_line lossy client)

-- The reply of `shard_conn`.
unfoldable pub shard_reply : ℕ → List ℕ → List ℕ
shard_reply id query =
    let hits = (total (λ b. b) query % u64_mod) % (10 + id) in
    codes "shard" ++ (decimal id ++ (codes "=" ++ decimal hits))

-- A turn of `shard_conn` after its read: whether it goes on. The pause before the reply changes
-- nothing here.
unfoldable pub shard_turn : ℕ → (Failure ⊎ Option (List ℕ)) × Line → Bool × Line
shard_turn id (inl why, conn) = (false, conn)
shard_turn id (inr none, conn) = (false, conn)
shard_turn id (inr (some query), conn) = write_line (shard_reply id query) conn

-- `shard_conn`, on fuel: a turn for each line, and one for the end.
unfoldable pub shard_conn : (List ℕ → List ℕ) → ℕ → ℕ → Line → Option Line
shard_conn lossy zero id conn = none
shard_conn lossy (suc fuel) id conn =
    let (goes_on, after) = shard_turn id (read_line lossy conn) in
    elim goes_on [ true ↦ shard_conn lossy fuel id after | false ↦ some after ]
