-- ===== src/Files.antt =====
-- examples/file_server.rs: a server that answers each request, the name of a file, with the file's size
-- and then its bytes, through a pooled buffer.
--
-- The directory, what `File::open`, `metadata` and `read_at` answer, and the check of UTF-8 are
-- arguments. Which writes to the socket fail is a list, past whose end they succeed; of a write that
-- fails nothing is said to arrive. What the requests read is a list, past whose end the peer has closed.
pub mod Names
pub mod Whole
pub mod Inside
use compio_pool.Prelude.{
  ℕ, zero, suc, Bool, true, false, Option, none, some, ◌⊎◌, inl, inr, ◌||◌, ◌==◌, ◌&&◌, List, [],
  ◌∷◌, ◌++◌, length, ltb, if◌then◌else◌, add_u64,
}
use compio_pool.Prelude.Text.{codes, is_empty, decimal, trim_end_newline}

-- An open file: what `metadata` answers, its length or the text of an error, and what `read_at`
-- answers at each offset, some bytes or none for an error.
pub record File : Type 0 where
  pub metadata : List ℕ ⊎ ℕ
  pub read_at : ℕ → Option (List ℕ)

-- What the next turn of `serve` meets: the bytes that the socket reads, or none for the peer's close or
-- an error; and whether the pool leases a buffer.
pub record Turn : Type 0 where
  pub read : Option (ℕ × List ℕ)
  pub leased : Bool

-- What a part of a turn sends, in order; whether the loop goes on; and the writes to come.
pub record Sent : Type 0 where
  pub bytes : List ℕ
  pub alive : Bool
  pub writes : List Bool

abbrev pub stop : List Bool → Sent
stop writes = record { bytes = []; alive = false; writes = writes }

abbrev pub idle : List Bool → Sent
idle writes = record { bytes = []; alive = true; writes = writes }

-- One `write_all`.
abbrev pub write_all : List ℕ → List Bool → Sent
write_all bytes [] = record { bytes = bytes; alive = true; writes = [] }
write_all bytes (true ∷ writes) = record { bytes = bytes; alive = true; writes = writes }
write_all bytes (false ∷ writes) = record { bytes = []; alive = false; writes = writes }

-- One part after another, while the loop goes on.
abbrev pub then_ : Sent → (List Bool → Sent) → Sent
then_ first next =
    let more = next first.writes in
    if first.alive
    then record { bytes = first.bytes ++ more.bytes; alive = more.alive; writes = more.writes }
    else first

-- `reply_err`.
unfoldable pub reply_err : List ℕ → List Bool → Sent
reply_err why = write_all (codes "ERR " ++ (why ++ (10 ∷ [])))

-- A round of the inner loop of `serve`, by what it reads, with the rounds after a number of bytes.
unfoldable pub copied : Option (List ℕ) → (ℕ → List Bool → Sent) → List Bool → Sent
copied none next writes = stop writes
copied (some []) next writes = idle writes
copied (some (b ∷ bytes)) next writes =
    then_ (write_all (b ∷ bytes) writes) (next (suc (length bytes)))

-- The inner loop of `serve`: the file from an offset on.
unfoldable pub copy : ℕ → (ℕ → Option (List ℕ)) → ℕ → ℕ → List Bool → Sent
copy zero read_at size offset writes = stop writes
copy (suc fuel) read_at size offset writes =
    if ltb offset size
    then copied (read_at offset) (λ n. copy fuel read_at size (add_u64 offset n)) writes
    else idle writes

-- The size header, then the body through a leased buffer.
unfoldable pub send : Bool → (ℕ → Option (List ℕ)) → ℕ → List Bool → Sent
send leased read_at size writes =
    then_ (write_all (decimal size ++ (10 ∷ [])) writes)
      (λ rest. if leased then copy (suc size) read_at size 0 rest else stop rest)

unfoldable pub send_file : Bool → List ℕ ⊎ File → List Bool → Sent
send_file leased (inl why) = reply_err why
send_file leased (inr file) = elim file.metadata [
  | inl why ↦ reply_err why
  | inr size ↦ send leased file.read_at size
]

-- `name.contains('/')`, and `name.contains("..")`.
unfoldable pub has_slash : List ℕ → Bool
has_slash [] = false
has_slash (c ∷ cs) = c == b'/' || has_slash cs

unfoldable pub has_dots : List ℕ → Bool
has_dots [] = false
has_dots (c ∷ []) = false
has_dots (c ∷ d ∷ cs) = c == b'.' && d == b'.' || has_dots (d ∷ cs)

abbrev pub bad_name : List ℕ → Bool
bad_name name = is_empty name || (has_slash name || has_dots name)

-- What a turn of `serve` sends once it has read its request.
unfoldable pub answer :
    (List ℕ → Bool) → (List ℕ → List ℕ ⊎ File) → Bool → List ℕ → List Bool → Sent
answer utf8 open_file leased req =
    let name = trim_end_newline req in
    if utf8 req
    then (if bad_name name then reply_err (codes "bad name") else send_file leased (open_file name))
    else reply_err (codes "utf8")

-- `serve`: all that it sends.
unfoldable pub serve : (List ℕ → Bool) → (List ℕ → List ℕ ⊎ File) → List Turn → List Bool → Sent
serve utf8 open_file [] writes = stop writes
serve utf8 open_file (turn ∷ turns) writes = elim turn.read [
  | none ↦ stop writes
  | some (b, bytes) ↦
      then_ (answer utf8 open_file turn.leased (b ∷ bytes) writes) (serve utf8 open_file turns)
]
