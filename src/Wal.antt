-- ===== src/Wal.antt =====
-- examples/wal.rs: a write-ahead-log server, whose pool hands out log segments.
--
-- A byte is a number. What the socket and the file answer in each turn of `serve` is its argument;
-- past the end of the list the peer has closed. A write that fails may have written a beginning of
-- its bytes.
pub mod Log
pub mod Laws
use compio_pool.Prelude.{
  ℕ, zero, suc, Bool, true, false, Option, none, some, ◌+◌, ◌-◌, List, [], ◌∷◌, ◌++◌, length, take,
  drop, if◌then◌else◌, ◌&&◌, not, add_u64,
}

-- A file: its content, and the content when it was last flushed to the disk.
pub record File : Type 0 where
  pub content : List ℕ
  pub durable : List ℕ

-- `struct Wal`.
pub record Wal : Type 0 where
  pub file : File
  pub offset : ℕ

-- `WalManager::connect`, with the counter of `NEXT_SEGMENT` and whether the file opens: the number of
-- the segment, and an empty one.
unfoldable pub connect : ℕ → Bool → ℕ × Option (ℕ × Wal)
connect next opens = (
  add_u64 next 1,
  (if opens
      then some (next, record { file = record { content = []; durable = [] }; offset = 0 })
      else none),
)

-- What the next turn of `serve` meets: a piece that the socket reads, or none for the peer's close or
-- an error; for the write to the file, none for success or the bytes written before it failed; whether
-- `sync_data` succeeds, and whether the acknowledgement does.
pub record Turn : Type 0 where
  pub read : Option (ℕ × List ℕ)
  pub write_error : Option ℕ
  pub flushed : Bool
  pub sent : Bool

abbrev pub zeros : ℕ → List ℕ
zeros zero = []
zeros (suc n) = 0 ∷ zeros n

-- A positional write, which fills a gap before it with zeros.
unfoldable pub write_at : List ℕ → ℕ → List ℕ → List ℕ
write_at bytes offset content =
    take offset content
    ++ (zeros (offset - length content) ++ (bytes ++ drop (offset + length bytes) content))

-- The append of `serve`: a write at the tail, and the new tail once it succeeded.
unfoldable pub append : Option ℕ → List ℕ → Wal → Bool × Wal
append none bytes wal = (
  true,
  record wal {
    file = record wal.file { content = write_at bytes wal.offset wal.file.content };
    offset = add_u64 wal.offset (length bytes);
  },
)
append (some n) bytes wal = (
  false,
  record wal {
    file = record wal.file { content = write_at (take n bytes) wal.offset wal.file.content };
  },
)

-- The flush of `serve`, where `SYNC` is on.
unfoldable pub flush : Bool → Turn → Wal → Bool × Wal
flush sync turn wal =
    if sync && turn.flushed
    then (true, record wal { file = record wal.file { durable = wal.file.content } })
    else (not sync, wal)

-- The acknowledgement, and the turns after it where it succeeded.
unfoldable pub acknowledge :
    Turn → List ℕ → (Wal → Wal × List (List ℕ)) → Bool × Wal → Wal × List (List ℕ)
acknowledge turn bytes next (false, wal) = (wal, [])
acknowledge turn bytes next (true, wal) =
    let rest = next wal in if turn.sent then (rest.0, bytes ∷ rest.1) else (wal, bytes ∷ [])

-- A turn of `serve` after its read.
unfoldable pub commit :
    Bool → Turn → List ℕ → (Wal → Wal × List (List ℕ)) → Bool × Wal → Wal × List (List ℕ)
commit sync turn bytes next (false, wal) = (wal, [])
commit sync turn bytes next (true, wal) = acknowledge turn bytes next (flush sync turn wal)

-- A turn of `serve`, by what it reads.
unfoldable pub on_read :
    Bool → Turn → (Wal → Wal × List (List ℕ)) → Option (ℕ × List ℕ) → Wal → Wal × List (List ℕ)
on_read sync turn next none wal = (wal, [])
on_read sync turn next (some (b, bytes)) wal =
    commit sync turn (b ∷ bytes) next (append turn.write_error (b ∷ bytes) wal)

-- `serve`, with the segment that it leased: the segment that it gives back, and the records whose
-- acknowledgement it began to write, in order.
unfoldable pub serve : Bool → List Turn → Wal → Wal × List (List ℕ)
serve sync [] wal = (wal, [])
serve sync (turn ∷ turns) wal = on_read sync turn (serve sync turns) turn.read wal
