-- ===== src/Net.antt =====
-- examples/http_proxy.rs and examples/scatter_gather.rs: a connection with a read buffer, as `Framed`
-- and `Line` are, and its reads and writes.
--
-- What the socket's reads answer from now on is a list: nonempty pieces and errors, at whose end
-- the peer has closed. Each of its next writes succeeds or fails, and fails past their list's end;
-- `sent` is what the successful ones wrote, the last one first. The capacity of the buffer only
-- bounds the size of a piece. A read of the socket fails with another kind than `InvalidData`.
pub mod Stream
use compio_pool.Prelude.{
  ℕ, zero, suc, Bool, true, false, Option, none, some, ◌⊎◌, inl, inr, List, [], ◌∷◌, ◌++◌,
}

-- `io::Error`, as far as the programs look: `InvalidData` with its text, or another kind.
pub data Failure : Type 0 where
  invalid_data : List ℕ → Failure
  other_kind : Failure

-- What one read answers.
pub data Read : Type 0 where
  piece : ℕ → List ℕ → Read
  failed : Read

-- `struct Framed`.
pub record Framed : Type 0 where
  pub reads : List Read
  pub writes : List Bool
  pub sent : List (List ℕ)
  pub buf : List ℕ
  pub healthy : Bool

-- `Framed::new`.
unfoldable pub new : List Read → List Bool → Framed
new reads writes = record { reads = reads; writes = writes; sent = []; buf = []; healthy = true }

-- `Framed::read_more`.
unfoldable pub read_more : Framed → (Failure ⊎ Bool) × Framed
read_more conn = elim conn.reads [
  | [] ↦ (inr false, conn)
  | (r ∷ reads) ↦ elim r [
    | piece b bytes ↦ (inr true, record conn { reads = reads; buf = conn.buf ++ (b ∷ bytes) })
    | failed ↦ (inl other_kind, record conn { reads = reads })
  ]
]

-- A loop that reads until a test of the buffer gives a number or an error; `none` where the peer
-- closes first. Each read takes an entry off the list of reads.
unfoldable pub await : (List ℕ → Failure ⊎ Option ℕ) → ℕ → Framed → (Failure ⊎ Option ℕ) × Framed
await test zero conn = (inr none, conn)
await test (suc fuel) conn = elim (test conn.buf) [
  | inl why ↦ (inl why, conn)
  | inr (some n) ↦ (inr (some n), conn)
  | inr none ↦
      let (answer, after) = read_more conn in
      elim answer [
        | inl why ↦ (inl why, after)
        | inr false ↦ (inr none, after)
        | inr true ↦ await test fuel after
      ]
]

-- `Framed::write_all_bytes`.
unfoldable pub write_all_bytes : List ℕ → Framed → Bool × Framed
write_all_bytes bytes conn = elim conn.writes [
  | [] ↦ (false, conn)
  | (true ∷ writes) ↦ (true, record conn { writes = writes; sent = bytes ∷ conn.sent })
  | (false ∷ writes) ↦ (false, record conn { writes = writes })
]
