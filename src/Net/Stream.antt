-- ===== src/Net/Stream.antt =====
-- The bytes that a connection still delivers, and what the reading
-- loops make of them however the socket cuts them into pieces.
use compio_pool.Prelude.{
  ℕ, zero, suc, true, Option, none, some, ◌⊎◌, inl, inr, ◌≡◌, ◌≢◌, refl, ◌≤◌, ◌<◌, List, [], ◌∷◌,
  ◌++◌, arith, length, length-append, List-cases,
}
use mathlib.Core.List.{append_assoc}
use native.Mathlib.Decide.{dec_le}
use compio_pool.Net.{Failure, Read, piece, failed, Framed, read_more, await}

-- What the reads give up to the first error or the close.
abbrev pub delivered : List Read → List ℕ
delivered [] = []
delivered (piece b bytes ∷ reads) = (b ∷ bytes) ++ delivered reads
delivered (failed ∷ reads) = []

-- What the connection still delivers, the buffer first.
abbrev pub stream : Framed → List ℕ
stream conn = conn.buf ++ delivered conn.reads

-- A read that takes a piece.
pub record Taken (conn after : Framed) : Type 0 where
  pub same_stream : stream after ≡ stream conn
  pub fewer : suc (length after.reads) ≡ length conn.reads

pub read_more-Taken : (conn after : Framed) → read_more conn ≡ (inr true, after) → Taken conn after
unfolding read_more
read_more-Taken conn after h = elim (List-cases conn.reads) [
  | inl e ↦ ground arith
  | inr (failed, rest, e) ↦ ground arith
  | inr (piece b bytes, rest, e) ↦
      ground (arith, append_assoc conn.buf (b ∷ bytes) (delivered rest))
]

-- What a reading loop answers, and the connection that it leaves.
pub record Awaited (test : List ℕ → Failure ⊎ Option ℕ) (conn : Framed) (n : ℕ) (after : Framed)
    : Type 0 where
  pub passes : test after.buf ≡ inr (some n)
  pub same_stream : stream after ≡ stream conn

-- A loop that gives a number stops at a buffer that passes its test, and loses no byte.
pub await-Awaited :
    (test : List ℕ → Failure ⊎ Option ℕ) (fuel : ℕ) (conn : Framed) (n : ℕ) (after : Framed)
    → await test fuel conn ≡ (inr (some n), after)
    → Awaited test conn n after
unfolding await
await-Awaited test zero conn n after h = cc
await-Awaited test (suc fuel) conn n after h =
    let ih = await-Awaited test fuel (read_more conn).1 n after in
    let taken = read_more-Taken conn (read_more conn).1 in ground (arith, ih, taken)

-- A read gives a piece as long as a byte is to come.
read_more-true : (conn : Framed) → delivered conn.reads ≢ [] → (read_more conn).0 ≡ inr true
unfolding read_more
read_more-true conn h = elim (List-cases conn.reads) [
  | inl e ↦ ground arith
  | inr (failed, rest, e) ↦ ground arith
  | inr (piece b bytes, rest, e) ↦ ground arith
]

-- A loop whose test waits for the first `size` bytes of the stream is given them.
pub await_ready :
    (test : List ℕ → Failure ⊎ Option ℕ) (all : List ℕ) (n size : ℕ)
    → ((buf rest : List ℕ) → buf ++ rest ≡ all → length buf < size → test buf ≡ inr none)
    → ((buf rest : List ℕ) → buf ++ rest ≡ all → size ≤ length buf → test buf ≡ inr (some n))
    → size ≤ length all
    → (fuel : ℕ) (conn : Framed) → stream conn ≡ all
    → length conn.reads < fuel
    → (await test fuel conn).0 ≡ inr (some n)
unfolding await
await_ready test all n size early late fits zero conn same h = absurd (omega arith)
await_ready test all n size early late fits (suc fuel) conn same h =
    let next = (read_more conn).1 in
    elim (dec_le size (length conn.buf)) [
      | yes p ↦ ground (arith, late conn.buf (delivered conn.reads) same p)
      | no p ↦
          let taken = read_more-Taken conn next in
          let more = read_more-true conn in
          let ih = await_ready test all n size early late fits fuel next in
          ground (
            arith,
            early conn.buf (delivered conn.reads) same (omega arith),
            more,
            taken,
            ih,
            length-append conn.buf (delivered conn.reads),
          )
    ]

-- What reading never touches.
pub record Untouched (conn after : Framed) : Type 0 where
  pub same_sent : after.sent ≡ conn.sent
  pub same_writes : after.writes ≡ conn.writes
  pub same_health : after.healthy ≡ conn.healthy

read_more-Untouched : (conn : Framed) → Untouched conn (read_more conn).1
unfolding read_more
read_more-Untouched conn = elim (List-cases conn.reads) [
  | inl e ↦ ground arith
  | inr (failed, rest, e) ↦ ground arith
  | inr (piece b bytes, rest, e) ↦ ground arith
]

pub await-Untouched :
    (test : List ℕ → Failure ⊎ Option ℕ) (fuel : ℕ) (conn : Framed)
    → Untouched conn (await test fuel conn).1
unfolding await
await-Untouched test zero conn = record { same_sent = refl; same_writes = refl; same_health = refl }
await-Untouched test (suc fuel) conn =
    let ih = await-Untouched test fuel (read_more conn).1 in
    ground (arith, ih, read_more-Untouched conn)

-- Fuel past the reads to come changes nothing: the loop ends by itself.
await_enough :
    (test : List ℕ → Failure ⊎ Option ℕ) (fuel : ℕ) (conn : Framed)
    → length conn.reads < fuel
    → await test (suc fuel) conn ≡ await test fuel conn
unfolding await
await_enough test zero conn h = absurd (omega arith)
await_enough test (suc fuel) conn h =
    let next = (read_more conn).1 in
    ground (arith, await_enough test fuel next, read_more-Taken conn next)

-- The three answers of a reading operation.
pub Answer-cases :
    {A : Type 0} (answer : Failure ⊎ Option A)
    → ((why : Failure) × (answer ≡ inl why))
      ⊎ (answer ≡ inr none)
      ⊎ ((a : A) × (answer ≡ inr (some a)))
Answer-cases (inl why) = inl (why, refl)
Answer-cases (inr none) = inr (inl refl)
Answer-cases (inr (some a)) = inr (inr (a, refl))
