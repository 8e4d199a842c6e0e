-- ===== src/Wal/Log.antt =====
-- examples/wal.rs: a segment as the log that it holds, and what an append makes of that.
use compio_pool.Prelude.{
  ℕ, suc, Option, none, some, ◌≡◌, sym, ap, ◌∙◌, ◌+◌, ◌-◌, ◌<◌, List, ◌++◌, arith, length, take,
  drop, length-append, take-all, u64_mod, add_u64,
}
use mathlib.Core.List.{append_assoc}
use native.Mathlib.Nat.{mod-eq_of_lt}
use compio_pool.Wal.{Wal, Turn, zeros, write_at, append}

-- A text begins with another.
pub record Begins (text start : List ℕ) : Type 0 where
  pub rest : List ℕ
  pub same : text ≡ start ++ rest

-- The segment holds a log: its content up to the offset.
pub record Holds (wal : Wal) (log : List ℕ) : Type 0 where
  pub beyond : List ℕ
  pub content : wal.file.content ≡ log ++ beyond
  pub offset : wal.offset ≡ length log

-- What the socket delivers.
abbrev pub bytes_of : Option (ℕ × List ℕ) → ℕ
bytes_of none = 0
bytes_of (some (b, bytes)) = suc (length bytes)

abbrev pub size : Turn → ℕ
size turn = bytes_of turn.read

write_at-log :
    (bytes log beyond : List ℕ)
    → write_at bytes (length log) (log ++ beyond)
      ≡ (log ++ bytes) ++ drop (length log + length bytes) (log ++ beyond)
unfolding write_at
write_at-log bytes log beyond =
    let gap : length log - length (log ++ beyond) ≡ 0 = omega (arith, length-append log beyond) in
    let after = drop (length log + length bytes) (log ++ beyond) in
    ap (λ t. t ++ (zeros (length log - length (log ++ beyond)) ++ (bytes ++ after)))
      (take-all log beyond)
    ∙ ap (λ n. log ++ (zeros n ++ (bytes ++ after))) gap
    ∙ sym (append_assoc log bytes after)

-- An append that succeeds puts the record at the end of the log; one that fails leaves the log.
pub append-Holds :
    (bytes log : List ℕ) (wal : Wal)
    → Holds wal log
    → length log + length bytes < u64_mod
    → Holds (append none bytes wal).1 (log ++ bytes)
unfolding append
append-Holds bytes log wal h fits =
    let new : ℕ = length log + length bytes in
    record {
      beyond = drop new (log ++ h.beyond);
      content = (λ i. write_at bytes (h.offset i) (h.content i)) ∙ write_at-log bytes log h.beyond;
      offset =
          ap (λ n. add_u64 n (length bytes)) h.offset
          ∙ mod-eq_of_lt fits
          ∙ sym (length-append log bytes);
    }

pub append_fails-Holds :
    (n : ℕ) (bytes log : List ℕ) (wal : Wal)
    → Holds wal log
    → Holds (append (some n) bytes wal).1 log
unfolding append
append_fails-Holds n bytes log wal h =
    let part : List ℕ = take n bytes in
    record {
      beyond = part ++ drop (length log + length part) (log ++ h.beyond);
      content =
          (λ i. write_at part (h.offset i) (h.content i))
          ∙ write_at-log part log h.beyond
          ∙ append_assoc log part (drop (length log + length part) (log ++ h.beyond));
      offset = h.offset;
    }
