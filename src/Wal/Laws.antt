-- ===== src/Wal/Laws.antt =====
-- examples/wal.rs, `serve`: what an acknowledgement means.
use compio_pool.Prelude.{
  ℕ, suc, Bool, true, false, Option, none, some, ◌⊎◌, inl, inr, ◌≡◌, refl, sym, ap, subst, ◌∙◌, ◌+◌,
  ◌≤◌, ◌<◌, List, [], ◌∷◌, ◌++◌, arith, length, length-append, Bool-cases, Option-cases, u64_mod,
  total, concat,
}
use mathlib.Core.List.{append_assoc, append-nil}
use compio_pool.Wal.{Wal, Turn, append, flush, acknowledge, commit, on_read, serve}
use compio_pool.Wal.Log.{Begins, Holds, bytes_of, size, append-Holds, append_fails-Holds}

-- A turn's record before those of the later turns; a turn that reads nothing, or whose write to the
-- file fails, is the last.
abbrev pub with_record : List (List ℕ) → Option ℕ → Option (ℕ × List ℕ) → List (List ℕ)
with_record records error none = []
with_record records none (some (b, bytes)) = (b ∷ bytes) ∷ records
with_record records (some n) (some (b, bytes)) = []

-- The records that the turns write in full: each is what a turn reads.
abbrev pub written : List Turn → List (List ℕ)
written [] = []
written (turn ∷ turns) = with_record (written turns) turn.write_error turn.read

-- What `serve` did with the log, of the records `records`.
pub record Served (sync : Bool) (records : List (List ℕ)) (log : List ℕ) (wal after : Wal)
    (acked : List (List ℕ)) : Type 0 where
  pub last : List (List ℕ)
  pub few : length last ≤ 1
  pub left : List (List ℕ)
  pub in_order : records ≡ (acked ++ last) ++ left
  pub holds : Holds after (log ++ concat (acked ++ last))
  pub disk :
      sync ≡ true
      → ((acked ≡ []) × (after.file.durable ≡ wal.file.durable))
        ⊎ Begins after.file.durable (log ++ concat acked)

module _ (sync : Bool) where
  -- Nothing is appended.
  idle-Served :
      (records : List (List ℕ)) (log : List ℕ) (wal after : Wal)
      → Holds after log
      → after.file.durable ≡ wal.file.durable
      → Served sync records log wal after []
  idle-Served records log wal after h d = record {
    last = [];
    few = omega arith;
    left = records;
    in_order = refl;
    holds = subst (Holds after) (sym (append-nil log)) h;
    disk = λ s. inl (refl, d);
  }

  -- A record is appended, and the turns after it do the rest.
  more-Served :
      (records : List (List ℕ)) (bytes log : List ℕ) (wal wal1 after : Wal) (acked : List (List ℕ))
      → (sync ≡ true → Begins wal1.file.durable (log ++ bytes))
      → Served sync records (log ++ bytes) wal1 after acked
      → Served sync (bytes ∷ records) log wal after (bytes ∷ acked)
  more-Served records bytes log wal wal1 after acked flushed s = record {
    last = s.last;
    few = s.few;
    left = s.left;
    in_order = ap (λ rs. bytes ∷ rs) s.in_order;
    holds = subst (Holds after) (append_assoc log bytes (concat (acked ++ s.last))) s.holds;
    disk = λ on. inr (on_disk (flushed on) (s.disk on));
  }
    where
      on_disk :
          Begins wal1.file.durable (log ++ bytes)
          → ((acked ≡ []) × (after.file.durable ≡ wal1.file.durable))
            ⊎ Begins after.file.durable ((log ++ bytes) ++ concat acked)
          → Begins after.file.durable (log ++ (bytes ++ concat acked))
      on_disk b (inl (none_acked, same)) = record {
        rest = b.rest;
        same =
            same
            ∙ b.same
            ∙ ap (λ t. t ++ b.rest) (ap (λ t. log ++ t) (sym (append-nil bytes)))
            ∙ ap (λ acks. (log ++ (bytes ++ concat acks)) ++ b.rest) (sym none_acked);
      }
      on_disk b (inr c) = record {
        rest = c.rest;
        same = c.same ∙ ap (λ t. t ++ c.rest) (append_assoc log bytes (concat acked));
      }

  -- A record is appended, but not acknowledged.
  unacked-Served :
      (records : List (List ℕ)) (bytes log : List ℕ) (wal after : Wal)
      → Holds after (log ++ bytes)
      → after.file.durable ≡ wal.file.durable
      → Served sync (bytes ∷ records) log wal after []
  unacked-Served records bytes log wal after h d = record {
    last = bytes ∷ [];
    few = omega arith;
    left = records;
    in_order = refl;
    holds = subst (λ t. Holds after (log ++ t)) (sym (append-nil bytes)) h;
    disk = λ on. inl (refl, d);
  }

  acknowledge-Served :
      (records : List (List ℕ)) (turn : Turn) (bytes log : List ℕ)
      (next : Wal → Wal × List (List ℕ)) (wal wal1 : Wal)
      → Holds wal1 (log ++ bytes)
      → (sync ≡ true → Begins wal1.file.durable (log ++ bytes))
      → Served sync records (log ++ bytes) wal1 (next wal1).0 (next wal1).1
      → Served sync
          (bytes ∷ records)
          log
          wal
          (acknowledge turn bytes next (true, wal1)).0
          (acknowledge turn bytes next (true, wal1)).1
  unfolding acknowledge
  acknowledge-Served records turn bytes log next wal wal1 h d s = elim (Bool-cases turn.sent) [
    | inl e ↦ rw e (more-Served records bytes log wal wal1 (next wal1).0 (next wal1).1 d s)
    | inr e ↦ rw e (
        more-Served records bytes log wal wal1 wal1 [] d
          (idle-Served records (log ++ bytes) wal1 wal1 h refl))
  ]

-- A flush that lets `serve` go on has put the whole content on the disk, or is switched off.
flush-cases :
    (sync : Bool) (turn : Turn) (wal : Wal)
    → (flush sync turn wal ≡ (false, wal))
      ⊎ ((wal1 : Wal) × (flush sync turn wal ≡ (true, wal1))
          × (wal1.file.content ≡ wal.file.content)
          × (wal1.offset ≡ wal.offset)
          × (sync ≡ true → wal1.file.durable ≡ wal.file.content))
unfolding flush
flush-cases false turn wal = inr (wal, refl, refl, refl, λ e. cc)
flush-cases true turn wal = elim (Bool-cases turn.flushed) [
  | inl e ↦ inr (
    record wal { file = record wal.file { durable = wal.file.content } },
    rw e refl,
    refl,
    refl,
    λ on. refl,
  )
  | inr e ↦ inl (rw e refl)
]

module _ (sync : Bool) where
  commit-Served :
      (records : List (List ℕ)) (turn : Turn) (bytes log : List ℕ)
      (next : Wal → Wal × List (List ℕ)) (wal wal1 : Wal)
      → Holds wal1 (log ++ bytes)
      → wal1.file.durable ≡ wal.file.durable
      → ((w : Wal)
          → Holds w (log ++ bytes)
          → Served sync records (log ++ bytes) w (next w).0 (next w).1)
      → Served sync
          (bytes ∷ records)
          log
          wal
          (commit sync turn bytes next (true, wal1)).0
          (commit sync turn bytes next (true, wal1)).1
  unfolding commit
  commit-Served records turn bytes log next wal wal1 h d later = elim (flush-cases sync turn wal1) [
    | inl e ↦ rw e (unfold acknowledge in unacked-Served sync records bytes log wal wal1 h d)
    | inr (wal2, e, same, tail, flushed) ↦
        let h2 : Holds wal2 (log ++ bytes) = record {
          beyond = h.beyond;
          content = same ∙ h.content;
          offset = tail ∙ h.offset;
        } in
        rw e (
          acknowledge-Served sync records turn bytes log next wal wal2 h2
            (λ on. record { rest = h.beyond; same = flushed on ∙ h.content }) (later wal2 h2))
  ]

  appended-Served :
      (records : List (List ℕ)) (turn : Turn) (bytes log : List ℕ)
      (next : Wal → Wal × List (List ℕ)) (wal : Wal)
      → Holds wal log
      → length log + length bytes < u64_mod
      → ((w : Wal)
          → Holds w (log ++ bytes)
          → Served sync records (log ++ bytes) w (next w).0 (next w).1)
      → Served sync
          (bytes ∷ records)
          log
          wal
          (commit sync turn bytes next (append none bytes wal)).0
          (commit sync turn bytes next (append none bytes wal)).1
  unfolding append
  appended-Served records turn bytes log next wal h fits later =
      commit-Served records turn bytes log next wal (append none bytes wal).1
        (append-Holds bytes log wal h fits) refl later

  fails-Served :
      (n : ℕ) (turn : Turn) (bytes log : List ℕ) (next : Wal → Wal × List (List ℕ)) (wal : Wal)
      → Holds wal log
      → Served sync [] log wal
          (commit sync turn bytes next (append (some n) bytes wal)).0
          (commit sync turn bytes next (append (some n) bytes wal)).1
  unfolding append commit
  fails-Served n turn bytes log next wal h =
      idle-Served sync [] log wal (append (some n) bytes wal).1
        (append_fails-Holds n bytes log wal h) refl

  on_read-Served :
      (records : List (List ℕ)) (turn : Turn) (log : List ℕ) (next : Wal → Wal × List (List ℕ))
      (wal : Wal) (limit : ℕ) (read : Option (ℕ × List ℕ))
      → Holds wal log
      → length log + (bytes_of read + limit) < u64_mod
      → ((log' : List ℕ) (w : Wal)
          → Holds w log'
          → length log' + limit < u64_mod
          → Served sync records log' w (next w).0 (next w).1)
      → Served sync
          (with_record records turn.write_error read)
          log
          wal
          (on_read sync turn next read wal).0
          (on_read sync turn next read wal).1
  unfolding on_read
  on_read-Served records turn log next wal limit none h fits later =
      idle-Served sync [] log wal wal h refl
  on_read-Served records turn log next wal limit (some (b, bytes)) h fits later =
      let log' : List ℕ = log ++ (b ∷ bytes) in
      let longer : length log' ≡ length log + suc (length bytes) = length-append log (b ∷ bytes) in
      let Goal : Option ℕ → Type 0 = λ failure.
        Served sync (with_record records failure (some (b, bytes))) log wal
          (commit sync turn (b ∷ bytes) next (append failure (b ∷ bytes) wal)).0
          (commit sync turn (b ∷ bytes) next (append failure (b ∷ bytes) wal)).1 in
      elim (Option-cases turn.write_error) [
        | inl e ↦ subst Goal (sym e) (
            appended-Served records turn (b ∷ bytes) log next wal h (omega (arith, fits))
              (λ w h'. later log' w h' (omega (arith, longer, fits))))
        | inr (n, e) ↦ subst Goal (sym e) (fails-Served n turn (b ∷ bytes) log next wal h)
      ]

  -- While the offsets fit 64 bits: of the records that are read and written in full, in order, `serve`
  -- acknowledges the first ones; it appends to the log of its segment just these, and at most the
  -- record that is next. With `SYNC` on, the content that was last flushed
  -- begins with the log and every record that was acknowledged, or none was and the last flushed
  -- content is the one before. A record whose write fails is none of these, whatever part of it
  -- reached the file, and nothing is appended after it.
  pub serve-Served :
      (turns : List Turn) (log : List ℕ) (wal : Wal)
      → Holds wal log
      → length log + total size turns < u64_mod
      → Served sync (written turns) log wal (serve sync turns wal).0 (serve sync turns wal).1
  unfolding serve
  serve-Served [] log wal h fits = idle-Served sync [] log wal wal h refl
  serve-Served (turn ∷ turns) log wal h fits =
      on_read-Served (written turns) turn log (serve sync turns) wal (total size turns) turn.read h
        fits (λ log' w h' fits'. serve-Served turns log' w h' fits')
