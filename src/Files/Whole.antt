-- ===== src/Files/Whole.antt =====
-- examples/file_server.rs, `serve`: a file that is sent whole.
use compio_pool.Prelude.{
  ℕ, zero, suc, Bool, true, false, Option, some, ◌⊎◌, inl, inr, ◌≡◌, refl, sym, ap, ◌∙◌, ◌+◌, ◌<◌,
  ◌≤◌, List, [], ◌∷◌, ◌++◌, arith, length, drop, ltb, u64_mod, add_u64, Bool-cases, length-append,
  length-drop, drop-length-le,
}
use native.Mathlib.Nat.{mod-eq_of_lt}
use compio_pool.Prelude.Text.{codes, decimal, trim_end_newline}
use compio_pool.Files.Names.{IsOutside, bad_name-IsOutside, bad_name-not-IsOutside}
use compio_pool.Files.{
  File, Turn, Sent, then_, reply_err, copy, copied, send, send_file, answer, serve,
}

-- A read at an offset of a file: bytes that stand there, at least one unless the file ends.
pub record IsRead (content : List ℕ) (offset : ℕ) (outcome : Option (List ℕ)) : Type 0 where
  pub first : ℕ
  pub bytes : List ℕ
  pub same : outcome ≡ some (first ∷ bytes)
  pub there : drop offset content ≡ (first ∷ bytes) ++ drop (offset + suc (length bytes)) content

-- A file whose length is what it says, and whose reads give its content, in pieces of any length.
pub record IsFile (file : File) (content : List ℕ) : Type 0 where
  pub metadata : file.metadata ≡ inr (length content)
  pub reads : (offset : ℕ) → offset < length content → IsRead content offset (file.read_at offset)
  pub fits : length content < u64_mod

module _ (file : File) (content : List ℕ) (honest : IsFile file content) where
  read_within :
      (offset n : ℕ) (xs ys : List ℕ)
      → drop offset xs ≡ ys ++ drop (offset + n) xs
      → length ys ≡ n
      → 0 < n
      → offset + n ≤ length xs
  read_within offset n xs ys e same pos = omega (
    arith,
    ap length e,
    length-append ys (drop (offset + n) xs),
    length-drop offset xs,
    length-drop (offset + n) xs,
  )

  abbrev sent_from : ℕ → Sent
  sent_from offset = record { bytes = drop offset content; alive = true; writes = [] }

  piece_whole :
      (offset : ℕ) (next : ℕ → List Bool → Sent) (r : IsRead content offset (file.read_at offset))
      → next (suc (length r.bytes)) [] ≡ sent_from (offset + suc (length r.bytes))
      → copied (file.read_at offset) next [] ≡ sent_from offset
  unfolding copied
  piece_whole offset next r e =
      ap (λ p. copied p next []) r.same
      ∙ ap
          (λ (m : Sent). record {
            bytes = (r.first ∷ r.bytes) ++ m.bytes;
            alive = m.alive;
            writes = m.writes;
          })
          e
      ∙ ap (λ bytes. record { bytes = bytes; alive = true; writes = [] }) (sym r.there)

  -- The rest of the file from an offset on is sent whole.
  copy_whole :
      (fuel offset : ℕ)
      → length content < fuel + offset
      → offset ≤ length content
      → copy fuel file.read_at (length content) offset [] ≡ sent_from offset
  unfolding copy
  copy_whole zero offset enough within = absurd (omega arith)
  copy_whole (suc fuel) offset enough within = elim (Bool-cases (ltb offset (length content))) [
    | inl more ↦
        let r = honest.reads offset (ground (arith, more)) in
        let n = suc (length r.bytes) in
        let fits = read_within offset n content (r.first ∷ r.bytes) r.there refl (omega arith) in
        rw (more) (
          piece_whole offset (λ k. copy fuel file.read_at (length content) (add_u64 offset k)) r
            (ap (λ o. copy fuel file.read_at (length content) o [])
                (mod-eq_of_lt (omega (arith, fits, honest.fits)))
              ∙ copy_whole fuel (offset + n) (omega (arith, enough)) fits))
    | inr end ↦ rw (end) (
        ap (λ bytes. record { bytes = bytes; alive = true; writes = [] })
          (sym (drop-length-le offset content (ground (arith, end)))))
  ]

  send_whole : send true file.read_at (length content) [] ≡ record {
    bytes = (decimal (length content) ++ (10 ∷ [])) ++ content;
    alive = true;
    writes = [];
  }
  unfolding send
  send_whole =
      ap
        (λ (m : Sent). record {
          bytes = (decimal (length content) ++ (10 ∷ [])) ++ m.bytes;
          alive = m.alive;
          writes = m.writes;
        })
        (copy_whole (suc (length content)) 0 (omega arith) (omega arith))

module _ (utf8 : List ℕ → Bool) (open_file : List ℕ → List ℕ ⊎ File) where
  -- What a request, the bytes of one read, is answered with.
  pub data Answered (req : List ℕ) : Bool → List ℕ → Type 0 where
    whole_file :
        {file : File} {content : List ℕ}
        → utf8 req ≡ true
        → ¬ IsOutside (trim_end_newline req)
        → open_file (trim_end_newline req) ≡ inr file
        → IsFile file content
        → Answered req true ((decimal (length content) ++ (10 ∷ [])) ++ content)
    not_opened :
        {leased : Bool} {why : List ℕ}
        → utf8 req ≡ true
        → ¬ IsOutside (trim_end_newline req)
        → open_file (trim_end_newline req) ≡ inl why
        → Answered req leased (codes "ERR " ++ (why ++ (10 ∷ [])))
    not_inside :
        {leased : Bool}
        → utf8 req ≡ true
        → IsOutside (trim_end_newline req)
        → Answered req leased (codes "ERR bad name" ++ (10 ∷ []))
    not_text :
        {leased : Bool} → utf8 req ≡ false → Answered req leased (codes "ERR utf8" ++ (10 ∷ []))

  -- The reads of a connection, each a request, and all the bytes that answer them.
  pub data AllAnswered : List Turn → List ℕ → Type 0 where
    closed : AllAnswered [] []
    asked :
        {c : ℕ} {text : List ℕ} {leased : Bool} {turns : List Turn} {reply replies : List ℕ}
        → Answered (c ∷ text) leased reply
        → AllAnswered turns replies
        → AllAnswered (record { read = some (c, text); leased = leased } ∷ turns) (reply ++ replies)

  answer-Answered :
      {req : List ℕ} {leased : Bool} {reply : List ℕ}
      → Answered req leased reply
      → answer utf8 open_file leased req [] ≡ record { bytes = reply; alive = true; writes = [] }
  unfolding answer send_file reply_err
  answer-Answered {req = req}
        (whole_file {file = file} {content = content} text inside found honest) =
      let good = bad_name-not-IsOutside (trim_end_newline req) inside in
      rw (text, good, found, honest.metadata) (send_whole file content honest)
  answer-Answered {req = req} (not_opened text inside missing) =
      let good = bad_name-not-IsOutside (trim_end_newline req) inside in
      rw (text, good, missing) refl
  answer-Answered {req = req} (not_inside text outside) =
      let bad = bad_name-IsOutside (trim_end_newline req) outside in rw (text, bad) refl
  answer-Answered (not_text garbled) = rw (garbled) refl

  -- A request is what one read of the socket gives, which need not be a line. While the client takes
  -- what it is sent, each request is answered, in order: it is not UTF-8; or the name that it is, less
  -- the newlines at its end, is empty or holds a slash or two dots in a row; or the name does not open;
  -- and each of these gets its `ERR` line. Or else the name opens to a file, and the size of that and
  -- its whole content are sent, whatever pieces it is read in. Nothing else is sent. A file's reads end
  -- only where it ends, and the pool leases a buffer for it.
  pub serve-AllAnswered :
      {turns : List Turn} {bytes : List ℕ}
      → AllAnswered turns bytes
      → (serve utf8 open_file turns []).bytes ≡ bytes
  unfolding serve
  serve-AllAnswered closed = refl
  serve-AllAnswered
        (asked {c = c} {text = text} {leased = leased} {turns = turns} {reply = reply} one others) =
      ap (λ first. (then_ first (serve utf8 open_file turns)).bytes) (answer-Answered one)
      ∙ ap (λ t. reply ++ t) (serve-AllAnswered others)
