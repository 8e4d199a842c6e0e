-- ===== src/Scatter/Lines.antt =====
-- examples/scatter_gather.rs, `Line::read_line`: the line that it takes off the stream.
use compio_pool.Prelude.{
  ℕ, zero, suc, Option, none, some, ◌⊎◌, inl, inr, ◌≡◌, refl, sym, ap, subst, ◌∙◌, ◌≤◌, ◌<◌, List,
  [], ◌∷◌, ◌++◌, arith, length, take, drop, take-append, drop-append, leb, if◌then◌else◌,
  Option-cases,
}
use compio_pool.Prelude.Text.{position}
use compio_pool.Net.{Failure, await}
use compio_pool.Net.Stream.{
  Answer-cases, stream, delivered, await-Awaited, await_ready, Untouched, await-Untouched,
}
use compio_pool.Scatter.{Line, max_line, trim_end_cr, line_end, take_line, read_line}

-- The position of a byte in a text still growing.
pub position-append :
    (b : ℕ) (text more : List ℕ) (pos : ℕ)
    → position b (text ++ more) ≡ some pos
    → position b text ≡ (if leb (suc pos) (length text) then some pos else none)
unfolding position
position-append b [] more pos h = ground arith
position-append b (c ∷ text) more zero h = ground arith
position-append b (c ∷ text) more (suc pos) h = ground (arith, position-append b text more pos)

pub position_longer :
    (b : ℕ) (text more : List ℕ) (pos : ℕ)
    → position b text ≡ some pos
    → (position b (text ++ more) ≡ some pos) × (pos < length text)
unfolding position
position_longer b [] more pos h = cc
position_longer b (c ∷ text) more zero h = ground arith
position_longer b (c ∷ text) more (suc pos) h = ground (arith, position_longer b text more pos)

module _ (lossy : List ℕ → List ℕ) where
  -- How a stream splits at its first line.
  pub record FirstLine (s text rest : List ℕ) : Type 0 where
    pub pos : ℕ
    pub newline : position 10 s ≡ some pos
    pub cut : text ≡ trim_end_cr (lossy (take pos s))
    pub left : rest ≡ drop (suc pos) s

  line_end_early :
      (pos : ℕ) (buf more : List ℕ)
      → position 10 (buf ++ more) ≡ some pos
      → pos < max_line
      → length buf < suc pos
      → line_end buf ≡ inr none
  unfolding line_end
  line_end_early pos buf more h small short = ground (arith, position-append 10 buf more pos h)

  line_end_late :
      (pos : ℕ) (buf more : List ℕ)
      → position 10 (buf ++ more) ≡ some pos
      → suc pos ≤ length buf
      → line_end buf ≡ inr (some pos)
  unfolding line_end
  line_end_late pos buf more h long = ground (arith, position-append 10 buf more pos h)

  line_end-position :
      (buf more : List ℕ) (pos : ℕ)
      → line_end buf ≡ inr (some pos)
      → (position 10 (buf ++ more) ≡ some pos) × (pos < length buf)
  unfolding line_end
  line_end-position buf more pos h = elim (Option-cases (position 10 buf)) [
    | inl e ↦ ground arith
    | inr (n, e) ↦ ground (arith, position_longer 10 buf more n e)
  ]

  take_line-FirstLine :
      (pos : ℕ) (conn after : Line) (text : List ℕ)
      → position 10 (stream conn) ≡ some pos
      → pos < length conn.buf
      → take_line lossy (inr (some pos), conn) ≡ (inr (some text), after)
      → FirstLine (stream conn) text (stream after)
  unfolding take_line
  take_line-FirstLine pos conn after text newline fits h =
      let more = delivered conn.reads in
      record {
        pos = pos;
        newline = newline;
        cut = ground (arith, take-append pos conn.buf more (omega arith));
        left = ground (arith, drop-append (suc pos) conn.buf more fits);
      }

  -- A line that `read_line` returns is the first one of the stream, and what follows it is left.
  pub read_line-FirstLine :
      (conn after : Line) (text : List ℕ)
      → read_line lossy conn ≡ (inr (some text), after)
      → FirstLine (stream conn) text (stream after)
  unfolding read_line
  read_line-FirstLine conn after text h =
      let fuel = suc (length conn.reads) in
      let conn1 = (await line_end fuel conn).1 in
      elim (Answer-cases (await line_end fuel conn).0) [
        | inl (why, e) ↦ unfold take_line in ground arith
        | inr (inl e) ↦ unfold take_line in ground arith
        | inr (inr (pos, e)) ↦
            let awaited = await-Awaited line_end fuel conn pos conn1 (λ i. (e i, conn1)) in
            let (newline, fits) =
              line_end-position conn1.buf (delivered conn1.reads) pos awaited.passes in
            let p : await line_end fuel conn ≡ (inr (some pos), conn1) = ground arith in
            subst (λ s. FirstLine s text (stream after)) awaited.same_stream
              (take_line-FirstLine pos conn1 after text newline fits
                (sym (ap (take_line lossy) p) ∙ h))
      ]

  take_line-some :
      (pos : ℕ) (read : (Failure ⊎ Option ℕ) × Line)
      → read.0 ≡ inr (some pos)
      → (text : List ℕ) × ((take_line lossy read).0 ≡ inr (some text))
  unfolding take_line
  take_line-some pos (inl why, conn) e = cc
  take_line-some pos (inr none, conn) e = cc
  take_line-some pos (inr (some p), conn) e = (_, refl)

  FirstLine-unique :
      (s t t' r r' : List ℕ) → FirstLine s t r → FirstLine s t' r' → (t' ≡ t) × (r' ≡ r)
  FirstLine-unique s t t' r r' a b =
      let p : b.pos ≡ a.pos = ground (arith, a.newline, b.newline) in
      (ground (arith, p, a.cut, b.cut), ground (arith, p, a.left, b.left))

  -- The first line of a stream, if it is short enough, is returned by `read_line`, and what follows
  -- it left, whatever pieces the socket gives.
  pub read_line_ready :
      (conn : Line) (text rest : List ℕ) (line : FirstLine (stream conn) text rest)
      → line.pos < max_line
      → ((read_line lossy conn).0 ≡ inr (some text)) × (stream (read_line lossy conn).1 ≡ rest)
  unfolding read_line
  read_line_ready conn text rest line small =
      let fuel = suc (length conn.reads) in
      let (inside, long) = position_longer 10 (stream conn) [] line.pos line.newline in
      let e =
        await_ready line_end (stream conn) line.pos (suc line.pos)
          (λ buf more p short.
            line_end_early line.pos buf more (ap (position 10) p ∙ line.newline) small short)
          (λ buf more p late.
            line_end_late line.pos buf more (ap (position 10) p ∙ line.newline) late)
          long fuel conn refl (omega arith) in
      let (found, p) = take_line-some line.pos (await line_end fuel conn) e in
      let other =
        read_line-FirstLine conn (read_line lossy conn).1 found
          (λ i. (p i, (read_line lossy conn).1)) in
      let (q, r) =
        FirstLine-unique (stream conn) text found rest (stream (read_line lossy conn).1) line
          other in
      (p ∙ ap (λ t. inr (some t)) q, r)

  -- Reading a line writes nothing, and leaves the health alone.
  take_line-Untouched :
      (conn : Line) (read : (Failure ⊎ Option ℕ) × Line)
      → Untouched conn read.1
      → Untouched conn (take_line lossy read).1
  unfolding take_line
  take_line-Untouched conn (inl why, after) h = h
  take_line-Untouched conn (inr none, after) h = h
  take_line-Untouched conn (inr (some pos), after) h = ground arith

  pub read_line-Untouched : (conn : Line) → Untouched conn (read_line lossy conn).1
  unfolding read_line
  read_line-Untouched conn =
      let fuel = suc (length conn.reads) in
      take_line-Untouched conn (await line_end fuel conn) (await-Untouched line_end fuel conn)
