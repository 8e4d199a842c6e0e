-- ===== src/Http/Framing.antt =====
-- examples/http_proxy.rs, `Framed::read_message`: the one message that it takes off the stream.
use compio_pool.Prelude.{
  ℕ, suc, Option, none, some, ◌⊎◌, inl, inr, ◌≡◌, refl, sym, ap, subst, ◌∙◌, ◌+◌, ◌≤◌, List, [],
  ◌∷◌, ◌++◌, arith, length, take, drop, length-append, take-append, drop-append, Bool-cases, ltb,
  Option-cases,
}
use compio_pool.Http.Head.{Kind, Refusal, body_length}
use compio_pool.Net.{Failure, Framed, await}
use compio_pool.Http.Framed.{
  head_end, whole, drain, read_body, read_rest, read_message, blank_line, max_body, find,
}
use compio_pool.Http.Find.{find-append, find_longer}
use compio_pool.Net.Stream.{
  Answer-cases, stream, delivered, await-Awaited, Untouched, await-Untouched,
}

module _ (lossy : List ℕ → List ℕ) (kind : Kind) where
  -- How a stream splits at its first message: the head up to the first blank line, a body of the
  -- length that the head announces, within the bound and there in full.
  pub record Message (s message rest : List ℕ) : Type 0 where
    pub pos : ℕ
    pub body : ℕ
    pub blank : find s blank_line ≡ some pos
    pub sized : body_length lossy (take (pos + 4) s) kind ≡ inr body
    pub small : body ≤ max_body
    pub there : pos + 4 + body ≤ length s
    pub cut : message ≡ take (pos + 4 + body) s
    pub left : rest ≡ drop (pos + 4 + body) s

  pub head_end-find :
      (buf more : List ℕ) (head : ℕ)
      → head_end buf ≡ inr (some head)
      → (pos : ℕ) × (head ≡ pos + 4)
        × (find (buf ++ more) blank_line ≡ some pos)
        × head ≤ length buf
  unfolding head_end
  head_end-find buf more head h = elim (Option-cases (find buf blank_line)) [
    | inl e ↦ ground arith
    | inr (pos, e) ↦
        let longer = find_longer 13 (10 ∷ 13 ∷ 10 ∷ []) buf more pos e in
        let fits = find-append 13 (10 ∷ 13 ∷ 10 ∷ []) buf more pos longer in
        (pos, ground arith, longer, ground arith)
  ]

-- What the body's loop and the drain do with the stream.
record Drained (s : List ℕ) (total : ℕ) (message rest : List ℕ) : Type 0 where
  there : total ≤ length s
  cut : message ≡ take total s
  left : rest ≡ drop total s

drain_lem :
    (total : ℕ) (conn after : Framed) (message : List ℕ)
    → total ≤ length conn.buf
    → drain (inr (some total), conn) ≡ (inr (some message), after)
    → Drained (stream conn) total message (stream after)
unfolding drain
drain_lem total conn after message fits h = record {
  there = omega (arith, length-append conn.buf (delivered conn.reads));
  cut = ground (arith, take-append total conn.buf (delivered conn.reads) fits);
  left = ground (arith, drop-append total conn.buf (delivered conn.reads) fits);
}

whole_lem :
    (total n : ℕ) (buf : List ℕ) → whole total buf ≡ inr (some n) → (n ≡ total) × total ≤ length buf
unfolding whole
whole_lem total n buf h = ground arith

drain-Drained :
    (total : ℕ) (conn after : Framed) (message : List ℕ) (fuel : ℕ)
    → drain (await (whole total) fuel conn) ≡ (inr (some message), after)
    → Drained (stream conn) total message (stream after)
drain-Drained total conn after message fuel h =
    let conn1 = (await (whole total) fuel conn).1 in
    elim (Answer-cases (await (whole total) fuel conn).0) [
      | inl (why, e) ↦ unfold drain in ground arith
      | inr (inl e) ↦ unfold drain in ground arith
      | inr (inr (n, e)) ↦
          let awaited = await-Awaited (whole total) fuel conn n conn1 (λ i. (e i, conn1)) in
          let (same, fits) = whole_lem total n conn1.buf awaited.passes in
          let p : (await (whole total) fuel conn) ≡ (inr (some total), conn1) =
            ground (arith, same) in
          subst (λ s. Drained s total message (stream after)) awaited.same_stream
            (drain_lem total conn1 after message fits (sym (ap drain p) ∙ h))
    ]

module _ (lossy : List ℕ → List ℕ) (kind : Kind) where
  read_body-Drained :
      (head : ℕ) (size : Refusal ⊎ ℕ) (conn after : Framed) (message : List ℕ)
      → read_body head size conn ≡ (inr (some message), after)
      → (body : ℕ) × (size ≡ inr body)
        × body ≤ max_body
        × Drained (stream conn) (head + body) message (stream after)
  unfolding read_body
  read_body-Drained head (inl why) conn after message h = cc
  read_body-Drained head (inr body) conn after message h =
      let fuel = suc (length conn.reads) in
      let drained = drain-Drained (head + body) conn after message fuel in
      elim (Bool-cases (ltb max_body body)) [
        | inl e ↦ ground arith
        | inr e ↦ (body, refl, ground arith, drained (ground arith))
      ]

  -- A message that `read_message` returns is the first one of the stream: the head up to the first
  -- blank line, and a body of the length that the head announces, within the bound. What follows it
  -- is left on the stream.
  pub read_message-Message :
      (conn after : Framed) (message : List ℕ)
      → read_message lossy kind conn ≡ (inr (some message), after)
      → Message lossy kind (stream conn) message (stream after)
  unfolding read_message
  read_message-Message conn after message h =
      let fuel = suc (length conn.reads) in
      let conn1 = (await head_end fuel conn).1 in
      elim (Answer-cases (await head_end fuel conn).0) [
        | inl (why, e) ↦ unfold read_rest in ground arith
        | inr (inl e) ↦ unfold read_rest in ground arith
        | inr (inr (head, e)) ↦
            let awaited = await-Awaited head_end fuel conn head conn1 (λ i. (e i, conn1)) in
            let (pos, same, blank, fits) =
              head_end-find lossy kind conn1.buf (delivered conn1.reads) head awaited.passes in
            let p : await head_end fuel conn ≡ (inr (some head), conn1) = ground arith in
            let (body, size, small, drained) =
              read_body-Drained head (body_length lossy (take head conn1.buf) kind) conn1 after
                message (unfold read_rest in sym (ap (read_rest lossy kind) p) ∙ h) in
            subst (λ s. Message lossy kind s message (stream after)) awaited.same_stream
              (record {
                pos = pos;
                body = body;
                blank = blank;
                sized =
                    ground (arith, size, take-append head conn1.buf (delivered conn1.reads) fits);
                small = small;
                there = ground (arith, drained.there);
                cut = ground (arith, drained.cut);
                left = ground (arith, drained.left);
              })
      ]

module _ (lossy : List ℕ → List ℕ) (kind : Kind) where
  drain-Untouched :
      (conn : Framed) (read : (Failure ⊎ Option ℕ) × Framed)
      → Untouched conn read.1
      → Untouched conn (drain read).1
  unfolding drain
  drain-Untouched conn (inl why, after) h = h
  drain-Untouched conn (inr none, after) h = h
  drain-Untouched conn (inr (some total), after) h = ground arith

  read_body-Untouched :
      (head : ℕ) (size : Refusal ⊎ ℕ) (conn : Framed) → Untouched conn (read_body head size conn).1
  unfolding read_body
  read_body-Untouched head (inl why) conn = ground arith
  read_body-Untouched head (inr body) conn =
      let read = await (whole (head + body)) (suc (length conn.reads)) conn in
      let reads = await-Untouched (whole (head + body)) (suc (length conn.reads)) conn in
      ground (arith, drain-Untouched conn read reads)

  read_rest-Untouched :
      (conn : Framed) (read : (Failure ⊎ Option ℕ) × Framed)
      → Untouched conn read.1
      → Untouched conn (read_rest lossy kind read).1
  unfolding read_rest
  read_rest-Untouched conn (inl why, after) h = h
  read_rest-Untouched conn (inr none, after) h = h
  read_rest-Untouched conn (inr (some head), after) h =
      ground
        (arith, h, read_body-Untouched head (body_length lossy (take head after.buf) kind) after)

  pub read_message-Untouched : (conn : Framed) → Untouched conn (read_message lossy kind conn).1
  unfolding read_message
  read_message-Untouched conn =
      read_rest-Untouched conn (await head_end (suc (length conn.reads)) conn)
        (await-Untouched head_end (suc (length conn.reads)) conn)
