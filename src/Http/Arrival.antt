-- ===== src/Http/Arrival.antt =====
-- examples/http_proxy.rs, `Framed::read_message`: a message that arrives is returned, however the
-- socket cuts it.
use compio_pool.Prelude.{
  ℕ, suc, none, some, inr, ◌≡◌, refl, ap, ◌∙◌, ◌+◌, ◌≤◌, ◌<◌, List, [], ◌∷◌, ◌++◌, arith, length,
  take, take-append,
}
use compio_pool.Http.Head.{Kind, body_length}
use compio_pool.Net.{Framed, await}
use compio_pool.Http.Framed.{
  head_end, whole, drain, read_body, read_rest, read_message, blank_line, max_head, find,
}
use compio_pool.Http.Find.{find-append}
use compio_pool.Net.Stream.{stream, delivered, await-Awaited, await_ready}
use compio_pool.Http.Framing.{Message, head_end-find, read_message-Message}

module _ (lossy : List ℕ → List ℕ) (kind : Kind) where
  -- A message whose head ends within the bound is read whatever pieces the socket gives.
  head_end_early :
      (pos : ℕ) (buf more : List ℕ)
      → find (buf ++ more) blank_line ≡ some pos
      → pos + 4 ≤ max_head
      → length buf < pos + 4
      → head_end buf ≡ inr none
  unfolding head_end
  head_end_early pos buf more h small short =
      ground (arith, find-append 13 (10 ∷ 13 ∷ 10 ∷ []) buf more pos h)

  head_end_late :
      (pos : ℕ) (buf more : List ℕ)
      → find (buf ++ more) blank_line ≡ some pos
      → pos + 4 ≤ length buf
      → head_end buf ≡ inr (some (pos + 4))
  unfolding head_end
  head_end_late pos buf more h long =
      ground (arith, find-append 13 (10 ∷ 13 ∷ 10 ∷ []) buf more pos h)

  head_ready :
      (s : List ℕ) (pos : ℕ)
      → find s blank_line ≡ some pos
      → pos + 4 ≤ max_head
      → pos + 4 ≤ length s
      → (conn : Framed) → stream conn ≡ s
      → (await head_end (suc (length conn.reads)) conn).0 ≡ inr (some (pos + 4))
  head_ready s pos blank small fits conn same =
      await_ready head_end s (pos + 4) (pos + 4)
        (λ buf rest e short.
          head_end_early pos buf rest (ap (λ t. find t blank_line) e ∙ blank) small short)
        (λ buf rest e long. head_end_late pos buf rest (ap (λ t. find t blank_line) e ∙ blank) long)
        fits (suc (length conn.reads)) conn same (omega arith)

  body_ready :
      (total : ℕ) (conn : Framed)
      → total ≤ length (stream conn)
      → (await (whole total) (suc (length conn.reads)) conn).0 ≡ inr (some total)
  unfolding whole
  body_ready total conn fits =
      await_ready (whole total) (stream conn) total total (λ buf rest e short. ground arith)
        (λ buf rest e long. ground arith) fits (suc (length conn.reads)) conn refl (omega arith)

  Message-unique :
      (s m m' r r' : List ℕ)
      → Message lossy kind s m r
      → Message lossy kind s m' r'
      → (m' ≡ m) × (r' ≡ r)
  Message-unique s m m' r r' a b =
      let p : b.pos ≡ a.pos = ground (arith, a.blank, b.blank) in
      let q : b.body ≡ a.body = ground (arith, p, a.sized, b.sized) in
      (ground (arith, p, q, a.cut, b.cut), ground (arith, p, q, a.left, b.left))

  drain_ready :
      (total : ℕ) (conn : Framed)
      → total ≤ length (stream conn)
      → (message : List ℕ) × ((drain (await (whole total) (suc (length conn.reads)) conn)).0
          ≡ inr (some message))
  unfolding drain
  drain_ready total conn fits =
      let conn1 = (await (whole total) (suc (length conn.reads)) conn).1 in
      (take total conn1.buf, ground (arith, body_ready total conn fits))

  -- A message that the stream begins with, its head within the bound, is returned by `read_message`,
  -- and what follows it left, whatever pieces the socket gives.
  pub read_message_ready :
      (conn : Framed) (message rest : List ℕ) (m : Message lossy kind (stream conn) message rest)
      → m.pos + 4 ≤ max_head
      → ((read_message lossy kind conn).0 ≡ inr (some message))
        × (stream (read_message lossy kind conn).1 ≡ rest)
  unfolding read_message
  read_message_ready conn message rest m small =
      let conn1 = (await head_end (suc (length conn.reads)) conn).1 in
      let e = head_ready (stream conn) m.pos m.blank small (omega (arith, m.there)) conn refl in
      let awaited =
        await-Awaited head_end (suc (length conn.reads)) conn (m.pos + 4) conn1
          (λ i. (e i, conn1)) in
      let (pos, same, blank, fits) =
        head_end-find lossy kind conn1.buf (delivered conn1.reads) (m.pos + 4) awaited.passes in
      let (found, drained) =
        drain_ready (m.pos + 4 + m.body) conn1 (ground (arith, m.there, awaited.same_stream)) in
      let size : body_length lossy (take (m.pos + 4) conn1.buf) kind ≡ inr m.body = ground (
        arith,
        m.sized,
        awaited.same_stream,
        take-append (m.pos + 4) conn1.buf (delivered conn1.reads) fits,
      ) in
      let answer : (read_message lossy kind conn).0 ≡ inr (some found) =
        unfold read_rest read_body in ground (arith, e, size, drained, m.small) in
      let other =
        read_message-Message lossy kind conn (read_message lossy kind conn).1 found
          (λ i. (answer i, (read_message lossy kind conn).1)) in
      let (p, q) =
        Message-unique (stream conn) message found rest (stream (read_message lossy kind conn).1) m
          other in
      (answer ∙ ap (λ t. inr (some t)) p, q)
