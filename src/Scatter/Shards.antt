-- ===== src/Scatter/Shards.antt =====
-- examples/scatter_gather.rs, `query_shard`: what it answers, and the connection that it gives back.
use compio_pool.Prelude.{
  ℕ, Bool, true, false, Option, none, some, ◌⊎◌, inl, inr, ◌≡◌, refl, sym, subst, ◌∙◌, ◌<◌, List,
  [], ◌∷◌, ◌++◌, arith, List-cases,
}
use compio_pool.Net.{Failure, write_all_bytes}
use compio_pool.Net.Stream.{stream}
use compio_pool.Scatter.{
  Line, max_line, read_line, write_line, has_broken, answer, ask, query_shard,
}
use compio_pool.Scatter.Lines.{FirstLine, read_line-FirstLine, read_line_ready, read_line-Untouched}

-- A line that was written.
pub record Wrote (text : List ℕ) (conn after : Line) (writes : List Bool) : Type 0 where
  pub same_stream : stream after ≡ stream conn
  pub sent : after.sent ≡ (text ++ (10 ∷ [])) ∷ conn.sent
  pub left : after.writes ≡ writes
  pub same_health : after.healthy ≡ conn.healthy

pub write_line-Wrote :
    (text : List ℕ) (conn : Line) (writes : List Bool)
    → conn.writes ≡ true ∷ writes
    → ((write_line text conn).0 ≡ true) × Wrote text conn (write_line text conn).1 writes
unfolding write_line write_all_bytes
write_line-Wrote text conn writes e = (ground arith, ground arith)

write_line-cases :
    (text : List ℕ) (conn : Line)
    → ((write_line text conn).0 ≡ false) ⊎ ((writes : List Bool) × (conn.writes ≡ true ∷ writes))
unfolding write_line write_all_bytes
write_line-cases text conn = elim (List-cases conn.writes) [
  | inl e ↦ inl (ground arith)
  | inr (true, rest, e) ↦ inr (rest, e)
  | inr (false, rest, e) ↦ inl (ground arith)
]

module _ (lossy : List ℕ → List ℕ) where
  -- What a query did with its connection, by what it answers.
  pub data Asked (query : List ℕ) (up after : Line) : Option (List ℕ) → Type 0 where
    lost : has_broken after ≡ true → Asked query up after none
    answered :
        {reply : List ℕ}
        → after.sent ≡ (query ++ (10 ∷ [])) ∷ up.sent
        → FirstLine lossy (stream up) reply (stream after)
        → after.healthy ≡ up.healthy
        → Asked query up after (some reply)

  answer-Asked :
      (query : List ℕ) (up : Line) (read : (Failure ⊎ Option (List ℕ)) × Line)
      → read.1.sent ≡ (query ++ (10 ∷ [])) ∷ up.sent
      → read.1.healthy ≡ up.healthy
      → ((reply : List ℕ)
          → read.0 ≡ inr (some reply)
          → FirstLine lossy (stream up) reply (stream read.1))
      → Asked query up (answer read).1 (answer read).0
  unfolding answer has_broken
  answer-Asked query up (inl why, after) sent health framed = lost refl
  answer-Asked query up (inr none, after) sent health framed = lost refl
  answer-Asked query up (inr (some reply), after) sent health framed =
      answered sent (framed reply refl) health

  -- A query that gets no reply leaves a broken connection. Otherwise the query was written to it as a
  -- line, the reply is the first line that the connection delivers, what follows it is left, and the
  -- connection's health is the one before.
  pub ask-Asked :
      (query : List ℕ) (up : Line) → Asked query up (ask lossy query up).1 (ask lossy query up).0
  unfolding ask
  ask-Asked query up =
      let up1 = (write_line query up).1 in
      let (read, up2) = read_line lossy up1 in
      elim (write_line-cases query up) [
        | inl e ↦ rw e (unfold answer has_broken in lost refl)
        | inr (writes, e) ↦
            let (written, wrote) = write_line-Wrote query up writes e in
            let untouched = read_line-Untouched lossy up1 in
            rw written (
              answer-Asked query up (read_line lossy up1) (untouched.same_sent ∙ wrote.sent)
                (untouched.same_health ∙ wrote.same_health)
                (λ reply p.
                  subst (λ s. FirstLine lossy s reply (stream up2)) wrote.same_stream
                    (read_line-FirstLine lossy up1 up2 reply (λ i. (p i, up2)))))
      ]

  Asked-cases :
      {query : List ℕ} {up after : Line} {reply : Option (List ℕ)}
      → Asked query up after reply
      → (reply ≡ none) ⊎ ((text : List ℕ) × FirstLine lossy (stream up) text (stream after))
  Asked-cases (lost e) = inl refl
  Asked-cases (answered {reply = reply} sent line health) = inr (reply, line)

  -- The reply that a shard's pool and connection have for a query.
  pub data ShardAnswers (query : List ℕ) : Option Line → Option (List ℕ) → Type 0 where
    no_lease : ShardAnswers query none none
    refuses : {up : Line} → (write_line query up).0 ≡ false → ShardAnswers query (some up) none
    silent :
        {up : Line}
        → ((reply rest : List ℕ) → ¬ FirstLine lossy (stream up) reply rest)
        → ShardAnswers query (some up) none
    speaks :
        {up : Line} {writes : List Bool} {reply later : List ℕ}
        → up.writes ≡ true ∷ writes
        → (line : FirstLine lossy (stream up) reply later) → line.pos < max_line
        → ShardAnswers query (some up) (some reply)

  -- A line stands as well in a stream that is equal, at the same place.
  pub at_stream :
      {s s' text rest : List ℕ} (e : s' ≡ s) (line : FirstLine lossy s text rest)
      → (line' : FirstLine lossy s' text rest) × (line'.pos ≡ line.pos)
  at_stream {s} {s'} {text} {rest} e line =
      subst (λ t. (line' : FirstLine lossy t text rest) × (line'.pos ≡ line.pos)) (sym e)
        (line, refl)

  pub read_line_at :
      (conn : Line) {s text rest : List ℕ}
      → stream conn ≡ s
      → (line : FirstLine lossy s text rest) → line.pos < max_line
      → ((read_line lossy conn).0 ≡ inr (some text)) × (stream (read_line lossy conn).1 ≡ rest)
  read_line_at conn e line small =
      let (line', p) = at_stream e line in
      read_line_ready lossy conn _ _ line' (omega (arith, p, small))

  answer-some :
      (reply : List ℕ) (read : (Failure ⊎ Option (List ℕ)) × Line)
      → read.0 ≡ inr (some reply)
      → (answer read).0 ≡ some reply
  unfolding answer
  answer-some reply (inl why, conn) e = cc
  answer-some reply (inr none, conn) e = cc
  answer-some reply (inr (some r), conn) e = ground arith

  pub query_shard-ShardAnswers :
      {query : List ℕ} {lease : Option Line} {reply : Option (List ℕ)}
      → ShardAnswers query lease reply
      → (query_shard lossy query lease).0 ≡ reply
  unfolding query_shard
  query_shard-ShardAnswers no_lease = refl
  query_shard-ShardAnswers {query} (refuses {up = up} e) = unfold ask answer in rw e refl
  query_shard-ShardAnswers {query} (silent {up = up} quiet) =
      elim (Asked-cases (ask-Asked query up)) [
        | inl e ↦ e
        | inr (reply, line) ↦ absurd (quiet reply _ line)
      ]
  query_shard-ShardAnswers {query}
        (speaks {up = up} {writes = writes} {reply = reply} e line small) =
      let (written, wrote) = write_line-Wrote query up writes e in
      let (found, left) = read_line_at (write_line query up).1 wrote.same_stream line small in
      unfold ask in rw written (answer-some reply (read_line lossy (write_line query up).1) found)
