-- ===== src/Scatter/Gather.antt =====
-- examples/scatter_gather.rs, `handle_client`: each query line is answered by one line, in order, with
-- the replies of the shards in the order of the shards.
use compio_pool.Prelude.{
  ℕ, zero, suc, Bool, true, Option, none, some, ◌⊎◌, inl, inr, ◌≡◌, refl, ap, subst, ◌∙◌, ◌<◌, List,
  [], ◌∷◌, ◌++◌, map, arith, length, length-drop,
}
use compio_pool.Prelude.Text.{codes, decimal}
use compio_pool.Net.{Failure}
use compio_pool.Net.Stream.{stream}
use compio_pool.Scatter.{
  Line, Round, max_line, read_line, write_line, query_shard, gather, merged, reply_to, serve,
  handle_client,
}
use compio_pool.Scatter.Lines.{FirstLine, read_line-FirstLine, read_line-Untouched, position_longer}
use compio_pool.Scatter.Shards.{
  ShardAnswers, query_shard-ShardAnswers, write_line-Wrote, read_line_at,
}

-- What the client is sent, the last line first.
abbrev pub told : List (List ℕ) → List (List ℕ) → List (List ℕ)
told [] sent = sent
told (line ∷ lines) sent = told lines ((line ++ (10 ∷ [])) ∷ sent)

-- A write that succeeds for each line.
abbrev pub writable : List (List ℕ) → List Bool → List Bool
writable [] later = later
writable (line ∷ lines) later = true ∷ writable lines later

module _ (lossy : List ℕ → List ℕ) where
  -- The parts of the answer to a query, from shard number `id` on: a shard's reply, or the mark of an
  -- error.
  pub data AllAnswer (query : List ℕ) : ℕ → List (Option Line) → List (List ℕ) → Type 0 where
    no_more : {id : ℕ} → AllAnswer query id [] []
    shard :
        {id : ℕ} {lease : Option Line} {leases : List (Option Line)} {reply : List ℕ}
        {parts : List (List ℕ)}
        → ShardAnswers lossy query lease (some reply)
        → AllAnswer query (suc id) leases parts
        → AllAnswer query id (lease ∷ leases) (reply ∷ parts)
    failing :
        {id : ℕ} {lease : Option Line} {leases : List (Option Line)} {parts : List (List ℕ)}
        → ShardAnswers lossy query lease none
        → AllAnswer query (suc id) leases parts
        → AllAnswer query id
            (lease ∷ leases)
            ((codes "shard" ++ (decimal id ++ codes "=ERR")) ∷ parts)

  -- A client's stream of queries, what the shards have for each, and the lines that answer them. Blank
  -- lines are passed over.
  pub data Gathers : List ℕ → List Round → List (List ℕ) → Type 0 where
    quiet :
        {s : List ℕ} {rounds : List Round}
        → ((text rest : List ℕ) → ¬ FirstLine lossy s text rest)
        → Gathers s rounds []
    blank :
        {s rest : List ℕ} {rounds : List Round} {answers : List (List ℕ)}
        (line : FirstLine lossy s [] rest)
        → line.pos < max_line
        → Gathers rest rounds answers
        → Gathers s rounds answers
    asks :
        {s rest query : List ℕ} {c : ℕ} {round : Round} {rounds : List Round}
        {parts answers : List (List ℕ)} (line : FirstLine lossy s (c ∷ query) rest)
        → line.pos < max_line
        → AllAnswer (c ∷ query) 0 round.leases parts
        → Gathers rest rounds answers
        → Gathers s (round ∷ rounds) (merged parts round.elapsed ∷ answers)

  abbrev replies_of : List ℕ → List (Option Line) → List (Option (List ℕ))
  replies_of query leases = map (λ (lease : Option Line). (query_shard lossy query lease).0) leases

  gather-AllAnswer :
      {query : List ℕ} {id : ℕ} {leases : List (Option Line)} {parts : List (List ℕ)}
      → AllAnswer query id leases parts
      → gather id (replies_of query leases) ≡ parts
  unfolding gather
  gather-AllAnswer no_more = refl
  gather-AllAnswer {query = query} {id = id} (shard {leases = leases} {reply = reply} one others) =
      ap (λ r. gather id (r ∷ replies_of query leases)) (query_shard-ShardAnswers lossy one)
      ∙ ap (λ t. reply ∷ t) (gather-AllAnswer others)
  gather-AllAnswer {query = query} {id = id} (failing {leases = leases} one others) =
      ap (λ r. gather id (r ∷ replies_of query leases)) (query_shard-ShardAnswers lossy one)
      ∙ ap (λ t. (codes "shard" ++ (decimal id ++ codes "=ERR")) ∷ t) (gather-AllAnswer others)

  -- What `handle_client` comes to.
  pub record Told (end : Option Line) (lines : List (List ℕ)) (client : Line) : Type 0 where
    pub last : Line
    pub ends : end ≡ some last
    pub sent : last.sent ≡ told lines client.sent

  stops :
      (next : List Round → Line → Option Line) (rounds : List Round)
      (read : (Failure ⊎ Option (List ℕ)) × Line)
      → ((text : List ℕ) → ¬ (read.0 ≡ inr (some text)))
      → serve lossy next rounds read ≡ some read.1
  unfolding serve
  stops next rounds (inl why, client) never = refl
  stops next rounds (inr none, client) never = refl
  stops next rounds (inr (some text), client) never = absurd (never text refl)

  shorter : (s text rest : List ℕ) → FirstLine lossy s text rest → length rest < length s
  shorter s text rest line =
      let (p, q) = position_longer 10 s [] line.pos line.newline in
      ground (arith, line.left, length-drop (suc line.pos) s, q)

  -- The turn of a blank line, and of a query.
  blank_turn :
      (next : List Round → Line → Option Line) (rounds : List Round)
      (read : (Failure ⊎ Option (List ℕ)) × Line)
      → read.0 ≡ inr (some [])
      → serve lossy next rounds read ≡ next rounds read.1
  unfolding serve
  blank_turn next rounds (inl why, client) e = cc
  blank_turn next rounds (inr none, client) e = cc
  blank_turn next rounds (inr (some []), client) e = refl
  blank_turn next rounds (inr (some (c ∷ text)), client) e = cc

  query_turn :
      (next : List Round → Line → Option Line) (round : Round) (rounds : List Round) (c : ℕ)
      (query : List ℕ) (client : Line)
      → (write_line (reply_to lossy (c ∷ query) round) client).0 ≡ true
      → serve lossy next (round ∷ rounds) (inr (some (c ∷ query)), client)
        ≡ next rounds (write_line (reply_to lossy (c ∷ query) round) client).1
  unfolding serve
  query_turn next round rounds c query client e = rw e refl

  -- Whatever pieces the client's socket gives: each query of its stream that is not blank is answered
  -- by one line, in order, and nothing else is sent. The line merges, in the order of the shards, the
  -- first line that each shard's connection delivers, or the mark of an error where a shard has no
  -- connection, its connection takes no query, or it delivers no line. The lines keep to the bound, and
  -- the client takes each answer. Fuel for each byte of the stream is enough.
  pub handle_client-Gathers :
      {s : List ℕ} {rounds : List Round} {answers : List (List ℕ)}
      → Gathers s rounds answers
      → (fuel : ℕ) (client : Line) (later : List Bool) → stream client ≡ s
      → client.writes ≡ writable answers later
      → length s < fuel
      → Told (handle_client lossy fuel rounds client) answers client
  unfolding handle_client
  handle_client-Gathers g zero client later e w few = absurd (omega arith)
  handle_client-Gathers {rounds = rounds} (quiet never) (suc fuel) client later e w few =
      let (read, after) = read_line lossy client in
      record {
        last = after;
        ends = stops (handle_client lossy fuel) rounds (read_line lossy client) (λ text p.
            never text (stream after) (
              subst (λ t. FirstLine lossy t text (stream after)) e
                (read_line-FirstLine lossy client after text (λ i. (p i, after)))));
        sent = (read_line-Untouched lossy client).same_sent;
      }
  handle_client-Gathers {s = s} {rounds = rounds} {answers = answers}
        (blank {rest = rest} line small more) (suc fuel) client later e w few =
      let (read, left) = read_line_at lossy client e line small in
      let after = (read_line lossy client).1 in
      let untouched = read_line-Untouched lossy client in
      let ih =
        handle_client-Gathers {s = rest} {rounds = rounds} {answers = answers} more fuel after later
          left (untouched.same_writes ∙ w) (omega (arith, shorter s [] rest line, few)) in
      record {
        last = ih.last;
        ends = blank_turn (handle_client lossy fuel) rounds (read_line lossy client) read ∙ ih.ends;
        sent = ih.sent ∙ ap (told answers) untouched.same_sent;
      }
  handle_client-Gathers {s = s}
        (asks {rest = rest} {query = query} {c = c} {round = round} {rounds = rounds}
          {parts = parts} {answers = answers} line small shards more)
        (suc fuel) client later e w few =
      let (read, left) = read_line_at lossy client e line small in
      let after = (read_line lossy client).1 in
      let untouched = read_line-Untouched lossy client in
      let reply = reply_to lossy (c ∷ query) round in
      let same : reply ≡ merged parts round.elapsed =
        unfold reply_to in ap (λ ps. merged ps round.elapsed) (gather-AllAnswer shards) in
      let (written, wrote) =
        write_line-Wrote reply after (writable answers later) (untouched.same_writes ∙ w) in
      let ih =
        handle_client-Gathers {s = rest} {rounds = rounds} {answers = answers} more fuel
          (write_line reply after).1 later (wrote.same_stream ∙ left) wrote.left
          (omega (arith, shorter s (c ∷ query) rest line, few)) in
      record {
        last = ih.last;
        ends =
            ap (λ r. serve lossy (handle_client lossy fuel) (round ∷ rounds) (r, after)) read
            ∙ query_turn (handle_client lossy fuel) round rounds c query after written
            ∙ ih.ends;
        sent =
            ih.sent
            ∙ ap (told answers) (wrote.sent ∙ (λ i. (same i ++ (10 ∷ [])) ∷ untouched.same_sent i));
      }
