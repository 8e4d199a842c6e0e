-- ===== src/Http/Relay.antt =====
-- examples/http_proxy.rs, `handle_client`: requests that come in full, to upstreams that answer, are
-- answered in order.
use compio_pool.Prelude.{
  ℕ, suc, Bool, true, Option, none, some, ◌⊎◌, inl, inr, ◌≡◌, refl, sym, ap, subst, ◌∙◌, ◌+◌, ◌≤◌,
  List, [], ◌∷◌, map, arith, length, List-cases,
}
use compio_pool.Http.Head.{Kind, request, response}
use compio_pool.Net.{
  Failure, invalid_data, other_kind, piece, failed, Framed, read_more, await, write_all_bytes,
}
use compio_pool.Http.Framed.{max_head, read_message, read_rest, head_end, find}
use compio_pool.Net.Stream.{stream, delivered, await-Untouched}
use compio_pool.Http.Framing.{Message, read_message-Untouched}
use compio_pool.Http.Arrival.{read_message_ready}
use compio_pool.Http.Proxy.{exchange, close_exchange, accept, reply, go_on, serve, handle_client}

-- The abstract proxy: requests paired with their answers.
abbrev pub Pairs : Type 0
Pairs = List (List ℕ × List ℕ)

-- What a client is sent, the last answer first.
abbrev pub answers : Pairs → List (List ℕ) → List (List ℕ)
answers [] sent = sent
answers (pair ∷ pairs) sent = answers pairs (pair.1 ∷ sent)

-- A write that succeeds for each answer.
abbrev pub writable : Pairs → List Bool → List Bool
writable [] later = later
writable (pair ∷ pairs) later = true ∷ writable pairs later

-- What each upstream was sent.
abbrev pub forwarded : List (Option Framed) → Pairs → List (List (List ℕ))
forwarded [] pairs = []
forwarded (lease ∷ leases) [] = []
forwarded (none ∷ leases) (pair ∷ pairs) = []
forwarded (some up ∷ leases) (pair ∷ pairs) = (pair.0 ∷ up.sent) ∷ forwarded leases pairs

-- A client's stream of requests, and leased upstreams whose streams begin with their answers.
pub data Relays (lossy : List ℕ → List ℕ) : List ℕ → List (Option Framed) → Pairs → Type 0 where
  quiet : {leases : List (Option Framed)} → Relays lossy [] leases []
  turn :
      {s rest later message answer : List ℕ} {up : Framed} {writes : List Bool}
      {leases : List (Option Framed)} {pairs : Pairs} (asked : Message lossy request s message rest)
      (answered : Message lossy response (stream up) answer later)
      → asked.pos + 4 ≤ max_head
      → answered.pos + 4 ≤ max_head
      → up.writes ≡ true ∷ writes
      → Relays lossy rest leases pairs
      → Relays lossy s (some up ∷ leases) ((message, answer) ∷ pairs)

-- A write that succeeds.
record Wrote (bytes : List ℕ) (conn after : Framed) (writes : List Bool) : Type 0 where
  same : stream after ≡ stream conn
  sent : after.sent ≡ bytes ∷ conn.sent
  left : after.writes ≡ writes

write_all_bytes-Wrote :
    (bytes : List ℕ) (conn : Framed) (writes : List Bool)
    → conn.writes ≡ true ∷ writes
    → ((write_all_bytes bytes conn).0 ≡ true)
      × Wrote bytes conn (write_all_bytes bytes conn).1 writes
unfolding write_all_bytes
write_all_bytes-Wrote bytes conn writes e = (ground arith, ground arith)

-- A message stands as well in a stream that is equal, at the same place.
at_stream :
    {lossy : List ℕ → List ℕ} {kind : Kind} {s s' message rest : List ℕ} (e : s' ≡ s)
    (m : Message lossy kind s message rest)
    → (m' : Message lossy kind s' message rest) × (m'.pos ≡ m.pos)
at_stream {lossy} {kind} {s} {s'} {message} {rest} e m =
    subst (λ t. (m' : Message lossy kind t message rest) × (m'.pos ≡ m.pos)) (sym e) (m, refl)

-- Reading a message that a stream holds.
read_at :
    (lossy : List ℕ → List ℕ) (kind : Kind) (conn : Framed) {s message rest : List ℕ}
    → stream conn ≡ s
    → (m : Message lossy kind s message rest) → m.pos + 4 ≤ max_head
    → ((read_message lossy kind conn).0 ≡ inr (some message))
      × (stream (read_message lossy kind conn).1 ≡ rest)
read_at lossy kind conn e m small =
    let (m', p) = at_stream e m in
    read_message_ready lossy kind conn _ _ m' (omega (arith, p, small))

close_exchange_sent :
    (read : (Failure ⊎ Option (List ℕ)) × Framed) (answer : List ℕ)
    → read.0 ≡ inr (some answer)
    → ((close_exchange read).0 ≡ some answer) × ((close_exchange read).1.sent ≡ read.1.sent)
unfolding close_exchange
close_exchange_sent (inl why, up) answer e = (cc, cc)
close_exchange_sent (inr none, up) answer e = (cc, cc)
close_exchange_sent (inr (some found), up) answer e = (ground arith, ground arith)

exchange_answers :
    (lossy : List ℕ → List ℕ) (message : List ℕ) (up : Framed) {answer later : List ℕ}
    (writes : List Bool)
    → up.writes ≡ true ∷ writes
    → (m : Message lossy response (stream up) answer later) → m.pos + 4 ≤ max_head
    → ((exchange lossy message up).0 ≡ some answer)
      × ((exchange lossy message up).1.sent ≡ message ∷ up.sent)
unfolding exchange
exchange_answers lossy message up {answer} {later} writes e m small =
    let (written, wrote) = write_all_bytes-Wrote message up writes e in
    let up1 = (write_all_bytes message up).1 in
    let (found, rest) = read_at lossy response up1 wrote.same m small in
    let (answered, sent) = close_exchange_sent (read_message lossy response up1) answer found in
    let untouched = read_message-Untouched lossy response up1 in
    rw written (answered, ground (arith, sent, untouched, wrote.sent))

await_silent :
    (fuel : ℕ) (conn : Framed)
    → conn.buf ≡ []
    → delivered conn.reads ≡ []
    → ((await head_end (suc fuel) conn).0 ≡ inr none)
      ⊎ ((await head_end (suc fuel) conn).0 ≡ inl other_kind)
unfolding await read_more head_end find
await_silent fuel conn e d = elim (List-cases conn.reads) [
  | inl p ↦ inl (ground (arith, e, p))
  | inr (failed, rest, p) ↦ inr (ground (arith, e, p))
  | inr (piece b bytes, rest, p) ↦ ground (arith, d, p)
]

read_rest_silent :
    (lossy : List ℕ → List ℕ) (read : (Failure ⊎ Option ℕ) × Framed)
    → (read.0 ≡ inr none) ⊎ (read.0 ≡ inl other_kind)
    → ((accept (read_rest lossy request read)).0 ≡ none)
      × ((accept (read_rest lossy request read)).1 ≡ read.1)
unfolding read_rest accept
read_rest_silent lossy (inl (invalid_data why), conn) h = (refl, ground arith)
read_rest_silent lossy (inl other_kind, conn) h = (refl, refl)
read_rest_silent lossy (inr none, conn) h = (refl, refl)
read_rest_silent lossy (inr (some head), conn) h = (ground arith, ground arith)

-- Where nothing comes any more, the client is sent nothing more.
silent :
    (lossy : List ℕ → List ℕ) (client : Framed)
    → stream client ≡ []
    → ((accept (read_message lossy request client)).0 ≡ none)
      × ((accept (read_message lossy request client)).1.sent ≡ client.sent)
unfolding read_message
silent lossy client e =
    let empty : (client.buf ≡ []) × (delivered client.reads ≡ []) = elim (List-cases client.buf) [
      | inl p ↦ (p, ground (arith, e, p))
      | inr (b, bytes, p) ↦ ground (arith, e, p)
    ] in
    let n = length client.reads in
    let (stops, kept) =
      read_rest_silent lossy (await head_end (suc n) client)
        (await_silent n client empty.0 empty.1) in
    (stops, ground (arith, kept, await-Untouched head_end (suc n) client))

-- A turn that answers.
serve_answers :
    (lossy : List ℕ → List ℕ) (next : Framed → Framed × List Framed) (up client : Framed)
    (message answer : List ℕ)
    → (exchange lossy message up).0 ≡ some answer
    → (write_all_bytes answer client).0 ≡ true
    → serve lossy next (some up) (some message, client) ≡ (
      (next (write_all_bytes answer client).1).0,
      (exchange lossy message up).1 ∷ (next (write_all_bytes answer client).1).1,
    )
unfolding serve go_on reply
serve_answers lossy next up client message answer f written =
    ap (λ a. go_on next (exchange lossy message up).1 (reply a client)) f
    ∙ ap (go_on next (exchange lossy message up).1)
        (λ i. (written i, (write_all_bytes answer client).1))

serve_stops :
    (lossy : List ℕ → List ℕ) (next : Framed → Framed × List Framed) (lease : Option Framed)
    (first : Option (List ℕ) × Framed)
    → first.0 ≡ none
    → serve lossy next lease first ≡ (first.1, [])
unfolding serve
serve_stops lossy next lease (none, client) e = refl
serve_stops lossy next lease (some message, client) e = cc

-- The head of the loop, where a request comes in full.
accept_message :
    (lossy : List ℕ → List ℕ) (client : Framed) (message : List ℕ)
    → (read_message lossy request client).0 ≡ inr (some message)
    → accept (read_message lossy request client)
      ≡ (some message, (read_message lossy request client).1)
unfolding accept
accept_message lossy client message e =
    ap (λ answer. accept (answer, (read_message lossy request client).1)) e

-- A client whose stream is a sequence of requests is sent their answers in order and nothing else,
-- and each upstream is sent its request: for requests whose heads keep to the bound, leased upstreams
-- that take the request and whose streams begin with an answer, and a client that takes each answer,
-- however the sockets cut what they deliver.
pub handle_client-Relays :
    {lossy : List ℕ → List ℕ} {s : List ℕ} {leases : List (Option Framed)} {pairs : Pairs}
    → Relays lossy s leases pairs
    → (client : Framed) (later : List Bool) → stream client ≡ s
    → client.writes ≡ writable pairs later
    → ((handle_client lossy leases client).0.sent ≡ answers pairs client.sent)
      × (map (λ (up : Framed). up.sent) (handle_client lossy leases client).1
          ≡ forwarded leases pairs)
unfolding handle_client
handle_client-Relays {lossy} (quiet {leases = []}) client later e w =
    ((silent lossy client e).1, refl)
handle_client-Relays {lossy} (quiet {leases = lease ∷ leases}) client later e w =
    let first = accept (read_message lossy request client) in
    let (stops, kept) = silent lossy client e in
    let p = serve_stops lossy (handle_client lossy leases) lease first stops in
    (ap (λ end. end.0.sent) p ∙ kept, ap (λ end. map (λ (up : Framed). up.sent) end.1) p)
handle_client-Relays {lossy}
      (turn {message = message} {answer = answer} {up = up} {writes = writes} {leases = leases}
        {pairs = pairs} asked answered small small' takes more)
      client later e w =
    let (read, left) = read_at lossy request client e asked small in
    let client1 = (read_message lossy request client).1 in
    let client2 = (write_all_bytes answer client1).1 in
    let untouched = read_message-Untouched lossy request client in
    let (written, wrote) =
      write_all_bytes-Wrote answer client1 (writable pairs later) (untouched.same_writes ∙ w) in
    let (found, sent) = exchange_answers lossy message up writes takes answered small' in
    let p =
      ap (serve lossy (handle_client lossy leases) (some up))
        (accept_message lossy client message read)
      ∙ serve_answers lossy (handle_client lossy leases) up client1 message answer found written in
    let (ih, ih') = handle_client-Relays more client2 later (wrote.same ∙ left) wrote.left in
    (
      ap (λ end. end.0.sent) p
          ∙ ih
          ∙ ap (answers pairs) (wrote.sent ∙ ap (λ t. answer ∷ t) untouched.same_sent),
      ap (λ end. map (λ (up : Framed). up.sent) end.1) p ∙ cc (sent, ih'),
    )
