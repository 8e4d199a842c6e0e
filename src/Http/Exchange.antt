-- ===== src/Http/Exchange.antt =====
-- examples/http_proxy.rs, `handle_client`: what an exchange leaves on a connection that the pool keeps.
use compio_pool.Prelude.{
  ℕ, Bool, true, false, Option, none, some, ◌⊎◌, inl, inr, ◌≡◌, refl, sym, subst, ◌∙◌, ◌↔◌, List,
  [], ◌∷◌, arith, List-cases,
}
use compio_pool.Http.Head.{request, response}
use compio_pool.Net.{Failure, Framed, write_all_bytes}
use compio_pool.Http.Framed.{read_message}
use compio_pool.Net.Stream.{stream}
use compio_pool.Http.Framing.{Message, read_message-Message, read_message-Untouched}
use compio_pool.Http.Proxy.{
  has_broken, close_exchange, exchange, accept, reply, go_on, serve, handle_client,
}

-- A connection that the pool keeps holds no byte of the exchange before.
abbrev pub Clean : Framed → Type 0
Clean up = has_broken up ≡ false → up.buf ≡ []

pub data AllClean : List Framed → Type 0 where
  all_done : AllClean []
  clean : (up : Framed) (ups : List Framed) → Clean up → AllClean ups → AllClean (up ∷ ups)

pub exchange-Clean :
    (lossy : List ℕ → List ℕ) (message : List ℕ) (up : Framed) → Clean (exchange lossy message up).1
unfolding exchange
exchange-Clean lossy message up h = unfold has_broken close_exchange in ground arith

go_on-AllClean :
    (next : Framed → Framed × List Framed)
    → ((client : Framed) → AllClean (next client).1)
    → (up : Framed) → Clean up
    → (turn : Bool × Framed) → AllClean (go_on next up turn).1
unfolding go_on
go_on-AllClean next later up kept (false, client) = clean up [] kept all_done
go_on-AllClean next later up kept (true, client) = clean up (next client).1 kept (later client)

serve-AllClean :
    (lossy : List ℕ → List ℕ) (next : Framed → Framed × List Framed)
    → ((client : Framed) → AllClean (next client).1)
    → (lease : Option Framed) (first : Option (List ℕ) × Framed)
    → AllClean (serve lossy next lease first).1
unfolding serve
serve-AllClean lossy next later none (none, client) = all_done
serve-AllClean lossy next later (some up) (none, client) = all_done
serve-AllClean lossy next later none (some message, client) = all_done
serve-AllClean lossy next later (some up) (some message, client) =
    let (answer, up1) = exchange lossy message up in
    go_on-AllClean next later up1 (exchange-Clean lossy message up) (reply answer client)

-- Every upstream that `handle_client` gives back is either broken, and so not pooled, or holds no
-- byte that the next exchange would read.
pub handle_client-AllClean :
    (lossy : List ℕ → List ℕ) (leases : List (Option Framed)) (client : Framed)
    → AllClean (handle_client lossy leases client).1
unfolding handle_client
handle_client-AllClean lossy [] client = all_done
handle_client-AllClean lossy (lease ∷ leases) client =
    serve-AllClean lossy (handle_client lossy leases) (handle_client-AllClean lossy leases) lease
      (accept (read_message lossy request client))

-- What an exchange did with an upstream, by what it answers.
pub data Exchanged (lossy : List ℕ → List ℕ) (message : List ℕ) (up after : Framed)
    : Option (List ℕ) → Type 0 where
  lost : has_broken after ≡ true → Exchanged lossy message up after none
  answered :
      {answer : List ℕ}
      → after.sent ≡ message ∷ up.sent
      → Message lossy response (stream up) answer (stream after)
      → (has_broken after ≡ false) ↔ ((up.healthy ≡ true) × (after.buf ≡ []))
      → Exchanged lossy message up after (some answer)

write_all_bytes_cases :
    (message : List ℕ) (up : Framed)
    → ((write_all_bytes message up).0 ≡ false)
      ⊎ (((write_all_bytes message up).0 ≡ true)
          × ((write_all_bytes message up).1.sent ≡ message ∷ up.sent)
          × (stream (write_all_bytes message up).1 ≡ stream up)
          × ((write_all_bytes message up).1.healthy ≡ up.healthy))
unfolding write_all_bytes
write_all_bytes_cases message up = elim (List-cases up.writes) [
  | inl e ↦ inl (ground arith)
  | inr (true, rest, e) ↦ inr (ground arith, ground arith, ground arith, ground arith)
  | inr (false, rest, e) ↦ inl (ground arith)
]

-- Retiring an upstream changes its health alone.
close_exchange-some :
    (answer : List ℕ) (conn : Framed)
    → ((close_exchange (inr (some answer), conn)).1.sent ≡ conn.sent)
      × (stream (close_exchange (inr (some answer), conn)).1 ≡ stream conn)
      × ((has_broken (close_exchange (inr (some answer), conn)).1 ≡ false)
          ↔ ((conn.healthy ≡ true) × ((close_exchange (inr (some answer), conn)).1.buf ≡ [])))
unfolding close_exchange has_broken
close_exchange-some answer conn = ground arith

close_exchange-Exchanged :
    (lossy : List ℕ → List ℕ) (message : List ℕ) (up : Framed)
    (read : (Failure ⊎ Option (List ℕ)) × Framed)
    → read.1.sent ≡ message ∷ up.sent
    → read.1.healthy ≡ up.healthy
    → ((answer : List ℕ)
        → read.0 ≡ inr (some answer)
        → Message lossy response (stream up) answer (stream read.1))
    → Exchanged lossy message up (close_exchange read).1 (close_exchange read).0
unfolding close_exchange has_broken
close_exchange-Exchanged lossy message up (inl why, after) sent health framed = lost refl
close_exchange-Exchanged lossy message up (inr none, after) sent health framed = lost refl
close_exchange-Exchanged lossy message up (inr (some answer), after) sent health framed =
    let (same_sent, same, kept) = close_exchange-some answer after in
    answered (same_sent ∙ sent)
      (subst (Message lossy response (stream up) answer) (sym same) (framed answer refl))
      (ground (arith, kept, health))

-- An upstream whose exchange fails is broken. Otherwise the request was written, the answer is the
-- first message of what the upstream delivers, and the pool keeps the upstream exactly when it was
-- healthy and no byte after the answer came with it.
pub exchange-Exchanged :
    (lossy : List ℕ → List ℕ) (message : List ℕ) (up : Framed)
    → Exchanged lossy message up (exchange lossy message up).1 (exchange lossy message up).0
unfolding exchange
exchange-Exchanged lossy message up =
    let up1 = (write_all_bytes message up).1 in
    elim (write_all_bytes_cases message up) [
      | inl e ↦ rw e (unfold close_exchange has_broken in lost refl)
      | inr (e, sent, same, health) ↦ rw e (
          close_exchange-Exchanged lossy message up (read_message lossy response up1)
            (ground (arith, read_message-Untouched lossy response up1))
            (ground (arith, read_message-Untouched lossy response up1))
            (λ answer p.
              subst
                (λ s. Message lossy response s answer (stream (read_message lossy response up1).1))
                same
                (read_message-Message lossy response up1 _ answer
                  (λ i. (p i, (read_message lossy response up1).1)))))
    ]
