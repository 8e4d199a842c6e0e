-- ===== src/Http/Origin.antt =====
-- examples/http_proxy.rs, `origin_conn`: the built-in origin's side of one connection.
--
-- The loop runs on fuel; each turn takes a message off the stream, so fuel past the stream's length is
-- enough.
use compio_pool.Prelude.{
  ℕ, zero, suc, Bool, true, false, Option, none, some, ◌⊎◌, inl, inr, List, [], ◌∷◌, ◌++◌, length,
}
use compio_pool.Prelude.Text.{codes}
use compio_pool.Http.Head.{request}
use compio_pool.Net.{Failure, Framed, write_all_bytes}
use compio_pool.Http.Framed.{read_message}
use compio_pool.Http.Proxy.{crlf}
use compio_pool.Prelude.Text.{decimal}

-- The body of the reply to request number `served` of connection `id`.
unfoldable pub origin_body : ℕ → ℕ → List ℕ
origin_body id served =
    codes "served by upstream connection #"
    ++ decimal id
    ++ codes ", request #"
    ++ decimal served
    ++ (10 ∷ [])

-- The reply.
unfoldable pub origin_reply : ℕ → ℕ → List ℕ
origin_reply id served =
    codes "HTTP/1.1 200 OK"
    ++ (crlf
        ++ (codes "content-type: text/plain"
            ++ (crlf
                ++ ((codes "content-length: " ++ decimal (length (origin_body id served)))
                    ++ (crlf
                        ++ ((codes "x-upstream-conn: " ++ decimal id)
                            ++ (crlf
                                ++ ((codes "x-upstream-reqs: " ++ decimal served)
                                    ++ (crlf
                                        ++ (codes "connection: keep-alive"
                                            ++ (crlf ++ (crlf ++ origin_body id served))))))))))))

-- One turn of `origin_conn`, after its read: whether it goes on.
unfoldable pub origin_turn : ℕ → ℕ → (Failure ⊎ Option (List ℕ)) × Framed → Bool × Framed
origin_turn id served (inl why, conn) = (false, conn)
origin_turn id served (inr none, conn) = (false, conn)
origin_turn id served (inr (some message), conn) =
    write_all_bytes (origin_reply id (suc served)) conn

-- `origin_conn`, with the requests served so far; the requests served and the connection at its end.
unfoldable pub origin_conn : (List ℕ → List ℕ) → ℕ → ℕ → ℕ → Framed → Option (ℕ × Framed)
origin_conn lossy zero id served conn = none
origin_conn lossy (suc fuel) id served conn =
    let (goes_on, after) = origin_turn id served (read_message lossy request conn) in
    elim goes_on [
      | true ↦ origin_conn lossy fuel id (suc served) after
      | false ↦ some (served, after)
    ]
