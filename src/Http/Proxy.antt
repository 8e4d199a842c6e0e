-- ===== src/Http/Proxy.antt =====
-- examples/http_proxy.rs: `Origin`, the replies, and `handle_client`.
--
-- What `local.get()` answers is an argument, a list of leases: a connection, or `none` for an error.
-- The upstreams that `handle_client` gives back to the pool are its second result, in order; a
-- client still waiting for a lease at the list's end stays where it is.
use compio_pool.Prelude.{
  ℕ, Bool, true, false, not, Option, none, some, ◌⊎◌, inl, inr, List, [], ◌∷◌, ◌++◌, length,
  if◌then◌else◌,
}
use compio_pool.Prelude.Text.{is_empty, codes, decimal}
use compio_pool.Http.Head.{request, response}
use compio_pool.Net.{Failure, invalid_data, other_kind, Read, Framed, new, write_all_bytes}
use compio_pool.Http.Framed.{read_message}

-- `Origin::connect`, where the socket connects; what `set_nodelay` answers is an argument.
unfoldable pub connect : Option (List Read × List Bool) → Bool → Failure ⊎ Framed
connect none nodelay = inl other_kind
connect (some (reads, writes)) nodelay = if nodelay then inr (new reads writes) else inl other_kind

-- `Origin::is_valid`.
unfoldable pub is_valid : Framed → Failure ⊎ Unit {0}
is_valid conn = if conn.healthy then inr tt else inl other_kind

-- `Origin::has_broken`.
unfoldable pub has_broken : Framed → Bool
has_broken conn = not conn.healthy

abbrev pub crlf : List ℕ
crlf = 13 ∷ 10 ∷ []

-- A reply of the proxy's own, which closes the connection.
unfoldable pub last_reply : List ℕ → List ℕ → List ℕ
last_reply status why =
    let body = status ++ codes ": " ++ why ++ (10 ∷ []) in
    codes "HTTP/1.1 "
    ++ status
    ++ crlf
    ++ codes "content-length: "
    ++ decimal (length body)
    ++ crlf
    ++ codes "connection: close"
    ++ crlf
    ++ crlf
    ++ body

-- `bad_gateway`.
unfoldable pub bad_gateway : List ℕ → List ℕ
bad_gateway why = last_reply (codes "502 Bad Gateway") why

-- `bad_request`.
unfoldable pub bad_request : List ℕ → List ℕ
bad_request why = last_reply (codes "400 Bad Request") why

-- `match response`, on the upstream's side.
unfoldable pub close_exchange : (Failure ⊎ Option (List ℕ)) × Framed → Option (List ℕ) × Framed
close_exchange (inl why, up) = (none, record up { healthy = false })
close_exchange (inr none, up) = (none, record up { healthy = false })
close_exchange (inr (some message), up) =
    (some message, if is_empty up.buf then up else record up { healthy = false })

-- `handle_client` between the lease and the drop of the upstream: forward the request, and read one
-- response back.
unfoldable pub exchange : (List ℕ → List ℕ) → List ℕ → Framed → Option (List ℕ) × Framed
exchange lossy message up =
    let (written, up1) = write_all_bytes message up in
    close_exchange (if written then read_message lossy response up1 else (inl other_kind, up1))

-- The head of `handle_client`'s loop: one request, or none once the connection is to be closed.
unfoldable pub accept : (Failure ⊎ Option (List ℕ)) × Framed → Option (List ℕ) × Framed
accept (inr (some message), client) = (some message, client)
accept (inr none, client) = (none, client)
accept (inl (invalid_data why), client) = (none, (write_all_bytes (bad_request why) client).1)
accept (inl other_kind, client) = (none, client)

-- The end of the loop: the response, and whether the loop goes on.
unfoldable pub reply : Option (List ℕ) → Framed → Bool × Framed
reply (some message) client = write_all_bytes message client
reply none client = (false, (write_all_bytes (bad_gateway (codes "upstream error")) client).1)

-- The next turn of `handle_client`, if there is one, after an upstream went back.
unfoldable pub go_on :
    (Framed → Framed × List Framed) → Framed → Bool × Framed → Framed × List Framed
go_on next up (false, client) = (client, up ∷ [])
go_on next up (true, client) = let rest = next client in (rest.0, up ∷ rest.1)

-- A turn of `handle_client` from the lease on.
unfoldable pub serve :
    (List ℕ → List ℕ)
    → (Framed → Framed × List Framed)
    → Option Framed
    → Option (List ℕ) × Framed
    → Framed × List Framed
serve lossy next lease (none, client) = (client, [])
serve lossy next none (some message, client) =
    ((write_all_bytes (bad_gateway (codes "no upstream available")) client).1, [])
serve lossy next (some up) (some message, client) =
    let (answer, up1) = exchange lossy message up in go_on next up1 (reply answer client)

-- `handle_client`.
unfoldable pub handle_client :
    (List ℕ → List ℕ) → List (Option Framed) → Framed → Framed × List Framed
handle_client lossy [] client = ((accept (read_message lossy request client)).1, [])
handle_client lossy (lease ∷ leases) client =
    serve lossy (handle_client lossy leases) lease (accept (read_message lossy request client))
