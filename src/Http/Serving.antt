-- ===== src/Http/Serving.antt =====
-- examples/http_proxy.rs, `origin_conn`: its loop ends.
use compio_pool.Prelude.{
  ℕ, zero, suc, true, false, some, inl, inr, ◌≡◌, ◌+◌, ◌<◌, List, arith, length, length-drop,
  Bool-cases, List-cases,
}
use compio_pool.Http.Head.{request}
use compio_pool.Net.{Framed, write_all_bytes}
use compio_pool.Http.Framed.{read_message}
use compio_pool.Net.Stream.{Answer-cases, stream}
use compio_pool.Http.Framing.{read_message-Message}
use compio_pool.Http.Origin.{origin_reply, origin_turn, origin_conn}

write_all_bytes-stream :
    (bytes : List ℕ) (conn : Framed) → stream (write_all_bytes bytes conn).1 ≡ stream conn
unfolding write_all_bytes
write_all_bytes-stream bytes conn = elim (List-cases conn.writes) [
  | inl e ↦ ground arith
  | inr (true, rest, e) ↦ ground arith
  | inr (false, rest, e) ↦ ground arith
]

-- A turn that goes on has taken a message off the stream.
origin_turn_shorter :
    (lossy : List ℕ → List ℕ) (id served : ℕ) (conn : Framed)
    → (origin_turn id served (read_message lossy request conn)).0 ≡ true
    → length (stream (origin_turn id served (read_message lossy request conn)).1)
      < length (stream conn)
unfolding origin_turn
origin_turn_shorter lossy id served conn h =
    let (read, after) = read_message lossy request conn in
    elim (Answer-cases read) [
      | inl (why, e) ↦ ground arith
      | inr (inl e) ↦ ground arith
      | inr (inr (message, e)) ↦
          let m = read_message-Message lossy request conn after message (λ i. (e i, after)) in
          let same = write_all_bytes-stream (origin_reply id (suc served)) after in
          let left = length-drop (m.pos + 4 + m.body) (stream conn) in
          ground (arith, e, m.left, m.there, same, left)
    ]

-- With fuel for each byte of the stream, the loop of `origin_conn` comes to its end: the peer
-- closes, or a read, the framing or a write fails.
pub origin_conn_ends :
    (lossy : List ℕ → List ℕ) (fuel id served : ℕ) (conn : Framed)
    → length (stream conn) < fuel
    → (end : ℕ × Framed) × (origin_conn lossy fuel id served conn ≡ some end)
unfolding origin_conn
origin_conn_ends lossy zero id served conn h = absurd (omega arith)
origin_conn_ends lossy (suc fuel) id served conn h =
    let (goes_on, after) = origin_turn id served (read_message lossy request conn) in
    elim (Bool-cases goes_on) [
      | inl e ↦
          let shorter = origin_turn_shorter lossy id served conn e in
          let (end, p) =
            origin_conn_ends lossy fuel id (suc served) after (omega (arith, shorter)) in
          (end, ground (arith, e, p))
      | inr e ↦ ((served, after), ground (arith, e))
    ]
