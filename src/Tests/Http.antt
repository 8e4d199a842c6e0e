-- ===== src/Tests/Http.antt =====
-- Runs of the HTTP proxy: two requests that come in three reads, and an exchange whose upstream sends
-- a byte too many.
use compio_pool.Prelude.{map, ℕ, true, Option, some, inr, ◌≡◌, refl, arith, List, [], ◌∷◌, ◌++◌}
use compio_pool.Prelude.Text.{
  codes, strip_prefix, to_ascii_lowercase, split_crlf, split_once, trim, trim_start, parse_usize,
  parse_unsigned, parse_digits,
}
use compio_pool.Http.Head.{request, response, body_length, scan, header, settle}
use compio_pool.Net.{Framed, Read, piece, new, await, read_more}
use compio_pool.Http.Framed.{
  read_message, read_rest, read_body, drain, head_end, whole, find, window_position,
}
use compio_pool.Net.Stream.{stream}
use compio_pool.Http.Framing.{Message, read_message-Message}
use compio_pool.Http.Arrival.{read_message_ready}
use compio_pool.Http.Lengths.{AllAgree, Settled, lines_of, body_length-AllAgree}
use compio_pool.Http.Proxy.{exchange, handle_client}
use compio_pool.Http.Exchange.{Exchanged, exchange-Exchanged}
use compio_pool.Http.Relay.{Pairs, answers, forwarded, Relays, quiet, turn, handle_client-Relays}
use compio_pool.Http.Origin.{origin_reply, origin_conn}
use compio_pool.Http.Serving.{origin_conn_ends}
use compio_pool.Http.Reply.{origin_reply_read}

abbrev crlf : List ℕ
crlf = 13 ∷ 10 ∷ []

abbrev get : List ℕ
get = codes "GET / HTTP/1.1" ++ crlf ++ crlf

abbrev post : List ℕ
post = codes "POST / HTTP/1.1" ++ crlf ++ codes "Content-Length: 2" ++ crlf ++ crlf ++ codes "hi"

abbrev reads_of : List ℕ → List Read → List Read
reads_of [] rest = rest
reads_of (b ∷ bytes) rest = piece b bytes ∷ rest

-- The first request in two reads, the second with the end of the first.
abbrev client : Framed
client =
    new
      (reads_of (codes "POST / HTTP/1.1") (
        reads_of (crlf ++ codes "Content-Length: 2" ++ crlf ++ crlf ++ codes "h")
          (reads_of (codes "i" ++ get) [])))
      (true ∷ true ∷ [])

abbrev client_after : Framed
client_after = record (new [] (true ∷ true ∷ [])) { buf = get }

abbrev same_text_of : List ℕ → List ℕ
same_text_of t = t

client_first : read_message same_text_of request client ≡ (inr (some post), client_after)
unfolding read_message read_rest read_body drain await read_more head_end whole find window_position
    strip_prefix new body_length to_ascii_lowercase split_crlf scan split_once header trim
    trim_start parse_usize parse_unsigned parse_digits settle
client_first = refl

read_message-Message_example :
    Message same_text_of request (stream client) post (stream client_after)
read_message-Message_example =
    read_message-Message same_text_of request client client_after post client_first

read_message_ready_example :
    ((read_message same_text_of request client).0 ≡ inr (some post))
    × (stream (read_message same_text_of request client).1 ≡ get)
unfolding find window_position strip_prefix new body_length to_ascii_lowercase split_crlf scan
    split_once header trim trim_start parse_usize parse_unsigned parse_digits settle
read_message_ready_example =
    read_message_ready same_text_of request client post get
      (record {
        pos = 34;
        body = 2;
        blank = refl;
        sized = refl;
        small = omega arith;
        there = omega arith;
        cut = refl;
        left = refl;
      })
      (omega arith)

abbrev post_head : List ℕ
post_head = codes "POST / HTTP/1.1" ++ crlf ++ codes "Content-Length: 2" ++ crlf ++ crlf

body_length-AllAgree_example :
    (length : Option ℕ) × AllAgree length (lines_of same_text_of post_head).1
    × Settled request
        (lines_of same_text_of post_head).0
        (lines_of same_text_of post_head).1
        2
        length
unfolding body_length to_ascii_lowercase split_crlf scan split_once header trim trim_start
    parse_usize parse_unsigned parse_digits settle
body_length-AllAgree_example = body_length-AllAgree same_text_of post_head request 2 refl

-- An upstream that answers with one byte too many.
abbrev answer : List ℕ
answer = codes "HTTP/1.1 200 OK" ++ crlf ++ codes "Content-Length: 2" ++ crlf ++ crlf ++ codes "ok"

abbrev chatty : Framed
chatty = new (reads_of (answer ++ codes "!") []) (true ∷ [])

exchange-Exchanged_example :
    Exchanged same_text_of get chatty
      (exchange same_text_of get chatty).1
      (exchange same_text_of get chatty).0
exchange-Exchanged_example = exchange-Exchanged same_text_of get chatty

abbrev origin_side : Framed
origin_side = record {
  reads = reads_of get [];
  writes = [];
  sent = [];
  buf = origin_reply 7 1;
  healthy = true;
}

origin_reply_read_example :
    ((read_message same_text_of response origin_side).0 ≡ inr (some (origin_reply 7 1)))
    × (stream (read_message same_text_of response origin_side).1 ≡ get)
origin_reply_read_example =
    origin_reply_read 7 1 (omega arith) (omega arith) same_text_of (λ t h. refl) get origin_side
      refl

abbrev answering : Framed
answering = record {
  reads = reads_of answer [];
  writes = true ∷ [];
  sent = [];
  buf = [];
  healthy = true;
}

post_asked : Message same_text_of request (stream client) post get
unfolding find window_position strip_prefix new body_length to_ascii_lowercase split_crlf scan
    split_once header trim trim_start parse_usize parse_unsigned parse_digits settle
post_asked = record {
  pos = 34;
  body = 2;
  blank = refl;
  sized = refl;
  small = omega arith;
  there = omega arith;
  cut = refl;
  left = refl;
}

get_asked : Message same_text_of request get get []
unfolding find window_position strip_prefix body_length to_ascii_lowercase split_crlf scan
    split_once header trim trim_start settle
get_asked = record {
  pos = 14;
  body = 0;
  blank = refl;
  sized = refl;
  small = omega arith;
  there = omega arith;
  cut = refl;
  left = refl;
}

answered : Message same_text_of response (stream answering) answer []
unfolding find window_position strip_prefix body_length to_ascii_lowercase split_crlf scan
    split_once header trim trim_start parse_usize parse_unsigned parse_digits settle
answered = record {
  pos = 34;
  body = 2;
  blank = refl;
  sized = refl;
  small = omega arith;
  there = omega arith;
  cut = refl;
  left = refl;
}

abbrev two_pairs : Pairs
two_pairs = (post, answer) ∷ (get, answer) ∷ []

abbrev two_leases : List (Option Framed)
two_leases = some answering ∷ some answering ∷ []

relays : Relays same_text_of (stream client) two_leases two_pairs
unfolding post_asked get_asked answered
relays =
    turn post_asked answered (omega arith) (omega arith) refl
      (turn get_asked answered (omega arith) (omega arith) refl quiet)

handle_client-Relays_example :
    ((handle_client same_text_of two_leases client).0.sent ≡ answers two_pairs [])
    × (map (λ (up : Framed). up.sent) (handle_client same_text_of two_leases client).1
        ≡ forwarded two_leases two_pairs)
unfolding new
handle_client-Relays_example = handle_client-Relays relays client [] refl refl

origin_conn_ends_example : (end : ℕ × Framed) × (origin_conn same_text_of 100 7 0 client ≡ some end)
unfolding new
origin_conn_ends_example = origin_conn_ends same_text_of 100 7 0 client (omega arith)
