-- ===== src/Tests/Servers.antt =====
-- Runs of the write-ahead log and of the scatter/gather server at concrete inputs.
use compio_pool.Prelude.{ℕ, Bool, true, false, none, some, refl, arith, List, [], ◌∷◌, ◌++◌}
use compio_pool.Prelude.Text.{codes, position, decimal, emit}
use compio_pool.Net.{Read, piece, Framed}
use compio_pool.Net.Stream.{stream}
use compio_pool.Wal.{Wal, Turn, serve}
use compio_pool.Wal.Laws.{Served, written, serve-Served}
use compio_pool.Scatter.{Round, merged, ask, handle_client, trim_end_cr}
use compio_pool.Scatter.Lines.{FirstLine}
use compio_pool.Scatter.Shards.{Asked, ask-Asked, speaks, no_lease}
use compio_pool.Scatter.Gather.{
  no_more, shard, failing, Gathers, quiet, blank, asks, Told, handle_client-Gathers,
}

-- A segment whose last write failed half way, and a client whose second record is not flushed.
abbrev segment : Wal
segment = record {
  file = record { content = codes "one" ++ codes "t"; durable = codes "one" };
  offset = 3;
}

abbrev record_of : ℕ → List ℕ → Bool → Turn
record_of b bytes flushed = record {
  read = some (b, bytes);
  write_error = none;
  flushed = flushed;
  sent = true;
}

abbrev two_records : List Turn
two_records = record_of b'a' (b'b' ∷ []) true ∷ record_of b'c' [] false ∷ []

serve-Served_example :
    Served true
      (written two_records)
      (codes "one")
      segment
      (serve true two_records segment).0
      (serve true two_records segment).1
serve-Served_example =
    serve-Served true two_records (codes "one") segment
      (record { beyond = codes "t"; content = refl; offset = refl }) (omega arith)

abbrev identity : List ℕ → List ℕ
identity t = t

abbrev reads_of : List ℕ → List Read → List Read
reads_of [] rest = rest
reads_of (b ∷ bytes) rest = piece b bytes ∷ rest

abbrev line_conn : List ℕ → List Bool → Framed
line_conn bytes writes = record {
  reads = reads_of bytes [];
  writes = writes;
  sent = [];
  buf = [];
  healthy = true;
}

-- A blank line, a query in two pieces, and then nothing.
abbrev client : Framed
client = record {
  reads = reads_of (10 ∷ codes "nee") (reads_of (codes "dle" ++ (13 ∷ 10 ∷ [])) []);
  writes = true ∷ [];
  sent = [];
  buf = [];
  healthy = true;
}

abbrev after_blank : List ℕ
after_blank = codes "needle" ++ (13 ∷ 10 ∷ [])

blank_line : FirstLine identity (stream client) [] after_blank
unfolding position trim_end_cr
blank_line = record { pos = 0; newline = refl; cut = refl; left = refl }

needle_line : FirstLine identity after_blank (codes "needle") []
unfolding position trim_end_cr
needle_line = record { pos = 7; newline = refl; cut = refl; left = refl }

abbrev shard_conn : Framed
shard_conn = line_conn (codes "shard0=5" ++ (10 ∷ [])) (true ∷ [])

shard_line : FirstLine identity (stream shard_conn) (codes "shard0=5") []
unfolding position trim_end_cr
shard_line = record { pos = 8; newline = refl; cut = refl; left = refl }

ask-Asked_example :
    Asked identity
      (codes "needle")
      shard_conn
      (ask identity (codes "needle") shard_conn).1
      (ask identity (codes "needle") shard_conn).0
ask-Asked_example = ask-Asked identity (codes "needle") shard_conn

abbrev round : Round
round = record { leases = some shard_conn ∷ none ∷ []; elapsed = codes "5.1" }

abbrev answers : List (List ℕ)
answers = merged (codes "shard0=5" ∷ codes "shard1=ERR" ∷ []) (codes "5.1") ∷ []

no_line : (text rest : List ℕ) → ¬ FirstLine identity [] text rest
unfolding position
no_line text rest line = cc line.newline

gathers : Gathers identity (stream client) (round ∷ []) answers
unfolding blank_line needle_line shard_line decimal emit
gathers = blank blank_line (omega arith) (
    asks needle_line (omega arith)
      (shard (speaks refl shard_line (omega arith)) (failing no_lease no_more)) (quiet no_line))

handle_client-Gathers_example :
    Told identity (handle_client identity 20 (round ∷ []) client) answers client
handle_client-Gathers_example =
    handle_client-Gathers identity gathers 20 client [] refl refl (omega arith)
