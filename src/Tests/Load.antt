-- ===== src/Tests/Load.antt =====
-- Runs of the load generator at concrete inputs.
use compio_pool.Prelude.{
  ℕ, Option, false, none, some, inr, ◌≡◌, refl, arith, List, [], ◌∷◌, if◌then◌else◌,
}
use compio_pool.Prelude.Text.{codes, same_text, split, parse_usize, parse_unsigned, parse_digits}
use compio_pool.Redis.{Redis, proxy}
use compio_pool.Kvload.{Opts, get, mix, parse, resolve_all, set_flags, set_flag, clamp, run_conn}
use compio_pool.Kvload.Batches.{IsStore}
use compio_pool.Kvload.Warm.{server}
use compio_pool.Kvload.Load.{Clean, started, run_conn-Clean}

abbrev Table : Type 0
Table = List (List ℕ × List ℕ)

abbrev look_up : Table → List ℕ → Option (List ℕ)
look_up [] j = none
look_up ((k, v) ∷ table) j = if same_text k j then some v else look_up table j

-- A Redis that is an association list.
abbrev table_redis : Redis Table
table_redis = record {
  ping = λ s. (inr (codes "PONG"), s);
  get = λ k s. (inr (look_up s k), s);
  set = λ k v s. (none, (k, v) ∷ s);
  incr = λ k s. (inr (false, 0), s);
  del = λ k s. (inr (false, 0), s);
}

table_redis-IsStore : IsStore table_redis look_up
table_redis-IsStore = record {
  got = λ k s. refl;
  got_keeps = λ k j s. refl;
  stored = λ k v s. refl;
  stored_as = λ k v j s. refl;
  ponged = λ s. refl;
  ponged_keeps = λ j s. refl;
}

abbrev mixed_load : Opts ℕ
mixed_load = record {
  addrs = 1 ∷ [];
  conns = 1;
  seconds = 1;
  workload = mix;
  value = 2;
  keys = 2;
  pipeline = 3;
}

abbrev no_escape : List ℕ → List ℕ
no_escape text = text

run_conn-Clean_example :
    Clean no_escape table_redis-IsStore
      (7 ∷ 9 ∷ [])
      3
      started
      (run_conn (proxy table_redis no_escape) mixed_load 5 (7 ∷ 9 ∷ []) (server []))
run_conn-Clean_example =
    run_conn-Clean no_escape table_redis-IsStore mixed_load 5 (omega arith) (omega arith)
      (7 ∷ 9 ∷ []) [] (omega arith) (λ e. cc)

abbrev one_address : List ℕ → Option (List ℕ)
one_address name = some (1 ∷ [])

abbrev arguments : List (List ℕ)
arguments = codes "host:1" ∷ codes "--keys" ∷ codes "0" ∷ []

abbrev accepted : Opts ℕ
accepted = record {
  addrs = 1 ∷ [];
  conns = 64;
  seconds = 5;
  workload = get;
  value = 16;
  keys = 1;
  pipeline = 1;
}

arguments_parsed : parse one_address arguments ≡ inr accepted
unfolding parse resolve_all split set_flags set_flag clamp parse_usize parse_unsigned parse_digits
arguments_parsed = refl
