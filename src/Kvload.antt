-- ===== src/Kvload.antt =====
-- examples/kvload.rs: a load generator for servers of the line protocol of `Redis`.
--
-- The server that a connection reaches is an argument: a state, and for each batch that is written the
-- lines that it answers, or none where the write fails. So are the resolver of addresses and what the
-- clock says in each turn.

pub mod Commands
pub mod Batches
pub mod Replies
pub mod Warm
pub mod Rounds
pub mod Options
pub mod Load
use Prim.Native.Nat.{bit_xor}
use compio_pool.Prelude.{
  ℕ, zero, suc, Bool, true, false, Option, none, some, ◌⊎◌, inl, inr, ◌≡◌, ◌||◌, ◌&&◌, not, ◌+◌,
  ◌*◌, ◌/◌, ◌%◌, ◌-◌, ◌^◌, ◌==◌, List, [], ◌∷◌, ◌++◌, if◌then◌else◌, length, ltb, u64_mod, add_u64,
  get_elem?,
}
use compio_pool.Prelude.Text.{codes, same_text, parse_usize, decimal, trim_end, split}

-- `enum Workload`.
pub data Workload : Type 0 where
  get set incr ping mix : Workload

-- `struct Opts`, with addresses of any type.
pub record Opts (A : Type 0) : Type 0 where
  pub addrs : List A
  pub conns : ℕ
  pub seconds : ℕ
  pub workload : Workload
  pub value : ℕ
  pub keys : ℕ
  pub pipeline : ℕ

-- Why `parse` refuses: the texts that `bad` is given.
pub data Refusal : Type 0 where
  usage no_address : Refusal
  bad_address resolved_to_nothing needs_value malformed unknown_workload unknown_flag :
      List ℕ → Refusal

-- `Workload` by its name.
unfoldable pub workload_of : List ℕ → Refusal ⊎ Workload
workload_of name =
    if same_text name (codes "get")
    then inr get
    else if same_text name (codes "set")
    then inr set
    else if same_text name (codes "incr")
    then inr incr
    else if same_text name (codes "ping")
    then inr ping
    else if same_text name (codes "mix")
    then inr mix
    else inl (unknown_workload name)

-- `n.max(1)`.
abbrev pub at_least_one : ℕ → ℕ
at_least_one n = if n == 0 then 1 else n

module _ {A : Type 0} where
  abbrev number : List ℕ → Option ℕ → (ℕ → Opts A) → Refusal ⊎ Opts A
  number flag none change = inl (malformed flag)
  number flag (some n) change = inr (change n)

  abbrev choose : Refusal ⊎ Workload → Opts A → Refusal ⊎ Opts A
  choose (inl why) opts = inl why
  choose (inr w) opts = inr (record opts { workload = w })

  -- One flag with its value.
  unfoldable pub set_flag : List ℕ → List ℕ → Opts A → Refusal ⊎ Opts A
  set_flag flag val opts =
      if same_text flag (codes "--conns")
      then number flag (parse_usize val) (λ n. record opts { conns = n })
      else if same_text flag (codes "--seconds")
      then number flag (parse_usize val) (λ n. record opts { seconds = n })
      else if same_text flag (codes "--value")
      then number flag (parse_usize val) (λ n. record opts { value = n })
      else if same_text flag (codes "--keys")
      then number flag (parse_usize val) (λ n. record opts { keys = n })
      else if same_text flag (codes "--pipeline")
      then number flag (parse_usize val) (λ n. record opts { pipeline = n })
      else if same_text flag (codes "--workload")
      then choose (workload_of val) opts
      else inl (unknown_flag flag)

  -- The loop of `parse` over the flags.
  unfoldable pub set_flags : List (List ℕ) → Opts A → Refusal ⊎ Opts A
  set_flags [] opts = inr opts
  set_flags (flag ∷ []) opts = inl (needs_value flag)
  set_flags (flag ∷ val ∷ args) opts = elim (set_flag flag val opts) [
    | inl why ↦ inl why
    | inr opts' ↦ set_flags args opts'
  ]

  -- The end of `parse`.
  unfoldable pub clamp : Refusal ⊎ Opts A → Refusal ⊎ Opts A
  clamp (inl why) = inl why
  clamp (inr opts) = inr (record opts {
    conns = at_least_one opts.conns;
    keys = at_least_one opts.keys;
    pipeline = at_least_one opts.pipeline;
  })

  -- `addr_arg.split(',').filter(|s| !s.is_empty())`, each resolved. The resolver answers none for an
  -- error, and otherwise the addresses.
  unfoldable pub resolve_all : (List ℕ → Option (List A)) → List (List ℕ) → Refusal ⊎ List A
  resolve_all resolve [] = inr []
  resolve_all resolve ([] ∷ names) = resolve_all resolve names
  resolve_all resolve ((c ∷ name) ∷ names) =
      let rest = resolve_all resolve names in
      elim (resolve (c ∷ name)) [
        | none ↦ inl (bad_address (c ∷ name))
        | some found ↦ elim found [
          | [] ↦ inl (resolved_to_nothing (c ∷ name))
          | (a ∷ others) ↦ elim rest [ inl why ↦ inl why | inr addrs ↦ inr (a ∷ addrs) ]
        ]
      ]

  -- The options before the flags.
  abbrev pub defaults : List A → Opts A
  defaults addrs = record {
    addrs = addrs;
    conns = 64;
    seconds = 5;
    workload = get;
    value = 16;
    keys = 128;
    pipeline = 1;
  }

  abbrev pub with_addrs : List (List ℕ) → Refusal ⊎ List A → Refusal ⊎ Opts A
  with_addrs args (inl why) = inl why
  with_addrs args (inr []) = inl no_address
  with_addrs args (inr (a ∷ addrs)) = clamp (set_flags args (defaults (a ∷ addrs)))

  -- `parse`, on the arguments after the program's name.
  unfoldable pub parse : (List ℕ → Option (List A)) → List (List ℕ) → Refusal ⊎ Opts A
  parse resolve [] = inl usage
  parse resolve (addr_arg ∷ args) = with_addrs args (resolve_all resolve (split b',' addr_arg))

-- `Rng::next`: the new state, which is the number as well.
unfoldable pub next : ℕ → ℕ
next x =
    let a = bit_xor x (x * 2 ^ 13 % u64_mod) in
    let b = bit_xor a (a / 2 ^ 7) in bit_xor b (b * 2 ^ 17 % u64_mod)

-- The seed of connection `id`.
unfoldable pub seed : ℕ → ℕ
seed id = bit_xor (bit_xor 0x9e3779b97f4a7c15 (id * 0xd1b54a32d192 % u64_mod)) 1

-- `key`.
unfoldable pub key : ℕ → ℕ → ℕ → List ℕ
key id keys i = decimal id ++ (b':' ∷ decimal (i % keys))

-- `"x".repeat(opts.value)`.
unfoldable pub repeat_x : ℕ → List ℕ
repeat_x zero = []
repeat_x (suc n) = b'x' ∷ repeat_x n

abbrev newline : List ℕ
newline = 10 ∷ []

unfoldable pub set_line : List ℕ → List ℕ → List ℕ
set_line k value = codes "SET " ++ (k ++ (32 ∷ (value ++ newline)))

unfoldable pub get_line : List ℕ → List ℕ
get_line k = codes "GET " ++ (k ++ newline)

-- The command that stands at place `p` of a batch.
unfoldable pub command : Workload → ℕ → List ℕ → List ℕ → List ℕ
command get p k value = get_line k
command set p k value = set_line k value
command incr p k value = codes "INCR " ++ (k ++ newline)
command ping p k value = codes "PING" ++ newline
command mix p k value = if p % 2 == 0 then set_line k value else get_line k

-- A batch: `n` more commands from place `p` on, and the generator after them.
unfoldable pub build : Workload → (ℕ → List ℕ) → List ℕ → ℕ → ℕ → ℕ → List ℕ × ℕ
build w k value zero p rng = ([], rng)
build w k value (suc n) p rng =
    let rest = build w k value n (suc p) (next rng) in
    (command w p (k (next rng)) value ++ rest.0, rest.1)

-- `Conn`: the server's state, and the lines that have been answered and not read.
pub record Conn (S : Type 0) : Type 0 where
  pub server : S
  pub pending : List (List ℕ)

-- The loop of `Conn::round` that reads `n` lines: the last one, and the lines left.
unfoldable pub read_lines : ℕ → List ℕ → List (List ℕ) → Option (List ℕ × List (List ℕ))
read_lines zero scratch pending = some (scratch, pending)
read_lines (suc n) scratch [] = none
read_lines (suc n) scratch (line ∷ pending) = read_lines n line pending

abbrev pub received : {S : Type 0} → S → Option (List ℕ × List (List ℕ)) → Option (List ℕ × Conn S)
received s none = none
received s (some (scratch, pending)) = some (scratch, record { server = s; pending = pending })

module _ {S : Type 0} (respond : List ℕ → S → Option (List (List ℕ)) × S) where
  -- `Conn::round`: `scratch` and the connection after it, or none for an error.
  unfoldable pub round : List ℕ → ℕ → List ℕ → Conn S → Option (List ℕ × Conn S)
  round batch n scratch conn =
      let (answer, s) = respond batch conn.server in
      elim answer [
        | none ↦ none
        | some lines ↦ received s (read_lines n scratch (conn.pending ++ lines))
      ]

  -- The warming of `n` keys from number `i` on: `scratch` and the connection after it.
  unfoldable pub warm : (ℕ → List ℕ) → List ℕ → ℕ → ℕ → List ℕ → Conn S → Option (List ℕ × Conn S)
  warm k value zero i scratch conn = some (scratch, conn)
  warm k value (suc n) i scratch conn = elim (round (set_line (k i) value) 1 scratch conn) [
    | none ↦ none
    | some (scratch1, conn1) ↦ warm k value n (suc i) scratch1 conn1
  ]

-- `struct ConnResult`.
pub record ConnResult : Type 0 where
  pub latencies : List ℕ
  pub ops : ℕ
  pub mismatches : ℕ

-- The check on the last reply of a batch: one more mismatch, or none.
unfoldable pub mismatch : Workload → ℕ → List ℕ → ℕ
mismatch get value scratch = if length (trim_end scratch) == value then 0 else 1
mismatch ping value scratch = if same_text (trim_end scratch) (codes "PONG") then 0 else 1
mismatch set value scratch = 0
mismatch incr value scratch = 0
mismatch mix value scratch = 0

-- The end of a turn of `run_conn`.
unfoldable pub note : Workload → ℕ → ℕ → ℕ → List ℕ → ConnResult → ConnResult
note w value pipeline elapsed scratch result = record {
  latencies = result.latencies ++ (elapsed ∷ []);
  ops = add_u64 result.ops pipeline;
  mismatches = add_u64 result.mismatches (mismatch w value scratch);
}

abbrev pub warms : Workload → Bool
warms get = true
warms mix = true
warms set = false
warms incr = false
warms ping = false

module _ {A S : Type 0} (respond : List ℕ → S → Option (List (List ℕ)) × S) (opts : Opts A)
    (id : ℕ) where
  abbrev key_of : ℕ → List ℕ
  key_of = key id opts.keys

  abbrev value_text : List ℕ
  value_text = repeat_x opts.value

  -- The timed loop of `run_conn`, a turn for each entry of the list: the nanoseconds that it takes.
  unfoldable pub timed : List ℕ → ℕ → List ℕ → Conn S → ConnResult → Option (ConnResult × Conn S)
  timed [] rng scratch conn result = some (result, conn)
  timed (elapsed ∷ turns) rng scratch conn result =
      let (batch, rng1) = build opts.workload key_of value_text opts.pipeline 0 rng in
      elim (round respond batch opts.pipeline scratch conn) [
        | none ↦ none
        | some (scratch1, conn1) ↦
            timed turns rng1 scratch1 conn1
              (note opts.workload opts.value opts.pipeline elapsed scratch1 result)
      ]

  -- `run_conn` once its connection is open; none for an error.
  unfoldable pub run_conn : List ℕ → Conn S → Option (ConnResult × Conn S)
  run_conn turns conn =
      let warmed =
        if warms opts.workload
        then warm respond key_of value_text opts.keys 0 [] conn
        else some ([], conn) in
      elim warmed [
        | none ↦ none
        | some (scratch, conn1) ↦
            timed turns (seed id) scratch conn1 (record { latencies = []; ops = 0; mismatches = 0 })
      ]

-- The sums of `main` over the results of the connections.
pub record Report : Type 0 where
  pub all : List ℕ
  pub ops : ℕ
  pub failed : ℕ
  pub mismatches : ℕ

-- The loop of `main` over the workers, whose errors are none.
unfoldable pub tally : List (Option ConnResult) → Report → Report
tally [] report = report
tally (none ∷ results) report = tally results (record report { failed = add_u64 report.failed 1 })
tally (some result ∷ results) report = tally results (record report {
  all = report.all ++ result.latencies;
  ops = add_u64 report.ops result.ops;
  mismatches = add_u64 report.mismatches result.mismatches;
})
