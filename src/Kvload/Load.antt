-- ===== src/Kvload/Load.antt =====
-- examples/kvload.rs, `run_conn` against crates/deadpool-baseline/examples/redis_proxy.rs: what the load
-- generator reports of a server whose Redis is a store.
use compio_pool.Prelude.{
  ℕ, Bool, Option, none, some, ◌≡◌, ◌≢◌, refl, sym, ap, subst, ◌∙◌, ◌+◌, ◌*◌, ◌%◌, ◌<◌, List, [],
  ◌∷◌, ◌++◌, length, arith, u64_mod, if◌then◌else◌,
}
use mathlib.Core.List.{append_assoc, append-nil}
use native.Mathlib.Nat.{mod-lt, mod-add-mod, mod-eq_of_lt, suc-mul}
use compio_pool.Redis.{Redis, proxy}
use compio_pool.Kvload.{
  Workload, get, set, incr, ping, mix, Opts, key, repeat_x, build, next, seed, Conn, round, warm,
  ConnResult, note, timed, run_conn, warms,
}
use compio_pool.Kvload.Commands.{key-IsWord}
use compio_pool.Kvload.Batches.{IsStore, Filled, Ready, reply_at}
use compio_pool.Kvload.Warm.{server, repeat_x-IsWord, filled_all, warm-Warmed}
use compio_pool.Kvload.Rounds.{reply_matches, Next, round-Next}

-- What a connection starts from.
abbrev pub started : ConnResult
started = record { latencies = []; ops = 0; mismatches = 0 }

module _ {S : Type 0} {redis : Redis S} {value_of : S → List ℕ → Option (List ℕ)}
    (debug : List ℕ → List ℕ) (store : IsStore redis value_of) where
  -- What `timed` ends with: no mismatch, and every turn counted.
  pub record Clean (turns : List ℕ) (pipeline : ℕ) (start : ConnResult)
      (outcome : Option (ConnResult × Conn S)) : Type 0 where
    pub result : ConnResult
    pub conn : Conn S
    pub same : outcome ≡ some (result, conn)
    pub latencies : result.latencies ≡ start.latencies ++ turns
    pub ops : result.ops ≡ (start.ops + length turns * pipeline) % u64_mod
    pub mismatches : result.mismatches ≡ 0

  module _ {A : Type 0} (opts : Opts A) (id : ℕ) (value_pos : 0 < opts.value)
      (pipeline_pos : 0 < opts.pipeline) where
    abbrev key_of : ℕ → List ℕ
    key_of = key id opts.keys

    abbrev value : List ℕ
    value = repeat_x opts.value

    keep-Ready :
        {w v : Workload} (s : S)
        → w ≡ v
        → Ready redis value_of w key_of value s
        → Ready redis value_of v key_of value s
    keep-Ready s e ready = subst (λ u. Ready redis value_of u key_of value s) e ready

    batch-Next :
        (scratch : List ℕ) (rng : ℕ) (s : S)
        → Ready redis value_of opts.workload key_of value s
        → Next debug store opts.workload key_of value (
            round
              (proxy redis debug)
              (build opts.workload key_of value opts.pipeline 0 rng).0
              opts.pipeline
              scratch
              (server s))
    batch-Next scratch rng s ready =
        round-Next debug store opts.workload opts.pipeline key_of value scratch rng s
          (key-IsWord id opts.keys) (repeat_x-IsWord opts.value value_pos) pipeline_pos ready

    note-Clean :
        (elapsed : ℕ) (turns : List ℕ) (place : ℕ) (start : ConnResult)
        (outcome : Option (ConnResult × Conn S))
        → Clean turns opts.pipeline
            (note opts.workload opts.value opts.pipeline elapsed
              (reply_at opts.workload place value)
              start)
            outcome
        → Clean (elapsed ∷ turns) opts.pipeline start outcome
    unfolding note
    note-Clean elapsed turns place start outcome c = record {
      result = c.result;
      conn = c.conn;
      same = c.same;
      latencies = c.latencies ∙ append_assoc start.latencies (elapsed ∷ []) turns;
      ops =
          c.ops
          ∙ mod-add-mod (start.ops + opts.pipeline) u64_mod (length turns * opts.pipeline)
          ∙ ap (λ n. n % u64_mod) (omega (arith, suc-mul (length turns) opts.pipeline));
      mismatches = c.mismatches;
    }

    noted :
        (elapsed place : ℕ) (start : ConnResult)
        → start.mismatches ≡ 0
        → (note opts.workload opts.value opts.pipeline elapsed
            (reply_at opts.workload place value)
            start).mismatches
          ≡ 0
    unfolding note
    noted elapsed place start none_yet =
        ground (arith, reply_matches opts.workload place opts.value, none_yet)

    timed-Clean :
        (turns : List ℕ) (rng : ℕ) (scratch : List ℕ) (s : S) (start : ConnResult)
        → Ready redis value_of opts.workload key_of value s
        → start.ops < u64_mod
        → start.mismatches ≡ 0
        → Clean turns opts.pipeline start
            (timed (proxy redis debug) opts id turns rng scratch (server s) start)
    unfolding timed
    timed-Clean [] rng scratch s start ready small none_yet = record {
      result = start;
      conn = server s;
      same = refl;
      latencies = sym (append-nil start.latencies);
      ops = sym (mod-eq_of_lt (omega (arith, small))) ∙ ap (λ n. n % u64_mod) (omega arith);
      mismatches = none_yet;
    }
    timed-Clean (elapsed ∷ turns) rng scratch s start ready small none_yet =
        let b = batch-Next scratch rng s ready in
        let reply = reply_at opts.workload b.place value in
        let rng1 = (build opts.workload key_of value opts.pipeline 0 rng).1 in
        subst
          (λ r. Clean (elapsed ∷ turns) opts.pipeline start (elim r [
            | none ↦ none
            | some next ↦
                timed (proxy redis debug) opts id turns rng1 next.0 next.1
                  (note opts.workload opts.value opts.pipeline elapsed next.0 start)
          ]))
          (sym b.same)
          (note-Clean elapsed turns b.place start _ (
            timed-Clean turns rng1 reply b.state
              (note opts.workload opts.value opts.pipeline elapsed reply start) b.ready
              (unfold note in mod-lt (start.ops + opts.pipeline) (omega arith))
              (noted elapsed b.place start none_yet)))

    from_start :
        (turns : List ℕ) (rng : ℕ) (scratch : List ℕ) (s : S)
        → Ready redis value_of opts.workload key_of value s
        → Clean turns opts.pipeline started
            (timed (proxy redis debug) opts id turns rng scratch (server s) started)
    from_start turns rng scratch s ready =
        timed-Clean turns rng scratch s started ready (omega arith) refl

    after_warm :
        (turns : List ℕ) (s : S)
        → 0 < opts.keys
        → ((after : S)
            → Filled redis value_of key_of value after
            → Ready redis value_of opts.workload key_of value after)
        → Clean turns opts.pipeline started
            (elim (warm (proxy redis debug) key_of value opts.keys 0 [] (server s)) [
              | none ↦ none
              | some next ↦ timed (proxy redis debug) opts id turns (seed id) next.0 next.1 started
            ])
    after_warm turns s keys_pos enough =
        let warmed =
          warm-Warmed debug store key_of value opts.keys 0 [] s (key-IsWord id opts.keys)
            (repeat_x-IsWord opts.value value_pos) (λ j lt. absurd (omega arith)) in
        subst
          (λ r. Clean turns opts.pipeline started (elim r [
            | none ↦ none
            | some next ↦ timed (proxy redis debug) opts id turns (seed id) next.0 next.1 started
          ]))
          (sym warmed.same)
          (from_start turns (seed id) warmed.scratch warmed.state (
            enough warmed.state (
              filled_all value_of id opts.keys value warmed.state keys_pos
                (λ j lt. warmed.filled j (omega arith)))))

    abbrev begin : Bool → S → Option (List ℕ × Conn S)
    begin first s =
        if first
        then warm (proxy redis debug) key_of value opts.keys 0 [] (server s)
        else some ([], server s)

    abbrev outcome : List ℕ → Workload → S → Option (ConnResult × Conn S)
    outcome turns w s = elim (begin (warms w) s) [
      | none ↦ none
      | some next ↦ timed (proxy redis debug) opts id turns (seed id) next.0 next.1 started
    ]

    by_workload :
        (w : Workload) (turns : List ℕ) (s : S)
        → opts.workload ≡ w
        → 0 < opts.keys
        → w ≢ incr
        → Clean turns opts.pipeline started (outcome turns w s)
    by_workload get turns s e keys_pos counts =
        after_warm turns s keys_pos (λ after filled. keep-Ready after (sym e) filled)
    by_workload mix turns s e keys_pos counts =
        after_warm turns s keys_pos (λ after filled. keep-Ready after (sym e) filled)
    by_workload set turns s e keys_pos counts =
        from_start turns (seed id) [] s (keep-Ready s (sym e) tt)
    by_workload ping turns s e keys_pos counts =
        from_start turns (seed id) [] s (keep-Ready s (sym e) tt)
    by_workload incr turns s e keys_pos counts = absurd (counts refl)

    -- Against this server, whose Redis answers and gives back under a key what was stored last, a
    -- connection of the load generator ends without an error and counts no mismatch, whatever the server
    -- held before; its latencies are the times of its turns, and its operations `pipeline` a turn, modulo
    -- 2^64. The workload is not incr, and the value, the keys and the pipeline are not zero.
    pub run_conn-Clean :
        (turns : List ℕ) (s : S)
        → 0 < opts.keys
        → opts.workload ≢ incr
        → Clean turns opts.pipeline started (run_conn (proxy redis debug) opts id turns (server s))
    unfolding run_conn
    run_conn-Clean turns s keys_pos counts = by_workload opts.workload turns s refl keys_pos counts
