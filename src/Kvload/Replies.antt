-- ===== src/Kvload/Replies.antt =====
-- examples/kvload.rs and crates/deadpool-baseline/examples/redis_proxy.rs: what the server answers to a
-- batch, over a Redis that is a store.
use compio_pool.Prelude.{
  ℕ, zero, suc, Bool, true, false, Option, some, inr, ◌≡◌, refl, sym, ap, subst, ◌∙◌, ◌%◌, ◌==◌,
  List, [], ◌∷◌, ◌++◌, map, concat, arith, if◌then◌else◌,
}
use mathlib.Core.List.{append-nil}
use compio_pool.Prelude.Text.{codes, split_lines, trim_end_newline}
use compio_pool.Redis.{Redis, settle, or_nil, done, run, handle, proxy}
use compio_pool.Kvload.{
  Workload, get, set, incr, ping, mix, get_line, set_line, command, build, next,
}
use compio_pool.Kvload.Commands.{
  IsWord, run_get_line, run_set_line, run_ping_line, cut_get_line, cut_set_line, cut_ping_line,
}
use compio_pool.Kvload.Batches.{
  IsLine, command-IsLine, set_line-IsLine, split_lines-IsLine, split_lines-replies, IsStore, Filled,
  Ready, reply_at, replies,
}

abbrev pub ok : List ℕ
ok = codes "OK" ++ (10 ∷ [])

module _ {S : Type 0} {redis : Redis S} {value_of : S → List ℕ → Option (List ℕ)}
    (debug : List ℕ → List ℕ) (store : IsStore redis value_of) where
  get_kept :
      (k : ℕ → List ℕ) (value j : List ℕ) (s : S)
      → Filled redis value_of k value s
      → Filled redis value_of k value (redis.get j s).1
  get_kept k value j s filled i = store.got_keeps j (k i) s ∙ filled i

  set_kept :
      (k : ℕ → List ℕ) (value j : List ℕ) (s : S)
      → Filled redis value_of k value s
      → Filled redis value_of k value (redis.set j value s).1
  set_kept k value j s filled i = store.stored_as j value (k i) s ∙ ground (arith, filled i)

  get_answer :
      (k value : List ℕ) (s : S)
      → IsWord k
      → value_of s k ≡ some value
      → run redis debug (trim_end_newline (get_line k)) s
        ≡ ((value ++ (10 ∷ []), false), (redis.get k s).1)
  unfolding settle
  get_answer k value s h filled =
      ap (λ line. run redis debug line s) (cut_get_line k h)
      ∙ run_get_line redis debug k s h
      ∙ ap (λ a. (settle (or_nil a), (redis.get k s).1)) (store.got k s ∙ ap inr filled)

  set_answer :
      (k value : List ℕ) (s : S)
      → IsWord k
      → IsWord value
      → run redis debug (trim_end_newline (set_line k value)) s
        ≡ ((codes "OK" ++ (10 ∷ []), false), (redis.set k value s).1)
  unfolding settle
  set_answer k value s h h' =
      ap (λ line. run redis debug line s) (cut_set_line k value h h')
      ∙ run_set_line redis debug k value s h h'
      ∙ ap (λ a. (settle (done a), (redis.set k value s).1)) (store.stored k value s)

  ping_answer :
      (s : S)
      → run redis debug (trim_end_newline (codes "PING" ++ (10 ∷ []))) s
        ≡ ((codes "PONG" ++ (10 ∷ []), false), (redis.ping s).1)
  unfolding settle
  ping_answer s =
      ap (λ line. run redis debug line s) cut_ping_line
      ∙ run_ping_line redis debug s
      ∙ ap (λ a. (settle a, (redis.ping s).1)) (store.ponged s)

  -- The command at place `p`, as the server runs it: its answer, and what stays true after it.
  record Answers (w : Workload) (k : ℕ → List ℕ) (value reply line : List ℕ) (s : S) : Type 0 where
    pub answer : (run redis debug (trim_end_newline line) s).0 ≡ (reply, false)
    pub after : Ready redis value_of w k value (run redis debug (trim_end_newline line) s).1

  answered :
      {w : Workload} {k : ℕ → List ℕ} {value reply line : List ℕ} {s s1 : S}
      → run redis debug (trim_end_newline line) s ≡ ((reply, false), s1)
      → Ready redis value_of w k value s1
      → Answers w k value reply line s
  answered {w = w} {k = k} {value = value} e ready = record {
    answer = ap (λ r. r.0) e;
    after = subst (λ r. Ready redis value_of w k value r.1) (sym e) ready;
  }

  command_answered :
      (w : Workload) (p i : ℕ) (k : ℕ → List ℕ) (value : List ℕ) (s : S)
      → IsWord (k i)
      → IsWord value
      → Ready redis value_of w k value s
      → Answers w k value (reply_at w p value) (command w p (k i) value) s
  unfolding command
  command_answered get p i k value s h h' ready =
      answered (get_answer (k i) value s h (ready i)) (get_kept k value (k i) s ready)
  command_answered set p i k value s h h' ready = answered (set_answer (k i) value s h h') tt
  command_answered incr p i k value s h h' ready = elim ready [ ]
  command_answered ping p i k value s h h' ready = answered (ping_answer s) tt
  command_answered mix p i k value s h h' ready = mixed (p % 2 == 0)
    where
      mixed :
          (test : Bool)
          → Answers mix k value
              (if test then codes "OK" ++ (10 ∷ []) else value ++ (10 ∷ []))
              (if test then set_line (k i) value else get_line (k i))
              s
      mixed true = answered (set_answer (k i) value s h h') (set_kept k value (k i) s ready)
      mixed false = answered (get_answer (k i) value s h (ready i)) (get_kept k value (k i) s ready)

  abbrev sent : List (List ℕ) → List (List ℕ × Bool)
  sent lines = map (λ line. (line, true)) lines

  handle_one :
      (line rest reply : List ℕ) (s : S)
      → IsLine line
      → (run redis debug (trim_end_newline line) s).0 ≡ (reply, false)
      → handle redis debug (sent (split_lines (line ++ rest))) s ≡ (
        reply
            ∷ (handle redis debug
                (sent (split_lines rest))
                (run redis debug (trim_end_newline line) s).1).0,
        (handle redis debug
            (sent (split_lines rest))
            (run redis debug (trim_end_newline line) s).1).1,
      )
  unfolding handle
  handle_one line rest reply s h answer =
      ap (λ lines. handle redis debug (sent lines) s) (split_lines-IsLine line rest h)
      ∙ (ap
          (λ a.
            let more =
              handle redis debug (sent (split_lines rest))
                (run redis debug (trim_end_newline line) s).1 in
            (
              a.0 ∷ (if a.1 then [] else more.0),
              if a.1 then (run redis debug (trim_end_newline line) s).1 else more.1,
            ))
          answer)

  -- A batch on the server: every command is answered, in order.
  record Serves (w : Workload) (n p : ℕ) (k : ℕ → List ℕ) (value batch : List ℕ) (s : S)
      : Type 0 where
    pub answers : (handle redis debug (sent (split_lines batch)) s).0 ≡ replies w n p value
    pub after : Ready redis value_of w k value (handle redis debug (sent (split_lines batch)) s).1

  serve_one :
      (w : Workload) (n p : ℕ) (k : ℕ → List ℕ) (value line rest : List ℕ) (s : S)
      → IsLine line
      → Answers w k value (reply_at w p value) line s
      → Serves w n (suc p) k value rest (run redis debug (trim_end_newline line) s).1
      → Serves w (suc n) p k value (line ++ rest) s
  serve_one w n p k value line rest s h a served =
      let e = handle_one line rest (reply_at w p value) s h a.answer in
      record {
        answers = ap (λ r. r.0) e ∙ ap (λ t. reply_at w p value ∷ t) served.answers;
        after = subst (λ r. Ready redis value_of w k value r.1) (sym e) served.after;
      }

  serve_build :
      (w : Workload) (n p : ℕ) (k : ℕ → List ℕ) (value : List ℕ) (rng : ℕ) (s : S)
      → ((i : ℕ) → IsWord (k i))
      → IsWord value
      → Ready redis value_of w k value s
      → Serves w n p k value (build w k value n p rng).0 s
  unfolding build
  serve_build w zero p k value rng s h h' ready = record {
    answers = unfold handle split_lines in refl;
    after = unfold handle split_lines in ready;
  }
  serve_build w (suc n) p k value rng s h h' ready =
      let a = command_answered w p (next rng) k value s (h (next rng)) h' ready in
      serve_one w n p k value (command w p (k (next rng)) value)
        (build w k value n (suc p) (next rng)).0 s
        (command-IsLine w p (k (next rng)) value (h (next rng)) h') a
        (serve_build w n (suc p) k value (next rng)
          (run redis debug (trim_end_newline (command w p (k (next rng)) value)) s).1 h h' a.after)

  -- What the client reads for a batch, and what stays true on the server.
  pub record Responds (w : Workload) (n : ℕ) (k : ℕ → List ℕ) (value batch : List ℕ) (s : S)
      : Type 0 where
    pub lines : (proxy redis debug batch s).0 ≡ some (replies w n 0 value)
    pub after : Ready redis value_of w k value (proxy redis debug batch s).1

  pub build-Responds :
      (w : Workload) (n : ℕ) (k : ℕ → List ℕ) (value : List ℕ) (rng : ℕ) (s : S)
      → ((i : ℕ) → IsWord (k i))
      → IsWord value
      → Ready redis value_of w k value s
      → Responds w n k value (build w k value n 0 rng).0 s
  unfolding proxy
  build-Responds w n k value rng s h h' ready =
      let served = serve_build w n 0 k value rng s h h' ready in
      record {
        lines =
            ap (λ r. some (split_lines (concat r))) served.answers
            ∙ ap some (split_lines-replies w n 0 value h');
        after = served.after;
      }

  handle_end : (s : S) → handle redis debug (sent (split_lines [])) s ≡ ([], s)
  unfolding handle split_lines
  handle_end s = refl

  -- A key that is warmed.
  pub set_responds :
      (k value : List ℕ) (s : S)
      → IsWord k
      → IsWord value
      → proxy redis debug (set_line k value) s ≡ (some (ok ∷ []), (redis.set k value s).1)
  unfolding proxy split_lines
  set_responds k value s h h' =
      let e = set_answer k value s h h' in
      ap (λ r. (some (split_lines (concat r.0)), r.1))
        (ap (λ t. handle redis debug (sent (split_lines t)) s) (sym (append-nil (set_line k value)))
          ∙ handle_one (set_line k value) [] ok s (set_line-IsLine k value h h') (ap (λ r. r.0) e)
          ∙ ap (λ r. (ok ∷ r.0, r.1))
              (handle_end (run redis debug (trim_end_newline (set_line k value)) s).1)
          ∙ ap (λ r. (ok ∷ [], r.1)) e)
