-- ===== src/Kvload/Rounds.antt =====
-- examples/kvload.rs, `Conn::round` on a batch, against
-- crates/deadpool-baseline/examples/redis_proxy.rs over a Redis that is a store.
use compio_pool.Prelude.{
  ℕ, zero, suc, true, Option, none, some, ◌≡◌, refl, ap, ◌∙◌, ◌+◌, ◌<◌, List, [], ◌∷◌, ◌++◌, length,
  arith,
}
use compio_pool.Prelude.Text.{trim_end}
use compio_pool.Prelude.Decimal.{all}
use compio_pool.Redis.{Redis, proxy}
use compio_pool.Kvload.{
  Workload, get, set, incr, ping, mix, repeat_x, build, Conn, read_lines, round, received, mismatch,
}
use compio_pool.Kvload.Commands.{IsWord, plain, repeat_x_plain}
use compio_pool.Kvload.Batches.{IsStore, Ready, reply_at, replies}
use compio_pool.Kvload.Replies.{build-Responds}
use compio_pool.Kvload.Warm.{server}

length-repeat_x : (n : ℕ) → length (repeat_x n) ≡ n
unfolding repeat_x
length-repeat_x zero = refl
length-repeat_x (suc n) = ap suc (length-repeat_x n)

trim_end_word : (w : List ℕ) → all plain w ≡ true → trim_end (w ++ (10 ∷ [])) ≡ w
unfolding trim_end
trim_end_word [] h = refl
trim_end_word (c ∷ w) h = ground (arith, trim_end_word w)

-- The check on a reply finds nothing wrong.
pub reply_matches : (w : Workload) (p n : ℕ) → mismatch w n (reply_at w p (repeat_x n)) ≡ 0
unfolding mismatch trim_end
reply_matches get p n =
    ground (arith, trim_end_word (repeat_x n) (repeat_x_plain n), length-repeat_x n)
reply_matches set p n = refl
reply_matches incr p n = refl
reply_matches ping p n = refl
reply_matches mix p n = refl

-- As many lines as commands are read, and none is left.
read_replies :
    (w : Workload) (n p : ℕ) (value scratch : List ℕ)
    → read_lines (suc n) scratch (replies w (suc n) p value) ≡ some (reply_at w (n + p) value, [])
unfolding read_lines
read_replies w zero p value scratch = ap (λ q. some (reply_at w q value, [])) (omega arith)
read_replies w (suc n) p value scratch =
    read_replies w n (suc p) value (reply_at w p value)
    ∙ ap (λ q. some (reply_at w q value, [])) (omega arith)

module _ {S : Type 0} {redis : Redis S} {value_of : S → List ℕ → Option (List ℕ)}
    (debug : List ℕ → List ℕ) (store : IsStore redis value_of) where
  batch_round :
      (w : Workload) (n : ℕ) (k : ℕ → List ℕ) (value scratch : List ℕ) (rng : ℕ) (s : S)
      → ((i : ℕ) → IsWord (k i))
      → IsWord value
      → Ready redis value_of w k value s
      → round (proxy redis debug) (build w k value (suc n) 0 rng).0 (suc n) scratch (server s)
        ≡ some (
          reply_at w (n + 0) value,
          server (proxy redis debug (build w k value (suc n) 0 rng).0 s).1,
        )
  unfolding round
  batch_round w n k value scratch rng s h h' ready =
      let batch = (build w k value (suc n) 0 rng).0 in
      let e = (build-Responds debug store w (suc n) k value rng s h h' ready).lines in
      ap
        (λ a. elim a [
          | none ↦ none
          | some lines ↦ received (proxy redis debug batch s).1 (read_lines (suc n) scratch lines)
        ])
        e
      ∙ ap (λ r. received (proxy redis debug batch s).1 r) (read_replies w n 0 value scratch)

  -- A turn: the reply that is looked at, and the server after it.
  pub record Next (w : Workload) (k : ℕ → List ℕ) (value : List ℕ)
      (outcome : Option (List ℕ × Conn S)) : Type 0 where
    pub place : ℕ
    pub state : S
    pub same : outcome ≡ some (reply_at w place value, server state)
    pub ready : Ready redis value_of w k value state

  pub round-Next :
      (w : Workload) (n : ℕ) (k : ℕ → List ℕ) (value scratch : List ℕ) (rng : ℕ) (s : S)
      → ((i : ℕ) → IsWord (k i))
      → IsWord value
      → 0 < n
      → Ready redis value_of w k value s
      → Next w k value (round (proxy redis debug) (build w k value n 0 rng).0 n scratch (server s))
  round-Next w zero k value scratch rng s h h' pos ready = absurd (omega arith)
  round-Next w (suc n) k value scratch rng s h h' pos ready = record {
    place = n + 0;
    state = (proxy redis debug (build w k value (suc n) 0 rng).0 s).1;
    same = batch_round w n k value scratch rng s h h' ready;
    ready = (build-Responds debug store w (suc n) k value rng s h h' ready).after;
  }
