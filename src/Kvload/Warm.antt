-- ===== src/Kvload/Warm.antt =====
-- examples/kvload.rs, `run_conn`: the warming of the keys against
-- crates/deadpool-baseline/examples/redis_proxy.rs, over a Redis that is a store.
use compio_pool.Prelude.{
  ℕ, zero, suc, Option, none, some, inl, inr, ◌≡◌, refl, sym, ap, subst, ◌∙◌, ◌+◌, ◌%◌, ◌<◌, List,
  [], ◌∷◌, ◌++◌, arith, Bool-cases, ltb, if◌then◌else◌,
}
use native.Mathlib.Nat.{mod-lt, mod-mod}
use compio_pool.Prelude.Text.{same_text, same_text_refl, decimal}
use compio_pool.Redis.{Redis, proxy}
use compio_pool.Kvload.{key, repeat_x, set_line, next, Conn, read_lines, round, received, warm}
use compio_pool.Kvload.Commands.{IsWord, repeat_x_plain}
use compio_pool.Kvload.Batches.{IsStore}
use compio_pool.Kvload.Replies.{ok, set_responds}

-- The value.
pub repeat_x-IsWord : (n : ℕ) → 0 < n → IsWord (repeat_x n)
unfolding repeat_x
repeat_x-IsWord zero pos = absurd (omega arith)
repeat_x-IsWord (suc n) pos = record { plain_all = repeat_x_plain (suc n); full = λ e. cc }

-- The keys of a connection come round.
key_round : (id keys i : ℕ) → key id keys i ≡ key id keys (i % keys)
unfolding key
key_round id keys i = ap (λ j. decimal id ++ (b':' ∷ decimal j)) (sym (mod-mod i keys))

-- Every key below `n` has the value.
abbrev pub FilledBelow :
    {S : Type 0} → (S → List ℕ → Option (List ℕ)) → (ℕ → List ℕ) → List ℕ → ℕ → S → Type 0
FilledBelow value_of k value n s = (j : ℕ) → j < n → value_of s (k j) ≡ some value

pub filled_all :
    {S : Type 0} (value_of : S → List ℕ → Option (List ℕ)) (id keys : ℕ) (value : List ℕ) (s : S)
    → 0 < keys
    → FilledBelow value_of (key id keys) value keys s
    → (i : ℕ) → value_of s (key id keys i) ≡ some value
filled_all value_of id keys value s pos below i =
    ap (value_of s) (key_round id keys i) ∙ below (i % keys) (mod-lt i pos)

abbrev pub server : {S : Type 0} → S → Conn S
server s = record { server = s; pending = [] }

module _ {S : Type 0} {redis : Redis S} {value_of : S → List ℕ → Option (List ℕ)}
    (debug : List ℕ → List ℕ) (store : IsStore redis value_of) where
  set_round :
      (k value scratch : List ℕ) (s : S)
      → IsWord k
      → IsWord value
      → round (proxy redis debug) (set_line k value) 1 scratch (server s)
        ≡ some (ok, server (redis.set k value s).1)
  unfolding round read_lines
  set_round k value scratch s h h' =
      ap (λ r. elim r.0 [ none ↦ none | some lines ↦ received r.1 (read_lines 1 scratch lines) ])
        (set_responds debug store k value s h h')

  set_below :
      (k : ℕ → List ℕ) (value : List ℕ) (i : ℕ) (s : S)
      → FilledBelow value_of k value i s
      → FilledBelow value_of k value (suc i) (redis.set (k i) value s).1
  set_below k value i s filled j lt = elim (Bool-cases (ltb j i)) [
    | inl less ↦
        store.stored_as (k i) value (k j) s ∙ ground (arith, filled j (ground (arith, less)))
    | inr other ↦
        let same : j ≡ i = ground (arith, lt, other) in
        store.stored_as (k i) value (k j) s
        ∙ ap (λ b. if b then some value else value_of s (k j))
            (ap (λ m. same_text (k i) (k m)) same ∙ same_text_refl (k i))
  ]

  -- The warming: every key is set.
  pub record Warmed (k : ℕ → List ℕ) (value : List ℕ) (n : ℕ) (outcome : Option (List ℕ × Conn S))
      : Type 0 where
    pub scratch : List ℕ
    pub state : S
    pub same : outcome ≡ some (scratch, server state)
    pub filled : FilledBelow value_of k value n state

  pub warm-Warmed :
      (k : ℕ → List ℕ) (value : List ℕ) (n i : ℕ) (scratch : List ℕ) (s : S)
      → ((j : ℕ) → IsWord (k j))
      → IsWord value
      → FilledBelow value_of k value i s
      → Warmed k value (n + i) (warm (proxy redis debug) k value n i scratch (server s))
  unfolding warm
  warm-Warmed k value zero i scratch s h h' filled = record {
    scratch = scratch;
    state = s;
    same = refl;
    filled = λ j lt. filled j (omega arith);
  }
  warm-Warmed k value (suc n) i scratch s h h' filled =
      subst
        (λ r. Warmed k value (suc n + i) (elim r [
          | none ↦ none
          | some next ↦ warm (proxy redis debug) k value n (suc i) next.0 next.1
        ]))
        (sym (set_round (k i) value scratch s (h i) h'))
        (subst
          (λ m.
            Warmed k value m
              (warm (proxy redis debug) k value n (suc i) ok (server (redis.set (k i) value s).1)))
          (omega arith)
          (warm-Warmed k value n (suc i) ok (redis.set (k i) value s).1 h h'
            (set_below k value i s filled)))
