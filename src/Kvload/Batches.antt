-- ===== src/Kvload/Batches.antt =====
-- examples/kvload.rs and crates/deadpool-baseline/examples/redis_proxy.rs: a batch of commands, and the
-- replies to it.
use compio_pool.Prelude.{
  ℕ, zero, suc, Bool, true, false, Option, none, some, inr, ◌≡◌, refl, sym, ap, ◌∙◌, ◌%◌, ◌==◌,
  List, [], ◌∷◌, ◌++◌, concat, arith, if◌then◌else◌,
}
use mathlib.Core.List.{append_assoc}
use compio_pool.Prelude.Text.{codes, same_text, split_lines}
use compio_pool.Prelude.Decimal.{all, all-append}
use compio_pool.Redis.{Redis}
use compio_pool.Kvload.{Workload, get, set, incr, ping, mix, get_line, set_line, command}
use compio_pool.Kvload.Commands.{IsWord, inside, plain_inside}

-- A line with its newline, and no other.
pub record IsLine (line : List ℕ) : Type 0 where
  pub text : List ℕ
  pub ends : line ≡ text ++ (10 ∷ [])
  pub one : all inside text ≡ true

split_lines_text :
    (text rest : List ℕ)
    → all inside text ≡ true
    → split_lines (text ++ (10 ∷ rest)) ≡ (text ++ (10 ∷ [])) ∷ split_lines rest
unfolding split_lines
split_lines_text [] rest h = refl
split_lines_text (c ∷ text) rest h = ground (arith, split_lines_text text rest)

pub split_lines-IsLine :
    (line rest : List ℕ) → IsLine line → split_lines (line ++ rest) ≡ line ∷ split_lines rest
split_lines-IsLine line rest h =
    ap (λ t. split_lines (t ++ rest)) h.ends
    ∙ ap split_lines (append_assoc h.text (10 ∷ []) rest)
    ∙ split_lines_text h.text rest h.one
    ∙ ap (λ t. t ∷ split_lines rest) (sym h.ends)

pub get_line-IsLine : (k : List ℕ) → IsWord k → IsLine (get_line k)
unfolding get_line
get_line-IsLine k h = record {
  text = codes "GET " ++ k;
  ends = refl;
  one = plain_inside k h.plain_all;
}

pub set_line-IsLine : (k value : List ℕ) → IsWord k → IsWord value → IsLine (set_line k value)
unfolding set_line
set_line-IsLine k value h h' = record {
  text = codes "SET " ++ (k ++ (32 ∷ value));
  ends = ap (λ t. codes "SET " ++ t) (sym (append_assoc k (32 ∷ value) (10 ∷ [])));
  one = ground (
    arith,
    all-append inside k (32 ∷ value),
    plain_inside k h.plain_all,
    plain_inside value h'.plain_all,
  );
}

module _ {S : Type 0} (redis : Redis S) (value_of : S → List ℕ → Option (List ℕ)) where
  -- Redis as a store: it answers, with what was stored last under a key.
  pub record IsStore : Type 0 where
    pub got : (k : List ℕ) (s : S) → (redis.get k s).0 ≡ inr (value_of s k)
    pub got_keeps : (k j : List ℕ) (s : S) → value_of (redis.get k s).1 j ≡ value_of s j
    pub stored : (k v : List ℕ) (s : S) → (redis.set k v s).0 ≡ none
    pub stored_as :
        (k v j : List ℕ) (s : S)
        → value_of (redis.set k v s).1 j ≡ (if same_text k j then some v else value_of s j)
    pub ponged : (s : S) → (redis.ping s).0 ≡ inr (codes "PONG")
    pub ponged_keeps : (j : List ℕ) (s : S) → value_of (redis.ping s).1 j ≡ value_of s j

  -- Every key of a connection has the value.
  abbrev pub Filled : (ℕ → List ℕ) → List ℕ → S → Type 0
  Filled k value s = (i : ℕ) → value_of s (k i) ≡ some value

  -- What a workload relies on.
  abbrev pub Ready : Workload → (ℕ → List ℕ) → List ℕ → S → Type 0
  Ready get k value s = Filled k value s
  Ready mix k value s = Filled k value s
  Ready set k value s = Unit
  Ready ping k value s = Unit
  Ready incr k value s = ⊥

-- The reply to the command at place `p`.
abbrev pub reply_at : Workload → ℕ → List ℕ → List ℕ
reply_at get p value = value ++ (10 ∷ [])
reply_at set p value = codes "OK" ++ (10 ∷ [])
reply_at incr p value = 10 ∷ []
reply_at ping p value = codes "PONG" ++ (10 ∷ [])
reply_at mix p value = if p % 2 == 0 then codes "OK" ++ (10 ∷ []) else value ++ (10 ∷ [])

abbrev pub replies : Workload → ℕ → ℕ → List ℕ → List (List ℕ)
replies w zero p value = []
replies w (suc n) p value = reply_at w p value ∷ replies w n (suc p) value

either-IsLine : {a b : List ℕ} (test : Bool) → IsLine a → IsLine b → IsLine (if test then a else b)
either-IsLine true h h' = h
either-IsLine false h h' = h'

reply-IsLine : (w : Workload) (p : ℕ) (value : List ℕ) → IsWord value → IsLine (reply_at w p value)
reply-IsLine get p value h = record {
  text = value;
  ends = refl;
  one = plain_inside value h.plain_all;
}
reply-IsLine set p value h = record { text = codes "OK"; ends = refl; one = refl }
reply-IsLine incr p value h = record { text = []; ends = refl; one = refl }
reply-IsLine ping p value h = record { text = codes "PONG"; ends = refl; one = refl }
reply-IsLine mix p value h =
    either-IsLine (p % 2 == 0) (record { text = codes "OK"; ends = refl; one = refl })
      (record { text = value; ends = refl; one = plain_inside value h.plain_all })

pub command-IsLine :
    (w : Workload) (p : ℕ) (k value : List ℕ)
    → IsWord k
    → IsWord value
    → IsLine (command w p k value)
unfolding command
command-IsLine get p k value h h' = get_line-IsLine k h
command-IsLine set p k value h h' = set_line-IsLine k value h h'
command-IsLine incr p k value h h' = record {
  text = codes "INCR " ++ k;
  ends = refl;
  one = plain_inside k h.plain_all;
}
command-IsLine ping p k value h h' = record { text = codes "PING"; ends = refl; one = refl }
command-IsLine mix p k value h h' =
    either-IsLine (p % 2 == 0) (set_line-IsLine k value h h') (get_line-IsLine k h)

-- The replies, as the client reads them.
pub split_lines-replies :
    (w : Workload) (n p : ℕ) (value : List ℕ)
    → IsWord value
    → split_lines (concat (replies w n p value)) ≡ replies w n p value
split_lines-replies w zero p value h = unfold split_lines in refl
split_lines-replies w (suc n) p value h =
    split_lines-IsLine (reply_at w p value) (concat (replies w n (suc p) value))
      (reply-IsLine w p value h)
    ∙ ap (λ t. reply_at w p value ∷ t) (split_lines-replies w n (suc p) value h)
