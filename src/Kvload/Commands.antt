-- ===== src/Kvload/Commands.antt =====
-- examples/kvload.rs and crates/deadpool-baseline/examples/redis_proxy.rs: the lines that the one
-- writes, as the other runs them.
use compio_pool.Prelude.{
  ℕ, zero, suc, Bool, true, not, some, ◌≡◌, ◌≢◌, refl, sym, ap, ◌∙◌, ◌%◌, ◌==◌, ◌&&◌, List, [], ◌∷◌,
  ◌++◌, arith,
}
use mathlib.Core.List.{append_assoc, append-nil}
use compio_pool.Prelude.Text.{
  codes, is_space, is_digit, first_word, next_word, word_of, trim_start, trim_end_newline,
  to_ascii_uppercase, decimal,
}
use compio_pool.Prelude.Decimal.{all, all-append, decimal_digits, decimal-ne-nil}
use compio_pool.Redis.{Redis, settle, or_nil, done, ends, run_get, run_set, dispatch, run}
use compio_pool.Kvload.{key, repeat_x, get_line, set_line}

-- A byte of a word.
abbrev pub plain : ℕ → Bool
plain c = not (is_space c)

-- A word: nonempty, without white space.
pub record IsWord (w : List ℕ) : Type 0 where
  pub plain_all : all plain w ≡ true
  pub full : w ≢ []

digits_plain : (cs : List ℕ) → all is_digit cs ≡ true → all plain cs ≡ true
digits_plain [] h = refl
digits_plain (c ∷ cs) h = ground (arith, digits_plain cs)

append_nil_left : (xs ys : List ℕ) → xs ++ ys ≡ [] → xs ≡ []
append_nil_left [] ys e = refl
append_nil_left (x ∷ xs) ys e = cc

pub key-IsWord : (id keys i : ℕ) → IsWord (key id keys i)
unfolding key
key-IsWord id keys i = record {
  plain_all = ground (
    arith,
    all-append plain (decimal id) (b':' ∷ decimal (i % keys)),
    digits_plain (decimal id) (decimal_digits id),
    digits_plain (decimal (i % keys)) (decimal_digits (i % keys)),
  );
  full = λ e. decimal-ne-nil id (append_nil_left (decimal id) _ e);
}

pub repeat_x_plain : (n : ℕ) → all plain (repeat_x n) ≡ true
unfolding repeat_x
repeat_x_plain zero = refl
repeat_x_plain (suc n) = repeat_x_plain n

first_word_all : (w : List ℕ) → all plain w ≡ true → first_word w ≡ (w, [])
unfolding first_word
first_word_all [] h = refl
first_word_all (c ∷ w) h = ground (arith, first_word_all w)

first_word_space :
    (w rest : List ℕ) → all plain w ≡ true → first_word (w ++ (32 ∷ rest)) ≡ (w, 32 ∷ rest)
unfolding first_word
first_word_space [] rest h = refl
first_word_space (c ∷ w) rest h = ground (arith, first_word_space w rest)

trim_start_plain : (w rest : List ℕ) → IsWord w → trim_start (32 ∷ (w ++ rest)) ≡ w ++ rest
unfolding trim_start
trim_start_plain [] rest h = absurd (h.full refl)
trim_start_plain (c ∷ w) rest h = ground (arith, h.plain_all)

-- The next word of a text that starts with a space and a word.
next_word_last : (w : List ℕ) → IsWord w → next_word (32 ∷ w) ≡ (some w, [])
unfolding next_word
next_word_last [] h = absurd (h.full refl)
next_word_last (c ∷ w) h =
    let p : trim_start (32 ∷ c ∷ w) ≡ c ∷ w =
      ap (λ t. trim_start (32 ∷ t)) (sym (append-nil (c ∷ w)))
      ∙ trim_start_plain (c ∷ w) [] h
      ∙ append-nil (c ∷ w) in
    ap word_of p ∙ ap (λ cut. (some cut.0, cut.1)) (first_word_all (c ∷ w) h.plain_all)

next_word_space :
    (w rest : List ℕ) → IsWord w → next_word (32 ∷ (w ++ (32 ∷ rest))) ≡ (some w, 32 ∷ rest)
unfolding next_word
next_word_space [] rest h = absurd (h.full refl)
next_word_space (c ∷ w) rest h =
    ap word_of (trim_start_plain (c ∷ w) (32 ∷ rest) h)
    ∙ ap (λ cut. (some cut.0, cut.1)) (first_word_space (c ∷ w) rest h.plain_all)

-- The newline of a line is cut off.
trim_end_newline_lem :
    (text : List ℕ)
    → all (λ c. not (c == 13) && not (c == 10)) text ≡ true
    → trim_end_newline (text ++ (10 ∷ [])) ≡ text
unfolding trim_end_newline
trim_end_newline_lem [] h = refl
trim_end_newline_lem (c ∷ text) h = ground (arith, trim_end_newline_lem text)

-- A text of words and spaces has no newline.
abbrev pub inside : ℕ → Bool
inside c = not (c == 13) && not (c == 10)

pub plain_inside : (cs : List ℕ) → all plain cs ≡ true → all inside cs ≡ true
plain_inside [] h = refl
plain_inside (c ∷ cs) h = ground (arith, plain_inside cs)

module _ {S : Type 0} (redis : Redis S) (debug : List ℕ → List ℕ) where
  dispatch_get :
      (rest : List ℕ) (s : S)
      → dispatch redis debug (codes "GET") rest s ≡ ends redis (run_get redis (next_word rest).0 s)
  unfolding dispatch to_ascii_uppercase
  dispatch_get rest s = refl

  dispatch_set :
      (rest : List ℕ) (s : S)
      → dispatch redis debug (codes "SET") rest s
        ≡ ends redis (run_set redis (next_word rest).0 (next_word (next_word rest).1).0 s)
  unfolding dispatch to_ascii_uppercase
  dispatch_set rest s = refl

  -- What `run` makes of the load generator's lines.
  pub run_get_line :
      (k : List ℕ) (s : S)
      → IsWord k
      → run redis debug (codes "GET " ++ k) s
        ≡ (settle (or_nil (redis.get k s).0), (redis.get k s).1)
  unfolding run next_word trim_start first_word
  run_get_line k s h =
      dispatch_get (32 ∷ k) s
      ∙ ap (λ p. ends redis (run_get redis p.0 s)) (next_word_last k h)
      ∙ (unfold run_get in refl)

  pub run_set_line :
      (k value : List ℕ) (s : S)
      → IsWord k
      → IsWord value
      → run redis debug (codes "SET " ++ (k ++ (32 ∷ value))) s
        ≡ (settle (done (redis.set k value s).0), (redis.set k value s).1)
  unfolding run next_word trim_start first_word
  run_set_line k value s h h' =
      dispatch_set (32 ∷ (k ++ (32 ∷ value))) s
      ∙ ap (λ p. ends redis (run_set redis p.0 (next_word p.1).0 s)) (next_word_space k value h)
      ∙ ap (λ p. ends redis (run_set redis (some k) p.0 s)) (next_word_last value h')
      ∙ (unfold run_set in refl)

  pub run_ping_line :
      (s : S) → run redis debug (codes "PING") s ≡ (settle (redis.ping s).0, (redis.ping s).1)
  unfolding run next_word trim_start first_word dispatch to_ascii_uppercase
  run_ping_line s = refl

-- The lines of the generator, cut by the server.
pub cut_get_line : (k : List ℕ) → IsWord k → trim_end_newline (get_line k) ≡ codes "GET " ++ k
unfolding get_line
cut_get_line k h = trim_end_newline_lem (codes "GET " ++ k) (plain_inside k h.plain_all)

pub cut_set_line :
    (k value : List ℕ)
    → IsWord k
    → IsWord value
    → trim_end_newline (set_line k value) ≡ codes "SET " ++ (k ++ (32 ∷ value))
unfolding set_line
cut_set_line k value h h' =
    ap (λ t. trim_end_newline (codes "SET " ++ t)) (sym (append_assoc k (32 ∷ value) (10 ∷ [])))
    ∙ trim_end_newline_lem (codes "SET " ++ (k ++ (32 ∷ value))) (
        ground (
          arith,
          all-append inside k (32 ∷ value),
          plain_inside k h.plain_all,
          plain_inside value h'.plain_all,
        ))

pub cut_ping_line : trim_end_newline (codes "PING" ++ (10 ∷ [])) ≡ codes "PING"
cut_ping_line = trim_end_newline_lem (codes "PING") refl
