-- ===== src/Kvload/Options.antt =====
-- examples/kvload.rs, `parse`: the options that it accepts.
use compio_pool.Prelude.{
  ℕ, Option, ◌⊎◌, inl, inr, ◌≡◌, ◌≢◌, refl, subst, ◌∙◌, ◌<◌, List, [], ◌∷◌, arith,
}
use mathlib.Core.Sum.{inr-injective}
use compio_pool.Prelude.Text.{split}
use compio_pool.Kvload.{
  Refusal, Opts, set_flag, set_flags, clamp, resolve_all, defaults, with_addrs, parse,
}

-- Options that the load can be run with.
pub record IsUsable {A : Type 0} (opts : Opts A) : Type 0 where
  pub addrs_full : opts.addrs ≢ []
  pub conns_pos : 0 < opts.conns
  pub keys_pos : 0 < opts.keys
  pub pipeline_pos : 0 < opts.pipeline

module _ {A : Type 0} where
  set_flag-addrs :
      (flag val : List ℕ) (opts opts' : Opts A)
      → set_flag flag val opts ≡ inr opts'
      → opts'.addrs ≡ opts.addrs
  unfolding set_flag
  set_flag-addrs flag val opts opts' e = ground arith

  set_flags-addrs :
      (args : List (List ℕ)) (opts opts' : Opts A)
      → set_flags args opts ≡ inr opts'
      → opts'.addrs ≡ opts.addrs
  unfolding set_flags
  set_flags-addrs [] opts opts' e = ground arith
  set_flags-addrs (flag ∷ []) opts opts' e = cc
  set_flags-addrs (flag ∷ val ∷ args) opts opts' e =
      onward (set_flag flag val opts) (λ o h. set_flag-addrs flag val opts o h)
        (λ o h. set_flags-addrs args o opts' h) e
    where
      onward :
          (r : Refusal ⊎ Opts A)
          → ((o : Opts A) → r ≡ inr o → o.addrs ≡ opts.addrs)
          → ((o : Opts A) → set_flags args o ≡ inr opts' → opts'.addrs ≡ o.addrs)
          → (elim r [ inl why ↦ inl why | inr o ↦ set_flags args o ]) ≡ inr opts'
          → opts'.addrs ≡ opts.addrs
      onward (inl why) keeps more h = cc
      onward (inr o) keeps more h = more o h ∙ keeps o refl

  clamp-IsUsable :
      (r : Refusal ⊎ Opts A) (opts : Opts A)
      → ((o : Opts A) → r ≡ inr o → o.addrs ≢ [])
      → clamp r ≡ inr opts
      → IsUsable opts
  unfolding clamp
  clamp-IsUsable (inl why) opts full e = cc
  clamp-IsUsable (inr o) opts full e = subst IsUsable (inr-injective _ _ e) (record {
    addrs_full = full o refl;
    conns_pos = ground arith;
    keys_pos = ground arith;
    pipeline_pos = ground arith;
  })

  with_addrs-IsUsable :
      (args : List (List ℕ)) (found : Refusal ⊎ List A) (opts : Opts A)
      → with_addrs args found ≡ inr opts
      → IsUsable opts
  with_addrs-IsUsable args (inl why) opts e = cc
  with_addrs-IsUsable args (inr []) opts e = cc
  with_addrs-IsUsable args (inr (a ∷ addrs)) opts e =
      clamp-IsUsable (set_flags args (defaults (a ∷ addrs))) opts
        (λ o h none_left. cc (set_flags-addrs args (defaults (a ∷ addrs)) o h, none_left)) e

  -- Whatever the arguments, the options that `parse` accepts have an address, and at least one
  -- connection, one key and one command a batch.
  pub parse-IsUsable :
      (resolve : List ℕ → Option (List A)) (args : List (List ℕ)) (opts : Opts A)
      → parse resolve args ≡ inr opts
      → IsUsable opts
  unfolding parse
  parse-IsUsable resolve [] opts e = cc
  parse-IsUsable resolve (addr_arg ∷ args) opts e =
      with_addrs-IsUsable args (resolve_all resolve (split b',' addr_arg)) opts e
