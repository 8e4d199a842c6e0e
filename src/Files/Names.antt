-- ===== src/Files/Names.antt =====
-- examples/file_server.rs, `serve`: its test of a name, against what the test is for.
use compio_pool.Prelude.{
  ℕ, true, false, ◌⊎◌, inl, inr, ◌≡◌, ◌≢◌, refl, ap, sym, subst, List, [], ◌∷◌, ◌++◌, arith,
  Bool-cases, ◌==◌, ==_iff,
}
use compio_pool.Files.{has_slash, has_dots, bad_name}

-- A name that reaches outside, or none: it is empty, or a slash or two dots in a row stand in it.
pub data IsOutside : List ℕ → Type 0 where
  nothing : IsOutside []
  slash : (a b : List ℕ) → IsOutside (a ++ (b'/' ∷ b))
  dots : (a b : List ℕ) → IsOutside (a ++ (b'.' ∷ b'.' ∷ b))

pub slash_found : (a b : List ℕ) → has_slash (a ++ (b'/' ∷ b)) ≡ true
unfolding has_slash
slash_found [] b = refl
slash_found (c ∷ a) b = ground (arith, slash_found a b)

dots_found : (a b : List ℕ) → has_dots (a ++ (b'.' ∷ b'.' ∷ b)) ≡ true
unfolding has_dots
dots_found [] b = refl
dots_found (c ∷ []) b = ground arith
dots_found (c ∷ d ∷ a) b = ground (arith, dots_found (d ∷ a) b)

bad_by : (name : List ℕ) → (has_slash name ≡ true) ⊎ (has_dots name ≡ true) → bad_name name ≡ true
bad_by [] h = refl
bad_by (c ∷ cs) h = ground arith

pub bad_name-IsOutside : (name : List ℕ) → IsOutside name → bad_name name ≡ true
bad_name-IsOutside _ nothing = refl
bad_name-IsOutside _ (slash a b) = bad_by _ (inl (slash_found a b))
bad_name-IsOutside _ (dots a b) = bad_by _ (inr (dots_found a b))

no_slash : (name : List ℕ) → ((a b : List ℕ) → name ≢ a ++ (b'/' ∷ b)) → has_slash name ≡ false
unfolding has_slash
no_slash [] h = refl
no_slash (c ∷ cs) h = elim (Bool-cases (c == b'/')) [
  | inl e ↦ absurd (h [] cs (ap (λ d. d ∷ cs) ((==_iff c b'/').0 e)))
  | inr e ↦ ground (arith, e, no_slash cs (λ a b p. h (c ∷ a) b (ap (λ t. c ∷ t) p)))
]

no_dots : (name : List ℕ) → ((a b : List ℕ) → name ≢ a ++ (b'.' ∷ b'.' ∷ b)) → has_dots name ≡ false
unfolding has_dots
no_dots [] h = refl
no_dots (c ∷ []) h = refl
no_dots (c ∷ d ∷ cs) h =
    let rest = no_dots (d ∷ cs) (λ a b p. h (c ∷ a) b (ap (λ t. c ∷ t) p)) in
    elim (Bool-cases (c == b'.')) [
      | inr e ↦ ground (arith, e, rest)
      | inl e ↦ elim (Bool-cases (d == b'.')) [
        | inl f ↦
            let p : c ∷ d ∷ cs ≡ b'.' ∷ b'.' ∷ cs =
              λ i. (==_iff c b'.').0 e i ∷ (==_iff d b'.').0 f i ∷ cs in
            absurd (h [] cs p)
        | inr f ↦ ground (arith, f, rest)
      ]
    ]

neither :
    (name : List ℕ)
    → name ≢ []
    → has_slash name ≡ false
    → has_dots name ≡ false
    → bad_name name ≡ false
neither [] full h k = absurd (full refl)
neither (c ∷ cs) full h k = ground arith

pub bad_name-not-IsOutside : (name : List ℕ) → ¬ IsOutside name → bad_name name ≡ false
bad_name-not-IsOutside name inside =
    neither name (λ p. inside (subst IsOutside (sym p) nothing))
      (no_slash name (λ a b p. inside (subst IsOutside (sym p) (slash a b))))
      (no_dots name (λ a b p. inside (subst IsOutside (sym p) (dots a b))))
