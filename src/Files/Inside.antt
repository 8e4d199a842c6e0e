-- ===== src/Files/Inside.antt =====
-- examples/file_server.rs, `serve`: no request reaches outside the directory.
use compio_pool.Prelude.{
  ℕ, Bool, false, Option, none, some, ◌⊎◌, inl, inr, ◌≡◌, ◌≢◌, refl, ap, ◌∙◌, List, [], ◌∷◌, ◌++◌,
  arith, Bool-cases, if◌then◌else◌,
}
use compio_pool.Prelude.Text.{codes, trim_end_newline}
use compio_pool.Files.Names.{slash_found}
use compio_pool.Files.{
  File, Turn, Sent, stop, then_, send_file, has_slash, has_dots, bad_name, answer, serve,
}

-- The name of an entry of the directory itself: one component, and not the way up.
pub record IsInside (name : List ℕ) : Type 0 where
  pub full : name ≢ []
  pub one_component : (a b : List ℕ) → name ≢ a ++ (b'/' ∷ b)
  pub not_up : name ≢ codes ".."

not-bad_name-IsInside : (name : List ℕ) → bad_name name ≡ false → IsInside name
unfolding has_dots
not-bad_name-IsInside name h = record {
  full = λ e. cc (h, ap bad_name e);
  one_component = λ a b e. ground (arith, slash_found a b, ap has_slash e, h);
  not_up = λ e. ground (arith, ap has_dots e, h);
}

then_same :
    (first : Sent) (next other : List Bool → Sent)
    → next first.writes ≡ other first.writes
    → then_ first next ≡ then_ first other
then_same first next other same =
    ap
      (λ (more : Sent).
        if first.alive
        then record { bytes = first.bytes ++ more.bytes; alive = more.alive; writes = more.writes }
        else first)
      same

module _ (utf8 : List ℕ → Bool) (open_file open_other : List ℕ → List ℕ ⊎ File)
    (agree : (name : List ℕ) → IsInside name → open_file name ≡ open_other name) where
  answer_inside :
      (leased : Bool) (req : List ℕ) (writes : List Bool)
      → answer utf8 open_file leased req writes ≡ answer utf8 open_other leased req writes
  unfolding answer
  answer_inside leased req writes = elim (Bool-cases (utf8 req)) [
    | inr not_text ↦ rw (not_text) refl
    | inl is_text ↦ elim (Bool-cases (bad_name (trim_end_newline req))) [
      | inl bad ↦ rw (is_text, bad) refl
      | inr good ↦
          rw (is_text, good)
            (ap (λ f. send_file leased f writes)
              (agree (trim_end_newline req) (not-bad_name-IsInside _ good)))
    ]
  ]

  by_read :
      (read : Option (ℕ × List ℕ)) (leased : Bool) (next other : List Bool → Sent)
      (writes : List Bool)
      → ((rest : List Bool) → next rest ≡ other rest)
      → (elim read [
        | none ↦ stop writes
        | some piece ↦ then_ (answer utf8 open_file leased (piece.0 ∷ piece.1) writes) next
      ])
        ≡ (elim read [
          | none ↦ stop writes
          | some piece ↦ then_ (answer utf8 open_other leased (piece.0 ∷ piece.1) writes) other
        ])
  by_read none leased next other writes same = refl
  by_read (some (b, bytes)) leased next other writes same =
      ap (λ first. then_ first next) (answer_inside leased (b ∷ bytes) writes)
      ∙ then_same (answer utf8 open_other leased (b ∷ bytes) writes) next other (same _)

  -- What the server sends depends on no file but those that stand in the directory itself, under a name
  -- that is not empty, has no slash and is not "..": two systems of files that agree on these names are
  -- served alike, whatever is requested and whichever writes fail.
  pub serve_inside :
      (turns : List Turn) (writes : List Bool)
      → serve utf8 open_file turns writes ≡ serve utf8 open_other turns writes
  unfolding serve
  serve_inside [] writes = refl
  serve_inside (turn ∷ turns) writes =
      by_read turn.read turn.leased (serve utf8 open_file turns) (serve utf8 open_other turns)
        writes (serve_inside turns)
