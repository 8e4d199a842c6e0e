-- ===== src/Listener/Laws.antt =====
-- When a shared listener comes up, and that its options are in force before it is bound.
use compio_pool.Prelude.{
  ℕ, ◌≡◌, ◌≢◌, refl, ◌↔◌, ◌⊎◌, inl, inr, Option, none, some, List, [], ◌∷◌, ◌++◌, arith,
  Option-cases,
}
use compio_pool.Listener.{
  Op, socket, reuse_address, reuse_port, bind, listen, all_of, and_then, set_incoming_cpu,
  bind_reuseport,
}

-- The listener comes up exactly when the kernel accepts the socket, both sharing options, the bind
-- and the listen; what it says to `SO_INCOMING_CPU` does not matter.
pub bind_reuseport_iff :
    {E : Type 0} (answer : Op → Option E) (backlog : ℕ) (cpu : Option ℕ)
    → ((bind_reuseport answer backlog cpu).1 ≡ none) ↔ (
        (answer socket ≡ none)
        × (answer reuse_address ≡ none)
        × (answer reuse_port ≡ none)
        × (answer bind ≡ none)
        × (answer (listen backlog) ≡ none))
unfolding bind_reuseport all_of and_then set_incoming_cpu
bind_reuseport_iff answer backlog none = ground arith
bind_reuseport_iff answer backlog (some c) = ground arith

-- Whatever fails, the calls made are a beginning of one sequence, in which `SO_REUSEADDR`,
-- `SO_REUSEPORT` and then the cpu hint, if one is asked for, come before the bind.
pub bind_reuseport-order :
    {E : Type 0} (answer : Op → Option E) (backlog : ℕ) (cpu : Option ℕ)
    → (rest : List Op) × ((bind_reuseport answer backlog cpu).0 ++ rest
        ≡ socket
          ∷ reuse_address
          ∷ reuse_port
          ∷ ((set_incoming_cpu answer cpu).0 ++ bind ∷ listen backlog ∷ []))
unfolding bind_reuseport all_of and_then
bind_reuseport-order answer backlog cpu =
    let hint = (set_incoming_cpu answer cpu).0 in
    let last = hint ++ bind ∷ listen backlog ∷ [] in
    elim (Option-cases (answer socket)) [
      | inr (e, f) ↦ (reuse_address ∷ reuse_port ∷ last, ground arith)
      | inl a ↦ elim (Option-cases (answer reuse_address)) [
        | inr (e, f) ↦ (reuse_port ∷ last, ground arith)
        | inl b ↦ elim (Option-cases (answer reuse_port)) [
          | inr (e, f) ↦ (last, ground arith)
          | inl c ↦ elim (Option-cases (answer bind)) [
            | inr (e, f) ↦
                (listen backlog ∷ [], ended cpu (listen backlog ∷ []) a b c (inr ((λ x. cc), refl)))
            | inl d ↦ ([], ended cpu [] a b c (inl (d, refl)))
          ]
        ]
      ]
    ]
  where
    ended :
        (cpu : Option ℕ) (rest : List Op)
        → answer socket ≡ none
        → answer reuse_address ≡ none
        → answer reuse_port ≡ none
        → ((answer bind ≡ none) × (rest ≡ []))
          ⊎ ((answer bind ≢ none) × (rest ≡ listen backlog ∷ []))
        → (bind_reuseport answer backlog cpu).0 ++ rest
          ≡ socket
            ∷ reuse_address
            ∷ reuse_port
            ∷ ((set_incoming_cpu answer cpu).0 ++ bind ∷ listen backlog ∷ [])
    ended none rest a b c d = unfold set_incoming_cpu in ground arith
    ended (some n) rest a b c d = unfold set_incoming_cpu in ground arith
