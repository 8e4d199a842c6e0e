-- ===== src/Http/Framed.antt =====
-- examples/http_proxy.rs, `Framed` and `find`: a connection framed as HTTP messages.
use compio_pool.Prelude.{
  ℕ, suc, Bool, true, false, Option, none, some, ◌⊎◌, inl, inr, ◌+◌, ◌*◌, List, [], ◌∷◌,
  if◌then◌else◌, length, take, drop, ltb, leb,
}
use mathlib.Core.Option
use compio_pool.Prelude.Text.{strip_prefix}
use compio_pool.Net.{Failure, invalid_data, Framed, await}
use compio_pool.Http.Head.{bad, Kind, Refusal, header_too_large, body_too_large, body_length}

-- `const MAX_HEAD`.
abbrev pub max_head : ℕ
max_head = 64 * 1024

-- `const MAX_BODY`.
abbrev pub max_body : ℕ
max_body = 16 * 1024 * 1024

abbrev pub is_some : Option (List ℕ) → Bool
is_some none = false
is_some (some rest) = true

-- The windows of `hay` from each position on, against a nonempty needle.
unfoldable pub window_position : List ℕ → List ℕ → Option ℕ
window_position [] needle = none
window_position (c ∷ cs) needle =
    let rest = Option.map suc (window_position cs needle) in
    if is_some (strip_prefix needle (c ∷ cs)) then some 0 else rest

-- `find`.
unfoldable pub find : List ℕ → List ℕ → Option ℕ
find hay [] = none
find hay (b ∷ needle) =
    if ltb (length hay) (length (b ∷ needle)) then none else window_position hay (b ∷ needle)

abbrev pub blank_line : List ℕ
blank_line = 13 ∷ 10 ∷ 13 ∷ 10 ∷ []

-- The two tests of `read_message`'s first loop.
unfoldable pub head_end : List ℕ → Failure ⊎ Option ℕ
head_end buf = elim (find buf blank_line) [
  | some pos ↦ inr (some (pos + 4))
  | none ↦ if leb max_head (length buf) then inl (invalid_data (bad header_too_large)) else inr none
]

-- The test of its second loop.
unfoldable pub whole : ℕ → List ℕ → Failure ⊎ Option ℕ
whole total buf = if ltb (length buf) total then inr none else inr (some total)

-- The end of `read_message`: hand back one message, and leave what is after it.
unfoldable pub drain : (Failure ⊎ Option ℕ) × Framed → (Failure ⊎ Option (List ℕ)) × Framed
drain (inl why, conn) = (inl why, conn)
drain (inr none, conn) = (inr none, conn)
drain (inr (some total), conn) =
    (inr (some (take total conn.buf)), record conn { buf = drop total conn.buf })

-- `read_message` from the size of the body on.
unfoldable pub read_body : ℕ → Refusal ⊎ ℕ → Framed → (Failure ⊎ Option (List ℕ)) × Framed
read_body head (inl why) conn = (inl (invalid_data (bad why)), conn)
read_body head (inr body) conn =
    if ltb max_body body
    then (inl (invalid_data (bad body_too_large)), conn)
    else drain (await (whole (head + body)) (suc (length conn.reads)) conn)

-- `read_message` after its first loop.
unfoldable pub read_rest :
    (List ℕ → List ℕ) → Kind → (Failure ⊎ Option ℕ) × Framed → (Failure ⊎ Option (List ℕ)) × Framed
read_rest lossy kind (inl why, conn) = (inl why, conn)
read_rest lossy kind (inr none, conn) = (inr none, conn)
read_rest lossy kind (inr (some head), conn) =
    read_body head (body_length lossy (take head conn.buf) kind) conn

-- `Framed::read_message`.
unfoldable pub read_message :
    (List ℕ → List ℕ) → Kind → Framed → (Failure ⊎ Option (List ℕ)) × Framed
read_message lossy kind conn = read_rest lossy kind (await head_end (suc (length conn.reads)) conn)
