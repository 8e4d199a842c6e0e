-- ===== src/Http/Lengths.antt =====
-- examples/http_proxy.rs, `body_length`: a length is accepted only where it is the one reading.
use compio_pool.Prelude.{
  ℕ, true, Option, none, some, ◌⊎◌, inl, inr, ◌≡◌, ◌≢◌, refl, sym, ap, subst, ◌∙◌, List, [], ◌∷◌,
  arith, Option-cases,
}
use compio_pool.Prelude.Text.{
  trim, parse_usize, same_text_refl, same_text_lem, to_ascii_lowercase, split_crlf, split_once,
  second_word,
}
use compio_pool.Http.Head.{
  Kind, request, response, Refusal, transfer_encoding_name, content_length_name, header, scan,
  settle, body_length, bodiless,
}

-- A header line is no `transfer-encoding`, and where it is a `content-length`, its value is read as
-- the number that the head was given.
pub record Agrees (length : Option ℕ) (name value : List ℕ) : Type 0 where
  plain : name ≢ transfer_encoding_name
  agreed : name ≡ content_length_name → (n : ℕ) × (parse_usize value ≡ some n) × (length ≡ some n)

-- Every line with a colon agrees.
pub data AllAgree (length : Option ℕ) : List (List ℕ) → Type 0 where
  done : AllAgree length []
  other :
      (line : List ℕ) (lines : List (List ℕ))
      → split_once b':' line ≡ none
      → AllAgree length lines
      → AllAgree length (line ∷ lines)
  field :
      (line : List ℕ) (lines : List (List ℕ)) (name value : List ℕ)
      → split_once b':' line ≡ some (name, value)
      → Agrees length (trim name) (trim value)
      → AllAgree length lines
      → AllAgree length (line ∷ lines)

-- What a number seen keeps over the lines that follow.
abbrev Keeps : Option ℕ → Option ℕ → Type 0
Keeps old new = (n : ℕ) → old ≡ some n → new ≡ some n

header-Keeps :
    (name value : List ℕ) (old new : Option ℕ) → header name value old ≡ inr new → Keeps old new
unfolding header
header-Keeps name value none new h n e = cc
header-Keeps name value (some m) new h n e = ground arith

header-Agrees :
    (name value : List ℕ) (old new : Option ℕ)
    → header name value old ≡ inr new
    → (name ≢ transfer_encoding_name)
      × (name ≡ content_length_name → (n : ℕ) × (parse_usize value ≡ some n) × (new ≡ some n))
unfolding header
header-Agrees name value old new h = (
  λ e. ground (arith, h, e, same_text_refl transfer_encoding_name),
  λ e. elim (Option-cases (parse_usize value)) [
    | inl p ↦ ground (arith, same_text_refl content_length_name)
    | inr (n, p) ↦ (n, p, ground (arith, same_text_refl content_length_name))
  ],
)

Later :
    {length later : Option ℕ} {name value : List ℕ}
    → Keeps length later
    → (name ≢ transfer_encoding_name)
      × (name ≡ content_length_name → (n : ℕ) × (parse_usize value ≡ some n) × (length ≡ some n))
    → Agrees later name value
Later keeps (plain, agreed) = record {
  plain = plain;
  agreed = λ e. let (n, p, q) = agreed e in (n, p, keeps n q);
}

Step-cases :
    (answer : Refusal ⊎ Option ℕ)
    → ((why : Refusal) × (answer ≡ inl why)) ⊎ ((mid : Option ℕ) × (answer ≡ inr mid))
Step-cases (inl why) = inl (why, refl)
Step-cases (inr mid) = inr (mid, refl)

scan-AllAgree :
    (lines : List (List ℕ)) (old new : Option ℕ)
    → scan lines old ≡ inr new
    → AllAgree new lines × Keeps old new
unfolding scan
scan-AllAgree [] old new h = (done, λ n e. ground arith)
scan-AllAgree (line ∷ lines) old new h = elim (Option-cases (split_once b':' line)) [
  | inl e ↦
      let (all, keeps) = scan-AllAgree lines old new (ground arith) in
      (other line lines e all, keeps)
  | inr (p, e) ↦ elim (Step-cases (header (trim p.0) (trim p.1) old)) [
    | inl (why, f) ↦ ground arith
    | inr (mid, f) ↦
        let (all, keeps) = scan-AllAgree lines mid new (ground arith) in
        let carry : Keeps old new =
          λ n q. keeps n (header-Keeps (trim p.0) (trim p.1) old mid f n q) in
        (
          field line lines p.0 p.1 e (Later keeps (header-Agrees (trim p.0) (trim p.1) old mid f))
              all,
          carry,
        )
  ]
]

-- Some line is a `content-length`.
pub data Named : List (List ℕ) → Type 0 where
  here :
      {line : List ℕ} {lines : List (List ℕ)} (name value : List ℕ)
      → split_once b':' line ≡ some (name, value)
      → trim name ≡ content_length_name
      → Named (line ∷ lines)
  there : {line : List ℕ} {lines : List (List ℕ)} → Named lines → Named (line ∷ lines)

header_named :
    (name value : List ℕ) (old new : Option ℕ)
    → header name value old ≡ inr new
    → (name ≡ content_length_name) ⊎ (new ≡ old)
unfolding header
header_named name value old new h = ground (arith, same_text_lem name content_length_name)

scan-Named :
    (lines : List (List ℕ)) (old new : Option ℕ)
    → scan lines old ≡ inr new
    → Named lines ⊎ (new ≡ old)
unfolding scan
scan-Named [] old new h = inr (ground arith)
scan-Named (line ∷ lines) old new h = elim (Option-cases (split_once b':' line)) [
  | inl e ↦ elim (scan-Named lines old new (ground arith)) [
    | inl named ↦ inl (there named)
    | inr same ↦ inr same
  ]
  | inr (p, e) ↦ elim (Step-cases (header (trim p.0) (trim p.1) old)) [
    | inl (why, f) ↦ ground arith
    | inr (mid, f) ↦ elim (header_named (trim p.0) (trim p.1) old mid f) [
      | inl named ↦ inl (here p.0 p.1 e named)
      | inr kept ↦ elim (scan-Named lines mid new (ground arith)) [
        | inl named ↦ inl (there named)
        | inr same ↦ inr (same ∙ kept)
      ]
    ]
  ]
]

-- Why a length is the one accepted: the lines gave it, or none did and there is no body.
pub data Settled (kind : Kind) (start_line : List ℕ) (lines : List (List ℕ)) (n : ℕ)
    : Option ℕ → Type 0 where
  given : Named lines → Settled kind start_line lines n (some n)
  no_request_body : kind ≡ request → n ≡ 0 → Settled kind start_line lines n none
  no_response_body :
      kind ≡ response
      → bodiless (second_word start_line) ≡ true
      → n ≡ 0
      → Settled kind start_line lines n none

settle-Settled :
    (kind : Kind) (start_line : List ℕ) (lines : List (List ℕ)) (length : Option ℕ) (n : ℕ)
    → Named lines ⊎ (length ≡ none)
    → settle kind start_line (inr length) ≡ inr n
    → Settled kind start_line lines n length
unfolding settle
settle-Settled kind start_line lines (some m) n (inl named) h =
    subst (λ k. Settled kind start_line lines n (some k)) (ground arith) (given named)
settle-Settled kind start_line lines (some m) n (inr absent) h = cc
settle-Settled request start_line lines none n named h = no_request_body refl (ground arith)
settle-Settled response start_line lines none n named h =
    no_response_body refl (ground arith) (ground arith)

-- The start line and the header lines of a head, as `body_length` reads it.
abbrev pub lines_of : (List ℕ → List ℕ) → List ℕ → List ℕ × List (List ℕ)
lines_of lossy head = split_crlf (to_ascii_lowercase (lossy head))

-- A head whose body length is accepted has no `transfer-encoding` line, and every `content-length`
-- line of it is read as that length. Either it has such a line, or the length is 0, and the message
-- is a request or a response whose status never has a body.
pub body_length-AllAgree :
    (lossy : List ℕ → List ℕ) (head : List ℕ) (kind : Kind) (n : ℕ)
    → body_length lossy head kind ≡ inr n
    → (length : Option ℕ) × AllAgree length (lines_of lossy head).1
      × Settled kind (lines_of lossy head).0 (lines_of lossy head).1 n length
unfolding body_length
body_length-AllAgree lossy head kind n h =
    let (start_line, lines) = lines_of lossy head in
    elim (Step-cases (scan lines none)) [
      | inl (why, e) ↦ unfold settle in ground arith
      | inr (length, e) ↦ (
        length,
        (scan-AllAgree lines none length e).0,
        settle-Settled kind start_line lines length n (scan-Named lines none length e)
            (sym (ap (settle kind start_line) e) ∙ h),
      )
    ]
