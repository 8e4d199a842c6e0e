-- ===== src/Http/Head.antt =====
-- examples/http_proxy.rs, `body_length`: what an HTTP head says of the length of its body.
--
-- `String::from_utf8_lossy` is an argument: what it makes of bytes that are not UTF-8 matters to
-- nothing below.
use compio_pool.Prelude.{
  ℕ, Bool, true, false, Option, none, some, ◌⊎◌, inl, inr, ◌||◌, List, [], ◌∷◌, if◌then◌else◌, ◌==◌,
}
use compio_pool.Prelude.Text.{
  codes, trim, parse_usize, same_text, to_ascii_lowercase, split_crlf, split_once, second_word,
}

-- `enum Kind`.
pub data Kind : Type 0 where
  request response : Kind

-- The reasons for which `bad` refuses a message.
pub data Refusal : Type 0 where
  header_too_large body_too_large transfer_encoding malformed_length conflicting_lengths unframed :
      Refusal

-- The text that `bad` is given.
unfoldable pub bad : Refusal → List ℕ
bad header_too_large = codes "header block too large"
bad body_too_large = codes "body too large"
bad transfer_encoding = codes "transfer-encoding is not supported"
bad malformed_length = codes "malformed content-length"
bad conflicting_lengths = codes "conflicting content-length headers"
bad unframed = codes "response without content-length cannot be framed"

abbrev pub transfer_encoding_name : List ℕ
transfer_encoding_name = codes "transfer-encoding"

abbrev pub content_length_name : List ℕ
content_length_name = codes "content-length"

-- A length that disagrees with the one seen before.
abbrev disagrees : Option ℕ → ℕ → Bool
disagrees none n = false
disagrees (some seen) n = if seen == n then false else true

-- One header line in the loop of `body_length`, by its trimmed name and value.
unfoldable pub header : List ℕ → List ℕ → Option ℕ → Refusal ⊎ Option ℕ
header name value length =
    if same_text name transfer_encoding_name
    then inl transfer_encoding
    else if same_text name content_length_name
    then elim (parse_usize value) [
      | none ↦ inl malformed_length
      | some n ↦ if disagrees length n then inl conflicting_lengths else inr (some n)
    ]
    else inr length

-- The loop of `body_length` over the lines after the first.
unfoldable pub scan : List (List ℕ) → Option ℕ → Refusal ⊎ Option ℕ
scan [] length = inr length
scan (line ∷ lines) length = elim (split_once b':' line) [
  | none ↦ scan lines length
  | some (name, value) ↦ elim (header (trim name) (trim value) length) [
    | inl why ↦ inl why
    | inr length' ↦ scan lines length'
  ]
]

abbrev starts_with_one : List ℕ → Bool
starts_with_one [] = false
starts_with_one (c ∷ cs) = c == b'1'

-- The statuses of responses that never carry a body.
abbrev pub bodiless : List ℕ → Bool
bodiless status =
    starts_with_one status || same_text status (codes "204") || same_text status (codes "304")

-- The end of `body_length`.
unfoldable pub settle : Kind → List ℕ → Refusal ⊎ Option ℕ → Refusal ⊎ ℕ
settle kind start_line (inl why) = inl why
settle kind start_line (inr (some n)) = inr n
settle request start_line (inr none) = inr 0
settle response start_line (inr none) =
    if bodiless (second_word start_line) then inr 0 else inl unframed

-- `body_length`.
unfoldable pub body_length : (List ℕ → List ℕ) → List ℕ → Kind → Refusal ⊎ ℕ
body_length lossy head kind =
    let (start_line, lines) = split_crlf (to_ascii_lowercase (lossy head)) in
    settle kind start_line (scan lines none)
