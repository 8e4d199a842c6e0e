-- ===== src/Http/Reply.antt =====
-- examples/http_proxy.rs, `origin_conn`: the reply of the built-in origin is read back by the proxy.
use compio_pool.Prelude.{
  ℕ, zero, suc, Bool, true, Option, none, some, inl, inr, ◌≡◌, refl, ap, ◌∙◌, ◌+◌, ◌*◌, ◌/◌, ◌%◌,
  ◌==◌, ◌≤◌, ◌<◌, List, [], ◌∷◌, ◌++◌, map, arith, length, length-append, Bool-cases, u64_mod, ltb,
}
use compio_pool.Prelude.Text.{
  codes, is_digit, split_once, lower_byte, trim, trim_start, parse_usize,
}
use compio_pool.Http.Head.{response, settle, scan, header, content_length_name}
use compio_pool.Net.{Framed}
use compio_pool.Http.Framed.{read_message, max_head}
use compio_pool.Net.Stream.{stream}
use compio_pool.Prelude.Text.{emit, decimal}
use compio_pool.Http.Origin.{origin_body, origin_reply}
use compio_pool.Prelude.Decimal.{
  all, all-append, no_cr, no_cr_digits, decimal_digits, lower_digits, trim_digits,
  parse_usize-decimal,
}
use compio_pool.Http.Lines.{AreLines, text, size}
use compio_pool.Http.Written.{text_read}

-- A byte that `String::from_utf8_lossy` keeps.
abbrev pub is_ascii : ℕ → Bool
is_ascii c = ltb c 128

digits_ascii : (cs : List ℕ) → all is_digit cs ≡ true → all is_ascii cs ≡ true
digits_ascii [] h = refl
digits_ascii (c ∷ cs) h = ground (arith, digits_ascii cs)

decimal_ascii :
    (n : ℕ) (rest : List ℕ) → all is_ascii rest ≡ true → all is_ascii (decimal n ++ rest) ≡ true
decimal_ascii n rest h =
    ground
      (arith, all-append is_ascii (decimal n) rest, digits_ascii (decimal n) (decimal_digits n))

-- A bound on the digits of a number below a power of ten.
abbrev ten : ℕ → ℕ
ten zero = 1
ten (suc k) = 10 * ten k

length-emit :
    (k fuel n : ℕ) (out : List ℕ) → n < ten k → length (emit fuel n out) ≤ suc k + length out
unfolding emit
length-emit k zero n out h = omega arith
length-emit zero (suc fuel) n out h = elim (Bool-cases (n / 10 == 0)) [
  | inl e ↦ ground arith
  | inr e ↦ ground arith
]
length-emit (suc k) (suc fuel) n out h = elim (Bool-cases (n / 10 == 0)) [
  | inl e ↦ ground arith
  | inr e ↦ ground (arith, e, length-emit k fuel (n / 10) ((b'0' + n % 10) ∷ out) (omega arith))
]

length-decimal : (n : ℕ) → n < u64_mod → length (decimal n) ≤ 21
unfolding decimal
length-decimal n h = length-emit 20 (suc n) n [] (omega arith)

-- The header lines of a reply, after the status line.
abbrev reply_lines : ℕ → ℕ → ℕ → List (List ℕ)
reply_lines n id served =
    codes "content-type: text/plain"
    ∷ (codes "content-length: " ++ decimal n)
    ∷ (codes "x-upstream-conn: " ++ decimal id)
    ∷ (codes "x-upstream-reqs: " ++ decimal served)
    ∷ codes "connection: keep-alive"
    ∷ []

abbrev ok_line : List ℕ
ok_line = codes "HTTP/1.1 200 OK"

no_cr_field : (name : List ℕ) (n : ℕ) → all no_cr name ≡ true → all no_cr (name ++ decimal n) ≡ true
no_cr_field name n h =
    ground (arith, all-append no_cr name (decimal n), no_cr_digits (decimal n) (decimal_digits n))

reply_lines-AreLines : (n id served : ℕ) → AreLines (ok_line ∷ reply_lines n id served)
reply_lines-AreLines n id served =
    let last : AreLines (codes "connection: keep-alive" ∷ []) = (refl, (λ e. cc), tt) in
    let reqs = no_cr_field (codes "x-upstream-reqs: ") served refl in
    let conn = no_cr_field (codes "x-upstream-conn: ") id refl in
    let size = no_cr_field (codes "content-length: ") n refl in
    (
      refl,
      (λ e. cc),
      (refl, (λ e. cc), (size, (λ e. cc), (conn, (λ e. cc), (reqs, (λ e. cc), last)))),
    )

value_lem : (n : ℕ) → n < u64_mod → parse_usize (trim (32 ∷ map lower_byte (decimal n))) ≡ some n
value_lem n h =
    ap (λ t. parse_usize (trim (32 ∷ t))) (lower_digits (decimal n) (decimal_digits n))
    ∙ ap parse_usize (trim_digits (decimal n) (decimal_digits n))
    ∙ parse_usize-decimal n h

length_name : trim (codes "content-length") ≡ content_length_name
unfolding trim trim_start
length_name = refl

scan_field :
    (line name value : List ℕ) (lines : List (List ℕ)) (seen seen' : Option ℕ)
    → split_once b':' line ≡ some (name, value)
    → header (trim name) (trim value) seen ≡ inr seen'
    → scan (line ∷ lines) seen ≡ scan lines seen'
unfolding scan
scan_field line name value lines seen seen' e f = ground arith

header_length :
    (value : List ℕ) (n : ℕ)
    → parse_usize value ≡ some n
    → header content_length_name value none ≡ inr (some n)
unfolding header
header_length value n e = ground (arith, e)

type_field :
    (lines : List (List ℕ))
    → scan (map lower_byte (codes "content-type: text/plain") ∷ lines) none ≡ scan lines none
unfolding scan split_once header trim trim_start
type_field lines = refl

length_field :
    (n : ℕ) (lines : List (List ℕ))
    → n < u64_mod
    → scan (map lower_byte (codes "content-length: " ++ decimal n) ∷ lines) none
      ≡ scan lines (some n)
unfolding split_once trim_start
length_field n lines h =
    scan_field (map lower_byte (codes "content-length: " ++ decimal n)) content_length_name
      (32 ∷ map lower_byte (decimal n)) lines none (some n) refl
      (ap (λ name. header name (trim (32 ∷ map lower_byte (decimal n))) none) length_name
        ∙ header_length (trim (32 ∷ map lower_byte (decimal n))) n (value_lem n h))

other_fields :
    (n id served : ℕ)
    → scan
        (map lower_byte (codes "x-upstream-conn: " ++ decimal id)
          ∷ map lower_byte (codes "x-upstream-reqs: " ++ decimal served)
          ∷ map lower_byte (codes "connection: keep-alive")
          ∷ []
          ∷ []
          ∷ [])
        (some n)
      ≡ inr (some n)
unfolding scan split_once header trim trim_start
other_fields n id served = refl

scan-reply_lines :
    (n id served : ℕ)
    → n < u64_mod
    → scan (map (map lower_byte) (reply_lines n id served) ++ ([] ∷ [] ∷ [])) none ≡ inr (some n)
scan-reply_lines n id served h = type_field _ ∙ length_field n _ h ∙ other_fields n id served

module _ (id served : ℕ) (id_fits : id < u64_mod) (served_fits : served < u64_mod) where
  body_small : length (origin_body id served) ≤ 100
  unfolding origin_body
  body_small =
      let a : List ℕ = codes "served by upstream connection #" ++ decimal id in
      let b : List ℕ = a ++ codes ", request #" in
      omega (
        arith,
        length-decimal id id_fits,
        length-decimal served served_fits,
        length-append a (codes ", request #"),
        length-append b (decimal served),
        length-append (b ++ decimal served) (10 ∷ []),
      )

  reply_size :
      (n : ℕ) → n < u64_mod → length ok_line + size (reply_lines n id served) + 4 ≤ max_head
  unfolding size
  reply_size n h =
      omega
        (arith, length-decimal n h, length-decimal id id_fits, length-decimal served served_fits)

  reply_ascii : (n : ℕ) → all is_ascii (text (ok_line ∷ reply_lines n id served) []) ≡ true
  reply_ascii n = decimal_ascii n _ (decimal_ascii id _ (decimal_ascii served _ refl))

  reply_settle :
      (n : ℕ)
      → n < u64_mod
      → settle response
          (map lower_byte ok_line)
          (scan (map (map lower_byte) (reply_lines n id served) ++ ([] ∷ [] ∷ [])) none)
        ≡ inr n
  unfolding settle
  reply_settle n h = ap (settle response (map lower_byte ok_line)) (scan-reply_lines n id served h)

  -- The reply of the built-in origin is read back whole by `read_message`, wherever the socket cuts
  -- it, and what follows it is left on the stream.
  pub origin_reply_read :
      (lossy : List ℕ → List ℕ)
      → ((t : List ℕ) → all is_ascii t ≡ true → lossy t ≡ t)
      → (more : List ℕ) (conn : Framed) → stream conn ≡ origin_reply id served ++ more
      → ((read_message lossy response conn).0 ≡ inr (some (origin_reply id served)))
        × (stream (read_message lossy response conn).1 ≡ more)
  unfolding origin_reply
  origin_reply_read lossy ascii more conn same =
      let n = length (origin_body id served) in
      text_read lossy response ok_line (reply_lines n id served) (origin_body id served)
        (reply_lines-AreLines n id served) (ascii _ (reply_ascii n))
        (reply_settle n (omega (arith, body_small))) (omega (arith, body_small))
        (reply_size n (omega (arith, body_small))) more conn same
