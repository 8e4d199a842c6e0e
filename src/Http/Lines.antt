-- ===== src/Http/Lines.antt =====
-- examples/http_proxy.rs: the texts that it writes, line by line, as its own framing reads
-- them.
use compio_pool.Prelude.{
  ℕ, true, false, some, ◌≡◌, ◌≢◌, refl, ap, ◌∙◌, ◌+◌, ◌==◌, List, [], ◌∷◌, ◌++◌, map, arith, length,
  length-append,
}
use mathlib.Core.List.{append_assoc, map-append}
use compio_pool.Prelude.Text.{strip_prefix, lower_byte, split_crlf}
use compio_pool.Http.Framed.{window_position, blank_line}
use compio_pool.Prelude.Decimal.{all, no_cr, no_cr_lower}

-- No blank line starts within a line.
pub window_position_line :
    (line rest : List ℕ) (pos : ℕ)
    → all no_cr line ≡ true
    → window_position rest blank_line ≡ some pos
    → window_position (line ++ rest) blank_line ≡ some (length line + pos)
unfolding window_position strip_prefix
window_position_line [] rest pos h e = ground arith
window_position_line (c ∷ line) rest pos h e = ground (arith, window_position_line line rest pos)

pub split_crlf_line :
    (line rest : List ℕ)
    → all no_cr line ≡ true
    → split_crlf (line ++ (13 ∷ 10 ∷ rest)) ≡ (line, (split_crlf rest).0 ∷ (split_crlf rest).1)
unfolding split_crlf
split_crlf_line [] rest h = refl
split_crlf_line (c ∷ []) rest h = ground arith
split_crlf_line (c ∷ d ∷ line) rest h = ground (arith, split_crlf_line (d ∷ line) rest)

-- Lines, a blank line, and a body.
abbrev pub text : List (List ℕ) → List ℕ → List ℕ
text [] body = 13 ∷ 10 ∷ body
text (line ∷ lines) body = line ++ (13 ∷ 10 ∷ text lines body)

abbrev pub AreLines : List (List ℕ) → Type 0
AreLines [] = Unit
AreLines (line ∷ lines) = (all no_cr line ≡ true) × (line ≢ []) × AreLines lines

pub text-append : (lines : List (List ℕ)) (body : List ℕ) → text lines body ≡ text lines [] ++ body
text-append [] body = refl
text-append (line ∷ lines) body =
    rw (append_assoc line (13 ∷ 10 ∷ text lines []) body) (cc (text-append lines body))

-- Where the blank line starts after a line's end.
unfoldable pub size : List (List ℕ) → ℕ
size [] = 0
size (line ∷ lines) = 2 + length line + size lines

pub length-text : (lines : List (List ℕ)) → length (text lines []) ≡ 2 + size lines
unfolding size
length-text [] = refl
length-text (line ∷ lines) =
    ground (arith, length-append line (13 ∷ 10 ∷ text lines []), length-text lines)

window_position-crlf :
    (c : ℕ) (rest : List ℕ) (pos : ℕ)
    → (c == 13) ≡ false
    → window_position (c ∷ rest) blank_line ≡ some pos
    → window_position (13 ∷ 10 ∷ c ∷ rest) blank_line ≡ some (2 + pos)
unfolding window_position strip_prefix
window_position-crlf c rest pos h e = ground arith

pub window_position-text :
    (lines : List (List ℕ)) (body : List ℕ)
    → AreLines lines
    → window_position (13 ∷ 10 ∷ text lines body) blank_line ≡ some (size lines)
unfolding size
window_position-text [] body h = unfold window_position strip_prefix in ground arith
window_position-text ([] ∷ lines) body (clean, full, later) = absurd (full refl)
window_position-text ((c ∷ line) ∷ lines) body (clean, full, later) =
    let rest =
      window_position_line (c ∷ line) (13 ∷ 10 ∷ text lines body) (size lines) clean
        (window_position-text lines body later) in
    ground (
      arith,
      window_position-crlf c (line ++ (13 ∷ 10 ∷ text lines body)) (length (c ∷ line) + size lines),
      rest,
    )

pub split_crlf-text :
    (line : List ℕ) (lines : List (List ℕ))
    → AreLines (line ∷ lines)
    → split_crlf (map lower_byte (text (line ∷ lines) []))
      ≡ (map lower_byte line, map (map lower_byte) lines ++ ([] ∷ [] ∷ []))
split_crlf-text line [] (clean, full, later) =
    rw (map-append lower_byte line (13 ∷ 10 ∷ 13 ∷ 10 ∷ [])) (
      split_crlf_line (map lower_byte line) (13 ∷ 10 ∷ []) (no_cr_lower line clean)
      ∙ (unfold split_crlf in refl))
split_crlf-text line (next ∷ lines) (clean, full, later) =
    rw (map-append lower_byte line (13 ∷ 10 ∷ text (next ∷ lines) [])) (
      split_crlf_line (map lower_byte line) (map lower_byte (text (next ∷ lines) []))
        (no_cr_lower line clean)
      ∙ ap (λ (cut : List ℕ × List (List ℕ)). (map lower_byte line, cut.0 ∷ cut.1))
          (split_crlf-text next lines later))
