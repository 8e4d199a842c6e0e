-- ===== src/Prelude/Text.antt =====
-- What the sources use of the standard library on texts, which are lists of byte values: `str::trim`,
-- `str::strip_prefix`, `str::parse::<usize>` and the like, for the ASCII white space.
use Prim.Native.Char.{code}
use Prim.Native.String.{String}
use compio_pool.Prelude.{
  zero, suc, ◌/◌, ◌%◌, ℕ, ◌≡◌, refl, arith, true, false, map, ◌+◌, ◌-◌, ◌*◌, Bool, ◌&&◌, ◌||◌,
  Option, none, some, List, [], ◌∷◌, ltb, leb, ◌==◌, if◌then◌else◌, u64_mod,
}
use mathlib.Core.List.{reverse}
use mathlib.Core.Option

abbrev pub is_empty : List ℕ → Bool
is_empty [] = true
is_empty (c ∷ cs) = false

-- A byte put before the first line.
abbrev pub push : ℕ → List (List ℕ) → List (List ℕ)
push c [] = (c ∷ []) ∷ []
push c (line ∷ lines) = (c ∷ line) ∷ lines

-- The bytes of an ASCII text.
abbrev pub codes : String → List ℕ
codes String.[] = []
codes (String.◌∷◌ c s) = code c ∷ codes s

abbrev pub is_space : ℕ → Bool
is_space c = c == 32 || leb 9 c && leb c 13

unfoldable pub trim_start : List ℕ → List ℕ
trim_start [] = []
trim_start (c ∷ cs) = if is_space c then trim_start cs else c ∷ cs

unfoldable pub trim : List ℕ → List ℕ
trim cs = reverse (trim_start (reverse (trim_start cs)))

unfoldable pub strip_prefix : List ℕ → List ℕ → Option (List ℕ)
strip_prefix [] text = some text
strip_prefix (p ∷ ps) [] = none
strip_prefix (p ∷ ps) (c ∷ cs) = if p == c then strip_prefix ps cs else none

abbrev pub is_digit : ℕ → Bool
is_digit c = leb b'0' c && leb c b'9'

-- The digits after the first, onto the value so far; a value past 64 bits is refused.
unfoldable pub parse_digits : ℕ → List ℕ → Option ℕ
parse_digits acc [] = some acc
parse_digits acc (c ∷ cs) =
    let next = acc * 10 + (c - b'0') in
    if is_digit c && ltb next u64_mod then parse_digits next cs else none

-- No text without a digit is a number; one leading plus sign is allowed.
unfoldable pub parse_unsigned : List ℕ → Option ℕ
parse_unsigned [] = none
parse_unsigned (c ∷ cs) = parse_digits 0 (c ∷ cs)

unfoldable pub parse_usize : List ℕ → Option ℕ
parse_usize [] = none
parse_usize (c ∷ cs) = if c == b'+' then parse_unsigned cs else parse_unsigned (c ∷ cs)

-- Two texts compared byte by byte.
abbrev pub same_text : List ℕ → List ℕ → Bool
same_text [] [] = true
same_text [] (d ∷ ds) = false
same_text (c ∷ cs) [] = false
same_text (c ∷ cs) (d ∷ ds) = c == d && same_text cs ds

pub same_text_lem : (a b : List ℕ) → same_text a b ≡ true → a ≡ b
same_text_lem [] [] h = refl
same_text_lem [] (d ∷ ds) h = cc
same_text_lem (c ∷ cs) [] h = cc
same_text_lem (c ∷ cs) (d ∷ ds) h = ground (arith, same_text_lem cs ds)

pub same_text_refl : (a : List ℕ) → same_text a a ≡ true
same_text_refl [] = refl
same_text_refl (c ∷ cs) = ground (arith, same_text_refl cs)

-- `str::to_ascii_lowercase`.
abbrev pub lower_byte : ℕ → ℕ
lower_byte c = if leb b'A' c && leb c b'Z' then c + 32 else c

unfoldable pub to_ascii_lowercase : List ℕ → List ℕ
to_ascii_lowercase cs = map lower_byte cs

-- `str::split("\r\n")`: the first piece, and the others.
unfoldable pub split_crlf : List ℕ → List ℕ × List (List ℕ)
split_crlf [] = ([], [])
split_crlf (c ∷ []) = (c ∷ [], [])
split_crlf (c ∷ d ∷ cs) =
    let cut = split_crlf cs in
    let on = split_crlf (d ∷ cs) in
    if c == 13 && d == 10 then ([], cut.0 ∷ cut.1) else (c ∷ on.0, on.1)

-- `str::split_once` at a byte.
unfoldable pub split_once : ℕ → List ℕ → Option (List ℕ × List ℕ)
split_once sep [] = none
split_once sep (c ∷ cs) =
    if c == sep then some ([], cs) else Option.map (λ p. (c ∷ p.0, p.1)) (split_once sep cs)

-- The first word of a text without leading space, and what follows it.
unfoldable pub first_word : List ℕ → List ℕ × List ℕ
first_word [] = ([], [])
first_word (c ∷ cs) =
    let rest = first_word cs in if is_space c then ([], c ∷ cs) else (c ∷ rest.0, rest.1)

-- `text.split_whitespace().nth(1).unwrap_or_default()`.
unfoldable pub second_word : List ℕ → List ℕ
second_word text = (first_word (trim_start (first_word (trim_start text)).1)).0

-- The decimal digits of a number, onto what follows; a round for each digit.
unfoldable pub emit : ℕ → ℕ → List ℕ → List ℕ
emit zero n out = out
emit (suc fuel) n out = elim (n / 10 == 0) [
  | true ↦ (b'0' + n % 10) ∷ out
  | false ↦ emit fuel (n / 10) ((b'0' + n % 10) ∷ out)
]

-- A number in a format string.
unfoldable pub decimal : ℕ → List ℕ
decimal n = emit (suc n) n []

-- `iter().position(|&c| c == b)`.
unfoldable pub position : ℕ → List ℕ → Option ℕ
position b [] = none
position b (c ∷ cs) = if c == b then some 0 else Option.map suc (position b cs)

abbrev pub word_of : List ℕ → Option (List ℕ) × List ℕ
word_of [] = (none, [])
word_of (c ∷ cs) = let cut = first_word (c ∷ cs) in (some cut.0, cut.1)

-- `parts.next()` of `let mut parts = text.split_whitespace()`, on what is left of the text: the next
-- word, and what is left after it.
unfoldable pub next_word : List ℕ → Option (List ℕ) × List ℕ
next_word text = word_of (trim_start text)

-- `str::to_ascii_uppercase`.
abbrev pub upper_byte : ℕ → ℕ
upper_byte c = if leb b'a' c && leb c b'z' then c - 32 else c

unfoldable pub to_ascii_uppercase : List ℕ → List ℕ
to_ascii_uppercase cs = map upper_byte cs

-- `str::trim_end_matches(['\r', '\n'])`.
unfoldable pub trim_end_newline : List ℕ → List ℕ
trim_end_newline [] = []
trim_end_newline (c ∷ cs) =
    let rest = trim_end_newline cs in if is_empty rest && (c == 13 || c == 10) then [] else c ∷ rest

-- The lines of a text as `read_line` gives them, each with its newline.
unfoldable pub split_lines : List ℕ → List (List ℕ)
split_lines [] = []
split_lines (c ∷ cs) =
    let rest = split_lines cs in if c == 10 then (10 ∷ []) ∷ rest else push c rest

-- `str::split` at a byte.
unfoldable pub split : ℕ → List ℕ → List (List ℕ)
split sep [] = [] ∷ []
split sep (c ∷ cs) = let rest = split sep cs in if c == sep then [] ∷ rest else push c rest

-- `str::trim_end`.
unfoldable pub trim_end : List ℕ → List ℕ
trim_end [] = []
trim_end (c ∷ cs) = let rest = trim_end cs in if is_empty rest && is_space c then [] else c ∷ rest
