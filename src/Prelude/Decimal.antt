-- ===== src/Prelude/Decimal.antt =====
-- The decimal print of a number, as `str::parse` and the framing of examples/http_proxy.rs read it.
use compio_pool.Prelude.{
  ℕ, zero, suc, Bool, true, false, some, inl, inr, ◌≡◌, ◌≢◌, refl, ap, ◌∙◌, ◌+◌, ◌/◌, ◌%◌, ◌<◌,
  ◌==◌, ◌&&◌, List, [], ◌∷◌, ◌++◌, map, arith, Bool-cases, u64_mod, if◌then◌else◌,
}
use mathlib.Core.List.{reverse, reverse-cons, reverse-reverse}
use compio_pool.Prelude.Text.{
  trim, trim_start, is_digit, parse_digits, parse_usize, parse_unsigned, lower_byte,
}
use compio_pool.Prelude.Text.{emit, decimal}

-- Every byte passes a test.
abbrev pub all : (ℕ → Bool) → List ℕ → Bool
all test [] = true
all test (c ∷ cs) = test c && all test cs

pub all-append :
    (test : ℕ → Bool) (xs ys : List ℕ) → all test (xs ++ ys) ≡ (all test xs && all test ys)
all-append test [] ys = refl
all-append test (x ∷ xs) ys = ground (arith, all-append test xs ys)

-- The digits are the number's.
pub emit_digits :
    (fuel n : ℕ) (out : List ℕ) → all is_digit out ≡ true → all is_digit (emit fuel n out) ≡ true
unfolding emit
emit_digits zero n out h = h
emit_digits (suc fuel) n out h = ground (arith, emit_digits fuel (n / 10) ((b'0' + n % 10) ∷ out))

parse_digits_last :
    (n : ℕ) (out : List ℕ)
    → n < u64_mod
    → parse_digits (n / 10) ((b'0' + n % 10) ∷ out) ≡ parse_digits n out
unfolding parse_digits
parse_digits_last n out k = ground arith

-- Reading the digits back.
parse_digits-emit :
    (fuel n : ℕ) (out : List ℕ)
    → n < fuel
    → n < u64_mod
    → parse_digits 0 (emit fuel n out) ≡ parse_digits n out
unfolding emit
parse_digits-emit zero n out h k = absurd (omega arith)
parse_digits-emit (suc fuel) n out h k =
    let last = parse_digits_last n out k in
    let before = parse_digits-emit fuel (n / 10) ((b'0' + n % 10) ∷ out) in
    elim (Bool-cases (n / 10 == 0)) [
      | inl e ↦ ground (arith, last, e)
      | inr e ↦ ground (arith, last, e, before)
    ]

emit-ne-nil : (fuel n : ℕ) (out : List ℕ) → out ≢ [] → emit fuel n out ≢ []
unfolding emit
emit-ne-nil zero n out h = h
emit-ne-nil (suc fuel) n out h = ground (arith, emit-ne-nil fuel (n / 10) ((b'0' + n % 10) ∷ out))

pub decimal_digits : (n : ℕ) → all is_digit (decimal n) ≡ true
unfolding decimal
decimal_digits n = emit_digits (suc n) n [] refl

pub decimal-ne-nil : (n : ℕ) → decimal n ≢ []
unfolding decimal emit
decimal-ne-nil n = ground (arith, emit-ne-nil n (n / 10) ((b'0' + n % 10) ∷ []))

parse_usize_digits :
    (cs : List ℕ) → cs ≢ [] → all is_digit cs ≡ true → parse_usize cs ≡ parse_digits 0 cs
unfolding parse_usize parse_unsigned
parse_usize_digits [] h d = absurd (h refl)
parse_usize_digits (c ∷ cs) h d = ground arith

-- A number that fits 64 bits is read back from its decimal print.
pub parse_usize-decimal : (n : ℕ) → n < u64_mod → parse_usize (decimal n) ≡ some n
parse_usize-decimal n h =
    parse_usize_digits (decimal n) (decimal-ne-nil n) (decimal_digits n)
    ∙ (unfold decimal parse_digits in parse_digits-emit (suc n) n [] (omega arith) h)

trim_start_digits : (cs : List ℕ) → all is_digit cs ≡ true → trim_start cs ≡ cs
unfolding trim_start
trim_start_digits [] h = refl
trim_start_digits (c ∷ cs) h = ground arith

trim_start_value : (cs : List ℕ) → all is_digit cs ≡ true → trim_start (32 ∷ cs) ≡ cs
unfolding trim_start
trim_start_value cs h = trim_start_digits cs h

all-reverse : (test : ℕ → Bool) (cs : List ℕ) → all test cs ≡ true → all test (reverse cs) ≡ true
all-reverse test [] h = refl
all-reverse test (c ∷ cs) h =
    ground (arith, reverse-cons c cs, all-append test (reverse cs) (c ∷ []), all-reverse test cs)

-- A header's value is trimmed to its digits.
pub trim_digits : (cs : List ℕ) → all is_digit cs ≡ true → trim (32 ∷ cs) ≡ cs
unfolding trim
trim_digits cs h =
    ap (λ t. reverse (trim_start (reverse t))) (trim_start_value cs h)
    ∙ ap reverse (trim_start_digits (reverse cs) (all-reverse is_digit cs h))
    ∙ reverse-reverse cs

pub lower_digits : (cs : List ℕ) → all is_digit cs ≡ true → map lower_byte cs ≡ cs
lower_digits [] h = refl
lower_digits (c ∷ cs) h = ground (arith, lower_digits cs)

abbrev pub no_cr : ℕ → Bool
no_cr c = if c == 13 then false else true

pub no_cr_digits : (cs : List ℕ) → all is_digit cs ≡ true → all no_cr cs ≡ true
no_cr_digits [] h = refl
no_cr_digits (c ∷ cs) h = ground (arith, no_cr_digits cs)

pub no_cr_lower : (cs : List ℕ) → all no_cr cs ≡ true → all no_cr (map lower_byte cs) ≡ true
no_cr_lower [] h = refl
no_cr_lower (c ∷ cs) h = ground (arith, no_cr_lower cs)
