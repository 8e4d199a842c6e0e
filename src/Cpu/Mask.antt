-- ===== src/Cpu/Mask.antt =====
-- `affinity_mask`: read back as hexadecimal words, the mask is the bit of its cpu.
use compio_pool.Prelude.{
  ℕ, zero, suc, ◌+◌, ◌-◌, ◌*◌, ◌/◌, ◌%◌, ◌^◌, ◌≤◌, ◌<◌, ◌≡◌, refl, sym, ap, ◌∙◌, List, [], ◌∷◌,
  ◌++◌, arith, ltb, ◌==◌, if◌then◌else◌, true, false,
}
use native.Mathlib.Nat.{
  pow-suc, pow-zero, pow-succ', pow-le-pow_right, mod-lt, zero-add, suc-add, add-zero, mul_assoc,
  mul_comm,
}
use compio_pool.Cpu.{hex_digit, hex_word, separate, mask_words, affinity_mask}

-- The value of a hexadecimal digit, and of a text of them in which commas only separate.
unfoldable pub digit_value : ℕ → ℕ
digit_value c = if ltb c b'a' then c - b'0' else c - b'a' + 10

unfoldable pub read_hex : ℕ → List ℕ → ℕ
unfolding digit_value
read_hex acc [] = acc
read_hex acc (c ∷ cs) = read_hex (if c == b',' then acc else acc * 16 + digit_value c) cs

read_hex-append :
    (acc : ℕ) (cs ds : List ℕ) → read_hex acc (cs ++ ds) ≡ read_hex (read_hex acc cs) ds
unfolding read_hex
read_hex-append acc [] ds = refl
read_hex-append acc (c ∷ cs) ds =
    read_hex-append (if c == b',' then acc else acc * 16 + digit_value c) cs ds

read_hex-digit :
    (acc d : ℕ) (cs : List ℕ)
    → d < 16
    → read_hex acc (hex_digit d ∷ cs) ≡ read_hex (acc * 16 + d) cs
unfolding read_hex hex_digit
read_hex-digit acc d cs h = ap (λ n. read_hex n cs) (ground arith)

read_hex-hex_word : (acc b : ℕ) → b < 2 ^ 32 → read_hex acc (hex_word b) ≡ acc * 2 ^ 32 + b
unfolding hex_word
read_hex-hex_word acc b h =
    rw
      (
        read_hex-digit _ _ _ (mod-lt (b / 0x10000000) (omega arith)),
        read_hex-digit _ _ _ (mod-lt (b / 0x1000000) (omega arith)),
        read_hex-digit _ _ _ (mod-lt (b / 0x100000) (omega arith)),
        read_hex-digit _ _ _ (mod-lt (b / 0x10000) (omega arith)),
        read_hex-digit _ _ _ (mod-lt (b / 0x1000) (omega arith)),
        read_hex-digit _ _ _ (mod-lt (b / 0x100) (omega arith)),
        read_hex-digit _ _ _ (mod-lt (b / 0x10) (omega arith)),
        read_hex-digit _ _ _ (mod-lt b (omega arith)),
      )
      (unfold read_hex in omega arith)

read_hex-separate : (acc : ℕ) (out : List ℕ) → read_hex acc (separate out) ≡ read_hex acc out
unfolding separate
read_hex-separate acc [] = refl
read_hex-separate acc (c ∷ out) =
    read_hex-append acc (c ∷ out) (b',' ∷ []) ∙ unfold read_hex in refl

read_hex-word :
    (out : List ℕ) (b : ℕ)
    → b < 2 ^ 32
    → read_hex 0 (separate out ++ hex_word b) ≡ read_hex 0 out * 2 ^ 32 + b
read_hex-word out b h =
    rw (read_hex-append 0 (separate out) (hex_word b), read_hex-separate 0 out)
      (read_hex-hex_word (read_hex 0 out) b h)

-- The words below the highest are zero.
read_hex-mask_words :
    (cpu w : ℕ) (out : List ℕ)
    → w ≤ cpu / 32
    → read_hex 0 (mask_words cpu w out) ≡ read_hex 0 out * (2 ^ 32) ^ w
unfolding mask_words
read_hex-mask_words cpu zero out h = omega arith
read_hex-mask_words cpu (suc w) out h =
    let low : (w == cpu / 32) ≡ false = ground arith in
    rw low (
      read_hex-mask_words cpu w (separate out ++ hex_word 0) (omega arith)
      ∙ ap (λ n. n * (2 ^ 32) ^ w)
          (read_hex-word out 0 (omega arith) ∙ add-zero (read_hex 0 out * 2 ^ 32))
      ∙ mul_assoc (read_hex 0 out) (2 ^ 32) ((2 ^ 32) ^ w)
      ∙ ap (λ n. read_hex 0 out * n) (sym (pow-succ' (2 ^ 32) w)))

pow_add : (m n : ℕ) → 2 ^ (m + n) ≡ 2 ^ m * 2 ^ n
pow_add zero n = simp (zero-add) (omega (arith, pow-zero 2))
pow_add (suc m) n =
    ap (λ k. 2 ^ k) (suc-add m n)
    ∙ pow-succ' 2 (m + n)
    ∙ ap (λ k. 2 * k) (pow_add m n)
    ∙ sym (mul_assoc 2 (2 ^ m) (2 ^ n))
    ∙ ap (λ k. k * 2 ^ n) (sym (pow-succ' 2 m))

pow_words : (r q : ℕ) → 2 ^ r * (2 ^ 32) ^ q ≡ 2 ^ (32 * q + r)
pow_words r zero = let e : 32 * 0 + r ≡ r = omega arith in rw (e, pow-zero (2 ^ 32)) (omega arith)
pow_words r (suc q) =
    let e : 32 * suc q + r ≡ 32 + (32 * q + r) = omega arith in
    ap (λ k. 2 ^ r * k) (pow-suc (2 ^ 32) q)
    ∙ sym (mul_assoc (2 ^ r) ((2 ^ 32) ^ q) (2 ^ 32))
    ∙ ap (λ k. k * 2 ^ 32) (pow_words r q)
    ∙ mul_comm (2 ^ (32 * q + r)) (2 ^ 32)
    ∙ sym (pow_add 32 (32 * q + r))
    ∙ ap (λ k. 2 ^ k) (sym e)

-- Read as one hexadecimal number, most significant word first, the affinity mask of a cpu has
-- exactly the bit of that cpu.
pub affinity_mask_lem : (cpu : ℕ) → read_hex 0 (affinity_mask cpu) ≡ 2 ^ cpu
unfolding affinity_mask mask_words read_hex
affinity_mask_lem cpu =
    let q = cpu / 32 in
    let r = cpu % 32 in
    let one_more : q + 1 ≡ suc q = omega arith in
    let high : (q == cpu / 32) ≡ true = ground arith in
    let fits : 2 ^ r < 2 ^ 32 =
      omega (arith, pow-le-pow_right {n = 2} (omega arith) {i = r} {j = 31} (omega arith)) in
    let word : read_hex 0 (separate [] ++ hex_word (2 ^ r)) ≡ 2 ^ r =
      read_hex-word [] (2 ^ r) fits ∙ unfold read_hex in omega arith in
    rw (one_more, mask_words, high)
      (read_hex-mask_words cpu q (separate [] ++ hex_word (2 ^ r)) (omega arith)
        ∙ ap (λ n. n * (2 ^ 32) ^ q) word
        ∙ pow_words r q
        ∙ ap (λ n. 2 ^ n) (omega arith))
