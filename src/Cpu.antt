-- ===== src/Cpu.antt =====
-- src/cpu.rs, the part that is always built: the cores of this process, and the affinity mask.
--
-- `core_affinity` is a library: what `get_core_ids` returns is an argument. A `CoreId` is its number,
-- a text its list of byte values.
pub mod Mask
pub mod Cores
use compio_pool.Prelude.{
  ℕ, zero, suc, ◌+◌, ◌-◌, ◌/◌, ◌%◌, ◌^◌, Bool, Option, none, some, List, [], ◌∷◌, ◌++◌, ltb, leb,
  ◌==◌, if◌then◌else◌,
}
use compio_pool.Prelude.Sort.{sort}

-- `Vec::dedup_by_key` on the numbers that follow `x`.
unfoldable pub dedup_after : ℕ → List ℕ → List ℕ
dedup_after x [] = []
dedup_after x (y ∷ ys) = if y == x then dedup_after x ys else y ∷ dedup_after y ys

unfoldable pub dedup : List ℕ → List ℕ
dedup [] = []
dedup (x ∷ xs) = x ∷ dedup_after x xs

abbrev or_default : Option (List ℕ) → List ℕ
or_default none = []
or_default (some ids) = ids

-- `cores`, for the answer of `core_affinity::get_core_ids`.
unfoldable pub cores : Option (List ℕ) → List ℕ
cores ids = dedup (sort leb (or_default ids))

-- One lower-case hexadecimal digit.
unfoldable pub hex_digit : ℕ → ℕ
hex_digit d = if ltb d 10 then b'0' + d else b'a' + (d - 10)

-- `format!("{bits:08x}")` of a `u32`.
unfoldable pub hex_word : ℕ → List ℕ
hex_word bits =
    hex_digit (bits / 0x10000000 % 16)
    ∷ hex_digit (bits / 0x1000000 % 16)
    ∷ hex_digit (bits / 0x100000 % 16)
    ∷ hex_digit (bits / 0x10000 % 16)
    ∷ hex_digit (bits / 0x1000 % 16)
    ∷ hex_digit (bits / 0x100 % 16)
    ∷ hex_digit (bits / 0x10 % 16)
    ∷ hex_digit (bits % 16)
    ∷ []

-- A comma, unless the text is still empty.
unfoldable pub separate : List ℕ → List ℕ
separate [] = []
separate (c ∷ out) = (c ∷ out) ++ b',' ∷ []

-- The loop of `affinity_mask` over the words below `n`, from the highest down, onto `out`.
unfoldable pub mask_words : ℕ → ℕ → List ℕ → List ℕ
mask_words cpu zero out = out
mask_words cpu (suc w) out =
    let bits = if w == cpu / 32 then 2 ^ (cpu % 32) else 0 in
    mask_words cpu w (separate out ++ hex_word bits)

-- `affinity_mask`.
unfoldable pub affinity_mask : ℕ → List ℕ
affinity_mask cpu = mask_words cpu (cpu / 32 + 1) []
