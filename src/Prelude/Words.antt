-- ===== src/Prelude/Words.antt =====
-- Machine integers: values are plain numbers, and each operation writes its wrap-around out.
use Prim.Native.Nat.{ℕ, ◌+◌, ◌-◌, ◌%◌, ◌^◌}

-- The values of a `u32` and of a `u64` lie below these.
abbrev pub u32_mod : ℕ
u32_mod = 2 ^ 32

abbrev pub u64_mod : ℕ
u64_mod = 2 ^ 64

-- `a + b` on `u32`, also `AtomicU32::fetch_add`.
abbrev pub add_u32 : ℕ → ℕ → ℕ
add_u32 a b = (a + b) % u32_mod

-- `a + b` on `u64`, also `AtomicU64::fetch_add`.
abbrev pub add_u64 : ℕ → ℕ → ℕ
add_u64 a b = (a + b) % u64_mod

-- `x as u32`.
abbrev pub as_u32 : ℕ → ℕ
as_u32 x = x % u32_mod

-- `a.saturating_sub(b)`.
abbrev pub saturating_sub : ℕ → ℕ → ℕ
saturating_sub a b = a - b
