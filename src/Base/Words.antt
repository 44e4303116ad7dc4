-- ===== src/Base/Words.antt =====
-- Machine integers: u32 and u64 values are native numbers, saturation and wrap-around written out.
use Prim.Native.Nat.{ℕ, ◌+◌, ◌*◌, ◌%◌, min}

abbrev pub u64_max : ℕ
u64_max = 18446744073709551615

abbrev pub u32_max : ℕ
u32_max = 4294967295

-- `as u32` of a usize.
abbrev pub as_u32 : ℕ → ℕ
as_u32 n = n % 4294967296

-- `u64::saturating_add` and `u64::saturating_mul`; `saturating_sub` is the truncated `-`.
abbrev pub saturating_add : ℕ → ℕ → ℕ
saturating_add a b = min (a + b) u64_max

abbrev pub saturating_mul : ℕ → ℕ → ℕ
saturating_mul a b = min (a * b) u64_max

-- `u32::saturating_add`.
abbrev pub saturating_add_u32 : ℕ → ℕ → ℕ
saturating_add_u32 a b = min (a + b) u32_max
