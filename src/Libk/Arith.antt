-- ===== src/Libk/Arith.antt =====
-- `divide_up` of lib/libk/src/memory.c, and 32-bit arithmetic.
use night.Base.{ℕ, ◌+◌, ◌-◌, ◌*◌, ◌/◌, ◌%◌, ◌^◌, ◌≤◌, ◌<◌, arith, ◌==◌, if◌then◌else◌}

-- `u32` sums, differences and products wrap.
abbrev pub u32 : ℕ → ℕ
u32 n = n % 2 ^ 32

abbrev pub sub32 : ℕ → ℕ → ℕ
sub32 a b = (a + 2 ^ 32 - b) % 2 ^ 32

-- The sum does not wrap: `n / d` below `2 ^ 32 - 1` whenever there is a remainder.
unfoldable pub divide_up : ℕ → ℕ → ℕ
divide_up n d = if n % d == 0 then n / d else 1 + n / d

-- `divide_up n d` is the least number of pieces of size `d` that cover `n`.
pub divide_up_covers : (n d : ℕ) → 0 < d → (n ≤ divide_up n d * d) × (divide_up n d * d < n + d)
unfolding divide_up
divide_up_covers n d h = grind arith
