-- ===== src/Utils.antt =====
-- utils.h: the power-of-two helpers, over a 64-bit `unsigned long`.
pub mod PowerOfTwo
mod Tests
use ig_libs.Base.{ℕ, zero, suc, ◌-◌, ◌+◌, ◌^◌, ◌&&◌, Bool, not, bit_and, leb, ◌==◌, if◌then◌else◌}
use ig_libs.Base.Words.{u64_mod, sub64}

-- `&&` reads its second operand only for `n != 0`; `n - 1` is 64-bit arithmetic.
pub is_power_of_2 : ℕ → Bool
is_power_of_2 n = not (n == 0) && bit_and n (sub64 n 1) == 0

-- The zeros above the highest one among the lowest `w` bits: `__builtin_clzl` at width `w`.
pub clz : ℕ → ℕ → ℕ
clz zero n = 0
clz (suc w) n = if leb (2 ^ w) n then 0 else suc (clz w n)

-- `sizeof(n)` is 8; the shift count is at most 63 at `n != 0`.
unfoldable pub roundup_pow_of_two : ℕ → ℕ
unfolding clz
roundup_pow_of_two n = if n == 0 then 0 else 2 ^ (64 - clz 64 n - 1)
