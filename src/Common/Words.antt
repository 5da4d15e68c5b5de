-- ===== src/Common/Words.antt =====
-- JavaScript's int32 arithmetic on bit patterns.
use Prim.Native.Nat.{ℕ, ◌-◌, ◌%◌, ◌^◌}
use stprivy.Common.Tests.{ltb, if◌then◌else◌}

-- `x | 0`, as the bit pattern of the int32
abbrev pub int32 : ℕ → ℕ
int32 x = x % 2 ^ 32

-- `Math.abs` of the int32 with this bit pattern
abbrev pub abs32 : ℕ → ℕ
abs32 x = if ltb x (2 ^ 31) then x else 2 ^ 32 - x
