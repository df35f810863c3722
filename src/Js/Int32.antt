-- ===== src/Js/Int32.antt =====
-- The operators that work on 32-bit integers: `<<` and `|`.
pub mod Bits
use Prim.Native.Nat.{bit_or}
use danmaku.Prelude.{ℕ, pos, negsuc, ◌-◌, ◌*◌, ◌/◌, ◌%◌, ◌^◌, suc, ltb, if◌then◌else◌}
use danmaku.Js.Number.{Number, decimal, integer}

-- ToInt32 as a bit pattern: truncated towards zero, modulo 2 ^ 32; NaN and the infinities are 0.
unfoldable pub to_int32 : Number → ℕ
to_int32 (decimal (pos n) k) = n / 10 ^ k % 2 ^ 32
to_int32 (decimal (negsuc n) k) = (2 ^ 32 - suc n / 10 ^ k % 2 ^ 32) % 2 ^ 32
to_int32 _ = 0

-- The number that a bit pattern stands for.
unfoldable pub from_int32 : ℕ → Number
from_int32 n = if ltb n (2 ^ 31) then integer n else decimal (negsuc (2 ^ 32 - n - 1)) 0

-- a << k
unfoldable pub shift_left : Number → ℕ → Number
unfolding to_int32 from_int32
shift_left a k = from_int32 (to_int32 a * 2 ^ k % 2 ^ 32)

-- a | b
unfoldable pub number_or : Number → Number → Number
unfolding to_int32 from_int32
number_or a b = from_int32 (bit_or (to_int32 a) (to_int32 b))
