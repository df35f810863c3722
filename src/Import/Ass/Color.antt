-- ===== src/Import/Ass/Color.antt =====
-- assColor on the colors that dan-any writes.
use danmaku.Prelude.{ℕ, ◌+◌, ◌*◌, ◌%◌, ◌^◌, ◌<◌, ◌≡◌, arith}
use danmaku.Js.Text.{codes, text_eq}
use danmaku.Js.Number.{integer}
use danmaku.Js.Int32.{to_int32, from_int32, shift_left, number_or}
use danmaku.Js.Int32.Bits.{bit_or-shifted}
use danmaku.Js.Value.{Value, number, object, field, end, property}
use danmaku.Import.Common.{finite_number}
use danmaku.Import.Ass.{ass_color}

abbrev pub color_value : ℕ → ℕ → ℕ → Value
color_value r g b = object (
    field (codes "r") (number (integer r))
      (field (codes "g") (number (integer g)) (field (codes "b") (number (integer b)) end)))

to_int32-integer : (n : ℕ) → n < 2 ^ 32 → to_int32 (integer n) ≡ n
unfolding to_int32
to_int32-integer n h = omega arith

from_int32-small : (n : ℕ) → n < 2 ^ 31 → from_int32 n ≡ integer n
unfolding from_int32
from_int32-small n h = ground arith

shift_left-integer :
    (n k : ℕ) → n < 2 ^ 32 → n * 2 ^ k < 2 ^ 31 → shift_left (integer n) k ≡ integer (n * 2 ^ k)
unfolding shift_left
shift_left-integer n k h fits = rw (to_int32-integer n h) (
    let e : n * 2 ^ k % 2 ^ 32 ≡ n * 2 ^ k = omega arith in
    rw e (from_int32-small (n * 2 ^ k) fits))

number_or-shifted :
    (k a b : ℕ)
    → b < 2 ^ k
    → a * 2 ^ k + b < 2 ^ 31
    → number_or (integer (a * 2 ^ k)) (integer b) ≡ integer (a * 2 ^ k + b)
unfolding number_or
number_or-shifted k a b h fits =
    rw
      (
        to_int32-integer (a * 2 ^ k) (omega arith),
        to_int32-integer b (omega arith),
        bit_or-shifted k a b h,
      )
      (from_int32-small (a * 2 ^ k + b) fits)

-- The color of three channels below 256 is their bytes side by side.
pub ass_color_lem :
    (r g b : ℕ)
    → r < 256
    → g < 256
    → b < 256
    → ass_color (color_value r g b) ≡ integer (r * 65536 + g * 256 + b)
unfolding ass_color property text_eq finite_number
ass_color_lem r g b hr hg hb =
    let regroup : r * 2 ^ 16 + g * 2 ^ 8 ≡ (r * 256 + g) * 2 ^ 8 = omega arith in
    let total : (r * 256 + g) * 2 ^ 8 + b ≡ r * 65536 + g * 256 + b = omega arith in
    rw (
      shift_left-integer r 16 (omega arith) (omega arith),
      shift_left-integer g 8 (omega arith) (omega arith),
      number_or-shifted 16 r (g * 2 ^ 8) (omega arith) (omega arith),
      regroup,
      number_or-shifted 8 (r * 256 + g) b (omega arith) (omega arith),
      total,
    )
