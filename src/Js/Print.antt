-- ===== src/Js/Print.antt =====
-- Numbers as texts: String(x), and toString with a radix for natural numbers.
pub mod RoundTrip
pub mod Whole
use danmaku.Prelude.{
  ℕ, pos, negsuc, zero, suc, ◌+◌, ◌-◌, ◌/◌, ◌%◌, [], ◌∷◌, ◌++◌, ltb, leb, ◌==◌, if◌then◌else◌,
  length, replicate,
}
use danmaku.Js.Text.{Text, codes}
use danmaku.Js.Number.{Number, nan, infinity, neg_infinity, decimal}

-- The digit of a value below 36, in lower case.
unfoldable pub digit_unit : ℕ → ℕ
digit_unit d = if ltb d 10 then b'0' + d else b'a' + (d - 10)

-- The digits of `n` before those of `tail`. The fuel is a bound on the digits: `n` itself, and one
-- more, is enough.
unfoldable pub digits_before : ℕ → ℕ → ℕ → Text → Text
unfolding digit_unit
digits_before zero radix n tail = tail
digits_before (suc fuel) radix n tail =
    let more = digits_before fuel radix (n / radix) (digit_unit (n % radix) ∷ tail) in
    if ltb n radix then digit_unit n ∷ tail else more

-- n.toString(radix)
unfoldable pub to_radix : ℕ → ℕ → Text
unfolding digits_before
to_radix radix n = digits_before (suc n) radix n []

unfoldable pub nat_text : ℕ → Text
unfolding to_radix
nat_text n = to_radix 10 n

-- Trailing zeros are dropped from `n`, at most `fuel` of them; `k` counts those dropped.
unfoldable pub strip_zeros : ℕ → ℕ → ℕ → ℕ × ℕ
strip_zeros zero n k = (n, k)
strip_zeros (suc fuel) n k =
    let stripped = strip_zeros fuel (n / 10) (suc k) in if n % 10 == 0 then stripped else (n, k)

abbrev take_units : ℕ → Text → Text
take_units zero s = []
take_units (suc n) [] = []
take_units (suc n) (c ∷ s) = c ∷ take_units n s

abbrev drop_units : ℕ → Text → Text
drop_units zero s = s
drop_units (suc n) [] = []
drop_units (suc n) (c ∷ s) = drop_units n s

abbrev fraction_of : Text → Text
fraction_of [] = []
fraction_of (c ∷ s) = b'.' ∷ c ∷ s

-- The value is 0.digits * 10 ^ point where the point is at or right of the first digit.
unfoldable pub whole_or_mixed : Text → ℕ → Text
unfolding nat_text
whole_or_mixed digits point =
    if ltb 21 point
    then take_units 1 digits
      ++ (fraction_of (drop_units 1 digits) ++ (codes "e+" ++ nat_text (point - 1)))
    else if leb (length digits) point
    then digits ++ replicate (point - length digits) b'0'
    else take_units point digits ++ (b'.' ∷ drop_units point digits)

-- The value is 0.digits / 10 ^ zeros.
unfoldable pub small : Text → ℕ → Text
unfolding nat_text
small digits zeros =
    if ltb zeros 6
    then codes "0." ++ (replicate zeros b'0' ++ digits)
    else take_units 1 digits
      ++ (fraction_of (drop_units 1 digits) ++ (codes "e-" ++ nat_text (zeros + 1)))

unfoldable pub placed : Text → ℕ → ℕ → Text
unfolding whole_or_mixed small
placed digits exponent k =
    let point = length digits + exponent in
    if ltb k point then whole_or_mixed digits (point - k) else small digits (k - point)

unfoldable pub positive_text : ℕ → ℕ → Text
unfolding strip_zeros placed nat_text
positive_text n k = let (m, dropped) = strip_zeros n n 0 in placed (nat_text m) dropped k

-- String(x)
unfoldable pub number_text : Number → Text
unfolding positive_text
number_text nan = codes "NaN"
number_text infinity = codes "Infinity"
number_text neg_infinity = codes "-Infinity"
number_text (decimal (pos zero) k) = codes "0"
number_text (decimal (pos (suc n)) k) = positive_text (suc n) k
number_text (decimal (negsuc n) k) = b'-' ∷ positive_text (suc n) k
