-- ===== src/Js/Number.antt =====
-- JavaScript numbers, and Number(text). A finite number is a decimal: every double is one. What
-- the machine rounds, a text with more than 17 digits or a quotient, is kept exact here; a value
-- too large for a double becomes an infinity. The sign of zero is not modelled.
use danmaku.Prelude.{
  ℕ, ℤ, pos, negsuc, ◌+◌, ◌-◌, ◌*◌, ◌/◌, ◌%◌, ◌^◌, zero, suc, Bool, true, false, ◌&&◌, ◌||◌, [],
  ◌∷◌, Option, none, some, leb, ◌==◌, if◌then◌else◌,
}
use danmaku.Js.Text.{Text, codes, text_eq, trim}

-- `decimal n k` is n / 10 ^ k.
pub data Number : Type 0 where
  nan infinity neg_infinity : Number
  decimal : ℤ → ℕ → Number

abbrev pub integer : ℕ → Number
integer n = decimal (pos n) 0

abbrev pub magnitude : ℤ → ℕ
magnitude (pos n) = n
magnitude (negsuc n) = suc n

-- Number.isFinite
abbrev pub is_finite : Number → Bool
is_finite (decimal _ _) = true
is_finite _ = false

-- Number.isSafeInteger
abbrev pub max_safe_integer : ℕ
max_safe_integer = 2 ^ 53 - 1

unfoldable pub is_safe_integer : Number → Bool
is_safe_integer (decimal n k) =
    magnitude n % 10 ^ k == 0 && leb (magnitude n / 10 ^ k) max_safe_integer
is_safe_integer _ = false

-- x <= 0
abbrev pub le_zero : Number → Bool
le_zero nan = false
le_zero infinity = false
le_zero neg_infinity = true
le_zero (decimal (pos n) k) = n == 0
le_zero (decimal (negsuc n) k) = true

-- x || other: zero and NaN are falsy
abbrev pub or_number : Number → Number → Number
or_number nan other = other
or_number (decimal (pos zero) k) other = other
or_number x other = x

-- Math.max(0, x)
abbrev pub max_zero : Number → Number
max_zero neg_infinity = integer 0
max_zero (decimal (negsuc n) k) = integer 0
max_zero x = x

-- x / 1000
abbrev pub div_1000 : Number → Number
div_1000 (decimal n k) = decimal n (3 + k)
div_1000 x = x

-- Math.floor of n / m
abbrev pub floor_div : ℤ → ℕ → ℤ
floor_div (pos n) m = pos (n / m)
floor_div (negsuc n) m = negsuc (n / m)

-- Math.floor
unfoldable pub floor : Number → Number
floor (decimal n k) = decimal (floor_div n (10 ^ k)) 0
floor x = x

abbrev pub is_digit : ℕ → Bool
is_digit c = leb b'0' c && leb c b'9'

-- The value of the leading digits read on from `n`, their count on from `k`, and what follows.
unfoldable pub span_digits : ℕ → ℕ → Text → ℕ × ℕ × Text
span_digits n k [] = (n, k, [])
span_digits n k (c ∷ s) =
    if is_digit c then span_digits (n * 10 + (c - b'0')) (k + 1) s else (n, k, c ∷ s)

-- Digits to the end of the text, one at least.
all_digits : Text → Option ℕ
unfolding span_digits
all_digits s =
    let (n, k, rest) = span_digits 0 0 s in
    elim rest [ [] ↦ if k == 0 then none else some n | _ ∷ _ ↦ none ]

negated : ℕ → ℤ
negated zero = pos 0
negated (suc n) = negsuc n

-- The digits of an exponent, with their sign.
exponent_digits : Text → Option ℤ
unfolding all_digits negated
exponent_digits [] = none
exponent_digits (c ∷ s) =
    if c == b'-'
    then elim (all_digits s) [ none ↦ none | some e ↦ some (negated e) ]
    else elim (all_digits (if c == b'+' then s else c ∷ s)) [ none ↦ none | some e ↦ some (pos e) ]

unfoldable pub exponent : Text → Option ℤ
unfolding exponent_digits
exponent [] = some (pos 0)
exponent (c ∷ s) = if c == b'e' || c == b'E' then exponent_digits s else none

-- Past this bound a double is an infinity.
abbrev pub overflow_bound : ℕ
overflow_bound = 2 ^ 1024 - 2 ^ 970

unfoldable pub signed : Bool → ℕ → ℤ
unfolding negated
signed negative n = if negative then negated n else pos n

unfoldable pub finite_or_infinity : Bool → ℕ → ℕ → Number
unfolding signed
finite_or_infinity negative n k =
    if leb (overflow_bound * 10 ^ k) n
    then if negative then neg_infinity else infinity
    else decimal (signed negative n) k

unfoldable pub scaled : Bool → ℕ → ℕ → Option ℤ → Number
unfolding finite_or_infinity
scaled negative n k none = nan
scaled negative n k (some (pos e)) = finite_or_infinity negative (n * 10 ^ e) k
scaled negative n k (some (negsuc e)) = finite_or_infinity negative n (k + suc e)

-- After the integer digits, `k` of them with value `n`: a fraction, an exponent.
unfoldable pub fraction : Bool → ℕ → ℕ → Text → Number
unfolding span_digits scaled exponent
fraction negative n k [] = if k == 0 then nan else scaled negative n 0 (exponent [])
fraction negative n k (c ∷ s) =
    if c == b'.'
    then (let (m, j, rest) = span_digits n 0 s in
        if k + j == 0 then nan else scaled negative m j (exponent rest))
    else if k == 0
    then nan
    else scaled negative n 0 (exponent (c ∷ s))

unfoldable pub unsigned : Bool → Text → Number
unfolding span_digits fraction text_eq
unsigned negative s =
    if text_eq s (codes "Infinity")
    then if negative then neg_infinity else infinity
    else let (n, k, rest) = span_digits 0 0 s in fraction negative n k rest

unfoldable pub signed_decimal : Text → Number
unfolding unsigned
signed_decimal [] = integer 0
signed_decimal (c ∷ s) =
    if c == b'-' then unsigned true s else unsigned false (if c == b'+' then s else c ∷ s)

-- The value of a digit of a base up to 16.
unfoldable pub digit_value : ℕ → Option ℕ
digit_value c =
    if leb b'0' c && leb c b'9'
    then some (c - b'0')
    else if leb b'a' c && leb c b'f'
    then some (c - b'a' + 10)
    else if leb b'A' c && leb c b'F'
    then some (c - b'A' + 10)
    else none

digit_below : ℕ → Option ℕ → Option ℕ
digit_below base none = none
digit_below base (some d) = if leb base d then none else some d

in_base : ℕ → ℕ → Text → Number
unfolding digit_below digit_value finite_or_infinity
in_base base n [] = finite_or_infinity false n 0
in_base base n (c ∷ s) = elim (digit_below base (digit_value c)) [
  | none ↦ nan
  | some d ↦ in_base base (n * base + d) s
]

in_base_1 : ℕ → Text → Number
unfolding in_base
in_base_1 base [] = nan
in_base_1 base (c ∷ s) = in_base base 0 (c ∷ s)

unfoldable pub prefixed : ℕ → Text → Text → Number
unfolding in_base_1 signed_decimal
prefixed mark s whole =
    if mark == b'x' || mark == b'X'
    then in_base_1 16 s
    else if mark == b'o' || mark == b'O'
    then in_base_1 8 s
    else if mark == b'b' || mark == b'B'
    then in_base_1 2 s
    else signed_decimal whole

unfoldable pub literal : Text → Number
unfolding prefixed signed_decimal
literal (zero_digit ∷ mark ∷ s) =
    if zero_digit == b'0'
    then prefixed mark s (zero_digit ∷ mark ∷ s)
    else signed_decimal (zero_digit ∷ mark ∷ s)
literal s = signed_decimal s

-- Number(text)
unfoldable pub to_number : Text → Number
unfolding literal trim
to_number s = literal (trim s)

-- ===, between numbers.
unfoldable pub same_number : Number → Number → Bool
same_number infinity infinity = true
same_number neg_infinity neg_infinity = true
same_number (decimal (pos a) k) (decimal (pos b) j) = a * 10 ^ j == b * 10 ^ k
same_number (decimal (negsuc a) k) (decimal (negsuc b) j) = suc a * 10 ^ j == suc b * 10 ^ k
same_number _ _ = false
