-- ===== src/Js/Print/RoundTrip.antt =====
-- What the printer of numbers writes, the reader of numbers reads.
use danmaku.Prelude.{
  ℕ, zero, suc, ◌+◌, ◌-◌, ◌*◌, ◌/◌, ◌%◌, ◌^◌, ◌≤◌, ◌<◌, ◌≡◌, refl, sym, ap, ◌∙◌, true, false,
  Bool-cases, inl, inr, [], ◌∷◌, arith, ltb, leb, ◌==◌, if◌then◌else◌, length, All,
}
use native.Mathlib.Nat.{div-add-mod, mod-lt}
use mathlib.Core.Path.{subst}
use danmaku.Js.Text.{Text, codes, text_eq, trim, trim_start, trim_end, keep_before, is_white_space}
use danmaku.Js.Number.{
  integer, span_digits, is_digit, to_number, overflow_bound, signed_decimal, unsigned, fraction,
  scaled, exponent, finite_or_infinity, signed, prefixed, literal,
}
use danmaku.Js.Print.{digit_unit, digits_before, to_radix, nat_text}

-- A decimal digit.
abbrev pub IsDigit : ℕ → Type 0
IsDigit c = (b'0' ≤ c) × (c ≤ b'9')

-- The value of digits, read on from `n`.
abbrev pub value_from : ℕ → Text → ℕ
value_from n [] = n
value_from n (c ∷ s) = value_from (n * 10 + (c - b'0')) s

digit_unit-IsDigit : (d : ℕ) → d < 10 → IsDigit (digit_unit d) × (digit_unit d - b'0' ≡ d)
unfolding digit_unit
digit_unit-IsDigit d h = ground arith

span_digits_whole :
    (n k : ℕ) (s : Text) → All IsDigit s → span_digits n k s ≡ (value_from n s, k + length s, [])
unfolding span_digits
span_digits_whole n k [] h = ap (λ j. (n, j, [])) (omega arith)
span_digits_whole n k (c ∷ s) (d, h) =
    let digit : is_digit c ≡ true = ground arith in
    rw digit (
      span_digits_whole (n * 10 + (c - 48)) (k + 1) s h
      ∙ ap (λ j. (value_from (n * 10 + (c - 48)) s, j, [])) (omega arith))

-- `s` is digits for `n`, one at least, and those of `tail`.
abbrev Digits : ℕ → Text → Text → Type 0
Digits n tail s = All IsDigit s × (value_from 0 s ≡ value_from n tail) × (length tail < length s)

pub digits_before-last :
    (fuel n : ℕ) (tail : Text)
    → ltb n 10 ≡ true
    → digits_before (suc fuel) 10 n tail ≡ digit_unit n ∷ tail
unfolding digits_before
digits_before-last fuel n tail h =
    ap
      (λ b.
        if b
        then digit_unit n ∷ tail
        else digits_before fuel 10 (n / 10) (digit_unit (n % 10) ∷ tail))
      h

pub digits_before-more :
    (fuel n : ℕ) (tail : Text)
    → ltb n 10 ≡ false
    → digits_before (suc fuel) 10 n tail
      ≡ digits_before fuel 10 (n / 10) (digit_unit (n % 10) ∷ tail)
unfolding digits_before
digits_before-more fuel n tail h =
    ap
      (λ b.
        if b
        then digit_unit n ∷ tail
        else digits_before fuel 10 (n / 10) (digit_unit (n % 10) ∷ tail))
      h

Digits-cons :
    (n : ℕ) (tail : Text) → n < 10 → All IsDigit tail → Digits n tail (digit_unit n ∷ tail)
Digits-cons n tail below digits =
    let (is, same) = digit_unit-IsDigit n below in
    ((is, digits), ap (λ d. value_from d tail) (omega (arith, same)), omega arith)

Digits-step :
    (n : ℕ) (tail s : Text)
    → n % 10 < 10
    → Digits (n / 10) (digit_unit (n % 10) ∷ tail) s
    → Digits n tail s
Digits-step n tail s small (digits, value, longer) =
    let (is, same) = digit_unit-IsDigit (n % 10) small in
    let sum = div-add-mod n 10 in
    (digits, value ∙ ap (λ d. value_from d tail) (omega (arith, same, sum)), omega (arith, longer))

digits_before-Digits :
    (fuel n : ℕ) (tail : Text)
    → n < fuel
    → All IsDigit tail
    → Digits n tail (digits_before fuel 10 n tail)
digits_before-Digits zero n tail h digits = absurd (omega (arith, h))
digits_before-Digits (suc fuel) n tail h digits = elim (Bool-cases (ltb n 10)) [
  | inl e ↦
      subst (Digits n tail) (sym (digits_before-last fuel n tail e))
        (Digits-cons n tail (ground arith) digits)
  | inr e ↦
      let above : 10 ≤ n = ground arith in
      let small = mod-lt n {m = 10} (omega arith) in
      let sum = div-add-mod n 10 in
      let (is, same) = digit_unit-IsDigit (n % 10) small in
      subst (Digits n tail) (sym (digits_before-more fuel n tail e)) (
        Digits-step n tail _ small (
          digits_before-Digits fuel (n / 10) (digit_unit (n % 10) ∷ tail)
            (omega (arith, sum, above, h)) (is, digits)))
]

-- A text of decimal digits for `n`, at least one.
pub record IsNumeral (n : ℕ) (s : Text) : Type 0 where
  pub digits : All IsDigit s
  pub value : value_from 0 s ≡ n
  pub some_digit : 1 ≤ length s

pub nat_text-IsNumeral : (n : ℕ) → IsNumeral n (nat_text n)
unfolding nat_text to_radix
nat_text-IsNumeral n =
    let (all, value, longer) = digits_before-Digits (suc n) n [] (omega arith) tt in
    record { digits = all; value = value; some_digit = omega (arith, longer) }

finite-integer : (n : ℕ) → n < overflow_bound → finite_or_infinity false (n * 10 ^ 0) 0 ≡ integer n
unfolding finite_or_infinity signed
finite-integer n h =
    let one : n * 10 ^ 0 ≡ n = omega arith in
    let over : leb (overflow_bound * 10 ^ 0) n ≡ false = ground arith in rw (one, over) refl

fraction-integer : (n k : ℕ) → 1 ≤ k → n < overflow_bound → fraction false n k [] ≡ integer n
unfolding fraction scaled exponent
fraction-integer n k h small =
    let some_digit : (k == 0) ≡ false = ground arith in rw some_digit (finite-integer n small)

text_eq-not_word : (c : ℕ) (s : Text) → IsDigit c → text_eq (c ∷ s) (codes "Infinity") ≡ false
unfolding text_eq
text_eq-not_word c s h = let no : (c == b'I') ≡ false = ground arith in rw no refl

unsigned-numeral :
    (n : ℕ) (s : Text) → IsNumeral n s → n < overflow_bound → unsigned false s ≡ integer n
unfolding unsigned
unsigned-numeral n [] h small = absurd (omega (arith, h.some_digit))
unsigned-numeral n (c ∷ s) h small =
    let (digit, _) = h.digits in
    let not_word = text_eq-not_word c s digit in
    let read = span_digits_whole 0 0 (c ∷ s) h.digits in
    rw not_word (
      ap (λ r. fraction false r.0 r.1 r.2) read
      ∙ fraction-integer (value_from 0 (c ∷ s)) (0 + length (c ∷ s)) (omega arith)
          (omega (arith, small, h.value))
      ∙ ap integer h.value)

-- A digit is none of the units that the reader of numbers takes apart.
signed_decimal-numeral :
    (n : ℕ) (s : Text) → IsNumeral n s → n < overflow_bound → signed_decimal s ≡ integer n
unfolding signed_decimal
signed_decimal-numeral n [] h small = absurd (omega (arith, h.some_digit))
signed_decimal-numeral n (c ∷ s) h small =
    let (digit, _) = h.digits in
    let minus : (c == b'-') ≡ false = ground arith in
    let plus : (c == b'+') ≡ false = ground arith in
    rw (minus, plus) (unsigned-numeral n (c ∷ s) h small)

prefixed-digit : (d : ℕ) (s whole : Text) → IsDigit d → prefixed d s whole ≡ signed_decimal whole
unfolding prefixed
prefixed-digit d s whole h = ground arith

literal-numeral : (n : ℕ) (s : Text) → IsNumeral n s → n < overflow_bound → literal s ≡ integer n
unfolding literal
literal-numeral n [] h small = absurd (omega (arith, h.some_digit))
literal-numeral n (c ∷ []) h small = signed_decimal-numeral n (c ∷ []) h small
literal-numeral n (c ∷ d ∷ s) h small = elim (Bool-cases (c == b'0')) [
  | inl e ↦
      rw e
        (prefixed-digit d s (c ∷ d ∷ s) h.digits.1.0 ∙ signed_decimal-numeral n (c ∷ d ∷ s) h small)
  | inr e ↦ rw e (signed_decimal-numeral n (c ∷ d ∷ s) h small)
]

digit-not_white : (c : ℕ) → IsDigit c → is_white_space c ≡ false
unfolding is_white_space
digit-not_white c h = ground arith

trim_end-digits : (s : Text) → All IsDigit s → trim_end s ≡ s
unfolding trim_end
trim_end-digits [] h = refl
trim_end-digits (c ∷ []) (h, _) = ap (λ b. if b then [] else c ∷ []) (digit-not_white c h)
trim_end-digits (c ∷ d ∷ s) (_, h) = ap (keep_before c) (trim_end-digits (d ∷ s) h)

trim_start-digits : (s : Text) → All IsDigit s → trim_start s ≡ s
unfolding trim_start
trim_start-digits [] h = refl
trim_start-digits (c ∷ s) (h, _) = ap (λ b. if b then trim_start s else c ∷ s) (digit-not_white c h)

-- The reader of numbers reads a numeral.
pub to_number-numeral :
    (n : ℕ) (s : Text) → IsNumeral n s → n < overflow_bound → to_number s ≡ integer n
unfolding to_number trim
to_number-numeral n s h small =
    ap literal (ap trim_end (trim_start-digits s h.digits) ∙ trim_end-digits s h.digits)
    ∙ literal-numeral n s h small
