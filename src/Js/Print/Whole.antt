-- ===== src/Js/Print/Whole.antt =====
-- String(n) of a whole number that is not written with an exponent, and back.
use danmaku.Prelude.{
  ℕ, zero, suc, ◌+◌, ◌-◌, ◌*◌, ◌/◌, ◌%◌, ◌^◌, ◌≤◌, ◌<◌, ◌≡◌, refl, sym, ap, ◌∙◌, Bool, true, false,
  Bool-cases, inl, inr, [], ◌∷◌, ◌++◌, arith, ltb, leb, ◌==◌, if◌then◌else◌, length, length-append,
  replicate, All, mul-le,
}
use mathlib.Core.Path.{subst}
use native.Mathlib.Nat.{div-add-mod, mod-lt, mul_assoc, pow-succ', pow-le-pow_right}
use danmaku.Js.Text.{Text, codes}
use danmaku.Js.Number.{integer, to_number}
use danmaku.Js.Print.{
  digit_unit, digits_before, to_radix, nat_text, number_text, strip_zeros, whole_or_mixed, placed,
  positive_text,
}
use danmaku.Js.Print.RoundTrip.{
  IsDigit, IsNumeral, value_from, nat_text-IsNumeral, to_number-numeral, digits_before-last,
  digits_before-more,
}

All-append_digits : (s t : Text) → All IsDigit s → All IsDigit t → All IsDigit (s ++ t)
All-append_digits [] t h k = k
All-append_digits (c ∷ s) t (d, h) k = (d, All-append_digits s t h k)

zeros-IsDigit : (d : ℕ) → All IsDigit (replicate d b'0')
zeros-IsDigit zero = tt
zeros-IsDigit (suc d) = ((omega arith, omega arith), zeros-IsDigit d)

value_from-append : (n : ℕ) (s t : Text) → value_from n (s ++ t) ≡ value_from (value_from n s) t
value_from-append n [] t = refl
value_from-append n (c ∷ s) t = value_from-append (n * 10 + (c - 48)) s t

tens : (n p : ℕ) → (n * 10 + 0) * p ≡ n * (10 * p)
tens n p = omega arith

value_from-zeros : (n d : ℕ) → value_from n (replicate d b'0') ≡ n * 10 ^ d
value_from-zeros n zero = omega arith
value_from-zeros n (suc d) =
    value_from-zeros (n * 10 + (48 - 48)) d
    ∙ tens n (10 ^ d)
    ∙ ap (λ p. n * p) (sym (pow-succ' 10 d))

-- Zeros after a numeral multiply its value.
zeros-IsNumeral :
    (m d : ℕ) (s : Text) → IsNumeral m s → IsNumeral (m * 10 ^ d) (s ++ replicate d b'0')
zeros-IsNumeral m d s h = record {
  digits = All-append_digits s _ h.digits (zeros-IsDigit d);
  value =
      value_from-append 0 s (replicate d b'0')
      ∙ ap (λ v. value_from v (replicate d b'0')) h.value
      ∙ value_from-zeros m d;
  some_digit = omega (arith, length-append s (replicate d b'0'), h.some_digit);
}

-- `m` with `dropped - k` zeros is `n`.
abbrev Stripped : ℕ → ℕ → ℕ × ℕ → Type 0
Stripped n k (m, dropped) = (d : ℕ) × (dropped ≡ k + d) × (m * 10 ^ d ≡ n)

strip_zeros-test :
    (fuel n k : ℕ) (b : Bool)
    → (n % 10 == 0) ≡ b
    → strip_zeros (suc fuel) n k ≡ (if b then strip_zeros fuel (n / 10) (suc k) else (n, k))
unfolding strip_zeros
strip_zeros-test fuel n k b e = ap (λ b. if b then strip_zeros fuel (n / 10) (suc k) else (n, k)) e

Stripped-more : (n k : ℕ) (r : ℕ × ℕ) → n % 10 ≡ 0 → Stripped (n / 10) (suc k) r → Stripped n k r
Stripped-more n k (m, dropped) h (d, count, value) =
    let sum = div-add-mod n 10 in
    let moved = tens m (10 ^ d) in
    (suc d, omega (arith, count), rw (pow-succ' 10 d) (omega (arith, value, sum, h, moved)))

strip_zeros-Stripped : (fuel n k : ℕ) → Stripped n k (strip_zeros fuel n k)
unfolding strip_zeros
strip_zeros-Stripped zero n k = (0, omega arith, omega arith)
strip_zeros-Stripped (suc fuel) n k = elim (Bool-cases (n % 10 == 0)) [
  | inl e ↦
      subst (Stripped n k) (sym (strip_zeros-test fuel n k true e))
        (Stripped-more n k _ (ground arith) (strip_zeros-Stripped fuel (n / 10) (suc k)))
  | inr e ↦
      subst (Stripped n k) (sym (strip_zeros-test fuel n k false e)) (0, omega arith, omega arith)
]

-- `s` has `j + 1` digits more than `tail`, and `n` has so many.
abbrev Long : ℕ → Text → Text → Type 0
Long n tail s = (j : ℕ) × (length s ≡ length tail + suc j) × (10 ^ j ≤ n)

digits_before-Long :
    (fuel n : ℕ) (tail : Text) → n < fuel → 1 ≤ n → Long n tail (digits_before fuel 10 n tail)
digits_before-Long zero n tail h one = absurd (omega (arith, h))
digits_before-Long (suc fuel) n tail h one = elim (Bool-cases (ltb n 10)) [
  | inl e ↦
      subst (Long n tail) (sym (digits_before-last fuel n tail e))
        (0, omega arith, omega (arith, one))
  | inr e ↦
      let above : 10 ≤ n = ground arith in
      let sum = div-add-mod n 10 in
      let small = mod-lt n {m = 10} (omega arith) in
      let (j, count, power) =
        digits_before-Long fuel (n / 10) (digit_unit (n % 10) ∷ tail) (omega (arith, sum, above, h))
          (omega (arith, sum, above, small)) in
      subst (Long n tail) (sym (digits_before-more fuel n tail e))
        (suc j, omega (arith, count), omega (arith, power, sum, pow-succ' 10 j))
]

whole-point :
    (s : Text) (d : ℕ) → length s + d ≤ 21 → 1 ≤ length s → placed s d 0 ≡ s ++ replicate d b'0'
unfolding placed whole_or_mixed
whole-point s d h one =
    let right : ltb 0 (length s + d) ≡ true = ground arith in
    let near : ltb 21 (length s + d - 0) ≡ false = ground arith in
    let past : leb (length s) (length s + d - 0) ≡ true = ground arith in
    rw (right, near, past) (ap (λ z. s ++ replicate z b'0') (omega arith))

power-apart : (i j : ℕ) → 10 ^ i < 10 ^ j → i < j
power-apart i j h = elim (Bool-cases (ltb i j)) [
  | inl e ↦ ground arith
  | inr e ↦
      let more : 10 ^ j ≤ 10 ^ i = pow-le-pow_right {n = 10} (omega arith) (ground arith) in
      absurd (omega (arith, more, h))
]

pow-add : (i j : ℕ) → 10 ^ (i + j) ≡ 10 ^ i * 10 ^ j
pow-add zero j =
    let at : 0 + j ≡ j = omega arith in
    let once : 1 * 10 ^ j ≡ 10 ^ j = omega arith in ap (λ k. 10 ^ k) at ∙ sym once
pow-add (suc i) j =
    let at : suc i + j ≡ suc (i + j) = omega arith in
    ap (λ k. 10 ^ k) at
    ∙ pow-succ' 10 (i + j)
    ∙ ap (λ p. 10 * p) (pow-add i j)
    ∙ sym (mul_assoc 10 (10 ^ i) (10 ^ j))
    ∙ ap (λ p. p * 10 ^ j) (sym (pow-succ' 10 i))

-- The first number that is written with an exponent.
abbrev pub exponent_from : ℕ
exponent_from = 10 ^ 21

nat_text-short : (m d : ℕ) → 1 ≤ m → m * 10 ^ d < exponent_from → length (nat_text m) + d ≤ 21
unfolding nat_text to_radix
nat_text-short m d one h =
    let (j, count, power) = digits_before-Long (suc m) m [] (omega arith) one in
    let scaled = mul-le (10 ^ j) m (10 ^ d) power in
    let sum = pow-add j d in
    let apart = power-apart (j + d) 21 (omega (arith, scaled, sum, h)) in
    omega (arith, count, apart)

Stripped-IsNumeral :
    (n : ℕ) (r : ℕ × ℕ)
    → 1 ≤ n
    → n < exponent_from
    → Stripped n 0 r
    → IsNumeral n (placed (nat_text r.0) r.1 0)
Stripped-IsNumeral n (m, dropped) one h (d, count, value) =
    let some : 1 ≤ m = elim (Bool-cases (leb 1 m)) [
      | inl e ↦ ground arith
      | inr e ↦
          let none : m ≡ 0 = ground arith in
          let same : 0 * 10 ^ d ≡ n = subst (λ z. z * 10 ^ d ≡ n) none value in
          absurd (omega (arith, same, one))
    ] in
    let numeral = nat_text-IsNumeral m in
    let short = nat_text-short m d some (omega (arith, value, h)) in
    let same : dropped ≡ d = omega (arith, count) in
    subst (IsNumeral n)
      (sym (whole-point (nat_text m) d short numeral.some_digit)
        ∙ ap (λ z. placed (nat_text m) z 0) (sym same))
      (subst (λ z. IsNumeral z (nat_text m ++ replicate d b'0')) value
        (zeros-IsNumeral m d (nat_text m) numeral))

zero-IsNumeral : IsNumeral 0 (codes "0")
zero-IsNumeral = record {
  digits = ((omega arith, omega arith), tt);
  value = refl;
  some_digit = omega arith;
}

-- A whole number below 10 ^ 21 is written as its decimal digits.
pub number_text-IsNumeral : (n : ℕ) → n < exponent_from → IsNumeral n (number_text (integer n))
unfolding number_text positive_text
number_text-IsNumeral zero h = zero-IsNumeral
number_text-IsNumeral (suc n) h =
    Stripped-IsNumeral (suc n) (strip_zeros (suc n) (suc n) 0) (omega arith) h
      (strip_zeros-Stripped (suc n) (suc n) 0)

-- A whole number below 10 ^ 21 is read back from String(n).
pub to_number-number_text :
    (n : ℕ) → n < exponent_from → to_number (number_text (integer n)) ≡ integer n
to_number-number_text n h = to_number-numeral n _ (number_text-IsNumeral n h) (omega (arith, h))
