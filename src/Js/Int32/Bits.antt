-- ===== src/Js/Int32/Bits.antt =====
-- `|` of numbers whose bits do not overlap is their sum.
use Prim.Native.Nat.{max, bit_or, bit_or-bitwise, digits}
use native.Mathlib.Nat.{pow-suc, mul_assoc}
use danmaku.Prelude.{ℕ, zero, suc, ◌+◌, ◌*◌, ◌/◌, ◌%◌, ◌^◌, ◌≤◌, ◌<◌, ◌≡◌, refl, ap, arith}

-- What `bit_or` is, on fuel: bit by bit, from the lowest.
abbrev or_digits : ℕ → ℕ → ℕ → ℕ
or_digits fuel a b = digits (λ rest. rest) max fuel a b

or_digits_fuel : (n m a b : ℕ) → a ≤ n → a ≤ m → or_digits n a b ≡ or_digits m a b
or_digits_fuel zero zero a b p q = refl
or_digits_fuel zero (suc m) zero b p q = refl
or_digits_fuel zero (suc m) (suc a) b p q = absurd (omega arith)
or_digits_fuel (suc n) zero zero b p q = refl
or_digits_fuel (suc n) zero (suc a) b p q = absurd (omega arith)
or_digits_fuel (suc n) (suc m) zero b p q = refl
or_digits_fuel (suc n) (suc m) (suc a) b p q =
    omega (arith, or_digits_fuel n m (suc a / 2) (b / 2) (omega arith) (omega arith))

zero-bit_or : (b : ℕ) → bit_or 0 b ≡ b
zero-bit_or b = bit_or-bitwise 0 b

-- The lowest bit, and the rest.
bit_or_step : (a b : ℕ) → bit_or a b ≡ bit_or (a / 2) (b / 2) * 2 + max (a % 2) (b % 2)
bit_or_step zero b = omega (arith, zero-bit_or b, zero-bit_or (b / 2))
bit_or_step (suc a) b = omega (
  arith,
  bit_or-bitwise (suc a) b,
  bit_or-bitwise (suc a / 2) (b / 2),
  or_digits_fuel a (suc a / 2) (suc a / 2) (b / 2) (omega arith) (omega arith),
)

bit_or-zero_fuel : (n a : ℕ) → a ≤ n → bit_or a 0 ≡ a
bit_or-zero_fuel n zero h = refl
bit_or-zero_fuel zero (suc a) h = absurd (omega arith)
bit_or-zero_fuel (suc n) (suc a) h =
    omega (arith, bit_or_step (suc a) 0, bit_or-zero_fuel n (suc a / 2) (omega arith))

bit_or-double : (m b : ℕ) → bit_or (m * 2) b ≡ bit_or m (b / 2) * 2 + b % 2
bit_or-double m b =
    let half : m * 2 / 2 ≡ m = omega arith in
    omega (arith, bit_or_step (m * 2) b, ap (λ n. bit_or n (b / 2)) half)

-- The bits of `b` fit below those of `a * 2 ^ k`.
pub bit_or-shifted : (k a b : ℕ) → b < 2 ^ k → bit_or (a * 2 ^ k) b ≡ a * 2 ^ k + b
bit_or-shifted zero a zero h =
    let e : a * 1 ≡ a = omega arith in rw e (omega (arith, bit_or-zero_fuel a a (omega arith)))
bit_or-shifted zero a (suc b) h = absurd (omega arith)
bit_or-shifted (suc k) a b h =
    let e : a * 2 ^ suc k ≡ a * 2 ^ k * 2 = simp (pow-suc, mul_assoc) in
    rw e (
      omega (
        arith,
        bit_or-double (a * 2 ^ k) b,
        bit_or-shifted k a (b / 2) (omega (arith, pow-suc 2 k)),
      ))
