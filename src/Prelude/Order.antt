-- ===== src/Prelude/Order.antt =====
-- Products and quotients of native numbers in inequalities.
use Prim.Native.Nat.{ℕ, ◌+◌, ◌-◌, ◌*◌, ◌/◌, ◌≤◌, ◌<◌}
use mathlib.Core.Path.{◌≡◌}
use native.Mathlib.Omega.{arith}
use native.Mathlib.Nat.{div-add-mod, mod-lt}
use mathlib.Core.Logic.{inl, inr}
use danmaku.Prelude.Tests.{ltb, Bool-cases}

pub mul-le : (n m q : ℕ) → n ≤ m → n * q ≤ m * q
mul-le n m q h =
    let e : m ≡ n + (m - n) = omega arith in
    let products : (n + (m - n)) * q ≡ n * q + (m - n) * q = omega arith in
    rw e (rw products (omega arith))

-- The quotient lies between its product and the next.
pub div-bounds : (n d : ℕ) → 1 ≤ d → ((n / d) * d ≤ n) × (n < (n / d) * d + d)
div-bounds n d h =
    let sum = div-add-mod n d in
    let small = mod-lt n {m = d} (omega (arith, h)) in
    let swapped : d * (n / d) ≡ (n / d) * d = omega arith in
    (omega (arith, sum, small, swapped), omega (arith, sum, small, swapped))

pub lt-of_mul : (n m q : ℕ) → n * q < m * q → n < m
lt-of_mul n m q h = elim (Bool-cases (ltb n m)) [
  | inl e ↦ ground arith
  | inr e ↦ let more = mul-le m n q (ground arith) in absurd (omega (arith, h, more))
]
