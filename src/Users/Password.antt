-- ===== src/Users/Password.antt =====
-- Generated passwords.
use danmaku.Prelude.{
  ℕ, zero, suc, ◌%◌, ◌<◌, ◌≡◌, refl, List, [], ◌∷◌, length, All, arith, Option, none, some,
}
use native.Mathlib.Nat.{mod-lt}
use danmaku.Js.Text.{Text, codes}

unfoldable pub alphabet : Text
alphabet = codes "ABCDEFGHJKLMNPQRSTUVWXYZabcdefghijkmnopqrstuvwxyz23456789"

-- text[index], where the index is inside.
unfoldable pub unit_at : ℕ → Text → Option ℕ
unit_at n [] = none
unit_at zero (c ∷ s) = some c
unit_at (suc n) (c ∷ s) = unit_at n s

-- What `join` makes of an element that may be undefined.
abbrev pub joined : Option ℕ → Text → Text
joined none rest = rest
joined (some c) rest = c ∷ rest

-- randomPassword, from the bytes that the browser draws.
unfoldable pub random_password : List ℕ → Text
unfolding unit_at alphabet
random_password [] = []
random_password (byte ∷ bytes) =
    joined (unit_at (byte % length alphabet) alphabet) (random_password bytes)

pub data Occurs (c : ℕ) : Text → Type 0 where
  here : {s : Text} → Occurs c (c ∷ s)
  there : {d : ℕ} {s : Text} → Occurs c s → Occurs c (d ∷ s)

unit_at-some : (n : ℕ) (s : Text) → n < length s → (c : ℕ) × (unit_at n s ≡ some c) × Occurs c s
unfolding unit_at
unit_at-some n [] h = absurd (omega (arith, h))
unit_at-some zero (c ∷ s) h = (c, refl, here)
unit_at-some (suc n) (c ∷ s) h =
    let (d, same, occurs) = unit_at-some n s (omega (arith, h)) in (d, same, there occurs)

length-alphabet : length alphabet ≡ 57
unfolding alphabet
length-alphabet = refl

unit_at-alphabet :
    (byte : ℕ) → (c : ℕ) × (unit_at (byte % length alphabet) alphabet ≡ some c) × Occurs c alphabet
unit_at-alphabet byte =
    let small = mod-lt byte {m = length alphabet} (omega (arith, length-alphabet)) in
    unit_at-some (byte % length alphabet) alphabet small

-- A generated password has one unit for each byte, whatever the bytes are, and each is in the
-- alphabet.
pub random_password-IsAllowed :
    (bytes : List ℕ)
    → (length (random_password bytes) ≡ length bytes)
      × All (λ c. Occurs c alphabet) (random_password bytes)
unfolding random_password
random_password-IsAllowed [] = (refl, tt)
random_password-IsAllowed (byte ∷ bytes) =
    let (same, allowed) = random_password-IsAllowed bytes in
    let (c, found, occurs) = unit_at-alphabet byte in
    rw found (omega (arith, same), (occurs, allowed))
