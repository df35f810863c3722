-- ===== src/Display/Hex.antt =====
-- Colours that are typed in.
use danmaku.Prelude.{
  ℕ, ◌≤◌, ◌≡◌, ◌⊎◌, inl, inr, refl, ap, ◌∙◌, true, false, Bool-cases, Option, none, some, [], ◌∷◌,
  arith, all, if◌then◌else◌,
}
use mathlib.Core.Path.{subst}
use danmaku.Js.Text.{Text, trim, trim_start, trim_end, is_white_space, keep_before}
use danmaku.Display.{is_hex, lower, normalize_digits, normalize_hex, without_hash}

-- A digit as the console writes it.
abbrev pub IsDigit : ℕ → Type 0
IsDigit c = ((b'0' ≤ c) × (c ≤ b'9')) ⊎ ((b'a' ≤ c) × (c ≤ b'f'))

pub data IsColor : Text → Type 0 where
  color :
      {a b c d e f : ℕ}
      → IsDigit a
      → IsDigit b
      → IsDigit c
      → IsDigit d
      → IsDigit e
      → IsDigit f
      → IsColor (b'#' ∷ a ∷ b ∷ c ∷ d ∷ e ∷ f ∷ [])

lower-IsDigit : (c : ℕ) → is_hex c ≡ true → IsDigit (lower c)
unfolding is_hex lower
lower-IsDigit c h = ground arith

digit-lower : (c : ℕ) → IsDigit c → (is_hex c ≡ true) × (lower c ≡ c)
unfolding is_hex lower
digit-lower c h = ground arith

abbrev Fine : Option Text → Type 0
Fine none = Unit
Fine (some h) = IsColor h

normalize_digits-Fine : (s : Text) → Fine (normalize_digits s)
unfolding normalize_digits
normalize_digits-Fine [] = tt
normalize_digits-Fine (a ∷ []) = tt
normalize_digits-Fine (a ∷ b ∷ []) = tt
normalize_digits-Fine (a ∷ b ∷ c ∷ []) = elim (Bool-cases (all is_hex (a ∷ b ∷ c ∷ []))) [
  | inl e ↦
      let x = lower-IsDigit a (ground arith) in
      let y = lower-IsDigit b (ground arith) in
      let z = lower-IsDigit c (ground arith) in rw e (color x x y y z z)
  | inr e ↦ rw e tt
]
normalize_digits-Fine (a ∷ b ∷ c ∷ d ∷ []) = tt
normalize_digits-Fine (a ∷ b ∷ c ∷ d ∷ x ∷ []) = tt
normalize_digits-Fine (a ∷ b ∷ c ∷ d ∷ x ∷ y ∷ []) =
    elim (Bool-cases (all is_hex (a ∷ b ∷ c ∷ d ∷ x ∷ y ∷ []))) [
      | inl e ↦ rw e (
          color (lower-IsDigit a (ground arith)) (lower-IsDigit b (ground arith))
            (lower-IsDigit c (ground arith)) (lower-IsDigit d (ground arith))
            (lower-IsDigit x (ground arith)) (lower-IsDigit y (ground arith)))
      | inr e ↦ rw e tt
    ]
normalize_digits-Fine (a ∷ b ∷ c ∷ d ∷ x ∷ y ∷ z ∷ s) = tt

-- A typed colour that is taken is written with a # and six digits in lower case.
pub normalize_hex-IsColor : (value h : Text) → normalize_hex value ≡ some h → IsColor h
unfolding normalize_hex
normalize_hex-IsColor value h e = subst Fine e (normalize_digits-Fine (without_hash (trim value)))

digit-not_white : (c : ℕ) → IsDigit c → is_white_space c ≡ false
unfolding is_white_space
digit-not_white c h = ground arith

trim_start-hash : (s : Text) → trim_start (b'#' ∷ s) ≡ b'#' ∷ s
unfolding trim_start is_white_space
trim_start-hash s = refl

trim_end-last : (c : ℕ) → is_white_space c ≡ false → trim_end (c ∷ []) ≡ c ∷ []
unfolding trim_end
trim_end-last c h = ap (λ b. if b then [] else c ∷ []) h

trim_end-cons : (c d : ℕ) (s t : Text) → trim_end s ≡ d ∷ t → trim_end (c ∷ s) ≡ c ∷ d ∷ t
unfolding trim_end
trim_end-cons c d s t h = ap (keep_before c) h

trim-digits :
    (a b c d e f : ℕ)
    → is_white_space f ≡ false
    → trim (b'#' ∷ a ∷ b ∷ c ∷ d ∷ e ∷ f ∷ []) ≡ b'#' ∷ a ∷ b ∷ c ∷ d ∷ e ∷ f ∷ []
unfolding trim
trim-digits a b c d e f h =
    let five = trim_end-cons e f (f ∷ []) [] (trim_end-last f h) in
    let four = trim_end-cons d e (e ∷ f ∷ []) (f ∷ []) five in
    let three = trim_end-cons c d (d ∷ e ∷ f ∷ []) (e ∷ f ∷ []) four in
    let two = trim_end-cons b c (c ∷ d ∷ e ∷ f ∷ []) (d ∷ e ∷ f ∷ []) three in
    let one = trim_end-cons a b (b ∷ c ∷ d ∷ e ∷ f ∷ []) (c ∷ d ∷ e ∷ f ∷ []) two in
    ap trim_end (trim_start-hash (a ∷ b ∷ c ∷ d ∷ e ∷ f ∷ []))
    ∙ trim_end-cons b'#' a (a ∷ b ∷ c ∷ d ∷ e ∷ f ∷ []) (b ∷ c ∷ d ∷ e ∷ f ∷ []) one

trim-IsColor : (h : Text) → IsColor h → trim h ≡ h
trim-IsColor h (color p q r s t u) = trim-digits _ _ _ _ _ _ (digit-not_white _ u)

normalize_digits-color : (h : Text) → IsColor h → normalize_digits (without_hash h) ≡ some h
unfolding normalize_digits
normalize_digits-color h (color p q r s t u) =
    let (hex_p, low_p) = digit-lower _ p in
    let (hex_q, low_q) = digit-lower _ q in
    let (hex_r, low_r) = digit-lower _ r in
    let (hex_s, low_s) = digit-lower _ s in
    let (hex_t, low_t) = digit-lower _ t in
    let (hex_u, low_u) = digit-lower _ u in
    rw (hex_p, hex_q, hex_r, hex_s, hex_t, hex_u, low_p, low_q, low_r, low_s, low_t, low_u) refl

-- A colour as the console writes it, with a # and six digits in lower case, is taken as it is.
pub normalize_hex-color : (h : Text) → IsColor h → normalize_hex h ≡ some h
unfolding normalize_hex
normalize_hex-color h k =
    ap (λ t. normalize_digits (without_hash t)) (trim-IsColor h k) ∙ normalize_digits-color h k
