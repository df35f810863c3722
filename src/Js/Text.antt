-- ===== src/Js/Text.antt =====
-- JavaScript strings that the code walks or builds: lists of UTF-16 code units.
use Prim.Native.Char.{code}
use danmaku.Prelude.{
  ◌↔◌, ◌≡◌, ◌≢◌, refl, arith, ℕ, ◌-◌, String, Bool, true, false, ◌&&◌, ◌||◌, List, [], ◌∷◌, ◌++◌,
  Option, none, some, leb, ◌==◌, if◌then◌else◌, length, replicate,
}

abbrev pub Text : Type 0
Text = List ℕ

-- The code units of a literal, whose characters are all below U+10000.
abbrev pub codes : String → Text
codes String.[] = []
codes (String.◌∷◌ c s) = code c ∷ codes s

-- ===
unfoldable pub text_eq : Text → Text → Bool
text_eq [] [] = true
text_eq [] (_ ∷ _) = false
text_eq (_ ∷ _) [] = false
text_eq (x ∷ xs) (y ∷ ys) = (x == y) && text_eq xs ys

abbrev pub is_empty : Text → Bool
is_empty [] = true
is_empty (_ ∷ _) = false

-- WhiteSpace and LineTerminator, as `trim` removes them.
unfoldable pub is_white_space : ℕ → Bool
is_white_space c =
    (leb 9 c && leb c 13)
    || c == 0x20
    || c == 0xa0
    || c == 0x1680
    || (leb 0x2000 c && leb c 0x200a)
    || c == 0x2028
    || c == 0x2029
    || c == 0x202f
    || c == 0x205f
    || c == 0x3000
    || c == 0xfeff

unfoldable pub trim_start : Text → Text
trim_start [] = []
trim_start (c ∷ s) = if is_white_space c then trim_start s else c ∷ s

-- A unit goes if it is white space and so is all that follows it.
abbrev pub keep_before : ℕ → Text → Text
keep_before c [] = if is_white_space c then [] else c ∷ []
keep_before c (d ∷ s) = c ∷ d ∷ s

unfoldable pub trim_end : Text → Text
trim_end [] = []
trim_end (c ∷ s) = keep_before c (trim_end s)

unfoldable pub trim : Text → Text
unfolding trim_start trim_end is_white_space
trim s = trim_end (trim_start s)

-- padStart with a filler of one unit.
unfoldable pub pad_start : ℕ → ℕ → Text → Text
pad_start width filler s = replicate (width - length s) filler ++ s

-- startsWith(prefix), and what slice(prefix.length) leaves then.
unfoldable pub after_prefix : Text → Text → Option Text
after_prefix [] s = some s
after_prefix (p ∷ ps) [] = none
after_prefix (p ∷ ps) (c ∷ s) = if p == c then after_prefix ps s else none

pub text_eq_iff : (s t : Text) → (text_eq s t ≡ true) ↔ (s ≡ t)
unfolding text_eq
text_eq_iff [] [] = ground arith
text_eq_iff [] (y ∷ ys) = ground arith
text_eq_iff (x ∷ xs) [] = ground arith
text_eq_iff (x ∷ xs) (y ∷ ys) = ground (arith, text_eq_iff xs ys)

pub text_eq_refl : (s : Text) → text_eq s s ≡ true
text_eq_refl s = (text_eq_iff s s).1 refl

pub text_eq-apart : (s t : Text) → text_eq s t ≡ false → s ≢ t
text_eq-apart s t h e = let same : text_eq s t ≡ true = (text_eq_iff s t).1 e in cc
