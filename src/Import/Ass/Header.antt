-- ===== src/Import/Ass/Header.antt =====
-- The header lines `;Name: value` of an ASS file are found again by assValue.
use danmaku.Prelude.{
  Bool, true, false, ◌≡◌, ◌≢◌, refl, ap, ◌∙◌, List, [], ◌∷◌, ◌++◌, none, some, arith, All, ◌==◌,
  ==_iff,
}
use mathlib.Core.List.{append_assoc}
use danmaku.Js.Text.{Text, codes, trim, after_prefix}
use danmaku.Import.Ass.{turned, drop_return, lines_from, split_lines, value_after, ass_value}

-- A line has neither of the two units that end lines.
abbrev pub IsLine : Text → Type 0
IsLine line = All (λ c. (c ≢ 10) × (c ≢ 13)) line

abbrev pub line_end : Bool → Text
line_end true = 13 ∷ 10 ∷ []
line_end false = 10 ∷ []

-- The lines of a file, ended by "\r\n" or by "\n", and a last one that is not ended.
abbrev pub unlines : Bool → List Text → Text → Text
unlines crlf [] last = last
unlines crlf (line ∷ rest) last = line ++ (line_end crlf ++ unlines crlf rest last)

turned-turned : (xs ys zs : Text) → turned (turned xs ys) zs ≡ turned ys (xs ++ zs)
turned-turned [] ys zs = refl
turned-turned (x ∷ xs) ys zs = turned-turned xs (x ∷ ys) zs

drop_return-IsLine : (s : Text) → IsLine s → drop_return s ≡ s
drop_return-IsLine [] h = refl
drop_return-IsLine (c ∷ s) ((_, not_return), _) = ground arith

-- The end of a line whose units are `current`, newest first.
lines_from-line_end :
    (crlf : Bool) (current rest : Text)
    → IsLine current
    → lines_from current (line_end crlf ++ rest) ≡ turned current [] ∷ lines_from [] rest
unfolding lines_from
lines_from-line_end true current rest h = refl
lines_from-line_end false current rest h = rw (drop_return-IsLine current h)

lines_from-line :
    (crlf : Bool) (current line rest : Text)
    → IsLine current
    → IsLine line
    → lines_from current (line ++ (line_end crlf ++ rest))
      ≡ turned current line ∷ lines_from [] rest
unfolding lines_from
lines_from-line crlf current [] rest h k = lines_from-line_end crlf current rest h
lines_from-line crlf current (c ∷ line) rest h ((no_feed, no_return), k) =
    let e : (c == 10) ≡ false = ground arith in
    rw e (lines_from-line crlf (c ∷ current) line rest ((no_feed, no_return), h) k)

lines_from-last :
    (current line : Text) → IsLine line → lines_from current line ≡ turned current line ∷ []
unfolding lines_from
lines_from-last current [] h = refl
lines_from-last current (c ∷ line) ((no_feed, _), h) =
    let e : (c == 10) ≡ false = ground arith in rw e (lines_from-last (c ∷ current) line h)

-- Splitting a file gives back its lines.
pub split_lines-unlines :
    (crlf : Bool) (lines : List Text) (last : Text)
    → All IsLine lines
    → IsLine last
    → split_lines (unlines crlf lines last) ≡ lines ++ last ∷ []
unfolding split_lines
split_lines-unlines crlf [] last h k = lines_from-last [] last k
split_lines-unlines crlf (line ∷ rest) last (h, hs) k =
    lines_from-line crlf [] line (unlines crlf rest last) tt h
    ∙ ap (λ ls. line ∷ ls) (split_lines-unlines crlf rest last hs k)

All-append : (xs ys : List Text) → All IsLine xs → All IsLine ys → All IsLine (xs ++ ys)
All-append [] ys h k = k
All-append (x ∷ xs) ys (h, hs) k = (h, All-append xs ys hs k)

abbrev pub prefix : Text → Text
prefix name = codes ";" ++ (name ++ codes ":")

after_prefix-append : (p value : Text) → after_prefix p (p ++ value) ≡ some value
unfolding after_prefix
after_prefix-append [] value = refl
after_prefix-append (c ∷ p) value = rw ((==_iff c c).1 refl) (after_prefix-append p value)

value_after-first :
    (p value : Text) (before after : List Text)
    → All (λ line. after_prefix p line ≡ none) before
    → value_after p (before ++ ((p ++ value) ∷ after)) ≡ trim value
unfolding value_after
value_after-first p value [] after h = rw (after_prefix-append p value, value_after)
value_after-first p value (line ∷ before) after (e, h) =
    rw (e, value_after) (value_after-first p value before after h)

value_after-none :
    (p : Text) (lines : List Text)
    → All (λ line. after_prefix p line ≡ none) lines
    → value_after p lines ≡ []
unfolding value_after
value_after-none p [] h = refl
value_after-none p (line ∷ lines) (e, h) = rw (e, value_after) (value_after-none p lines h)

-- In a file with either line ending, in which no line before it begins with `;name:`, the line
-- `;name:value` makes assValue give the trimmed value; the lines hold no line ends themselves.
pub ass_value-unlines :
    (crlf : Bool) (name value last : Text) (before after : List Text)
    → All IsLine before
    → IsLine (prefix name ++ value)
    → All IsLine after
    → IsLine last
    → All (λ line. after_prefix (prefix name) line ≡ none) before
    → ass_value (unlines crlf (before ++ ((prefix name ++ value) ∷ after)) last) name ≡ trim value
unfolding ass_value
ass_value-unlines crlf name value last before after h k l m absent =
    ap (value_after (prefix name)) (
      split_lines-unlines crlf (before ++ ((prefix name ++ value) ∷ after)) last
        (All-append before _ h (k, l)) m
      ∙ append_assoc before _ _)
    ∙ value_after-first (prefix name) value before (after ++ last ∷ []) absent

-- A file of which no line begins with `;name:` gives the empty text.
pub ass_value-absent :
    (crlf : Bool) (name last : Text) (lines : List Text)
    → All IsLine lines
    → IsLine last
    → All (λ line. after_prefix (prefix name) line ≡ none) (lines ++ last ∷ [])
    → ass_value (unlines crlf lines last) name ≡ []
unfolding ass_value
ass_value-absent crlf name last lines h k absent =
    ap (value_after (prefix name)) (split_lines-unlines crlf lines last h k)
    ∙ value_after-none (prefix name) (lines ++ last ∷ []) absent
