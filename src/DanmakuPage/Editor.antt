-- ===== src/DanmakuPage/Editor.antt =====
-- DanmakuEditor of frontend/src/pages/danmaku-page.tsx: the form of one danmaku.
use danmaku.Prelude.{
  ℕ, ℤ, pos, negsuc, zero, suc, ◌+◌, ◌-◌, ◌*◌, Bool, false, ◌&&◌, ◌||◌, Option, none, some, [], ◌∷◌,
  leb, ◌==◌, if◌then◌else◌,
}
use danmaku.Js.Text.{Text, codes, trim_start}
use danmaku.Js.Number.{Number, nan, decimal, to_number}
use danmaku.Js.Print.{number_text}
use danmaku.Api.Types.Danmaku.{DanmakuData, Danmaku}
use danmaku.Display.{color_hex, is_hex}

-- The value of a hexadecimal digit.
unfoldable pub hex_digit : ℕ → ℕ
hex_digit c = if leb b'a' c then c - 87 else if leb b'A' c then c - 55 else c - 48

-- The digits at the beginning, read on from `n`; `none` if there are none at all.
unfoldable pub hex_digits : Option ℕ → Text → Option ℕ
unfolding is_hex hex_digit
hex_digits n [] = n
hex_digits none (c ∷ s) = if is_hex c then hex_digits (some (hex_digit c)) s else none
hex_digits (some n) (c ∷ s) =
    if is_hex c then hex_digits (some (n * 16 + hex_digit c)) s else some n

abbrev without_0x : Text → Text
without_0x (c ∷ d ∷ s) = if c == b'0' && (d == b'x' || d == b'X') then s else c ∷ d ∷ s
without_0x s = s

abbrev natural : Option ℕ → Number
natural none = nan
natural (some n) = decimal (pos n) 0

abbrev negative : Option ℕ → Number
negative none = nan
negative (some zero) = decimal (pos zero) 0
negative (some (suc n)) = decimal (negsuc n) 0

abbrev signed : Text → Number
signed [] = nan
signed (c ∷ s) =
    if c == b'-'
    then negative (hex_digits none (without_0x s))
    else natural (hex_digits none (without_0x (if c == b'+' then s else c ∷ s)))

-- Number.parseInt(text, 16)
unfoldable pub parse_int_16 : Text → Number
unfolding hex_digits trim_start
parse_int_16 s = signed (trim_start s)

pub record EditorForm : Type 0 where
  pub time : Text
  pub mode : Text
  pub size : Text
  pub color : Text
  pub text : Text
  pub deleted : Bool

abbrev pub empty_form : EditorForm
empty_form = record {
  time = codes "0";
  mode = codes "1";
  size = codes "25";
  color = codes "#ffffff";
  text = [];
  deleted = false;
}

abbrev text_or_empty : Option Text → Text
text_or_empty none = []
text_or_empty (some s) = s

-- The effect that follows the details; `color` is their colour, as a whole number.
unfoldable pub loaded_form : (color : ℤ) → Danmaku → EditorForm
unfolding number_text color_hex
loaded_form color item = record {
  time = number_text item.danmaku_data.time;
  mode = number_text item.danmaku_data.mode;
  size = number_text item.danmaku_data.size;
  color = color_hex color;
  text = text_or_empty item.danmaku_data.text;
  deleted = item.is_delete;
}

abbrev pub after_first : Text → Text
after_first [] = []
after_first (c ∷ s) = s

-- The data that a submission sends.
unfoldable pub edited_data : EditorForm → DanmakuData → DanmakuData
unfolding to_number parse_int_16
edited_data form item = record item {
  time = to_number form.time;
  mode = to_number form.mode;
  size = to_number form.size;
  color = parse_int_16 (after_first form.color);
  text = some form.text;
}

-- The item that a submission sends, of which the server gets the number, the mark and the data.
unfoldable pub edited_item : EditorForm → Danmaku → Danmaku
unfolding edited_data
edited_item form item = record item {
  is_delete = form.deleted;
  danmaku_data = edited_data form item.danmaku_data;
}
