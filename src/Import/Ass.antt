-- ===== src/Import/Ass.antt =====
-- importDanAnyAss: the danmaku that dan-any has packed into comment lines of an ASS file.
pub mod Header
pub mod Color
use danmaku.Prelude.{
  ℕ, Bool, true, false, List, [], ◌∷◌, ◌++◌, map, Option, none, some, ◌%◌, ◌==◌, if◌then◌else◌,
}
use danmaku.Js.Text.{Text, codes, text_eq, is_empty, trim, after_prefix}
use danmaku.Js.Number.{Number, integer}
use danmaku.Js.Int32.{shift_left, number_or}
use danmaku.Js.Outcome.{Thrown, error, Outcome, returned, thrown}
use danmaku.Js.Value.{
  Value, number, string, array, object, Items, Fields, end, field, property, set_field, is_object,
  or_value, number_is, items, of_items,
}
use danmaku.Import.Common.{finite_number}

-- ass.split(/\r?\n/): the lines, from the units of the current one on, newest first.
abbrev pub drop_return : Text → Text
drop_return [] = []
drop_return (c ∷ s) = if c == 13 then s else c ∷ s

abbrev pub turned : Text → Text → Text
turned [] s = s
turned (c ∷ r) s = turned r (c ∷ s)

unfoldable pub lines_from : Text → Text → List Text
lines_from current [] = turned current [] ∷ []
lines_from current (c ∷ s) =
    let ended = lines_from [] s in
    let longer = lines_from (c ∷ current) s in
    if c == 10 then turned (drop_return current) [] ∷ ended else longer

unfoldable pub split_lines : Text → List Text
unfolding lines_from
split_lines ass = lines_from [] ass

-- .find((line) => line.startsWith(prefix))?.slice(prefix.length).trim() ?? ""
unfoldable pub value_after : Text → List Text → Text
unfolding after_prefix trim
value_after prefix [] = []
value_after prefix (line ∷ rest) = elim (after_prefix prefix line) [
  | some value ↦ trim value
  | none ↦ value_after prefix rest
]

-- assValue
unfoldable pub ass_value : Text → Text → Text
unfolding value_after split_lines
ass_value ass name = value_after (codes ";" ++ (name ++ codes ":")) (split_lines ass)

abbrev pub or_default : Text → Text → Text
or_default [] default = default
or_default (c ∷ s) default = c ∷ s

-- assColor
unfoldable pub ass_color : Value → Number
unfolding finite_number shift_left number_or
ass_color value =
    if is_object value
    then number_or
        (number_or (shift_left (finite_number (property (codes "r") value) (integer 255)) 16)
          (shift_left (finite_number (property (codes "g") value) (integer 255)) 8))
        (finite_number (property (codes "b") value) (integer 255))
    else integer 0xffffff

-- The properties that `...v` spreads: the indices of an array are left out.
abbrev own_fields : Value → Fields
own_fields (object fs) = fs
own_fields v = end

source_of : Value → Value
source_of item =
    let extra = property (codes "extra") item in if is_object extra then extra else item

legacy_mode : Number → ℕ
legacy_mode type = if number_is type 2 then 1 else if number_is type 3 then 2 else 0

-- One item of the legacy `Raw` list.
unfoldable pub restored : Value → Value
unfolding source_of legacy_mode set_field finite_number ass_color
restored value =
    if is_object value
    then (let source = source_of value in
        let type = finite_number (property (codes "type") value) (integer 1) in
        let read = λ (name : Text) (fallback : Number).
          number (finite_number (property name source) fallback) in
        object (
          set_field (codes "color")
            (read (codes "color") (ass_color (property (codes "color") value)))
            (set_field (codes "content")
              (or_value (property (codes "content") source)
                (or_value (property (codes "content") value) (string [])))
              (set_field (codes "fontsize")
                (read (codes "fontsize")
                  (finite_number (property (codes "fontSizeType") value) (integer 25)))
                (set_field (codes "mode")
                  (or_value (property (codes "mode") source) (number (integer (legacy_mode type))))
                  (set_field (codes "progress")
                    (read (codes "progress")
                      (finite_number (property (codes "time") value) (integer 0)))
                    (own_fields source)))))))
    else value

-- What of the libraries and of the browser this file calls: a decoder gives bytes, and any of them
-- may throw.
module _ (atob : Text → Outcome Text) (decode_base16384 : Text → Outcome (List ℕ))
    (zstd brotli ungzip : List ℕ → Outcome (List ℕ)) where
  char_codes : Outcome Text → Outcome (List ℕ)
  char_codes (returned s) = returned (map (λ c. c % 256) s)
  char_codes (thrown e) = thrown e

  -- decodeASSValue
  unfoldable pub decode_ass_value : Text → Text → Outcome (List ℕ)
  unfolding char_codes
  decode_ass_value value base =
      if text_eq base (codes "base18384") then decode_base16384 value else char_codes (atob value)

  -- decompressASS
  unfoldable pub decompress_ass : List ℕ → Text → Outcome (List ℕ)
  decompress_ass bytes compression =
      if text_eq compression (codes "zstd")
      then zstd bytes
      else if text_eq compression (codes "brotli")
      then brotli bytes
      else if text_eq compression (codes "gzip")
      then ungzip bytes
      else thrown (error (codes "不支持的 ASS 压缩格式：" ++ compression))
