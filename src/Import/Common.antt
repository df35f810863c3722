-- ===== src/Import/Common.antt =====
-- The console's own format, `common.json`: importCommonJSON and normalizeCommonItem, and the
-- repairs of the DPlayer and ArtPlayer formats.
pub mod RoundTrip
pub mod Accepts
use danmaku.Prelude.{Bool, true, false, ◌&&◌, List, [], ◌∷◌, some, if◌then◌else◌}
use danmaku.Js.Text.{Text, codes}
use danmaku.Js.Number.{Number, integer, is_finite}
use danmaku.Js.Outcome.{error, Outcome, returned, thrown}
use danmaku.Js.Value.{
  Value, number, string, array, object, end, field, property, has_property, is_object, items,
}
use danmaku.Api.Types.Danmaku.{DanmakuData}

-- finiteNumber
unfoldable pub finite_number : Value → Number → Number
finite_number (number x) fallback = if is_finite x then x else fallback
finite_number v fallback = fallback

abbrev pub text_or_empty : Value → Text
text_or_empty (string s) = s
text_or_empty v = []

-- The item that is read once its text is known; `now` is Math.floor(Date.now() / 1000).
unfoldable pub common_item : Number → Value → Text → DanmakuData
unfolding finite_number
common_item now item text = record {
  time = finite_number (property (codes "time") item) (integer 0);
  mode = finite_number (property (codes "mode") item) (integer 1);
  size = finite_number (property (codes "size") item) (integer 25);
  color = finite_number (property (codes "color") item) (integer 0xffffff);
  time_stamp = finite_number (property (codes "timeStamp") item) now;
  pool = finite_number (property (codes "pool") item) (integer 0);
  author = text_or_empty (property (codes "author") item);
  author_id = finite_number (property (codes "authorId") item) (integer 0);
  text = some text;
}

unfoldable pub with_text : Number → Value → Value → Outcome DanmakuData
unfolding common_item
with_text now item (string s) = returned (common_item now item s)
with_text now item v = thrown (error (codes "弹幕内容无效"))

unfoldable pub normalize_common_item : Number → Value → Outcome DanmakuData
unfolding with_text
normalize_common_item now value =
    if is_object value
    then with_text now value (property (codes "text") value)
    else thrown (error (codes "弹幕记录无效"))

abbrev pub push_front : {A : Type 0} → Outcome A → Outcome (List A) → Outcome (List A)
push_front (thrown e) rest = thrown e
push_front (returned x) (thrown e) = thrown e
push_front (returned x) (returned xs) = returned (x ∷ xs)

-- value.map(...), where the function may throw: the first item that throws ends it.
unfoldable pub map_or_throw : {A B : Type 0} → (A → Outcome B) → List A → Outcome (List B)
map_or_throw f [] = returned []
map_or_throw f (x ∷ xs) = push_front (f x) (map_or_throw f xs)

-- The array itself, or the `data` of a response.
unfoldable pub envelope_data : Value → Value
envelope_data parsed =
    if is_object parsed && has_property (codes "data") parsed
    then property (codes "data") parsed
    else parsed

unfoldable pub import_array : Number → Value → Outcome (List DanmakuData)
unfolding map_or_throw normalize_common_item
import_array now (array vs) = map_or_throw (normalize_common_item now) (items vs)
import_array now v = thrown (error (codes "本系统 JSON 中没有弹幕数组"))

-- importCommonJSON, from the parsed text on.
unfoldable pub import_common_parsed : Number → Value → Outcome (List DanmakuData)
unfolding import_array envelope_data
import_common_parsed now parsed = import_array now (envelope_data parsed)

-- normalizeDPlayer
unfoldable pub normalize_dplayer : Value → Value
normalize_dplayer value =
    if is_object value && has_property (codes "data") value
    then value
    else object (field (codes "code") (number (integer 0)) (field (codes "data") value end))

abbrev is_array : Value → Bool
is_array (array _) = true
is_array _ = false

-- normalizeArtPlayer
unfoldable pub normalize_artplayer : Value → Value
normalize_artplayer value =
    if is_object value
    then if has_property (codes "danmuku") value
      then value
      else if has_property (codes "data") value && is_array (property (codes "data") value)
      then object (field (codes "danmuku") (property (codes "data") value) end)
      else value
    else value
