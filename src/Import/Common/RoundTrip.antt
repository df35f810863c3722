-- ===== src/Import/Common/RoundTrip.antt =====
-- A list that the server has exported is imported unchanged.
use danmaku.Prelude.{true, ◌≡◌, refl, sym, ap, List, [], ◌∷◌, some, All}
use danmaku.Js.Text.{Text, codes, text_eq}
use danmaku.Js.Number.{Number, integer, is_finite}
use danmaku.Js.Outcome.{returned}
use danmaku.Js.Value.{
  Value, number, string, array, object, end, field, property, has_property, of_items, items,
}
use danmaku.Api.Types.Danmaku.{DanmakuData}
use danmaku.Import.Common.{
  normalize_common_item, map_or_throw, import_common_parsed, common_item, finite_number,
}

-- The JSON of a danmaku with a text, as the server writes `DanmakuData`.
abbrev pub danmaku_value : DanmakuData → Text → Value
danmaku_value d text = object (
    field (codes "time") (number d.time) (
      field (codes "mode") (number d.mode) (
        field (codes "size") (number d.size) (
          field (codes "color") (number d.color) (
            field (codes "timeStamp") (number d.time_stamp) (
              field (codes "pool") (number d.pool) (
                field (codes "author") (string d.author) (
                  field (codes "authorId") (number d.author_id)
                    (field (codes "text") (string text) end)))))))))

-- JSON has finite numbers only.
pub record IsExportable (d : DanmakuData) : Type 0 where
  pub text : Text
  pub has_text : d.text ≡ some text
  pub time : is_finite d.time ≡ true
  pub mode : is_finite d.mode ≡ true
  pub size : is_finite d.size ≡ true
  pub color : is_finite d.color ≡ true
  pub time_stamp : is_finite d.time_stamp ≡ true
  pub pool : is_finite d.pool ≡ true
  pub author_id : is_finite d.author_id ≡ true

abbrev pub exported : (ds : List DanmakuData) → All IsExportable ds → List Value
exported [] _ = []
exported (d ∷ ds) (e, es) = danmaku_value d e.text ∷ exported ds es

finite_number-number :
    (x fallback : Number) → is_finite x ≡ true → finite_number (number x) fallback ≡ x
unfolding finite_number
finite_number-number x fallback h = rw h

-- The item that is read is the item that was written, field by field.
common_item-danmaku_value :
    (now : Number) (d : DanmakuData) (e : IsExportable d)
    → common_item now (danmaku_value d e.text) e.text ≡ d
unfolding common_item property text_eq
common_item-danmaku_value now d e = λ i. record {
  time = finite_number-number d.time (integer 0) e.time i;
  mode = finite_number-number d.mode (integer 1) e.mode i;
  size = finite_number-number d.size (integer 25) e.size i;
  color = finite_number-number d.color (integer 0xffffff) e.color i;
  time_stamp = finite_number-number d.time_stamp now e.time_stamp i;
  pool = finite_number-number d.pool (integer 0) e.pool i;
  author = d.author;
  author_id = finite_number-number d.author_id (integer 0) e.author_id i;
  text = sym e.has_text i;
}

normalize_common_item-danmaku_value :
    (now : Number) (d : DanmakuData) (e : IsExportable d)
    → normalize_common_item now (danmaku_value d e.text) ≡ returned d
unfolding normalize_common_item property text_eq
normalize_common_item-danmaku_value now d e = ap returned (common_item-danmaku_value now d e)

map_or_throw-exported :
    (now : Number) (ds : List DanmakuData) (es : All IsExportable ds)
    → map_or_throw (normalize_common_item now) (items (of_items (exported ds es))) ≡ returned ds
unfolding map_or_throw
map_or_throw-exported now [] es = refl
map_or_throw-exported now (d ∷ ds) (e, es) =
    rw (normalize_common_item-danmaku_value now d e, map_or_throw-exported now ds es)

-- Importing the array of exported danmaku, bare or as the `data` of a response with any code, gives
-- back the danmaku, whatever the clock says: each has a text and finite numbers.
pub import-exported :
    (now code : Number) (ds : List DanmakuData) (es : All IsExportable ds)
    → (import_common_parsed now (array (of_items (exported ds es))) ≡ returned ds)
      × (import_common_parsed now (
            object (
              field
                (codes "code")
                (number code)
                (field (codes "data") (array (of_items (exported ds es))) end)))
          ≡ returned ds)
unfolding import_common_parsed has_property property text_eq
import-exported now code ds es = (map_or_throw-exported now ds es, map_or_throw-exported now ds es)
