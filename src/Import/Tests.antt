-- ===== src/Import/Tests.antt =====
-- Imports of small files, and the theorems at those files.
use danmaku.Prelude.{
  ◌≡◌, ◌↔◌, refl, true, List, [], ◌∷◌, ◌++◌, some, none, arith, length, pos, negsuc, All,
}
use danmaku.Js.Text.{Text, codes, text_eq, trim, after_prefix}
use danmaku.Js.Number.{nan, integer, decimal, floor}
use danmaku.Js.Outcome.{returned, thrown, error, other}
use danmaku.Js.Value.{
  Value, number, array, object, field, end, items, of_items, property, Items, has_property,
}
use danmaku.Api.Types.Danmaku.{DanmakuData}
use danmaku.Import.Common.{import_common_parsed}
use danmaku.Import.Common.RoundTrip.{IsExportable, exported, import-exported}
use danmaku.Import.Common.Accepts.{
  IsDanmaku, IsFileOf, IsSound, import_common-accepts, import_common-IsSound,
}
use danmaku.Import.Normalized.{DanAnyItem, normalized_danmaku}
use danmaku.Import.Normalized.Ranges.{AllNormal, normalized_danmaku-AllNormal}
use danmaku.Import.Ass.{ass_value, ass_color}
use danmaku.Import.Ass.Header.{unlines, prefix, ass_value-unlines}
use danmaku.Import.Ass.Color.{color_value, ass_color_lem}
use danmaku.Import.File.{ImportFormat, Platform, Event, import_danmaku_file}
use danmaku.Import.File.Database.{IsClean, import_danmaku_file-IsClean}

abbrev hello : DanmakuData
hello = record {
  time = decimal (pos 125) 2;
  mode = integer 1;
  size = integer 25;
  color = integer 0xffffff;
  time_stamp = integer 123;
  pool = integer 0;
  author = codes "alice";
  author_id = integer 0;
  text = some (codes "hello");
}

abbrev hello_exportable : IsExportable hello
hello_exportable = record {
  text = codes "hello";
  has_text = refl;
  time = refl;
  mode = refl;
  size = refl;
  color = refl;
  time_stamp = refl;
  pool = refl;
  author_id = refl;
}

abbrev export : Value
export = object (
    field (codes "code") (number (integer 0))
      (field (codes "data") (array (of_items (exported (hello ∷ []) (hello_exportable, tt)))) end))

import_test : import_common_parsed nan export ≡ returned (hello ∷ [])
unfolding import_common_parsed property has_property
import_test = refl

import-exported_example :
    (import_common_parsed nan (array (of_items (exported (hello ∷ []) (hello_exportable, tt))))
      ≡ returned (hello ∷ []))
    × (import_common_parsed nan export ≡ returned (hello ∷ []))
import-exported_example = import-exported nan (integer 0) (hello ∷ []) (hello_exportable, tt)

import_common-accepts_example :
    ((ds : List DanmakuData) × (import_common_parsed (integer 9) export ≡ returned ds))
    ↔ ((vs : Items) × IsFileOf export vs × All IsDanmaku (items vs))
import_common-accepts_example = import_common-accepts (integer 9) refl export

import_common-IsSound_example :
    All IsSound (hello ∷ [])
    × ((vs : Items) × IsFileOf export vs × (length (hello ∷ []) ≡ length (items vs)))
unfolding import_common_parsed property has_property
import_common-IsSound_example = import_common-IsSound (integer 9) refl export (hello ∷ []) refl

abbrev top : DanAnyItem
top = record {
  progress = decimal (negsuc 499) 0;
  mode = codes "Top";
  fontsize = integer 0;
  color = nan;
  ctime = none;
  pool = codes "Adv";
  sender_id = none;
  content = codes "top";
}

normalized_test :
    normalized_danmaku (integer 1700000000999) (top ∷ [])
    ≡ record {
      time = integer 0;
      mode = integer 5;
      size = integer 25;
      color = integer 0xffffff;
      time_stamp = integer 1700000000;
      pool = integer 2;
      author = [];
      author_id = integer 0;
      text = some (codes "top");
    }
      ∷ []
unfolding normalized_danmaku floor text_eq
normalized_test = refl

normalized_danmaku-AllNormal_example :
    AllNormal (top ∷ []) (normalized_danmaku (integer 1700000000999) (top ∷ []))
normalized_danmaku-AllNormal_example =
    normalized_danmaku-AllNormal (integer 1700000000999) (top ∷ []) refl

abbrev script_info : Text
script_info = codes "[Script Info]"

abbrev header : List Text
header = script_info ∷ codes ";RawCompressType: gzip" ∷ []

ass_value-unlines_example :
    ass_value
      (unlines true (header ++ ((prefix (codes "Raw") ++ codes " QUJD ") ∷ [])) [])
      (codes "Raw")
    ≡ trim (codes " QUJD ")
unfolding after_prefix
ass_value-unlines_example =
    ass_value-unlines true (codes "Raw") (codes " QUJD ") [] header [] (omega arith) (omega arith)
      tt tt (refl, (refl, tt))

ass_color_lem_example : ass_color (color_value 255 128 0) ≡ integer 0xff8000
ass_color_lem_example = ass_color_lem 255 128 0 (omega arith) (omega arith) (omega arith)

-- A browser in which every file is an export of one danmaku, and every adapter reads `top`.
abbrev platform : Platform
platform = record {
  file_text = returned (codes "{}");
  file_bytes = returned [];
  date_now = integer 1700000000999;
  json_parse = λ text. returned export;
  text_decode = λ bytes. bytes;
  atob = λ text. thrown other;
  decode_base16384 = λ text. thrown other;
  zstd = λ bytes. thrown other;
  brotli = λ bytes. thrown other;
  ungzip = λ bytes. thrown other;
  import_chunk = λ adapter payload. returned (top ∷ []);
}

import_danmaku_file-IsClean_example :
    IsClean platform (import_danmaku_file platform ImportFormat.dplayer_json [])
import_danmaku_file-IsClean_example =
    import_danmaku_file-IsClean platform ImportFormat.dplayer_json (λ e. cc)

-- An ASS file without a header is refused, and the database is closed.
ass_refused : import_danmaku_file platform ImportFormat.ass [] ≡ (
  thrown (error (codes "无法按所选格式解析文件：ASS 中没有 dan-any 可还原的 Raw 数据")),
  Event.opened ∷ Event.closed ∷ [],
)
unfolding import_danmaku_file after_prefix
ass_refused = refl
