-- ===== src/Import/Normalized.antt =====
-- normalizedDanmaku: what the dan-any library has read, as `DanmakuData`.
pub mod Ranges
use danmaku.Prelude.{List, map, Option, none, some, [], if◌then◌else◌}
use danmaku.Js.Text.{Text, codes, text_eq}
use danmaku.Js.Number.{Number, integer, is_finite, div_1000, floor, or_number, max_zero}
use danmaku.Api.Types.Danmaku.{DanmakuData}

-- A danmaku of dan-any. `ctime` is the time of a Date in milliseconds, `none` where it is no Date.
pub record DanAnyItem : Type 0 where
  pub progress : Number
  pub mode : Text
  pub fontsize : Number
  pub color : Number
  pub ctime : Option Number
  pub pool : Text
  pub sender_id : Option Text
  pub content : Text

-- toBilibiliMode
unfoldable pub to_bilibili_mode : Text → Number
to_bilibili_mode mode =
    if text_eq mode (codes "Bottom")
    then integer 4
    else if text_eq mode (codes "Top")
    then integer 5
    else if text_eq mode (codes "Reverse")
    then integer 6
    else if text_eq mode (codes "Ext")
    then integer 7
    else integer 1

-- toPool
unfoldable pub to_pool : Text → Number
to_pool pool =
    if text_eq pool (codes "Sub")
    then integer 1
    else if text_eq pool (codes "Adv")
    then integer 2
    else if text_eq pool (codes "Ix")
    then integer 3
    else integer 0

-- validTimestamp; `now` is Date.now().
unfoldable pub valid_timestamp : Number → Option Number → Number
valid_timestamp now none = floor (div_1000 now)
valid_timestamp now (some ms) = if is_finite ms then floor (div_1000 ms) else floor (div_1000 now)

abbrev pub sender_or_empty : Option Text → Text
sender_or_empty none = []
sender_or_empty (some s) = s

unfoldable pub normalized_item : Number → DanAnyItem → DanmakuData
unfolding to_bilibili_mode to_pool valid_timestamp
normalized_item now item = record {
  time = max_zero (div_1000 item.progress);
  mode = to_bilibili_mode item.mode;
  size = or_number item.fontsize (integer 25);
  color = or_number item.color (integer 0xffffff);
  time_stamp = valid_timestamp now item.ctime;
  pool = to_pool item.pool;
  author = sender_or_empty item.sender_id;
  author_id = integer 0;
  text = some item.content;
}

unfoldable pub normalized_danmaku : Number → List DanAnyItem → List DanmakuData
unfolding normalized_item
normalized_danmaku now items = map (normalized_item now) items
