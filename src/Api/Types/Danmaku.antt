-- ===== src/Api/Types/Danmaku.antt =====
-- frontend/src/api/types.ts: one danmaku, its data and the heatmap.
use danmaku.Prelude.{Bool, Option}
use danmaku.Js.Text.{Text}
use danmaku.Js.Number.{Number}

pub record DanmakuData : Type 0 where
  pub time : Number
  pub mode : Number
  pub size : Number
  pub color : Number
  pub time_stamp : Number
  pub pool : Number
  pub author : Text
  pub author_id : Number
  pub text : Option Text

pub record Danmaku : Type 0 where
  pub id : Text
  pub vid : Text
  pub danmaku_data : DanmakuData
  pub ip : Text
  pub is_delete : Bool
  pub create_time : Text
  pub update_time : Text

pub record HeatmapPoint : Type 0 where
  pub time : Number
  pub count : Number
