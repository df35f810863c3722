-- ===== src/Api/Types/PoolDanmaku.antt =====
-- frontend/src/api/types.ts and catalog-types.ts: a danmaku of a pool.
use danmaku.Prelude.{Bool}
use danmaku.Js.Text.{Text}
use danmaku.Js.Number.{Number}
use danmaku.Api.Types.Danmaku.{DanmakuData}

pub record BilibiliPoolDanmaku : Type 0 where
  pub id : Number
  pub pool_id : Number
  pub danmaku_data : DanmakuData
  pub is_blocked : Bool
  pub manually_blocked : Bool
  pub create_time : Text
  pub update_time : Text

pub record IqiyiPoolDanmaku : Type 0 where
  pub id : Number
  pub pool_id : Number
  pub danmaku_data : DanmakuData
  pub is_blocked : Bool
  pub manually_blocked : Bool
  pub create_time : Text
  pub update_time : Text

pub record DandanplayPoolDanmaku : Type 0 where
  pub id : Number
  pub pool_id : Number
  pub danmaku_data : DanmakuData
  pub is_blocked : Bool
  pub manually_blocked : Bool
  pub create_time : Text
  pub update_time : Text

pub record ExternalPoolDanmaku : Type 0 where
  pub keyword_blocked : Bool
  pub id : Number
  pub pool_id : Text
  pub danmaku_data : DanmakuData
  pub create_time : Text
  pub update_time : Text

pub record AnimekoPoolDanmaku : Type 0 where
  pub id : Number
  pub pool_id : Number
  pub danmaku_data : DanmakuData
  pub is_blocked : Bool
  pub manually_blocked : Bool
  pub create_time : Text
  pub update_time : Text

pub record CatalogPoolDanmaku : Type 0 where
  pub id : Number
  pub pool_id : Number
  pub danmaku_data : DanmakuData
  pub is_blocked : Bool
  pub manually_blocked : Bool
  pub create_time : Text
  pub update_time : Text
