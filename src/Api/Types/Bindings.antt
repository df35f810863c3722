-- ===== src/Api/Types/Bindings.antt =====
-- frontend/src/api/types.ts and catalog-types.ts: the links between videos and pools.
use danmaku.Prelude.{Bool}
use danmaku.Js.Text.{Text}
use danmaku.Js.Number.{Number}

-- CatalogSource of frontend/src/lib/catalog.ts
pub data CatalogSource : Type 0 where
  bahamut tencent youku : CatalogSource

pub record BilibiliBinding : Type 0 where
  pub id : Number
  pub vid : Text
  pub pool_id : Number
  pub bvid : Text
  pub aid : Number
  pub p : Number
  pub cid : Number
  pub offset : Number
  pub create_time : Text
  pub update_time : Text

pub record IqiyiBinding : Type 0 where
  pub id : Number
  pub vid : Text
  pub pool_id : Number
  pub pool_vid : Text
  pub offset : Number
  pub create_time : Text
  pub update_time : Text

pub record DandanplayBinding : Type 0 where
  pub with_related : Bool
  pub id : Number
  pub vid : Text
  pub pool_id : Number
  pub pool_episode_id : Text
  pub offset : Number
  pub create_time : Text
  pub update_time : Text

pub record ExternalBinding : Type 0 where
  pub id : Number
  pub vid : Text
  pub pool_id : Text
  pub pool_name : Text
  pub offset : Number
  pub create_time : Text
  pub update_time : Text

pub record AnimekoBinding : Type 0 where
  pub id : Number
  pub vid : Text
  pub pool_id : Number
  pub pool_episode_id : Text
  pub offset : Number
  pub create_time : Text
  pub update_time : Text

pub record CatalogBinding : Type 0 where
  pub id : Number
  pub vid : Text
  pub pool_id : Number
  pub pool_episode_id : Text
  pub offset : Number
  pub create_time : Text
  pub update_time : Text
