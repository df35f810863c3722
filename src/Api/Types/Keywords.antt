-- ===== src/Api/Types/Keywords.antt =====
-- frontend/src/api/types.ts and catalog-types.ts: the keyword rules of a source.
use danmaku.Prelude.{Bool, Option}
use danmaku.Js.Text.{Text}
use danmaku.Js.Number.{Number}

pub record BilibiliKeyword : Type 0 where
  pub id : Number
  pub pool_id : Option Number
  pub pool_bvid : Text
  pub pool_aid : Number
  pub pool_p : Number
  pub pool_cid : Number
  pub keyword : Text
  pub create_time : Text

pub record IqiyiKeyword : Type 0 where
  pub id : Number
  pub pool_id : Option Number
  pub pool_vid : Text
  pub keyword : Text
  pub create_time : Text

pub record DandanplayKeyword : Type 0 where
  pub with_related : Bool
  pub id : Number
  pub pool_id : Option Number
  pub pool_episode_id : Text
  pub keyword : Text
  pub create_time : Text

pub record AnimekoKeyword : Type 0 where
  pub id : Number
  pub pool_id : Option Number
  pub pool_episode_id : Text
  pub keyword : Text
  pub create_time : Text

pub record CatalogKeyword : Type 0 where
  pub id : Number
  pub pool_id : Option Number
  pub pool_episode_id : Text
  pub keyword : Text
  pub create_time : Text
