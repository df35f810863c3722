-- ===== src/Api/Types/Pools.antt =====
-- frontend/src/api/types.ts and catalog-types.ts: the pools of the third-party sources.
use danmaku.Prelude.{Bool, Option, List}
use danmaku.Js.Text.{Text}
use danmaku.Js.Number.{Number}
use danmaku.Api.Types.Bindings.{ExternalBinding}

pub record BilibiliPool : Type 0 where
  pub id : Number
  pub bvid : Text
  pub aid : Number
  pub p : Number
  pub cid : Number
  pub danmaku_count : Number
  pub blocked_count : Number
  pub binding_count : Number
  pub last_attempt_time : Option Text
  pub last_sync_time : Option Text
  pub create_time : Text
  pub update_time : Text

pub record IqiyiPool : Type 0 where
  pub id : Number
  pub vid : Text
  pub danmaku_count : Number
  pub blocked_count : Number
  pub binding_count : Number
  pub last_attempt_time : Option Text
  pub last_sync_time : Option Text
  pub create_time : Text
  pub update_time : Text

pub record DandanplayPool : Type 0 where
  pub with_related : Bool
  pub id : Number
  pub episode_id : Text
  pub danmaku_count : Number
  pub blocked_count : Number
  pub binding_count : Number
  pub last_attempt_time : Option Text
  pub last_sync_time : Option Text
  pub create_time : Text
  pub update_time : Text

pub record ExternalPool : Type 0 where
  pub blocked_count : Number
  pub id : Text
  pub name : Text
  pub source_format : Text
  pub danmaku_count : Number
  pub binding_count : Number
  pub bindings : Option (List ExternalBinding)
  pub create_time : Text
  pub update_time : Text

pub record AnimekoPool : Type 0 where
  pub id : Number
  pub episode_id : Text
  pub danmaku_count : Number
  pub blocked_count : Number
  pub binding_count : Number
  pub last_attempt_time : Option Text
  pub last_sync_time : Option Text
  pub create_time : Text
  pub update_time : Text

pub record CatalogPool : Type 0 where
  pub id : Number
  pub episode_id : Text
  pub danmaku_count : Number
  pub blocked_count : Number
  pub binding_count : Number
  pub last_attempt_time : Option Text
  pub last_sync_time : Option Text
  pub create_time : Text
  pub update_time : Text
