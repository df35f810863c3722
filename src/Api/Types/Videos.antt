-- ===== src/Api/Types/Videos.antt =====
-- frontend/src/api/types.ts: videos.
use danmaku.Prelude.{Bool, Option, List}
use danmaku.Js.Text.{Text}
use danmaku.Js.Number.{Number}
use danmaku.Api.Types.Bindings.{
  BilibiliBinding, IqiyiBinding, DandanplayBinding, AnimekoBinding, CatalogBinding, CatalogSource,
  ExternalBinding,
}

pub record ManagedVideo : Type 0 where
  pub third_party_danmaku_count : Number
  pub id : Number
  pub vid : Text
  pub name : Text
  pub is_delete : Bool
  pub default_pool : Unit {0}
  pub danmaku_count : Number
  pub bilibili_pool_count : Number
  pub bilibili_bindings : Option (List BilibiliBinding)
  pub iqiyi_pool_count : Number
  pub animeko_pool_count : Number
  pub catalog_pool_count : Number
  pub catalog_bindings : Option (List (CatalogBinding × CatalogSource))
  pub animeko_bindings : Option (List AnimekoBinding)
  pub dandanplay_pool_count : Number
  pub iqiyi_bindings : Option (List IqiyiBinding)
  pub dandanplay_bindings : Option (List DandanplayBinding)
  pub external_pool_count : Number
  pub external_bindings : Option (List ExternalBinding)
  pub create_time : Text
  pub update_time : Text
