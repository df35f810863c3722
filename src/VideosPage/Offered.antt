-- ===== src/VideosPage/Offered.antt =====
-- The pool that a video is linked to is one of the source that was chosen.
use danmaku.Prelude.{◌≡◌, ◌⊎◌, Option, some, List, [], map}
use mathlib.Core.List.{Memᴰ}
use mathlib.Core.List.Memᴰ as MemD
use danmaku.Js.Text.{Text}
use danmaku.Js.Number.{Number}
use danmaku.Js.Outcome.{Outcome}
use danmaku.Js.Value.{Value, number, string}
use danmaku.Api.Types.Videos.{ManagedVideo}
use danmaku.Widgets.Select.{SelectOption, items, value_changed}
use danmaku.Pools.Dialogs.Keywords.{Numbered}
use danmaku.VideosPage.Dialog.{
  VideoSource, bilibili, iqiyi, dandanplay, animeko, external, catalog, VideoPools, pools_of,
  binding_options, VideoDialog, opened_dialog, loaded, select_source, binding_settled,
}

-- What can be done to the form while the page has these pools.
pub data Filled (pools : VideoPools) : VideoDialog → Type 0 where
  opened : Filled pools opened_dialog
  details_loaded :
      {d : VideoDialog} (detail video : Option ManagedVideo)
      → Filled pools d
      → Filled pools (loaded detail video d)
  source_selected :
      {d : VideoDialog} (source : VideoSource)
      → Filled pools d
      → Filled pools (select_source source d)
  pool_selected :
      {d : VideoDialog} (option : SelectOption)
      → Filled pools d
      → Memᴰ option (items (binding_options pools d.source) d.pool_id)
      → Filled pools (record d { pool_id = value_changed (some option) d.pool_id })
  offset_changed :
      {d : VideoDialog} (s : Text) → Filled pools d → Filled pools (record d { offset = s })
  binding_ended :
      {d : VideoDialog} (o : Outcome Value) → Filled pools d → Filled pools (binding_settled o d)

-- The identifiers of the pools of a source.
abbrev pub identifiers : VideoPools → VideoSource → List Value
unfolding pools_of
identifiers pools bilibili = map (λ pool. number pool.id) pools.bilibili_pools
identifiers pools iqiyi = map (λ pool. number pool.id) pools.iqiyi_pools
identifiers pools dandanplay = map (λ pool. number pool.id) pools.dandanplay_pools
identifiers pools animeko = map (λ pool. number pool.id) pools.animeko_pools
identifiers pools external = map (λ pool. string pool.id) pools.external_pools
identifiers pools (catalog source) =
    map (λ pool. number pool.id) (pools_of source pools.catalog_pools)

-- The form has no pool yet, or one of the options for its source.
Known : VideoPools → VideoDialog → Type 0
Known pools d =
    (d.pool_id ≡ [])
    ⊎ ((option : SelectOption) × Memᴰ option (binding_options pools d.source)
        × (option.value ≡ d.pool_id))

-- The pools of every source but `external`, whose identifiers are texts, have whole numbers.
pub record HasNumbers (pools : VideoPools) : Type 0 where
  pub bilibili_numbers : Numbered (λ pool. pool.id) (λ pool. pool.bvid) pools.bilibili_pools
  pub iqiyi_numbers : Numbered (λ pool. pool.id) (λ pool. pool.vid) pools.iqiyi_pools
  pub dandanplay_numbers :
      Numbered (λ pool. pool.id) (λ pool. pool.episode_id) pools.dandanplay_pools
  pub animeko_numbers : Numbered (λ pool. pool.id) (λ pool. pool.episode_id) pools.animeko_pools
  pub catalog_numbers :
      (source : _)
      → Numbered (λ pool. pool.id) (λ pool. pool.episode_id) (pools_of source pools.catalog_pools)
