-- ===== src/VideosPage/Dialog.antt =====
-- VideoDialog of frontend/src/pages/videos-page.tsx: a video's name, the pools that are linked to it
-- and its export.
use danmaku.Prelude.{
  Bool, true, false, ◌||◌, Option, none, some, List, [], ◌∷◌, ◌++◌, map, if◌then◌else◌,
}
use danmaku.Js.Text.{Text, codes, is_empty, trim}
use danmaku.Js.Number.{Number, to_number}
use danmaku.Js.Outcome.{Outcome, returned, thrown, Async}
use danmaku.Js.Print.{number_text}
use danmaku.Js.Value.{Value, number, string, object, field, end}
use danmaku.Api.Client.{Request, Response, api_get, api_put, api_post, api_delete}
use danmaku.Api.Mutation.{Toast, api_mutation}
use danmaku.Api.Types.Bindings.{
  CatalogSource, bahamut, tencent, youku, BilibiliBinding, IqiyiBinding, DandanplayBinding,
  AnimekoBinding, CatalogBinding, ExternalBinding,
}
use danmaku.Api.Types.Pools.{
  BilibiliPool, IqiyiPool, DandanplayPool, AnimekoPool, CatalogPool, ExternalPool,
}
use danmaku.Api.Types.Videos.{ManagedVideo}
use danmaku.Display.{pool_label, dandanplay_pool_label, animeko_pool_label, catalog_pool_label}
use danmaku.Widgets.Select.{SelectOption}
use danmaku.Pools.Catalog.{source_name}
use danmaku.Pools.Dialogs.{pool_options}

pub data VideoSource : Type 0 where
  bilibili iqiyi dandanplay animeko external : VideoSource
  catalog : CatalogSource → VideoSource

unfoldable pub video_source_name : VideoSource → Text
unfolding source_name
video_source_name bilibili = codes "bilibili"
video_source_name iqiyi = codes "iqiyi"
video_source_name dandanplay = codes "dandanplay"
video_source_name animeko = codes "animeko"
video_source_name external = codes "external"
video_source_name (catalog source) = source_name source

-- The pools that the page has loaded.
pub record VideoPools : Type 0 where
  pub bilibili_pools : List BilibiliPool
  pub iqiyi_pools : List IqiyiPool
  pub dandanplay_pools : List DandanplayPool
  pub animeko_pools : List AnimekoPool
  pub catalog_pools : List (CatalogPool × CatalogSource)
  pub external_pools : List ExternalPool

abbrev pub same_source : CatalogSource → CatalogSource → Bool
same_source bahamut bahamut = true
same_source tencent tencent = true
same_source youku youku = true
same_source _ _ = false

-- catalogPools.filter((pool) => pool.source === source)
unfoldable pub pools_of : CatalogSource → List (CatalogPool × CatalogSource) → List CatalogPool
pools_of source [] = []
pools_of source ((pool, from) ∷ pools) =
    let rest = pools_of source pools in if same_source from source then pool ∷ rest else rest

unfoldable pub external_options : List ExternalPool → List SelectOption
external_options [] = []
external_options (pool ∷ pools) =
    record { value = pool.id; label = pool.name ++ (codes " · " ++ pool.id) }
    ∷ external_options pools

-- The pools of a source, as the options of the select.
unfoldable pub binding_options : VideoPools → VideoSource → List SelectOption
unfolding pool_options pool_label dandanplay_pool_label animeko_pool_label catalog_pool_label
    pools_of external_options
binding_options pools bilibili = pool_options (λ pool. pool.id) pool_label pools.bilibili_pools
binding_options pools iqiyi = pool_options (λ pool. pool.id) (λ pool. pool.vid) pools.iqiyi_pools
binding_options pools dandanplay =
    pool_options (λ pool. pool.id) dandanplay_pool_label pools.dandanplay_pools
binding_options pools animeko =
    pool_options (λ pool. pool.id) animeko_pool_label pools.animeko_pools
binding_options pools external = external_options pools.external_pools
binding_options pools (catalog source) =
    pool_options (λ pool. pool.id) catalog_pool_label (pools_of source pools.catalog_pools)

pub record VideoDialog : Type 0 where
  pub name : Text
  pub source : VideoSource
  pub pool_id : Text
  pub offset : Text
  pub export_format : Text

abbrev pub opened_dialog : VideoDialog
opened_dialog = record {
  name = [];
  source = bilibili;
  pool_id = [];
  offset = codes "0";
  export_format = codes "danuni.json";
}

abbrev name_of : Option ManagedVideo → Option Text
name_of none = none
name_of (some video) = some video.name

abbrev first_of : Option Text → Option Text → Text
first_of (some s) _ = s
first_of none (some s) = s
first_of none none = []

-- The effect of the loaded details and the video.
unfoldable pub loaded : (detail video : Option ManagedVideo) → VideoDialog → VideoDialog
loaded detail video d = record d { name = first_of (name_of detail) (name_of video) }

unfoldable pub select_source : VideoSource → VideoDialog → VideoDialog
select_source source d = record d { source = source; pool_id = [] }

-- `poolId` of the request.
unfoldable pub submitted_pool : VideoSource → Text → Value
unfolding to_number
submitted_pool external pool_id = string pool_id
submitted_pool _ pool_id = number (to_number pool_id)

unfoldable pub binding_disabled : (pending is_delete : Bool) → VideoDialog → Bool
binding_disabled pending is_delete d = pending || is_empty d.pool_id || is_delete

unfoldable pub binding_body : VideoDialog → Value
unfolding submitted_pool
binding_body d = object (
    field (codes "poolId") (submitted_pool d.source d.pool_id)
      (field (codes "offset") (number (to_number d.offset)) end))

-- `onSuccess`
unfoldable pub binding_settled : Outcome Value → VideoDialog → VideoDialog
binding_settled (returned _) d = record d { pool_id = []; offset = codes "0" }
binding_settled (thrown e) d = d

unfoldable pub name_body : VideoDialog → Value
unfolding trim
name_body d = object (field (codes "name") (string (trim d.name)) end)

-- The links of a video, with their sources.
pub data ThirdPartyBinding : Type 0 where
  bilibili_binding : BilibiliBinding → ThirdPartyBinding
  iqiyi_binding : IqiyiBinding → ThirdPartyBinding
  dandanplay_binding : DandanplayBinding → ThirdPartyBinding
  catalog_binding : CatalogSource → CatalogBinding → ThirdPartyBinding
  animeko_binding : AnimekoBinding → ThirdPartyBinding
  external_binding : ExternalBinding → ThirdPartyBinding

abbrev pub or_none : {A : Type 0} → Option (List A) → List A
or_none none = []
or_none (some xs) = xs

unfoldable pub bindings_of : ManagedVideo → List ThirdPartyBinding
bindings_of video =
    map bilibili_binding (or_none video.bilibili_bindings)
    ++ (map iqiyi_binding (or_none video.iqiyi_bindings)
        ++ (map dandanplay_binding (or_none video.dandanplay_bindings)
            ++ (map (λ (binding, source). catalog_binding source binding)
                  (or_none video.catalog_bindings)
                ++ (map animeko_binding (or_none video.animeko_bindings)
                    ++ map external_binding (or_none video.external_bindings)))))

unfoldable pub bindings : Option ManagedVideo → List ThirdPartyBinding
unfolding bindings_of
bindings none = []
bindings (some video) = bindings_of video

unfoldable pub binding_source : ThirdPartyBinding → VideoSource
binding_source (bilibili_binding b) = bilibili
binding_source (iqiyi_binding b) = iqiyi
binding_source (dandanplay_binding b) = dandanplay
binding_source (catalog_binding source b) = catalog source
binding_source (animeko_binding b) = animeko
binding_source (external_binding b) = external

unfoldable pub binding_id : ThirdPartyBinding → Number
binding_id (bilibili_binding b) = b.id
binding_id (iqiyi_binding b) = b.id
binding_id (dandanplay_binding b) = b.id
binding_id (catalog_binding source b) = b.id
binding_id (animeko_binding b) = b.id
binding_id (external_binding b) = b.id

abbrev pub binding_keys : List Text
binding_keys =
    codes "videos"
    ∷ codes "video"
    ∷ codes "video-heatmap"
    ∷ codes "bilibili-pools"
    ∷ codes "iqiyi-pools"
    ∷ codes "dandanplay-pools"
    ∷ codes "animeko-pools"
    ∷ codes "bahamut-pools"
    ∷ codes "tencent-pools"
    ∷ codes "youku-pools"
    ∷ codes "catalog-pool-options"
    ∷ codes "external-pools"
    ∷ []

abbrev pub video_path : Number → Text → Text
video_path id rest = codes "/api/admin/videos/" ++ (number_text id ++ rest)

-- The requests for the video of the dialog.
module _ {W : Type 0} (fetch : Request → Async W Response) (video : Number) where
  unfoldable pub get_detail : Async W Value
  unfolding api_get number_text
  get_detail = api_get fetch (video_path video []) []

  unfoldable pub get_heatmap : Async W Value
  unfolding api_get number_text
  get_heatmap = api_get fetch (video_path video (codes "/heatmap")) []

  module _ (invalidate : Text → W → W) where
    unfoldable pub save_name : Value → W → Outcome Value × Toast × W
    unfolding api_mutation api_put number_text
    save_name =
        api_mutation (λ body. api_put fetch (video_path video []) body) invalidate (codes "视频名称已保存")
          (codes "videos" ∷ codes "video" ∷ [])

    unfoldable pub bind_pool : VideoSource × Value → W → Outcome Value × Toast × W
    unfolding api_mutation api_post number_text video_source_name
    bind_pool =
        api_mutation
          (λ (source, body).
            api_post fetch
              (video_path video (codes "/" ++ (video_source_name source ++ codes "-bindings")))
              body)
          invalidate (codes "弹幕池关联已保存") binding_keys

    unfoldable pub remove_binding : ThirdPartyBinding → W → Outcome Value × Toast × W
    unfolding api_mutation api_delete number_text video_source_name binding_source binding_id
    remove_binding =
        api_mutation
          (λ binding.
            api_delete fetch
              (video_path video (
                codes "/"
                ++ (video_source_name (binding_source binding)
                    ++ (codes "-bindings/" ++ number_text (binding_id binding)))))
              [])
          invalidate (codes "弹幕池关联已删除") binding_keys
