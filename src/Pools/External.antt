-- ===== src/Pools/External.antt =====
-- frontend/src/pages/external-page.tsx, and frontend/src/components/external-keyword-panel.tsx: pools
-- made from files, whose identifiers are texts.
mod Tests
pub mod ImportDialog
use danmaku.Prelude.{ℕ, Bool, false, ◌||◌, Option, none, some, List, [], ◌∷◌, ◌++◌, if◌then◌else◌}
use danmaku.Js.Text.{Text, codes, is_empty, text_eq, trim}
use danmaku.Js.Number.{Number, integer, to_number}
use danmaku.Js.Outcome.{Outcome, returned, thrown, Async}
use danmaku.Js.Print.{number_text}
use danmaku.Js.Value.{Value, null, string, object, field, end}
use danmaku.Api.Client.{Request, Response, Query, amount, flag, api_get, api_post, api_delete}
use danmaku.Api.Mutation.{Toast, api_mutation}
use danmaku.Api.Types.Pools.{ExternalPool}
use danmaku.Api.Types.Videos.{ManagedVideo}
use danmaku.Widgets.Select.{SelectOption}
use danmaku.Pools.{ListQuery, opened_query, QueryEvent, query_event, pools_query}
use danmaku.Pools.Requests
use danmaku.Pools.Requests.{Link}
use danmaku.Pools.Dialogs.{BindingDialog, KeywordPanel, global_scope}

-- What is imported: nothing, a new pool, or the file of one.
pub data ImportTarget : Type 0 where
  no_import new_import : ImportTarget
  import_again : ExternalPool → ImportTarget

pub record ExternalPage : Type 0 where
  pub list : ListQuery
  pub import_pool : ImportTarget
  pub detail_pool : Option ExternalPool
  pub binding_pool : Option ExternalPool

abbrev pub opened_page : ExternalPage
opened_page = record {
  list = opened_query;
  import_pool = no_import;
  detail_pool = none;
  binding_pool = none;
}

-- `search`, and the changes of its field and of the page.
unfoldable pub search : QueryEvent → ExternalPage → ExternalPage
unfolding query_event
search x p = record p { list = query_event x p.list }

abbrev pub pool_query : ℕ → Query
pool_query page = (codes "page", amount (integer page)) ∷ (codes "size", amount (integer 20)) ∷ []

unfoldable pub video_option : ManagedVideo → SelectOption
unfolding number_text
video_option video = record {
  value = number_text video.id;
  label = (if is_empty video.name then codes "未命名视频" else video.name) ++ (codes " · " ++ video.vid);
}

-- `submit` of ExternalBindingDialog; nothing is sent without a pool.
unfoldable pub submitted_link : Option ExternalPool → BindingDialog → Option Link
unfolding to_number
submitted_link none d = none
submitted_link (some pool) d =
    some
      (record { video = to_number d.video_id; pool = string pool.id; offset = to_number d.offset })

unfoldable pub binding_disabled : (pending : Bool) → BindingDialog → Bool
binding_disabled pending d = is_empty d.video_id || pending

unfoldable pub pool_options : List ExternalPool → List SelectOption
pool_options [] = []
pool_options (pool ∷ pools) = record { value = pool.id; label = pool.name } ∷ pool_options pools

unfoldable pub scope_options : List ExternalPool → List SelectOption
unfolding pool_options
scope_options pools = record { value = global_scope; label = codes "全部弹幕池" } ∷ pool_options pools

unfoldable pub keyword_body : KeywordPanel → Value
unfolding text_eq trim
keyword_body p = object (
    field (codes "poolId") (if text_eq p.scope global_scope then null else string p.scope)
      (field (codes "keyword") (string (trim p.keyword)) end))

unfoldable pub keyword_disabled : (pending : Bool) → KeywordPanel → Bool
unfolding trim
keyword_disabled pending p = pending || is_empty (trim p.keyword)

-- `onSuccess`
unfoldable pub keyword_settled : Outcome Value → KeywordPanel → KeywordPanel
keyword_settled (returned _) p = record p { keyword = [] }
keyword_settled (thrown e) p = p

module _ {W : Type 0} (fetch : Request → Async W Response) where
  unfoldable pub get_pool_options : Async W Value
  unfolding api_get
  get_pool_options =
      api_get fetch (codes "/api/admin/external")
        ((codes "page", amount (integer 1)) ∷ (codes "size", amount (integer 500)) ∷ [])

  unfoldable pub get_pools : ListQuery → Async W Value
  unfolding api_get
  get_pools l = api_get fetch (codes "/api/admin/external") (pools_query l)

  unfoldable pub get_pool_danmaku : Text → ℕ → Async W Value
  unfolding api_get
  get_pool_danmaku pool page =
      api_get fetch (codes "/api/admin/external/" ++ (pool ++ codes "/danmaku")) (pool_query page)

  unfoldable pub get_videos : Async W Value
  unfolding Requests.get_videos
  get_videos = Requests.get_videos fetch (codes "external")

  unfoldable pub get_keywords : Async W Value
  unfolding api_get
  get_keywords = api_get fetch (codes "/api/admin/external/keywords") []

  module _ (invalidate : Text → W → W) where
    unfoldable pub bind_video : Link → W → Outcome Value × Toast × W
    unfolding Requests.bind_video
    bind_video =
        Requests.bind_video fetch (codes "external") invalidate
          (codes "external-pools" ∷ codes "videos" ∷ codes "video" ∷ []) (codes "弹幕池已关联到视频")

    abbrev keyword_keys : List Text
    keyword_keys =
        codes "external-keywords"
        ∷ codes "external-pools"
        ∷ codes "external-pool-danmaku"
        ∷ codes "video-heatmap"
        ∷ []

    unfoldable pub create_keyword : Value → W → Outcome Value × Toast × W
    unfolding Requests.create_keyword
    create_keyword = Requests.create_keyword fetch (codes "external") invalidate keyword_keys

    unfoldable pub remove_keyword : Number → W → Outcome Value × Toast × W
    unfolding Requests.remove_keyword
    remove_keyword = Requests.remove_keyword fetch (codes "external") invalidate keyword_keys
