-- ===== src/VideosPage.antt =====
-- VideosPage of frontend/src/pages/videos-page.tsx: the list of videos, and what is loaded for the
-- dialog of one, which VideosPage/Dialog has.
mod Tests
pub mod Dialog
pub mod Offered
use danmaku.Prelude.{Bool, false, not, Option, none, some, List, [], ◌∷◌, ◌++◌, if◌then◌else◌, map}
use danmaku.Js.Text.{Text, codes, trim}
use danmaku.Js.Number.{Number, integer}
use danmaku.Js.Outcome.{Outcome, returned, thrown, Async}
use danmaku.Js.Print.{number_text}
use danmaku.Js.Value.{Value, boolean, string, object, field, end}
use danmaku.Api.Client.{Request, Response, Query, text, amount, api_get, api_post, api_patch}
use danmaku.Api.Mutation.{Toast, api_mutation}
use danmaku.Api.Types.Bindings.{CatalogSource, bahamut, tencent, youku}
use danmaku.Api.Types.Videos.{ManagedVideo}
use danmaku.Widgets.Select.{SelectOption}
use danmaku.Pools.{ListQuery, opened_query, QueryEvent, query_event}
use danmaku.Pools.Requests
use danmaku.Pools.External
use danmaku.Pools.Catalog.{source_name}

pub record VideosPage : Type 0 where
  pub list : ListQuery
  pub deleted : Text
  pub create_open : Bool
  pub create_vid : Text
  pub create_name : Text
  pub selected : Option ManagedVideo

abbrev pub opened_page : VideosPage
opened_page = record {
  list = opened_query;
  deleted = codes "false";
  create_open = false;
  create_vid = [];
  create_name = [];
  selected = none;
}

-- `search`, and the changes of its field and of the page.
unfoldable pub search : QueryEvent → VideosPage → VideosPage
unfolding query_event
search x p = record p { list = query_event x p.list }

abbrev pub deleted_options : List SelectOption
deleted_options =
    record { value = codes "all"; label = codes "全部状态" }
    ∷ record { value = codes "false"; label = codes "正常" }
    ∷ record { value = codes "true"; label = codes "已删除" }
    ∷ []

unfoldable pub select_deleted : Text → VideosPage → VideosPage
select_deleted value p = record p { deleted = value; list = record p.list { page = 1 } }

abbrev pub videos_query : VideosPage → Query
videos_query p =
    (codes "page", amount (integer p.list.page))
    ∷ (codes "size", amount (integer 20))
    ∷ (codes "query", text p.list.query)
    ∷ (codes "deleted", text p.deleted)
    ∷ []

-- The body of `submitCreate`, and its `onSuccess`.
unfoldable pub create_body : VideosPage → Value
unfolding trim
create_body p = object (
    field (codes "vid") (string (trim p.create_vid))
      (field (codes "name") (string (trim p.create_name)) end))

unfoldable pub create_settled : Outcome Value → VideosPage → VideosPage
create_settled (returned _) p = record p { create_open = false; create_vid = []; create_name = [] }
create_settled (thrown e) p = p

-- The button of a row: a deleted video is restored, another is deleted.
unfoldable pub status_change : ManagedVideo → Number × Bool
status_change video = (video.id, not video.is_delete)

abbrev pub catalog_sources : List CatalogSource
catalog_sources = bahamut ∷ tencent ∷ youku ∷ []

-- Promise.all of answers in the order of their requests: one failure fails all.
unfoldable pub all_answers : {A : Type 0} → List (A × Outcome Value) → Outcome (List (A × Value))
all_answers [] = returned []
all_answers ((a, thrown e) ∷ answers) = thrown e
all_answers ((a, returned v) ∷ answers) = elim (all_answers answers) [
  | returned vs ↦ returned ((a, v) ∷ vs)
  | thrown e ↦ thrown e
]

module _ {W : Type 0} (fetch : Request → Async W Response) where
  unfoldable pub get_videos : VideosPage → Async W Value
  unfolding api_get
  get_videos p = api_get fetch (codes "/api/admin/videos") (videos_query p)

  unfoldable pub get_bilibili_pools : Async W Value
  unfolding Requests.get_pool_options
  get_bilibili_pools = Requests.get_pool_options fetch (codes "bilibili")

  unfoldable pub get_iqiyi_pools : Async W Value
  unfolding Requests.get_pool_options
  get_iqiyi_pools = Requests.get_pool_options fetch (codes "iqiyi")

  unfoldable pub get_dandanplay_pools : Async W Value
  unfolding Requests.get_pool_options
  get_dandanplay_pools = Requests.get_pool_options fetch (codes "dandanplay")

  unfoldable pub get_animeko_pools : Async W Value
  unfolding Requests.get_pool_options
  get_animeko_pools = Requests.get_pool_options fetch (codes "animeko")

  unfoldable pub get_external_pools : Async W Value
  unfolding External.get_pool_options
  get_external_pools = External.get_pool_options fetch

  -- The requests of all sources are sent, whether one fails or not.
  unfoldable pub request_pools : List CatalogSource → W → List (CatalogSource × Outcome Value) × W
  unfolding Requests.get_pool_options source_name
  request_pools [] w = ([], w)
  request_pools (source ∷ sources) w =
      let (o, w') = Requests.get_pool_options fetch (source_name source) w in
      let (rest, w'') = request_pools sources w' in ((source, o) ∷ rest, w'')

  unfoldable pub get_catalog_pools : Async W (List (CatalogSource × Value))
  unfolding request_pools all_answers
  get_catalog_pools w =
      let (answers, w') = request_pools catalog_sources w in (all_answers answers, w')

  module _ (invalidate : Text → W → W) where
    unfoldable pub create_video : Value → W → Outcome Value × Toast × W
    unfolding api_mutation api_post
    create_video =
        api_mutation (λ body. api_post fetch (codes "/api/admin/videos") body) invalidate
          (codes "视频已创建") (codes "videos" ∷ [])

    unfoldable pub change_status : Number × Bool → W → Outcome Value × Toast × W
    unfolding api_mutation api_patch number_text
    change_status =
        api_mutation
          (λ (id, deleted).
            api_patch fetch (codes "/api/admin/videos/" ++ (number_text id ++ codes "/status"))
              (object (field (codes "deleted") (boolean deleted) end)))
          invalidate (codes "视频状态已更新") (codes "videos" ∷ codes "video" ∷ [])
