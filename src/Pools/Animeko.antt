-- ===== src/Pools/Animeko.antt =====
-- frontend/src/pages/animeko-page.tsx
use danmaku.Prelude.{Bool, true, Option, none, some, List, [], ◌∷◌, ◌++◌}
use danmaku.Js.Text.{Text, codes, is_empty, trim}
use danmaku.Js.Number.{Number}
use danmaku.Js.Outcome.{Outcome, Async}
use danmaku.Js.Value.{Value, string, object, field, end}
use danmaku.Api.Client.{Request, Response}
use danmaku.Api.Mutation.{Toast}
use danmaku.Api.Types.Pools.{AnimekoPool}
use danmaku.Api.Types.Videos.{ManagedVideo}
use danmaku.Binding.{PoolVideoBinding}
use danmaku.Display.{animeko_pool_label}
use danmaku.Widgets.Select.{SelectOption}
use danmaku.Pools.{ListQuery, QueryEvent, query_event}
use danmaku.Pools.Requests
use danmaku.Pools.Requests.{Link}
use danmaku.Pools.Panel.{
  PanelState, PanelEvent, opened_panel as new_panel, panel_event as shared_event,
  submit_create as shared_submit,
}
use danmaku.Pools.Dialogs
use danmaku.Pools.Dialogs.{DanmakuDialog, BindingDialog, KeywordPanel}

abbrev source : Text
source = codes "animeko"

-- The body of a creation, for the text of its field.
unfoldable pub create_body : Text → Value
unfolding trim
create_body text = object (field (codes "episodeId") (string (trim text)) end)

-- The button is disabled for a blank field.
unfoldable pub blank : Text → Bool
unfolding trim
blank text = is_empty (trim text)

abbrev pub Panel : Type 0
Panel = PanelState Text AnimekoPool

abbrev pub opened_panel : Panel
opened_panel = new_panel [] blank true

unfoldable pub list_event : QueryEvent → Panel → Panel
unfolding query_event
list_event x p = record p { list = query_event x p.list }

unfoldable pub panel_event : PanelEvent Text AnimekoPool → Panel → Panel
unfolding shared_event blank
panel_event = shared_event [] blank true

unfoldable pub search_danmaku : QueryEvent → DanmakuDialog → DanmakuDialog
unfolding Dialogs.search_danmaku
search_danmaku = Dialogs.search_danmaku

unfoldable pub select_blocked : Text → DanmakuDialog → DanmakuDialog
unfolding Dialogs.select_blocked
select_blocked = Dialogs.select_blocked

abbrev pub opened_danmaku : DanmakuDialog
opened_danmaku = Dialogs.opened_danmaku

abbrev pub opened_binding : BindingDialog
opened_binding = Dialogs.opened_binding

unfoldable pub video_option : ManagedVideo → SelectOption
unfolding Dialogs.video_option
video_option = Dialogs.video_option

unfoldable pub binding_disabled : (pending videos_pending : Bool) → BindingDialog → Bool
unfolding Dialogs.binding_disabled
binding_disabled = Dialogs.binding_disabled

abbrev id_of : Option AnimekoPool → Option Number
id_of none = none
id_of (some pool) = some pool.id

unfoldable pub submitted_link : Option AnimekoPool → BindingDialog → Option Link
unfolding Dialogs.submitted_link
submitted_link pool = Dialogs.submitted_link (id_of pool)

abbrev pub opened_keywords : KeywordPanel
opened_keywords = Dialogs.opened_keywords

unfoldable pub scope_options : List AnimekoPool → List SelectOption
unfolding Dialogs.scope_options animeko_pool_label
scope_options = Dialogs.scope_options (λ pool. pool.id) animeko_pool_label

unfoldable pub keyword_body : KeywordPanel → Value
unfolding Dialogs.keyword_body
keyword_body = Dialogs.keyword_body

unfoldable pub keyword_disabled : (pending : Bool) → KeywordPanel → Bool
unfolding Dialogs.keyword_disabled
keyword_disabled = Dialogs.keyword_disabled

module _ {W : Type 0} (fetch : Request → Async W Response) where
  unfoldable pub get_pool_options : Async W Value
  unfolding Requests.get_pool_options
  get_pool_options = Requests.get_pool_options fetch source

  unfoldable pub get_pools : ListQuery → Async W Value
  unfolding Requests.get_pools
  get_pools = Requests.get_pools fetch source

  unfoldable pub get_videos : Async W Value
  unfolding Requests.get_videos
  get_videos = Requests.get_videos fetch source

  unfoldable pub get_pool_danmaku : Number → ListQuery → Text → Async W Value
  unfolding Requests.get_pool_danmaku
  get_pool_danmaku = Requests.get_pool_danmaku fetch source

  unfoldable pub get_keywords : Async W Value
  unfolding Requests.get_keywords
  get_keywords = Requests.get_keywords fetch source

  module _ (invalidate : Text → W → W) where
    unfoldable pub sync_pool : Number → W → Outcome Value × Toast × W
    unfolding Requests.sync_pool
    sync_pool = Requests.sync_pool fetch source invalidate (
        codes "videos"
        ∷ codes "video"
        ∷ codes "video-heatmap"
        ∷ (source ++ codes "-pools")
        ∷ (source ++ codes "-pool-options")
        ∷ (source ++ codes "-pool-danmaku")
        ∷ [])

    unfoldable pub bind_video : Link → W → Outcome Value × Toast × W
    unfolding Requests.bind_video
    bind_video =
        Requests.bind_video fetch source invalidate
          (codes "videos"
            ∷ codes "video"
            ∷ codes "video-heatmap"
            ∷ codes "videos"
            ∷ codes "video"
            ∷ (source ++ codes "-pools")
            ∷ [])
          (codes "弹幕池已关联到视频")

    unfoldable pub block_danmaku : Number × Bool → W → Outcome Value × Toast × W
    unfolding Requests.block_danmaku
    block_danmaku =
        Requests.block_danmaku fetch source invalidate
          (codes "videos"
            ∷ codes "video"
            ∷ codes "video-heatmap"
            ∷ (source ++ codes "-pool-danmaku")
            ∷ (source ++ codes "-pools")
            ∷ [])
          (codes "屏蔽状态已更新")

    unfoldable pub create_keyword : Value → W → Outcome Value × Toast × W
    unfolding Requests.create_keyword
    create_keyword = Requests.create_keyword fetch source invalidate (
        codes "videos"
        ∷ codes "video"
        ∷ codes "video-heatmap"
        ∷ (source ++ codes "-keywords")
        ∷ (source ++ codes "-pools")
        ∷ (source ++ codes "-pool-danmaku")
        ∷ [])

    unfoldable pub remove_keyword : Number → W → Outcome Value × Toast × W
    unfolding Requests.remove_keyword
    remove_keyword = Requests.remove_keyword fetch source invalidate (
        codes "videos"
        ∷ codes "video"
        ∷ codes "video-heatmap"
        ∷ (source ++ codes "-keywords")
        ∷ (source ++ codes "-pools")
        ∷ (source ++ codes "-pool-danmaku")
        ∷ [])

    unfoldable pub create_pool :
        (stringify : Value → Text)
        → Value
        → PoolVideoBinding Value
        → W
        → Outcome Value × Toast × PoolVideoBinding Value × W
    unfolding Requests.create_pool
    create_pool stringify = Requests.create_pool stringify fetch invalidate source (
        codes "videos"
        ∷ codes "video"
        ∷ codes "video-heatmap"
        ∷ (source ++ codes "-pools")
        ∷ (source ++ codes "-pool-options")
        ∷ [])

    unfoldable pub submit_create : (stringify : Value → Text) → Panel → W → Panel × W
    unfolding shared_submit blank create_body
    submit_create stringify =
        shared_submit [] blank true stringify fetch source invalidate
          (codes "videos"
            ∷ codes "video"
            ∷ codes "video-heatmap"
            ∷ (source ++ codes "-pools")
            ∷ (source ++ codes "-pool-options")
            ∷ [])
          create_body
