-- ===== src/Pools/Dialogs.antt =====
-- The dialogs and the rule panel of a source's page, as iqiyi-page.tsx and its siblings have them:
-- PoolDanmakuDialog, BindingDialog and KeywordPanel.
pub mod Keywords
use danmaku.Prelude.{Bool, ◌||◌, not, Option, none, some, List, [], ◌∷◌, ◌++◌, map, if◌then◌else◌}
use danmaku.Js.Text.{Text, codes, is_empty, text_eq, trim}
use danmaku.Js.Number.{Number, to_number}
use danmaku.Js.Outcome.{Outcome, returned, thrown}
use danmaku.Js.Print.{number_text}
use danmaku.Js.Value.{Value, null, number, string, object, field, end}
use danmaku.Api.Types.Videos.{ManagedVideo}
use danmaku.Widgets.Select.{SelectOption}
use danmaku.Pools.{ListQuery, opened_query, QueryEvent, query_event}
use danmaku.Pools.Requests.{Link}

-- PoolDanmakuDialog
pub record DanmakuDialog : Type 0 where
  pub list : ListQuery
  pub blocked : Text

abbrev pub opened_danmaku : DanmakuDialog
opened_danmaku = record { list = opened_query; blocked = codes "all" }

abbrev pub blocked_options : List SelectOption
blocked_options =
    record { value = codes "all"; label = codes "全部状态" }
    ∷ record { value = codes "false"; label = codes "正常" }
    ∷ record { value = codes "true"; label = codes "已屏蔽" }
    ∷ []

unfoldable pub search_danmaku : QueryEvent → DanmakuDialog → DanmakuDialog
unfolding query_event
search_danmaku x d = record d { list = query_event x d.list }

unfoldable pub select_blocked : Text → DanmakuDialog → DanmakuDialog
select_blocked value d = record { list = record d.list { page = 1 }; blocked = value }

-- BindingDialog
pub record BindingDialog : Type 0 where
  pub video_id : Text
  pub offset : Text

abbrev pub opened_binding : BindingDialog
opened_binding = record { video_id = []; offset = codes "0" }

unfoldable pub video_option : ManagedVideo → SelectOption
unfolding number_text
video_option video = record {
  value = number_text video.id;
  label =
      if is_empty video.name
      then video.vid
      else video.name ++ (codes " (" ++ (video.vid ++ codes ")"));
}

unfoldable pub binding_disabled : (pending videos_pending : Bool) → BindingDialog → Bool
binding_disabled pending videos_pending d = pending || is_empty d.video_id || videos_pending

-- What is sent for the pool of the dialog; nothing with none.
unfoldable pub submitted_link : Option Number → BindingDialog → Option Link
unfolding to_number
submitted_link none d = none
submitted_link (some pool) d =
    some (record { video = to_number d.video_id; pool = number pool; offset = to_number d.offset })

-- KeywordPanel
pub record KeywordPanel : Type 0 where
  pub scope : Text
  pub keyword : Text

abbrev pub global_scope : Text
global_scope = codes "global"

abbrev pub opened_keywords : KeywordPanel
opened_keywords = record { scope = global_scope; keyword = [] }

unfoldable pub pool_options : {P : Type 0} → (P → Number) → (P → Text) → List P → List SelectOption
unfolding number_text
pool_options id label [] = []
pool_options id label (pool ∷ pools) =
    record { value = number_text (id pool); label = label pool } ∷ pool_options id label pools

unfoldable pub scope_options : {P : Type 0} → (P → Number) → (P → Text) → List P → List SelectOption
unfolding pool_options
scope_options id label pools =
    record { value = global_scope; label = codes "全部弹幕池" } ∷ pool_options id label pools

-- `poolId` of the request.
unfoldable pub scope_value : Text → Value
unfolding text_eq to_number
scope_value scope = if text_eq scope global_scope then null else number (to_number scope)

unfoldable pub keyword_body : KeywordPanel → Value
unfolding scope_value trim
keyword_body p = object (
    field (codes "poolId") (scope_value p.scope)
      (field (codes "keyword") (string (trim p.keyword)) end))

unfoldable pub keyword_disabled : (pending : Bool) → KeywordPanel → Bool
unfolding trim
keyword_disabled pending p = pending || is_empty (trim p.keyword)

-- `onSuccess` clears the keyword, and the scope stays.
unfoldable pub keyword_settled : Outcome Value → KeywordPanel → KeywordPanel
keyword_settled (returned _) p = record p { keyword = [] }
keyword_settled (thrown e) p = p
