-- ===== src/Pools/Bilibili.antt =====
-- frontend/src/pages/bilibili-page.tsx: a page like the others, with three ways to name a video, and
-- dialogs that are cleared for another pool.
pub mod Fresh
use danmaku.Prelude.{
  suc, pos, negsuc, ◌*◌, ◌^◌, ◌==◌, Bool, true, false, ◌&&◌, ◌||◌, Option, none, some, List, [],
  ◌∷◌, ◌++◌, if◌then◌else◌,
}
use danmaku.Js.Text.{Text, codes, is_empty, trim}
use danmaku.Js.Number.{Number, nan, infinity, neg_infinity, decimal, to_number}
use danmaku.Js.Outcome.{Outcome, Async}
use danmaku.Js.Print.{number_text}
use danmaku.Js.Value.{Value, undefined, number, string, object, field, end}
use danmaku.Api.Client.{Request, Response}
use danmaku.Api.Mutation.{Toast}
use danmaku.Api.Types.Pools.{BilibiliPool}
use danmaku.Api.Types.Keywords.{BilibiliKeyword}
use danmaku.Binding.{PoolVideoBinding}
use danmaku.Widgets.Select.{SelectOption}
use danmaku.Pools.{ListQuery, QueryEvent, query_event}
use danmaku.Pools.Requests
use danmaku.Pools.Requests.{Link}
use danmaku.Pools.Panel.{
  PanelState, PanelEvent, opened_panel as new_panel, panel_event as shared_event,
  submit_create as shared_submit,
}
use danmaku.Pools.Dialogs
use danmaku.Pools.Dialogs.{DanmakuDialog, BindingDialog, KeywordPanel}

abbrev source : Text
source = codes "bilibili"

abbrev part_label : Number → Text
part_label p = codes " / P" ++ number_text p

-- poolLabel
unfoldable pub pool_label : BilibiliPool → Text
unfolding number_text
pool_label pool =
    if is_empty pool.bvid
    then codes "CID " ++ (number_text pool.cid ++ part_label pool.p)
    else pool.bvid ++ (codes " / AID " ++ (number_text pool.aid ++ part_label pool.p))

-- keywordPoolLabel
unfoldable pub keyword_pool_label : BilibiliKeyword → Text
unfolding number_text
keyword_pool_label keyword =
    if is_empty keyword.pool_bvid
    then codes "CID " ++ (number_text keyword.pool_cid ++ part_label keyword.pool_p)
    else keyword.pool_bvid
      ++ (codes " / AID " ++ (number_text keyword.pool_aid ++ part_label keyword.pool_p))

pub data PoolIdentifierType : Type 0 where
  bvid aid cid : PoolIdentifierType

pub record BilibiliForm : Type 0 where
  pub identifier_type : PoolIdentifierType
  pub identifier : Text
  pub part : Text

abbrev pub cleared : BilibiliForm
cleared = record { identifier_type = bvid; identifier = []; part = codes "1" }

-- The properties of CreatePoolInput, in the order in which they are set.
unfoldable pub create_body : BilibiliForm → Value
unfolding trim to_number
create_body form = object (
    field (codes "p") (number (to_number form.part)) (elim form.identifier_type [
      | bvid ↦ field (codes "bvid") (string (trim form.identifier)) end
      | aid ↦ field (codes "aid") (number (to_number form.identifier)) end
      | cid ↦ field (codes "cid") (number (to_number form.identifier)) end
    ]))

-- Both fields are required.
unfoldable pub blank : BilibiliForm → Bool
blank form = is_empty form.identifier || is_empty form.part

abbrev pub Panel : Type 0
Panel = PanelState BilibiliForm BilibiliPool

abbrev pub opened_panel : Panel
opened_panel = new_panel cleared blank false

unfoldable pub list_event : QueryEvent → Panel → Panel
unfolding query_event
list_event x p = record p { list = query_event x p.list }

unfoldable pub panel_event : PanelEvent BilibiliForm BilibiliPool → Panel → Panel
unfolding shared_event blank
panel_event = shared_event cleared blank false

-- The dialogs are given the pool whose number they show, or none.
abbrev pub id_of : Option BilibiliPool → Value
id_of none = undefined
id_of (some pool) = number pool.id

pub record Shown (D : Type 0) : Type 0 where
  pub pool : Option BilibiliPool
  pub dialog : D

-- Object.is on two numbers, 0 and -0 apart.
unfoldable pub same_number : Number → Number → Bool
same_number (decimal (pos m) j) (decimal (pos n) k) = m * 10 ^ k == n * 10 ^ j
same_number (decimal (negsuc m) j) (decimal (negsuc n) k) = suc m * 10 ^ k == suc n * 10 ^ j
same_number nan nan = true
same_number infinity infinity = true
same_number neg_infinity neg_infinity = true
same_number _ _ = false

-- Whether pool?.id stays what it is, as the effects tell.
unfoldable pub same_pool : Option BilibiliPool → Option BilibiliPool → Bool
unfolding same_number
same_pool none none = true
same_pool (some p) (some q) = same_number p.id q.id
same_pool _ _ = false

pub data DanmakuEvent : Type 0 where
  -- The page gives a pool, or none.
  pool_given : Option BilibiliPool → DanmakuEvent
  list_changed : QueryEvent → DanmakuEvent
  blocked_selected : Text → DanmakuEvent

-- PoolDanmakuDialog, with the effect of `pool?.id`.
unfoldable pub danmaku_event : DanmakuEvent → Shown DanmakuDialog → Shown DanmakuDialog
unfolding same_pool Dialogs.search_danmaku Dialogs.select_blocked
danmaku_event (pool_given pool) d = record {
  pool = pool;
  dialog = if same_pool d.pool pool then d.dialog else Dialogs.opened_danmaku;
}
danmaku_event (list_changed x) d = record d { dialog = Dialogs.search_danmaku x d.dialog }
danmaku_event (blocked_selected value) d = record d {
  dialog = Dialogs.select_blocked value d.dialog;
}

unfoldable pub danmaku_events : List DanmakuEvent → Shown DanmakuDialog → Shown DanmakuDialog
unfolding danmaku_event
danmaku_events [] d = d
danmaku_events (x ∷ xs) d = danmaku_events xs (danmaku_event x d)

-- PoolVideoBindingDialog
pub data BindingEvent : Type 0 where
  pool_given : Option BilibiliPool → BindingEvent
  video_selected offset_changed : Text → BindingEvent

unfoldable pub binding_event : BindingEvent → Shown BindingDialog → Shown BindingDialog
unfolding same_pool
binding_event (pool_given pool) d = record {
  pool = pool;
  dialog = if same_pool d.pool pool then d.dialog else Dialogs.opened_binding;
}
binding_event (video_selected s) d = record d { dialog = record d.dialog { video_id = s } }
binding_event (offset_changed s) d = record d { dialog = record d.dialog { offset = s } }

unfoldable pub binding_events : List BindingEvent → Shown BindingDialog → Shown BindingDialog
unfolding binding_event
binding_events [] d = d
binding_events (x ∷ xs) d = binding_events xs (binding_event x d)

-- The body names the pool of the dialog, even if there is none.
unfoldable pub submitted_link : Shown BindingDialog → Link
unfolding to_number
submitted_link d = record {
  video = to_number d.dialog.video_id;
  pool = id_of d.pool;
  offset = to_number d.dialog.offset;
}

unfoldable pub scope_options : List BilibiliPool → List SelectOption
unfolding Dialogs.scope_options pool_label
scope_options = Dialogs.scope_options (λ pool. pool.id) pool_label

unfoldable pub keyword_body : KeywordPanel → Value
unfolding Dialogs.keyword_body
keyword_body = Dialogs.keyword_body

module _ {W : Type 0} (fetch : Request → Async W Response) where
  unfoldable pub get_pool_options : Async W Value
  unfolding Requests.get_pool_options
  get_pool_options = Requests.get_pool_options fetch source

  unfoldable pub get_pools : ListQuery → Async W Value
  unfolding Requests.get_pools
  get_pools = Requests.get_pools fetch source

  unfoldable pub get_videos : Async W Value
  unfolding Requests.get_videos
  get_videos = Requests.get_videos fetch source

  unfoldable pub get_pool_danmaku : Number → ListQuery → Text → Async W Value
  unfolding Requests.get_pool_danmaku
  get_pool_danmaku = Requests.get_pool_danmaku fetch source

  unfoldable pub get_keywords : Async W Value
  unfolding Requests.get_keywords
  get_keywords = Requests.get_keywords fetch source

  module _ (invalidate : Text → W → W) where
    unfoldable pub sync_pool : Number → W → Outcome Value × Toast × W
    unfolding Requests.sync_pool
    sync_pool = Requests.sync_pool fetch source invalidate (
        codes "bilibili-pools" ∷ codes "bilibili-pool-options" ∷ codes "bilibili-pool-danmaku" ∷ [])

    unfoldable pub bind_video : Link → W → Outcome Value × Toast × W
    unfolding Requests.bind_video
    bind_video =
        Requests.bind_video fetch source invalidate
          (codes "videos" ∷ codes "video" ∷ codes "bilibili-pools" ∷ []) (codes "视频关联已保存")

    unfoldable pub block_danmaku : Number × Bool → W → Outcome Value × Toast × W
    unfolding Requests.block_danmaku
    block_danmaku =
        Requests.block_danmaku fetch source invalidate
          (codes "bilibili-pool-danmaku" ∷ codes "bilibili-pools" ∷ []) (codes "弹幕屏蔽状态已更新")

    abbrev keyword_keys : List Text
    keyword_keys =
        codes "bilibili-keywords" ∷ codes "bilibili-pools" ∷ codes "bilibili-pool-danmaku" ∷ []

    unfoldable pub create_keyword : Value → W → Outcome Value × Toast × W
    unfolding Requests.create_keyword
    create_keyword = Requests.create_keyword fetch source invalidate keyword_keys

    unfoldable pub remove_keyword : Number → W → Outcome Value × Toast × W
    unfolding Requests.remove_keyword
    remove_keyword = Requests.remove_keyword fetch source invalidate keyword_keys

    unfoldable pub create_pool :
        (stringify : Value → Text)
        → Value
        → PoolVideoBinding Value
        → W
        → Outcome Value × Toast × PoolVideoBinding Value × W
    unfolding Requests.create_pool
    create_pool stringify =
        Requests.create_pool stringify fetch invalidate source
          (codes "bilibili-pools" ∷ codes "bilibili-pool-options" ∷ [])

    unfoldable pub submit_create : (stringify : Value → Text) → Panel → W → Panel × W
    unfolding shared_submit blank create_body
    submit_create stringify =
        shared_submit cleared blank false stringify fetch source invalidate
          (codes "bilibili-pools" ∷ codes "bilibili-pool-options" ∷ []) create_body
