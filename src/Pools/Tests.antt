-- ===== src/Pools/Tests.antt =====
-- Pages of the sources with a server behind them, and the theorems at them.
pub mod Server
use danmaku.Prelude.{
  ℕ, ◌+◌, ◌<◌, ◌≤◌, ◌≡◌, refl, ◌⊎◌, inl, arith, Bool, true, false, ◌==◌, if◌then◌else◌, Option,
  none, some, List, [], ◌∷◌, ==_iff,
}
use mathlib.Core.List.{Memᴰ}
use danmaku.Js.Text.{Text, codes, is_empty, text_eq, trim, after_prefix}
use danmaku.Js.Number.{Number, integer, to_number}
use danmaku.Js.Outcome.{Outcome, returned, thrown, Async, other}
use danmaku.Js.Print.{number_text}
use danmaku.Js.Print.Whole.{exponent_from}
use danmaku.Js.Value.{Value, null, string, number, array, nil, object, field, end, property}
use danmaku.Api.Client.{Request, Response, api_post, receive, response_code, includes}
use danmaku.Api.Types.Danmaku.{DanmakuData}
use danmaku.Api.Types.Pools.{BilibiliPool, IqiyiPool}
use danmaku.Import.File.{ImportFormat, Platform, import_danmaku_file}
use danmaku.PoolCreation.{PoolVideoTarget}
use danmaku.PoolCreation.Retries.{added}
use danmaku.Binding.{PoolVideoBinding, opening, bind_pool}
use danmaku.Widgets.Select.{SelectOption, items}
use danmaku.Widgets.Select.Chosen.{Picks, untouched, chosen}
use danmaku.Pools.{page_selected}
use danmaku.Pools.Requests.{created_pool_id}
use danmaku.Pools.Panel.{
  PanelState, PanelEvent, create_clicked, video_changed, create_submitted, dialog_changed,
  form_changed, opened_panel, panel_events,
}
use danmaku.Pools.Panel.Sound.{IsSound, panel_events-IsSound}
use danmaku.Pools.Panel.Phases.{closed, abstraction, steps, panel_events-refines}
use danmaku.Pools.Panel.Once.{counted, uncounted, submissions, submissions-create_once}
use danmaku.Pools.Dialogs.{
  DanmakuDialog, BindingDialog, global_scope, scope_options, scope_value, opened_danmaku,
  opened_binding,
}
use danmaku.Pools.Dialogs.Keywords.{Applies, scope_value-Applies}
use danmaku.Pools.Iqiyi
use danmaku.Pools.Bilibili.{
  Shown, same_pool, DanmakuEvent, danmaku_events, BindingEvent, binding_events, submitted_link,
}
use danmaku.Pools.Bilibili.Fresh.{given_pool-independent}
use danmaku.Pools.External.ImportDialog.{ImportDialog, imported_pool_id}
use danmaku.Pools.External.ImportDialog.Once.{import_attempts, import_attempts-create_once}
use danmaku.Pools.Tests.Server.{
  ServerState, fetch_at, stringify, invalidate, pools_path, served, create_counts, targets, server,
}
use danmaku.PoolCreation.{refuses}
use danmaku.Js.Number.{is_safe_integer}
use danmaku.Widgets.Select.{value_changed}
use danmaku.Js.Text.{text_eq_refl}

-- The dialog of iqiyi's page with a video to be added; the first binding fails.
abbrev filled : PanelState Text IqiyiPool
filled = record (opened_panel [] is_empty false) { create_open = true; form = codes "abc" }

abbrev submitted : PanelState Text IqiyiPool × (ServerState × ℕ)
submitted =
    submissions [] is_empty false stringify (counted (codes "iqiyi") (fetch_at pools_path))
      (codes "iqiyi") (uncounted invalidate) (codes "iqiyi-pools" ∷ []) Iqiyi.create_body targets
      filled (server, 0)

submissions-create_once_example :
    (submitted.1.1 ≤ 1) × (submitted.0.create_open ≡ false → submitted.1.1 ≡ 1)
submissions-create_once_example =
    submissions-create_once [] is_empty false stringify (fetch_at pools_path) (codes "iqiyi")
      invalidate (codes "iqiyi-pools" ∷ []) Iqiyi.create_body (λ rest e. ground arith) targets
      filled server refl refl refl

-- The second submission binds the pool that the first has made.
submitted_test : submitted.1 ≡ (record { pools = 4; failures = 0 }, 1)
unfolding served submissions refuses is_safe_integer to_number Iqiyi.create_body
submitted_test = refl

-- A dialog that is not closed while it creates.
abbrev presses : List (PanelEvent Text IqiyiPool)
presses =
    create_clicked
    ∷ form_changed (codes "abc")
    ∷ video_changed (codes "42")
    ∷ create_submitted
    ∷ dialog_changed false
    ∷ []

panel_events-IsSound_example :
    IsSound (panel_events [] is_empty false presses (opened_panel [] is_empty false))
panel_events-IsSound_example = panel_events-IsSound [] is_empty false presses

panel_events-refines_example :
    abstraction (panel_events [] is_empty false presses (opened_panel [] is_empty false))
    ≡ steps [] is_empty false presses (closed, [])
panel_events-refines_example = panel_events-refines [] is_empty false presses

-- Two pools, of which the second is chosen.
abbrev pool_options : List SelectOption
pool_options = scope_options integer (λ n. codes "pool") (7 ∷ 12 ∷ [])

chosen_12 : Picks pool_options global_scope (codes "12")
unfolding items number_text scope_options value_changed
chosen_12 =
    chosen (record { value = codes "12"; label = codes "pool" }) untouched
      (Memᴰ.tail (Memᴰ.tail (Memᴰ.head refl)))

numbered : (n : ℕ) → Memᴰ n (7 ∷ 12 ∷ []) → (m : ℕ) × (integer n ≡ integer m) × (m < exponent_from)
numbered n (Memᴰ.head e) = (n, refl, omega (arith, e))
numbered n (Memᴰ.tail (Memᴰ.head e)) = (n, refl, omega (arith, e))
numbered n (Memᴰ.tail (Memᴰ.tail m)) = elim m [ ]

scope_value-Applies_example :
    Applies integer (λ n. codes "pool") (7 ∷ 12 ∷ []) (codes "12") (scope_value (codes "12"))
scope_value-Applies_example =
    scope_value-Applies integer (λ n. codes "pool") (7 ∷ 12 ∷ []) (codes "12") numbered chosen_12

-- A dialog for a pool that another was looked at before, on page 3.
abbrev pool_of : ℕ → Option BilibiliPool
pool_of n = some (record {
  id = integer n;
  bvid = codes "BV1";
  aid = integer 1;
  p = integer 1;
  cid = integer 2;
  danmaku_count = integer 0;
  blocked_count = integer 0;
  binding_count = integer 0;
  last_attempt_time = none;
  last_sync_time = none;
  create_time = [];
  update_time = [];
})

abbrev looked_at : List DanmakuEvent
looked_at = DanmakuEvent.pool_given (pool_of 7) ∷ DanmakuEvent.list_changed (page_selected 3) ∷ []

abbrev video_chosen : List BindingEvent
video_chosen = BindingEvent.pool_given (pool_of 7) ∷ BindingEvent.video_selected (codes "42") ∷ []

abbrev no_danmaku : Shown DanmakuDialog
no_danmaku = record { pool = none; dialog = opened_danmaku }

abbrev no_binding : Shown BindingDialog
no_binding = record { pool = none; dialog = opened_binding }

given_pool-independent_example :
    (danmaku_events (DanmakuEvent.pool_given (pool_of 8) ∷ []) (danmaku_events looked_at no_danmaku)
      ≡ danmaku_events (DanmakuEvent.pool_given (pool_of 8) ∷ []) no_danmaku)
    × (binding_events
          (BindingEvent.pool_given (pool_of 8) ∷ [])
          (binding_events video_chosen no_binding)
        ≡ binding_events (BindingEvent.pool_given (pool_of 8) ∷ []) no_binding)
unfolding danmaku_events binding_events
given_pool-independent_example =
    given_pool-independent (pool_of 8) no_danmaku no_danmaku no_binding no_binding looked_at [] []
      video_chosen [] [] (7, 8, refl, refl, λ e. ground arith) tt
      (7, 8, refl, refl, λ e. ground arith) tt
