-- ===== src/PoolCreation.antt =====
-- poolCreationWorkflow of frontend/src/lib/pool-creation.ts. The closure's variable `saved` is the
-- state; an asynchronous run is cut at its two awaits, `create()` and `bind(...)`, into the parts
-- that JavaScript executes with no interruption.
mod Tests
pub mod Runs
pub mod Retries
pub mod Interleaving
use danmaku.Prelude.{◌++◌, Bool, ◌&&◌, ◌||◌, not, Option, none, some, if◌then◌else◌}
use danmaku.Js.Text.{codes, Text, is_empty, trim, text_eq}
use danmaku.Js.Number.{Number, to_number, is_safe_integer, is_finite, le_zero}
use danmaku.Js.Outcome.{error, Outcome, returned, thrown, Async, message_or}

pub record PoolVideoTarget : Type 0 where
  pub video_id : Text
  pub offset : Text

pub record Saved (R : Type 0) : Type 0 where
  pub key : Text
  pub result : R

-- `let saved: { key, result } | undefined`
abbrev pub Workflow : Type 0 → Type 0
Workflow R = Option (Saved R)

abbrev pub invalid_target : Text
invalid_target = codes "请选择有效视频并输入有效偏移量"

abbrev pub bind_failed : Text
bind_failed = codes "弹幕池已创建，但关联视频失败；保持创建内容不变再次提交可重试关联："

-- The guard of `run`.
unfoldable pub refuses : PoolVideoTarget → Bool
refuses t =
    not (is_empty t.video_id)
    && (not (is_safe_integer (to_number t.video_id))
        || le_zero (to_number t.video_id)
        || is_empty (trim t.offset)
        || not (is_finite (to_number t.offset)))

-- Where the run is once it has a result: at the await of `bind(...)`, or at its end.
pub data Bound (R : Type 0) : Type 0 where
  binding : Text → R → Number → Number → Bound R
  ended : Outcome R → Bound R

-- Where the run is after its first part: at the await of `create()`, or past it.
pub data Created (R : Type 0) : Type 0 where
  creating : Text → Created R
  past : Bound R → Created R

module _ {R : Type 0} where
  -- `reset`
  unfoldable pub reset : Workflow R → Workflow R
  reset saved = none

  -- From `const result = saved.result` to the next await.
  unfoldable pub proceed : PoolVideoTarget → Saved R → Bound R × Workflow R
  proceed t s =
      if is_empty t.video_id
      then (ended (returned s.result), none)
      else (binding s.key s.result (to_number t.video_id) (to_number t.offset), some s)

  abbrev pub resumed : Bound R × Workflow R → Created R × Workflow R
  resumed (b, saved) = (past b, saved)

  unfoldable pub reuse_or_create : PoolVideoTarget → Text → Workflow R → Created R × Workflow R
  unfolding proceed
  reuse_or_create t key none = (creating key, none)
  reuse_or_create t key (some s) =
      if text_eq s.key key then resumed (proceed t s) else (creating key, some s)

  -- From the call of `run` to its first await.
  unfoldable pub start : Text → PoolVideoTarget → Workflow R → Created R × Workflow R
  unfolding reuse_or_create
  start key t saved =
      if refuses t
      then (past (ended (thrown (error invalid_target))), saved)
      else reuse_or_create t key saved

  -- `create()` has settled.
  unfoldable pub on_created : Text → PoolVideoTarget → Outcome R → Workflow R → Bound R × Workflow R
  unfolding proceed
  on_created key t (returned r) saved = proceed t (record { key = key; result = r })
  on_created key t (thrown e) saved = (ended (thrown e), saved)

  -- `bind(...)` has settled.
  unfoldable pub on_bound : R → Outcome (Unit {0}) → Workflow R → Outcome R × Workflow R
  on_bound r (returned _) saved = (returned r, none)
  on_bound r (thrown e) saved = (thrown (error (bind_failed ++ message_or (codes "请求失败") e)), saved)

-- A run by itself, with nothing in between: its outcome, the workflow and the world it leaves.
module _ {B R W : Type 0} (stringify : B → Text) (create : Async W R)
    (bind : R → Number → Number → Async W (Unit {0})) where
  unfoldable pub await_bind : Bound R × Workflow R → W → Outcome R × Workflow R × W
  unfolding on_bound
  await_bind (ended o, saved) w = (o, saved, w)
  await_bind (binding key r video offset, saved) w =
      let (o, w') = bind r video offset w in
      let (out, saved') = on_bound r o saved in (out, saved', w')

  unfoldable pub await_create :
      PoolVideoTarget → Created R × Workflow R → W → Outcome R × Workflow R × W
  unfolding await_bind on_created
  await_create t (past b, saved) w = await_bind (b, saved) w
  await_create t (creating key, saved) w =
      let (o, w') = create w in await_bind (on_created key t o saved) w'

  unfoldable pub run : B → PoolVideoTarget → Workflow R → W → Outcome R × Workflow R × W
  unfolding await_create start
  run body t saved w = await_create t (start (stringify body) t saved) w
