-- ===== src/Api/Mutation.antt =====
-- useApiMutation of frontend/src/hooks/use-api-mutation.ts: a change on the server, with its toasts
-- and the queries that are fetched again after it.
use danmaku.Prelude.{List, [], ◌∷◌}
use danmaku.Js.Text.{Text, codes}
use danmaku.Js.Outcome.{Outcome, returned, thrown, Async}
use danmaku.Api.Client.{error_message}

-- A title, and a description where there is one.
pub data Toast : Type 0 where
  titled : Text → Toast
  described : Text → Text → Toast

-- What the toast shows while the mutation runs.
abbrev pub loading : Toast
loading = described (codes "正在处理操作") (codes "请求已提交，请稍候。")

module _ {K V R W : Type 0} (mutation_fn : V → Async W R) (invalidate_query : K → W → W)
    (success_message : Text) (invalidate : List K) where
  -- What it shows in the end.
  unfoldable pub settled_toast : Outcome R → Toast
  unfolding error_message
  settled_toast (returned _) = titled success_message
  settled_toast (thrown e) = described (codes "操作失败") (error_message e)

  unfoldable pub invalidate_queries : List K → W → W
  invalidate_queries [] w = w
  invalidate_queries (key ∷ keys) w = invalidate_queries keys (invalidate_query key w)

  -- `onSuccess`
  unfoldable pub after_mutation : Outcome R → W → W
  unfolding invalidate_queries
  after_mutation (returned _) w = invalidate_queries invalidate w
  after_mutation (thrown e) w = w

  -- The outcome, the last toast, and the world with its queries marked.
  unfoldable pub api_mutation : V → W → Outcome R × Toast × W
  unfolding settled_toast after_mutation
  api_mutation variables w =
      let (o, w') = mutation_fn variables w in (o, settled_toast o, after_mutation o w')
