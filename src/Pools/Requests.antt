-- ===== src/Pools/Requests.antt =====
-- The requests of a source's page, for the name of the source and the keys of the queries that each
-- change invalidates: frontend/src/pages/iqiyi-page.tsx and its siblings.
pub mod Counted
use danmaku.Prelude.{ℕ, Bool, false, List, [], ◌∷◌, ◌++◌, if◌then◌else◌}
use danmaku.Js.Text.{Text, codes, is_empty, text_eq}
use danmaku.Js.Number.{Number, integer}
use danmaku.Js.Outcome.{Outcome, Async}
use danmaku.Js.Print.{number_text}
use danmaku.Js.Value.{Value, undefined, null, boolean, number, string, object, field, end, property}
use danmaku.Api.Client.{
  Request, Response, Query, text, amount, flag, api_get, api_post, api_patch, api_delete,
}
use danmaku.Api.Mutation.{Toast, api_mutation, settled_toast, after_mutation}
use danmaku.Binding.{PoolVideoBinding, create_bound}
use danmaku.Pools.{ListQuery, pools_query}

abbrev pub admin_path : Text → Text → Text
admin_path source rest = codes "/api/admin/" ++ (source ++ rest)

abbrev pub id_path : Text → Number → Text → Text
id_path before id after = before ++ (number_text id ++ after)

abbrev pub videos_query : Query
videos_query =
    (codes "page", amount (integer 1))
    ∷ (codes "size", amount (integer 500))
    ∷ (codes "deleted", flag false)
    ∷ []

-- The choice "all" of the state sends nothing.
abbrev pub blocked_value : Text → Text
unfolding text_eq
blocked_value blocked = if text_eq blocked (codes "all") then [] else blocked

abbrev pub danmaku_query : ListQuery → Text → Query
danmaku_query l blocked =
    (codes "page", amount (integer l.page))
    ∷ (codes "size", amount (integer 20))
    ∷ (codes "query", text l.query)
    ∷ (codes "blocked", text (blocked_value blocked))
    ∷ []

-- The queries.
module _ {W : Type 0} (fetch : Request → Async W Response) (source : Text) where
  unfoldable pub get_pool_options : Async W Value
  unfolding api_get
  get_pool_options =
      api_get fetch (admin_path source (codes "/pools"))
        ((codes "page", amount (integer 1)) ∷ (codes "size", amount (integer 500)) ∷ [])

  unfoldable pub get_pools : ListQuery → Async W Value
  unfolding api_get
  get_pools l = api_get fetch (admin_path source (codes "/pools")) (pools_query l)

  unfoldable pub get_videos : Async W Value
  unfolding api_get
  get_videos = api_get fetch (codes "/api/admin/videos") videos_query

  unfoldable pub get_pool_danmaku : Number → ListQuery → Text → Async W Value
  unfolding api_get number_text
  get_pool_danmaku pool l blocked =
      api_get fetch (id_path (admin_path source (codes "/pools/")) pool (codes "/danmaku"))
        (danmaku_query l blocked)

  unfoldable pub get_keywords : Async W Value
  unfolding api_get
  get_keywords = api_get fetch (admin_path source (codes "/keywords")) []

-- The body of a request that links a pool.
pub record Link : Type 0 where
  pub video : Number
  pub pool : Value
  pub offset : Number

abbrev pub link_body : Link → Value
link_body l = object (field (codes "poolId") l.pool (field (codes "offset") (number l.offset) end))

-- The changes.
module _ {W : Type 0} (fetch : Request → Async W Response) (source : Text)
    (invalidate : Text → W → W) (keys : List Text) where
  unfoldable pub sync_pool : Number → W → Outcome Value × Toast × W
  unfolding api_mutation api_post number_text
  sync_pool =
      api_mutation
        (λ id.
          api_post fetch (id_path (admin_path source (codes "/pools/")) id (codes "/sync"))
            undefined)
        invalidate (codes "弹幕池已增量同步") keys

  unfoldable pub bind_video : Text → Link → W → Outcome Value × Toast × W
  unfolding api_mutation api_post number_text
  bind_video message =
      api_mutation
        (λ l.
          api_post fetch
            (id_path (codes "/api/admin/videos/") l.video
              (codes "/" ++ (source ++ codes "-bindings")))
            (link_body l))
        invalidate message keys

  unfoldable pub block_danmaku : Text → Number × Bool → W → Outcome Value × Toast × W
  unfolding api_mutation api_patch number_text
  block_danmaku message =
      api_mutation
        (λ (id, value).
          api_patch fetch (id_path (admin_path source (codes "/danmaku/")) id (codes "/blocked"))
            (object (field (codes "blocked") (boolean value) end)))
        invalidate message keys

  unfoldable pub create_keyword : Value → W → Outcome Value × Toast × W
  unfolding api_mutation api_post
  create_keyword =
      api_mutation (λ body. api_post fetch (admin_path source (codes "/keywords")) body) invalidate
        (codes "关键词过滤规则已添加") keys

  unfoldable pub remove_keyword : Number → W → Outcome Value × Toast × W
  unfolding api_mutation api_delete number_text
  remove_keyword =
      api_mutation
        (λ id. api_delete fetch (id_path (admin_path source (codes "/keywords/")) id []) [])
        invalidate (codes "关键词过滤规则已删除") keys

-- result.data.pool.id
unfoldable pub created_pool_id : Value → Value
unfolding property
created_pool_id result =
    property (codes "id") (property (codes "pool") (property (codes "data") result))

abbrev pub created_message : Text → Text
created_message [] = codes "弹幕池已创建并同步"
created_message (_ ∷ _) = codes "弹幕池已创建、同步并关联视频"

-- A creation, with the binding of the new pool, as one mutation: its outcome and toast, the fields
-- of the binding after it and the world.
module _ {W : Type 0} (stringify : Value → Text) (fetch : Request → Async W Response)
    (invalidate : Text → W → W) (source : Text) (keys : List Text) where
  module _ (create : Value → Async W Value) (pool_id : Value → Value) (message : Text) where
    unfoldable pub submit_creation :
        Value → PoolVideoBinding Value → W → Outcome Value × Toast × PoolVideoBinding Value × W
    unfolding create_bound settled_toast after_mutation
    submit_creation body b w =
        let (o, b', w') =
          create_bound stringify fetch invalidate source pool_id (create body) body b w in
        (
          o,
          settled_toast create invalidate message keys o,
          b',
          after_mutation create invalidate message keys o w',
        )

  unfoldable pub create_pool :
      Value → PoolVideoBinding Value → W → Outcome Value × Toast × PoolVideoBinding Value × W
  unfolding submit_creation api_post created_pool_id
  create_pool body b w =
      submit_creation (api_post fetch (admin_path source (codes "/pools"))) created_pool_id
        (created_message b.video_id) body b w
