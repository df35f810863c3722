-- ===== src/Binding.antt =====
-- The video to which a new pool is bound: the options of
-- frontend/src/components/pool-video-binding-fields.tsx, and
-- frontend/src/hooks/use-pool-video-binding.ts around the creation workflow.
mod Tests
pub mod AllVideos
use danmaku.Prelude.{
  ℕ, zero, suc, ◌*◌, ◌^◌, Bool, true, false, ◌||◌, Option, none, some, List, [], ◌∷◌, ◌++◌, pos,
  negsuc, leb, length, if◌then◌else◌, map,
}
use danmaku.Js.Text.{Text, codes}
use danmaku.Js.Number.{Number, nan, infinity, neg_infinity, decimal, integer, to_number}
use danmaku.Js.Outcome.{Thrown, error, Outcome, returned, thrown, Async}
use danmaku.Js.Value.{
  Value, undefined, null, boolean, number, string, array, object, Items, items, property, field,
  end,
}
use danmaku.Js.Print.{number_text}
use danmaku.Api.Client.{Request, Response, Query, amount, flag, api_get, api_post}
use danmaku.PoolCreation.{PoolVideoTarget, Workflow, run}

-- The request for one page of all videos.
abbrev pub videos_query : ℕ → Query
videos_query page =
    (codes "page", amount (integer page))
    ∷ (codes "size", amount (integer 500))
    ∷ (codes "deleted", flag false)
    ∷ []

abbrev pub reaches_number : ℕ → Number → Bool
reaches_number n (decimal (pos total) k) = leb total (n * 10 ^ k)
reaches_number n (decimal (negsuc total) k) = true
reaches_number n neg_infinity = true
reaches_number n infinity = false
reaches_number n nan = false

-- n >= total, whose right side becomes a number. An array is taken for one that is not a number.
unfoldable pub reaches : ℕ → Value → Bool
unfolding to_number
reaches n (number total) = reaches_number n total
reaches n (string s) = reaches_number n (to_number s)
reaches n (boolean true) = leb 1 n
reaches n (boolean false) = true
reaches n null = true
reaches n v = false

-- `data.list` in a call's arguments, spread. The values that are not arrays are not iterable, but
-- for a string, which is taken for one that is not.
unfoldable pub spread_list : Value → Outcome (List Value)
spread_list (array vs) = returned (items vs)
spread_list v = thrown (error (codes "data.list is not iterable"))

abbrev pub is_nil : List Value → Bool
is_nil [] = true
is_nil (_ ∷ _) = false

module _ {W : Type 0} (again : List Value → W → Option (Outcome (List Value)) × W) where
  -- all.push(...data.list), and whether the loop ends.
  unfoldable pub push_page :
      List Value → Value → Outcome (List Value) → W → Option (Outcome (List Value)) × W
  push_page all envelope_data (thrown e) w = (some (thrown e), w)
  push_page all envelope_data (returned list) w =
      let next = again (all ++ list) w in
      if is_nil list || reaches (length (all ++ list)) (property (codes "total") envelope_data)
      then (some (returned (all ++ list)), w)
      else next

  unfoldable pub after_page : List Value → Outcome Value → W → Option (Outcome (List Value)) × W
  unfolding push_page spread_list
  after_page all (thrown e) w = (some (thrown e), w)
  after_page all (returned body) w =
      let envelope_data = property (codes "data") body in
      push_page all envelope_data (spread_list (property (codes "list") envelope_data)) w

module _ {W : Type 0} (fetch : Request → Async W Response) where
  unfoldable pub get_page : ℕ → Async W Value
  unfolding api_get
  get_page page = api_get fetch (codes "/api/admin/videos") (videos_query page)

  -- The loop of the query function from a page on; `none` when the fuel, one unit for a request,
  -- is used up.
  unfoldable pub fetch_pages : ℕ → ℕ → List Value → W → Option (Outcome (List Value)) × W
  unfolding get_page after_page
  fetch_pages zero page all w = (none, w)
  fetch_pages (suc fuel) page all w =
      let (o, w') = get_page page w in after_page (fetch_pages fuel (suc page)) all o w'

  unfoldable pub fetch_all_videos : ℕ → W → Option (Outcome (List Value)) × W
  unfolding fetch_pages
  fetch_all_videos fuel w = fetch_pages fuel 1 [] w

-- The fields of the dialog, with the workflow that they are submitted to.
pub record PoolVideoBinding (R : Type 0) : Type 0 where
  pub video_id : Text
  pub offset : Text
  pub workflow : Workflow R

module _ {R : Type 0} where
  abbrev pub opening : PoolVideoBinding R
  opening = record { video_id = []; offset = codes "0"; workflow = none }

  unfoldable pub set_video_id : Text → PoolVideoBinding R → PoolVideoBinding R
  set_video_id text b = record b { video_id = text }

  unfoldable pub set_offset : Text → PoolVideoBinding R → PoolVideoBinding R
  set_offset text b = record b { offset = text }

  -- The effect of `open`.
  unfoldable pub open_changed : Bool → PoolVideoBinding R → PoolVideoBinding R
  open_changed true b = b
  open_changed false b = record b { video_id = []; offset = codes "0"; workflow = none }

-- The keys whose queries are invalidated once a creation ends, however it ends.
abbrev pub refreshed_keys : Text → List Text
refreshed_keys source =
    codes "videos"
    ∷ codes "video"
    ∷ codes "video-heatmap"
    ∷ (source ++ codes "-pools")
    ∷ (source ++ codes "-pool-options")
    ∷ codes "catalog-pool-options"
    ∷ []

-- The pool's number or text, as `poolId` of the request.
module _ {B R W : Type 0} (stringify : B → Text) (fetch : Request → Async W Response)
    (invalidate : Text → W → W) (source : Text) (pool_id : R → Value) where
  unfoldable pub bind_pool : R → Number → Number → Async W (Unit {0})
  unfolding api_post number_text
  bind_pool result id seconds w =
      let (o, w') =
        api_post fetch
          (codes "/api/admin/videos/"
            ++ (number_text id ++ (codes "/" ++ (source ++ codes "-bindings"))))
          (object
            (field (codes "poolId") (pool_id result) (field (codes "offset") (number seconds) end)))
          w in
      (elim o [ returned _ ↦ returned tt | thrown e ↦ thrown e ], w')

  unfoldable pub invalidate_all : List Text → W → W
  invalidate_all [] w = w
  invalidate_all (key ∷ keys) w = invalidate_all keys (invalidate key w)

  -- `create` of the hook.
  unfoldable pub create_bound :
      (create : Async W R) → B → PoolVideoBinding R → W → Outcome R × PoolVideoBinding R × W
  unfolding run bind_pool invalidate_all
  create_bound create body b w =
      let (o, workflow', w') =
        run stringify create bind_pool body (record { video_id = b.video_id; offset = b.offset })
          b.workflow w in
      (o, record b { workflow = workflow' }, invalidate_all (refreshed_keys source) w')
