-- ===== src/Pools/Requests/Counted.antt =====
-- What a creation from a page adds to the pools.
use danmaku.Prelude.{ℕ, ◌+◌, ◌≡◌, refl, ◌∙◌, none, some, List, [], ◌∷◌}
use danmaku.Js.Text.{Text}
use danmaku.Js.Number.{Number}
use danmaku.Js.Outcome.{Outcome, returned, thrown, Async}
use danmaku.Js.Value.{Value}
use danmaku.Api.Client.{Request, Response}
use danmaku.Api.Mutation.{invalidate_queries, after_mutation}
use danmaku.PoolCreation.{Workflow}
use danmaku.PoolCreation.Retries.{added, Pending, Progress, run-Progress}
use danmaku.Binding.{PoolVideoBinding, bind_pool, invalidate_all, create_bound, refreshed_keys}
use danmaku.Pools.Requests.{submit_creation}

module _ {W : Type 0} (stringify : Value → Text) (fetch : Request → Async W Response)
    (invalidate : Text → W → W) (source : Text) (create : Value → Async W Value)
    (pool_id : Value → Value) (count : W → ℕ)
    (invalidate_keeps : (key : Text) (w : W) → count (invalidate key w) ≡ count w)
    (create_counts : (body : Value) (w : W)
      → count (create body w).1 ≡ count w + added (create body w).0)
    (bind_keeps : (result : Value) (video offset : Number) (w : W)
      → count (bind_pool stringify fetch invalidate source pool_id result video offset w).1
        ≡ count w) where
  invalidate_all-count :
      (ks : List Text) (w : W)
      → count (invalidate_all stringify fetch invalidate source pool_id ks w) ≡ count w
  unfolding invalidate_all
  invalidate_all-count [] w = refl
  invalidate_all-count (k ∷ ks) w = invalidate_all-count ks (invalidate k w) ∙ invalidate_keeps k w

  invalidate_queries-count :
      (message : Text) (keys ks : List Text) (w : W)
      → count (invalidate_queries create invalidate message keys ks w) ≡ count w
  unfolding invalidate_queries
  invalidate_queries-count message keys [] w = refl
  invalidate_queries-count message keys (k ∷ ks) w =
      invalidate_queries-count message keys ks (invalidate k w) ∙ invalidate_keeps k w

  after_mutation-count :
      (message : Text) (keys : List Text) (o : Outcome Value) (w : W)
      → count (after_mutation create invalidate message keys o w) ≡ count w
  unfolding after_mutation
  after_mutation-count message keys (returned v) w = invalidate_queries-count message keys keys w
  after_mutation-count message keys (thrown e) w = refl

  -- A world with as many pools is as good.
  Progress-same :
      (key : Text) (base : ℕ) (o : Outcome Value) (saved : Workflow Value) (w w' : W)
      → count w' ≡ count w
      → Progress count key base (o, saved, w)
      → Progress count key base (o, saved, w')
  Progress-same key base (returned v) saved w w' same (cleared, n) = (cleared, same ∙ n)
  Progress-same key base (thrown e) none w w' same n = same ∙ n
  Progress-same key base (thrown e) (some s) w w' same (kept, n) = (kept, same ∙ n)

  -- A submission goes on with what is pending for its body, and ends it when it succeeds.
  pub submit_creation-Progress :
      (keys : List Text) (message : Text) (base : ℕ) (body : Value) (b : PoolVideoBinding Value)
      (w : W)
      → Pending count (stringify body) base b.workflow w
      → (let (o, toast, b', w') =
            submit_creation stringify fetch invalidate source keys create pool_id message body b
              w in
          Progress count (stringify body) base (o, b'.workflow, w'))
  unfolding submit_creation create_bound
  submit_creation-Progress keys message base body b w h =
      let ran =
        run-Progress stringify (create body) (bind_pool stringify fetch invalidate source pool_id)
          count (create_counts body) bind_keeps body base
          (record { video_id = b.video_id; offset = b.offset }) b.workflow w h in
      Progress-same (stringify body) base _ _ _ _
        (after_mutation-count message keys _ _ ∙ invalidate_all-count (refreshed_keys source) _) ran
