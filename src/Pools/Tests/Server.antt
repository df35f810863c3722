-- ===== src/Pools/Tests/Server.antt =====
-- A server of pools, for the examples.
use danmaku.Prelude.{ℕ, ◌+◌, ◌≡◌, refl, Bool, true, ◌==◌, if◌then◌else◌, some, List, [], ◌∷◌}
use danmaku.Js.Text.{Text, codes, text_eq, trim, after_prefix}
use danmaku.Js.Number.{integer}
use danmaku.Js.Outcome.{returned, thrown, Async, other}
use danmaku.Js.Print.{number_text}
use danmaku.Js.Value.{Value, string, number, object, field, end, property}
use danmaku.Api.Client.{Request, Response, api_post, receive, response_code, includes}
use danmaku.PoolCreation.{PoolVideoTarget}
use danmaku.PoolCreation.Retries.{added}
use danmaku.Binding.{bind_pool}

-- The server: how many pools it has, and how many bindings fail before one succeeds.
pub record ServerState : Type 0 where
  pub pools : ℕ
  pub failures : ℕ

abbrev answer : Bool → Response
answer ok = record {
  ok = ok;
  status = if ok then 200 else 500;
  content_type = some (codes "application/json");
  json = returned (
      object (
        field (codes "data")
          (object (
            field (codes "id") (number (integer 7))
              (field (codes "pool") (object (field (codes "id") (number (integer 7)) end)) end)))
          end));
  plain = thrown other;
}

-- A request to the path creates a pool; the others bind.
abbrev pub fetch_at : Text → Request → Async ServerState Response
fetch_at path r w =
    if text_eq r.path path
    then (returned (answer true), record w { pools = w.pools + 1 })
    else (returned (answer (w.failures == 0)), record w { failures = 0 })

abbrev pub stringify : Value → Text
stringify (object (field key (string s) fs)) = s
stringify _ = []

abbrev pub invalidate : Text → ServerState → ServerState
invalidate key w = w

abbrev pub pools_path : Text
pools_path = codes "/api/admin/iqiyi/pools"

unfoldable pub served : Unit {0}
unfolding api_post bind_pool receive includes property response_code after_prefix text_eq trim
    number_text
served = tt

pub create_counts :
    (path : Text) (same : text_eq path path ≡ true) (body : Value) (w : ServerState)
    → (api_post (fetch_at path) path body w).1.pools
      ≡ w.pools + added (api_post (fetch_at path) path body w).0
unfolding served
create_counts path same body w = rw same refl

abbrev pub targets : List PoolVideoTarget
targets =
    record { video_id = codes "42"; offset = codes "1.5" }
    ∷ record { video_id = codes "42"; offset = codes "0" }
    ∷ []

abbrev pub server : ServerState
server = record { pools = 3; failures = 1 }
