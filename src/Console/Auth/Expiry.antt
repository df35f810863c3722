-- ===== src/Console/Auth/Expiry.antt =====
-- From the server's two answers to what stands in place of the console.
use danmaku.Prelude.{Bool, not, ◌≡◌, ◌≢◌, ◌⊎◌, some, []}
use danmaku.Js.Text.{Text}
use danmaku.Js.Outcome.{Outcome, returned, thrown}
use danmaku.Js.Value.{Value}
use danmaku.Api.Types.Session.{SessionData, AuthOptions}
use danmaku.Api.Client.{Response, receive}
use danmaku.Api.Client.Answers.{IsExpired}
use danmaku.Console.Auth.{Boundary, load_session, boundary, redirect, failure, login_path}

-- A value that is taken for one of a type.
abbrev pub taken : {A : Type 0} → (Value → A) → Outcome Value → Outcome A
taken read (returned v) = returned (read v)
taken read (thrown e) = thrown e

-- The two requests of the session's query with their answers, of which the one for the options failed
-- first if `options_first`.
module _ (encode_uri_component : Text → Text) (session_of : Value → SessionData)
    (options_of : Value → AuthOptions) where
  abbrev pub shown : Text → Bool → Outcome Response → Outcome Response → Boundary
  shown location options_first session options = boundary encode_uri_component location (
      some (
        load_session options_first (taken session_of (receive session))
          (taken options_of (receive options))))

  -- What a failed answer leads to, by its body.
  abbrev pub IsTurnedAway : Text → Value → Boundary → Type 0
  IsTurnedAway location body b =
      (IsExpired body × (b ≡ redirect (login_path encode_uri_component location)))
      ⊎ ((¬ IsExpired body) × ((message : Text) × (b ≡ failure message) × (message ≢ [])))

  -- The failure of one request is that of both where it is the first, or the only one.
  abbrev pub IsDeciding : (of_session options_first : Bool) → Outcome Response → Type 0
  IsDeciding of_session options_first other =
      (options_first ≡ not of_session) ⊎ ((v : Value) × (receive other ≡ returned v))
