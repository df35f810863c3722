-- ===== src/Console/Auth.antt =====
-- AuthBoundary of frontend/src/auth/session.tsx and useSession of session-context.ts: what stands
-- in place of the console until the session is known.
pub mod Expiry
use danmaku.Prelude.{Bool, true, false, ◌&&◌, ◌||◌, not, Option, none, some, ◌++◌, if◌then◌else◌}
use danmaku.Js.Text.{Text, codes}
use danmaku.Js.Number.{Number}
use danmaku.Js.Value.{number_is}
use danmaku.Js.Outcome.{Thrown, error, api_client_error, other, Outcome, returned, thrown}
use danmaku.Api.Client.{error_message}
use danmaku.Api.Types.Session.{
  SessionData, SessionRole, super_admin, admin, general_user, Provider, local, cas, AuthOptions,
  Session,
}

abbrev is_super_admin : SessionRole → Bool
is_super_admin super_admin = true
is_super_admin _ = false

abbrev is_admin : SessionRole → Bool
is_admin admin = true
is_admin _ = false

abbrev is_cas : Provider → Bool
is_cas cas = true
is_cas local = false

-- The session, from the two answers of the server.
unfoldable pub make_session : SessionData → AuthOptions → Session
make_session current options = record {
  session = current;
  cas_enabled = options.cas_enabled;
  can_manage_danmaku = is_super_admin current.role || is_admin current.role;
  can_manage_users = is_super_admin current.role;
  profile_editable = not options.cas_enabled && not (is_cas current.provider);
}

-- Promise.all of the two requests: the failure of either is the failure of both; of two failures
-- it is the earlier one, which is that of the options if `options_first`.
unfoldable pub load_session :
    (options_first : Bool) → Outcome SessionData → Outcome AuthOptions → Outcome Session
unfolding make_session
load_session options_first (thrown e) (thrown e') = thrown (if options_first then e' else e)
load_session options_first (thrown e) (returned options) = thrown e
load_session options_first (returned current) (thrown e) = thrown e
load_session options_first (returned current) (returned options) =
    returned (make_session current options)

-- What AuthBoundary shows: nothing yet, a redirect to a path, an error, or the console.
pub data Boundary : Type 0 where
  waiting : Boundary
  redirect : Text → Boundary
  failure : Text → Boundary
  inside : Session → Boundary

-- session.error instanceof ApiClientError && session.error.code === 401
unfoldable pub is_unauthorized : Thrown → Bool
is_unauthorized (api_client_error status code m) = number_is code 401
is_unauthorized e = false

module _ (encode_uri_component : Text → Text) where
  unfoldable pub login_path : Text → Text
  login_path location = codes "/login?redirect=" ++ encode_uri_component location

  -- `none` while the query is pending; `location` is the path with its search part.
  unfoldable pub boundary : Text → Option (Outcome Session) → Boundary
  unfolding is_unauthorized login_path
  boundary location none = waiting
  boundary location (some (returned session)) = inside session
  boundary location (some (thrown e)) =
      if is_unauthorized e then redirect (login_path location) else failure (error_message e)

-- useSession
unfoldable pub use_session : Option Session → Outcome Session
use_session none = thrown (error (codes "useSession 必须在 AuthBoundary 内使用"))
use_session (some session) = returned session
