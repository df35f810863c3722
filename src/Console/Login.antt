-- ===== src/Console/Login.antt =====
-- frontend/src/pages/login-page.tsx: where a login leads, and the state of its form.
pub mod Redirects
use danmaku.Prelude.{
  Bool, true, false, ◌&&◌, ◌==◌, not, Option, none, some, ◌++◌, List, [], ◌∷◌, if◌then◌else◌,
}
use danmaku.Js.Text.{Text, codes, text_eq}
use danmaku.Js.Outcome.{Thrown, Outcome, returned, thrown, Async}
use danmaku.Js.Value.{Value, string, object, field, end}
use danmaku.Api.Client.{Request, Response, api_post, error_message}
use danmaku.Api.Types.Session.{AuthOptions}

-- startsWith
abbrev pub begins : Text → Text → Bool
begins [] s = true
begins (p ∷ ps) [] = false
begins (p ∷ ps) (c ∷ s) = (p == c) && begins ps s

-- safeRedirect
unfoldable pub safe_redirect : Option Text → Text
safe_redirect none = codes "/"
safe_redirect (some value) =
    if begins (codes "/") value && not (begins (codes "//") value) then value else codes "/"

-- params.get("skipsso") === "true"
unfoldable pub skips_sso : Option Text → Bool
unfolding text_eq
skips_sso none = false
skips_sso (some value) = text_eq value (codes "true")

-- The page leaves for the single sign-on, once the options are known.
unfoldable pub leaves_for_cas : Option AuthOptions → Bool → Bool
leaves_for_cas none skip = false
leaves_for_cas (some options) skip = options.cas_enabled && options.default_cas && not skip

module _ (encode_uri_component : Text → Text) where
  unfoldable pub cas_location : AuthOptions → Text → Text
  cas_location options redirect =
      options.cas_login_path ++ (codes "?returnTo=" ++ encode_uri_component redirect)

  -- The effect: the address that replaces the page's, if any.
  unfoldable pub cas_replacement : Option AuthOptions → Bool → Text → Option Text
  unfolding cas_location leaves_for_cas
  cas_replacement none skip redirect = none
  cas_replacement (some options) skip redirect =
      if leaves_for_cas (some options) skip then some (cas_location options redirect) else none

pub record LoginForm : Type 0 where
  pub name : Text
  pub password : Text
  pub pending : Bool
  pub error : Text

module _ {W : Type 0} (fetch : Request → Async W Response) (md5 : Text → Text) where
  unfoldable pub login_body : LoginForm → Text → Value
  login_body form redirect = object (
      field (codes "name") (string form.name) (
        field (codes "password") (string (md5 form.password))
          (field (codes "url") (string redirect) end)))

  -- The form and the address that the page leaves for, once the server has answered.
  unfoldable pub login_answered : LoginForm → Text → Outcome Value → LoginForm × Option Text
  login_answered form redirect (returned v) = (form, some redirect)
  login_answered form redirect (thrown cause) =
      (record form { error = error_message cause; pending = false }, none)

  -- submit
  unfoldable pub login_submit : LoginForm → Text → W → LoginForm × Option Text × W
  unfolding login_answered login_body api_post
  login_submit form redirect w =
      let sent = record form { pending = true; error = [] } in
      let (o, w') = api_post fetch (codes "/api/admin/login") (login_body form redirect) w in
      let (form', target) = login_answered sent redirect o in (form', target, w')
