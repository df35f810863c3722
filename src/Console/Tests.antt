-- ===== src/Console/Tests.antt =====
-- Visits, sessions and logins, and the theorems at them.
use mathlib.Core.List.{Memᴰ}
use danmaku.Prelude.{◌↔◌, ℕ, false, ◌≡◌, ◌⊎◌, refl, none, some, [], ◌++◌, ◌+◌}
use danmaku.Js.Text.{Text, codes, text_eq, trim, after_prefix}
use danmaku.Js.Number.{integer}
use danmaku.Js.Outcome.{returned, thrown, other, Async}
use danmaku.Js.Value.{Value, number, object, field, end, property}
use danmaku.Api.Client.{Request, Response, receive, response_code, includes}
use danmaku.Api.Types.Session.{SessionData, AuthOptions, Session, super_admin, general_user, local}
use danmaku.Console.Shell.{NavItem, links, title_of, path_of}
use danmaku.Console.Shell.Links.{IsLinked, links_equivalent}
use danmaku.Console.Auth.{make_session}
use danmaku.Console.Routes.{users_page, profile_page, login_page, at, visit}
use danmaku.Console.Routes.Access.{landing, visit-landing, visit-role}
use danmaku.Console.Login.{safe_redirect, LoginForm, login_submit}
use danmaku.Console.Login.Redirects.{
  IsLocalPath, safe_redirect-IsLocalPath, IsAnswered, login_request, login_submit-IsAnswered,
}

abbrev user : SessionData
user = record {
  id = integer 3;
  name = codes "amy";
  username = codes "amy";
  role = general_user;
  email = none;
  avatar = none;
  provider = local;
}

abbrev options : AuthOptions
options = record {
  cas_enabled = false;
  default_cas = false;
  cas_login_path = codes "/api/auth/cas";
  local_login_path = codes "/login";
}

abbrev session : Session
session = make_session user options

visits_opened : Unit {0}
unfolding visit make_session
visits_opened = tt

-- A general user who asks for the user list is sent to the danmaku list, and from there home.
users_visit : visit 3 session (at users_page) ≡ some profile_page
unfolding visits_opened
users_visit = refl

-- Two elements are not enough.
short_visit : visit 2 session (at users_page) ≡ none
unfolding visits_opened
short_visit = refl

visit-landing_example : visit 3 session (at users_page) ≡ some (landing session (at users_page))
visit-landing_example = visit-landing 0 session (at users_page)

visit-role_example :
    (profile_page ≡ users_page → general_user ≡ super_admin)
    × (general_user ≡ general_user → (profile_page ≡ login_page) ⊎ (profile_page ≡ profile_page))
visit-role_example = visit-role 3 user options (at users_page) profile_page users_visit

abbrev with_code : ℕ → Value
with_code code = object (field (codes "code") (number (integer code)) end)

abbrev answer : ℕ → Value → Response
answer status body = record {
  ok = false;
  status = status;
  content_type = some (codes "application/json");
  json = returned body;
  plain = thrown other;
}

answers_opened : Unit {0}
unfolding receive includes property response_code after_prefix text_eq trim
answers_opened = tt

abbrev quoted : Text → Text
quoted s = codes "%" ++ s

safe_redirect-IsLocalPath_example : IsLocalPath (safe_redirect (some (codes "//evil.example")))
safe_redirect-IsLocalPath_example = safe_redirect-IsLocalPath (some (codes "//evil.example"))

users_IsLocalPath : IsLocalPath (codes "/users?page=2")
users_IsLocalPath = (refl, λ e. cc)

-- A server that accepts no password, and counts the attempts.
abbrev refusing : Request → Async ℕ Response
refusing r attempts = (returned (answer 400 (with_code 1)), attempts + 1)

abbrev empty_form : LoginForm
empty_form = record { name = codes "amy"; password = codes "x"; pending = false; error = [] }

login_submit-IsAnswered_example :
    (let (form', target, w') = login_submit refusing quoted empty_form (codes "/users") 0 in
      let (o, after) = refusing (login_request refusing quoted empty_form (codes "/users")) 0 in
      IsAnswered empty_form (codes "/users") (receive o) (form', target) × (w' ≡ after))
login_submit-IsAnswered_example =
    login_submit-IsAnswered refusing quoted empty_form (codes "/users") 0

links_equivalent_example :
    (IsLinked users_page (links session) ↔ (visit 3 session (at users_page) ≡ some users_page))
    × ((i : NavItem) → Memᴰ i (links session) → title_of (path_of i.page) ≡ i.label)
links_equivalent_example = links_equivalent 0 session users_page (λ e. cc)
