-- ===== src/Users.antt =====
-- frontend/src/pages/users-page.tsx: the list of users, its filter, and what may be done to a user.
mod Tests
pub mod ListRequest
pub mod Password
pub mod Editor
use danmaku.Prelude.{ℕ, Bool, true, false, ◌&&◌, ◌||◌, not, Option, none, some, List, [], ◌∷◌, ◌++◌}
use danmaku.Js.Text.{Text, codes, trim}
use danmaku.Js.Number.{Number, integer, same_number}
use danmaku.Js.Outcome.{Outcome, Async}
use danmaku.Js.Value.{Value, boolean, object, field, end}
use danmaku.Js.Print.{number_text}
use danmaku.Api.Client.{Request, Response, Query, text, amount, api_get, api_patch, api_delete}
use danmaku.Api.Types.Session.{Session, SessionRole, super_admin}
use danmaku.Api.Types.Users.{ManagedUser, ManagedRole, administrator, danmaku_manager, user}

unfoldable pub role_value : ManagedRole → Text
role_value administrator = codes "administrator"
role_value danmaku_manager = codes "danmaku_manager"
role_value user = codes "user"

-- managedRoleLabel
unfoldable pub managed_role_label : ManagedRole → Text
managed_role_label administrator = codes "管理员"
managed_role_label danmaku_manager = codes "弹幕管理员"
managed_role_label user = codes "普通用户"

-- The values of filterRoles.
pub data RoleFilter : Type 0 where
  all_roles : RoleFilter
  only : ManagedRole → RoleFilter

pub record UsersPage : Type 0 where
  pub page : ℕ
  pub search : Text
  pub query : Text
  pub role : RoleFilter

unfoldable pub role_param : RoleFilter → Text
unfolding role_value
role_param all_roles = []
role_param (only r) = role_value r

unfoldable pub users_query : UsersPage → Query
unfolding role_param
users_query s =
    (codes "page", amount (integer s.page))
    ∷ (codes "size", amount (integer 20))
    ∷ (codes "q", text s.query)
    ∷ (codes "role", text (role_param s.role))
    ∷ []

-- What the visitor does to the filter and the pages.
pub data ListEvent : Type 0 where
  search_typed : Text → ListEvent
  search_submitted : ListEvent
  role_selected : RoleFilter → ListEvent
  page_selected : ℕ → ListEvent

unfoldable pub list_event : ListEvent → UsersPage → UsersPage
unfolding trim
list_event (search_typed s) p = record p { search = s }
list_event search_submitted p = record p { page = 1; query = trim p.search }
list_event (role_selected r) p = record p { role = r; page = 1 }
list_event (page_selected n) p = record p { page = n }

abbrev is_super : SessionRole → Bool
is_super super_admin = true
is_super _ = false

-- A user whom the session may not remove.
unfoldable pub remove_disabled : Session → ManagedUser → Bool
unfolding same_number
remove_disabled s u = same_number u.id s.id || (u.super_admin && not (is_super s.role))

-- A user whose switch is disabled, while a change is pending or not.
unfoldable pub status_disabled : (pending : Bool) → Session → ManagedUser → Bool
unfolding remove_disabled
status_disabled pending s u = pending || remove_disabled s u

module _ {W : Type 0} (fetch : Request → Async W Response) where
  unfoldable pub get_users : UsersPage → Async W Value
  unfolding users_query api_get
  get_users s = api_get fetch (codes "/api/admin/users") (users_query s)

  unfoldable pub change_status : ManagedUser → Async W Value
  unfolding api_patch number_text
  change_status u =
      api_patch fetch (codes "/api/admin/users/" ++ (number_text u.id ++ codes "/status"))
        (object (field (codes "enabled") (boolean (not u.enabled)) end))

  unfoldable pub remove_user : Number → Async W Value
  unfolding api_delete number_text
  remove_user id = api_delete fetch (codes "/api/admin/users/" ++ number_text id) []
