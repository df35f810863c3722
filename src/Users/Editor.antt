-- ===== src/Users/Editor.antt =====
-- UserEditor of frontend/src/pages/users-page.tsx: the form of a user, new or not.
pub mod Kept
use danmaku.Prelude.{
  ℕ, Bool, true, false, ◌&&◌, not, Option, none, some, List, [], ◌∷◌, ◌++◌, if◌then◌else◌,
}
use danmaku.Js.Text.{Text, codes, text_eq}
use danmaku.Js.Number.{same_number}
use danmaku.Js.Outcome.{Outcome, Async}
use danmaku.Js.Value.{Value, string, object, Fields, field, end}
use danmaku.Js.Print.{number_text}
use danmaku.Api.Client.{Request, Response, api_post, api_put}
use danmaku.Api.Types.Session.{Session}
use danmaku.Api.Types.Users.{ManagedUser, ManagedRole, administrator, danmaku_manager, user}
use danmaku.Users.{role_value}
use danmaku.Users.Password.{random_password}

-- The user of the dialog, if it is not a new one, and the details, once the server has sent them.
pub record Edited : Type 0 where
  pub of_user : Option ManagedUser
  pub detail : Option ManagedUser

abbrev or_else : Option ManagedUser → Option ManagedUser → Option ManagedUser
or_else none u = u
or_else (some d) u = some d

-- `current`
unfoldable pub current : Edited → Option ManagedUser
current e = or_else e.detail e.of_user

abbrev is_new : Option ManagedUser → Bool
is_new none = true
is_new (some _) = false

abbrev mutable_or_false : Option ManagedUser → Bool
mutable_or_false none = false
mutable_or_false (some u) = u.profile_mutable

unfoldable pub profile_mutable : Edited → Bool
unfolding current
profile_mutable e = if is_new e.of_user then true else mutable_or_false (current e)

abbrev same_user : Option ManagedUser → Session → Bool
same_user none s = false
same_user (some u) s = same_number u.id s.id

unfoldable pub role_locked : Session → Edited → Bool
unfolding current
role_locked s e = same_user (current e) s

pub record UserForm : Type 0 where
  pub name : Text
  pub password : Text
  pub email : Text
  pub role : ManagedRole

abbrev or_empty : Option Text → Text
or_empty none = []
or_empty (some s) = s

-- The form once the effect of `open` has run.
abbrev pub form_of : Option ManagedUser → UserForm
form_of none = record { name = []; password = []; email = []; role = user }
form_of (some u) = record { name = u.name; password = []; email = or_empty u.email; role = u.role }

unfoldable pub opened_form : Edited → UserForm
unfolding current
opened_form e = form_of (current e)

-- What happens to the form's fields; the password is generated from random bytes.
pub data Edit : Type 0 where
  name_typed password_typed email_typed role_selected : Text → Edit
  password_generated : List ℕ → Edit

-- The guard of the role's `onValueChange`.
unfoldable pub with_role : Text → UserForm → UserForm
unfolding role_value text_eq
with_role value form =
    if text_eq value (role_value administrator)
    then record form { role = administrator }
    else if text_eq value (role_value danmaku_manager)
    then record form { role = danmaku_manager }
    else if text_eq value (role_value user)
    then record form { role = user }
    else form

-- The fields of the profile are not rendered if it is not mutable, and the role's is disabled if
-- it is locked.
unfoldable pub edit : (mutable locked : Bool) → Edit → UserForm → UserForm
unfolding with_role random_password
edit mutable locked (name_typed s) form = if mutable then record form { name = s } else form
edit mutable locked (password_typed s) form = if mutable then record form { password = s } else form
edit mutable locked (email_typed s) form = if mutable then record form { email = s } else form
edit mutable locked (role_selected s) form = if locked then form else with_role s form
edit mutable locked (password_generated bytes) form =
    if mutable then record form { password = random_password bytes } else form

unfoldable pub edits : Session → Edited → List Edit → UserForm → UserForm
unfolding edit profile_mutable role_locked
edits s e [] form = form
edits s e (x ∷ xs) form = edits s e xs (edit (profile_mutable e) (role_locked s e) x form)

abbrev pub password_field : Text → Fields
password_field [] = end
password_field (c ∷ s) = field (codes "password") (string (c ∷ s)) end

-- The body of the submission.
unfoldable pub save_body : Edited → UserForm → Value
unfolding profile_mutable role_value
save_body e form = object (
    field (codes "role") (string (role_value form.role)) (
      if profile_mutable e
      then field (codes "name") (string form.name)
          (field (codes "email") (string form.email) (password_field form.password))
      else end))

module _ {W : Type 0} (fetch : Request → Async W Response) where
  abbrev save_to : Option ManagedUser → Value → Async W Value
  save_to none body = api_post fetch (codes "/api/admin/users") body
  save_to (some u) body = api_put fetch (codes "/api/admin/users/" ++ number_text u.id) body

  unfoldable pub save : Edited → UserForm → Async W Value
  unfolding save_body api_post api_put number_text
  save e form = save_to e.of_user (save_body e form)
