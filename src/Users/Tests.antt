-- ===== src/Users/Tests.antt =====
-- Small lists of users and edits, and the theorems at them.
use danmaku.Prelude.{◌≡◌, refl, true, false, some, none, List, [], ◌∷◌, All, length}
use danmaku.Js.Text.{codes}
use danmaku.Js.Number.{integer, same_number}
use danmaku.Js.Value.{undefined, string, property}
use danmaku.Api.Types.Session.{Session, super_admin, cas}
use danmaku.Api.Types.Users.{ManagedUser, administrator, danmaku_manager}
use danmaku.Users.{UsersPage, only, list_event, search_submitted, role_value, remove_disabled}
use danmaku.Users.Password.{alphabet, random_password, Occurs, random_password-IsAllowed}
use danmaku.Users.Editor.{
  Edited, current, profile_mutable, role_locked, opened_form, Edit, name_typed, password_typed,
  role_selected, edits, save_body,
}
use danmaku.Users.Editor.Kept.{save_body-own_role, save_body-password}

abbrev first_page : UsersPage
first_page = record { page = 3; search = codes " amy "; query = []; role = only danmaku_manager }

search_test :
    list_event search_submitted first_page
    ≡ record { page = 1; search = codes " amy "; query = codes "amy"; role = only danmaku_manager }
unfolding list_event
search_test = refl

random_password-IsAllowed_example :
    (length (random_password (0 ∷ 57 ∷ 255 ∷ [])) ≡ 3)
    × All (λ c. Occurs c alphabet) (random_password (0 ∷ 57 ∷ 255 ∷ []))
random_password-IsAllowed_example = random_password-IsAllowed (0 ∷ 57 ∷ 255 ∷ [])

random_password_test : random_password (0 ∷ 57 ∷ 255 ∷ []) ≡ codes "AAd"
unfolding random_password
random_password_test = refl

abbrev boss : ManagedUser
boss = record {
  id = integer 1;
  name = codes "boss";
  display_name = codes "Boss";
  role = administrator;
  super_admin = true;
  enabled = true;
  provider = cas;
  profile_mutable = false;
  email = none;
  avatar = none;
  create_time = [];
  update_time = [];
}

abbrev session : Session
session = record {
  session = record {
    id = integer 1;
    name = codes "Boss";
    username = codes "boss";
    role = super_admin;
    email = none;
    avatar = none;
    provider = cas;
  };
  cas_enabled = true;
  can_manage_danmaku = true;
  can_manage_users = true;
  profile_editable = false;
}

abbrev edited : Edited
edited = record { of_user = some boss; detail = none }

abbrev some_edits : List Edit
some_edits = name_typed (codes "x") ∷ role_selected (codes "user") ∷ password_typed [] ∷ []

edited-current : current edited ≡ some boss
unfolding current
edited-current = refl

edited-locked : role_locked session edited ≡ true
unfolding role_locked same_number
edited-locked = refl

edited-immutable : profile_mutable edited ≡ false
unfolding profile_mutable
edited-immutable = refl

-- Nobody removes the own account.
remove_disabled_test : remove_disabled session boss ≡ true
unfolding remove_disabled
remove_disabled_test = refl

save_body-own_role_example :
    property
      (codes "role")
      (save_body edited (edits session edited some_edits (opened_form edited)))
    ≡ string (role_value administrator)
save_body-own_role_example =
    save_body-own_role session edited boss some_edits edited-current edited-locked

abbrev new_user : Edited
new_user = record { of_user = none; detail = none }

save_body-password_example :
    property
      (codes "password")
      (save_body new_user (edits session new_user some_edits (opened_form new_user)))
    ≡ undefined
save_body-password_example = save_body-password session new_user some_edits (tt, (tt, (refl, tt)))
