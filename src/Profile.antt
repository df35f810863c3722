-- ===== src/Profile.antt =====
-- frontend/src/pages/profile-page.tsx: the account of the session, and the two dialogs on it.
mod Tests
pub mod Passwords
use danmaku.Prelude.{Bool, true, false, not, Option, none, some, List, [], ◌∷◌, if◌then◌else◌}
use danmaku.Js.Text.{Text, codes, text_eq}
use danmaku.Js.Number.{Number}
use danmaku.Js.Outcome.{Outcome, Async}
use danmaku.Js.Value.{Value, number, string, object, field, end}
use danmaku.Api.Client.{Request, Response, amount, api_get, api_post}
use danmaku.Api.Types.Session.{Session}
use danmaku.Api.Types.Users.{UserProfile}

pub record ProfileForm : Type 0 where
  pub name : Text
  pub email : Text
  pub phone : Text

abbrev or_empty : Option Text → Text
or_empty none = []
or_empty (some s) = s

-- The form once the dialog is open on a profile.
unfoldable pub opened_profile : UserProfile → ProfileForm
opened_profile p = record {
  name = p.name;
  email = or_empty p.email;
  phone = or_empty p.phone_number;
}

unfoldable pub profile_body : UserProfile → ProfileForm → Value
profile_body p form = object (
    field (codes "id") (number p.id) (
      field (codes "name") (string form.name) (
        field (codes "email") (string form.email)
          (field (codes "phoneNumber") (string form.phone) end))))

pub record PasswordForm : Type 0 where
  pub old_password : Text
  pub new_password : Text
  pub confirmation : Text

abbrev pub empty_passwords : PasswordForm
empty_passwords = record { old_password = []; new_password = []; confirmation = [] }

-- `onOpenChange`
unfoldable pub passwords_open_changed : Bool → PasswordForm → PasswordForm
passwords_open_changed true form = form
passwords_open_changed false form = empty_passwords

-- What a submission comes to: a message with no request, or the answer to the request.
pub data Submission : Type 0 where
  refused : Text → Submission
  answered : Outcome Value → Submission

module _ {W : Type 0} (fetch : Request → Async W Response) where
  unfoldable pub get_profile : Session → Async W Value
  unfolding api_get
  get_profile s = api_get fetch (codes "/api/admin/user/user") ((codes "uid", amount s.id) ∷ [])

  unfoldable pub save_profile : UserProfile → ProfileForm → Async W Value
  unfolding profile_body api_post
  save_profile p form = api_post fetch (codes "/api/admin/user/changeinfo") (profile_body p form)

  module _ (md5 : Text → Text) where
    unfoldable pub change_password : Number → PasswordForm → Async W Value
    unfolding api_post
    change_password uid form = api_post fetch (codes "/api/admin/user/changepassword") (
        object (
          field (codes "uid") (number uid) (
            field (codes "oldP") (string (md5 form.old_password))
              (field (codes "newP") (string (md5 form.new_password)) end))))

    -- `submit`
    unfoldable pub submit_password : Number → PasswordForm → W → Submission × W
    unfolding change_password text_eq
    submit_password uid form w =
        if not (text_eq form.new_password form.confirmation)
        then (refused (codes "两次输入的新密码不一致"), w)
        else if text_eq form.new_password form.old_password
        then (refused (codes "新密码不能与当前密码相同"), w)
        else let (o, w') = change_password uid form w in (answered o, w')
