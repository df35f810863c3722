-- ===== src/Users/Editor/Kept.antt =====
-- What the editor of a user cannot change.
use danmaku.Prelude.{
  Bool, true, false, ◌≡◌, refl, ap, ◌∙◌, All, Option, none, some, List, [], ◌∷◌, arith,
  if◌then◌else◌,
}
use danmaku.Js.Text.{Text, codes, text_eq}
use danmaku.Js.Value.{Value, undefined, string, object, field, end, property}
use danmaku.Api.Types.Session.{Session}
use danmaku.Api.Types.Users.{ManagedUser}
use danmaku.Users.{role_value}
use danmaku.Users.Editor.{
  Edited, current, profile_mutable, role_locked, UserForm, opened_form, form_of, Edit,
  password_typed, password_generated, edit, edits, save_body, with_role, password_field,
}

edit-locked :
    (mutable : Bool) (x : Edit) (form : UserForm) → (edit mutable true x form).role ≡ form.role
unfolding edit
edit-locked mutable x form = ground arith

edits-locked :
    (s : Session) (e : Edited) (xs : List Edit) (form : UserForm)
    → role_locked s e ≡ true
    → (edits s e xs form).role ≡ form.role
unfolding edits
edits-locked s e [] form h = refl
edits-locked s e (x ∷ xs) form h =
    edits-locked s e xs _ h ∙ rw h (edit-locked (profile_mutable e) x form)

save_body-role :
    (e : Edited) (form : UserForm)
    → property (codes "role") (save_body e form) ≡ string (role_value form.role)
unfolding save_body property text_eq
save_body-role e form = refl

opened_form-role :
    (e : Edited) (u : ManagedUser) → current e ≡ some u → (opened_form e).role ≡ u.role
unfolding opened_form
opened_form-role e u h = ap (λ c. (form_of c).role) h

-- The role of the session's own user is sent as it was, whatever is done in the dialog.
pub save_body-own_role :
    (s : Session) (e : Edited) (u : ManagedUser) (xs : List Edit)
    → current e ≡ some u
    → role_locked s e ≡ true
    → property (codes "role") (save_body e (edits s e xs (opened_form e)))
      ≡ string (role_value u.role)
save_body-own_role s e u xs h locked =
    save_body-role e _
    ∙ ap (λ r. string (role_value r))
        (edits-locked s e xs (opened_form e) locked ∙ opened_form-role e u h)

-- The edits that leave the password's field empty.
abbrev pub KeepsPassword : Edit → Type 0
KeepsPassword (password_typed s) = s ≡ []
KeepsPassword (password_generated bytes) = ⊥
KeepsPassword x = Unit

edit-password :
    (mutable locked : Bool) (x : Edit) (form : UserForm)
    → KeepsPassword x
    → form.password ≡ []
    → (edit mutable locked x form).password ≡ []
unfolding edit with_role
edit-password mutable locked (password_generated bytes) form h k = absurd h
edit-password mutable locked x form h k = ground arith

edits-password :
    (s : Session) (e : Edited) (xs : List Edit) (form : UserForm)
    → All KeepsPassword xs
    → form.password ≡ []
    → (edits s e xs form).password ≡ []
unfolding edits
edits-password s e [] form h k = k
edits-password s e (x ∷ xs) form (h, hs) k =
    edits-password s e xs _ hs (edit-password (profile_mutable e) (role_locked s e) x form h k)

opened_form-password : (e : Edited) → (opened_form e).password ≡ []
unfolding opened_form
opened_form-password e = go (current e)
  where
    go : (u : Option ManagedUser) → (form_of u).password ≡ []
    go none = refl
    go (some u) = refl

property-password :
    (mutable : Bool) (role name email : Value) (password : Text)
    → password ≡ []
    → property (codes "password") (
        object (
          field (codes "role") role (
            if mutable
            then field (codes "name") name (field (codes "email") email (password_field password))
            else end)))
      ≡ undefined
unfolding property text_eq
property-password false role name email password h = refl
property-password true role name email [] h = refl
property-password true role name email (c ∷ s) h = absurd (cc)

-- A password that is neither typed nor generated is not sent: the user keeps the old one.
pub save_body-password :
    (s : Session) (e : Edited) (xs : List Edit)
    → All KeepsPassword xs
    → property (codes "password") (save_body e (edits s e xs (opened_form e))) ≡ undefined
unfolding save_body
save_body-password s e xs h =
    property-password (profile_mutable e) _ _ _ _
      (edits-password s e xs (opened_form e) h (opened_form-password e))
