-- ===== src/Profile/Passwords.antt =====
-- When a change of the password reaches the server.
use danmaku.Prelude.{Bool-cases, ◌≡◌, ◌≢◌, ◌⊎◌, inl, inr, refl}
use danmaku.Js.Text.{Text, codes, text_eq, text_eq_iff, text_eq-apart}
use danmaku.Js.Number.{Number}
use danmaku.Js.Outcome.{Async}
use danmaku.Js.Value.{string, number, object, field, end}
use danmaku.Api.Client.{Request, Response, api_post, api_request, request_of, receive}
use danmaku.Api.Client.Answers.{posted}
use danmaku.Profile.{PasswordForm, refused, answered, change_password, submit_password}

-- The new password is typed twice, and is not the old one.
abbrev pub IsChange : PasswordForm → Type 0
IsChange form = (form.new_password ≡ form.confirmation) × (form.new_password ≢ form.old_password)

-- Why there is none, for the messages of the two cases.
abbrev pub IsNoChange : PasswordForm → Text → Type 0
IsNoChange form message =
    ((form.new_password ≢ form.confirmation) × (message ≡ codes "两次输入的新密码不一致"))
    ⊎ ((form.new_password ≡ form.confirmation)
        × (form.new_password ≡ form.old_password)
        × (message ≡ codes "新密码不能与当前密码相同"))

module _ {W : Type 0} (fetch : Request → Async W Response) (md5 : Text → Text) where
  -- The request of a change, with the hashes of the two passwords.
  abbrev pub change_request : Number → PasswordForm → Request
  change_request uid form = posted (codes "/api/admin/user/changepassword") (
      object (
        field (codes "uid") (number uid) (
          field (codes "oldP") (string (md5 form.old_password))
            (field (codes "newP") (string (md5 form.new_password)) end))))

  -- A submission sends the one request for the change, with the hashes of the old and the new password,
  -- and ends in its answer, if the new password is typed twice and is not the old one. Else nothing
  -- is sent, and the message says which of the two it is.
  pub submit_password-IsChange :
      (uid : Number) (form : PasswordForm) (w : W)
      → (IsChange form
          × (let (o, w') = fetch (change_request uid form) w in
              submit_password fetch md5 uid form w ≡ (answered (receive o), w')))
        ⊎ ((message : Text) × IsNoChange form message
            × (submit_password fetch md5 uid form w ≡ (refused message, w)))
  unfolding submit_password change_password api_post api_request request_of
  submit_password-IsChange uid form w =
      elim (Bool-cases (text_eq form.new_password form.confirmation)) [
        | inl twice ↦ elim (Bool-cases (text_eq form.new_password form.old_password)) [
          | inl old ↦ inr (
            codes "新密码不能与当前密码相同",
            inr (
              (text_eq_iff form.new_password form.confirmation).0 twice,
              (text_eq_iff form.new_password form.old_password).0 old,
              refl,
            ),
            rw (twice, old) refl,
          )
          | inr new ↦ inl (
            (
              (text_eq_iff form.new_password form.confirmation).0 twice,
              text_eq-apart form.new_password form.old_password new,
            ),
            rw (twice, new) refl,
          )
        ]
        | inr apart ↦ inr (
          codes "两次输入的新密码不一致",
          inl (text_eq-apart form.new_password form.confirmation apart, refl),
          rw apart refl,
        )
      ]
