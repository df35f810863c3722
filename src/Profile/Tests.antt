-- ===== src/Profile/Tests.antt =====
-- A change of a password, and the theorem at it.
use danmaku.Prelude.{ℕ, ◌+◌, ◌≡◌, ◌⊎◌, refl}
use danmaku.Js.Text.{Text, codes}
use danmaku.Js.Number.{integer}
use danmaku.Js.Outcome.{Async, thrown, other}
use danmaku.Api.Client.{Request, Response, receive}
use danmaku.Profile.{PasswordForm, refused, answered, submit_password}
use danmaku.Profile.Passwords.{IsChange, IsNoChange, change_request, submit_password-IsChange}

-- A server that cannot be reached, and the number of attempts.
abbrev offline : Request → Async ℕ Response
offline r attempts = (thrown other, attempts + 1)

abbrev same : Text → Text
same s = s

abbrev form : PasswordForm
form = record { old_password = codes "a"; new_password = codes "b"; confirmation = codes "b" }

submit_test : (submit_password offline same (integer 3) form 0).1 ≡ 1
unfolding submit_password
submit_test = refl

submit_password-IsChange_example :
    (IsChange form
      × (let (o, w') = offline (change_request offline same (integer 3) form) 0 in
          submit_password offline same (integer 3) form 0 ≡ (answered (receive o), w')))
    ⊎ ((message : Text) × IsNoChange form message
        × (submit_password offline same (integer 3) form 0 ≡ (refused message, 0)))
submit_password-IsChange_example = submit_password-IsChange offline same (integer 3) form 0
