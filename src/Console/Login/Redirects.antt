-- ===== src/Console/Login/Redirects.antt =====
-- Where a login leads.
use danmaku.Prelude.{
  ℕ, true, false, Bool-cases, ◌&&◌, not, ◌≡◌, ◌≢◌, ◌⊎◌, inl, inr, refl, sym, ◌∙◌, if◌then◌else◌,
  Option, none, some, [], ◌∷◌, arith, ◌==◌,
}
use mathlib.Core.Path.{subst}
use danmaku.Js.Text.{Text, codes}
use danmaku.Js.Value.{Value, string, object, field, end}
use danmaku.Js.Outcome.{Thrown, Outcome, returned, thrown, Async}
use danmaku.Api.Client.{
  Request, Response, api_post, api_request, request_of, receive, error_message,
}
use danmaku.Api.Client.Answers.{error_message-ne-nil, posted}
use danmaku.Console.Login.{safe_redirect, LoginForm, login_answered, login_body, login_submit}

-- A path on this server, by the two first units: a slash, and no second slash.
abbrev pub IsLocalPath : Text → Type 0
IsLocalPath [] = ⊥
IsLocalPath (c ∷ []) = c ≡ b'/'
IsLocalPath (c ∷ d ∷ s) = (c ≡ b'/') × (d ≢ b'/')

-- What the check comes to on an address of two units or more.
safe_redirect-cons :
    (c d : ℕ) (s : Text)
    → safe_redirect (some (c ∷ d ∷ s))
      ≡ (if (47 == c) && not ((47 == c) && (47 == d)) then c ∷ d ∷ s else b'/' ∷ [])
unfolding safe_redirect
safe_redirect-cons c d s = ground arith

safe_redirect-one :
    (c : ℕ) → safe_redirect (some (c ∷ [])) ≡ (if 47 == c then c ∷ [] else b'/' ∷ [])
unfolding safe_redirect
safe_redirect-one c = ground arith

-- The redirect begins with exactly one slash, whatever the parameter is.
pub safe_redirect-IsLocalPath : (value : Option Text) → IsLocalPath (safe_redirect value)
unfolding safe_redirect
safe_redirect-IsLocalPath none = refl
safe_redirect-IsLocalPath (some []) = refl
safe_redirect-IsLocalPath (some (c ∷ [])) = elim (Bool-cases (47 == c)) [
  | inl e ↦
      let same : safe_redirect (some (c ∷ [])) ≡ c ∷ [] = safe_redirect-one c ∙ rw e refl in
      subst IsLocalPath (sym same) (ground arith)
  | inr e ↦
      let same : safe_redirect (some (c ∷ [])) ≡ b'/' ∷ [] = safe_redirect-one c ∙ rw e refl in
      subst IsLocalPath (sym same) refl
]
safe_redirect-IsLocalPath (some (c ∷ d ∷ s)) =
    elim (Bool-cases ((47 == c) && not ((47 == c) && (47 == d)))) [
      | inl e ↦
          let same : safe_redirect (some (c ∷ d ∷ s)) ≡ c ∷ d ∷ s =
            safe_redirect-cons c d s ∙ rw e refl in
          subst IsLocalPath (sym same) (ground arith, ground arith)
      | inr e ↦
          let same : safe_redirect (some (c ∷ d ∷ s)) ≡ b'/' ∷ [] =
            safe_redirect-cons c d s ∙ rw e refl in
          subst IsLocalPath (sym same) refl
    ]

-- A path with one slash at its beginning is the redirect as it stands.
pub safe_redirect-local : (path : Text) → IsLocalPath path → safe_redirect (some path) ≡ path
safe_redirect-local [] h = elim h [ ]
safe_redirect-local (c ∷ []) h =
    let e : (47 == c) ≡ true = ground arith in safe_redirect-one c ∙ rw e refl
safe_redirect-local (c ∷ d ∷ s) (h, k) =
    let e : (47 == c) ≡ true = ground arith in
    let e' : (47 == d) ≡ false = ground arith in safe_redirect-cons c d s ∙ rw (e, e') refl

-- How a login that was answered with `o` may end: the page leaves for the redirect with no error on
-- the form if the server accepted it, or it stays, with the message of the failure and a form that
-- can be submitted again, if not; what was typed stays in the form.
pub record IsAnswered (form : LoginForm) (redirect : Text) (o : Outcome Value)
    (out : LoginForm × Option Text) : Type 0 where
  pub name : out.0.name ≡ form.name
  pub password : out.0.password ≡ form.password
  pub ends :
      ((v : Value) × (o ≡ returned v)
        × (out.1 ≡ some redirect)
        × (out.0.error ≡ [])
        × (out.0.pending ≡ true))
      ⊎ ((e : Thrown) × (o ≡ thrown e)
          × (out.1 ≡ none)
          × (out.0.error ≡ error_message e)
          × (out.0.error ≢ [])
          × (out.0.pending ≡ false))

module _ {W : Type 0} (fetch : Request → Async W Response) (md5 : Text → Text) where
  login_answered-IsAnswered :
      (form : LoginForm) (redirect : Text) (o : Outcome Value)
      → IsAnswered form redirect o
          (login_answered fetch md5 (record form { pending = true; error = [] }) redirect o)
  unfolding login_answered
  login_answered-IsAnswered form redirect (returned v) = record {
    name = refl;
    password = refl;
    ends = inl (v, refl, refl, refl, refl);
  }
  login_answered-IsAnswered form redirect (thrown e) = record {
    name = refl;
    password = refl;
    ends = inr (e, refl, refl, refl, error_message-ne-nil e, refl);
  }

  -- The request of a login, with the hash of the password.
  abbrev pub login_request : LoginForm → Text → Request
  login_request form redirect = posted (codes "/api/admin/login") (
      object (
        field (codes "name") (string form.name) (
          field (codes "password") (string (md5 form.password))
            (field (codes "url") (string redirect) end))))

  -- A submitted login sends one request, with the hash of the password. If the server's answer
  -- is good, the page leaves for the redirect with no error on the form; else it stays, with the
  -- message of the failure, which is not empty, and a form that can be submitted again. What was typed
  -- stays in the form.
  pub login_submit-IsAnswered :
      (form : LoginForm) (redirect : Text) (w : W)
      → (let (form', target, w') = login_submit fetch md5 form redirect w in
          let (o, after) = fetch (login_request form redirect) w in
          IsAnswered form redirect (receive o) (form', target) × (w' ≡ after))
  unfolding login_submit login_body api_post api_request request_of
  login_submit-IsAnswered form redirect w = (login_answered-IsAnswered form redirect _, refl)
