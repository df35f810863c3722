-- ===== src/Users/ListRequest.antt =====
-- What the list of users asks the server for.
use danmaku.Prelude.{ℕ, ◌≡◌, refl, ◌∙◌, [], ◌∷◌, ◌++◌}
use danmaku.Js.Text.{Text, codes, text_eq, text_eq-apart}
use danmaku.Js.Number.{integer}
use danmaku.Js.Print.{number_text}
use danmaku.Api.Client.{Params, query_params, query_text}
use danmaku.Api.Client.QueryString.{IsObject, sent, query_params-sent}
use danmaku.Api.Types.Users.{administrator, danmaku_manager, user}
use danmaku.Users.{UsersPage, RoleFilter, all_roles, only, users_query, role_value}

users_query-IsObject : (p : UsersPage) → IsObject (users_query p)
unfolding users_query text_eq
users_query-IsObject p = (
  (text_eq-apart _ _ refl, (text_eq-apart _ _ refl, (text_eq-apart _ _ refl, tt))),
  (
    (text_eq-apart _ _ refl, (text_eq-apart _ _ refl, tt)),
    ((text_eq-apart _ _ refl, tt), (tt, tt)),
  ),
)

-- The parameter of a text, left out if the text is empty.
abbrev pub if_any : Text → Text → Params
if_any key [] = []
if_any key (c ∷ s) = (key, c ∷ s) ∷ []

abbrev pub role_params : RoleFilter → Params
role_params all_roles = []
role_params (only r) = (codes "role", role_value r) ∷ []

sent-users :
    (page : ℕ) (search q : Text) (role : RoleFilter)
    → sent (users_query (record { page = page; search = search; query = q; role = role }))
      ≡ (codes "page", number_text (integer page))
        ∷ (codes "size", codes "20")
        ∷ (if_any (codes "q") q ++ role_params role)
unfolding users_query query_text role_value number_text
sent-users page search [] all_roles = refl
sent-users page search (c ∷ s) all_roles = refl
sent-users page search [] (only administrator) = refl
sent-users page search (c ∷ s) (only administrator) = refl
sent-users page search [] (only danmaku_manager) = refl
sent-users page search (c ∷ s) (only danmaku_manager) = refl
sent-users page search [] (only user) = refl
sent-users page search (c ∷ s) (only user) = refl

-- The list asks for its page of 20, with the search and the role only if there are such: no role
-- is sent for all roles.
pub query_params-users_query :
    (p : UsersPage)
    → query_params (users_query p)
      ≡ (codes "page", number_text (integer p.page))
        ∷ (codes "size", codes "20")
        ∷ (if_any (codes "q") p.query ++ role_params p.role)
query_params-users_query p =
    query_params-sent (users_query p) (users_query-IsObject p)
    ∙ sent-users p.page p.search p.query p.role
