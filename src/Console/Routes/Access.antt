-- ===== src/Console/Routes/Access.antt =====
-- Redirects end, at a page that the session may see.
use danmaku.Prelude.{ℕ, zero, suc, true, ◌≡◌, refl, ◌⊎◌, ap, ◌∙◌, some, arith, if◌then◌else◌}
use mathlib.Core.Path.{subst}
use danmaku.Api.Types.Session.{SessionData, super_admin, general_user, AuthOptions, Session}
use danmaku.Console.Auth.{make_session}
use danmaku.Console.Routes.{
  Page, login_page, danmaku_page, users_page, profile_page, Location, home, unknown, at, Element,
  shows, navigates, element_at, visit, danmaku_manager_route, user_manager_route,
}

-- Who may see a page: the management of danmaku and that of users are for those who have them.
abbrev pub Permitted : Session → Page → Type 0
Permitted s login_page = Unit
Permitted s profile_page = Unit
Permitted s users_page = s.can_manage_users ≡ true
Permitted s page = s.can_manage_danmaku ≡ true

danmaku_manager_route-shows :
    (s : Session) (p page : Page)
    → danmaku_manager_route s p ≡ shows page
    → (p ≡ page) × (s.can_manage_danmaku ≡ true)
unfolding danmaku_manager_route
danmaku_manager_route-shows s p page h = ground arith

user_manager_route-shows :
    (s : Session) (p page : Page)
    → user_manager_route s p ≡ shows page
    → (p ≡ page) × (s.can_manage_users ≡ true)
unfolding user_manager_route
user_manager_route-shows s p page h = ground arith

element_at-Permitted :
    (s : Session) (l : Location) (page : Page) → element_at s l ≡ shows page → Permitted s page
unfolding element_at
element_at-Permitted s home page h = cc
element_at-Permitted s unknown page h = cc
element_at-Permitted s (at login_page) page h =
    let e : login_page ≡ page = cc in subst (Permitted s) e tt
element_at-Permitted s (at profile_page) page h =
    let e : profile_page ≡ page = cc in subst (Permitted s) e tt
element_at-Permitted s (at users_page) page h =
    let (e, may) = user_manager_route-shows s users_page page h in subst (Permitted s) e may
element_at-Permitted s (at p) page h =
    let (e, may) = danmaku_manager_route-shows s _ page h in subst (Permitted s) e may

-- Wherever a visit starts and however many redirects it takes, the page that it ends at is one that
-- the session may see.
pub visit-Permitted :
    (fuel : ℕ) (s : Session) (l : Location) (page : Page)
    → visit fuel s l ≡ some page
    → Permitted s page
unfolding visit
visit-Permitted zero s l page h = cc
visit-Permitted (suc fuel) s l page h = go (element_at s l) refl (visit-Permitted fuel s) h
  where
    go :
        (e : Element)
        → element_at s l ≡ e
        → ((next : Location) (p : Page) → visit fuel s next ≡ some p → Permitted s p)
        → elim e [ shows p ↦ some p | navigates next ↦ visit fuel s next ] ≡ some page
        → Permitted s page
    go (shows p) eq ih h' = element_at-Permitted s l page (eq ∙ ap shows (cc))
    go (navigates next) eq ih h' = ih next page h'

-- Where a visit should end: at the page itself for those who may see it, else at the first of the
-- danmaku list and the profile that the session may see.
abbrev start_page : Session → Page
start_page s = if s.can_manage_danmaku then danmaku_page else profile_page

abbrev pub landing : Session → Location → Page
landing s home = start_page s
landing s unknown = start_page s
landing s (at login_page) = login_page
landing s (at profile_page) = profile_page
landing s (at users_page) = if s.can_manage_users then users_page else start_page s
landing s (at page) = if s.can_manage_danmaku then page else profile_page

-- No visit redirects for ever: with fuel for three elements or more, every visit ends, at the page
-- where it should.
pub visit-landing :
    (fuel : ℕ) (s : Session) (l : Location) → visit (suc (suc (suc fuel))) s l ≡ some (landing s l)
unfolding visit
visit-landing fuel s home = ground arith
visit-landing fuel s unknown = ground arith
visit-landing fuel s (at login_page) = refl
visit-landing fuel s (at profile_page) = refl
visit-landing fuel s (at p) = ground arith

Permitted-role :
    (current : SessionData) (options : AuthOptions) (page : Page)
    → Permitted (make_session current options) page
    → (page ≡ users_page → current.role ≡ super_admin)
      × (current.role ≡ general_user → (page ≡ login_page) ⊎ (page ≡ profile_page))
unfolding make_session
Permitted-role current options login_page h = ground arith
Permitted-role current options p h = ground arith

-- The roles of the server keep users out of the pages that are not theirs: only a super
-- administrator comes to the user list, and a general user to the login page and the own profile
-- alone, from any location.
pub visit-role :
    (fuel : ℕ) (current : SessionData) (options : AuthOptions) (l : Location) (page : Page)
    → visit fuel (make_session current options) l ≡ some page
    → (page ≡ users_page → current.role ≡ super_admin)
      × (current.role ≡ general_user → (page ≡ login_page) ⊎ (page ≡ profile_page))
visit-role fuel current options l page h =
    Permitted-role current options page (visit-Permitted fuel _ l page h)
