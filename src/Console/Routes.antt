-- ===== src/Console/Routes.antt =====
-- The routes of frontend/src/App.tsx. What the router does with a path is its library's; here a
-- location is one of the paths that the table names, or any other.
pub mod Access
use danmaku.Prelude.{ℕ, zero, suc, Bool, Option, none, some, if◌then◌else◌}
use danmaku.Api.Types.Session.{Session}

pub data Page : Type 0 where
  login_page videos_page danmaku_page bilibili_page iqiyi_page animeko_page bahamut_page : Page
  tencent_page youku_page dandanplay_page external_page users_page profile_page : Page

pub data Location : Type 0 where
  home unknown : Location
  at : Page → Location

-- What the element of a route renders, for a session.
pub data Element : Type 0 where
  shows : Page → Element
  navigates : Location → Element

-- HomeRedirect
unfoldable pub home_redirect : Session → Element
home_redirect s = navigates (at (if s.can_manage_danmaku then danmaku_page else profile_page))

-- DanmakuManagerRoute
unfoldable pub danmaku_manager_route : Session → Page → Element
danmaku_manager_route s page =
    if s.can_manage_danmaku then shows page else navigates (at profile_page)

-- UserManagerRoute
unfoldable pub user_manager_route : Session → Page → Element
user_manager_route s page = if s.can_manage_users then shows page else navigates (at danmaku_page)

-- The table of `Routes`.
unfoldable pub element_at : Session → Location → Element
unfolding home_redirect danmaku_manager_route user_manager_route
element_at s home = home_redirect s
element_at s unknown = navigates home
element_at s (at login_page) = shows login_page
element_at s (at users_page) = user_manager_route s users_page
element_at s (at profile_page) = shows profile_page
element_at s (at page) = danmaku_manager_route s page

-- The page that a visit ends at, with at most as many redirects as there is fuel.
unfoldable pub visit : ℕ → Session → Location → Option Page
unfolding element_at
visit zero s location = none
visit (suc fuel) s location = elim (element_at s location) [
  | shows page ↦ some page
  | navigates next ↦ visit fuel s next
]
