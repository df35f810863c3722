-- ===== src/Console/Shell.antt =====
-- frontend/src/components/app-shell.tsx: the links of the sidebar and its menu, the title of the page
-- and the way out.
pub mod Links
use danmaku.Prelude.{Bool, true, false, Option, none, some, List, [], ◌∷◌, ◌++◌, if◌then◌else◌}
use danmaku.Js.Text.{Text, codes, after_prefix}
use danmaku.Api.Types.Session.{Session, Provider, local, cas}
use danmaku.Console.Routes.{
  Page, login_page, videos_page, danmaku_page, bilibili_page, iqiyi_page, animeko_page,
  bahamut_page, tencent_page, youku_page, dandanplay_page, external_page, users_page, profile_page,
}

-- The path of a page in the route table.
unfoldable pub path_of : Page → Text
path_of login_page = codes "/login"
path_of videos_page = codes "/videos"
path_of danmaku_page = codes "/danmaku"
path_of bilibili_page = codes "/bilibili"
path_of iqiyi_page = codes "/iqiyi"
path_of animeko_page = codes "/animeko"
path_of bahamut_page = codes "/bahamut"
path_of tencent_page = codes "/tencent"
path_of youku_page = codes "/youku"
path_of dandanplay_page = codes "/dandanplay"
path_of external_page = codes "/external"
path_of users_page = codes "/users"
path_of profile_page = codes "/profile"

-- The patterns, each the beginning of a path, with their titles.
abbrev pub titles : List (Text × Text)
titles =
    (codes "/videos", codes "视频管理")
    ∷ (codes "/danmaku", codes "弹幕管理")
    ∷ (codes "/bilibili", codes "bilibili")
    ∷ (codes "/iqiyi", codes "爱奇艺")
    ∷ (codes "/animeko", codes "Animeko")
    ∷ (codes "/bahamut", codes "巴哈姆特")
    ∷ (codes "/tencent", codes "腾讯视频")
    ∷ (codes "/youku", codes "优酷")
    ∷ (codes "/dandanplay", codes "弹弹play")
    ∷ (codes "/external", codes "外部导入")
    ∷ (codes "/users", codes "用户管理")
    ∷ (codes "/profile", codes "个人资料")
    ∷ []

abbrev pub starts : Text → Text → Bool
starts prefix path = elim (after_prefix prefix path) [ none ↦ false | some _ ↦ true ]

unfoldable pub title_in : List (Text × Text) → Text → Text
unfolding after_prefix
title_in [] path = codes "弹幕控制台"
title_in ((prefix, title) ∷ rest) path =
    let later = title_in rest path in if starts prefix path then title else later

unfoldable pub title_of : Text → Text
unfolding title_in
title_of path = title_in titles path

unfoldable pub logout_path : Session → Text
logout_path s = elim s.provider [ cas ↦ codes "/cas/logout" | local ↦ codes "/api/admin/logout" ]

pub record NavItem : Type 0 where
  pub page : Page
  pub label : Text

abbrev item : Page → Text → NavItem
item page label = record { page = page; label = label }

-- The groups of the sidebar.
abbrev pub video_items : List NavItem
video_items = item videos_page (codes "视频管理") ∷ item danmaku_page (codes "弹幕管理") ∷ []

abbrev pub source_items : List NavItem
source_items =
    item bilibili_page (codes "bilibili")
    ∷ item iqiyi_page (codes "爱奇艺")
    ∷ item dandanplay_page (codes "弹弹play")
    ∷ item animeko_page (codes "Animeko")
    ∷ item bahamut_page (codes "巴哈姆特")
    ∷ item tencent_page (codes "腾讯视频")
    ∷ item youku_page (codes "优酷")
    ∷ item external_page (codes "外部导入")
    ∷ []

abbrev pub platform_items : List NavItem
platform_items = item users_page (codes "用户管理") ∷ []

-- The link of the user's menu.
abbrev pub menu_items : List NavItem
menu_items = item profile_page (codes "个人资料") ∷ []

abbrev pub shown_if : Bool → List NavItem → List NavItem
shown_if may items = if may then items else []

unfoldable pub nav_items : (can_manage_danmaku can_manage_users : Bool) → List NavItem
nav_items danmaku users =
    shown_if danmaku video_items
    ++ (shown_if danmaku source_items ++ (shown_if users platform_items ++ menu_items))

-- All links that the shell shows to a session.
unfoldable pub links : Session → List NavItem
unfolding nav_items
links s = nav_items s.can_manage_danmaku s.can_manage_users

-- isActive
unfoldable pub is_active : NavItem → Text → Bool
unfolding after_prefix path_of
is_active i path = starts (path_of i.page) path
