-- ===== src/Console/Shell/Links.antt =====
-- The links of the shell are those that lead to their page.
use danmaku.Prelude.{
  ℕ, suc, ◌≡◌, ◌≢◌, ◌↔◌, not, refl, sym, ap, ◌∙◌, Bool, true, false, ◌&&◌, some, List, [], ◌∷◌,
  and-left, and-right, arith,
}
use mathlib.Core.Path.{subst}
use mathlib.Core.List.{Memᴰ}
use danmaku.Js.Text.{after_prefix, text_eq, text_eq_iff}
use danmaku.Api.Types.Session.{Session}
use danmaku.Console.Routes.{
  Page, login_page, videos_page, danmaku_page, bilibili_page, iqiyi_page, animeko_page,
  bahamut_page, tencent_page, youku_page, dandanplay_page, external_page, users_page, profile_page,
  at, visit,
}
use danmaku.Console.Routes.Access.{Permitted, visit-Permitted, visit-landing, landing}
use danmaku.Console.Shell.{NavItem, nav_items, links, path_of, title_of}

all_of : {A : Type 0} → (A → Bool) → List A → Bool
all_of test [] = true
all_of test (x ∷ xs) = test x && all_of test xs

all_of-mem :
    {A : Type 0} (test : A → Bool) (xs : List A) (x : A)
    → Memᴰ x xs
    → all_of test xs ≡ true
    → test x ≡ true
unfolding all_of
all_of-mem test [] x m h = elim m [ ]
all_of-mem test (y ∷ ys) x (Memᴰ.head e) h = ap test e ∙ and-left (test y) (all_of test ys) h
all_of-mem test (y ∷ ys) x (Memᴰ.tail m) h =
    all_of-mem test ys x m (and-right (test y) (all_of test ys) h)

-- Who may see a page, as a test.
allowed : (danmaku users : Bool) → Page → Bool
allowed danmaku users login_page = false
allowed danmaku users profile_page = true
allowed danmaku users users_page = users
allowed danmaku users page = danmaku

nav_items-allowed :
    (danmaku users : Bool)
    → all_of
        (λ i. allowed danmaku users i.page && text_eq (title_of (path_of i.page)) i.label)
        (nav_items danmaku users)
      ≡ true
unfolding all_of allowed nav_items title_of path_of after_prefix text_eq
nav_items-allowed true true = refl
nav_items-allowed true false = refl
nav_items-allowed false true = refl
nav_items-allowed false false = refl

allowed-landing :
    (s : Session) (page : Page)
    → allowed s.can_manage_danmaku s.can_manage_users page ≡ true
    → landing s (at page) ≡ page
unfolding allowed
allowed-landing s login_page h = cc
allowed-landing s profile_page h = refl
allowed-landing s users_page h = ground arith
allowed-landing s p h = ground arith

-- A link to the page is there.
abbrev pub IsLinked : Page → List NavItem → Type 0
IsLinked page items = (i : NavItem) × Memᴰ i items × (i.page ≡ page)

manager-IsLinked :
    (users : Bool) (page : Page)
    → (allowed true false page && not (allowed false true page)) ≡ true
    → IsLinked page (nav_items true users)
unfolding allowed nav_items
manager-IsLinked users videos_page h = (_, Memᴰ.head refl, refl)
manager-IsLinked users danmaku_page h = (_, Memᴰ.tail (Memᴰ.head refl), refl)
manager-IsLinked users bilibili_page h = (_, Memᴰ.tail (Memᴰ.tail (Memᴰ.head refl)), refl)
manager-IsLinked users iqiyi_page h = (_, Memᴰ.tail (Memᴰ.tail (Memᴰ.tail (Memᴰ.head refl))), refl)
manager-IsLinked users dandanplay_page h =
    (_, Memᴰ.tail (Memᴰ.tail (Memᴰ.tail (Memᴰ.tail (Memᴰ.head refl)))), refl)
manager-IsLinked users animeko_page h =
    (_, Memᴰ.tail (Memᴰ.tail (Memᴰ.tail (Memᴰ.tail (Memᴰ.tail (Memᴰ.head refl))))), refl)
manager-IsLinked users bahamut_page h = (
  _,
  Memᴰ.tail (Memᴰ.tail (Memᴰ.tail (Memᴰ.tail (Memᴰ.tail (Memᴰ.tail (Memᴰ.head refl)))))),
  refl,
)
manager-IsLinked users tencent_page h = (
  _,
  Memᴰ.tail
      (Memᴰ.tail (Memᴰ.tail (Memᴰ.tail (Memᴰ.tail (Memᴰ.tail (Memᴰ.tail (Memᴰ.head refl))))))),
  refl,
)
manager-IsLinked users youku_page h = (
  _,
  Memᴰ.tail (
      Memᴰ.tail
        (Memᴰ.tail (Memᴰ.tail (Memᴰ.tail (Memᴰ.tail (Memᴰ.tail (Memᴰ.tail (Memᴰ.head refl)))))))),
  refl,
)
manager-IsLinked users external_page h = (
  _,
  Memᴰ.tail (
      Memᴰ.tail (
        Memᴰ.tail (
          Memᴰ.tail (Memᴰ.tail (Memᴰ.tail (Memᴰ.tail (Memᴰ.tail (Memᴰ.tail (Memᴰ.head refl))))))))),
  refl,
)
manager-IsLinked users login_page h = cc
manager-IsLinked users users_page h = cc
manager-IsLinked users profile_page h = cc

users-IsLinked : (danmaku : Bool) → IsLinked users_page (nav_items danmaku true)
unfolding nav_items
users-IsLinked true = (
  _,
  Memᴰ.tail (
      Memᴰ.tail (
        Memᴰ.tail (
          Memᴰ.tail (
            Memᴰ.tail
              (Memᴰ.tail (Memᴰ.tail (Memᴰ.tail (Memᴰ.tail (Memᴰ.tail (Memᴰ.head refl)))))))))),
  refl,
)
users-IsLinked false = (_, Memᴰ.head refl, refl)

profile-IsLinked : (danmaku users : Bool) → IsLinked profile_page (nav_items danmaku users)
unfolding nav_items
profile-IsLinked true true = (
  _,
  Memᴰ.tail (
      Memᴰ.tail (
        Memᴰ.tail (
          Memᴰ.tail (
            Memᴰ.tail (
              Memᴰ.tail
                (Memᴰ.tail (Memᴰ.tail (Memᴰ.tail (Memᴰ.tail (Memᴰ.tail (Memᴰ.head refl))))))))))),
  refl,
)
profile-IsLinked true false = (
  _,
  Memᴰ.tail (
      Memᴰ.tail (
        Memᴰ.tail (
          Memᴰ.tail (
            Memᴰ.tail
              (Memᴰ.tail (Memᴰ.tail (Memᴰ.tail (Memᴰ.tail (Memᴰ.tail (Memᴰ.head refl)))))))))),
  refl,
)
profile-IsLinked false true = (_, Memᴰ.tail (Memᴰ.head refl), refl)
profile-IsLinked false false = (_, Memᴰ.head refl, refl)

allowed-IsLinked :
    (danmaku users : Bool) (page : Page)
    → allowed danmaku users page ≡ true
    → IsLinked page (nav_items danmaku users)
unfolding allowed
allowed-IsLinked danmaku users login_page h = cc
allowed-IsLinked danmaku users profile_page h = profile-IsLinked danmaku users
allowed-IsLinked danmaku users users_page h =
    subst (λ u. IsLinked users_page (nav_items danmaku u)) (sym h) (users-IsLinked danmaku)
allowed-IsLinked danmaku users page h =
    subst (λ d. IsLinked page (nav_items d users)) (sym h) (manager-IsLinked users page refl)

Permitted-allowed :
    (s : Session) (page : Page)
    → Permitted s page
    → page ≢ login_page
    → allowed s.can_manage_danmaku s.can_manage_users page ≡ true
unfolding allowed
Permitted-allowed s login_page h other = absurd (other refl)
Permitted-allowed s profile_page h other = refl
Permitted-allowed s users_page h other = h
Permitted-allowed s page h other = h

-- For every page but the one for logging in: the shell shows a link to it exactly where a visit to
-- the page ends at the page itself, and not at another to which it was redirected; and the link is
-- labelled with the title that the page has then.
pub links_equivalent :
    (fuel : ℕ) (s : Session) (page : Page)
    → page ≢ login_page
    → (IsLinked page (links s) ↔ (visit (suc (suc (suc fuel))) s (at page) ≡ some page))
      × ((i : NavItem) → Memᴰ i (links s) → title_of (path_of i.page) ≡ i.label)
unfolding links
links_equivalent fuel s page other = (
  (
    λ (i, m, same).
        visit-landing fuel s (at page)
        ∙ ap some (
            allowed-landing s page (
              subst (λ p. allowed s.can_manage_danmaku s.can_manage_users p ≡ true) same
                (and-left _ _ (
                  all_of-mem
                    (λ j.
                      allowed s.can_manage_danmaku s.can_manage_users j.page
                      && text_eq (title_of (path_of j.page)) j.label)
                    (nav_items s.can_manage_danmaku s.can_manage_users) i m
                    (nav_items-allowed s.can_manage_danmaku s.can_manage_users))))),
    λ e.
        allowed-IsLinked s.can_manage_danmaku s.can_manage_users page
          (Permitted-allowed s page (visit-Permitted _ s (at page) page e) other),
  ),
  λ i m. (text_eq_iff (title_of (path_of i.page)) i.label).0 (
      and-right _ _ (
        all_of-mem
          (λ j.
            allowed s.can_manage_danmaku s.can_manage_users j.page
            && text_eq (title_of (path_of j.page)) j.label)
          (nav_items s.can_manage_danmaku s.can_manage_users) i m
          (nav_items-allowed s.can_manage_danmaku s.can_manage_users))),
)
