-- ===== src/Theme/Tests.antt =====
-- A theme that is set, and the theorem at it.
use danmaku.Prelude.{◌≡◌, refl, true, false, some, List, [], ◌∷◌}
use danmaku.Js.Text.{codes}
use danmaku.Theme.{
  ThemeEvent, dark, theme_set, media_changed, opened_theme, theme_events, has_dark_class,
}
use danmaku.Theme.Stored.{opened_theme-stored}

abbrev events : List ThemeEvent
events = media_changed true ∷ theme_set dark ∷ media_changed false ∷ []

dark_test : has_dark_class (theme_events events (opened_theme (some (codes "blue")) false)) ≡ true
unfolding has_dark_class theme_events opened_theme
dark_test = refl

opened_theme-stored_example :
    (opened_theme
      (theme_events events (opened_theme (some (codes "blue")) false)).stored
      true).theme
    ≡ (theme_events events (opened_theme (some (codes "blue")) false)).theme
opened_theme-stored_example = opened_theme-stored events (some (codes "blue")) false true
