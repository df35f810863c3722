-- ===== src/Theme.antt =====
-- frontend/src/components/theme-provider.tsx: the chosen theme, which the browser stores, and the
-- one that is shown.
mod Tests
pub mod Stored
use danmaku.Prelude.{Bool, true, false, Option, none, some, List, [], ◌∷◌, if◌then◌else◌}
use danmaku.Js.Text.{Text, codes, text_eq}
use danmaku.Js.Outcome.{Outcome, returned, thrown, error}

-- "light" | "dark" | "system"
pub data Theme : Type 0 where
  light dark system : Theme

-- "light" | "dark"
pub data Shade : Type 0 where
  light_shade dark_shade : Shade

unfoldable pub theme_text : Theme → Text
theme_text light = codes "light"
theme_text dark = codes "dark"
theme_text system = codes "system"

-- What localStorage has under "danmaku-theme", if anything.
unfoldable pub saved_theme : Option Text → Theme
unfolding text_eq
saved_theme none = system
saved_theme (some saved) =
    if text_eq saved (codes "light")
    then light
    else if text_eq saved (codes "dark")
    then dark
    else system

-- systemTheme, from the browser's media query.
unfoldable pub system_theme : Bool → Shade
system_theme true = dark_shade
system_theme false = light_shade

pub record ThemeState : Type 0 where
  pub theme : Theme
  pub system_shade : Shade
  pub stored : Option Text

unfoldable pub opened_theme : Option Text → Bool → ThemeState
unfolding saved_theme system_theme
opened_theme stored matches = record {
  theme = saved_theme stored;
  system_shade = system_theme matches;
  stored = stored;
}

unfoldable pub resolved_theme : ThemeState → Shade
resolved_theme p = elim p.theme [
  | light ↦ light_shade
  | dark ↦ dark_shade
  | system ↦ p.system_shade
]

-- The class and the colour scheme of the document, once the effect has run.
unfoldable pub has_dark_class : ThemeState → Bool
unfolding resolved_theme
has_dark_class p = elim (resolved_theme p) [ dark_shade ↦ true | light_shade ↦ false ]

unfoldable pub color_scheme : ThemeState → Text
unfolding resolved_theme
color_scheme p = elim (resolved_theme p) [ dark_shade ↦ codes "dark" | light_shade ↦ codes "light" ]

-- setTheme, and a change of the media query.
pub data ThemeEvent : Type 0 where
  theme_set : Theme → ThemeEvent
  media_changed : Bool → ThemeEvent

unfoldable pub theme_event : ThemeEvent → ThemeState → ThemeState
unfolding theme_text system_theme
theme_event (theme_set next) p = record p { theme = next; stored = some (theme_text next) }
theme_event (media_changed matches) p = record p { system_shade = system_theme matches }

unfoldable pub theme_events : List ThemeEvent → ThemeState → ThemeState
unfolding theme_event
theme_events [] p = p
theme_events (x ∷ xs) p = theme_events xs (theme_event x p)

-- useTheme
unfoldable pub use_theme : Option ThemeState → Outcome ThemeState
use_theme none = thrown (error (codes "useTheme 必须在 ThemeProvider 中使用"))
use_theme (some p) = returned p
