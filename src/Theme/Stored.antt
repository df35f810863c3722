-- ===== src/Theme/Stored.antt =====
-- The stored theme and the chosen one agree.
use danmaku.Prelude.{Bool, ◌≡◌, refl, Option, some, List, [], ◌∷◌}
use danmaku.Js.Text.{Text}
use danmaku.Theme.{
  Theme, light, dark, system, theme_text, saved_theme, ThemeState, opened_theme, ThemeEvent,
  theme_set, media_changed, theme_event, theme_events,
}

saved_theme-theme_text : (t : Theme) → saved_theme (some (theme_text t)) ≡ t
unfolding saved_theme theme_text
saved_theme-theme_text light = refl
saved_theme-theme_text dark = refl
saved_theme-theme_text system = refl

abbrev pub Agrees : ThemeState → Type 0
Agrees p = saved_theme p.stored ≡ p.theme

theme_event-Agrees : (x : ThemeEvent) (p : ThemeState) → Agrees p → Agrees (theme_event x p)
unfolding theme_event
theme_event-Agrees (theme_set t) p h = saved_theme-theme_text t
theme_event-Agrees (media_changed matches) p h = h

theme_events-keeps : (xs : List ThemeEvent) (p : ThemeState) → Agrees p → Agrees (theme_events xs p)
unfolding theme_events
theme_events-keeps [] p h = h
theme_events-keeps (x ∷ xs) p h = theme_events-keeps xs _ (theme_event-Agrees x p h)

opened_theme-Agrees : (stored : Option Text) (matches : Bool) → Agrees (opened_theme stored matches)
unfolding opened_theme
opened_theme-Agrees stored matches = refl

-- Whatever is stored when the console is opened and whatever happens to the theme then, the console
-- opened again with what is stored has the same chosen theme.
pub opened_theme-stored :
    (xs : List ThemeEvent) (stored : Option Text) (matches later : Bool)
    → (opened_theme (theme_events xs (opened_theme stored matches)).stored later).theme
      ≡ (theme_events xs (opened_theme stored matches)).theme
unfolding opened_theme
opened_theme-stored xs stored matches later =
    theme_events-keeps xs (opened_theme stored matches) (opened_theme-Agrees stored matches)
