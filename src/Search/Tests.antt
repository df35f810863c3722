-- ===== src/Search/Tests.antt =====
-- Searches for a work and its episodes, and the theorem at them.
use danmaku.Prelude.{◌≡◌, refl, ◌⊎◌, true, false, List, [], ◌∷◌, if◌then◌else◌}
use mathlib.Core.List.{Memᴰ}
use danmaku.Js.Text.{Text, codes, text_eq}
use danmaku.Widgets.Select.{items, value_changed}
use danmaku.Search.{
  Episode, SearchState, submit_search, select_anime, episode_option, anime_option, shown_episode,
}
use danmaku.Search.Episodes.{
  Used, opened, drafted, submitted, anime_selected, episode_selected, Belongs, Used-Belongs,
}

-- A work has two episodes, and the others none.
abbrev episodes : Text → List Episode
episodes anime =
    if text_eq anime (codes "7")
    then record { episode_id = codes "71"; title = codes "a"; number = codes "1" }
      ∷ record { episode_id = codes "72"; title = []; number = [] }
      ∷ []
    else []

-- What has no number or title is left out of the label.
labels :
    ((episode_option (record { episode_id = codes "72"; title = []; number = [] })).label
      ≡ codes "ID 72")
    × ((anime_option (record {
      anime_id = codes "7";
      title = codes "A";
      type_description = [];
      start_date = codes "2024-01";
    })).label
        ≡ codes "A · 2024 · 作品 ID 7")
unfolding episode_option anime_option
labels = (refl, refl)

abbrev chosen : SearchState
chosen = record {
  kind = codes "video";
  draft = codes "A";
  keyword = codes "A";
  anime_id = codes "7";
}

chosen_used : Used episodes (chosen, codes "72") false
unfolding submit_search select_anime shown_episode items value_changed episode_option text_eq
chosen_used =
    episode_selected (episode_option (record { episode_id = codes "72"; title = []; number = [] }))
      (anime_selected (codes "7") (submitted false false (drafted (codes "A") opened)))
      (Memᴰ.tail (Memᴰ.head refl))

Used-Belongs_example : (false ≡ true) ⊎ Belongs episodes (chosen, codes "72")
Used-Belongs_example = Used-Belongs episodes (chosen, codes "72") false chosen_used
