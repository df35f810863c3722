-- ===== src/Search/Episodes.antt =====
-- The episode that a search panel gives its dialog belongs to the work that is chosen.
use danmaku.Prelude.{
  ◌≡◌, refl, sym, ap, ◌∙◌, ◌⊎◌, inl, inr, Bool, true, false, Bool-cases, ◌||◌, some, List, [], map,
  if-holds, if◌then◌else◌,
}
use mathlib.Core.List.{Memᴰ}
use mathlib.Core.List.Memᴰ as MemD
use danmaku.Js.Text.{Text, trim, is_empty}
use danmaku.Widgets.Select.{SelectOption, items, value_changed}
use danmaku.Widgets.Select.Chosen.{items-FromList}
use danmaku.Search.{
  Episode, SearchState, Searching, opened_search, submit_search, select_kind, select_anime,
  episode_option, shown_episode, has_episode,
}

-- Whether submitSearch does nothing.
abbrev pub search_refused : (disabled fetching : Bool) → SearchState → Bool
search_refused disabled fetching s = is_empty (trim s.draft) || disabled || fetching

-- What can happen to a panel and the field of its dialog, where `episodes` are those that are loaded
-- for a work. `by_hand` once the field was typed in, or was left as it is by a dialog that was closed
-- and opened again, which mounts a new panel; until the panel empties it again.
pub data Used (episodes : Text → List Episode) : Searching → (by_hand : Bool) → Type 0 where
  opened : Used episodes (opened_search, []) false
  drafted :
      {s : SearchState} {e : Text} {b : Bool} (text : Text)
      → Used episodes (s, e) b
      → Used episodes (record s { draft = text }, e) b
  submitted :
      {s : SearchState} {e : Text} {b : Bool} (disabled fetching : Bool)
      → Used episodes (s, e) b
      → Used episodes
          (submit_search disabled fetching (s, e))
          (if search_refused disabled fetching s then b else false)
  kind_selected :
      {s : Searching} {b : Bool} (kind : Text)
      → Used episodes s b
      → Used episodes (select_kind kind s) false
  anime_selected :
      {s : Searching} {b : Bool} (anime : Text)
      → Used episodes s b
      → Used episodes (select_anime anime s) false
  episode_selected :
      {s : SearchState} {e : Text} {b : Bool} (option : SelectOption)
      → Used episodes (s, e) b
      → Memᴰ option
          (items (map episode_option (episodes s.anime_id)) (shown_episode (episodes s.anime_id) e))
      → Used episodes (s, value_changed (some option) e) b
  typed :
      {s : SearchState} {e : Text} {b : Bool} (text : Text)
      → Used episodes (s, e) b
      → Used episodes (s, text) true
  reopened :
      {s : SearchState} {e : Text} {b : Bool}
      → Used episodes (s, e) b
      → Used episodes (opened_search, e) true

-- No episode, or one of the work.
abbrev pub Belongs : (Text → List Episode) → Searching → Type 0
Belongs episodes (s, e) =
    (e ≡ []) ⊎ ((ep : Episode) × Memᴰ ep (episodes s.anime_id) × (ep.episode_id ≡ e))

abbrev Ours : (Text → List Episode) → Searching → Bool → Type 0
Ours episodes s by_hand = (by_hand ≡ true) ⊎ Belongs episodes s

submit_search-Ours :
    (episodes : Text → List Episode) (disabled fetching : Bool) (s : SearchState) (e : Text)
    (b : Bool)
    → Ours episodes (s, e) b
    → Ours episodes
        (submit_search disabled fetching (s, e))
        (if search_refused disabled fetching s then b else false)
unfolding submit_search
submit_search-Ours episodes disabled fetching s e b h =
    elim (Bool-cases (search_refused disabled fetching s)) [
      | inl e ↦ rw e h
      | inr e ↦ rw e (inr (inl refl))
    ]

episode_chosen :
    (es : List Episode) (option : SelectOption)
    → Memᴰ option (map episode_option es)
    → (ep : Episode) × Memᴰ ep es × (ep.episode_id ≡ option.value)
unfolding episode_option
episode_chosen es option m =
    let (ep, m', e) = MemD.of_map episode_option es m in (ep, m', ap (λ o. o.value) e)

-- A select that shows the value it was given, or none, gives an episode or leaves what is there.
shown_or_none :
    (es : List Episode) (e : Text) → (shown_episode es e ≡ e) ⊎ (shown_episode es e ≡ [])
unfolding shown_episode
shown_or_none es e =
    if-holds (λ x. (x ≡ e) ⊎ (x ≡ [])) (has_episode es e) e [] (λ _. inl refl) (λ _. inr refl)

-- Unless it was typed by hand, or left in the field by a dialog that was closed and is opened again,
-- and not emptied since by a search or by another choice of a kind or a work: the episode in the
-- dialog is none, or one of the episodes that are loaded for the work that is chosen.
pub Used-Belongs :
    (episodes : Text → List Episode) (s : Searching) (by_hand : Bool)
    → Used episodes s by_hand
    → (by_hand ≡ true) ⊎ Belongs episodes s
unfolding select_kind select_anime value_changed
Used-Belongs episodes s b opened = inr (inl refl)
Used-Belongs episodes s b (drafted text u) = Used-Belongs episodes _ b u
Used-Belongs episodes s b (submitted {s = st} {e = e} {b = before} disabled fetching u) =
    submit_search-Ours episodes disabled fetching st e before
      (Used-Belongs episodes (st, e) before u)
Used-Belongs episodes s b (kind_selected kind u) = inr (inl refl)
Used-Belongs episodes s b (anime_selected anime u) = inr (inl refl)
Used-Belongs episodes s b (episode_selected {s = st} {e = e} option u m) =
    elim (items-FromList (map episode_option (episodes st.anime_id))
      (shown_episode (episodes st.anime_id) e) option m) [
        | inl listed_one ↦ inr (inr (episode_chosen (episodes st.anime_id) option listed_one))
        | inr same ↦ elim (shown_or_none (episodes st.anime_id) e) [
          | inr nothing ↦ inr (inl (same ∙ nothing))
          | inl it ↦ elim (Used-Belongs episodes (st, e) b u) [
            | inl hand ↦ inl hand
            | inr (inl nothing) ↦ inr (inl (same ∙ it ∙ nothing))
            | inr (inr (ep, m', is)) ↦ inr (inr (ep, m', is ∙ sym (same ∙ it)))
          ]
        ]
      ]
Used-Belongs episodes s b (typed text u) = inl refl
Used-Belongs episodes s b (reopened u) = inl refl
