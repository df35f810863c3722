-- ===== src/Search.antt =====
-- The search panels of the pools' dialogs: frontend/src/components/third-party-search.tsx, which
-- dandanplay-search.tsx repeats for one source, and bilibili-lookup.tsx.
mod Tests
pub mod Episodes
use danmaku.Prelude.{
  ℕ, Bool, true, false, ◌&&◌, ◌||◌, not, Option, none, some, List, [], ◌∷◌, ◌++◌, leb,
  if◌then◌else◌,
}
use danmaku.Js.Text.{Text, codes, is_empty, text_eq, trim}
use danmaku.Js.Number.{Number}
use danmaku.Js.Outcome.{Async}
use danmaku.Js.Print.{number_text}
use danmaku.Js.Value.{Value}
use danmaku.Api.Client.{Request, Response, Query, text, api_get}
use danmaku.Widgets.Select.{SelectOption}

pub record Anime : Type 0 where
  pub anime_id : Text
  pub title : Text
  pub type_description : Text
  pub start_date : Text

pub record Episode : Type 0 where
  pub episode_id : Text
  pub title : Text
  pub number : Text

pub data SearchSource : Type 0 where
  animeko iqiyi bilibili bahamut tencent youku dandanplay : SearchSource

unfoldable pub search_source_name : SearchSource → Text
search_source_name animeko = codes "animeko"
search_source_name iqiyi = codes "iqiyi"
search_source_name bilibili = codes "bilibili"
search_source_name bahamut = codes "bahamut"
search_source_name tencent = codes "tencent"
search_source_name youku = codes "youku"
search_source_name dandanplay = codes "dandanplay"

pub record SearchState : Type 0 where
  pub kind : Text
  pub draft : Text
  pub keyword : Text
  pub anime_id : Text

abbrev pub opened_search : SearchState
opened_search = record { kind = codes "video"; draft = []; keyword = []; anime_id = [] }

-- The state with the parent's `episodeId`, which `onSelect` sets.
abbrev pub Searching : Type 0
Searching = SearchState × Text

-- submitSearch, but for the query that is fetched again for the same keyword.
unfoldable pub submit_search : (disabled fetching : Bool) → Searching → Searching
unfolding trim
submit_search disabled fetching (s, episode) =
    if is_empty (trim s.draft) || disabled || fetching
    then (s, episode)
    else (record s { anime_id = []; keyword = trim s.draft }, [])

unfoldable pub select_kind : Text → Searching → Searching
select_kind kind (s, episode) = (record s { kind = kind; keyword = []; anime_id = [] }, [])

unfoldable pub select_anime : Text → Searching → Searching
select_anime anime (s, episode) = (record s { anime_id = anime }, [])

-- parts.filter(Boolean).join(" · ")
abbrev pub join_two : Text → Text → Text
join_two [] rest = rest
join_two (c ∷ s) [] = c ∷ s
join_two (c ∷ s) (d ∷ rest) = (c ∷ s) ++ (codes " · " ++ (d ∷ rest))

unfoldable pub join_parts : List Text → Text
join_parts [] = []
join_parts (part ∷ parts) = join_two part (join_parts parts)

abbrev is_digit : ℕ → Bool
is_digit c = leb b'0' c && leb c b'9'

-- The year of a date that begins with four digits.
unfoldable pub year_of : Text → Text
year_of (a ∷ b ∷ c ∷ d ∷ s) =
    if is_digit a && is_digit b && is_digit c && is_digit d then a ∷ b ∷ c ∷ d ∷ [] else []
year_of _ = []

unfoldable pub anime_option : Anime → SelectOption
unfolding join_parts year_of
anime_option anime = record {
  value = anime.anime_id;
  label = join_parts (
      anime.title
      ∷ anime.type_description
      ∷ year_of anime.start_date
      ∷ (codes "作品 ID " ++ anime.anime_id)
      ∷ []);
}

unfoldable pub episode_option : Episode → SelectOption
unfolding join_parts
episode_option e = record {
  value = e.episode_id;
  label = join_parts (
      (if is_empty e.number then [] else codes "第 " ++ (e.number ++ codes " 集"))
      ∷ e.title
      ∷ (codes "ID " ++ e.episode_id)
      ∷ []);
}

unfoldable pub has_episode : List Episode → Text → Bool
unfolding text_eq
has_episode [] id = false
has_episode (e ∷ es) id = text_eq e.episode_id id || has_episode es id

-- The value of the select of episodes.
unfoldable pub shown_episode : List Episode → Text → Text
unfolding has_episode
shown_episode episodes id = if has_episode episodes id then id else []

abbrev pub search_query : SearchSource → SearchState → Query
search_query bilibili s = (codes "keyword", text s.keyword) ∷ (codes "type", text s.kind) ∷ []
search_query _ s = (codes "keyword", text s.keyword) ∷ []

abbrev pub episodes_path : Text → Text → Text
episodes_path source anime =
    codes "/api/admin/" ++ (source ++ (codes "/anime/" ++ (anime ++ codes "/episodes")))

module _ {W : Type 0} (fetch : Request → Async W Response) where
  unfoldable pub get_search : SearchSource → SearchState → Async W Value
  unfolding api_get search_source_name
  get_search source s =
      api_get fetch (codes "/api/admin/" ++ (search_source_name source ++ codes "/search"))
        (search_query source s)

  -- What bilibili resolves, for an anime or for the text of the lookup.
  unfoldable pub resolve : Text → Async W Value
  unfolding api_get
  resolve input =
      api_get fetch (codes "/api/admin/bilibili/resolve") ((codes "input", text input) ∷ [])

  unfoldable pub get_episodes : SearchSource → SearchState → Async W Value
  unfolding api_get resolve search_source_name
  get_episodes bilibili s = resolve s.anime_id
  get_episodes source s = api_get fetch (episodes_path (search_source_name source) s.anime_id) []

-- BilibiliLookup
pub record Resolved : Type 0 where
  pub key : Text
  pub reference : Text
  pub title : Text
  pub cid : Number
  pub p : Number

pub record Lookup : Type 0 where
  pub resolved_input : Text
  pub selection : Text

abbrev pub opened_lookup : Lookup
opened_lookup = record { resolved_input = []; selection = [] }

-- The button, for the text of the parent's field.
unfoldable pub resolve_clicked : (disabled fetching : Bool) → Text → Lookup → Lookup
unfolding trim
resolve_clicked disabled fetching input l =
    if disabled || is_empty (trim input) || fetching
    then l
    else record { resolved_input = trim input; selection = [] }

abbrev pub is_selected : Text → Text → Resolved → Bool
is_selected selection input item = text_eq item.key selection && text_eq item.reference (trim input)

unfoldable pub any_selected : Text → Text → List Resolved → Bool
unfolding text_eq trim
any_selected selection input [] = false
any_selected selection input (item ∷ items) =
    is_selected selection input item || any_selected selection input items

-- Whether the result is for the text that stands in the field.
unfoldable pub current_result : Text → List Resolved → Lookup → Bool
unfolding any_selected text_eq trim
current_result input result l =
    text_eq (trim input) l.resolved_input || any_selected l.selection input result

unfoldable pub resolved_option : Resolved → SelectOption
unfolding number_text
resolved_option item = record {
  value = item.key;
  label =
      item.title
      ++ (codes " · P" ++ (number_text item.p ++ (codes " · CID " ++ number_text item.cid)));
}

unfoldable pub find_resolved : Text → List Resolved → Option Resolved
unfolding text_eq
find_resolved key [] = none
find_resolved key (item ∷ items) =
    let later = find_resolved key items in if text_eq item.key key then some item else later

-- A choice, with the reference that the parent gets.
unfoldable pub select_resolved : Text → List Resolved → Lookup → Lookup × Option Text
unfolding find_resolved
select_resolved key result l = elim (find_resolved key result) [
  | none ↦ (l, none)
  | some item ↦ (record l { selection = key }, some item.reference)
]
