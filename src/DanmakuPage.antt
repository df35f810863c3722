-- ===== src/DanmakuPage.antt =====
-- DanmakuPage of frontend/src/pages/danmaku-page.tsx: the filters of the list, the part of them that
-- stands in the address, and the request.
mod Tests
pub mod Address
pub mod Editor
use danmaku.Prelude.{ℕ, Bool, Option, none, some, List, [], ◌∷◌, if◌then◌else◌}
use danmaku.Js.Text.{Text, codes, text_eq}
use danmaku.Js.Number.{integer}
use danmaku.Js.Outcome.{Outcome, Async}
use danmaku.Js.Value.{Value}
use danmaku.Api.Client.{
  Request, Response, Query, Params, text, amount, flag, set_param, delete_param, api_get,
}
use danmaku.Display.{api_date}

pub record Filters : Type 0 where
  pub vid : Text
  pub start_date : Text
  pub end_date : Text
  pub mode : Text
  pub ip : Text
  pub key : Text
  pub descending : Text

abbrev pub empty_filters : Filters
empty_filters = record {
  vid = [];
  start_date = [];
  end_date = [];
  mode = codes "all";
  ip = [];
  key = [];
  descending = codes "true";
}

-- URLSearchParams.get
unfoldable pub get_param : Text → Params → Option Text
unfolding text_eq
get_param name [] = none
get_param name ((key, value) ∷ params) =
    let rest = get_param name params in if text_eq key name then some value else rest

abbrev pub or_empty : Option Text → Text
or_empty none = []
or_empty (some s) = s

pub record ListState : Type 0 where
  pub draft : Filters
  pub filters : Filters
  pub page : ℕ
  pub address : Params

unfoldable pub initial_filters : Params → Filters
unfolding get_param
initial_filters address = record empty_filters { vid = or_empty (get_param (codes "vid") address) }

unfoldable pub opened_list : Params → ListState
unfolding initial_filters
opened_list address = record {
  draft = initial_filters address;
  filters = initial_filters address;
  page = 1;
  address = address;
}

-- The fields of the form.
pub data FilterField : Type 0 where
  vid_field start_date_field end_date_field mode_field ip_field : FilterField
  key_field descending_field : FilterField

unfoldable pub with_field : FilterField → Text → Filters → Filters
with_field vid_field s f = record f { vid = s }
with_field start_date_field s f = record f { start_date = s }
with_field end_date_field s f = record f { end_date = s }
with_field mode_field s f = record f { mode = s }
with_field ip_field s f = record f { ip = s }
with_field key_field s f = record f { key = s }
with_field descending_field s f = record f { descending = s }

pub data ListEvent : Type 0 where
  draft_changed : FilterField → Text → ListEvent
  submitted reset : ListEvent
  page_selected : ℕ → ListEvent

abbrev pub with_vid : Text → Params → Params
with_vid [] address = delete_param (codes "vid") address
with_vid (c ∷ s) address = set_param (codes "vid") (c ∷ s) address

-- `submit`, `reset`, and the changes of a field and of the page.
unfoldable pub list_event : ListEvent → ListState → ListState
unfolding with_field set_param delete_param
list_event (draft_changed field s) p = record p { draft = with_field field s p.draft }
list_event submitted p = record p {
  page = 1;
  filters = p.draft;
  address = with_vid p.draft.vid p.address;
}
list_event reset p = record {
  draft = empty_filters;
  filters = empty_filters;
  page = 1;
  address = delete_param (codes "vid") p.address;
}
list_event (page_selected n) p = record p { page = n }

unfoldable pub list_events : List ListEvent → ListState → ListState
unfolding list_event
list_events [] p = p
list_events (x ∷ xs) p = list_events xs (list_event x p)

unfoldable pub danmaku_query : ListState → Query
unfolding text_eq api_date
danmaku_query p =
    let f = p.filters in
    (codes "page", amount (integer p.page))
    ∷ (codes "size", amount (integer 20))
    ∷ (codes "vid", text f.vid)
    ∷ (codes "startDate", text (api_date f.start_date))
    ∷ (codes "endDate", text (api_date f.end_date))
    ∷ (codes "mode", text (if text_eq f.mode (codes "all") then [] else f.mode))
    ∷ (codes "ip", text f.ip)
    ∷ (codes "key", text f.key)
    ∷ (codes "descending", flag (text_eq f.descending (codes "true")))
    ∷ []

module _ {W : Type 0} (fetch : Request → Async W Response) where
  unfoldable pub get_danmaku : ListState → Async W Value
  unfolding danmaku_query api_get
  get_danmaku p = api_get fetch (codes "/api/admin/danmakulist/baseselect") (danmaku_query p)

  unfoldable pub get_vids : Async W Value
  unfolding api_get
  get_vids = api_get fetch (codes "/api/admin/danmakulist/vids") []

  unfoldable pub remove_danmaku : Text → Async W Value
  unfolding api_get
  remove_danmaku id =
      api_get fetch (codes "/api/admin/danmakuedit/delete") ((codes "id", text id) ∷ [])
