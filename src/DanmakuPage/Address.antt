-- ===== src/DanmakuPage/Address.antt =====
-- The address and the filters in effect agree.
use danmaku.Prelude.{Bool-cases, ◌≡◌, refl, ap, inl, inr, none, some, List, [], ◌∷◌}
use danmaku.Js.Text.{Text, codes, text_eq, text_eq_refl}
use danmaku.Api.Client.{Params, set_param, delete_param}
use danmaku.DanmakuPage.{
  ListState, ListEvent, draft_changed, submitted, reset, page_selected, list_event, list_events,
  opened_list, get_param, or_empty, with_vid,
}

get_param-delete :
    (name : Text) (params : Params) → get_param name (delete_param name params) ≡ none
unfolding delete_param get_param
get_param-delete name [] = refl
get_param-delete name ((key, value) ∷ params) = elim (Bool-cases (text_eq key name)) [
  | inl e ↦ rw e (get_param-delete name params)
  | inr e ↦ rw (e, e) (get_param-delete name params)
]

get_param-set :
    (name value : Text) (params : Params)
    → get_param name (set_param name value params) ≡ some value
unfolding set_param get_param
get_param-set name value [] = rw (text_eq_refl name) refl
get_param-set name value ((key, old) ∷ params) = elim (Bool-cases (text_eq key name)) [
  | inl e ↦ rw (e, e) refl
  | inr e ↦ rw (e, e) (get_param-set name value params)
]

-- The video of the address is the one of the filters in effect.
abbrev pub Agrees : ListState → Type 0
Agrees p = or_empty (get_param (codes "vid") p.address) ≡ p.filters.vid

with_vid-get :
    (vid : Text) (address : Params)
    → or_empty (get_param (codes "vid") (with_vid vid address)) ≡ vid
with_vid-get [] address = ap or_empty (get_param-delete (codes "vid") address)
with_vid-get (c ∷ s) address = ap or_empty (get_param-set (codes "vid") (c ∷ s) address)

list_event-Agrees : (x : ListEvent) (p : ListState) → Agrees p → Agrees (list_event x p)
unfolding list_event
list_event-Agrees (draft_changed field s) p h = h
list_event-Agrees submitted p h = with_vid-get p.draft.vid p.address
list_event-Agrees reset p h = ap or_empty (get_param-delete (codes "vid") p.address)
list_event-Agrees (page_selected n) p h = h

list_events-keeps : (xs : List ListEvent) (p : ListState) → Agrees p → Agrees (list_events xs p)
unfolding list_events
list_events-keeps [] p h = h
list_events-keeps (x ∷ xs) p h = list_events-keeps xs _ (list_event-Agrees x p h)

opened_list-Agrees : (address : Params) → Agrees (opened_list address)
unfolding opened_list
opened_list-Agrees address = refl

-- Whatever address the page is opened at and whatever is done with its form, the video in the
-- address is the video that the list is filtered by.
pub list_events-Agrees :
    (xs : List ListEvent) (address : Params) → Agrees (list_events xs (opened_list address))
list_events-Agrees xs address =
    list_events-keeps xs (opened_list address) (opened_list-Agrees address)
