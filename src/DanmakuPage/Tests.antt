-- ===== src/DanmakuPage/Tests.antt =====
-- A list that is filtered and reset, and the theorem at it.
use danmaku.Prelude.{◌≡◌, refl, pos, List, [], ◌∷◌}
use danmaku.Js.Text.{codes, text_eq, is_white_space}
use danmaku.Api.Client.{Params}
use danmaku.DanmakuPage.{
  ListEvent, draft_changed, submitted, page_selected, vid_field, key_field, list_events,
  opened_list,
}
use danmaku.Js.Number.{decimal}
use danmaku.DanmakuPage.Editor.{parse_int_16, after_first}
use danmaku.DanmakuPage.Address.{Agrees, list_events-Agrees}

abbrev address : Params
address = (codes "vid", codes "a") ∷ (codes "tab", codes "list") ∷ []

abbrev events : List ListEvent
events =
    page_selected 4
    ∷ draft_changed vid_field (codes "b")
    ∷ submitted
    ∷ draft_changed key_field (codes "x")
    ∷ []

address_test :
    (list_events events (opened_list address)).address
    ≡ (codes "vid", codes "b") ∷ (codes "tab", codes "list") ∷ []
unfolding list_events opened_list text_eq
address_test = refl

list_events-Agrees_example : Agrees (list_events events (opened_list address))
list_events-Agrees_example = list_events-Agrees events address

color_test : parse_int_16 (after_first (codes "#00ff0A")) ≡ decimal (pos 65290) 0
unfolding parse_int_16 is_white_space
color_test = refl
