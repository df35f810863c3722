-- ===== src/Widgets/Select/Tests.antt =====
-- Options, and what is chosen of them.
use danmaku.Prelude.{◌≡◌, refl, List, [], ◌∷◌}
use mathlib.Core.List.{Memᴰ}
use danmaku.Js.Text.{codes}
use danmaku.Widgets.Select.{SelectOption, items, value_changed}
use danmaku.Widgets.Select.Chosen.{Picks, untouched, chosen, dismissed}

abbrev options : List SelectOption
options =
    record { value = codes "all"; label = codes "a" }
    ∷ record { value = codes "true"; label = codes "t" }
    ∷ []

-- A value that is no option is offered as itself, first.
own_value :
    items options (codes "gone") ≡ record { value = codes "gone"; label = codes "gone" } ∷ options
unfolding items
own_value = refl

chosen_true : Picks options (codes "gone") (codes "true")
unfolding items value_changed
chosen_true =
    chosen (record { value = codes "true"; label = codes "t" }) (dismissed untouched)
      (Memᴰ.tail (Memᴰ.tail (Memᴰ.head refl)))
