-- ===== src/Widgets/Select.antt =====
-- frontend/src/components/searchable-select.tsx: a list of options to choose one from.
mod Tests
pub mod Chosen
use danmaku.Prelude.{Bool, true, false, ◌||◌, Option, none, some, List, [], ◌∷◌, if◌then◌else◌}
use danmaku.Js.Text.{Text, text_eq}

pub record SelectOption : Type 0 where
  pub value : Text
  pub label : Text

-- options.find((option) => option.value === value)
unfoldable pub find_option : Text → List SelectOption → Option SelectOption
unfolding text_eq
find_option value [] = none
find_option value (option ∷ options) =
    let later = find_option value options in
    if text_eq option.value value then some option else later

abbrev pub listed : Option SelectOption → Bool
listed none = false
listed (some _) = true

abbrev pub itself : Text → Option SelectOption
itself [] = none
itself (c ∷ s) = some (record { value = c ∷ s; label = c ∷ s })

abbrev pub or_itself : Text → Option SelectOption → Option SelectOption
or_itself value none = itself value
or_itself value (some option) = some option

-- The option that is shown as chosen: a value that no option has stands for itself.
unfoldable pub selected : List SelectOption → Text → Option SelectOption
unfolding find_option
selected options value = or_itself value (find_option value options)

abbrev pub with_selected : Option SelectOption → List SelectOption → List SelectOption
with_selected none options = options
with_selected (some option) options =
    if listed (find_option option.value options) then options else option ∷ options

-- The items that are offered.
unfoldable pub items : List SelectOption → Text → List SelectOption
unfolding selected find_option
items options value = with_selected (selected options value) options

-- The value after the combobox has reported an item, or none.
unfoldable pub value_changed : Option SelectOption → Text → Text
value_changed none value = value
value_changed (some option) value = option.value
