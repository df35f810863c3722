-- ===== src/Widgets/Select/Chosen.antt =====
-- Where the value of a SearchableSelect comes from.
use danmaku.Prelude.{
  ◌≡◌, refl, sym, ap, ◌∙◌, ◌⊎◌, inl, inr, Option, none, some, List, [], ◌∷◌, if-holds,
}
use mathlib.Core.List.{Memᴰ}
use danmaku.Js.Text.{Text, text_eq, text_eq_iff}
use danmaku.Widgets.Select.{
  SelectOption, find_option, or_itself, selected, with_selected, items, value_changed, listed,
}

-- What the user has done to a select of these options, that was opened with a value.
pub data Picks (options : List SelectOption) (opened : Text) : Text → Type 0 where
  untouched : Picks options opened opened
  chosen :
      {value : Text} (option : SelectOption)
      → Picks options opened value
      → Memᴰ option (items options value)
      → Picks options opened (value_changed (some option) value)
  dismissed :
      {value : Text} → Picks options opened value → Picks options opened (value_changed none value)

-- An option, where there is one, of the value.
abbrev HasValue : Text → Option SelectOption → Type 0
HasValue value none = Unit {0}
HasValue value (some option) = option.value ≡ value

find_option-HasValue :
    (value : Text) (options : List SelectOption) → HasValue value (find_option value options)
unfolding find_option
find_option-HasValue value [] = tt
find_option-HasValue value (o ∷ options) =
    if-holds (HasValue value) (text_eq o.value value) (some o) (find_option value options)
      (λ e. (text_eq_iff o.value value).0 e) (λ _. find_option-HasValue value options)

or_itself-HasValue :
    (value : Text) (o : Option SelectOption) → HasValue value o → HasValue value (or_itself value o)
or_itself-HasValue [] none h = tt
or_itself-HasValue (c ∷ s) none h = refl
or_itself-HasValue value (some o) h = h

-- An item is an option of the list, or has the value.
FromList : List SelectOption → Text → List SelectOption → Type 0
FromList options value is =
    (option : SelectOption) → Memᴰ option is → Memᴰ option options ⊎ (option.value ≡ value)

with_selected-FromList :
    (options : List SelectOption) (value : Text) (o : Option SelectOption)
    → HasValue value o
    → FromList options value (with_selected o options)
unfolding FromList
with_selected-FromList options value none h = λ option m. inl m
with_selected-FromList options value (some o) h =
    if-holds (FromList options value) (listed (find_option o.value options)) options (o ∷ options)
      (λ _ option m. inl m)
      (λ _ option m. elim m [ Memᴰ.head e ↦ inr (ap (λ p. p.value) e ∙ h) | Memᴰ.tail m' ↦ inl m' ])

-- What a select offers is what it is given, and the value that it has.
pub items-FromList :
    (options : List SelectOption) (value : Text) (option : SelectOption)
    → Memᴰ option (items options value)
    → Memᴰ option options ⊎ (option.value ≡ value)
unfolding items selected FromList
items-FromList options value =
    with_selected-FromList options value (selected options value)
      (or_itself-HasValue value _ (find_option-HasValue value options))

-- However an option was chosen, the value is the one that the select was opened with, or the value
-- of one of its options.
pub value_changed_source :
    (options : List SelectOption) (opened value : Text)
    → Picks options opened value
    → (value ≡ opened) ⊎ ((option : SelectOption) × Memᴰ option options × (option.value ≡ value))
unfolding value_changed
value_changed_source options opened value untouched = inl refl
value_changed_source options opened value (dismissed c) =
    value_changed_source options opened value c
value_changed_source options opened value (chosen {value = before} option c m) =
    elim (items-FromList options before option m) [
      | inl listed_one ↦ inr (option, listed_one, refl)
      | inr same ↦ elim (value_changed_source options opened before c) [
        | inl e ↦ inl (same ∙ e)
        | inr (o, m', e) ↦ inr (o, m', e ∙ sym same)
      ]
    ]
