-- ===== src/Js/Value.antt =====
-- A value of type `unknown`: what JSON.parse gives, with the `undefined` that a missing property
-- reads as. An object is its properties in order, each name once.
use danmaku.Prelude.{
  ℕ, Bool, true, false, List, [], ◌∷◌, Option, none, some, ◌==◌, ◌^◌, ◌*◌, if◌then◌else◌, pos,
}
use danmaku.Js.Text.{Text, text_eq}
use danmaku.Js.Number.{Number, decimal}

mutual
  pub data Value : Type 0 where
    undefined null : Value
    boolean : Bool → Value
    number : Number → Value
    string : Text → Value
    array : Items → Value
    object : Fields → Value

  pub data Items : Type 0 where
    nil : Items
    cons : Value → Items → Items

  pub data Fields : Type 0 where
    end : Fields
    field : Text → Value → Fields → Fields

abbrev pub items : Items → List Value
items nil = []
items (cons v vs) = v ∷ items vs

abbrev pub of_items : List Value → Items
of_items [] = nil
of_items (v ∷ vs) = cons v (of_items vs)

unfoldable pub get_field : Text → Fields → Option Value
unfolding text_eq
get_field name end = none
get_field name (field key v fs) = if text_eq key name then some v else get_field name fs

-- { ...fs, name: v }
unfoldable pub set_field : Text → Value → Fields → Fields
unfolding text_eq
set_field name v end = field name v end
set_field name v (field key w fs) =
    if text_eq key name then field key v fs else field key w (set_field name v fs)

abbrev pub or_undefined : Option Value → Value
or_undefined none = undefined
or_undefined (some v) = v

-- v.name: an array has no property of the names that the code reads.
unfoldable pub property : Text → Value → Value
unfolding get_field
property name (object fs) = or_undefined (get_field name fs)
property name _ = undefined

abbrev is_some : Option Value → Bool
is_some none = false
is_some (some v) = true

-- name in v
unfoldable pub has_property : Text → Value → Bool
unfolding get_field
has_property name (object fs) = is_some (get_field name fs)
has_property name _ = false

-- v && typeof v === "object"
abbrev pub is_object : Value → Bool
is_object (array _) = true
is_object (object _) = true
is_object _ = false

-- v ?? other
abbrev pub or_value : Value → Value → Value
or_value undefined other = other
or_value null other = other
or_value v other = v

-- x === n
abbrev pub number_is : Number → ℕ → Bool
number_is (decimal (pos m) k) n = m == n * 10 ^ k
number_is _ n = false
