-- ===== src/Import/Common/Accepts.antt =====
-- Which files in the console's own format are accepted, and what is read from them.
use danmaku.Prelude.{
  true, Bool-cases, ◌⊎◌, Option, none, ◌≡◌, ◌↔◌, refl, ap, sym, suc, ◌∙◌, inl, inr, List, [], ◌∷◌,
  some, All, length,
}
use mathlib.Core.Path.{subst}
use danmaku.Js.Text.{Text, codes}
use danmaku.Js.Number.{Number, integer, is_finite}
use danmaku.Js.Outcome.{Outcome, returned, thrown}
use danmaku.Js.Value.{
  Value, undefined, null, boolean, number, string, array, object, Items, Fields, property,
  has_property, get_field, is_object, items,
}
use danmaku.Api.Types.Danmaku.{DanmakuData}
use danmaku.Import.Common.{
  normalize_common_item, map_or_throw, import_common_parsed, with_text, common_item, finite_number,
  envelope_data, import_array, push_front,
}

-- An object whose `text` is a string.
pub record IsDanmaku (v : Value) : Type 0 where
  pub shape : is_object v ≡ true
  pub content : Text
  pub has_text : property (codes "text") v ≡ string content

-- An array, bare or as the `data` of an object.
abbrev pub IsFileOf : Value → Items → Type 0
IsFileOf v vs =
    (v ≡ array vs) ⊎ ((fs : Fields) × (v ≡ object fs) × (property (codes "data") v ≡ array vs))

-- The numbers of what is read are finite, and there is a text.
pub record IsSound (d : DanmakuData) : Type 0 where
  pub time : is_finite d.time ≡ true
  pub mode : is_finite d.mode ≡ true
  pub size : is_finite d.size ≡ true
  pub color : is_finite d.color ≡ true
  pub time_stamp : is_finite d.time_stamp ≡ true
  pub pool : is_finite d.pool ≡ true
  pub author_id : is_finite d.author_id ≡ true
  pub text : Text
  pub has_text : d.text ≡ some text

envelope_data-IsFileOf : (v : Value) (vs : Items) → (envelope_data v ≡ array vs) ↔ IsFileOf v vs
unfolding envelope_data has_property property
envelope_data-IsFileOf (array us) vs = (λ h. inl h, λ h. elim h [ inl e ↦ e | inr (fs, e, _) ↦ cc ])
envelope_data-IsFileOf (object fs) vs = go (get_field (codes "data") fs) refl
  where
    go :
        (data_field : Option Value)
        → get_field (codes "data") fs ≡ data_field
        → (envelope_data (object fs) ≡ array vs) ↔ IsFileOf (object fs) vs
    go none e = (
      λ h. cc (rw e at h),
      λ h. elim h [ inl same ↦ cc | inr (_, _, found) ↦ cc (rw e at found) ],
    )
    go (some v) e = (
      λ h. inr (fs, refl, rw e (rw e at h)),
      λ h. elim h [ inl same ↦ cc | inr (_, _, found) ↦ rw e (rw e at found) ],
    )
envelope_data-IsFileOf undefined vs = (λ h. inl h, λ h. elim h [ inl e ↦ e | inr (fs, e, _) ↦ cc ])
envelope_data-IsFileOf null vs = (λ h. inl h, λ h. elim h [ inl e ↦ e | inr (fs, e, _) ↦ cc ])
envelope_data-IsFileOf (boolean b) vs =
    (λ h. inl h, λ h. elim h [ inl e ↦ e | inr (fs, e, _) ↦ cc ])
envelope_data-IsFileOf (number x) vs = (λ h. inl h, λ h. elim h [ inl e ↦ e | inr (fs, e, _) ↦ cc ])
envelope_data-IsFileOf (string t) vs = (λ h. inl h, λ h. elim h [ inl e ↦ e | inr (fs, e, _) ↦ cc ])

finite_number-finite :
    (v : Value) (fallback : Number)
    → is_finite fallback ≡ true
    → is_finite (finite_number v fallback) ≡ true
unfolding finite_number
finite_number-finite (number x) fallback h = elim (Bool-cases (is_finite x)) [
  | inl e ↦ rw e e
  | inr e ↦ rw e h
]
finite_number-finite _ fallback h = h

module _ (now : Number) (now_finite : is_finite now ≡ true) where
  common_item-IsSound : (v : Value) (s : Text) → IsSound (common_item now v s)
  unfolding common_item
  common_item-IsSound v s = record {
    time = finite_number-finite (property (codes "time") v) (integer 0) refl;
    mode = finite_number-finite (property (codes "mode") v) (integer 1) refl;
    size = finite_number-finite (property (codes "size") v) (integer 25) refl;
    color = finite_number-finite (property (codes "color") v) (integer 0xffffff) refl;
    time_stamp = finite_number-finite (property (codes "timeStamp") v) now now_finite;
    pool = finite_number-finite (property (codes "pool") v) (integer 0) refl;
    author_id = finite_number-finite (property (codes "authorId") v) (integer 0) refl;
    text = s;
    has_text = refl;
  }

  with_text-IsSound :
      (v content : Value) (d : DanmakuData)
      → with_text now v content ≡ returned d
      → ((s : Text) × (content ≡ string s)) × IsSound d
  unfolding with_text
  with_text-IsSound v (string s) d h =
      let e : common_item now v s ≡ d = cc in ((s, refl), rw (← e) (common_item-IsSound v s))
  with_text-IsSound v _ d h = cc

  normalize_common_item-IsSound :
      (v : Value) (d : DanmakuData)
      → normalize_common_item now v ≡ returned d
      → IsDanmaku v × IsSound d
  unfolding normalize_common_item
  normalize_common_item-IsSound v d h = elim (Bool-cases (is_object v)) [
    | inl e ↦
        let ((s, text), sound) = with_text-IsSound v _ d (rw e at h) in
        (record { shape = e; content = s; has_text = text }, sound)
    | inr e ↦ cc (rw e at h)
  ]

  normalize_common_item_complete :
      (v : Value) → IsDanmaku v → (d : DanmakuData) × (normalize_common_item now v ≡ returned d)
  unfolding normalize_common_item with_text
  normalize_common_item_complete v h = (common_item now v h.content, rw (h.shape, h.has_text))

  push_front-returned :
      {A : Type 0} (o : Outcome A) (rest : Outcome (List A)) (ys : List A)
      → push_front o rest ≡ returned ys
      → (x : A) × (xs : List A) × (o ≡ returned x) × (rest ≡ returned xs) × (ys ≡ x ∷ xs)
  push_front-returned (thrown e) rest ys h = cc
  push_front-returned (returned x) (thrown e) ys h = cc
  push_front-returned (returned x) (returned xs) ys h = (x, xs, refl, refl, cc)

  map_or_throw-IsSound :
      (vs : List Value) (ds : List DanmakuData)
      → map_or_throw (normalize_common_item now) vs ≡ returned ds
      → All IsDanmaku vs × All IsSound ds × (length ds ≡ length vs)
  unfolding map_or_throw
  map_or_throw-IsSound [] ds h = let e : [] ≡ ds = cc in (tt, subst (All IsSound) e tt, rw (← e))
  map_or_throw-IsSound (v ∷ vs) ds h =
      let (x, xs, first, rest, e) =
        push_front-returned (normalize_common_item now v)
          (map_or_throw (normalize_common_item now) vs) ds h in
      let (is_danmaku, sound) = normalize_common_item-IsSound v x first in
      let (all_danmaku, all_sound, n) = map_or_throw-IsSound vs xs rest in
      (
        (is_danmaku, all_danmaku),
        subst (All IsSound) (sym e) (sound, all_sound),
        ap length e ∙ ap suc n,
      )

  map_or_throw_complete :
      (vs : List Value)
      → All IsDanmaku vs
      → (ds : List DanmakuData) × (map_or_throw (normalize_common_item now) vs ≡ returned ds)
  unfolding map_or_throw
  map_or_throw_complete [] h = ([], refl)
  map_or_throw_complete (v ∷ vs) (h, hs) =
      let (d, first) = normalize_common_item_complete v h in
      let (ds, rest) = map_or_throw_complete vs hs in (d ∷ ds, rw (first, rest))

  import_array-IsSound :
      (v : Value) (ds : List DanmakuData)
      → import_array now v ≡ returned ds
      → (vs : Items) × (v ≡ array vs)
        × All IsDanmaku (items vs)
        × All IsSound ds
        × (length ds ≡ length (items vs))
  unfolding import_array
  import_array-IsSound (array vs) ds h =
      let (a, b, c) = map_or_throw-IsSound (items vs) ds h in (vs, refl, a, b, c)
  import_array-IsSound _ ds h = cc

  -- A file in the console's own format is accepted exactly when it is an array, bare or as the
  -- `data` of an object, whose items are all objects with a string as their `text`.
  pub import_common-accepts :
      (v : Value)
      → ((ds : List DanmakuData) × (import_common_parsed now v ≡ returned ds))
        ↔ ((vs : Items) × IsFileOf v vs × All IsDanmaku (items vs))
  unfolding import_common_parsed
  import_common-accepts v = (
    λ accepted.
        let (ds, h) = accepted in
        let (vs, e, all, _, _) = import_array-IsSound (envelope_data v) ds h in
        (vs, (envelope_data-IsFileOf v vs).0 e, all),
    λ shape.
        let (vs, file, all) = shape in
        let e = (envelope_data-IsFileOf v vs).1 file in
        let (ds, h) = map_or_throw_complete (items vs) all in (ds, rw e h),
  )

  -- What an accepted file gives has as many danmaku as the array has items, each with a text and
  -- with finite numbers only, whatever the properties of the items were.
  pub import_common-IsSound :
      (v : Value) (ds : List DanmakuData)
      → import_common_parsed now v ≡ returned ds
      → All IsSound ds × ((vs : Items) × IsFileOf v vs × (length ds ≡ length (items vs)))
  unfolding import_common_parsed
  import_common-IsSound v ds h =
      let (vs, e, _, sound, n) = import_array-IsSound (envelope_data v) ds h in
      (sound, (vs, (envelope_data-IsFileOf v vs).0 e, n))
