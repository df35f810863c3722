-- ===== src/Import/Normalized/Ranges.antt =====
-- The values that normalizedDanmaku can give.
use danmaku.Prelude.{
  Bool, true, false, Bool-cases, ◌≡◌, ◌⊎◌, refl, inl, inr, pos, negsuc, zero, suc, List, [], ◌∷◌,
  Option, none, some, arith,
}
use danmaku.Js.Text.{Text}
use danmaku.Js.Number.{
  Number, nan, infinity, neg_infinity, decimal, integer, is_finite, div_1000, max_zero, or_number,
  floor,
}
use danmaku.Api.Types.Danmaku.{DanmakuData}
use danmaku.Import.Normalized.{
  DanAnyItem, to_bilibili_mode, to_pool, valid_timestamp, normalized_item, normalized_danmaku,
}

-- x < 0
abbrev pub is_negative : Number → Bool
is_negative neg_infinity = true
is_negative (decimal (negsuc n) k) = true
is_negative x = false

-- A number that is falsy: zero or NaN.
abbrev pub is_falsy : Number → Bool
is_falsy nan = true
is_falsy (decimal (pos zero) k) = true
is_falsy x = false

-- An integer: a whole number with no fraction digits.
abbrev pub IsWhole : Number → Type 0
IsWhole (decimal n k) = k ≡ 0
IsWhole x = ⊥

pub record IsNormal (item : DanAnyItem) (d : DanmakuData) : Type 0 where
  -- bilibili's modes
  pub mode :
      (d.mode ≡ integer 1)
      ⊎ (d.mode ≡ integer 4)
      ⊎ (d.mode ≡ integer 5)
      ⊎ (d.mode ≡ integer 6)
      ⊎ (d.mode ≡ integer 7)
  pub pool :
      (d.pool ≡ integer 0) ⊎ (d.pool ≡ integer 1) ⊎ (d.pool ≡ integer 2) ⊎ (d.pool ≡ integer 3)
  pub time : is_negative d.time ≡ false
  pub size : is_falsy d.size ≡ false
  pub color : is_falsy d.color ≡ false
  pub time_stamp : IsWhole d.time_stamp
  pub text : d.text ≡ some item.content

to_bilibili_mode_values :
    (m : Text)
    → (to_bilibili_mode m ≡ integer 1)
      ⊎ (to_bilibili_mode m ≡ integer 4)
      ⊎ (to_bilibili_mode m ≡ integer 5)
      ⊎ (to_bilibili_mode m ≡ integer 6)
      ⊎ (to_bilibili_mode m ≡ integer 7)
unfolding to_bilibili_mode
to_bilibili_mode_values m = ground arith

to_pool_values :
    (p : Text)
    → (to_pool p ≡ integer 0)
      ⊎ (to_pool p ≡ integer 1)
      ⊎ (to_pool p ≡ integer 2)
      ⊎ (to_pool p ≡ integer 3)
unfolding to_pool
to_pool_values p = ground arith

max_zero_not_negative : (x : Number) → is_negative (max_zero x) ≡ false
max_zero_not_negative nan = refl
max_zero_not_negative infinity = refl
max_zero_not_negative neg_infinity = refl
max_zero_not_negative (decimal (pos n) k) = refl
max_zero_not_negative (decimal (negsuc n) k) = refl

or_number_not_falsy :
    (x other : Number) → is_falsy other ≡ false → is_falsy (or_number x other) ≡ false
or_number_not_falsy nan other h = h
or_number_not_falsy infinity other h = refl
or_number_not_falsy neg_infinity other h = refl
or_number_not_falsy (decimal (pos zero) k) other h = h
or_number_not_falsy (decimal (pos (suc n)) k) other h = refl
or_number_not_falsy (decimal (negsuc n) k) other h = refl

floor-IsWhole : (x : Number) → is_finite x ≡ true → IsWhole (floor (div_1000 x))
unfolding floor
floor-IsWhole (decimal n k) h = refl
floor-IsWhole nan h = cc
floor-IsWhole infinity h = cc
floor-IsWhole neg_infinity h = cc

valid_timestamp-IsWhole :
    (now : Number) (ctime : Option Number)
    → is_finite now ≡ true
    → IsWhole (valid_timestamp now ctime)
unfolding valid_timestamp
valid_timestamp-IsWhole now none h = floor-IsWhole now h
valid_timestamp-IsWhole now (some ms) h = elim (Bool-cases (is_finite ms)) [
  | inl e ↦ rw e (floor-IsWhole ms e)
  | inr e ↦ rw e (floor-IsWhole now h)
]

normalized_item-IsNormal :
    (now : Number)
    → is_finite now ≡ true
    → (item : DanAnyItem) → IsNormal item (normalized_item now item)
unfolding normalized_item
normalized_item-IsNormal now h item = record {
  mode = to_bilibili_mode_values item.mode;
  pool = to_pool_values item.pool;
  time = max_zero_not_negative (div_1000 item.progress);
  size = or_number_not_falsy item.fontsize (integer 25) refl;
  color = or_number_not_falsy item.color (integer 0xffffff) refl;
  time_stamp = valid_timestamp-IsWhole now item.ctime h;
  text = refl;
}

abbrev pub AllNormal : List DanAnyItem → List DanmakuData → Type 0
AllNormal [] [] = Unit
AllNormal (i ∷ is) (d ∷ ds) = IsNormal i d × AllNormal is ds
AllNormal _ _ = ⊥

-- One danmaku for each item, in order: with a mode of bilibili, a pool of 0 to 3, a time that is
-- not negative, a size and a color that are neither zero nor NaN, a whole time stamp (on a clock
-- that is a number) and the text of the item.
pub normalized_danmaku-AllNormal :
    (now : Number) (items : List DanAnyItem)
    → is_finite now ≡ true
    → AllNormal items (normalized_danmaku now items)
unfolding normalized_danmaku
normalized_danmaku-AllNormal now [] h = tt
normalized_danmaku-AllNormal now (i ∷ is) h =
    (normalized_item-IsNormal now h i, normalized_danmaku-AllNormal now is h)
