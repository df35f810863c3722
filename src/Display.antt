-- ===== src/Display.antt =====
-- How the console writes and reads small values: frontend/src/lib/format.ts and the colours of
-- frontend/src/lib/picker-values.ts, with the labels of the pages.
mod Tests
pub mod Hex
use danmaku.Prelude.{
  ℕ, ℤ, pos, negsuc, ◌+◌, ◌/◌, ◌%◌, Bool, true, false, ◌&&◌, ◌||◌, Option, none, some, List, [],
  ◌∷◌, ◌++◌, ltb, leb, ◌==◌, if◌then◌else◌, all, map, length, not,
}
use danmaku.Js.Text.{Text, codes, trim, pad_start, text_eq}
use danmaku.Js.Print.{to_radix, nat_text, number_text}
use danmaku.Js.Number.{Number, infinity, decimal}
use danmaku.Api.Types.Session.{SessionRole, super_admin, admin, general_user}
use danmaku.Api.Types.Pools.{BilibiliPool, DandanplayPool, AnimekoPool, CatalogPool}

-- colorHex, of a whole number.
abbrev pub clamped : ℤ → ℕ
clamped (pos n) = if leb n 0xffffff then n else 0xffffff
clamped (negsuc n) = 0

unfoldable pub color_hex : ℤ → Text
unfolding to_radix
color_hex value = b'#' ∷ pad_start 6 b'0' (to_radix 16 (clamped value))

-- sessionRoleLabel
unfoldable pub session_role_label : SessionRole → Text
session_role_label super_admin = codes "管理员"
session_role_label admin = codes "弹幕管理员"
session_role_label general_user = codes "普通用户"

-- [\da-f], in either case.
unfoldable pub is_hex : ℕ → Bool
is_hex c = (leb b'0' c && leb c b'9') || (leb b'a' c && leb c b'f') || (leb b'A' c && leb c b'F')

-- toLowerCase, of such a digit.
unfoldable pub lower : ℕ → ℕ
lower c = if leb b'A' c && leb c b'F' then c + 32 else c

abbrev pub without_hash : Text → Text
without_hash [] = []
without_hash (c ∷ s) = if c == b'#' then s else c ∷ s

unfoldable pub normalize_digits : Text → Option Text
unfolding is_hex lower
normalize_digits (a ∷ b ∷ c ∷ []) =
    if all is_hex (a ∷ b ∷ c ∷ [])
    then some (b'#' ∷ map lower (a ∷ a ∷ b ∷ b ∷ c ∷ c ∷ []))
    else none
normalize_digits (a ∷ b ∷ c ∷ d ∷ e ∷ f ∷ []) =
    if all is_hex (a ∷ b ∷ c ∷ d ∷ e ∷ f ∷ [])
    then some (b'#' ∷ map lower (a ∷ b ∷ c ∷ d ∷ e ∷ f ∷ []))
    else none
normalize_digits _ = none

-- normalizeHex
unfoldable pub normalize_hex : Text → Option Text
unfolding normalize_digits trim
normalize_hex value = normalize_digits (without_hash (trim value))

-- poolLabel and offsetLabel of frontend/src/pages/videos-page.tsx
abbrev label_of : (bvid aid cid p : Text) → Text
label_of [] aid cid p = codes "CID " ++ (cid ++ (codes " / P" ++ p))
label_of (c ∷ s) aid cid p = (c ∷ s) ++ (codes " / AID " ++ (aid ++ (codes " / P" ++ p)))

unfoldable pub pool_label : BilibiliPool → Text
unfolding number_text
pool_label pool =
    label_of pool.bvid (number_text pool.aid) (number_text pool.cid) (number_text pool.p)

abbrev above_zero : Number → Bool
above_zero infinity = true
above_zero (decimal (pos n) k) = not (n == 0)
above_zero _ = false

unfoldable pub offset_label : Number → Text
unfolding number_text
offset_label offset =
    (if above_zero offset then codes "+" else []) ++ (number_text offset ++ codes " 秒")

-- formatDuration of the same page, of whole milliseconds.
abbrev pub two_digits : ℕ → Text
two_digits n = pad_start 2 b'0' (nat_text n)

unfoldable pub format_seconds : ℕ → Text
unfolding nat_text
format_seconds seconds =
    let hours = seconds / 3600 in
    let minutes = (seconds % 3600) / 60 in
    if hours == 0
    then nat_text minutes ++ (b':' ∷ two_digits (seconds % 60))
    else nat_text hours ++ (b':' ∷ (two_digits minutes ++ (b':' ∷ two_digits (seconds % 60))))

unfoldable pub format_duration : ℤ → Text
unfolding format_seconds
format_duration (pos milliseconds) = format_seconds (milliseconds / 1000)
format_duration (negsuc n) = format_seconds 0

-- apiDate of frontend/src/pages/danmaku-page.tsx: the first T becomes a space, and a time with no
-- seconds gets them.
unfoldable pub spaced : Text → Text
spaced [] = []
spaced (c ∷ s) = if c == b'T' then 32 ∷ s else c ∷ spaced s

abbrev with_seconds : Text → Text
with_seconds s = if length s == 16 then s ++ codes ":00" else s

unfoldable pub api_date : Text → Text
unfolding spaced
api_date value = with_seconds (spaced value)

-- dandanplayPoolLabel, catalogPoolLabel and animekoPoolLabel of frontend/src/lib
unfoldable pub dandanplay_pool_label : DandanplayPool → Text
dandanplay_pool_label pool =
    pool.episode_id ++ (codes " · " ++ (if pool.with_related then codes "包含关联" else codes "不含关联"))

unfoldable pub catalog_pool_label : CatalogPool → Text
catalog_pool_label pool = pool.episode_id

unfoldable pub animeko_pool_label : AnimekoPool → Text
animeko_pool_label pool = codes "Bangumi 剧集 " ++ pool.episode_id

-- modeLabel of frontend/src/pages/danmaku-page.tsx, over the values of editableModes.
abbrev pub mode_label_of : Text → Option Text
mode_label_of value =
    if text_eq value (codes "1")
    then some (codes "滚动弹幕")
    else if text_eq value (codes "4")
    then some (codes "底部弹幕")
    else if text_eq value (codes "5")
    then some (codes "顶部弹幕")
    else if text_eq value (codes "8")
    then some (codes "高级弹幕")
    else if text_eq value (codes "9")
    then some (codes "特殊弹幕")
    else none

unfoldable pub mode_label : Number → Text
unfolding number_text text_eq
mode_label mode = elim (mode_label_of (number_text mode)) [
  | none ↦ codes "类型 " ++ number_text mode
  | some label ↦ label
]
