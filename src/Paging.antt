-- ===== src/Paging.antt =====
-- frontend/src/components/list-pagination.tsx: the pages of a list, the rows that a page shows, and
-- the two buttons.
mod Tests
pub mod Rows
use danmaku.Prelude.{
  ℕ, ◌+◌, ◌-◌, ◌*◌, ◌/◌, Bool, ◌||◌, Option, none, some, List, [], ◌∷◌, ◌++◌, leb, ◌==◌,
  if◌then◌else◌,
}
use danmaku.Js.Text.{Text, codes}
use danmaku.Js.Print.{nat_text}

-- PageMeta of frontend/src/api/types.ts. Pages and rows are counted from 1, and a page is of one
-- row at least: the callers' sizes are numerals.
pub record PageMeta : Type 0 where
  pub page : ℕ
  pub page_size : ℕ
  pub total : ℕ

abbrev pub max : ℕ → ℕ → ℕ
max a b = if leb a b then b else a

abbrev pub min : ℕ → ℕ → ℕ
min a b = if leb a b then a else b

-- Math.ceil(n / d)
abbrev pub ceil_div : ℕ → ℕ → ℕ
ceil_div n d = (n + (d - 1)) / d

unfoldable pub pages : PageMeta → ℕ
pages m = max 1 (ceil_div m.total m.page_size)

unfoldable pub first : PageMeta → ℕ
first m = if m.total == 0 then 0 else (m.page - 1) * m.page_size + 1

unfoldable pub last : PageMeta → ℕ
last m = min (m.page * m.page_size) m.total

unfoldable pub previous_disabled : PageMeta → Bool
previous_disabled m = leb m.page 1

unfoldable pub next_disabled : PageMeta → Bool
unfolding pages
next_disabled m = leb (pages m) m.page || m.total == 0

-- The text of the footer.
unfoldable pub rows_text : PageMeta → Text
unfolding first last nat_text
rows_text m =
    if m.total == 0
    then codes "暂无数据"
    else codes "显示 "
      ++ (nat_text (first m)
          ++ (codes "–"
              ++ (nat_text (last m) ++ (codes "，共 " ++ (nat_text m.total ++ codes " 项")))))

unfoldable pub pages_text : PageMeta → Text
unfolding pages nat_text
pages_text m =
    codes "第 " ++ (nat_text m.page ++ (codes " / " ++ (nat_text (pages m) ++ codes " 页")))

-- The two buttons: `none` for one that is disabled.
pub data Click : Type 0 where
  previous next : Click

unfoldable pub on_page_change : Click → PageMeta → Option ℕ
unfolding previous_disabled next_disabled
on_page_change previous m = if previous_disabled m then none else some (m.page - 1)
on_page_change next m = if next_disabled m then none else some (m.page + 1)

abbrev pub turn : Option ℕ → PageMeta → PageMeta
turn none m = m
turn (some page) m = record m { page = page }

-- Clicks one after the other, on a list that does not change.
unfoldable pub clicks : List Click → PageMeta → PageMeta
unfolding on_page_change
clicks [] m = m
clicks (c ∷ cs) m = clicks cs (turn (on_page_change c m) m)
