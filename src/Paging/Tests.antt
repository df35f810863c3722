-- ===== src/Paging/Tests.antt =====
-- Pages of a list of 45 rows, and the theorems at them.
use danmaku.Prelude.{ℕ, ◌+◌, ◌≤◌, ◌≡◌, ◌↔◌, refl, [], ◌∷◌, arith, replicate}
use danmaku.Js.Text.{codes}
use danmaku.Js.Print.{nat_text}
use danmaku.Paging.{PageMeta, pages, previous, next, clicks, rows_text, pages_text}
use danmaku.Paging.Rows.{IsPage, Shows, row_page, Shows-row_page, clicks-IsPage, clicks-next}

abbrev third : PageMeta
third = record { page = 3; page_size = 20; total = 45 }

abbrev start : PageMeta
start = record { page = 1; page_size = 20; total = 45 }

texts_test : (rows_text third ≡ codes "显示 41–45，共 45 项") × (pages_text third ≡ codes "第 3 / 3 页")
unfolding rows_text pages_text nat_text
texts_test = (refl, refl)

clicks_test : clicks (next ∷ next ∷ next ∷ previous ∷ []) start ≡ record start { page = 2 }
unfolding clicks
clicks_test = refl

start-IsPage : IsPage start
unfolding pages
start-IsPage = record { size = omega arith; low = omega arith; high = omega arith }

third-IsPage : IsPage third
unfolding pages
third-IsPage = record { size = omega arith; low = omega arith; high = omega arith }

start-pages : 1 + 2 ≤ pages start
unfolding pages
start-pages = omega arith

Shows-row_page_example :
    IsPage (record start { page = row_page start 41 })
    × ((page : ℕ) → 1 ≤ page → Shows (record start { page = page }) 41 ↔ (page ≡ row_page start 41))
Shows-row_page_example = Shows-row_page start 41 (omega arith) (omega arith) (omega arith)

clicks-IsPage_example : IsPage (clicks (next ∷ next ∷ next ∷ previous ∷ []) start)
clicks-IsPage_example = clicks-IsPage (next ∷ next ∷ next ∷ previous ∷ []) start start-IsPage

clicks-next_example : clicks (replicate 2 next) start ≡ record start { page = 1 + 2 }
clicks-next_example = clicks-next 2 start start-IsPage start-pages
