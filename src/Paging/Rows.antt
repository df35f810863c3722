-- ===== src/Paging/Rows.antt =====
-- Every row of a list is shown on one page, to which the buttons lead.
use danmaku.Prelude.{
  ℕ, zero, suc, replicate, ◌+◌, ◌-◌, ◌*◌, ◌/◌, ◌≤◌, ◌<◌, ◌≡◌, ◌↔◌, refl, sym, ap, ◌∙◌, true, false,
  List, [], ◌∷◌, arith, mul-le, div-bounds, lt-of_mul, Bool-cases, inl, inr,
}
use mathlib.Core.Path.{subst}
use danmaku.Paging.{
  PageMeta, pages, first, last, ceil_div, Click, previous, next, on_page_change, next_disabled,
  previous_disabled, clicks, turn,
}

ceil_div-le : (n d p : ℕ) → 1 ≤ d → (ceil_div n d ≤ p) ↔ (n ≤ p * d)
ceil_div-le n d p h =
    let (low, high) = div-bounds (n + (d - 1)) d h in
    (
      λ le. let more = mul-le (ceil_div n d) p d le in omega (arith, low, high, more, h),
      λ le.
          let next : (p + 1) * d ≡ p * d + d = omega arith in
          let below = lt-of_mul (ceil_div n d) (p + 1) d (omega (arith, low, le, next, h)) in
          omega (arith, below),
    )

-- A page of the list, of which there is one even if it has no rows.
pub record IsPage (m : PageMeta) : Type 0 where
  pub size : 1 ≤ m.page_size
  pub low : 1 ≤ m.page
  pub high : m.page ≤ pages m

-- The row is on the page, by their numbers.
abbrev pub Shows : PageMeta → ℕ → Type 0
Shows m row = (first m ≤ row) × (row ≤ last m)

le-pages : (m : PageMeta) (p : ℕ) → p ≤ ceil_div m.total m.page_size → p ≤ pages m
unfolding pages
le-pages m p h = ground arith

pages-le : (m : PageMeta) (p : ℕ) → 1 ≤ p → (pages m ≤ p) ↔ (ceil_div m.total m.page_size ≤ p)
unfolding pages
pages-le m p h = (λ le. ground arith, λ le. ground arith)

Shows-iff :
    (m : PageMeta) (row : ℕ)
    → row ≤ m.total
    → 1 ≤ row
    → Shows m row ↔ (((m.page - 1) * m.page_size < row) × (row ≤ m.page * m.page_size))
unfolding first last
Shows-iff m row h k = (λ s. ground arith, λ s. ground arith)

-- The page of a row.
abbrev pub row_page : PageMeta → ℕ → ℕ
row_page m row = (row - 1) / m.page_size + 1

mul-pred : (p d : ℕ) → 1 ≤ p → p * d ≡ (p - 1) * d + d
mul-pred p d h =
    let e : p ≡ p - 1 + 1 = omega arith in
    let product : (p - 1 + 1) * d ≡ (p - 1) * d + d = omega arith in ap (λ q. q * d) e ∙ product

row_page-IsPage :
    (m : PageMeta) (row : ℕ)
    → 1 ≤ m.page_size
    → 1 ≤ row
    → row ≤ m.total
    → row_page m row ≤ ceil_div m.total m.page_size
row_page-IsPage m row size h k =
    let (low, high) = div-bounds (row - 1) m.page_size size in
    let (all_rows, _) = ceil_div-le m.total m.page_size (ceil_div m.total m.page_size) size in
    let rows = all_rows (omega arith) in
    let below =
      lt-of_mul ((row - 1) / m.page_size) (ceil_div m.total m.page_size) m.page_size
        (omega (arith, low, rows, h, k)) in
    omega (arith, below)

-- The number of pages does not depend on the page.
pages-page : (m : PageMeta) (p : ℕ) → pages (record m { page = p }) ≡ pages m
unfolding pages
pages-page m p = refl

page-IsPage :
    (m : PageMeta) (p : ℕ) → 1 ≤ m.page_size → 1 ≤ p → p ≤ pages m → IsPage (record m { page = p })
page-IsPage m p size low high = record {
  size = size;
  low = low;
  high = subst (λ n. p ≤ n) (sym (pages-page m p)) high;
}

row_page-Shows :
    (m : PageMeta) (row page : ℕ)
    → 1 ≤ m.page_size
    → 1 ≤ row
    → 1 ≤ page
    → (((page - 1) * m.page_size < row) × (row ≤ page * m.page_size)) ↔ (page ≡ row_page m row)
row_page-Shows m row page size h k =
    let (low, high) = div-bounds (row - 1) m.page_size size in
    let next : (row_page m row) * m.page_size
        ≡ (row - 1) / m.page_size * m.page_size + m.page_size =
      omega arith in
    let e : page * m.page_size ≡ (page - 1) * m.page_size + m.page_size =
      mul-pred page m.page_size k in
    (
      λ s.
          let below =
            lt-of_mul (page - 1) (row_page m row) m.page_size (omega (arith, s, next, high, h)) in
          let above =
            lt-of_mul ((row - 1) / m.page_size) page m.page_size (omega (arith, s, low, h)) in
          omega (arith, below, above, k),
      λ same.
          let back : page - 1 ≡ (row - 1) / m.page_size = omega (arith, same) in
          rw (back, same) (omega (arith, next, low, high, h)),
    )

-- Every row of the list is on one page and no other, and the page is one of the list's.
pub Shows-row_page :
    (m : PageMeta) (row : ℕ)
    → 1 ≤ m.page_size
    → 1 ≤ row
    → row ≤ m.total
    → IsPage (record m { page = row_page m row })
      × ((page : ℕ) → 1 ≤ page → Shows (record m { page = page }) row ↔ (page ≡ row_page m row))
Shows-row_page m row size h k = (
  page-IsPage m (row_page m row) size (omega arith)
      (le-pages m (row_page m row) (row_page-IsPage m row size h k)),
  λ page low.
      let (to, from) = Shows-iff (record m { page = page }) row k h in
      let (to', from') = row_page-Shows m row page size h low in
      (λ s. to' (to s), λ same. from (from' same)),
)

-- The button to the next page is disabled on the page of the last row, and on no page before it.
pub next_disabled_iff :
    (m : PageMeta) → IsPage m → (next_disabled m ≡ true) ↔ (m.total ≤ m.page * m.page_size)
unfolding next_disabled
next_disabled_iff m h =
    let (to, from) = pages-le m m.page h.low in
    let (to', from') = ceil_div-le m.total m.page_size m.page h.size in
    (λ e. ground (arith, to, to'), λ le. ground (arith, from (from' le)))

previous_disabled-false : (m : PageMeta) → previous_disabled m ≡ false → 1 < m.page
unfolding previous_disabled
previous_disabled-false m e = ground arith

next_disabled-false : (m : PageMeta) → next_disabled m ≡ false → m.page + 1 ≤ pages m
unfolding next_disabled
next_disabled-false m e = ground arith

on_page_change-IsPage : (c : Click) (m : PageMeta) → IsPage m → IsPage (turn (on_page_change c m) m)
unfolding on_page_change
on_page_change-IsPage previous m h = elim (Bool-cases (previous_disabled m)) [
  | inl e ↦ rw (e, previous_disabled) h
  | inr e ↦
      let inside : 1 < m.page = previous_disabled-false m e in
      rw (e, previous_disabled)
        (page-IsPage m (m.page - 1) h.size (omega (arith, inside)) (omega (arith, h.high)))
]
on_page_change-IsPage next m h = elim (Bool-cases (next_disabled m)) [
  | inl e ↦ rw e h
  | inr e ↦ rw e (page-IsPage m (m.page + 1) h.size (omega arith) (next_disabled-false m e))
]

-- The buttons lead from a page of the list to pages of the list.
pub clicks-IsPage : (cs : List Click) (m : PageMeta) → IsPage m → IsPage (clicks cs m)
unfolding clicks
clicks-IsPage [] m h = h
clicks-IsPage (c ∷ cs) m h = clicks-IsPage cs _ (on_page_change-IsPage c m h)

next_disabled-before : (m : PageMeta) → IsPage m → m.page < pages m → next_disabled m ≡ false
next_disabled-before m h before = elim (Bool-cases (next_disabled m)) [
  | inl e ↦
      let ceil_le =
        (ceil_div-le m.total m.page_size m.page h.size).1 ((next_disabled_iff m h).0 e) in
      let le = (pages-le m m.page h.low).1 ceil_le in absurd (omega (arith, before, le))
  | inr e ↦ e
]

-- Every later page of the list is reached: by as many clicks on the next page as it is away.
pub clicks-next :
    (n : ℕ) (m : PageMeta)
    → IsPage m
    → m.page + n ≤ pages m
    → clicks (replicate n next) m ≡ record m { page = m.page + n }
unfolding clicks on_page_change
clicks-next zero m h le = ap (λ p. record m { page = p }) (omega arith)
clicks-next (suc n) m h le =
    let enabled = next_disabled-before m h (omega (arith, le)) in
    let le' : m.page + 1 + n ≤ pages (record m { page = m.page + 1 }) =
      subst (λ k. m.page + 1 + n ≤ k) (sym (pages-page m (m.page + 1))) (omega (arith, le)) in
    let one : IsPage (record m { page = m.page + 1 }) =
      page-IsPage m (m.page + 1) h.size (omega arith) (omega (arith, le)) in
    rw (enabled, clicks, on_page_change)
      (clicks-next n (record m { page = m.page + 1 }) one le'
        ∙ ap (λ p. record m { page = p }) (omega arith))
