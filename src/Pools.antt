-- ===== src/Pools.antt =====
-- What the pages of the third-party sources share, frontend/src/pages/*-page.tsx of iqiyi, animeko,
-- dandanplay, catalog, bilibili and external: each page writes it out for its source. The children
-- Requests, Panel and Dialogs have the parts as iqiyi-page.tsx has them, the others each page's own.
mod Tests
pub mod Requests
pub mod Panel
pub mod Dialogs
pub mod Iqiyi
pub mod Animeko
pub mod Dandanplay
pub mod Catalog
pub mod Bilibili
pub mod External
use danmaku.Prelude.{ℕ, Bool, Option, none, some, List, [], ◌∷◌}
use danmaku.Js.Text.{Text, codes, trim}
use danmaku.Js.Number.{integer}
use danmaku.Api.Client.{Query, text, amount}

-- The page of a list and its search: the text of the field, and the text searched for.
pub record ListQuery : Type 0 where
  pub page : ℕ
  pub draft_query : Text
  pub query : Text

abbrev pub opened_query : ListQuery
opened_query = record { page = 1; draft_query = []; query = [] }

pub data QueryEvent : Type 0 where
  draft_changed : Text → QueryEvent
  searched : QueryEvent
  page_selected : ℕ → QueryEvent

unfoldable pub query_event : QueryEvent → ListQuery → ListQuery
unfolding trim
query_event (draft_changed s) l = record l { draft_query = s }
query_event searched l = record l { page = 1; query = trim l.draft_query }
query_event (page_selected n) l = record l { page = n }

unfoldable pub query_events : List QueryEvent → ListQuery → ListQuery
unfolding query_event
query_events [] l = l
query_events (x ∷ xs) l = query_events xs (query_event x l)

abbrev pub pools_query : ListQuery → Query
pools_query l =
    (codes "page", amount (integer l.page))
    ∷ (codes "size", amount (integer 20))
    ∷ (codes "query", text l.query)
    ∷ []
