-- ===== src/Binding/Tests.antt =====
-- Dialogs that load their videos, and the theorems at them.
use danmaku.Prelude.{
  ℕ, ◌+◌, ◌++◌, if◌then◌else◌, Bool, false, ◌≡◌, refl, ap, some, true, List, [], ◌∷◌,
}
use mathlib.Core.Path.{subst}
use danmaku.Js.Text.{codes, text_eq, trim, after_prefix}
use danmaku.Js.Number.{integer}
use danmaku.Js.Outcome.{Outcome, returned, thrown, Async, other}
use danmaku.Js.Value.{
  Value, undefined, number, string, array, object, field, end, property, of_items,
}
use danmaku.Js.Print.{number_text}
use danmaku.Api.Client.{Request, Response, receive, response_code, includes}
use danmaku.Binding.{get_page, reaches, fetch_all_videos}
use danmaku.Binding.AllVideos.{page_answer, fetch_all_videos-ends}

abbrev rows : List Value
rows = string (codes "a") ∷ string (codes "b") ∷ []

-- A server of two videos. The page is the first parameter of the request; all pages but the first
-- are empty.
abbrev is_first : Request → Bool
is_first r = elim r.params [ [] ↦ false | (name, value) ∷ rest ↦ text_eq value (codes "1") ]

abbrev answer : Value → Response
answer body = record {
  ok = true;
  status = 200;
  content_type = some (codes "application/json");
  json = returned body;
  plain = thrown other;
}

abbrev server : Request → Async ℕ Response
server r requests =
    (returned (answer (if is_first r then page_answer rows 1 else page_answer rows 2)), requests)

-- A server that answers page 1 whichever it is asked for, of more videos than it has.
abbrev stuck : Request → Async ℕ Response
stuck r requests = (
  returned (
      answer (
        object (
          field (codes "data")
            (object (
              field (codes "list") (array (of_items rows))
                (field (codes "total") (number (integer 5)) end)))
            end))),
  requests + 1,
)

loop_opened : Unit {0}
unfolding fetch_all_videos reaches receive includes property response_code after_prefix text_eq trim
    number_text
loop_opened = tt

-- One request is enough.
loop_test : fetch_all_videos server 5 0 ≡ (some (returned rows), 0)
unfolding loop_opened
loop_test = refl

-- Three requests, until five rows are there.
stuck_test : fetch_all_videos stuck 6 0 ≡ (some (returned (rows ++ (rows ++ rows))), 3)
unfolding loop_opened
stuck_test = refl

abbrev value_of : Outcome Value → Value
value_of (returned v) = v
value_of (thrown e) = undefined

stuck_bounded :
    (page : ℕ) (w : ℕ) (body : Value)
    → (get_page stuck page w).0 ≡ returned body
    → reaches 5 (property (codes "total") (property (codes "data") body)) ≡ true
unfolding get_page loop_opened
stuck_bounded page w body h =
    subst (λ b. reaches 5 (property (codes "total") (property (codes "data") b)) ≡ true)
      (ap value_of h) refl

fetch_all_videos-ends_example :
    (o : Outcome (List Value)) × ((fetch_all_videos stuck 6 0).0 ≡ some o)
fetch_all_videos-ends_example = fetch_all_videos-ends stuck 5 stuck_bounded 0
