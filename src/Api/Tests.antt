-- ===== src/Api/Tests.antt =====
-- Small requests and answers, and the theorems about the client at them.
use danmaku.Prelude.{ℕ, Bool, true, false, ◌≡◌, ◌↔◌, ◌⊎◌, refl, some, [], ◌∷◌}
use danmaku.Js.Text.{Text, codes, text_eq, text_eq-apart, trim, after_prefix}
use danmaku.Js.Number.{Number, integer}
use danmaku.Js.Outcome.{returned, thrown, api_client_error, other}
use danmaku.Js.Value.{Value, number, object, field, end, property, number_is}
use danmaku.Js.Print.{number_text, nat_text}
use danmaku.Api.Client.{
  Query, text, amount, flag, null_value, no_value, query_params, Response, read_body, receive,
  response_code, includes,
}
use danmaku.Api.Client.Answers.{IsGood, IsCode, receive-returned, receive-failed}
use danmaku.Api.Client.QueryString.{IsObject, sent, query_params-sent}

abbrev with_code : ℕ → Value
with_code code = object (field (codes "code") (number (integer code)) end)

abbrev answer : Bool → ℕ → Value → Response
answer ok status body = record {
  ok = ok;
  status = status;
  content_type = some (codes "application/json; charset=utf-8");
  json = returned body;
  plain = thrown other;
}

opened : Unit {0}
unfolding receive includes property response_code after_prefix text_eq trim nat_text number_text
opened = tt

fine_test : receive (returned (answer true 200 (with_code 0))) ≡ returned (with_code 0)
unfolding opened
fine_test = refl

receive-returned_example :
    (receive (returned (answer true 200 (with_code 0))) ≡ returned (with_code 0)) ↔ (
      (r : Response) × (returned (answer true 200 (with_code 0)) ≡ returned r)
      × (read_body r ≡ returned (with_code 0))
      × IsGood r (with_code 0))
receive-returned_example = receive-returned (returned (answer true 200 (with_code 0))) (with_code 0)

abbrev expired : Response
expired = answer true 200 (with_code 401)

expired_readable : read_body expired ≡ returned (with_code 401)
unfolding opened
expired_readable = refl

expired_bad : ¬ IsGood expired (with_code 401)
unfolding opened
expired_bad (ok, good) = let zero_code = good (integer 401) (refl, refl) in cc

receive-failed_example :
    (status : Number) × (code : Number) × (message : Text) × (receive (returned expired)
      ≡ thrown (api_client_error status code message))
    × IsCode expired (with_code 401) code
    × (((number_is code 401 ≡ true) × (status ≡ integer 401))
        ⊎ ((number_is code 401 ≡ false) × (status ≡ integer 200)))
receive-failed_example = receive-failed expired (with_code 401) expired_readable expired_bad

abbrev search : Query
search =
    (codes "page", amount (integer 12))
    ∷ (codes "q", text [])
    ∷ (codes "cid", null_value)
    ∷ (codes "desc", flag true)
    ∷ (codes "sort", no_value)
    ∷ []

search-IsObject : IsObject search
unfolding opened
search-IsObject = (
  (
    text_eq-apart _ _ refl,
    (text_eq-apart _ _ refl, (text_eq-apart _ _ refl, (text_eq-apart _ _ refl, tt))),
  ),
  (
    (text_eq-apart _ _ refl, (text_eq-apart _ _ refl, (text_eq-apart _ _ refl, tt))),
    (
      (text_eq-apart _ _ refl, (text_eq-apart _ _ refl, tt)),
      ((text_eq-apart _ _ refl, tt), (tt, tt)),
    ),
  ),
)

query_params-sent_example : query_params search ≡ sent search
query_params-sent_example = query_params-sent search search-IsObject

search_test : query_params search ≡ (codes "page", codes "12") ∷ (codes "desc", codes "true") ∷ []
unfolding query_params opened
search_test = refl
