-- ===== src/Api/Client.antt =====
-- frontend/src/api/client.ts: requests to the server, and what becomes of its answers. The browser
-- is a parameter: `fetch` takes a request and answers or fails.
pub mod Answers
pub mod QueryString
use danmaku.Prelude.{
  ℕ, Bool, true, false, ◌&&◌, ◌||◌, not, List, [], ◌∷◌, ◌++◌, Option, none, some, if◌then◌else◌,
  ◌==◌,
}
use danmaku.Js.Text.{Text, codes, text_eq, is_empty, trim, after_prefix}
use danmaku.Js.Number.{Number, integer}
use danmaku.Js.Outcome.{
  Thrown, error, api_client_error, other, Outcome, returned, thrown, Async, message_or,
}
use danmaku.Js.Value.{Value, undefined, number, string, property, is_object, number_is}
use danmaku.Js.Print.{number_text, nat_text}

-- The values of ApiQuery.
pub data QueryValue : Type 0 where
  text : Text → QueryValue
  amount : Number → QueryValue
  flag : Bool → QueryValue
  null_value no_value : QueryValue

-- String(value), of a value that is sent; `none` for undefined, null and "".
unfoldable pub query_text : QueryValue → Option Text
unfolding number_text
query_text (text []) = none
query_text (text (c ∷ s)) = some (c ∷ s)
query_text (amount x) = some (number_text x)
query_text (flag b) = some (if b then codes "true" else codes "false")
query_text _ = none

abbrev pub Query : Type 0
Query = List (Text × QueryValue)

abbrev pub Params : Type 0
Params = List (Text × Text)

unfoldable pub delete_param : Text → Params → Params
delete_param name [] = []
delete_param name ((key, value) ∷ params) =
    let rest = delete_param name params in if text_eq key name then rest else (key, value) ∷ rest

-- URLSearchParams.set: the first parameter of the name gets the value, the others of it go.
unfoldable pub set_param : Text → Text → Params → Params
unfolding delete_param text_eq
set_param name value [] = (name, value) ∷ []
set_param name value ((key, old) ∷ params) =
    if text_eq key name
    then (key, value) ∷ delete_param name params
    else (key, old) ∷ set_param name value params

abbrev add_param : Text → Option Text → Params → Params
add_param key none params = params
add_param key (some value) params = set_param key value params

query_from : Params → Query → Params
unfolding set_param query_text
query_from params [] = params
query_from params ((key, value) ∷ query) =
    query_from (add_param key (query_text value) params) query

-- queryString, before the parameters are encoded.
unfoldable pub query_params : Query → Params
unfolding query_from
query_params query = query_from [] query

pub data Method : Type 0 where
  get post put patch delete : Method

-- The request of `fetch`. With no parameters the query of the path itself stays; a body is sent
-- as JSON, with the content type that says so.
pub record Request : Type 0 where
  pub method : Method
  pub path : Text
  pub params : Params
  pub headers : List (Text × Text)
  pub body : Option Value

pub record Response : Type 0 where
  pub ok : Bool
  pub status : ℕ
  -- headers.get("content-type")
  pub content_type : Option Text
  -- what json() and text() settle in
  pub json : Outcome Value
  pub plain : Outcome Text

abbrev optional_body : Value → Option Value
optional_body undefined = none
optional_body v = some v

abbrev body_headers : Value → List (Text × Text)
body_headers undefined = []
body_headers v = (codes "content-type", codes "application/json") ∷ []

unfoldable pub request_of : Method → Text → Query → Value → Request
unfolding query_params
request_of method path query body = record {
  method = method;
  path = path;
  params = query_params query;
  headers = (codes "accept", codes "application/json") ∷ body_headers body;
  body = optional_body body;
}

abbrev found : Option Text → Bool
found none = false
found (some _) = true

-- s.includes(part)
unfoldable pub includes : Text → Text → Bool
unfolding after_prefix
includes part [] = is_empty part
includes part (c ∷ s) = found (after_prefix part (c ∷ s)) || includes part s

abbrev content_type_or_empty : Option Text → Text
content_type_or_empty none = []
content_type_or_empty (some t) = t

abbrev or_no_value : Outcome Value → Value
or_no_value (returned v) = v
or_no_value (thrown e) = undefined

abbrev plain_body : Outcome Text → Outcome Value
plain_body (returned []) = returned undefined
plain_body (returned (c ∷ s)) = returned (string (c ∷ s))
plain_body (thrown e) = thrown e

-- The body of a response: JSON that does not parse is `undefined`, and so is an empty text.
unfoldable pub read_body : Response → Outcome Value
unfolding includes
read_body r =
    if includes (codes "application/json") (content_type_or_empty r.content_type)
    then returned (or_no_value r.json)
    else plain_body r.plain

abbrev pub number_or_default : Value → Number → Number
number_or_default (number x) default = x
number_or_default v default = default

abbrev envelope_of : Value → Value
envelope_of body = if is_object body then body else undefined

-- `envelope.code` if it is a number; else 0 for a good status and 1 for a bad one.
unfoldable pub response_code : Response → Value → Number
unfolding property
response_code r body =
    number_or_default (property (codes "code") (envelope_of body))
      (if r.ok then integer 0 else integer 1)

abbrev described : Value → Value → Text → Text
described (string desc) body fallback = desc
described v (string s) fallback = trim s
described v body fallback = fallback

unfoldable pub failure_message : Response → Value → Text
unfolding property response_code trim nat_text
failure_message r body =
    let envelope_data = property (codes "data") (envelope_of body) in
    described (if is_object envelope_data then property (codes "desc") envelope_data else undefined)
      body
      (if number_is (response_code r body) 401
        then codes "登录状态已失效"
        else codes "请求失败（HTTP " ++ (nat_text r.status ++ codes "）"))

-- From the body on.
unfoldable pub settle : Response → Value → Outcome Value
settle r body =
    if not r.ok || not (number_is (response_code r body) 0)
    then thrown (
        api_client_error
          (if number_is (response_code r body) 401 then integer 401 else integer r.status)
          (response_code r body) (failure_message r body))
    else returned body

unfoldable pub settle_read : Response → Outcome Value → Outcome Value
unfolding settle
settle_read r (returned body) = settle r body
settle_read r (thrown e) = thrown e

unfoldable pub receive : Outcome Response → Outcome Value
unfolding read_body settle_read
receive (thrown e) =
    thrown (api_client_error (integer 0) (integer 1) (message_or (codes "无法连接服务") e))
receive (returned r) = settle_read r (read_body r)

-- errorMessage
abbrev pub is_zero : Number → Bool
is_zero x = number_is x 0

abbrev own_message : Text → Text
own_message [] = codes "操作失败，请稍后重试"
own_message (c ∷ s) = c ∷ s

unfoldable pub error_message : Thrown → Text
error_message (api_client_error status code m) =
    if is_zero status then codes "无法连接服务，请检查网络后重试" else own_message m
error_message (error m) = own_message m
error_message other = codes "操作失败，请稍后重试"

module _ {W : Type 0} (fetch : Request → Async W Response) where
  -- apiRequest
  unfoldable pub api_request : Method → Text → Query → Value → Async W Value
  unfolding receive request_of
  api_request method path query body w =
      let (o, w') = fetch (request_of method path query body) w in (receive o, w')

  unfoldable pub api_get : Text → Query → Async W Value
  unfolding api_request
  api_get path query = api_request get path query undefined

  unfoldable pub api_post : Text → Value → Async W Value
  unfolding api_request
  api_post path body = api_request post path [] body

  unfoldable pub api_put : Text → Value → Async W Value
  unfolding api_request
  api_put path body = api_request put path [] body

  unfoldable pub api_patch : Text → Value → Async W Value
  unfolding api_request
  api_patch path body = api_request patch path [] body

  unfoldable pub api_delete : Text → Query → Async W Value
  unfolding api_request
  api_delete path query = api_request delete path query undefined
