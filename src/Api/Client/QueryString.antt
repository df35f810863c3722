-- ===== src/Api/Client/QueryString.antt =====
-- The parameters that queryString sends.
use danmaku.Prelude.{
  Bool, true, false, if◌then◌else◌, ◌≡◌, ◌≢◌, refl, sym, ap, ◌∙◌, [], ◌∷◌, ◌++◌, Option, none, some,
  arith, All,
}
use mathlib.Core.List.{append_assoc, append-nil}
use danmaku.Js.Text.{Text, codes, is_empty, text_eq, text_eq_iff}
use danmaku.Js.Print.{number_text}
use danmaku.Api.Client.{
  QueryValue, text, amount, flag, null_value, no_value, query_text, Query, Params, set_param,
  query_params, query_from, add_param,
}

-- No two entries have one key, as in every JavaScript object.
abbrev pub Absent : Text → Query → Type 0
Absent key query = All (λ entry. entry.0 ≢ key) query

abbrev pub IsObject : Query → Type 0
IsObject [] = Unit
IsObject ((key, value) ∷ query) = Absent key query × IsObject query

-- What should be sent: the entries but those of undefined, null and "", in order.
abbrev pub is_left_out : QueryValue → Bool
is_left_out (text s) = is_empty s
is_left_out null_value = true
is_left_out no_value = true
is_left_out _ = false

-- String(value)
abbrev pub written : QueryValue → Text
written (text s) = s
written (amount x) = number_text x
written (flag true) = codes "true"
written (flag false) = codes "false"
written null_value = codes "null"
written no_value = codes "undefined"

abbrev pub sent : Query → Params
sent [] = []
sent ((key, value) ∷ query) =
    let rest = sent query in if is_left_out value then rest else (key, written value) ∷ rest

abbrev kept : Text → Option Text → Params
kept key none = []
kept key (some content) = (key, content) ∷ []

sent-cons :
    (key : Text) (value : QueryValue) (query : Query)
    → kept key (query_text value) ++ sent query ≡ sent ((key, value) ∷ query)
unfolding query_text
sent-cons key (text []) query = refl
sent-cons key (text (c ∷ s)) query = refl
sent-cons key (amount x) query = refl
sent-cons key (flag true) query = refl
sent-cons key (flag false) query = refl
sent-cons key null_value query = refl
sent-cons key no_value query = refl

abbrev Fresh : Text → Params → Type 0
Fresh key params = All (λ entry. entry.0 ≢ key) params

pub text_eq-ne : (s t : Text) → s ≢ t → text_eq s t ≡ false
text_eq-ne s t h = ground (arith, text_eq_iff s t)

set_param-Fresh :
    (key value : Text) (params : Params)
    → Fresh key params
    → set_param key value params ≡ params ++ (key, value) ∷ []
unfolding set_param
set_param-Fresh key value [] h = refl
set_param-Fresh key value ((k, v) ∷ params) (ne, h) =
    rw (text_eq-ne k key ne) (ap (λ ps. (k, v) ∷ ps) (set_param-Fresh key value params h))

add_param-Fresh :
    (key : Text) (content : Option Text) (params : Params)
    → Fresh key params
    → add_param key content params ≡ params ++ kept key content
add_param-Fresh key none params h = sym (append-nil params)
add_param-Fresh key (some content) params h = set_param-Fresh key content params h

Fresh-append : (key : Text) (xs ys : Params) → Fresh key xs → Fresh key ys → Fresh key (xs ++ ys)
Fresh-append key [] ys h k = k
Fresh-append key (x ∷ xs) ys (ne, h) k = (ne, Fresh-append key xs ys h k)

Fresh-kept :
    (key other : Text) (content : Option Text) → other ≢ key → Fresh key (kept other content)
Fresh-kept key other none h = tt
Fresh-kept key other (some content) h = (h, tt)

-- The keys of `query` are all new to `params`.
abbrev AllFresh : Query → Params → Type 0
AllFresh [] params = Unit
AllFresh ((key, value) ∷ query) params = Fresh key params × AllFresh query params

AllFresh-append :
    (key : Text) (content : Option Text) (query : Query) (params : Params)
    → Absent key query
    → AllFresh query params
    → AllFresh query (params ++ kept key content)
AllFresh-append key content [] params absent h = tt
AllFresh-append key content ((k, v) ∷ query) params (ne, absent) (fresh, h) = (
  Fresh-append k params (kept key content) fresh (Fresh-kept k key content (λ e. ne (sym e))),
  AllFresh-append key content query params absent h,
)

query_from-sent :
    (params : Params) (query : Query)
    → IsObject query
    → AllFresh query params
    → query_from params query ≡ params ++ sent query
unfolding query_from
query_from-sent params [] h fresh = sym (append-nil params)
query_from-sent params ((key, value) ∷ query) (absent, h) (fresh, all_fresh) =
    rw (add_param-Fresh key (query_text value) params fresh) (
      query_from-sent (params ++ kept key (query_text value)) query h
        (AllFresh-append key (query_text value) query params absent all_fresh)
      ∙ append_assoc params _ _
      ∙ ap (λ ps. params ++ ps) (sent-cons key value query))

AllFresh-nil : (query : Query) → AllFresh query []
AllFresh-nil [] = tt
AllFresh-nil (entry ∷ query) = (tt, AllFresh-nil query)

-- Of an object, exactly the entries that are not undefined, null or "" are sent, each with its key
-- and the text of its value, in the order of the object.
pub query_params-sent : (query : Query) → IsObject query → query_params query ≡ sent query
unfolding query_params
query_params-sent query h = query_from-sent [] query h (AllFresh-nil query)
