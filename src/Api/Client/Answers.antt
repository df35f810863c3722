-- ===== src/Api/Client/Answers.antt =====
-- What callers of a request can rely on.
use danmaku.Prelude.{
  true, false, Bool-cases, ◌≡◌, ◌≢◌, ◌↔◌, ◌⊎◌, inl, inr, refl, ap, sym, ◌∙◌, some, [], ◌∷◌, arith,
  if◌then◌else◌,
}
use mathlib.Core.Path.{subst}
use danmaku.Js.Text.{Text, codes}
use danmaku.Js.Number.{Number, integer}
use danmaku.Js.Outcome.{
  Thrown, error, api_client_error, other, Outcome, returned, thrown, message_or,
}
use danmaku.Js.Value.{
  Value, undefined, null, boolean, number, string, array, object, property, is_object, number_is,
}
use danmaku.Api.Client.{
  Request, post, Response, number_or_default, response_code, settle, settle_read, receive,
  read_body, failure_message, error_message,
}

-- The code that the body of an answer gives: its own property, if that is a number.
abbrev pub Gives : Value → Number → Type 0
Gives body x = (is_object body ≡ true) × (property (codes "code") body ≡ number x)

-- A response is good: its status is, and no code that its body gives is another than 0.
abbrev pub IsGood : Response → Value → Type 0
IsGood r body = (r.ok ≡ true) × ((x : Number) → Gives body x → number_is x 0 ≡ true)

-- The code of an answer: the one that its body gives; else 0 for a good status, 1 for a bad one.
abbrev pub IsCode : Response → Value → Number → Type 0
IsCode r body x =
    Gives body x
    ⊎ (((y : Number) → ¬ Gives body y)
        × (((r.ok ≡ true) × (x ≡ integer 0)) ⊎ ((r.ok ≡ false) × (x ≡ integer 1))))

Gives-decided : (body : Value) → ((x : Number) × Gives body x) ⊎ ((x : Number) → ¬ Gives body x)
Gives-decided body = elim (Bool-cases (is_object body)) [
  | inl e ↦ go (property (codes "code") body) e refl
  | inr e ↦ inr (λ x given. ground arith)
]
  where
    go :
        (v : Value)
        → is_object body ≡ true
        → property (codes "code") body ≡ v
        → ((x : Number) × Gives body x) ⊎ ((x : Number) → ¬ Gives body x)
    go (number x) e h = inl (x, (e, h))
    go undefined e h = inr (λ x given. cc)
    go null e h = inr (λ x given. cc)
    go (boolean b) e h = inr (λ x given. cc)
    go (string t) e h = inr (λ x given. cc)
    go (array vs) e h = inr (λ x given. cc)
    go (object fs) e h = inr (λ x given. cc)

response_code-given :
    (r : Response) (body : Value) (x : Number) → Gives body x → response_code r body ≡ x
unfolding response_code
response_code-given r body x (e, h) = rw e (rw h refl)

number_or_default-missing :
    (v : Value) (default : Number)
    → ((x : Number) → ¬ (v ≡ number x))
    → number_or_default v default ≡ default
number_or_default-missing (number x) default h = absurd (h x refl)
number_or_default-missing _ default h = refl

response_code-missing :
    (r : Response) (body : Value)
    → ((x : Number) → ¬ Gives body x)
    → response_code r body ≡ (if r.ok then integer 0 else integer 1)
unfolding response_code property
response_code-missing r body none_given = elim (Bool-cases (is_object body)) [
  | inl e ↦
      rw e (number_or_default-missing (property (codes "code") body) _ (λ x h. none_given x (e, h)))
  | inr e ↦ rw e refl
]

-- The code that the client finds is the answer's.
response_code-IsCode : (r : Response) (body : Value) → IsCode r body (response_code r body)
response_code-IsCode r body = elim (Gives-decided body) [
  | inl (x, given) ↦ inl (given.0, given.1 ∙ ap number (sym (response_code-given r body x given)))
  | inr absent ↦ inr (absent, go (Bool-cases r.ok) (response_code-missing r body absent))
]
  where
    go :
        (r.ok ≡ true) ⊎ (r.ok ≡ false)
        → response_code r body ≡ (if r.ok then integer 0 else integer 1)
        → ((r.ok ≡ true) × (response_code r body ≡ integer 0))
          ⊎ ((r.ok ≡ false) × (response_code r body ≡ integer 1))
    go (inl e) h = inl (e, h ∙ rw e refl)
    go (inr e) h = inr (e, h ∙ rw e refl)

-- The test of the client.
abbrev Passes : Response → Value → Type 0
Passes r body = (r.ok ≡ true) × (number_is (response_code r body) 0 ≡ true)

IsGood-Passes : (r : Response) (body : Value) → IsGood r body → Passes r body
IsGood-Passes r body (ok, zero_code) = (
  ok,
  elim (Gives-decided body) [
    | inl (x, given) ↦ rw (response_code-given r body x given) (zero_code x given)
    | inr absent ↦ rw (response_code-missing r body absent) (rw ok refl)
  ],
)

Passes-IsGood : (r : Response) (body : Value) → Passes r body → IsGood r body
Passes-IsGood r body (ok, h) =
    (ok, λ x given. subst (λ c. number_is c 0 ≡ true) (response_code-given r body x given) h)

settle-Passes :
    (r : Response) (body v : Value) → (settle r body ≡ returned v) ↔ (Passes r body × (v ≡ body))
unfolding settle
settle-Passes r body v = (λ h. ground arith, λ h. ground arith)

settle-IsGood :
    (r : Response) (body v : Value) → (settle r body ≡ returned v) ↔ (IsGood r body × (v ≡ body))
settle-IsGood r body v =
    let (to, from) = settle-Passes r body v in
    (
      λ h. let (passed, same) = to h in (Passes-IsGood r body passed, same),
      λ h. from (IsGood-Passes r body h.0, h.1),
    )

settle_read-IsGood :
    (r : Response) (o : Outcome Value) (v : Value)
    → (settle_read r o ≡ returned v) ↔ ((o ≡ returned v) × IsGood r v)
unfolding settle_read
settle_read-IsGood r (thrown e) v = (λ h. cc, λ h. absurd (ground arith))
settle_read-IsGood r (returned body) v =
    let (to, from) = settle-IsGood r body v in
    (
      λ h. let (good, same) = to h in (ap returned (sym same), subst (IsGood r) (sym same) good),
      λ h. let same : body ≡ v = cc (h.0) in from (subst (IsGood r) (sym same) h.1, sym same),
    )

-- A request returns a value exactly when the server's answer arrives, its body can be read and is
-- that value, its HTTP status is a success, and the body gives no code that is another number than 0.
pub receive-returned :
    (o : Outcome Response) (v : Value)
    → (receive o ≡ returned v)
      ↔ ((r : Response) × (o ≡ returned r) × (read_body r ≡ returned v) × IsGood r v)
unfolding receive
receive-returned (thrown e) v = (λ h. cc, λ h. absurd (ground arith))
receive-returned (returned r) v =
    let (to, from) = settle_read-IsGood r (read_body r) v in
    (
      λ h. let (body, good) = to h in (r, refl, body, good),
      λ h.
          let same : h.0 ≡ r = cc (h.1) in
          from (rw same at h.2, subst (λ r'. IsGood r' v) same h.3),
    )

-- The session of the caller has expired: the answer's body has the code 401.
abbrev pub IsExpired : Value → Type 0
IsExpired body = (x : Number) × Gives body x × (number_is x 401 ≡ true)

-- No other code is taken for 401.
pub code-IsExpired :
    (r : Response) (body : Value) (code : Number)
    → IsCode r body code
    → number_is code 401 ≡ true
    → IsExpired body
code-IsExpired r body code (inl given) h = (code, given, h)
code-IsExpired r body code (inr (absent, inl (ok, e))) h =
    cc (subst (λ c. number_is c 401 ≡ true) e h)
code-IsExpired r body code (inr (absent, inr (bad, e))) h =
    cc (subst (λ c. number_is c 401 ≡ true) e h)

pub expired-code :
    (r : Response) (body : Value) (code : Number)
    → IsCode r body code
    → IsExpired body
    → number_is code 401 ≡ true
expired-code r body code (inl given) (x, given', h) =
    let e : number code ≡ number x = sym given.1 ∙ given'.1 in
    let same : code ≡ x = cc in subst (λ c. number_is c 401 ≡ true) (sym same) h
expired-code r body code (inr (absent, _)) (x, given, h) = absurd (absent x given)

-- What the console shows for an error is never empty.
pub error_message-ne-nil : (e : Thrown) → error_message e ≢ []
unfolding error_message
error_message-ne-nil (error []) h = cc
error_message-ne-nil (error (c ∷ s)) h = cc
error_message-ne-nil (api_client_error status code []) h = ground arith
error_message-ne-nil (api_client_error status code (c ∷ s)) h = ground arith
error_message-ne-nil other h = cc

-- A request that gets no answer throws an error that the console shows as a network failure,
-- whatever the browser threw.
pub receive-unreachable :
    (e : Thrown)
    → (e' : Thrown) × (receive (thrown e) ≡ thrown e')
      × (error_message e' ≡ codes "无法连接服务，请检查网络后重试")
unfolding receive error_message
receive-unreachable e =
    (api_client_error (integer 0) (integer 1) (message_or (codes "无法连接服务") e), refl, refl)

settle-failed :
    (r : Response) (body : Value)
    → ¬ IsGood r body
    → settle r body
      ≡ thrown (
          api_client_error
            (if number_is (response_code r body) 401 then integer 401 else integer r.status)
            (response_code r body)
            (failure_message r body))
unfolding settle
settle-failed r body h = elim (Bool-cases r.ok) [
  | inl e ↦ elim (Bool-cases (number_is (response_code r body) 0)) [
    | inl z ↦ absurd (h (Passes-IsGood r body (e, z)))
    | inr z ↦ simp (e, z)
  ]
  | inr e ↦ simp e
]

-- An answer with a readable body that is not good makes the request throw an ApiClientError with
-- the code of the answer, that which the body gives or else 0 for a good status and 1 for a bad one;
-- the error's status is 401 if the code is 401, and else that of the response.
pub receive-failed :
    (r : Response) (body : Value)
    → read_body r ≡ returned body
    → ¬ IsGood r body
    → (status : Number) × (code : Number) × (message : Text) × (receive (returned r)
        ≡ thrown (api_client_error status code message))
      × IsCode r body code
      × (((number_is code 401 ≡ true) × (status ≡ integer 401))
          ⊎ ((number_is code 401 ≡ false) × (status ≡ integer r.status)))
unfolding receive settle_read
receive-failed r body readable bad = (
  if number_is (response_code r body) 401 then integer 401 else integer r.status,
  response_code r body,
  failure_message r body,
  rw (readable, settle_read) (settle-failed r body bad),
  response_code-IsCode r body,
  ground arith,
)

-- The one request of a POST that sends `body` as JSON.
abbrev pub posted : Text → Value → Request
posted path body = record {
  method = post;
  path = path;
  params = [];
  headers =
      (codes "accept", codes "application/json")
      ∷ (codes "content-type", codes "application/json")
      ∷ [];
  body = some body;
}
