-- ===== src/Js/Outcome.antt =====
-- What a call ends in, and asynchronous code in direct style: a call takes the world it runs in
-- (the server, the files, the clock) and gives back its outcome with the world it leaves.
use danmaku.Js.Text.{Text}
use danmaku.Js.Number.{Number}

-- A thrown value: an instance of Error with its message, among them the subclass ApiClientError
-- of frontend/src/api/client.ts with its status and code, or anything else.
pub data Thrown : Type 0 where
  error : Text → Thrown
  api_client_error : (status code : Number) → Text → Thrown
  other : Thrown

pub data Outcome {ℓ} (A : Type ℓ) : Type ℓ where
  returned : A → Outcome A
  thrown : Thrown → Outcome A

-- error instanceof Error ? error.message : fallback
abbrev pub message_or : Text → Thrown → Text
message_or fallback (error m) = m
message_or fallback (api_client_error status code m) = m
message_or fallback other = fallback

abbrev pub Async : Type 0 → Type 0 → Type 0
Async W A = W → Outcome A × W

module _ {W A B : Type 0} where
  abbrev pub continue : Outcome A → (A → Async W B) → Async W B
  continue (returned a) f w = f a w
  continue (thrown e) f w = (thrown e, w)

  infixl 5 ◌>>=◌
  abbrev pub ◌>>=◌ : Async W A → (A → Async W B) → Async W B
  ◌>>=◌ m f w = let (o, w') = m w in continue o f w'

module _ {W A : Type 0} where
  abbrev pub pure : A → Async W A
  pure a w = (returned a, w)

  abbrev pub throw : Thrown → Async W A
  throw e w = (thrown e, w)
