-- ===== src/Gateway/Router.antt =====
-- backend/src/gateway: the three middleware functions, and their order in `router` of
-- backend/src/app.rs. The routes themselves are the crate `axum`'s; a handler is a function of the
-- headers and of the state behind the gateway.
pub mod Guard
pub mod Spelling
use mathlib.Core.Option.{get_or}
use xend.Common.{ℕ, Bool, true, false, List, Option, none, some, Result, ok, err, if◌then◌else◌}
use xend.Common.Text.{Text, text}
use xend.Error.{AppError, unauthorized, rate_limited}
use xend.Gateway.{Headers}
use xend.Gateway.Auth.{is_authorized}
use xend.Gateway.RateLimit.{RateLimiter, record_request}

abbrev pub Handler : Type 0 → Type 0 → Type 0
Handler S B = Headers → S → Result B AppError × S

-- The caller whose budget a request counts against: the header as it was sent.
abbrev pub caller_of : Headers → Text
caller_of request = get_or request.authorization (text "anonymous")

-- A response with its `x-request-id`, if it has one.
pub record Tagged (A : Type 0) : Type 0 where
  pub request_id : Option Text
  pub response : A

module _ {S B : Type 0} where
  unfoldable pub require_api_key : List Text → Handler S B → Handler S B
  require_api_key keys next request s =
      if is_authorized keys request.authorization then next request s else (err unauthorized, s)

  abbrev after_verdict :
      Result (Unit {0}) ℕ
      → RateLimiter
      → Handler S B
      → Headers
      → S
      → Result B AppError × (RateLimiter × S)
  after_verdict (ok u) limiter next request s = let (r, s') = next request s in (r, (limiter, s'))
  after_verdict (err secs) limiter next request s = (err (rate_limited secs), (limiter, s))

  -- `enforce`, at the time `now`.
  unfoldable pub enforce : ℕ → Handler S B → Handler (RateLimiter × S) B
  enforce now next request (limiter, s) =
      let (verdict, limiter') = record_request limiter (caller_of request) now in
      after_verdict verdict limiter' next request s

  -- The layers of the versioned API: the one added last runs first.
  unfoldable pub api : ℕ → List Text → Handler S B → Handler (RateLimiter × S) B
  unfolding enforce require_api_key
  api now keys handler = enforce now (require_api_key keys handler)

  -- `propagate`: `fresh` is the text of the new uuid, and `is_header_value` is whether
  -- `HeaderValue::from_str` accepts a text.
  unfoldable pub propagate :
      (Text → Bool)
      → Text
      → (Headers → S → Result B AppError × S)
      → Headers
      → S
      → Tagged (Result B AppError) × S
  propagate is_header_value fresh next request s =
      let id = get_or request.x_request_id fresh in
      let (response, s') = next request s in
      (
        record { request_id = if is_header_value id then some id else none; response = response },
        s',
      )
