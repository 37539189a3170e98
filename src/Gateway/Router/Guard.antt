-- ===== src/Gateway/Router/Guard.antt =====
-- What the gateway lets reach a handler.
use xend.Common.{ℕ, ◌≡◌, ◌⊎◌, inl, inr, refl, true, false, List, ok, err, arith, Result-cases}
use xend.Common.Text.{Text}
use xend.Error.{unauthorized, rate_limited}
use xend.Gateway.{Headers}
use xend.Gateway.Auth.{is_authorized}
use xend.Gateway.RateLimit.{RateLimiter, record_request}
use xend.Gateway.Router.{Handler, caller_of, api}

module _ {S B : Type 0} (now : ℕ) (keys : List Text) (handler : Handler S B)
    (request : Headers) where
  -- A request without a valid key never reaches the handler: the state behind the gateway stays, and
  -- the answer is 401, or 429 for a caller over its budget.
  pub api_unauthorized :
      (limiter : RateLimiter) (s : S)
      → is_authorized keys request.authorization ≡ false
      → ((api now keys handler request (limiter, s)).1.1 ≡ s)
        × (((api now keys handler request (limiter, s)).0 ≡ err unauthorized)
            ⊎ ((secs : ℕ) × ((api now keys handler request (limiter, s)).0
                  ≡ err (rate_limited secs))))
  unfolding api
  api_unauthorized limiter s h =
      elim (Result-cases (record_request limiter (caller_of request) now).0) [
        | inl (u, within) ↦ rw (within, h) (refl, inl refl)
        | inr (secs, over) ↦ rw over (refl, inr (secs, refl))
      ]

  -- An answer other than an error comes from the handler, for a caller within its budget and with a
  -- valid key.
  api-eq-ok :
      (limiter : RateLimiter) (s : S) (b : B)
      → (api now keys handler request (limiter, s)).0 ≡ ok b
      → (is_authorized keys request.authorization ≡ true)
        × ((record_request limiter (caller_of request) now).0 ≡ ok tt)
        × ((handler request s).0 ≡ ok b)
        × ((api now keys handler request (limiter, s)).1.1 ≡ (handler request s).1)
  unfolding api
  api-eq-ok limiter s b e = ground arith
