-- ===== src/App.antt =====
-- backend/src/app.rs: the router with its routes and its layers, and backend/src/handlers/health.rs.
-- The matching of paths to routes is the crate `axum`'s.
pub mod Budget
pub mod Guard
pub mod Ledger
pub mod Server
use xend.Common.{ℕ, Bool, List, [], ◌∷◌, Result, ok}
use xend.Common.Text.{Text, text}
use xend.Runtime.{World, Host, M, pure, ◌>>=◌}
use xend.Error.{AppError}
use xend.Chain.Adapter.{ChainAdapter}
use xend.Gateway.{Headers}
use xend.Gateway.RateLimit.{RateLimiter}
use xend.Gateway.Router.{Handler, Tagged, api, propagate}
use xend.Handlers.Requests.{Request, Response, Codecs, respond}
use xend.Startup.{Gateway}

pub data Route : Type 0 where
  -- `/health`, and a route under `/v1`.
  liveness : Route
  versioned : Request → Route

pub data Answer : Type 0 where
  alive : Text → Answer
  responds : Response → Answer

abbrev pub health : Text
health = text "ok"

-- The state of the process: the limiter, and the world of the handlers.
abbrev pub State : Type 0
State = RateLimiter × World

-- A request as it comes in: the route, the headers, the time of the limiter's clock, and the uuid
-- that it gets where it has no id.
pub record Arrival : Type 0 where
  pub route : Route
  pub headers : Headers
  pub now : ℕ
  pub fresh : Text

module _ (host : Host) (codecs : Codecs) (chain : ChainAdapter) where
  unfoldable pub handler : Request → Handler World Answer
  handler r headers = do response ← respond host codecs chain r; pure (responds response)

  unfoldable pub routes : ℕ → List Text → Route → Handler State Answer
  routes now keys liveness headers s = (ok (alive health), s)
  routes now keys (versioned r) headers s = api now keys (handler r) headers s

  module _ (is_header_value : Text → Bool) where
    -- The answer to a request, and the state that it leaves.
    unfoldable pub router : List Text → Arrival → State → Tagged (Result Answer AppError) × State
    unfolding propagate routes
    router keys arrival s =
        propagate is_header_value arrival.fresh (routes arrival.now keys arrival.route)
          arrival.headers s

    -- Requests one after the other, from a state on.
    unfoldable pub serve_arrivals : List Text → List Arrival → State → State
    serve_arrivals keys [] s = s
    serve_arrivals keys (a ∷ rest) s = serve_arrivals keys rest (router keys a s).1

-- The state of a process that starts.
unfoldable pub started_with : Gateway → World → State
started_with gateway w = (gateway.rate_limiter, w)
