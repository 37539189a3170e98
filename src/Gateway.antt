-- ===== src/Gateway.antt =====
-- backend/src/gateway: the middleware in front of the handlers, and its order in backend/src/app.rs.
pub mod Auth
pub mod RateLimit
pub mod Router
use xend.Common.{ℕ, Option}
use xend.Common.Text.{Text}

-- What the middleware reads of a request: the headers `authorization` and `x-request-id`, each if it
-- is there and `to_str` accepts it.
pub record Headers : Type 0 where
  pub authorization : Option Text
  pub x_request_id : Option Text
