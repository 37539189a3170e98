-- ===== src/App/Guard.antt =====
-- What reaches the handlers through the whole router.
use xend.Common.{ℕ, ◌≡◌, ◌⊎◌, Bool, false, List, err}
use xend.Common.Text.{Text}
use xend.Runtime.{Host}
use xend.Error.{unauthorized, rate_limited}
use xend.Chain.Adapter.{ChainAdapter}
use xend.Gateway.{Headers}
use xend.Gateway.Auth.{is_authorized}
use xend.Gateway.Router.{propagate}
use xend.Gateway.Router.Guard.{api_unauthorized}
use xend.Handlers.Requests.{Request, Codecs}
use xend.App.{State, versioned, handler, router, routes}

module _ (host : Host) (codecs : Codecs) (chain : ChainAdapter)
    (is_header_value : Text → Bool) where
  -- A request under `/v1` without a valid key, where keys are configured, does nothing behind the
  -- gateway: the tables and the network are as before. It is answered 401, or 429 for a caller over
  -- its budget.
  pub router_unauthorized :
      (keys : List Text) (r : Request) (headers : Headers) (now : ℕ) (fresh : Text) (s : State)
      → is_authorized keys headers.authorization ≡ false
      → let (tagged, s') =
          router host codecs chain is_header_value keys
            (record { route = versioned r; headers = headers; now = now; fresh = fresh })
            s in
        (s'.1 ≡ s.1)
        × ((tagged.response ≡ err unauthorized)
            ⊎ ((secs : ℕ) × (tagged.response ≡ err (rate_limited secs))))
  unfolding router propagate routes
  router_unauthorized keys r headers now fresh s h =
      api_unauthorized now keys (handler host codecs chain r) headers s.0 s.1 h
