-- ===== src/Tests/App.antt =====
-- Runs of the whole router, from the start of a process.
use xend.Common.{ℕ, ◌≡◌, ◌⊎◌, ◌*◌, refl, List, [], ◌∷◌, none, some, err, true, false, if◌then◌else◌}
use xend.Common.Text.{Text, text, text_eq}
use xend.Error.{unauthorized, rate_limited}
use xend.Gateway.{Headers}
use xend.Gateway.Auth.{is_authorized}
use xend.Gateway.RateLimit.{new, nanos}
use xend.Handlers.Requests.{Codecs, submits}
use xend.Startup.{Environment}
use xend.App.{Arrival, State, versioned, router}
use xend.App.Guard.{router_unauthorized}
use xend.Tests.{host, base64, base58, rfc3339, chain, start, request}

abbrev pub codecs : Codecs
codecs = record { base64 = base64; base58 = base58; rfc3339 = rfc3339 }

abbrev pub headers : Headers
headers = record { authorization = none; x_request_id = some (text "r1") }

abbrev pub arrival : Arrival
arrival = record {
  route = versioned (submits request);
  headers = headers;
  now = 5;
  fresh = text "u";
}

abbrev keys : List Text
keys = text "k" ∷ []

abbrev pub state : State
state = (new 120 (60 * nanos), start)

no_key : is_authorized keys headers.authorization ≡ false
unfolding is_authorized
no_key = refl

router_unauthorized_example :
    ((router host codecs chain (λ t. true) keys arrival state).1.1 ≡ start)
    × (((router host codecs chain (λ t. true) keys arrival state).0.response ≡ err unauthorized)
        ⊎ ((secs : ℕ) × ((router host codecs chain (λ t. true) keys arrival state).0.response
              ≡ err (rate_limited secs))))
router_unauthorized_example =
    router_unauthorized host codecs chain (λ t. true) keys (submits request) headers 5 (text "u")
      state no_key

-- `XEND_PAYMASTER_SECRET` is what the key generator printed for the key `k`.
abbrev pub env : Environment
env = record {
  var = λ name. if text_eq name (text "XEND_PAYMASTER_SECRET") then some (text "k") else none;
}
