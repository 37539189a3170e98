-- ===== src/App/Ledger.antt =====
-- The ledger under all requests that a process answers.
use xend.Common.{ℕ, Bool, List, [], ◌∷◌, inl, inr, Result-cases, Bool-cases}
use xend.Common.Text.{Text}
use xend.Runtime.{Host}
use xend.Runtime.Moves.{Moves, Moves-bind, Moves-pure}
use xend.Store.Ledger.{IsLedger}
use xend.Store.Steps.{Steps, done, Steps-trans, Steps-IsLedger}
use xend.Chain.Adapter.{ChainAdapter}
use xend.Chain.Adapter.Laws.{LeavesTables}
use xend.Gateway.{Headers}
use xend.Gateway.Auth.{is_authorized}
use xend.Gateway.RateLimit.{record_request}
use xend.Gateway.Router.{api, propagate, caller_of}
use xend.Handlers.Requests.{Request, Codecs, respond-Runs}
use xend.Handlers.Statements.{RunsStatements, runs_preorder}
use xend.App.{Route, Arrival, State, liveness, versioned, handler, routes, router, serve_arrivals}

module _ (host : Host) (codecs : Codecs) (chain : ChainAdapter) (law : LeavesTables chain) where
  handler-Runs :
      (r : Request) (headers : Headers) → Moves RunsStatements (handler host codecs chain r headers)
  unfolding handler
  handler-Runs r headers =
      Moves-bind runs_preorder _ _ (respond-Runs host codecs chain law r)
        λ response. Moves-pure runs_preorder _

  routes-Steps :
      (now : ℕ) (keys : List Text) (route : Route) (headers : Headers) (s : State)
      → Steps s.1.db (routes host codecs chain now keys route headers s).1.1.db
  unfolding routes api
  routes-Steps now keys liveness headers s = done
  routes-Steps now keys (versioned r) headers s =
      elim (Result-cases (record_request s.0 (caller_of headers) now).0) [
        | inl (u, within) ↦ elim (Bool-cases (is_authorized keys headers.authorization)) [
          | inl valid ↦ rw (within, valid) ((handler-Runs r headers).at s.1)
          | inr invalid ↦ rw (within, invalid) done
        ]
        | inr (secs, over) ↦ rw over done
      ]

  serve_arrivals-Steps :
      (is_header_value : Text → Bool) (keys : List Text) (arrivals : List Arrival) (s : State)
      → Steps s.1.db (serve_arrivals host codecs chain is_header_value keys arrivals s).1.db
  unfolding serve_arrivals router propagate
  serve_arrivals-Steps is_header_value keys [] s = done
  serve_arrivals-Steps is_header_value keys (a ∷ rest) s =
      Steps-trans (routes-Steps a.now keys a.route a.headers s) (
        serve_arrivals-Steps is_header_value keys rest
          (router host codecs chain is_header_value keys a s).1)

  -- Whatever requests a process answers, through the whole router, they leave a ledger from a ledger:
  -- one row for each idempotency key, at most one row for each signature, one wallet for each public
  -- key, and no transaction of an unknown wallet. The requests may be refused or fail at any point,
  -- database faults included; the adapter leaves the tables.
  serve_arrivals-IsLedger :
      (is_header_value : Text → Bool) (keys : List Text) (arrivals : List Arrival) (s : State)
      → IsLedger s.1.db
      → IsLedger (serve_arrivals host codecs chain is_header_value keys arrivals s).1.db
  serve_arrivals-IsLedger is_header_value keys arrivals s l =
      Steps-IsLedger (serve_arrivals-Steps is_header_value keys arrivals s) l
