-- ===== src/App/Server/Replays/Events.antt =====
-- Any events on a server whose tables have the signature of a key.
use xend.Common.{◌+◌, ◌≤◌, ◌≡◌, refl, sym, ◌∙◌, List, [], ◌∷◌, All, some, arith}
use xend.Common.Text.{Text}
use mathlib.Core.Path.{subst}
use xend.Runtime.{Host}
use xend.Runtime.Sends.{sends}
use xend.Runtime.Program.Costs.{Costs, AllCost-AllAnswered}
use xend.Store.{Transaction}
use xend.Store.Transactions.{select_by_key}
use xend.Chain.Adapter.{ChainAdapter}
use xend.Chain.Adapter.Laws.{LeavesTables, SendsOnBroadcast}
use xend.Handlers.Requests.{submitted, Codecs}
use xend.App.{Route, liveness, versioned, responds, Arrival, State}
use xend.App.Server.{Event, started, handler_program, serve_events, arrivals_in}
use xend.App.Server.Answers.{answers_to, answers_to-All}
use xend.App.Server.Costs.{Prices, serve_events-Costs}
use xend.App.Server.Replays.{RowStays, Told, IsRecalled, recalled, route_price, others}
use xend.App.Server.Replays.Requests.{request-Costs}

module _ (key signature : Text) (row : Transaction) (is_signed : row.signature ≡ some signature)
    (host : Host) (codecs : Codecs) (chain : ChainAdapter) (law : LeavesTables chain)
    (sending : SendsOnBroadcast chain) where
  abbrev Priced : Arrival → Route → Type 0
  Priced a route =
      Prices host codecs chain (RowStays key row) (Told key signature row)
        (λ a. route_price key a.route) a route

  route-Priced : (a : Arrival) (route : Route) → a.route ≡ route → Priced a route
  route-Priced a liveness e = λ req e' k. absurd (ground (arith, sym e ∙ e'))
  route-Priced a (versioned r) e =
      subst
        (λ route.
          Costs (RowStays key row) (Told key signature row a) (handler_program host codecs chain r)
            (route_price key route))
        (sym e) (request-Costs key signature row is_signed host codecs chain law sending a r e)

  each-Priced : (arrivals : List Arrival) → All (λ a. Priced a a.route) arrivals
  each-Priced [] = tt
  each-Priced (a ∷ rest) = (route-Priced a a.route refl, each-Priced rest)

  -- A server that starts on tables with a signature for a key answers each submission of the key that
  -- does not fail with this signature and the status of its row. The row stays as it is, and the
  -- server sends at most one transaction for each submission of another key, and none for the
  -- submissions of this one. So it goes however the awaits of any requests are interleaved, with
  -- refusals and database faults, also where no submission of the key is answered, and at every
  -- moment; the adapter leaves the tables and sends only on a broadcast.
  pub server_replays :
      (keys : List Text) (events : List Event) (s : State)
      → select_by_key key s.1.db.transactions ≡ some row
      → let s' = serve_events host codecs chain keys events (started s) in
        All
          (λ answer. answer ≡ responds (submitted (recalled signature row.status)))
          (answers_to key s'.arrivals s'.programs)
        × (select_by_key key s'.world.db.transactions ≡ some row)
        × (sends s'.world.sent ≤ others key (arrivals_in events) + sends s.1.sent)
  server_replays keys events s stored =
      let s' = serve_events host codecs chain keys events (started s) in
      let (n, all, stays, le) =
        serve_events-Costs host codecs chain (RowStays key row) (Told key signature row)
          (λ a. route_price key a.route) keys events 0 (started s)
          (each-Priced (arrivals_in events)) tt stored in
      (
        answers_to-All key (IsRecalled signature row) s'.arrivals s'.programs (
            AllCost-AllAnswered (RowStays key row) (Told key signature row) n s'.arrivals
              s'.programs all),
        stays,
        omega (arith, le),
      )
