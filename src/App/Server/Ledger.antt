-- ===== src/App/Server/Ledger.antt =====
-- The ledger under requests whose awaits come in any order.
use mathlib.Core.Path.{subst}
use xend.Common.{◌≡◌, sym, List, []}
use xend.Common.Text.{Text}
use xend.Runtime.{Host}
use xend.Runtime.Program.Awaits.{EachMoves}
use xend.Store.{Db}
use xend.Store.Ledger.{IsLedger}
use xend.Store.Steps.{Steps, done, one_more, Steps-IsLedger}
use xend.Chain.Adapter.{ChainAdapter}
use xend.Chain.Adapter.Laws.{LeavesTables}
use xend.Handlers.Statements.{RunsStatements, runs_preorder}
use xend.Handlers.Requests.{Request, Codecs}
use xend.App.{State}
use xend.App.Server.{Event, started, handler_program, serve_events}
use xend.App.Server.Moves.{serve_events-Moves}
use xend.App.Server.Statements.{handler-EachMoves}

no_step : (a b : Db) → b ≡ a → Steps a b
no_step a b e = subst (Steps a) (sym e) done

module _ (host : Host) (codecs : Codecs) (chain : ChainAdapter) (law : LeavesTables chain) where
  each_runs : (r : Request) → EachMoves RunsStatements (handler_program host codecs chain r)
  each_runs =
      handler-EachMoves host codecs chain law RunsStatements (λ u v e. no_step u.db v.db e)
        (λ u v s. one_more done s)

  -- From any moment to any later one, the tables change by statements of the store.
  pub serve_events-Steps :
      (keys : List Text) (before after : List Event) (s : State)
      → let middle = serve_events host codecs chain keys before (started s) in
        Steps middle.world.db (serve_events host codecs chain keys after middle).world.db
  serve_events-Steps keys before after s =
      serve_events-Moves host codecs chain RunsStatements runs_preorder.reflexive each_runs
        runs_preorder.transitive keys before after s

  -- Whatever requests a server answers at the same time, in whatever order their awaits come, it
  -- leaves a ledger from a ledger at every moment: one row for each idempotency key, at most one row
  -- for each signature, one wallet for each public key, and no transaction of an unknown wallet. The
  -- requests may be refused or fail at any point, database faults included; the adapter leaves the
  -- tables.
  pub serve_events-IsLedger :
      (keys : List Text) (events : List Event) (s : State)
      → IsLedger s.1.db
      → IsLedger (serve_events host codecs chain keys events (started s)).world.db
  unfolding serve_events
  serve_events-IsLedger keys events s l = Steps-IsLedger (serve_events-Steps keys [] events s) l
