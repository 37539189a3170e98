-- ===== src/App/Server/Phases.antt =====
-- The idempotency keys while a server runs.
use xend.Common.{refl, ap, List}
use xend.Common.Text.{Text}
use xend.Runtime.{World, Host}
use xend.Store.{Db}
use xend.Store.Phases.{phase_of, ◌⟶?◌, unchanged, Step-⟶?}
use xend.Chain.Adapter.{ChainAdapter}
use xend.Chain.Adapter.Laws.{LeavesTables}
use xend.Handlers.Requests.{Codecs}
use xend.App.{State}
use xend.App.Server.{Event, started, happen, serve_events}
use xend.App.Server.Moves.{next_event-Moves}
use xend.App.Server.Statements.{handler-EachMoves}

-- The key makes at most one move.
abbrev OneMove : Text → World → World → Type 0
OneMove key u v = phase_of key u.db ⟶? phase_of key v.db

-- At any moment of a server, the next event takes an idempotency key along at most one arrow of the
-- diagram: from unknown to claimed, from claimed to recorded with a signature, or from one signature
-- to another. So no event takes a key back, and none gives an unknown key a signature: its claim is
-- an earlier event. This holds whatever requests came before, in whatever order their awaits came, and
-- where they fail at any point, database faults included; the adapter leaves the tables.
pub server_phases :
    (host : Host) (codecs : Codecs) (chain : ChainAdapter) (keys : List Text) (events : List Event)
    (e : Event) (s : State) (key : Text)
    → LeavesTables chain
    → let s' = serve_events host codecs chain keys events (started s) in
      phase_of key s'.world.db ⟶? phase_of key (happen host codecs chain keys e s').world.db
server_phases host codecs chain keys events e s key law =
    next_event-Moves host codecs chain (OneMove key) (λ w. unchanged key w.db w.db refl)
      (handler-EachMoves host codecs chain law (OneMove key)
        (λ u v same. unchanged key u.db v.db (ap (λ (d : Db). d.transactions) same))
        (λ u v step. Step-⟶? key step))
      keys events e s
