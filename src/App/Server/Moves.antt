-- ===== src/App/Server/Moves.antt =====
-- A relation that holds along each await of each handler holds from any moment of a server to any
-- later one.
use xend.Common.{ℕ, List, [], ◌∷◌, ◌++◌, All, Result, ok, err, Bool-cases, inl, inr}
use xend.Common.Text.{Text}
use xend.Runtime.{World, Host}
use xend.Runtime.Program.Awaits.{EachMoves, turn-EachMoves}
use xend.Chain.Adapter.{ChainAdapter}
use xend.Gateway.{Headers}
use xend.Gateway.Auth.{is_authorized}
use xend.Gateway.RateLimit.{RateLimiter, record_request}
use xend.Gateway.Router.{caller_of}
use xend.Handlers.Requests.{Request, Codecs}
use xend.App.{Route, liveness, versioned, State}
use xend.App.Server.{
  Event, arrives, continues, System, started, handler_program, authorized_program, limited_program,
  routes_program, happen, serve_events,
}

All-snoc :
    {A : Type 1} (P : A → Type 0) (xs : List A) (x : A) → All P xs → P x → All P (xs ++ x ∷ [])
All-snoc P [] x h p = (p, tt)
All-snoc P (y ∷ xs) x (q, h) p = (q, All-snoc P xs x h p)

module _ (host : Host) (codecs : Codecs) (chain : ChainAdapter) (R : World → World → Type 0)
    (reflexive : (w : World) → R w w)
    (each : (r : Request) → EachMoves R (handler_program host codecs chain r)) where
  limited-EachMoves :
      (verdict : Result (Unit {0}) ℕ) (keys : List Text) (r : Request) (headers : Headers)
      → EachMoves R (limited_program host codecs chain verdict keys r headers)
  unfolding limited_program authorized_program
  limited-EachMoves (ok u) keys r headers =
      elim (Bool-cases (is_authorized keys headers.authorization)) [
        | inl valid ↦ rw valid (each r)
        | inr invalid ↦ rw invalid tt
      ]
  limited-EachMoves (err secs) keys r headers = tt

  routes-EachMoves :
      (now : ℕ) (keys : List Text) (route : Route) (headers : Headers) (limiter : RateLimiter)
      → EachMoves R (routes_program host codecs chain now keys route headers limiter).0
  unfolding routes_program
  routes-EachMoves now keys liveness headers limiter = tt
  routes-EachMoves now keys (versioned r) headers limiter =
      limited-EachMoves (record_request limiter (caller_of headers) now).0 keys r headers

  happen-EachMoves :
      (keys : List Text) (e : Event) (s : System)
      → All (EachMoves R) s.programs
      → let s' = happen host codecs chain keys e s in
        All (EachMoves R) s'.programs × R s.world s'.world
  unfolding happen
  happen-EachMoves keys (arrives a) s h = (
    All-snoc (EachMoves R) s.programs _ h (routes-EachMoves a.now keys a.route a.headers s.limiter),
    reflexive s.world,
  )
  happen-EachMoves keys (continues i) s h = turn-EachMoves R reflexive i s.programs s.world h

  serve_events-EachMoves :
      (keys : List Text) (events : List Event) (s : System)
      → All (EachMoves R) s.programs
      → All (EachMoves R) (serve_events host codecs chain keys events s).programs
  unfolding serve_events
  serve_events-EachMoves keys [] s h = h
  serve_events-EachMoves keys (e ∷ rest) s h =
      serve_events-EachMoves keys rest (happen host codecs chain keys e s)
        (happen-EachMoves keys e s h).0

  -- One event, at any moment of a server.
  pub next_event-Moves :
      (keys : List Text) (events : List Event) (e : Event) (s : State)
      → let s' = serve_events host codecs chain keys events (started s) in
        R s'.world (happen host codecs chain keys e s').world
  next_event-Moves keys events e s =
      let s' = serve_events host codecs chain keys events (started s) in
      (happen-EachMoves keys e s' (serve_events-EachMoves keys events (started s) tt)).1

  module _ (transitive : (u v w : World) → R u v → R v w → R u w) where
    serve_events-related :
        (keys : List Text) (events : List Event) (s : System)
        → All (EachMoves R) s.programs
        → R s.world (serve_events host codecs chain keys events s).world
    unfolding serve_events
    serve_events-related keys [] s h = reflexive s.world
    serve_events-related keys (e ∷ rest) s h =
        let s' = happen host codecs chain keys e s in
        let (h', moves) = happen-EachMoves keys e s h in
        transitive s.world s'.world (serve_events host codecs chain keys rest s').world moves
          (serve_events-related keys rest s' h')

    pub serve_events-Moves :
        (keys : List Text) (before after : List Event) (s : State)
        → let middle = serve_events host codecs chain keys before (started s) in
          R middle.world (serve_events host codecs chain keys after middle).world
    serve_events-Moves keys before after s =
        serve_events-related keys after (serve_events host codecs chain keys before (started s))
          (serve_events-EachMoves keys before (started s) tt)
