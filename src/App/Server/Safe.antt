-- ===== src/App/Server/Safe.antt =====
-- What holds of the world whenever a request waits, and what the requests are answered, along any
-- events.
use xend.Common.{ℕ, List, [], ◌∷◌, All, Result, ok, err, Bool-cases, inl, inr}
use xend.Common.Text.{Text}
use xend.Runtime.{World, Host}
use xend.Runtime.Program.Shared.{Safe, AllSafe, turn-AllSafe, AllSafe-append}
use xend.Chain.Adapter.{ChainAdapter}
use xend.Gateway.Auth.{is_authorized}
use xend.Gateway.RateLimit.{RateLimiter, record_request}
use xend.Gateway.Router.{caller_of}
use xend.Handlers.Requests.{Request, Codecs}
use xend.App.{Route, liveness, versioned, Answer, alive, health, Arrival}
use xend.App.Server.{
  Event, arrives, continues, System, arrivals_in, handler_program, authorized_program,
  limited_program, routes_program, happen, serve_events,
}

module _ (host : Host) (codecs : Codecs) (chain : ChainAdapter) (I : World → Type 0)
    (Q : Arrival → Answer → Type 0) where
  limited-Safe :
      (a : Arrival) (verdict : Result (Unit {0}) ℕ) (keys : List Text) (r : Request)
      → Safe I (Q a) (handler_program host codecs chain r)
      → Safe I (Q a) (limited_program host codecs chain verdict keys r a.headers)
  unfolding limited_program authorized_program
  limited-Safe a (ok u) keys r h = elim (Bool-cases (is_authorized keys a.headers.authorization)) [
    | inl valid ↦ rw valid h
    | inr invalid ↦ rw invalid tt
  ]
  limited-Safe a (err secs) keys r h = tt

  -- The program of the route's handler.
  abbrev pub Handles : Arrival → Route → Type 0
  Handles a liveness = Q a (alive health)
  Handles a (versioned r) = Safe I (Q a) (handler_program host codecs chain r)

  routes-Safe :
      (a : Arrival) (route : Route) (keys : List Text) (limiter : RateLimiter)
      → Handles a route
      → Safe I (Q a) (routes_program host codecs chain a.now keys route a.headers limiter).0
  unfolding routes_program
  routes-Safe a liveness keys limiter h = h
  routes-Safe a (versioned r) keys limiter h =
      limited-Safe a (record_request limiter (caller_of a.headers) a.now).0 keys r h

  pub happen-Safe :
      (keys : List Text) (e : Event) (rest : List Event) (s : System)
      → All (λ a. Handles a a.route) (arrivals_in (e ∷ rest))
      → AllSafe I Q s.arrivals s.programs
      → I s.world
      → let s' = happen host codecs chain keys e s in
        AllSafe I Q s'.arrivals s'.programs
        × I s'.world
        × All (λ a. Handles a a.route) (arrivals_in rest)
  unfolding happen
  happen-Safe keys (arrives a) rest s (h, hs) safe i = (
    AllSafe-append I Q s.arrivals s.programs a _ safe (routes-Safe a a.route keys s.limiter h),
    i,
    hs,
  )
  happen-Safe keys (continues n) rest s hs safe i =
      let (safe', i') = turn-AllSafe I Q n s.arrivals s.programs s.world safe i in (safe', i', hs)

  pub serve_events-Safe :
      (keys : List Text) (events : List Event) (s : System)
      → All (λ a. Handles a a.route) (arrivals_in events)
      → AllSafe I Q s.arrivals s.programs
      → I s.world
      → let s' = serve_events host codecs chain keys events s in
        AllSafe I Q s'.arrivals s'.programs × I s'.world
  unfolding serve_events
  serve_events-Safe keys [] s hs safe i = (safe, i)
  serve_events-Safe keys (e ∷ rest) s hs safe i =
      let (safe', i', hs') = happen-Safe keys e rest s hs safe i in
      serve_events-Safe keys rest (happen host codecs chain keys e s) hs' safe' i'
