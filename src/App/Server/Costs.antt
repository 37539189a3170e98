-- ===== src/App/Server/Costs.antt =====
-- How many transactions a server sends, where that depends on an invariant of the world.
use xend.Common.{ℕ, ◌+◌, ◌≤◌, List, [], ◌∷◌, All, Result, ok, err, Bool-cases, inl, inr, arith}
use xend.Common.Text.{Text}
use xend.Runtime.{World, Host}
use xend.Runtime.Sends.{sends}
use xend.Runtime.Program.Costs.{Costs, AllCost, turn-AllCost, append-AllCost}
use xend.Chain.Adapter.{ChainAdapter}
use xend.Gateway.Auth.{is_authorized}
use xend.Gateway.RateLimit.{RateLimiter, record_request}
use xend.Gateway.Router.{caller_of}
use xend.Handlers.Requests.{Request, Codecs}
use xend.App.{Route, liveness, versioned, Answer, alive, health, Arrival}
use xend.App.Server.{
  Event, arrives, continues, System, arrivals_in, handler_program, authorized_program,
  limited_program, routes_program, happen, serve_events,
}

-- What the arrivals may send together.
abbrev pub allowance : (Arrival → ℕ) → List Arrival → ℕ
allowance price [] = 0
allowance price (a ∷ rest) = price a + allowance price rest

module _ (host : Host) (codecs : Codecs) (chain : ChainAdapter) (I : World → Type 0)
    (Q : Arrival → Answer → Type 0) (price : Arrival → ℕ) where
  limited-Costs :
      (a : Arrival) (verdict : Result (Unit {0}) ℕ) (keys : List Text) (r : Request)
      → Costs I (Q a) (handler_program host codecs chain r) (price a)
      → Costs I (Q a) (limited_program host codecs chain verdict keys r a.headers) (price a)
  unfolding limited_program authorized_program
  limited-Costs a (ok u) keys r h = elim (Bool-cases (is_authorized keys a.headers.authorization)) [
    | inl valid ↦ rw valid h
    | inr invalid ↦ rw invalid tt
  ]
  limited-Costs a (err secs) keys r h = tt

  -- The program of the route's handler.
  abbrev pub Prices : Arrival → Route → Type 0
  Prices a liveness = Q a (alive health)
  Prices a (versioned r) = Costs I (Q a) (handler_program host codecs chain r) (price a)

  routes-Costs :
      (a : Arrival) (route : Route) (keys : List Text) (limiter : RateLimiter)
      → Prices a route
      → Costs I
          (Q a)
          (routes_program host codecs chain a.now keys route a.headers limiter).0
          (price a)
  unfolding routes_program
  routes-Costs a liveness keys limiter h = h
  routes-Costs a (versioned r) keys limiter h =
      limited-Costs a (record_request limiter (caller_of a.headers) a.now).0 keys r h

  -- From a world with the invariant, the server keeps it, and sends at most what the requests that
  -- wait and those that arrive may send.
  pub serve_events-Costs :
      (keys : List Text) (events : List Event) (n : ℕ) (s : System)
      → All (λ a. Prices a a.route) (arrivals_in events)
      → AllCost I Q s.arrivals s.programs n
      → I s.world
      → let s' = serve_events host codecs chain keys events s in
        (m : ℕ) × AllCost I Q s'.arrivals s'.programs m
        × I s'.world
        × (sends s'.world.sent ≤ n + allowance price (arrivals_in events) + sends s.world.sent)
  unfolding serve_events happen
  serve_events-Costs keys [] n s hs all i = (n, all, i, omega arith)
  serve_events-Costs keys (arrives a ∷ rest) n s (h, hs) all i =
      let (m, all', i', le) =
        serve_events-Costs keys rest (price a + n) (happen host codecs chain keys (arrives a) s) hs
          (append-AllCost I Q (price a) n s.arrivals s.programs a _
            (routes-Costs a a.route keys s.limiter h) all)
          i in
      (m, all', i', omega (arith, le))
  serve_events-Costs keys (continues j ∷ rest) n s hs all i =
      let (cost, left, fits, sent, kept, all₁) =
        turn-AllCost I Q j n s.arrivals s.programs s.world all i in
      let (m, all', i', le) =
        serve_events-Costs keys rest left (happen host codecs chain keys (continues j) s) hs all₁
          kept in
      (m, all', i', omega (arith, fits, sent, le))
