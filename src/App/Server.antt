-- ===== src/App/Server.antt =====
-- The server of backend/src/main.rs as it runs: requests arrive while others wait for the database
-- or the network. The layers of backend/src/app.rs run when a request arrives, the limiter behind its
-- lock; what is left of each handler is a program, and its awaits come in any order with those of
-- the other requests.
pub mod Alone
pub mod Ends
pub mod Safe
pub mod Moves
pub mod Statements
pub mod Ledger
pub mod Race
pub mod Phases
pub mod Kinds
pub mod Costs
pub mod Answers
pub mod Tracked
pub mod Completes
pub mod Replays
pub mod Budget
use xend.Common.{ℕ, Bool, List, [], ◌∷◌, ◌++◌, Result, ok, err, if◌then◌else◌}
use xend.Common.Text.{Text}
use xend.Runtime.{World, Host}
use xend.Runtime.Program.{Program, ret, fail, turn, map_program}
use xend.Error.{unauthorized, rate_limited}
use xend.Chain.Adapter.{ChainAdapter}
use xend.Gateway.{Headers}
use xend.Gateway.Auth.{is_authorized}
use xend.Gateway.RateLimit.{RateLimiter, record_request}
use xend.Gateway.Router.{caller_of}
use xend.Handlers.Requests.{Request, Codecs}
use xend.Handlers.Requests.Awaits.{respond_program}
use xend.App.{Route, liveness, versioned, Answer, alive, responds, health, Arrival, State}

-- A new request, or the next await of the request with the given number, which counts the arrivals.
-- The await completes in this event: the time it waits, for a connection of the pool or for the
-- network, lies between the events.
pub data Event : Type 0 where
  arrives : Arrival → Event
  continues : ℕ → Event

-- The limiter and the world are shared. Each request that arrived has what is left of its program;
-- one that has ended stays with its answer.
pub record System : Type 1 where
  pub limiter : RateLimiter
  pub world : World
  pub arrivals : List Arrival
  pub programs : List (Program Answer)

abbrev pub started : State → System
started s = record { limiter = s.0; world = s.1; arrivals = []; programs = [] }

module _ (host : Host) (codecs : Codecs) (chain : ChainAdapter) where
  unfoldable pub handler_program : Request → Program Answer
  handler_program r = map_program responds (respond_program host codecs chain r)

  -- `require_api_key`.
  unfoldable pub authorized_program : List Text → Request → Headers → Program Answer
  authorized_program keys r headers =
      if is_authorized keys headers.authorization then handler_program r else fail unauthorized

  -- `enforce`, after the limiter.
  unfoldable pub limited_program :
      Result (Unit {0}) ℕ → List Text → Request → Headers → Program Answer
  limited_program (ok u) keys r headers = authorized_program keys r headers
  limited_program (err secs) keys r headers = fail (rate_limited secs)

  unfoldable pub routes_program :
      ℕ → List Text → Route → Headers → RateLimiter → Program Answer × RateLimiter
  routes_program now keys liveness headers limiter = (ret (alive health), limiter)
  routes_program now keys (versioned r) headers limiter =
      let (verdict, limiter') = record_request limiter (caller_of headers) now in
      (limited_program verdict keys r headers, limiter')

  unfoldable pub happen : List Text → Event → System → System
  happen keys (arrives a) s =
      let (p, limiter) = routes_program a.now keys a.route a.headers s.limiter in
      record {
        limiter = limiter;
        world = s.world;
        arrivals = s.arrivals ++ a ∷ [];
        programs = s.programs ++ p ∷ [];
      }
  happen keys (continues i) s =
      let (programs, world) = turn i s.programs s.world in
      record { limiter = s.limiter; world = world; arrivals = s.arrivals; programs = programs }

  unfoldable pub serve_events : List Text → List Event → System → System
  serve_events keys [] s = s
  serve_events keys (e ∷ rest) s = serve_events keys rest (happen keys e s)

-- The requests of a run, and how often one gets its turn.
abbrev pub arrived : Event → List Arrival → List Arrival
arrived (arrives a) rest = a ∷ rest
arrived (continues i) rest = rest

abbrev pub arrivals_in : List Event → List Arrival
arrivals_in [] = []
arrivals_in (e ∷ rest) = arrived e (arrivals_in rest)
