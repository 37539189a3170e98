-- ===== src/App/Server/Alone.antt =====
-- The server answers a request that runs with no other between as the router does.
use xend.Common.{
  ℕ, ◌≡◌, refl, ap, ◌∙◌, Bool, List, [], ◌∷◌, ◌++◌, some, Result, ok, err, length, inl, inr,
  Bool-cases, Result-cases, map,
}
use xend.Common.Text.{Text}
use xend.Runtime.{World, Host, pure, raise, ◌>>=◌}
use xend.Runtime.Agrees.{Agrees}
use xend.Runtime.Program.{run, interleave}
use xend.Runtime.Program.Turns.{EndsWithin, outcome_at}
use xend.Runtime.Program.Maps.{run-map_program, map-EndsWithin}
use xend.Runtime.Program.Alone.{
  times, advance_times, advance_times-EndedAs, interleave_last, outcome_last,
}
use xend.Chain.Adapter.{ChainAdapter}
use xend.Gateway.{Headers}
use xend.Gateway.Auth.{is_authorized}
use xend.Gateway.RateLimit.{RateLimiter, record_request}
use xend.Gateway.Router.{caller_of, propagate, api}
use xend.Handlers.Requests.{Request, Codecs}
use xend.Handlers.Requests.Awaits.Alone.{run-respond_program}
use xend.Handlers.Requests.Awaits.Ends.{awaits_of, respond-EndsWithin}
use xend.App.{Route, liveness, versioned, Arrival, handler, routes, router}
use xend.App.Server.{
  Event, arrives, continues, System, handler_program, authorized_program, limited_program,
  routes_program, happen, serve_events,
}

-- The most turns that a request of the route needs.
abbrev pub turns_for : Route → ℕ
turns_for liveness = 0
turns_for (versioned r) = awaits_of r

module _ (host : Host) (codecs : Codecs) (chain : ChainAdapter) where
  handler-Agrees :
      (r : Request) (headers : Headers)
      → Agrees (run (handler_program host codecs chain r)) (handler host codecs chain r headers)
  unfolding handler_program handler ◌>>=◌
  handler-Agrees r headers w =
      run-map_program _ _ w ∙ rw (run-respond_program host codecs chain r w) refl

  -- The layers and the handler at once are the layers, and then the program.
  routes-run :
      (now : ℕ) (keys : List Text) (route : Route) (headers : Headers) (limiter : RateLimiter)
      (w : World)
      → let (p, limiter') = routes_program host codecs chain now keys route headers limiter in
        routes host codecs chain now keys route headers (limiter, w)
        ≡ ((run p w).0, (limiter', (run p w).1))
  unfolding routes_program routes api run pure limited_program authorized_program raise
  routes-run now keys liveness headers limiter w = refl
  routes-run now keys (versioned r) headers limiter w =
      elim (Result-cases (record_request limiter (caller_of headers) now).0) [
        | inl (u, within) ↦ elim (Bool-cases (is_authorized keys headers.authorization)) [
          | inl valid ↦ rw (within, valid, handler-Agrees r headers w) refl
          | inr invalid ↦ rw (within, invalid) refl
        ]
        | inr (secs, over) ↦ rw over refl
      ]

  limited-EndsWithin :
      (verdict : Result (Unit {0}) ℕ) (keys : List Text) (r : Request) (headers : Headers)
      → EndsWithin (limited_program host codecs chain verdict keys r headers) (awaits_of r)
  unfolding limited_program authorized_program handler_program
  limited-EndsWithin (ok u) keys r headers =
      elim (Bool-cases (is_authorized keys headers.authorization)) [
        | inl valid ↦
            rw valid (map-EndsWithin _ (awaits_of r) _ (respond-EndsWithin host codecs chain r))
        | inr invalid ↦ rw invalid tt
      ]
  limited-EndsWithin (err secs) keys r headers = tt

  pub routes-EndsWithin :
      (now : ℕ) (keys : List Text) (route : Route) (headers : Headers) (limiter : RateLimiter)
      → EndsWithin
          (routes_program host codecs chain now keys route headers limiter).0
          (turns_for route)
  unfolding routes_program
  routes-EndsWithin now keys liveness headers limiter = tt
  routes-EndsWithin now keys (versioned r) headers limiter =
      limited-EndsWithin (record_request limiter (caller_of headers) now).0 keys r headers

  continue_events :
      (keys : List Text) (schedule : List ℕ) (s : System)
      → let (programs, world) = interleave schedule s.programs s.world in
        serve_events host codecs chain keys (map continues schedule) s
        ≡ record { limiter = s.limiter; world = world; arrivals = s.arrivals; programs = programs }
  unfolding serve_events happen interleave
  continue_events keys [] s = refl
  continue_events keys (i ∷ schedule) s =
      continue_events keys schedule (happen host codecs chain keys (continues i) s)

  -- A request, and then all the turns that it may need.
  abbrev pub uninterrupted : Arrival → System → List Event
  uninterrupted a s = arrives a ∷ map continues (times (turns_for a.route) (length s.programs))

  -- What they leave.
  abbrev after_turns : List Text → Arrival → System → System
  after_turns keys a s =
      let (p, limiter) = routes_program host codecs chain a.now keys a.route a.headers s.limiter in
      record {
        limiter = limiter;
        world = (advance_times (turns_for a.route) p s.world).1;
        arrivals = s.arrivals ++ a ∷ [];
        programs = s.programs ++ (advance_times (turns_for a.route) p s.world).0 ∷ [];
      }

  uninterrupted-after_turns :
      (keys : List Text) (a : Arrival) (s : System)
      → serve_events host codecs chain keys (uninterrupted a s) s ≡ after_turns keys a s
  unfolding serve_events happen
  uninterrupted-after_turns keys a s =
      let (p, limiter) = routes_program host codecs chain a.now keys a.route a.headers s.limiter in
      continue_events keys (times (turns_for a.route) (length s.programs))
        (happen host codecs chain keys (arrives a) s)
      ∙ ap
          (λ r. record {
            limiter = limiter;
            world = r.1;
            arrivals = s.arrivals ++ a ∷ [];
            programs = r.0;
          })
          (interleave_last (turns_for a.route) s.programs p s.world)

  module _ (is_header_value : Text → Bool) where
    -- From any state of the server, with other requests waiting, a request that gets its turns with
    -- no other between is answered as the router answers it, on every path: refused by the limiter
    -- or for its key, failed or answered. It leaves the limiter and the world that the router leaves.
    pub uninterrupted_lem :
        (keys : List Text) (a : Arrival) (s : System)
        → let s' = serve_events host codecs chain keys (uninterrupted a s) s in
          let (tagged, after) =
            router host codecs chain is_header_value keys a (s.limiter, s.world) in
          (outcome_at (length s.programs) s'.programs ≡ some tagged.response)
          × (s'.limiter ≡ after.0)
          × (s'.world ≡ after.1)
    unfolding router propagate
    uninterrupted_lem keys a s =
        let (p, limiter) =
          routes_program host codecs chain a.now keys a.route a.headers s.limiter in
        let (answered, left) =
          advance_times-EndedAs (turns_for a.route) p s.world
            (routes-EndsWithin a.now keys a.route a.headers s.limiter) in
        rw
          (
            uninterrupted-after_turns keys a s,
            routes-run a.now keys a.route a.headers s.limiter s.world,
          )
          (outcome_last s.programs _ ∙ answered, refl, left)
