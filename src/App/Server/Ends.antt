-- ===== src/App/Server/Ends.antt =====
-- Each request that gets its turns ends.
use xend.Common.{
  ℕ, zero, suc, ◌+◌, ◌-◌, ◌≤◌, ◌≡◌, List, [], ◌∷◌, ◌++◌, some, Result, arith, ◌==◌, if◌then◌else◌,
  length,
}
use mathlib.Core.Path.{subst}
use xend.Common.Text.{Text}
use xend.Error.{AppError}
use xend.Runtime.{Host}
use xend.Runtime.Program.{Program}
use xend.Runtime.Program.Turns.{EndsWithin, EndsAt, turn-EndsAt, ended, outcome_at}
use xend.Chain.Adapter.{ChainAdapter}
use xend.Handlers.Requests.{Codecs}
use xend.App.{Answer, Arrival}
use xend.App.Server.{Event, arrives, continues, System, routes_program, happen, serve_events}
use xend.App.Server.Alone.{turns_for, routes-EndsWithin}

abbrev count_turn : ℕ → Event → ℕ
count_turn i (arrives a) = 0
count_turn i (continues j) = if j == i then 1 else 0

-- How often the request with the given number gets its turn.
abbrev pub turns_in : ℕ → List Event → ℕ
turns_in i [] = 0
turns_in i (e ∷ rest) = count_turn i e + turns_in i rest

module _ {A : Type 0} where
  EndsAt-append : (n i : ℕ) (ps qs : List (Program A)) → EndsAt n i ps → EndsAt n i (ps ++ qs)
  EndsAt-append n i [] qs h = absurd h
  EndsAt-append n zero (p ∷ ps) qs h = h
  EndsAt-append n (suc i) (p ∷ ps) qs h = EndsAt-append n i ps qs h

  EndsAt-last :
      (n : ℕ) (ps : List (Program A)) (p : Program A)
      → EndsWithin p n
      → EndsAt n (length ps) (ps ++ p ∷ [])
  EndsAt-last n [] p h = h
  EndsAt-last n (q ∷ ps) p h = EndsAt-last n ps p h

module _ (host : Host) (codecs : Codecs) (chain : ChainAdapter) (keys : List Text) where
  happen-EndsAt :
      (n i : ℕ) (e : Event) (s : System)
      → EndsAt n i s.programs
      → EndsAt (n - count_turn i e) i (happen host codecs chain keys e s).programs
  unfolding happen
  happen-EndsAt n i (arrives a) s h =
      subst
        (λ k. EndsAt k i (
          s.programs
          ++ (routes_program host codecs chain a.now keys a.route a.headers s.limiter).0 ∷ []))
        (omega arith) (EndsAt-append n i s.programs _ h)
  happen-EndsAt n i (continues j) s h = turn-EndsAt n i j s.programs s.world h

  serve_events-EndsAt :
      (n i : ℕ) (events : List Event) (s : System)
      → EndsAt n i s.programs
      → EndsAt (n - turns_in i events) i (serve_events host codecs chain keys events s).programs
  unfolding serve_events
  serve_events-EndsAt n i [] s h = subst (λ k. EndsAt k i s.programs) (omega arith) h
  serve_events-EndsAt n i (e ∷ rest) s h =
      let s' = happen host codecs chain keys e s in
      subst (λ k. EndsAt k i (serve_events host codecs chain keys rest s').programs) (omega arith)
        (serve_events-EndsAt (n - count_turn i e) i rest s' (happen-EndsAt n i e s h))

  -- Each handler ends after a fixed number of awaits, whatever they return: none for liveness, one for
  -- build, status, balance and resolve, two for register and history, and seven for submit, where the
  -- drawing of an id counts as one. In any state of the server, a request that arrives gets the next
  -- number, and it has ended, with an answer or an error, as soon as it had so many turns, however
  -- they lie between the turns of the others. A turn is an await that completes: what an await itself
  -- waits for, such as a free connection of the pool, is not part of the statement.
  pub arrives-ends :
      (s : System) (a : Arrival) (events : List Event)
      → turns_for a.route ≤ turns_in (length s.programs) events
      → (r : Result Answer AppError) × (outcome_at
            (length s.programs)
            (serve_events host codecs chain keys (arrives a ∷ events) s).programs
          ≡ some r)
  unfolding serve_events happen
  arrives-ends s a events le =
      let i = length s.programs in
      let s' = happen host codecs chain keys (arrives a) s in
      let served = serve_events host codecs chain keys events s' in
      ended i served.programs (
        subst (λ k. EndsAt k i served.programs) (omega arith)
          (serve_events-EndsAt (turns_for a.route) i events s' (
            EndsAt-last (turns_for a.route) s.programs _
              (routes-EndsWithin host codecs chain a.now keys a.route a.headers s.limiter))))
