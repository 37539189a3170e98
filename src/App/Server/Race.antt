-- ===== src/App/Server/Race.antt =====
-- Submissions of one key that race in a server, among requests of all kinds.
use mathlib.Core.Path.{subst}
use xend.Common.{
  ℕ, ◌≡◌, refl, sym, ap, ◌∙◌, Bool, false, inl, inr, List, [], ◌∷◌, some, ok, arith, All, get_elem?,
}
use xend.Common.Text.{Text, text}
use xend.Common.Bytes.{Bytes}
use xend.Runtime.{World, Host}
use xend.Runtime.Program.Shared.{Safe, AllSafe-AllAnswered}
use xend.Runtime.Program.Turns.{outcome_at, answered_at}
use xend.Runtime.Program.Awaits.{EachMoves-Safe}
use xend.Runtime.Program.Maps.{map-EachMoves, map-Safe}
use xend.Chain.Adapter.{ChainAdapter}
use xend.Chain.Adapter.Laws.{LeavesTables}
use xend.Handlers.Tx.{SubmitRequest}
use xend.Handlers.Tx.Retries.{Unsigned}
use xend.Handlers.Tx.Awaits.Recorded.{Recorded}
use xend.Handlers.Tx.Awaits.Race.{AnswersOnly, Carries, Promised, response_of, submit-Safe}
use xend.Handlers.Requests.{Request, submits, submitted, Codecs}
use xend.Handlers.Requests.Awaits.{respond_program}
use xend.Handlers.Requests.Awaits.Rows.{KeepsRows, row_rules}
use xend.Store.{Transaction, empty_db}
use xend.Handlers.Requests.Awaits.Rules.{is_submission, submission-cases, other-EachMoves}
use xend.App.{Route, liveness, versioned, Answer, responds, Arrival, State}
use xend.App.Server.{Event, started, handler_program, serve_events, arrivals_in}
use xend.App.Server.Safe.{Handles, serve_events-Safe}

-- A request of this route, if it is a submission of the key, carries the bytes.
abbrev pub RouteCarries : Codecs → Text → Bytes → Route → Type 0
RouteCarries codecs key signed (versioned (submits req)) = Carries codecs.base64 key signed req
RouteCarries codecs key signed other = Unit

abbrev pub key_of : Request → Text
key_of (submits req) = req.idempotency_key
key_of other = text ""

abbrev pub route_key : Route → Text
route_key liveness = text ""
route_key (versioned r) = key_of r

abbrev pub route_submits : Route → Bool
route_submits liveness = false
route_submits (versioned r) = is_submission r

module _ (key signature : Text) (host : Host) (codecs : Codecs) (chain : ChainAdapter)
    (law : LeavesTables chain) (signed : Bytes) (only : AnswersOnly chain signed signature) where
  abbrev I : World → Type 0
  I w = Recorded key signature w.db

  -- What a submission of the key is answered.
  abbrev Told : Arrival → Answer → Type 0
  Told a answer =
      (req : SubmitRequest)
      → a.route ≡ versioned (submits req)
      → req.idempotency_key ≡ key
      → answer ≡ responds (submitted (response_of signature))

  abbrev RecordedRows : List Transaction → Type 0
  RecordedRows rows = Recorded key signature (record empty_db { transactions = rows })

  submission-Safe :
      (a : Arrival) (req : SubmitRequest)
      → a.route ≡ versioned (submits req)
      → Carries codecs.base64 key signed req
      → Safe I (Told a) (handler_program host codecs chain (submits req))
  unfolding handler_program respond_program
  submission-Safe a req e c =
      map-Safe _ I (λ response. Told a (responds response)) (Told a) _ (λ response told. told)
        (map-Safe _ I (Promised key signature req.idempotency_key)
          (λ response. Told a (responds response)) _
          (λ response promised req' e' k.
            ap (λ x. responds (submitted x)) (promised (ap route_key (sym e ∙ e') ∙ k)))
          (submit-Safe key signature host codecs.base64 chain law signed only req c))

  other-Safe :
      (a : Arrival) (r : Request)
      → a.route ≡ versioned r
      → is_submission r ≡ false
      → Safe I (Told a) (handler_program host codecs chain r)
  unfolding handler_program
  other-Safe a r e other =
      EachMoves-Safe I (Told a) _
        (λ answer req e' k. absurd (ground (arith, sym other ∙ ap route_submits (sym e ∙ e'))))
        (map-EachMoves _ (KeepsRows RecordedRows) _ (
          other-EachMoves host codecs chain (KeepsRows RecordedRows)
            (row_rules RecordedRows host chain law) r other))

  request-Safe :
      (a : Arrival) (r : Request)
      → a.route ≡ versioned r
      → RouteCarries codecs key signed (versioned r)
      → Safe I (Told a) (handler_program host codecs chain r)
  request-Safe a r e c = elim (submission-cases r) [
    | inl (req, p) ↦
        subst (λ x. Safe I (Told a) (handler_program host codecs chain x)) (sym p)
          (submission-Safe a req (e ∙ ap versioned p)
            (subst (λ x. RouteCarries codecs key signed (versioned x)) p c))
    | inr other ↦ other-Safe a r e other
  ]

  handled :
      (a : Arrival) (route : Route)
      → a.route ≡ route
      → RouteCarries codecs key signed route
      → Handles host codecs chain I Told a route
  handled a liveness e c = λ req e' k. absurd (ground (arith, sym e ∙ e'))
  handled a (versioned r) e c = request-Safe a r e c

  each-Handles :
      (arrivals : List Arrival)
      → All (λ a. RouteCarries codecs key signed a.route) arrivals
      → All (λ a. Handles host codecs chain I Told a a.route) arrivals
  each-Handles [] h = tt
  each-Handles (a ∷ rest) (c, h) = (handled a a.route refl c, each-Handles rest h)

  -- Submissions that race in a server. However the awaits of any requests are interleaved, also
  -- with requests of other kinds that arrive at any moment, each submission of the key that has
  -- ended with an answer gave the same signature, with the status `submitted`. The submissions of the
  -- key carry the same bytes, the network answers these bytes with one signature only, the key has no
  -- recorded signature at first, and the adapter leaves the tables; submissions of other keys,
  -- refusals by the gateway and database faults are free.
  pub server_agrees :
      (keys : List Text) (events : List Event) (s : State) (i : ℕ) (a : Arrival)
      (req : SubmitRequest) (answer : Answer)
      → let s' = serve_events host codecs chain keys events (started s) in
        All (λ a. RouteCarries codecs key signed a.route) (arrivals_in events)
        → Unsigned key s.1.db
        → get_elem? s'.arrivals i ≡ some a
        → a.route ≡ versioned (submits req)
        → req.idempotency_key ≡ key
        → outcome_at i s'.programs ≡ some (ok answer)
        → answer ≡ responds (submitted (response_of signature))
  server_agrees keys events s i a req answer carries new here submission same ended =
      let s' = serve_events host codecs chain keys events (started s) in
      let (safe, kept) =
        serve_events-Safe host codecs chain I Told keys events (started s)
          (each-Handles (arrivals_in events) carries) tt (λ row found. inl (new row found)) in
      answered_at Told i s'.arrivals s'.programs a answer
        (AllSafe-AllAnswered I Told s'.arrivals s'.programs safe) here ended req submission same
