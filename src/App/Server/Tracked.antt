-- ===== src/App/Server/Tracked.antt =====
-- One submission in a server where nothing fails, among requests that keep what it needs.
use mathlib.Core.Path.{subst}
use xend.Common.{ℕ, ◌≡◌, refl, sym, ap, false, true, ◌==◌, any, List, [], ◌∷◌, All, length, ok}
use xend.Common.Text.{Text}
use xend.Common.Bytes.{Bytes}
use xend.Runtime.{World, Host}
use xend.Runtime.Program.Awaits.{EachMoves-Safe}
use xend.Runtime.Program.Maps.{map-EachMoves}
use xend.Runtime.Program.Shared.{Safe, AllSafe}
use xend.Runtime.Program.Succeeds.{Succeeds}
use xend.Runtime.Program.Tracked.{
  Succeeds-Safe, SucceedsAt, SucceedsAt-append, SucceedsAt-last, turn-SucceedsAt, map-Succeeds,
}
use xend.Store.{Db, Transaction, Wallet}
use xend.Chain.Adapter.{ChainAdapter}
use xend.Chain.Adapter.Laws.{LeavesTables}
use xend.Gateway.Auth.{is_authorized}
use xend.Gateway.RateLimit.{record_request}
use xend.Gateway.Router.{caller_of}
use xend.Handlers.Tx.{SubmitRequest}
use xend.Handlers.Tx.Retries.{FaultFree}
use xend.Handlers.Tx.Awaits.Race.{response_of}
use xend.Handlers.Tx.Awaits.Ready.{IsReady}
use xend.Handlers.Tx.Awaits.Completes.{Accepts, IsOf, submit-Succeeds}
use xend.Handlers.Requests.{
  Request, registers, asks_balance, asks_history, builds, submits, asks_status, resolves, submitted,
  Codecs,
}
use xend.Handlers.Requests.Awaits.{respond_program}
use xend.Handlers.Requests.Awaits.Rules.{is_read, read-EachMoves}
use xend.Handlers.Requests.Awaits.Reads.{KeepsTables, read_rules}
use xend.App.{Route, liveness, versioned, Answer, responds, Arrival}
use xend.App.Server.{
  Event, arrives, continues, System, handler_program, limited_program, authorized_program,
  routes_program, happen, serve_events, arrivals_in,
}
use xend.App.Server.Safe.{Handles, happen-Safe}

abbrev RequestIsOf : Codecs → Text → Bytes → Request → Type 0
RequestIsOf codecs key signed (submits req) = IsOf codecs.base64 key signed req
RequestIsOf codecs key signed (registers req) = ⊥
RequestIsOf codecs key signed other = Unit

-- The request is a submission of the key with the bytes, or writes nothing.
abbrev pub RouteIsOf : Codecs → Text → Bytes → Route → Type 0
RouteIsOf codecs key signed liveness = Unit
RouteIsOf codecs key signed (versioned r) = RequestIsOf codecs key signed r

module _ (key signature : Text) (rows : List Transaction) (wallets : List Wallet) where
  abbrev Tables : Db → Type 0
  Tables db = IsReady key signature rows wallets db

  abbrev pub R : World → Type 0
  R w = Tables w.db

  abbrev pub Any : Arrival → Answer → Type 0
  Any a answer = Unit

  abbrev pub Told : Answer → Type 0
  Told answer = answer ≡ responds (submitted (response_of signature))

  module _ (host : Host) (codecs : Codecs) (chain : ChainAdapter) (law : LeavesTables chain)
      (signed : Bytes) (accepts : Accepts chain signed signature) (quiet : FaultFree host 0)
      (fresh : (n : ℕ) → any (λ row. row.id == host.uuid n) rows ≡ false) where
    submission-Succeeds :
        (req : SubmitRequest)
        → IsOf codecs.base64 key signed req
        → Succeeds R Told (handler_program host codecs chain (submits req))
    unfolding handler_program respond_program
    submission-Succeeds req is =
        map-Succeeds responds R (λ response. Told (responds response)) Told _ (λ response h. h)
          (map-Succeeds submitted R (λ r. r ≡ response_of signature)
            (λ response. Told (responds response)) _ (λ r e. ap (λ x. responds (submitted x)) e)
            (submit-Succeeds key signature rows wallets host codecs.base64 chain law signed accepts
              quiet fresh req is))

    read-Safe :
        (r : Request)
        → is_read r ≡ true
        → Safe R (λ answer. Unit) (handler_program host codecs chain r)
    unfolding handler_program
    read-Safe r h =
        EachMoves-Safe R (λ answer. Unit) _ (λ answer. tt)
          (map-EachMoves responds (KeepsTables Tables) _ (
            read-EachMoves host codecs chain (KeepsTables Tables) (read_rules Tables host chain law)
              r h))

    request-Safe :
        (r : Request)
        → RequestIsOf codecs key signed r
        → Safe R (λ answer. Unit) (handler_program host codecs chain r)
    request-Safe (submits req) c = Succeeds-Safe R Told _ (submission-Succeeds req c)
    request-Safe (registers req) c = absurd c
    request-Safe (asks_balance pubkey mint) c = read-Safe (asks_balance pubkey mint) refl
    request-Safe (asks_history pubkey query) c = read-Safe (asks_history pubkey query) refl
    request-Safe (builds req) c = read-Safe (builds req) refl
    request-Safe (asks_status s) c = read-Safe (asks_status s) refl
    request-Safe (resolves name) c = read-Safe (resolves name) refl

    handled :
        (a : Arrival) (route : Route)
        → RouteIsOf codecs key signed route
        → Handles host codecs chain R Any a route
    handled a liveness c = tt
    handled a (versioned r) c = request-Safe r c

    pub each-Handles :
        (arrivals : List Arrival)
        → All (λ a. RouteIsOf codecs key signed a.route) arrivals
        → All (λ a. Handles host codecs chain R Any a a.route) arrivals
    each-Handles [] h = tt
    each-Handles (a ∷ rest) (c, h) = (handled a a.route c, each-Handles rest h)

    -- The submission with the number `i` goes on to its answer.
    pub serve_events-SucceedsAt :
        (keys : List Text) (i : ℕ) (events : List Event) (s : System)
        → All (λ a. RouteIsOf codecs key signed a.route) (arrivals_in events)
        → AllSafe R Any s.arrivals s.programs
        → R s.world
        → SucceedsAt R Told i s.programs
        → SucceedsAt R Told i (serve_events host codecs chain keys events s).programs
    unfolding serve_events happen
    serve_events-SucceedsAt keys i [] s h safe r at_i = at_i
    serve_events-SucceedsAt keys i (arrives a ∷ rest) s h safe r at_i =
        let (safe', r', _) =
          happen-Safe host codecs chain R Any keys (arrives a) rest s
            (each-Handles (arrivals_in (arrives a ∷ rest)) h) safe r in
        serve_events-SucceedsAt keys i rest (happen host codecs chain keys (arrives a) s) h.1 safe'
          r' (SucceedsAt-append R Told i s.programs _ at_i)
    serve_events-SucceedsAt keys i (continues j ∷ rest) s h safe r at_i =
        let (safe', r', _) =
          happen-Safe host codecs chain R Any keys (continues j) rest s
            (each-Handles (arrivals_in rest) h) safe r in
        serve_events-SucceedsAt keys i rest (happen host codecs chain keys (continues j) s) h safe'
          r' (turn-SucceedsAt R Told i j s.programs s.world at_i r)

    pub admitted_at :
        (keys : List Text) (req : SubmitRequest) (a : Arrival) (s : System)
        → a.route ≡ versioned (submits req)
        → IsOf codecs.base64 key signed req
        → (record_request s.limiter (caller_of a.headers) a.now).0 ≡ ok tt
        → is_authorized keys a.headers.authorization ≡ true
        → SucceedsAt R Told
            (length s.programs)
            (happen host codecs chain keys (arrives a) s).programs
    unfolding happen
    admitted_at keys req a s e is within valid = SucceedsAt-last R Told s.programs _ (
        subst
          (λ route.
            Succeeds R Told
              (routes_program host codecs chain a.now keys route a.headers s.limiter).0)
          (sym e)
          (unfold routes_program limited_program authorized_program in
            rw (within, valid) (submission-Succeeds req is)))
