-- ===== src/App/Server/Completes.antt =====
-- Submissions of one key in a server where nothing fails: each is answered.
use mathlib.Core.Path.{subst}
use xend.Common.{
  ℕ, ◌≤◌, ◌≡◌, refl, sym, ap, ◌∙◌, inl, false, true, ◌==◌, any, List, ◌∷◌, All, length, some, ok,
}
use xend.Common.Text.{Text}
use xend.Common.Bytes.{Bytes}
use xend.Runtime.{Host}
use xend.Runtime.Program.Tracked.{SucceedsAt-answer}
use xend.Runtime.Program.Turns.{outcome_at}
use xend.Store.Transactions.{taken}
use xend.Chain.Adapter.{ChainAdapter}
use xend.Chain.Adapter.Laws.{LeavesTables}
use xend.Gateway.Auth.{is_authorized}
use xend.Gateway.RateLimit.{record_request}
use xend.Gateway.Router.{caller_of}
use xend.Handlers.Tx.{SubmitRequest}
use xend.Handlers.Tx.Retries.{Unsigned, FaultFree}
use xend.Handlers.Tx.Awaits.Race.{response_of}
use xend.Handlers.Tx.Awaits.Ready.{IsReady}
use xend.Handlers.Tx.Awaits.Completes.{Accepts}
use xend.Handlers.Requests.{submits, submitted, Codecs}
use xend.App.{versioned, responds, Arrival, State}
use xend.App.Server.{Event, arrives, started, happen, serve_events, arrivals_in}
use xend.App.Server.Safe.{happen-Safe, serve_events-Safe}
use xend.App.Server.Alone.{turns_for}
use xend.App.Server.Ends.{turns_in, arrives-ends}
use xend.App.Server.Tracked.{
  RouteIsOf, R, Any, Told, each-Handles, serve_events-SucceedsAt, admitted_at,
}

-- A submission that a server lets in is answered where nothing fails: with the network's signature
-- and the status `submitted`, as soon as it had seven turns, whatever turns the others had. The other
-- requests, before it and after it, are submissions of the same key with the same bytes, or write
-- nothing; they come at any moment, and the network may fail those that write nothing. The database
-- has no fault, the adapter accepts the bytes and leaves the tables, the key has no recorded
-- signature at first, no other key has the network's, and the uuids are new to the table.
pub server_completes :
    (host : Host) (codecs : Codecs) (chain : ChainAdapter) (key signature : Text) (signed : Bytes)
    (keys : List Text) (before after : List Event) (req : SubmitRequest) (a : Arrival) (s : State)
    → let middle = serve_events host codecs chain keys before (started s) in
      let last = serve_events host codecs chain keys (arrives a ∷ after) middle in
      LeavesTables chain
      → Accepts chain signed signature
      → FaultFree host 0
      → ((n : ℕ) → any (λ row. row.id == host.uuid n) s.1.db.transactions ≡ false)
      → Unsigned key s.1.db
      → taken key signature s.1.db.transactions ≡ false
      → All (λ x. RouteIsOf codecs key signed x.route) (arrivals_in before)
      → All (λ x. RouteIsOf codecs key signed x.route) (arrivals_in (arrives a ∷ after))
      → a.route ≡ versioned (submits req)
      → (record_request middle.limiter (caller_of a.headers) a.now).0 ≡ ok tt
      → is_authorized keys a.headers.authorization ≡ true
      → 7 ≤ turns_in (length middle.programs) after
      → outcome_at (length middle.programs) last.programs
        ≡ some (ok (responds (submitted (response_of signature))))
unfolding serve_events
server_completes host codecs chain key signature signed keys before after req a s law accepts quiet
      fresh new free earlier later route within valid le =
    let rows = s.1.db.transactions in
    let wallets = s.1.db.wallets in
    let ready : IsReady key signature rows wallets s.1.db = record {
      same_wallets = refl;
      free = free;
      claimed = inl refl;
      recorded = λ row found. inl (new row found);
    } in
    let middle = serve_events host codecs chain keys before (started s) in
    let arrived = happen host codecs chain keys (arrives a) middle in
    let last = serve_events host codecs chain keys after arrived in
    let each =
      each-Handles key signature rows wallets host codecs chain law signed accepts quiet fresh in
    let (safe, r) =
      serve_events-Safe host codecs chain (R key signature rows wallets)
        (Any key signature rows wallets) keys before (started s) (each (arrivals_in before) earlier)
        tt ready in
    let (safe', r', _) =
      happen-Safe host codecs chain (R key signature rows wallets) (Any key signature rows wallets)
        keys (arrives a) after middle (each (arrivals_in (arrives a ∷ after)) later) safe r in
    let is = subst (RouteIsOf codecs key signed) route later.0 in
    let tracked =
      serve_events-SucceedsAt key signature rows wallets host codecs chain law signed accepts quiet
        fresh keys (length middle.programs) after arrived later.1 safe' r'
        (admitted_at key signature rows wallets host codecs chain law signed accepts quiet fresh
          keys req a middle route is within valid) in
    let enough : turns_for a.route ≤ turns_in (length middle.programs) after =
      subst (λ r. turns_for r ≤ turns_in (length middle.programs) after) (sym route) le in
    let (result, ended) = arrives-ends host codecs chain keys middle a after enough in
    let (answer, e, told) =
      SucceedsAt-answer (R key signature rows wallets) (Told key signature rows wallets)
        (length middle.programs) last.programs result tracked ended in
    ended ∙ (ap some e ∙ ap (λ x. some (ok x)) told)
